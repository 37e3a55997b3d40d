-- ===== src/Scheduler/Liveness.antt =====
-- The idle thread keeps kernel/src/thread/scheduler.rs going: no call panics and none finds its
-- lock held, as long as that thread neither ends nor is killed.
use heine_os.Prelude.{
  ℕ, ◌<◌, ◌≡◌, ◌≢◌, refl, sym, ap, inl, inr, Bool, true, false, Option, none, some, ◌∷◌, done, ◌==◌,
  ==_iff, count, count-append, arith, subst,
}
use heine_os.Queue.Remove.{remove-Removes}
use heine_os.Queue.{LinkedQueue, remove, dequeue, enqueue}
use heine_os.Queue.Fifo.{to_list, dequeue-none}
use heine_os.Scheduler.{
  Thread, Scheduler, Control, returned, started, switched, Result, new_scheduler, schedule,
  yield_cpu, yield_to, exit, ready, kill, cleanup_terminated_threads,
}
use heine_os.Scheduler.Ownership.{state_of, count-enqueue, count-front}
use heine_os.Scheduler.Calls.{Call, schedules, yields, exits, readies, kills, cleans, step}

module _ (idle : ℕ) where
  abbrev pub is_idle : Thread → Bool
  is_idle thread = thread.id == idle

  -- The lock is free, a thread is active, and the idle thread is active or ready.
  pub record IsAlive (s : Scheduler) : Type 0 where
    pub free : s.locked ≡ false
    pub active : Thread
    pub runs : s.state.active_thread ≡ some active
    pub idle_there : 0 < count is_idle (active ∷ to_list s.state.ready_queue)

  -- The idle thread's loop has no end, and nobody kills it.
  abbrev pub Allowed : Scheduler → Call → Type 0
  Allowed s exits = (thread : Thread) → s.state.active_thread ≡ some thread → thread.id ≢ idle
  Allowed s (kills id) = id ≢ idle
  Allowed s _ = Unit

  -- What a call of a living scheduler comes to.
  pub record Lives (r : Result) : Type 0 where
    pub control : Control
    pub after : Scheduler
    pub result : r ≡ done (control, after)
    pub alive : IsAlive after

  Lives-at :
      (r : Result) (control : Control) (active : Thread) (queue ended : LinkedQueue Thread)
      (initialized : Bool)
      → r
        ≡ done (
          control,
          record { locked = false; state = state_of (some active) queue ended initialized },
        )
      → 0 < count is_idle (active ∷ to_list queue)
      → Lives r
  Lives-at r control active queue ended i e h = record {
    control = control;
    after = _;
    result = e;
    alive = record { free = refl; active = active; runs = refl; idle_there = h };
  }

  module _ (t : Thread) (queue ended : LinkedQueue Thread) (i : Bool) where
    -- A living scheduler, its parts named.
    abbrev alive_with : Scheduler
    alive_with = record { locked = false; state = state_of (some t) queue ended i }

    exit-Lives :
        (front : Option Thread) (rest : LinkedQueue Thread)
        → dequeue queue ≡ (front, rest)
        → t.id ≢ idle
        → 0 < count is_idle (t ∷ to_list queue)
        → Lives (exit alive_with)
    unfolding exit
    exit-Lives none rest e ne h =
        absurd (ground (arith, ap (count is_idle) (dequeue-none queue rest e)))
    exit-Lives (some n) rest e ne h = rw e (
        Lives-at _ (switched t n) n rest (enqueue ended t) i refl
          (ground (arith, count-front is_idle queue (some n) rest e)))

    yield-Lives :
        (front : Option Thread) (rest : LinkedQueue Thread)
        → dequeue queue ≡ (front, rest)
        → 0 < count is_idle (t ∷ to_list queue)
        → Lives (yield_to (state_of (some t) queue ended i) front rest)
    unfolding yield_to
    yield-Lives none rest e h =
        Lives-at _ returned t rest ended i refl
          (omega (arith, count-front is_idle queue none rest e))
    yield-Lives (some n) rest e h =
        Lives-at _ (switched t n) n (enqueue rest t) ended i refl
          (omega (arith, count-front is_idle queue (some n) rest e, count-enqueue is_idle rest t))

    kill_keeps :
        (id : ℕ)
        → id ≢ idle
        → let has_id = λ (thread : Thread). thread.id == id in
          count is_idle (to_list (remove has_id queue).1) ≡ count is_idle (to_list queue)
    kill_keeps id ne = elim (remove-Removes (λ thread. thread.id == id) queue) [
      | inl (_, w) ↦ ground (
        arith,
        w.fits,
        ap (count is_idle) w.whole,
        ap (count is_idle) w.left,
        count-append is_idle w.before (w.item ∷ w.after),
        count-append is_idle w.before w.after,
      )
      | inr (_, same, _) ↦ ap (count is_idle) same
    ]

    kill-Lives :
        (id : ℕ) → id ≢ idle → 0 < count is_idle (t ∷ to_list queue) → Lives (kill alive_with id)
    unfolding kill
    kill-Lives id ne h = Lives-at _ returned t _ ended i refl (omega (arith, kill_keeps id ne))

  yield-Lives_any :
      (held : Bool) (t : Thread) (queue ended : LinkedQueue Thread) (i : Bool)
      → 0 < count is_idle (t ∷ to_list queue)
      → Lives (yield_cpu held (alive_with t queue ended i))
  unfolding yield_cpu
  yield-Lives_any true t queue ended true h = Lives-at _ returned t queue ended true refl h
  yield-Lives_any true t queue ended false h = Lives-at _ returned t queue ended false refl h
  yield-Lives_any false t queue ended true h = yield-Lives t queue ended true _ _ refl h
  yield-Lives_any false t queue ended false h = Lives-at _ returned t queue ended false refl h

  step_at-Lives :
      (c : Call) (t : Thread) (queue ended : LinkedQueue Thread) (i : Bool)
      → 0 < count is_idle (t ∷ to_list queue)
      → Allowed (alive_with t queue ended i) c
      → Lives (step (alive_with t queue ended i) c)
  unfolding step schedule ready cleanup_terminated_threads
  step_at-Lives schedules t queue ended i h ok = Lives-at _ (started t) t queue ended true refl h
  step_at-Lives (yields held) t queue ended i h ok = yield-Lives_any held t queue ended i h
  step_at-Lives exits t queue ended i h ok = exit-Lives t queue ended i _ _ refl (ok t refl) h
  step_at-Lives (readies thread) t queue ended i h ok =
      Lives-at _ returned t (enqueue queue thread) ended i refl
        (omega (arith, count-enqueue is_idle queue thread))
  step_at-Lives (kills id) t queue ended i h ok = kill-Lives t queue ended i id ok h
  step_at-Lives cleans t queue ended i h ok = Lives-at _ returned t queue _ i refl h

  literal :
      (s : Scheduler) (t : Thread)
      → s.locked ≡ false
      → s.state.active_thread ≡ some t
      → s ≡ alive_with t s.state.ready_queue s.state.terminated_threads s.state.initialized
  literal s t free runs = ground arith

  pub step-Lives : (s : Scheduler) (c : Call) → IsAlive s → Allowed s c → Lives (step s c)
  step-Lives s c a ok =
      let e = literal s a.active a.free a.runs in
      subst (λ t. Lives (step t c)) (sym e)
        (step_at-Lives c a.active _ _ _ a.idle_there (subst (λ t. Allowed t c) e ok))

  -- Any calls that the idle thread allows, `schedule` among them, one after the other.
  pub data Reach (first : Scheduler) : Scheduler → Type 0 where
    here : Reach first first
    next :
        {s after : Scheduler} (c : Call) (control : Control)
        → Reach first s
        → Allowed s c
        → step s c ≡ done (control, after)
        → Reach first after

  Lives-IsAlive :
      {r : Result} {control : Control} {s : Scheduler} → Lives r → r ≡ done (control, s) → IsAlive s
  Lives-IsAlive {s = s} l e = subst IsAlive (ground (arith, l.result)) l.alive

  Reach-IsAlive : {first s : Scheduler} → IsAlive first → Reach first s → IsAlive s
  Reach-IsAlive a here = a
  Reach-IsAlive a (next {s = s} c control r ok e) =
      Lives-IsAlive (step-Lives s c (Reach-IsAlive a r) ok) e

new-IsAlive : (thread : Thread) → IsAlive thread.id (new_scheduler thread)
unfolding new_scheduler
new-IsAlive thread = record {
  free = refl;
  active = thread;
  runs = refl;
  idle_there = ground (arith, ==_iff thread.id thread.id);
}

-- From `Scheduler::new` on, through any calls, `schedule` among them, as long as the idle thread
-- neither ends nor is killed, every call returns, starts or switches: none panics at an empty queue and none waits for the lock, and afterwards
-- the lock is free, a thread is active and the idle thread is active or ready.
pub never_stuck :
    (thread : Thread) {s : Scheduler} (c : Call)
    → Reach thread.id (new_scheduler thread) s
    → Allowed thread.id s c
    → Lives thread.id (step s c)
never_stuck thread {s} c r ok =
    step-Lives thread.id s c (Reach-IsAlive thread.id (new-IsAlive thread) r) ok

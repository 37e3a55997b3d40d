-- ===== src/Scheduler/Rotation.antt =====
-- Round robin: what `yield_cpu` of kernel/src/thread/scheduler.rs does to the threads that wait.
use heine_os.Prelude.{
  ℕ, zero, suc, ◌≡◌, refl, sym, ap, ◌∙◌, true, false, Option, none, some, List, [], ◌∷◌, ◌++◌,
  Outcome, done, ◌>>=◌, append_assoc, append-nil, length, arith,
}
use heine_os.Queue.{LinkedQueue, enqueue}
use heine_os.Queue.Fifo.{to_list, to_list-enqueue, Dequeues, dequeue-Dequeues}
use heine_os.Scheduler.{
  Thread, Scheduler, Control, returned, switched, unlocked, Result, yield_cpu, yield_to,
}

-- The threads of a scheduler that runs: the active one, those ready in the order in which they
-- wait, and those that have ended.
pub record View : Type 0 where
  pub active : Thread
  pub waiting : List Thread
  pub ended : List Thread

-- The scheduler is started, its lock is free, and these are its threads.
pub record Shows (s : Scheduler) (v : View) : Type 0 where
  pub free : s.locked ≡ false
  pub started_ : s.state.initialized ≡ true
  pub active_is : s.state.active_thread ≡ some v.active
  pub waiting_are : to_list s.state.ready_queue ≡ v.waiting
  pub ended_are : to_list s.state.terminated_threads ≡ v.ended

-- One turn of the ring of threads.
pub turn : View → List Thread → View
turn v [] = v
turn v (next ∷ rest) = record v { active = next; waiting = rest ++ v.active ∷ [] }

abbrev pub rotate : View → View
rotate v = turn v v.waiting

pub handed : View → List Thread → Control
handed v [] = returned
handed v (next ∷ rest) = switched v.active next

-- What a call returns, and the threads that it leaves.
pub record Comes (r : Result) (control : Control) (v : View) : Type 0 where
  pub after : Scheduler
  pub result : r ≡ done (control, after)
  pub shows : Shows after v

module _ {s : Scheduler} {v : View} (h : Shows s v) where
  yield_from :
      (waiting : List Thread) (front : Option Thread) (rest : LinkedQueue Thread)
      → v.waiting ≡ waiting
      → Dequeues waiting (front, rest)
      → Comes (yield_to s.state front rest) (handed v waiting) (turn v waiting)
  unfolding yield_to handed turn
  yield_from [] none rest e d = record {
    after = _;
    result = refl;
    shows = record {
      free = refl;
      started_ = h.started_;
      active_is = h.active_is;
      waiting_are = d.1 ∙ sym e;
      ended_are = h.ended_are;
    };
  }
  yield_from [] (some x) rest e d = cc
  yield_from (next ∷ others) none rest e d = cc
  yield_from (next ∷ others) (some x) rest e d = record {
    after =
        unlocked (record s.state { active_thread = some x; ready_queue = enqueue rest v.active });
    result = rw h.active_is (cc);
    shows = record {
      free = refl;
      started_ = h.started_;
      active_is = d.0;
      waiting_are = to_list-enqueue rest v.active ∙ ap (λ ts. ts ++ v.active ∷ []) d.1;
      ended_are = h.ended_are;
    };
  }

  -- Started, with its lock and the allocator's free, `yield_cpu` makes one turn of the ring: the
  -- thread that has waited longest runs, and the one that ran waits behind all others.
  pub yield_cpu-Comes : Comes (yield_cpu false s) (handed v v.waiting) (rotate v)
  unfolding yield_cpu
  yield_cpu-Comes =
      simp (h.free, h.started_)
        (yield_from v.waiting _ _ refl (rw h.waiting_are at (dequeue-Dequeues s.state.ready_queue)))

-- As many calls of `yield_cpu`, one by each thread that gets the processor.
unfoldable pub yields : ℕ → Scheduler → Outcome Scheduler
yields zero s = done s
yields (suc n) s = do (control, after) ← yield_cpu false s; yields n after

pub rotates : ℕ → View → View
rotates zero v = v
rotates (suc n) v = rotates n (rotate v)

record Yielded (r : Outcome Scheduler) (v : View) : Type 0 where
  after : Scheduler
  result : r ≡ done after
  shows : Shows after v

yields-Yielded : (n : ℕ) {s : Scheduler} {v : View} → Shows s v → Yielded (yields n s) (rotates n v)
unfolding yields rotates
yields-Yielded zero h = record { after = _; result = refl; shows = h }
yields-Yielded (suc n) h =
    let c = yield_cpu-Comes h in
    let y = yields-Yielded n c.shows in
    record { after = y.after; result = rw c.result y.result; shows = y.shows }

abbrev ring : View → List Thread
ring v = v.active ∷ v.waiting

ring-turn : (v : View) (ts : List Thread) → v.waiting ≡ ts → ring (turn v ts) ≡ ts ++ v.active ∷ []
unfolding turn
ring-turn v [] e = rw e
ring-turn v (t ∷ ts) e = refl

to_back :
    (a x : Thread) (w xs ys : List Thread)
    → a ∷ w ≡ x ∷ (xs ++ ys)
    → w ++ a ∷ [] ≡ xs ++ (ys ++ x ∷ [])
to_back a x w xs ys e =
    let head : a ≡ x = cc in
    let rest : w ≡ xs ++ ys = cc in rw (head, rest) (append_assoc xs ys (x ∷ []))

-- Turning past the threads of `xs` brings them, in order, behind all others.
ring-rotates :
    (xs ys : List Thread) (v : View) → ring v ≡ xs ++ ys → ring (rotates (length xs) v) ≡ ys ++ xs
unfolding rotates
ring-rotates [] ys v e = e ∙ sym (append-nil ys)
ring-rotates (x ∷ xs) ys v e =
    ring-rotates xs (ys ++ x ∷ []) (rotate v)
      (ring-turn v v.waiting refl ∙ to_back v.active x v.waiting xs ys e)
    ∙ append_assoc ys (x ∷ []) xs

ended-rotates : (n : ℕ) (v : View) → (rotates n v).ended ≡ v.ended
unfolding rotates turn
ended-rotates zero v = refl
ended-rotates (suc n) v = ended-rotates n (rotate v) ∙ ended-turn v v.waiting
  where
    ended-turn : (v : View) (ts : List Thread) → (turn v ts).ended ≡ v.ended
    ended-turn v [] = refl
    ended-turn v (t ∷ ts) = refl

same_view : (v w : View) → ring v ≡ ring w → v.ended ≡ w.ended → v ≡ w
same_view v w e d = ground arith

-- After as many calls of `yield_cpu` as there are threads, each has run, and the scheduler is
-- where it was: no thread waits for more than one round.
pub full_round :
    {s : Scheduler} {v : View}
    → Shows s v
    → (after : Scheduler) × (yields (suc (length v.waiting)) s ≡ done after) × Shows after v
full_round {s} {v} h =
    let y = yields-Yielded (length (ring v)) h in (y.after, y.result, rw back at y.shows)
  where
    back : rotates (length (ring v)) v ≡ v
    back =
        same_view _ v (ring-rotates (ring v) [] v (sym (append-nil (ring v))))
          (ended-rotates (length (ring v)) v)

-- A thread that waits at place `k` runs after `k + 1` calls of `yield_cpu`.
pub every_thread_runs :
    {s : Scheduler} {v : View} (before : List Thread) (thread : Thread) (behind : List Thread)
    → Shows s v
    → v.waiting ≡ before ++ thread ∷ behind
    → (after : Scheduler) × (yields (suc (length before)) s ≡ done after)
      × (after.state.active_thread ≡ some thread)
every_thread_runs {s} {v} before thread behind h e =
    let y = yields-Yielded (length (v.active ∷ before)) h in
    (y.after, y.result, y.shows.active_is ∙ front)
  where
    front : some (rotates (length (v.active ∷ before)) v).active ≡ some thread
    front = cc (ring-rotates (v.active ∷ before) (thread ∷ behind) v (ap (◌∷◌ v.active) e))

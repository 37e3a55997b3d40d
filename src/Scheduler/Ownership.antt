-- ===== src/Scheduler/Ownership.antt =====
-- No call of kernel/src/thread/scheduler.rs loses a thread or doubles one.
use heine_os.Prelude.{
  ℕ, ◌+◌, ◌≡◌, refl, ap, ◌⊎◌, inl, inr, Bool, true, false, Option, none, some, List, [], ◌∷◌, done,
  panics, spins, ◌==◌, count, count-append, ==_iff, arith, subst,
}
use heine_os.Queue.{LinkedQueue, Link, null, node, enqueue, dequeue}
use heine_os.Queue.Fifo.{to_list, to_list-enqueue, Dequeues, dequeue-Dequeues}
use heine_os.Queue.Remove.{remove-Removes}
use heine_os.Scheduler.{
  Thread, SchedulerState, Scheduler, Control, Result, schedule, yield_cpu, yield_to, exit, ready,
  kill, cleanup_terminated_threads, drop_all,
}
use heine_os.Scheduler.Calls.{Call, schedules, yields, exits, readies, kills, cleans, step}

abbrev pub actives : Option Thread → List Thread
actives none = []
actives (some thread) = thread ∷ []

-- Of the threads that a scheduler holds, how many pass a test.
pub tally : (Thread → Bool) → SchedulerState → ℕ
tally p st =
    count p (actives st.active_thread)
    + count p (to_list st.ready_queue)
    + count p (to_list st.terminated_threads)

-- The threads that a call brings in.
abbrev pub came : Call → List Thread
came (readies thread) = thread ∷ []
came _ = []

-- The threads that a call may drop.
abbrev pub MayDrop : SchedulerState → Call → List Thread → Type 0
MayDrop st (kills id) dropped =
    (dropped ≡ []) ⊎ ((thread : Thread) × (dropped ≡ thread ∷ []) × (thread.id ≡ id))
MayDrop st cleans dropped = (dropped ≡ []) ⊎ (dropped ≡ to_list st.terminated_threads)
MayDrop st _ dropped = dropped ≡ []

pub record Accounts (st : SchedulerState) (c : Call) (after : SchedulerState) : Type 0 where
  pub dropped : List Thread
  pub balance :
      (p : Thread → Bool) → tally p after + count p dropped ≡ tally p st + count p (came c)
  pub only : MayDrop st c dropped

-- A property of the state in which a call ends, if it ends.
abbrev pub Ends : Result → (SchedulerState → Type 0) → Type 0
Ends (done (control, s)) P = P s.state
Ends panics P = Unit
Ends spins P = Unit

pub count-enqueue :
    (p : Thread → Bool) (q : LinkedQueue Thread) (thread : Thread)
    → count p (to_list (enqueue q thread)) ≡ count p (to_list q) + count p (thread ∷ [])
count-enqueue p q thread = rw (to_list-enqueue q thread) (count-append p (to_list q) (thread ∷ []))

count-dequeue :
    (p : Thread → Bool) (xs : List Thread) (front : Option Thread) (rest : LinkedQueue Thread)
    → Dequeues xs (front, rest)
    → count p xs ≡ count p (actives front) + count p (to_list rest)
count-dequeue p [] none rest d = rw d.1
count-dequeue p [] (some x) rest d = cc
count-dequeue p (y ∷ ys) none rest d = cc
count-dequeue p (y ∷ ys) (some x) rest d = let same : x ≡ y = cc in rw (same, d.1) (omega arith)

module _ (active : Option Thread) (queue ended : LinkedQueue Thread) (initialized : Bool) where
  abbrev pub state_of : SchedulerState
  state_of = record {
    active_thread = active;
    ready_queue = queue;
    terminated_threads = ended;
    initialized = initialized;
  }

pub count-front :
    (p : Thread → Bool) (queue : LinkedQueue Thread) (front : Option Thread)
    (rest : LinkedQueue Thread)
    → dequeue queue ≡ (front, rest)
    → count p (to_list queue) ≡ count p (actives front) + count p (to_list rest)
count-front p queue front rest e =
    count-dequeue p (to_list queue) front rest (rw e at (dequeue-Dequeues queue))

exit_at :
    (active : Option Thread) (queue ended : LinkedQueue Thread) (initialized : Bool)
    (front : Option Thread) (rest : LinkedQueue Thread)
    → dequeue queue ≡ (front, rest)
    → let st = state_of active queue ended initialized in
      Ends (exit (record { locked = false; state = st })) (Accounts st exits)
unfolding exit tally
exit_at none queue ended i front rest e = tt
exit_at (some t) queue ended i none rest e = rw e tt
exit_at (some t) queue ended i (some n) rest e = rw e (record {
  dropped = [];
  only = refl;
  balance = λ p. omega (arith, count-front p queue (some n) rest e, count-enqueue p ended t);
})

yield_to_at :
    (active : Option Thread) (queue ended : LinkedQueue Thread) (initialized : Bool)
    (front : Option Thread) (rest : LinkedQueue Thread) (held : Bool)
    → dequeue queue ≡ (front, rest)
    → let st = state_of active queue ended initialized in
      Ends (yield_to st front rest) (Accounts st (yields held))
unfolding yield_to tally
yield_to_at active queue ended i none rest held e = record {
  dropped = [];
  only = refl;
  balance = λ p. omega (arith, count-front p queue none rest e);
}
yield_to_at none queue ended i (some n) rest held e = tt
yield_to_at (some t) queue ended i (some n) rest held e = record {
  dropped = [];
  only = refl;
  balance = λ p. omega (arith, count-front p queue (some n) rest e, count-enqueue p rest t);
}

unchanged : (st : SchedulerState) (c : Call) → came c ≡ [] → MayDrop st c [] → Accounts st c st
unchanged st c e may = record { dropped = []; only = may; balance = λ p. rw e }

yield_at :
    (held locked : Bool) (active : Option Thread) (queue ended : LinkedQueue Thread)
    (initialized : Bool)
    → let st = state_of active queue ended initialized in
      Ends (yield_cpu held (record { locked = locked; state = st })) (Accounts st (yields held))
unfolding yield_cpu
yield_at held true active queue ended i = unchanged _ (yields held) refl refl
yield_at true false active queue ended true = unchanged _ (yields true) refl refl
yield_at true false active queue ended false = unchanged _ (yields true) refl refl
yield_at false false active queue ended true = yield_to_at active queue ended true _ _ false refl
yield_at false false active queue ended false = unchanged _ (yields false) refl refl

kill_at :
    (st : SchedulerState) (id : ℕ)
    → Ends (kill (record { locked = false; state = st }) id) (Accounts st (kills id))
unfolding kill tally
kill_at st id = elim (remove-Removes (λ (thread : Thread). thread.id == id) st.ready_queue) [
  | inl (e, w) ↦ record {
    dropped = w.item ∷ [];
    only = inr (w.item, refl, (==_iff _ _).0 w.fits);
    balance = λ p. omega (
      arith,
      ap (count p) w.whole,
      ap (count p) w.left,
      count-append p w.before (w.item ∷ w.after),
      count-append p w.before w.after,
    );
  }
  | inr (e, same, miss) ↦ record {
    dropped = [];
    only = inl refl;
    balance = λ p. omega (arith, ap (count p) same);
  }
]

drop_all-nil : (link : Link Thread) → to_list (drop_all link) ≡ []
unfolding drop_all to_list
drop_all-nil null = refl
drop_all-nil (node thread next) = drop_all-nil next

clean_at :
    (locked : Bool) (st : SchedulerState)
    → Ends
        (cleanup_terminated_threads (record { locked = locked; state = st }))
        (Accounts st cleans)
unfolding cleanup_terminated_threads tally
clean_at true st = unchanged st cleans refl (inl refl)
clean_at false st = record {
  dropped = to_list st.terminated_threads;
  only = inr refl;
  balance = λ p. omega (arith, ap (count p) (drop_all-nil st.terminated_threads.head));
}

schedule_at :
    (active : Option Thread) (queue ended : LinkedQueue Thread) (initialized : Bool)
    → let st = state_of active queue ended initialized in
      Ends (schedule (record { locked = false; state = st })) (Accounts st schedules)
unfolding schedule tally
schedule_at none queue ended i = tt
schedule_at (some t) queue ended i = record { dropped = []; only = refl; balance = λ p. refl }

step_at :
    (locked : Bool) (st : SchedulerState) (c : Call)
    → Ends (step (record { locked = locked; state = st }) c) (Accounts st c)
unfolding step schedule ready tally exit kill
step_at true st schedules = tt
step_at false st schedules = schedule_at _ _ _ _
step_at locked st (yields held) = yield_at held locked _ _ _ _
step_at true st exits = tt
step_at false st exits = exit_at _ _ _ _ _ _ refl
step_at true st (readies thread) = tt
step_at false st (readies thread) = record {
  dropped = [];
  only = refl;
  balance = λ p. omega (arith, count-enqueue p st.ready_queue thread);
}
step_at true st (kills id) = tt
step_at false st (kills id) = kill_at st id
step_at locked st cleans = clean_at locked st

-- Every call that ends accounts for all threads: for every test, the threads that pass it
-- afterwards, with those that the call dropped, are as many as before, with the one that it brought
-- in. Only `kill` drops a thread that could run, at most one and only with the given id; only
-- `cleanup_terminated_threads` drops others, and they are the terminated ones.
pub step-Accounts :
    (s : Scheduler) (c : Call) {control : Control} {after : Scheduler}
    → step s c ≡ done (control, after)
    → Accounts s.state c after.state
step-Accounts s c e = subst (λ r. Ends r (Accounts s.state c)) e (step_at s.locked s.state c)

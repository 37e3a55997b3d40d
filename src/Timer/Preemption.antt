-- ===== src/Timer/Preemption.antt =====
-- kernel/src/device/pit.rs with kernel/src/thread/scheduler.rs: the ticks of the timer take the
-- processor from the threads in turn.
use heine_os.Prelude.{
  ℕ, zero, suc, ◌+◌, ◌-◌, ◌*◌, ◌/◌, ◌%◌, ◌^◌, ◌<◌, ◌≡◌, refl, sym, ap, subst, ◌∙◌, false, some,
  List, ◌∷◌, ◌++◌, length, get_or, if◌then◌else◌, ◌==◌, split, Outcome, done, ◌>>=◌, arith,
}
use native.Mathlib.Nat.{mod-eq_of_lt}
use heine_os.Framebuffer.{Framebuffer, color, black, draw_char}
use heine_os.Framebuffer.Inside.{char-Draws, IsWide}
use heine_os.Scheduler.{Scheduler, Thread, Control, yield_cpu, returned}
use heine_os.Scheduler.Rotation.{
  View, Shows, yield_cpu-Comes, rotate, handed, yields, every_thread_runs,
}
use heine_os.Timer.{Kernel, spinner_chars, spinner_char, show_spinner, switch_threads, trigger}

-- How many of the ticks from a time on call the scheduler.
abbrev due : ℕ → ℕ → ℕ
due t zero = 0
due t (suc n) = (if t % 10 == 0 then 1 else 0) + due (t + 1) n

due-div : (t n : ℕ) → due t n ≡ (t + n + 9) / 10 - (t + 9) / 10
due-div t zero = omega arith
due-div t (suc n) = ground (arith, due-div (t + 1) n)

one_more : (n : ℕ) → 1 + n ≡ suc n
one_more n = omega arith

none_more : (n : ℕ) → 0 + n ≡ n
none_more n = omega arith

due_tens : (t k : ℕ) → due t (10 * k) ≡ k
due_tens t k = omega (arith, due-div t (10 * k))

small : (time : ℕ) → spinner_char time < 256
small time = choice (time / 250 % 4)
  where
    choice : (n : ℕ) → get_or spinner_chars n 0 < 256
    choice zero = omega arith
    choice (suc zero) = omega arith
    choice (suc (suc zero)) = omega arith
    choice (suc (suc (suc zero))) = omega arith
    choice (suc (suc (suc (suc n)))) = omega arith

module _ (fb : Framebuffer) (font : List ℕ) where
  -- Ticks, one after another, each in the thread that then runs.
  unfoldable pub ticks : ℕ → Kernel → Outcome Kernel
  ticks zero k = done k
  ticks (suc n) k = trigger fb font 1 false k >>= λ (way, after). ticks n after

  module _ (wide : IsWide fb) (full : length font ≡ 2048) where
    -- The spinner leaves all but the screen as it is.
    record Spun (k : Kernel) (r : Outcome Kernel) : Type 0 where
      after : Kernel
      result : r ≡ done after
      time_is : after.system_time ≡ k.system_time
      scheduler_is : after.scheduler ≡ k.scheduler

    kept-Spun : (k : Kernel) → Spun k (done k)
    kept-Spun k = record { after = k; result = refl; time_is = refl; scheduler_is = refl }

    show_spinner-Spun : (time : ℕ) (k : Kernel) → Spun k (show_spinner fb font time k)
    unfolding show_spinner
    show_spinner-Spun time k =
        let d =
          char-Draws fb wide font full (spinner_char time) 768 16 (color 170 170 170) black k.screen
            (small time) in
        let drawn : Outcome Kernel =
          draw_char fb font (spinner_char time) 768 16 (color 170 170 170) black k.screen
          >>= λ screen. done (record k { screen = screen }) in
        split (λ b. Spun k (if b then (if k.screen_locked then done k else drawn) else done k))
          (time % 250 == 0)
          (λ _.
            split (λ b. Spun k (if b then done k else drawn)) k.screen_locked (λ _. kept-Spun k)
              (λ _. record {
                after = record k { screen = d.picture };
                result = rw d.result refl;
                time_is = refl;
                scheduler_is = refl;
              }))
          (λ _. kept-Spun k)

    -- The end of a tick: every tenth one hands the processor on.
    record Switched (time : ℕ) (k : Kernel) (r : Outcome (Control × Kernel)) : Type 0 where
      way : Control
      after : Kernel
      result : r ≡ done (way, after)
      time_is : after.system_time ≡ k.system_time
      view : View
      shows : Shows after.scheduler view
      earlier :
          (n : ℕ) (r : Outcome Scheduler)
          → yields n after.scheduler ≡ r
          → yields ((if time % 10 == 0 then 1 else 0) + n) k.scheduler ≡ r

    switch_threads-Switched :
        (time : ℕ) (k : Kernel) {v : View}
        → Shows k.scheduler v
        → Switched time k (switch_threads fb font false time k)
    unfolding switch_threads yields
    switch_threads-Switched time k {v} h =
        let c = yield_cpu-Comes h in
        let yielding : Outcome (Control × Kernel) =
          yield_cpu false k.scheduler >>= λ (way, scheduler).
          done (way, record k { vectors_locked = false; scheduler = scheduler }) in
        split
          (λ b.
            (b ≡ (time % 10 == 0)) → Switched time k (if b then yielding else done (returned, k)))
          (time % 10 == 0)
          (λ e f. record {
            way = handed v v.waiting;
            after = record k { vectors_locked = false; scheduler = c.after };
            result = rw c.result refl;
            time_is = refl;
            view = rotate v;
            shows = c.shows;
            earlier = λ n r p.
                ap (λ b. yields ((if b then 1 else 0) + n) k.scheduler) (sym f)
                ∙ ap (λ (n : ℕ). yields n k.scheduler) (one_more n)
                ∙ rw (c.result) p;
          })
          (λ e f. record {
            way = returned;
            after = k;
            result = refl;
            time_is = refl;
            view = v;
            shows = h;
            earlier = λ n r p.
                ap (λ b. yields ((if b then 1 else 0) + n) k.scheduler) (sym f)
                ∙ ap (λ (n : ℕ). yields n k.scheduler) (none_more n)
                ∙ p;
          })
          refl

    -- As many ticks: the time goes on, and every tenth the processor goes to the next thread.
    record Ticked (n : ℕ) (k : Kernel) (r : Outcome Kernel) : Type 0 where
      after : Kernel
      result : r ≡ done after
      yielded : yields (due k.system_time n) k.scheduler ≡ done after.scheduler

    ticks-Ticked :
        (n : ℕ) (k : Kernel) {v : View}
        → Shows k.scheduler v
        → k.system_time + n < 2 ^ 64
        → Ticked n k (ticks n k)
    unfolding ticks trigger yields
    ticks-Ticked zero k h l = record { after = k; result = refl; yielded = refl }
    ticks-Ticked (suc n) k {v} h l =
        let s =
          show_spinner-Spun k.system_time
            (record k { system_time = (k.system_time + 1) % 2 ^ 64 }) in
        let shows : Shows s.after.scheduler v = subst (λ x. Shows x v) (sym s.scheduler_is) h in
        let w = switch_threads-Switched k.system_time s.after shows in
        let t = w.after in
        let now : t.system_time ≡ k.system_time + 1 =
          w.time_is ∙ s.time_is ∙ mod-eq_of_lt (omega arith) in
        let later = ticks-Ticked n t w.shows (omega (arith, now)) in
        record {
          after = later.after;
          result = rw (s.result, w.result) later.result;
          yielded =
              ap (λ (x : Scheduler). yields (due k.system_time (suc n)) x) (sym s.scheduler_is)
              ∙ w.earlier (due (k.system_time + 1) n) (done later.after.scheduler)
                  (ap (λ (x : ℕ). yields (due x n) t.scheduler) (sym now) ∙ later.yielded);
        }

done-inj : {a b : Scheduler} → done a ≡ done b → a ≡ b
done-inj h = cc

-- On a started scheduler with a free lock, with the lock of the allocator free at each tick, the
-- system time below 2^64 throughout, a full font and rows of the screen that have room for their
-- pixels, the thread that waits at place k of the ready queue is the active thread after ten times
-- k + 1 ticks, each of which ends, whether or not the screen is locked.
pub preempted :
    (fb : Framebuffer) (font : List ℕ) (k : Kernel) (v : View) (before : List Thread)
    (thread : Thread) (behind : List Thread)
    → IsWide fb
    → length font ≡ 2048
    → Shows k.scheduler v
    → v.waiting ≡ before ++ thread ∷ behind
    → k.system_time + 10 * suc (length before) < 2 ^ 64
    → (after : Kernel) × (ticks fb font (10 * suc (length before)) k ≡ done after)
      × (after.scheduler.state.active_thread ≡ some thread)
preempted fb font k v before thread behind wide full shows e l =
    let w = ticks-Ticked fb font wide full (10 * suc (length before)) k shows l in
    let (after, run, active) = every_thread_runs before thread behind shows e in
    let same : w.after.scheduler ≡ after = done-inj (
      sym w.yielded
      ∙ ap (λ (n : ℕ). yields n k.scheduler) (due_tens k.system_time (suc (length before)))
      ∙ run) in
    (w.after, w.result, ap (λ (s : Scheduler). s.state.active_thread) same ∙ active)

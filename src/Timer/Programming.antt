-- ===== src/Timer/Programming.antt =====
-- kernel/src/device/pit.rs: what the timer is told, and how long `wait` waits.
use Prim.Native.Nat.{bit_and}
use heine_os.Prelude.{
  ℕ, zero, suc, ◌+◌, ◌-◌, ◌*◌, ◌/◌, ◌%◌, ◌^◌, ◌≤◌, ◌<◌, ◌≡◌, ◌≢◌, refl, sym, ap, subst, false, ◌∷◌,
  if◌then◌else◌, ltb, ltb→lt, ◌==◌, ==_iff, Bool_false, split, ℕ_discrete, Outcome, done, arith,
}
use native.Mathlib.Nat.{mod-eq_of_lt}
use heine_os.Prelude.Bits.{bit_and_ones}
use heine_os.Ports.{Trace, did_write}
use heine_os.Timer.{counter_for, set_interrupt_interval, wait_from, wait}

-- The counter for an interval: below 55 ms the ticks that go into it, and else the largest that the
-- timer takes.
pub record IsCounter (interval_ms counter : ℕ) : Type 0 where
  pub positive : 0 < counter
  pub fits : counter < 2 ^ 16
  pub short : interval_ms < 55 → counter * 838 ≤ interval_ms * 1000000
  pub nearest : interval_ms < 55 → interval_ms * 1000000 < (counter + 1) * 838
  pub clamped : 55 ≤ interval_ms → counter ≡ 65535

chosen :
    (ms c : ℕ)
    → 0 < ms
    → c ≡ ms * 1000000 / 838
    → IsCounter ms (if c == 0 then 1 else (if ltb 65535 c then 65535 else c))
chosen ms c p e = record {
  positive = ground arith;
  fits = ground arith;
  short = λ l. ground arith;
  nearest = λ l. ground arith;
  clamped = λ l. ground arith;
}

counter_for-IsCounter : (ms : ℕ) → 0 < ms → ms * 1000000 < 2 ^ 64 → IsCounter ms (counter_for ms)
unfolding counter_for
counter_for-IsCounter ms p l =
    chosen ms (ms * 1000000 % 2 ^ 64 / 838) p (ap (λ (n : ℕ). n / 838) (mod-eq_of_lt l))

-- The three writes: the mode, and the low and the high byte of a counter.
pub record Programmed (interval_ms : ℕ) (t : Trace) (r : Outcome (Unit {0} × Trace)) : Type 0 where
  pub counter : ℕ
  pub low : ℕ
  pub high : ℕ
  pub counter_is : IsCounter interval_ms counter
  pub bytes : (low < 256) × (high < 256) × (low + 256 * high ≡ counter)
  pub result : r ≡ done (tt, did_write 64 high ∷ did_write 64 low ∷ did_write 67 54 ∷ t)

-- For an interval that is not 0 and fits 64 bits in nanoseconds, set_interrupt_interval writes the
-- control word, then the low and the high byte of the counter, which fit a byte: the counter is the
-- number of whole ticks of 838 ns in the interval below 55 ms, and 65535 from 55 ms on.
pub set_interrupt_interval-Programmed :
    (interval_ms : ℕ) (t : Trace)
    → 0 < interval_ms
    → interval_ms * 1000000 < 2 ^ 64
    → Programmed interval_ms t (set_interrupt_interval interval_ms t)
unfolding set_interrupt_interval
set_interrupt_interval-Programmed ms t p l =
    let c = counter_for-IsCounter ms p l in
    let low_is : bit_and (counter_for ms) 255 ≡ counter_for ms % 256 =
      bit_and_ones 8 (counter_for ms) in
    record {
      counter = counter_for ms;
      low = bit_and (counter_for ms) 255;
      high = counter_for ms / 2 ^ 8;
      counter_is = c;
      bytes = (omega (arith, low_is), omega (arith, c.fits), omega (arith, low_is));
      result = rw (Bool_false (ms == 0) (λ e. absurd (omega (arith, (==_iff ms 0).0 e)))) refl;
    }

not_ltb : (a b : ℕ) → ltb a b ≡ false → b ≤ a
not_ltb a b h = ground arith

-- How long a call of `wait` waits: it yields so often, at the reading behind the last time the time
-- is over, and at no reading before.
pub record Waits (clock : ℕ → ℕ) (ms : ℕ) (r : Outcome ℕ) : Type 0 where
  pub yields : ℕ
  pub result : r ≡ done yields
  pub over : clock 0 + ms ≤ clock (yields + 1)
  pub not_before : (i : ℕ) → i < yields → clock (i + 1) < clock 0 + ms

module _ (clock : ℕ → ℕ) (ms : ℕ) (later : (i : ℕ) → clock 0 ≤ clock i)
    (fits : (i : ℕ) → clock i < 2 ^ 64) where
  elapsed : (i : ℕ) → (clock i + 2 ^ 64 - clock 0) % 2 ^ 64 ≡ clock i - clock 0
  elapsed i = omega (arith, later i, fits i)

  at_zero :
      (i left : ℕ) → clock 0 + ms ≤ clock (i + left + 1) → left ≡ 0 → clock 0 + ms ≤ clock (i + 1)
  at_zero i left h z = subst (λ (k : ℕ). clock 0 + ms ≤ clock k) (omega arith) h

  before_next :
      (i : ℕ)
      → ((j : ℕ) → j < i → clock (j + 1) < clock 0 + ms)
      → clock (i + 1) < clock 0 + ms
      → (j : ℕ) → j < i + 1
      → clock (j + 1) < clock 0 + ms
  before_next i b short j l = elim (ℕ_discrete j i) [
    | yes e ↦ subst (λ (k : ℕ). clock (k + 1) < clock 0 + ms) (sym e) short
    | no n ↦ b j (omega arith)
  ]

  wait_from-Waits :
      (rounds i left : ℕ)
      → left < rounds
      → clock 0 + ms ≤ clock (i + left + 1)
      → ((j : ℕ) → j < i → clock (j + 1) < clock 0 + ms)
      → Waits clock ms (wait_from clock rounds (i + 1) (clock 0) ms)
  unfolding wait_from
  wait_from-Waits zero i left l h b = absurd (omega arith)
  wait_from-Waits (suc rounds) i left l h b =
      let time : ℕ = (clock (i + 1) + 2 ^ 64 - clock 0) % 2 ^ 64 in
      split
        (λ c.
          Waits clock ms
            (if c then wait_from clock rounds (i + 1 + 1) (clock 0) ms else done (i + 1 - 1)))
        (ltb time ms)
        (λ e.
          let short : clock (i + 1) < clock 0 + ms =
            omega (arith, ltb→lt time ms e, elapsed i, later (i + 1), elapsed (i + 1)) in
          let more : left ≢ 0 = λ z. absurd (omega (arith, at_zero i left h z)) in
          wait_from-Waits rounds (i + 1) (left - 1) (omega arith)
            (subst (λ (k : ℕ). clock 0 + ms ≤ clock k) (omega arith) h)
            (λ j k. before_next i b short j k))
        (λ e.
          let over : clock 0 + ms ≤ clock (i + 1) =
            omega (arith, not_ltb time ms e, elapsed (i + 1), later (i + 1)) in
          record {
            yields = i;
            result = ap {A = ℕ} done (omega arith);
            over = over;
            not_before = b;
          })

-- Where the system time never falls below the start and fits 64 bits, and so many milliseconds are
-- over at one of the readings, wait ends, at the first reading at which they are over.
pub wait-Waits :
    (clock : ℕ → ℕ) (rounds ms reading : ℕ)
    → ((i : ℕ) → clock 0 ≤ clock i)
    → ((i : ℕ) → clock i < 2 ^ 64)
    → reading < rounds
    → clock 0 + ms ≤ clock (reading + 1)
    → Waits clock ms (wait clock rounds ms)
unfolding wait
wait-Waits clock rounds ms reading later fits l h =
    wait_from-Waits clock ms later fits rounds 0 reading l
      (subst (λ (k : ℕ). clock 0 + ms ≤ clock k) (omega arith) h) (λ j k. absurd (omega arith))

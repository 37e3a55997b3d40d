-- ===== src/Prelude/Bytes.antt =====
-- What holds of every number below a bound because a test says so of each of them.
use Prim.Native.Nat.{ℕ, zero, suc, ◌<◌}
use mathlib.Core.Path.{◌≡◌, refl, subst, sym}
use mathlib.Core.Bool.{Bool, true, false, ◌&&◌}
use native.Mathlib.Omega.{arith}
use heine_os.Prelude.Tests.{true≢false}
unfoldable use native.Mathlib.Decide.{ℕ_discrete}

abbrev pub all_below : (ℕ → Bool) → ℕ → Bool
all_below p zero = true
all_below p (suc n) = p n && all_below p n

pub and-fst : (a b : Bool) → a && b ≡ true → a ≡ true
and-fst true b h = refl
and-fst false b h = h

pub and-snd : (a b : Bool) → a && b ≡ true → b ≡ true
and-snd true b h = h
and-snd false b h = absurd (true≢false refl (sym h))

pub below : (p : ℕ → Bool) (n : ℕ) → all_below p n ≡ true → (k : ℕ) → k < n → p k ≡ true
below p zero h k l = absurd (omega arith)
below p (suc n) h k l = elim (ℕ_discrete k n) [
  | yes e ↦ subst (λ i. p i ≡ true) (sym e) (and-fst (p n) (all_below p n) h)
  | no e ↦ below p n (and-snd (p n) (all_below p n) h) k (omega arith)
]

abbrev pub agrees : Bool → Bool → Bool
agrees true b = b
agrees false true = false
agrees false false = true

pub agrees→≡ : (a b : Bool) → agrees a b ≡ true → a ≡ b
agrees→≡ true b h = sym h
agrees→≡ false true h = h
agrees→≡ false false h = refl

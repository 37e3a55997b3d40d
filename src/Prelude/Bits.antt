-- ===== src/Prelude/Bits.antt =====
-- `&` and `|` on numbers, as arithmetic: the law of the lowest digit, and masks of any width.
use Prim.Native.Nat.{
  ℕ, zero, suc, ◌+◌, ◌-◌, ◌*◌, ◌/◌, ◌%◌, ◌^◌, ◌≤◌, ◌<◌, min, max, bit_and, bit_or, digits, bitwise,
  bit_and-bitwise, bit_or-bitwise,
}
use mathlib.Core.Path.{◌≡◌, refl, sym, ap, ap₂, ◌∙◌}
use native.Mathlib.Nat.{
  pow-suc, pow-succ', one-le-pow, le_refl, mod-one, add-mul, mul-div_cancel, add-zero, add-suc,
  mul-one, div-one, div-div-eq-div-mul, mod-eq-sub-div-mul, div-mul-le_self, mod-eq_of_lt,
  div-lt_iff_lt-mul,
}
use native.Mathlib.Omega.{arith}

-- The digit recursion does not depend on its fuel, once that reaches the first number.
module _ (z : ℕ → ℕ) (f : ℕ → ℕ → ℕ) where
  digits_enough : (n m a b : ℕ) → a ≤ n → a ≤ m → digits z f n a b ≡ digits z f m a b
  digits_enough zero zero a b p q = refl
  digits_enough zero (suc m) zero b p q = refl
  digits_enough zero (suc m) (suc a) b p q = absurd (omega arith)
  digits_enough (suc n) zero zero b p q = refl
  digits_enough (suc n) zero (suc a) b p q = absurd (omega arith)
  digits_enough (suc n) (suc m) zero b p q = refl
  digits_enough (suc n) (suc m) (suc a) b p q =
      rw (digits_enough n m (suc a / 2) (b / 2) (omega arith) (omega arith))

  lowest_digit :
      (a b : ℕ)
      → bitwise z f (suc a) b ≡ bitwise z f (suc a / 2) (b / 2) * 2 + f (suc a % 2) (b % 2)
  lowest_digit a b =
      omega (arith, digits_enough a (suc a / 2) (suc a / 2) (b / 2) (omega arith) (le_refl _))

pub bit_and_digit : (a b : ℕ) → bit_and a b ≡ bit_and (a / 2) (b / 2) * 2 + min (a % 2) (b % 2)
bit_and_digit zero b = simp bit_and-bitwise (omega arith)
bit_and_digit (suc a) b = simp bit_and-bitwise (lowest_digit (λ _. 0) min a b)

pub bit_or_digit : (a b : ℕ) → bit_or a b ≡ bit_or (a / 2) (b / 2) * 2 + max (a % 2) (b % 2)
bit_or_digit zero b = simp bit_or-bitwise (omega arith)
bit_or_digit (suc a) b = simp bit_or-bitwise (lowest_digit (λ b. b) max a b)

pub zero-bit_and : (b : ℕ) → bit_and 0 b ≡ 0
zero-bit_and b = bit_and-bitwise 0 b

bit_and-zero_below : (n a : ℕ) → a ≤ n → bit_and a 0 ≡ 0
bit_and-zero_below n zero h = refl
bit_and-zero_below zero (suc a) h = absurd (omega arith)
bit_and-zero_below (suc n) (suc a) h =
    omega (arith, bit_and_digit (suc a) 0, bit_and-zero_below n (suc a / 2) (omega arith))

pub bit_and-zero : (a : ℕ) → bit_and a 0 ≡ 0
bit_and-zero a = bit_and-zero_below a a (le_refl _)

bit_or-zero_below : (n a : ℕ) → a ≤ n → bit_or a 0 ≡ a
bit_or-zero_below n zero h = refl
bit_or-zero_below zero (suc a) h = absurd (omega arith)
bit_or-zero_below (suc n) (suc a) h =
    omega (arith, bit_or_digit (suc a) 0, bit_or-zero_below n (suc a / 2) (omega arith))

pub bit_or-zero : (a : ℕ) → bit_or a 0 ≡ a
bit_or-zero a = bit_or-zero_below a a (le_refl _)

pow-half : (n : ℕ) → (2 ^ suc n - 1) / 2 ≡ 2 ^ n - 1
pow-half n = omega (arith, pow-suc 2 n, one-le-pow n 2)

pow-odd : (n : ℕ) → (2 ^ suc n - 1) % 2 ≡ 1
pow-odd n = omega (arith, pow-suc 2 n, one-le-pow n 2)

div-pow-suc : (n x : ℕ) → x / 2 ^ suc n ≡ x / 2 / 2 ^ n
div-pow-suc n x = rw (pow-succ' 2 n) (sym (div-div-eq-div-mul x 2 (2 ^ n)))

mod-pow-suc : (n x : ℕ) → x % 2 ^ suc n ≡ x / 2 % 2 ^ n * 2 + x % 2
mod-pow-suc n x =
    rw
      (
        mod-eq-sub-div-mul x (2 ^ suc n),
        div-pow-suc n x,
        mod-eq-sub-div-mul (x / 2) (2 ^ n),
        pow-suc 2 n,
      )
      (omega (arith, div-mul-le_self (x / 2) (2 ^ n)))

-- A mask of the `n` low bits is the remainder by `2 ^ n`.
pub bit_and_ones : (n x : ℕ) → bit_and x (2 ^ n - 1) ≡ x % 2 ^ n
bit_and_ones zero x = omega (arith, bit_and-zero x)
bit_and_ones (suc n) x =
    rw (bit_and_digit x (2 ^ suc n - 1), pow-half n, pow-odd n, bit_and_ones n (x / 2))
      (omega (arith, mod-pow-suc n x))

-- A mask whose `k` low bits are clear works on the quotient by `2 ^ k`.
pub bit_and_shifted : (k x q : ℕ) → bit_and x (q * 2 ^ k) ≡ bit_and (x / 2 ^ k) q * 2 ^ k
bit_and_shifted zero x q = simp (mul-one, div-one)
bit_and_shifted (suc k) x q = omega (
  arith,
  bit_and_digit x (q * 2 ^ suc k),
  even,
  half,
  bit_and_shifted k (x / 2) q,
  ap (λ (t : ℕ). bit_and t q * 2 ^ k) (div-pow-suc k x),
  ap (λ (t : ℕ). bit_and (x / 2 ^ suc k) q * t) (pow-suc 2 k),
)
  where
    half : bit_and (x / 2) (q * 2 ^ suc k / 2) ≡ bit_and (x / 2) (q * 2 ^ k)
    half = ap (bit_and (x / 2)) (omega (arith, ap (λ (t : ℕ). q * t) (pow-suc 2 k)))

    even : q * 2 ^ suc k % 2 ≡ 0
    even = omega (arith, ap (λ (t : ℕ). q * t) (pow-suc 2 k))

pub pow-add : (a b : ℕ) → 2 ^ (a + b) ≡ 2 ^ a * 2 ^ b
pow-add a zero = rw (add-zero, mul-one)
pow-add a (suc b) =
    ap (λ (n : ℕ). 2 ^ n) (add-suc a b)
    ∙ omega (arith, pow-suc 2 (a + b), pow-add a b, ap (λ (t : ℕ). 2 ^ a * t) (pow-suc 2 b))

pred-mul : (a b : ℕ) → (a - 1) * b ≡ a * b - b
pred-mul zero b = omega arith
pred-mul (suc a) b = omega (arith, ap (λ (t : ℕ). t * b) (pred-suc a))
  where
    pred-suc : (n : ℕ) → suc n - 1 ≡ n
    pred-suc n = omega arith

-- `x & !(2 ^ k - 1)` on a word of `w` bits: the low `k` bits are cleared.
pub bit_and_high : (k w x : ℕ) → k ≤ w → x < 2 ^ w → bit_and x (2 ^ w - 2 ^ k) ≡ x / 2 ^ k * 2 ^ k
bit_and_high k w x le h =
    ap (bit_and x) mask
    ∙ rw (
      bit_and_shifted k x (2 ^ (w - k) - 1),
      bit_and_ones (w - k) (x / 2 ^ k),
      mod-eq_of_lt below,
    )
  where
    whole : 2 ^ w ≡ 2 ^ (w - k) * 2 ^ k
    whole = ap (λ (n : ℕ). 2 ^ n) (omega arith) ∙ pow-add (w - k) k

    mask : 2 ^ w - 2 ^ k ≡ (2 ^ (w - k) - 1) * 2 ^ k
    mask = omega (arith, whole, pred-mul (2 ^ (w - k)) (2 ^ k))

    below : x / 2 ^ k < 2 ^ (w - k)
    below = (div-lt_iff_lt-mul (one-le-pow k 2 (omega arith))).1 (rw whole at h)

-- Two fields of a word put together by `|`.
pub bit_or_fields : (k q r : ℕ) → r < 2 ^ k → bit_or (q * 2 ^ k) r ≡ q * 2 ^ k + r
bit_or_fields zero q r h =
    let e : r ≡ 0 = omega arith in rw (e, mul-one) (omega (arith, bit_or-zero q))
bit_or_fields (suc k) q r h = omega (
  arith,
  bit_or_digit (q * 2 ^ suc k) r,
  ap (λ (t : ℕ). bit_or t (r / 2)) half,
  double,
  bit_or_fields k q (r / 2) (omega (arith, pow-suc 2 k)),
)
  where
    double : q * 2 ^ suc k ≡ q * 2 ^ k * 2
    double = omega (arith, ap (λ (t : ℕ). q * t) (pow-suc 2 k))

    half : q * 2 ^ suc k / 2 ≡ q * 2 ^ k
    half = omega (arith, double)

-- `&` and `|` work on the low `k` bits and on the others apart.
module _ (k x : ℕ) where
  low-half : x % 2 ^ suc k / 2 ≡ x / 2 % 2 ^ k
  low-half = omega (arith, mod-pow-suc k x)

  low-odd : x % 2 ^ suc k % 2 ≡ x % 2
  low-odd = omega (arith, mod-pow-suc k x)

module _ (f g : ℕ → ℕ → ℕ) (digit : (a b : ℕ) → f a b ≡ f (a / 2) (b / 2) * 2 + g (a % 2) (b % 2))
    (nothing : f 0 0 ≡ 0) where
  digits_split : (k x y : ℕ) → f x y ≡ f (x / 2 ^ k) (y / 2 ^ k) * 2 ^ k + f (x % 2 ^ k) (y % 2 ^ k)
  digits_split zero x y =
      omega (arith, nothing, ap₂ f (div-one x) (div-one y), ap₂ f (mod-one x) (mod-one y))
  digits_split (suc k) x y = omega (
    arith,
    digit x y,
    digits_split k (x / 2) (y / 2),
    digit (x % 2 ^ suc k) (y % 2 ^ suc k),
    ap₂ f (low-half k x) (low-half k y),
    ap₂ g (low-odd k x) (low-odd k y),
    high,
  )
    where
      high :
          f (x / 2 ^ suc k) (y / 2 ^ suc k) * 2 ^ suc k
          ≡ f (x / 2 / 2 ^ k) (y / 2 / 2 ^ k) * 2 ^ k * 2
      high =
          ap₂ (λ (a b : ℕ). a * b) (ap₂ f (div-pow-suc k x) (div-pow-suc k y)) (pow-suc 2 k)
          ∙ omega arith

pub bit_and_split :
    (k x y : ℕ)
    → bit_and x y ≡ bit_and (x / 2 ^ k) (y / 2 ^ k) * 2 ^ k + bit_and (x % 2 ^ k) (y % 2 ^ k)
bit_and_split = digits_split bit_and min bit_and_digit refl

pub bit_or_split :
    (k x y : ℕ)
    → bit_or x y ≡ bit_or (x / 2 ^ k) (y / 2 ^ k) * 2 ^ k + bit_or (x % 2 ^ k) (y % 2 ^ k)
bit_or_split = digits_split bit_or max bit_or_digit refl

pub zero-bit_or : (b : ℕ) → bit_or 0 b ≡ b
zero-bit_or b = bit_or-bitwise 0 b

-- Two numbers whose bits lie apart.
pub bit_or_apart : (k x y : ℕ) → x % 2 ^ k ≡ 0 → y < 2 ^ k → bit_or x y ≡ x + y
bit_or_apart k x y h l =
    ap (λ (t : ℕ). bit_or t y) whole
    ∙ bit_or_fields k (x / 2 ^ k) y l
    ∙ ap (λ (t : ℕ). t + y) (sym whole)
  where
    whole : x ≡ x / 2 ^ k * 2 ^ k
    whole = omega (arith, mod-eq-sub-div-mul x (2 ^ k), div-mul-le_self x (2 ^ k))

-- A field of `w` bits from bit `k` on, where the other number is clear.
pub bit_or_field :
    (k w x v : ℕ) → x / 2 ^ k % 2 ^ w ≡ 0 → v < 2 ^ w → bit_or x (v * 2 ^ k) ≡ x + v * 2 ^ k
bit_or_field k w x v h l = omega (
  arith,
  bit_or_split k x (v * 2 ^ k),
  ap₂ (λ (a b : ℕ). a * 2 ^ k + b) high low,
  mod-eq-sub-div-mul x (2 ^ k),
  div-mul-le_self x (2 ^ k),
  add-mul (x / 2 ^ k) v (2 ^ k),
)
  where
    positive : 0 < 2 ^ k
    positive = one-le-pow k 2 (omega arith)

    quotient : v * 2 ^ k / 2 ^ k ≡ v
    quotient = mul-div_cancel v positive

    remainder : v * 2 ^ k % 2 ^ k ≡ 0
    remainder =
        omega (arith, mod-eq-sub-div-mul (v * 2 ^ k) (2 ^ k), ap (λ (n : ℕ). n * 2 ^ k) quotient)

    high : bit_or (x / 2 ^ k) (v * 2 ^ k / 2 ^ k) ≡ x / 2 ^ k + v
    high = ap (bit_or (x / 2 ^ k)) quotient ∙ bit_or_apart w (x / 2 ^ k) v h l

    low : bit_or (x % 2 ^ k) (v * 2 ^ k % 2 ^ k) ≡ x % 2 ^ k
    low = ap (bit_or (x % 2 ^ k)) remainder ∙ bit_or-zero (x % 2 ^ k)

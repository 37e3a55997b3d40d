-- ===== src/Allocator/Size.antt =====
-- `size_align` of kernel/src/allocator/list.rs: what is really asked of the free list.
use native.Mathlib.Nat.{pow-le-pow_right, dvd-mul_left}
use Prim.Native.Nat.{◌∣◌}
use heine_os.Prelude.{
  ℕ, ◌+◌, ◌-◌, ◌*◌, ◌%◌, ◌^◌, ◌≤◌, ◌<◌, max, ◌≡◌, sym, ap, ◌∙◌, subst, done, dec_lt, arith,
}
use heine_os.Prelude.Bits.{pow-add}
use heine_os.Allocator.{Layout, size_align}
use heine_os.Allocator.Align.{round_up, round_up-mod, round_up-le, round_up-lt, pow-mod_eight}

-- What the standard library guarantees of a `Layout`, with room for the alignment of a node.
pub record IsLayout (l : Layout) : Type 0 where
  pub power : ℕ
  pub align_is : l.align ≡ 2 ^ power
  pub room : l.size + max l.align 8 ≤ 2 ^ 63

-- The size and the exponent of the alignment that the free list is asked for.
pub record Asks (l : Layout) (size k : ℕ) : Type 0 where
  pub computed : size_align l ≡ done (size, 2 ^ k)
  pub covers_layout : l.size ≤ size
  pub holds_node : 16 ≤ size
  pub fits : size ≤ 2 ^ 63
  pub size_aligned : size % 8 ≡ 0
  pub k_low : 3 ≤ k
  pub k_high : k ≤ 63
  pub divides : l.align ∣ 2 ^ k

max_pow : (k : ℕ) → max (2 ^ k) 8 ≡ 2 ^ max k 3
max_pow k = elim (dec_lt k 3) [
  | yes lt ↦ omega (arith, small lt, ap (λ (n : ℕ). 2 ^ n) (low lt))
  | no ge ↦ omega (arith, large ge, ap (λ (n : ℕ). 2 ^ n) (high ge))
]
  where
    low : k < 3 → max k 3 ≡ 3
    low lt = omega arith

    high : ¬ (k < 3) → max k 3 ≡ k
    high ge = omega arith

    small : k < 3 → 2 ^ k ≤ 8
    small lt = pow-le-pow_right {n = 2} (omega arith) {i = k} {j = 3} (omega arith)

    large : ¬ (k < 3) → 8 ≤ 2 ^ k
    large ge = pow-le-pow_right {n = 2} (omega arith) {i = 3} {j = k} (omega arith)

pow_dvd : (i j : ℕ) → i ≤ j → 2 ^ i ∣ 2 ^ j
pow_dvd i j h = subst (λ n. 2 ^ i ∣ n) (sym split) (dvd-mul_left (2 ^ i) (2 ^ (j - i)))
  where
    split : 2 ^ j ≡ 2 ^ (j - i) * 2 ^ i
    split = ap (λ (n : ℕ). 2 ^ n) (omega arith) ∙ pow-add (j - i) i

exponent_bound : (k : ℕ) → 2 ^ k ≤ 2 ^ 63 → k ≤ 63
exponent_bound k h = elim (dec_lt 63 k) [
  | yes lt ↦ absurd (omega (arith, pow-le-pow_right {n = 2} (omega arith) {i = 64} {j = k} lt))
  | no ge ↦ omega arith
]

-- Every layout is rounded to whole nodes, at an alignment that serves its own and a node's.
pub size_align-Asks : (l : Layout) → IsLayout l → (size k : ℕ) × Asks l size k
unfolding size_align
size_align-Asks l h = (
  max (round_up l.size align) 16,
  k,
  record {
    computed = ground (arith, align_pow, h.room);
    covers_layout = omega (arith, le);
    holds_node = omega arith;
    fits = omega (arith, lt, h.room);
    size_aligned = omega (arith, multiple);
    k_low = omega arith;
    k_high = exponent_bound k (rw (← align_pow) (omega (arith, h.room)));
    divides = rw h.align_is (pow_dvd h.power k (omega arith));
  },
)
  where
    align : ℕ
    align = max l.align 8

    k : ℕ
    k = max h.power 3

    align_pow : align ≡ 2 ^ k
    align_pow = ap (λ n. max n 8) h.align_is ∙ max_pow h.power

    le : l.size ≤ round_up l.size align
    le = round_up-le l.size align (omega arith)

    lt : round_up l.size align < l.size + align
    lt = round_up-lt l.size align (omega arith)

    multiple : round_up l.size align % 8 ≡ 0
    multiple = pow-mod_eight k (round_up l.size align) (omega arith) (
        ap (λ n. round_up l.size align % n) (sym align_pow)
        ∙ round_up-mod l.size align (omega arith))

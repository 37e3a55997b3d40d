-- ===== src/Allocator/Align.antt =====
-- `align_up` of kernel/src/allocator/global.rs as arithmetic, and the sizes that `size_align` of
-- kernel/src/allocator/list.rs computes.
use Prim.Native.Nat.{bit_and, ◌∣◌}
use native.Mathlib.Nat.{
  one-le-pow, pow-le-pow_right, div-mul-le_self, lt-div-mul-add, mul-mod_left, mod-eq-zero_of_dvd,
  dvd_trans, dvd_of_mod-eq-zero, dvd-mul_left,
}
use heine_os.Prelude.{
  ℕ, ◌+◌, ◌-◌, ◌*◌, ◌/◌, ◌%◌, ◌^◌, ◌≤◌, ◌<◌, ◌≡◌, ◌∙◌, ap, ap₂, sym, subst, arith,
}
use heine_os.Prelude.Bits.{bit_and_high, pow-add}
use heine_os.Allocator.{align_up, add_usize, sub_usize, not_usize}

-- The multiples of `align` that a rounding up takes.
abbrev pub round_up : ℕ → ℕ → ℕ
round_up n align = (n + (align - 1)) / align * align

pow_bounds : (k : ℕ) → k ≤ 63 → (1 ≤ 2 ^ k) × (2 ^ k ≤ 2 ^ 63)
pow_bounds k h = (one-le-pow k 2 (omega arith), pow-le-pow_right {n = 2} (omega arith) h)

-- Below half the address space, with a power of two, no sum in `align_up` wraps and the mask rounds.
pub align_up-round_up :
    (addr k : ℕ) → addr ≤ 2 ^ 63 → k ≤ 63 → align_up addr (2 ^ k) ≡ round_up addr (2 ^ k)
unfolding align_up
align_up-round_up addr k low h =
    ap₂ bit_and sum mask ∙ bit_and_high k 64 (addr + (2 ^ k - 1)) (omega arith) fits
  where
    p : (1 ≤ 2 ^ k) × (2 ^ k ≤ 2 ^ 63)
    p = pow_bounds k h

    sum : sub_usize (add_usize addr (2 ^ k)) 1 ≡ addr + (2 ^ k - 1)
    sum = omega (arith, p.0, p.1)

    mask : not_usize (sub_usize (2 ^ k) 1) ≡ 2 ^ 64 - 2 ^ k
    mask = omega (arith, p.0, p.1)

    fits : addr + (2 ^ k - 1) < 2 ^ 64
    fits = omega (arith, p.0, p.1)

-- A rounding up is a multiple, and the least that is not below.
pub round_up-mod : (n align : ℕ) → 0 < align → round_up n align % align ≡ 0
round_up-mod n align pos = mul-mod_left _ align

pub round_up-le : (n align : ℕ) → 0 < align → n ≤ round_up n align
round_up-le n align pos = omega (arith, lt-div-mul-add {a = n + (align - 1)} pos)

pub round_up-lt : (n align : ℕ) → 0 < align → round_up n align < n + align
round_up-lt n align pos = omega (arith, div-mul-le_self (n + (align - 1)) align)

-- What `align_up` promises: the least address from `addr` on that the alignment divides.
pub align_up-least :
    (addr k : ℕ)
    → addr ≤ 2 ^ 63
    → k ≤ 63
    → (align_up addr (2 ^ k) % 2 ^ k ≡ 0)
      × (addr ≤ align_up addr (2 ^ k))
      × (align_up addr (2 ^ k) < addr + 2 ^ k)
align_up-least addr k low h =
    let pos = (pow_bounds k h).0 in
    rw (align_up-round_up addr k low h)
      (round_up-mod addr (2 ^ k) pos, round_up-le addr (2 ^ k) pos, round_up-lt addr (2 ^ k) pos)

-- An alignment that `size_align` asks for, at least that of a node.
pub pow-mod_eight : (k n : ℕ) → 3 ≤ k → n % 2 ^ k ≡ 0 → n % 8 ≡ 0
pow-mod_eight k n h e = mod-eq-zero_of_dvd 8 (dvd_trans 8 divides (dvd_of_mod-eq-zero (2 ^ k) e))
  where
    split : 2 ^ k ≡ 2 ^ (k - 3) * 2 ^ 3
    split = ap (λ (n : ℕ). 2 ^ n) (omega arith) ∙ pow-add (k - 3) 3

    divides : 8 ∣ 2 ^ k
    divides = subst (λ n. 8 ∣ n) (sym split) (dvd-mul_left 8 (2 ^ (k - 3)))

-- ===== src/Pci/Values.antt =====
-- kernel/src/device/pci.rs: the bytes and halves of a register, and the masks that replace them.
use Prim.Native.Nat.{bit_and, bit_or}
use heine_os.Prelude.{
  ℕ, zero, suc, ◌+◌, ◌-◌, ◌*◌, ◌/◌, ◌%◌, ◌^◌, ◌<◌, ◌≡◌, ap, ap₂, ◌∙◌, arith, if◌then◌else◌, ◌==◌,
}
use heine_os.Prelude.Bits.{bit_or_field, bit_and_high, bit_and_split, bit_and_ones, bit_and_shifted}
use heine_os.Pci.{half_shift, byte_shift, with_half, with_byte}

-- The byte `k` of a register.
abbrev pub byte : ℕ → ℕ → ℕ
byte k data_ = data_ / 2 ^ (k * 8) % 256

-- The half `k` of a register.
abbrev pub half : ℕ → ℕ → ℕ
half k data_ = data_ / 2 ^ (k * 16) % 65536

pub byte_shift_is : (offset : ℕ) → byte_shift offset ≡ offset % 4 * 8
byte_shift_is offset = ap (λ (n : ℕ). n * 8) (bit_and_ones 2 offset)

pub half_shift_is : (offset : ℕ) → half_shift offset ≡ offset / 2 % 2 * 16
half_shift_is offset =
    ap (λ (n : ℕ). n * 8)
      (bit_and_shifted 1 offset 1 ∙ ap (λ (n : ℕ). n * 2) (bit_and_ones 1 (offset / 2)))
    ∙ omega arith

-- A register with a byte or a half replaced.
abbrev pub replaced : ℕ → ℕ → ℕ → ℕ → ℕ
replaced shift width value data_ =
    data_ - data_ / 2 ^ shift % 2 ^ width * 2 ^ shift + value * 2 ^ shift

-- The masks, on a number of 32 bits.
module _ (x : ℕ) (l : x < 2 ^ 32) where
  cleared_0 : bit_and x 4294967040 ≡ x - x % 256
  cleared_0 = bit_and_high 8 32 x (omega arith) l ∙ omega arith

  cleared_1 : bit_and x 4294902015 ≡ x - x / 256 % 256 * 256
  cleared_1 =
      bit_and_split 16 x 4294902015
      ∙ ap₂ (λ (a b : ℕ). a * 65536 + b) (bit_and_ones 16 (x / 65536)) (bit_and_ones 8 (x % 65536))
      ∙ omega arith

  cleared_2 : bit_and x 4278255615 ≡ x - x / 65536 % 256 * 65536
  cleared_2 =
      bit_and_split 24 x 4278255615
      ∙ ap₂ (λ (a b : ℕ). a * 16777216 + b) (bit_and_ones 8 (x / 16777216))
          (bit_and_ones 16 (x % 16777216))
      ∙ omega arith

  cleared_3 : bit_and x 16777215 ≡ x - x / 16777216 % 256 * 16777216
  cleared_3 = bit_and_ones 24 x ∙ omega arith

  cleared_low : bit_and x 4294901760 ≡ x - x % 65536
  cleared_low = bit_and_high 16 32 x (omega arith) l ∙ omega arith

  cleared_high : bit_and x 65535 ≡ x - x / 65536 % 65536 * 65536
  cleared_high = bit_and_ones 16 x ∙ omega arith

  module _ (v : ℕ) (h : v < 256) where
    byte_at :
        (k : ℕ)
        → k < 4
        → bit_or (bit_and x (4294967295 - 255 * 2 ^ (k * 8) % 2 ^ 32)) (v * 2 ^ (k * 8) % 2 ^ 32)
          ≡ replaced (k * 8) 8 v x
    byte_at zero l =
        ap₂ bit_or cleared_0 (omega arith)
        ∙ bit_or_field 0 8 (x - x % 256) v (omega arith) h
        ∙ omega arith
    byte_at (suc zero) l =
        ap₂ bit_or cleared_1 (omega arith)
        ∙ bit_or_field 8 8 (x - x / 256 % 256 * 256) v (omega arith) h
    byte_at (suc (suc zero)) l =
        ap₂ bit_or cleared_2 (omega arith)
        ∙ bit_or_field 16 8 (x - x / 65536 % 256 * 65536) v (omega arith) h
    byte_at (suc (suc (suc zero))) l =
        ap₂ bit_or cleared_3 (omega arith)
        ∙ bit_or_field 24 8 (x - x / 16777216 % 256 * 16777216) v (omega arith) h
    byte_at (suc (suc (suc (suc k)))) l = absurd (omega arith)

  module _ (v : ℕ) (h : v < 65536) where
    half_at :
        (k : ℕ)
        → k < 2
        → bit_or
            (bit_and x (4294967295 - 65535 * 2 ^ (k * 16) % 2 ^ 32))
            (v * 2 ^ (k * 16) % 2 ^ 32)
          ≡ replaced (k * 16) 16 v x
    half_at zero l =
        ap₂ bit_or cleared_low (omega arith)
        ∙ bit_or_field 0 16 (x - x % 65536) v (omega arith) h
        ∙ omega arith
    half_at (suc zero) l =
        ap₂ bit_or cleared_high (omega arith)
        ∙ bit_or_field 16 16 (x - x / 65536 % 65536 * 65536) v (omega arith) h
    half_at (suc (suc k)) l = absurd (omega arith)

module _ (offset x v : ℕ) (l : x < 2 ^ 32) where
  pub with_byte_is : v < 256 → with_byte offset v x ≡ replaced (offset % 4 * 8) 8 v x
  unfolding with_byte
  with_byte_is h =
      ap (λ (n : ℕ). bit_or (bit_and x (4294967295 - 255 * 2 ^ n % 2 ^ 32)) (v * 2 ^ n % 2 ^ 32))
        (byte_shift_is offset)
      ∙ byte_at x l v h (offset % 4) (omega arith)

  pub with_half_is : v < 65536 → with_half offset v x ≡ replaced (offset / 2 % 2 * 16) 16 v x
  unfolding with_half
  with_half_is h =
      ap (λ (n : ℕ). bit_or (bit_and x (4294967295 - 65535 * 2 ^ n % 2 ^ 32)) (v * 2 ^ n % 2 ^ 32))
        (half_shift_is offset)
      ∙ half_at x l v h (offset / 2 % 2) (omega arith)

four : (P : ℕ → Type 0) → P 0 → P 1 → P 2 → P 3 → (k : ℕ) → k < 4 → P k
four P a b c d zero l = a
four P a b c d (suc zero) l = b
four P a b c d (suc (suc zero)) l = c
four P a b c d (suc (suc (suc zero))) l = d
four P a b c d (suc (suc (suc (suc k)))) l = absurd (omega arith)

two : (P : ℕ → Type 0) → P 0 → P 1 → (k : ℕ) → k < 2 → P k
two P a b zero l = a
two P a b (suc zero) l = b
two P a b (suc (suc k)) l = absurd (omega arith)

-- Only the byte or the half that is written changes.
module _ (x v : ℕ) (l : x < 2 ^ 32) where
  module _ (h : v < 256) where
    abbrev pub IsByte : ℕ → ℕ → Type 0
    IsByte k j = byte j (replaced (k * 8) 8 v x) ≡ (if j == k then v else byte j x)

    pub byte-fits : (k : ℕ) → k < 4 → replaced (k * 8) 8 v x < 2 ^ 32
    byte-fits =
        four (λ k. replaced (k * 8) 8 v x < 2 ^ 32) (omega arith) (omega arith) (omega arith)
          (omega arith)

    pub IsByte-replaced : (k : ℕ) → k < 4 → (j : ℕ) → j < 4 → IsByte k j
    IsByte-replaced =
        four (λ k. (j : ℕ) → j < 4 → IsByte k j)
          (four (IsByte 0) (omega arith) (omega arith) (omega arith) (omega arith))
          (four (IsByte 1) (omega arith) (omega arith) (omega arith) (omega arith))
          (four (IsByte 2) (omega arith) (omega arith) (omega arith) (omega arith))
          (four (IsByte 3) (omega arith) (omega arith) (omega arith) (omega arith))

  module _ (h : v < 65536) where
    abbrev pub IsHalf : ℕ → ℕ → Type 0
    IsHalf k j = half j (replaced (k * 16) 16 v x) ≡ (if j == k then v else half j x)

    pub half-fits : (k : ℕ) → k < 2 → replaced (k * 16) 16 v x < 2 ^ 32
    half-fits = two (λ k. replaced (k * 16) 16 v x < 2 ^ 32) (omega arith) (omega arith)

    pub IsHalf-replaced : (k : ℕ) → k < 2 → (j : ℕ) → j < 2 → IsHalf k j
    IsHalf-replaced =
        two (λ k. (j : ℕ) → j < 2 → IsHalf k j) (two (IsHalf 0) (omega arith) (omega arith))
          (two (IsHalf 1) (omega arith) (omega arith))

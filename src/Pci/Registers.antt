-- ===== src/Pci/Registers.antt =====
-- kernel/src/device/pci.rs: reads and writes of the registers of a configuration space.
-- `shown` is what the device gives for an address. The hypothesis `IsSpace` says that reads change
-- no register and that a write changes the one whose address was written last, `Keeps` that a
-- register reads as what is written to it.
use heine_os.Prelude.{
  ℕ, ◌/◌, ◌%◌, ◌^◌, ◌<◌, ◌≡◌, ◌≢◌, refl, sym, ap, subst, ◌∙◌, ◌∷◌, if◌then◌else◌, ◌==◌, Outcome,
  done, arith,
}
use heine_os.Prelude.Bits.{bit_and_ones}
use heine_os.Ports.{Device, Trace, did_read, did_write}
use heine_os.Pci.{
  calc_config_address, with_half, with_byte, read32, write32, read16, write16, read8, write8,
  config_address_port, config_data_port,
}
use heine_os.Pci.Values.{
  byte, half, byte_shift_is, half_shift_is, with_byte_is, with_half_is, byte-fits, IsByte-replaced,
  half-fits, IsHalf-replaced,
}

module _ (dev : Device) where
  abbrev pub shown : Trace → ℕ → ℕ
  shown t a = dev (did_write config_address_port a ∷ t) config_data_port % 2 ^ 32

  pub record IsSpace : Type 0 where
    pub reading : (t : Trace) (port value a : ℕ) → shown (did_read port value ∷ t) a ≡ shown t a
    pub addressing :
        (t : Trace) (b a : ℕ) → shown (did_write config_address_port b ∷ t) a ≡ shown t a
    pub beside :
        (t : Trace) (a b value : ℕ)
        → a ≢ b
        → shown (did_write config_data_port value ∷ did_write config_address_port a ∷ t) b
          ≡ shown t b

  abbrev pub Keeps : ℕ → Type 0
  Keeps a =
      (t : Trace) (value : ℕ)
      → value < 2 ^ 32
      → shown (did_write config_data_port value ∷ did_write config_address_port a ∷ t) a ≡ value

  -- A call that returns a value and leaves the registers as they are.
  pub record Reads {ℓ} {A : Type ℓ} (t : Trace) (value : A) (r : Outcome (A × Trace)) : Type ℓ where
    pub now : Trace
    pub result : r ≡ done (value, now)
    pub same : (b : ℕ) → shown now b ≡ shown t b

  -- A call that leaves `Is` of the register `a`, and the other registers as they are.
  pub record Writes (t : Trace) (a : ℕ) (Is : ℕ → Type 0) (r : Outcome (Unit {0} × Trace))
      : Type 0 where
    pub now : Trace
    pub result : r ≡ done (tt, now)
    pub here : Is (shown now a)
    pub others : (b : ℕ) → a ≢ b → shown now b ≡ shown t b

  module _ (h : IsSpace) (bus device function offset : ℕ) where
    abbrev address : ℕ
    address = calc_config_address bus device function offset

    -- The port accesses of a read.
    abbrev looked : Trace → Trace
    looked t =
        did_read config_data_port (shown t address) ∷ did_write config_address_port address ∷ t

    looked_same : (t : Trace) (b : ℕ) → shown (looked t) b ≡ shown t b
    looked_same t b = h.reading _ _ _ b ∙ h.addressing t address b

    pub read8-Reads :
        (t : Trace)
        → Reads t (byte (offset % 4) (shown t address)) (read8 dev bus device function offset t)
    unfolding read8 read32
    read8-Reads t = record {
      now = looked t;
      result =
          ap (λ (v : ℕ). done (v, looked t))
            (bit_and_ones 8 _
              ∙ ap (λ (n : ℕ). shown t address / 2 ^ n % 256) (byte_shift_is offset));
      same = looked_same t;
    }

    pub read16-Reads :
        (t : Trace)
        → Reads t
            (half (offset / 2 % 2) (shown t address))
            (read16 dev bus device function offset t)
    unfolding read16 read32
    read16-Reads t = record {
      now = looked t;
      result =
          ap (λ (v : ℕ). done (v, looked t))
            (bit_and_ones 16 _
              ∙ ap (λ (n : ℕ). shown t address / 2 ^ n % 65536) (half_shift_is offset));
      same = looked_same t;
    }

    module _ (k : Keeps address) (t : Trace) (value : ℕ) where
      -- The accesses of a write of `data_`, after those of a read.
      abbrev wrote : ℕ → Trace
      wrote data_ =
          did_write config_data_port data_ ∷ did_write config_address_port address ∷ looked t

      -- `write8` gives the byte of its offset the value and leaves the other bytes, and the other
      -- registers, as they are.
      pub write8-Writes :
          value < 256
          → Writes t address
              (λ now.
                (j : ℕ)
                → j < 4
                → byte j now ≡ (if j == offset % 4 then value else byte j (shown t address)))
              (write8 dev bus device function offset value t)
      unfolding write8 read32 write32
      write8-Writes l =
          let old = shown t address in
          let e = with_byte_is offset old value (omega arith) l in
          record {
            now = wrote (with_byte offset value old);
            result = refl;
            here = λ j b.
                ap (byte j) (
                  k (looked t) (with_byte offset value old) (
                    subst (λ n. n < 2 ^ 32) (sym e)
                      (byte-fits old value (omega arith) l (offset % 4) (omega arith)))
                  ∙ e)
                ∙ IsByte-replaced old value (omega arith) l (offset % 4) (omega arith) j b;
            others = λ b n. h.beside (looked t) address b _ n ∙ looked_same t b;
          }

      -- `write16` gives the half of its offset the value and leaves the other half, and the other
      -- registers, as they are.
      pub write16-Writes :
          value < 65536
          → Writes t address
              (λ now.
                (j : ℕ)
                → j < 2
                → half j now ≡ (if j == offset / 2 % 2 then value else half j (shown t address)))
              (write16 dev bus device function offset value t)
      unfolding write16 read32 write32
      write16-Writes l =
          let old = shown t address in
          let e = with_half_is offset old value (omega arith) l in
          record {
            now = wrote (with_half offset value old);
            result = refl;
            here = λ j b.
                ap (half j) (
                  k (looked t) (with_half offset value old) (
                    subst (λ n. n < 2 ^ 32) (sym e)
                      (half-fits old value (omega arith) l (offset / 2 % 2) (omega arith)))
                  ∙ e)
                ∙ IsHalf-replaced old value (omega arith) l (offset / 2 % 2) (omega arith) j b;
            others = λ b n. h.beside (looked t) address b _ n ∙ looked_same t b;
          }

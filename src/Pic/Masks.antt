-- ===== src/Pic/Masks.antt =====
-- kernel/src/device/pic.rs: which lines are enabled.
use Prim.Native.Nat.{bit_and, bit_or}
use heine_os.Prelude.{◌-◌, split, inl, inr, ◌⊎◌, false, true}
use heine_os.Prelude.{
  ℕ, ◌-◌, ◌%◌, ◌^◌, ◌<◌, ◌≡◌, ◌≢◌, refl, sym, ap, ap₂, ◌∙◌, Bool, true, false, ◌&&◌, ◌||◌, not, ◌∷◌,
  if◌then◌else◌, ltb, ◌==◌, ◌⊎◌, inl, inr, dec_lt, Outcome, done, arith, ltb→lt,
}
use heine_os.Prelude.Bytes.{agrees, agrees→≡, and-fst, and-snd}
use heine_os.Key.Modifiers.{every, every_one}
use heine_os.Ports.{did_read, did_write, Trace, Device}
use heine_os.Pic.Controller.{IsData, command_of, pending, offset_of, Keeps}
use heine_os.Pic.{allow, forbid, status, port_of, line_of}

port_of-IsData : (irq : ℕ) → IsData (port_of irq)
port_of-IsData irq =
    split (λ b. IsData (if b then 33 else 161)) (ltb irq 8) (λ e. inl refl) (λ e. inr refl)

-- The port of one line is not the command port of another's.
command_aside : (i j : ℕ) → command_of (port_of j) ≢ port_of i
command_aside i j e = absurd (ground (arith, port_of-IsData i, port_of-IsData j, e))

-- One mask, and any two of its lines.
abbrev allows : ℕ → ℕ → ℕ → Bool
allows i j m =
    agrees (bit_and (bit_and m (255 - 2 ^ i) % 2 ^ 8) (2 ^ j) == 0)
      ((i == j) || (bit_and m (2 ^ j) == 0))
    && ltb (bit_and m (255 - 2 ^ i)) 256

abbrev forbids : ℕ → ℕ → ℕ → Bool
forbids i j m =
    agrees (bit_and (bit_or m (2 ^ i) % 2 ^ 8) (2 ^ j) == 0)
      (not (i == j) && (bit_and m (2 ^ j) == 0))
    && ltb (bit_or m (2 ^ i)) 256

every-allows : every allows ≡ true
every-allows = refl

every-forbids : every forbids ≡ true
every-forbids = refl

-- Whether the mask of a line is clear after some accesses.
abbrev pub enabled : Device → Trace → ℕ → Bool
enabled dev t irq = bit_and (dev t (port_of irq) % 2 ^ 8) (2 ^ line_of irq) == 0

-- `status` returns this.
abbrev pub Says : Device → Trace → ℕ → Bool → Type 0
Says dev t irq on = (later : Trace) × (status dev irq t ≡ done (on, later))

status-Says :
    (dev : Device) (t : Trace) (irq : ℕ) {on : Bool} → enabled dev t irq ≡ on → Says dev t irq on
unfolding status
status-Says dev t irq e =
    let later = did_read (port_of irq) (dev t (port_of irq) % 2 ^ 8) ∷ t in
    (later, ap (λ b. done (b, later)) e)

line_of-lt : (irq : ℕ) → irq < 16 → line_of irq < 8
line_of-lt irq h = ground arith

-- Two lines of one controller, or of two.
places :
    (i j : ℕ)
    → i < 16
    → j < 16
    → ((port_of j ≡ port_of i) × ((i == j) ≡ (line_of i == line_of j)))
      ⊎ ((port_of j ≢ port_of i) × ((i == j) ≡ false))
places i j b c = elim (dec_lt i 8) [
  | yes l ↦ elim (dec_lt j 8) [
    | yes m ↦ inl (ground arith, ground arith)
    | no m ↦ inr (ground arith, ground arith)
  ]
  | no l ↦ elim (dec_lt j 8) [
    | yes m ↦ inr (ground arith, ground arith)
    | no m ↦ inl (ground arith, ground arith)
  ]
]

-- The line is on or off, and `status` says of the others what it said.
pub record Sets (dev : Device) (t : Trace) (irq : ℕ) (on : Bool) (r : Outcome (Unit {0} × Trace))
    : Type 0 where
  pub later : Trace
  pub result : r ≡ done (tt, later)
  pub mask : ℕ
  pub accesses :
      later
      ≡ did_write (port_of irq) mask ∷ did_read (port_of irq) (dev t (port_of irq) % 2 ^ 8) ∷ t
  pub lines : (j : ℕ) → j < 16 → Says dev later j (if irq == j then on else enabled dev t j)

-- It leaves an initialised controller initialised, and its vectors as they are.
pub Sets-vectors :
    {dev : Device} {t : Trace} {irq : ℕ} {on : Bool} {r : Outcome (Unit {0} × Trace)} (port : ℕ)
    → IsData port
    → pending port t ≡ 0
    → (s : Sets dev t irq on r)
    → (pending port s.later ≡ 0) × (offset_of port s.later ≡ offset_of port t)
Sets-vectors {t = t} {irq = irq} port d e s =
    rw s.accesses (at port (port_of irq) d (port_of-IsData irq) e)
  where
    at :
        (port other : ℕ)
        → IsData port
        → IsData other
        → pending port t ≡ 0
        → (pending port (did_write other s.mask ∷ t) ≡ 0)
          × (offset_of port (did_write other s.mask ∷ t) ≡ offset_of port t)
    at port other d o e = ground (arith, d, o, e)

choice_on : (b c : Bool) → b || c ≡ (if b then true else c)
choice_on true c = refl
choice_on false c = refl

choice_off : (b c : Bool) → not b && c ≡ (if b then false else c)
choice_off true c = refl
choice_off false c = refl

module _ {dev : Device} (keeps : Keeps dev) (t : Trace) (i : ℕ) (line : i < 16)
    (ready : pending (port_of i) t ≡ 0) where
  -- A mask that is written shows in its own lines only.
  written-enabled :
      (value : ℕ) (on : Bool)
      → value < 256
      → ((j : ℕ)
          → j < 8
          → (bit_and (value % 2 ^ 8) (2 ^ j) == 0)
            ≡ (if line_of i == j then on else bit_and (dev t (port_of i) % 2 ^ 8) (2 ^ j) == 0))
      → let later =
          did_write (port_of i) value ∷ did_read (port_of i) (dev t (port_of i) % 2 ^ 8) ∷ t in
        (j : ℕ) → j < 16 → enabled dev later j ≡ (if i == j then on else enabled dev t j)
  written-enabled value on fits laws j other = elim (places i j line other) [
    | inl (p, e) ↦
        ap (λ q. clear (dev later q)) p
        ∙ ap clear (keeps.written _ (port_of i) value (port_of-IsData i) ready fits)
        ∙ laws (line_of j) (line_of-lt j other)
        ∙ ap₂ (λ b q. if b then on else clear (dev t q)) (sym e) (sym p)
    | inr (p, e) ↦
        ap clear (
          keeps.beside _ (port_of j) (port_of i) value (port_of-IsData j) p (command_aside i j)
          ∙ keeps.reading t (port_of j) (port_of i) _ (port_of-IsData j))
        ∙ sym (ap (λ b. if b then on else enabled dev t j) e)
  ]
    where
      clear : ℕ → Bool
      clear n = bit_and (n % 2 ^ 8) (2 ^ line_of j) == 0

      later : Trace
      later = did_write (port_of i) value ∷ did_read (port_of i) (dev t (port_of i) % 2 ^ 8) ∷ t

  mask-lt : dev t (port_of i) % 2 ^ 8 < 256
  mask-lt = omega arith

  allowed : (j : ℕ) → j < 8 → allows (line_of i) j (dev t (port_of i) % 2 ^ 8) ≡ true
  allowed j h = every_one allows every-allows (line_of i) j _ (line_of-lt i line) h mask-lt

  forbidden : (j : ℕ) → j < 8 → forbids (line_of i) j (dev t (port_of i) % 2 ^ 8) ≡ true
  forbidden j h = every_one forbids every-forbids (line_of i) j _ (line_of-lt i line) h mask-lt

  -- With controllers that keep their masks and are initialised, `allow` ends, and `status` says then that its line is
  -- enabled and of each other line what it said.
  pub allow-Sets : Sets dev t i true (allow dev i t)
  unfolding allow status
  allow-Sets =
      let m = dev t (port_of i) % 2 ^ 8 in
      let value = bit_and m (255 - 2 ^ line_of i) in
      let fits : value < 256 = ltb→lt _ _ (
        and-snd
          (agrees (bit_and (value % 2 ^ 8) (2 ^ 0) == 0)
            ((line_of i == 0) || (bit_and m (2 ^ 0) == 0)))
          _ (allowed 0 (omega arith))) in
      record {
        later = did_write (port_of i) value ∷ did_read (port_of i) m ∷ t;
        result = refl;
        mask = value;
        accesses = refl;
        lines = λ j h. status-Says dev _ j (
            written-enabled value true fits
              (λ k l.
                agrees→≡ _ _ (and-fst _ (ltb value 256) (allowed k l))
                ∙ choice_on (line_of i == k) (bit_and m (2 ^ k) == 0))
              j h);
      }

  -- With controllers that keep their masks and are initialised, `forbid` ends, and `status` says then that its line is
  -- disabled and of each other line what it said.
  pub forbid-Sets : Sets dev t i false (forbid dev i t)
  unfolding forbid status
  forbid-Sets =
      let m = dev t (port_of i) % 2 ^ 8 in
      let value = bit_or m (2 ^ line_of i) in
      let fits : value < 256 = ltb→lt _ _ (
        and-snd
          (agrees (bit_and (value % 2 ^ 8) (2 ^ 0) == 0)
            (not (line_of i == 0) && (bit_and m (2 ^ 0) == 0)))
          _ (forbidden 0 (omega arith))) in
      record {
        later = did_write (port_of i) value ∷ did_read (port_of i) m ∷ t;
        result = refl;
        mask = value;
        accesses = refl;
        lines = λ j h. status-Says dev _ j (
            written-enabled value false fits
              (λ k l.
                agrees→≡ _ _ (and-fst _ (ltb value 256) (forbidden k l))
                ∙ choice_off (line_of i == k) (bit_and m (2 ^ k) == 0))
              j h);
      }

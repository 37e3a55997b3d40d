-- ===== src/Boot/Accesses.antt =====
-- kernel/src/boot.rs: what the start of the interrupt controllers and of the timer writes to ports.
use heine_os.Prelude.{
  ℕ, ◌+◌, ◌<◌, ◌≡◌, ◌≢◌, inl, inr, refl, ap, ◌∙◌, Bool, true, some, List, [], ◌∷◌, if◌then◌else◌,
  ltb, lt→ltb, ◌==◌, split, ◌%◌, ◌^◌, done, dec_lt, arith,
}
use heine_os.Ports.{did_write, Trace, Device}
use Prim.Native.Nat.{bit_and}
use heine_os.Prelude.Bytes.{agrees, agrees→≡, all_below, below}
use heine_os.Timer.{set_interrupt_interval, counter_for}
use heine_os.Pic.{init, port_of, line_of}
use heine_os.Pic.Controller.{Keeps, IsData, command_of, pending, offset_of, vector_of}
use heine_os.Pic.Masks.{enabled}

-- Writes to ports, the latest first.
abbrev pub traced : List (ℕ × ℕ) → Trace → Trace
traced [] t = t
traced ((port, value) ∷ writes) t = did_write port value ∷ traced writes t

abbrev AllElsewhere : ℕ → List (ℕ × ℕ) → Type 0
AllElsewhere port [] = Unit
AllElsewhere port ((other, value) ∷ writes) =
    (port ≢ other) × (command_of port ≢ other) × AllElsewhere port writes

-- What `Pic.init` writes up to the first mask, and what it and `set_interrupt_interval` write behind.
abbrev commands : List (ℕ × ℕ)
commands =
    (128, 0)
    ∷ (161, 3)
    ∷ (128, 0)
    ∷ (33, 3)
    ∷ (128, 0)
    ∷ (161, 2)
    ∷ (128, 0)
    ∷ (33, 4)
    ∷ (128, 0)
    ∷ (161, 40)
    ∷ (128, 0)
    ∷ (33, 32)
    ∷ (128, 0)
    ∷ (160, 17)
    ∷ (128, 0)
    ∷ (32, 17)
    ∷ []

abbrev pub timer_writes : List (ℕ × ℕ)
timer_writes = (64, 4) ∷ (64, 169) ∷ (67, 54) ∷ []

abbrev behind_second : List (ℕ × ℕ)
behind_second = (64, 4) ∷ (64, 169) ∷ (67, 54) ∷ (128, 0) ∷ []

abbrev behind_first : List (ℕ × ℕ)
behind_first = (64, 4) ∷ (64, 169) ∷ (67, 54) ∷ (128, 0) ∷ (161, 255) ∷ (128, 0) ∷ []

abbrev pub initialised : Trace → Trace
initialised t = traced ((128, 0) ∷ (161, 255) ∷ (128, 0) ∷ (33, 251) ∷ commands) t

pub init_trace : (t : Trace) → init t ≡ done (tt, initialised t)
unfolding init
init_trace t = refl

pub timer_trace : (t : Trace) → set_interrupt_interval 1 t ≡ done (tt, traced timer_writes t)
unfolding set_interrupt_interval counter_for
timer_trace t = refl

-- The masks that `Pic.init` leaves: of all lines only 2 is enabled.
abbrev mask_test : ℕ → Bool
mask_test j =
    agrees (bit_and ((if ltb j 8 then 251 else 255) % 2 ^ 8) (2 ^ line_of j) == 0) (j == 2)

every-mask_test : all_below mask_test 16 ≡ true
every-mask_test = refl

module _ (dev : Device) (keeps : Keeps dev) where
  elsewhere :
      (port : ℕ) (writes : List (ℕ × ℕ)) (t : Trace)
      → IsData port
      → AllElsewhere port writes
      → dev (traced writes t) port ≡ dev t port
  elsewhere port [] t d h = refl
  elsewhere port ((other, value) ∷ writes) t d (n, m, h) =
      keeps.beside (traced writes t) port other value d n m ∙ elsewhere port writes t d h

  module _ (t : Trace) where
    abbrev pub programmed : Trace
    programmed = traced timer_writes (initialised t)

    first_mask : dev programmed 33 ≡ 251
    first_mask =
        elsewhere 33 behind_first (traced ((33, 251) ∷ commands) t) (inl refl) (omega arith)
        ∙ keeps.written (traced commands t) 33 251 (inl refl) refl (omega arith)

    second_mask : dev programmed 161 ≡ 255
    second_mask =
        elsewhere 161 behind_second (traced ((161, 255) ∷ (128, 0) ∷ (33, 251) ∷ commands) t)
          (inr refl) (omega arith)
        ∙ keeps.written (traced ((128, 0) ∷ (33, 251) ∷ commands) t) 161 255 (inr refl) refl
            (omega arith)

    mask_of : (j : ℕ) → dev programmed (port_of j) ≡ (if ltb j 8 then 251 else 255)
    mask_of j =
        split (λ b. dev programmed (if b then 33 else 161) ≡ (if b then 251 else 255)) (ltb j 8)
          (λ _. first_mask) (λ _. second_mask)

    pub line_two : (j : ℕ) → j < 16 → enabled dev programmed j ≡ (j == 2)
    line_two j h =
        ap (λ (m : ℕ). bit_and (m % 2 ^ 8) (2 ^ line_of j) == 0) (mask_of j)
        ∙ agrees→≡ _ _ (below mask_test 16 every-mask_test j h)

    pub initialised_at : (port : ℕ) → IsData port → pending port programmed ≡ 0
    initialised_at port (inl e) = rw e refl
    initialised_at port (inr e) = rw e refl

    -- A trace with the same vectors as behind the start of the timer.
    pub vectors_at :
        (later : Trace) (j : ℕ)
        → j < 16
        → ((port : ℕ) → IsData port → offset_of port later ≡ offset_of port programmed)
        → vector_of later j ≡ some (32 + j)
    vectors_at later j h same = elim (dec_lt j 8) [
      | yes l ↦ rw (lt→ltb j 8 l, same 33 (inl refl)) (ap some (omega arith))
      | no l ↦ ground (arith, same 161 (inr refl))
    ]

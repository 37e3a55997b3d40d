-- ===== src/Boot/Drivers.antt =====
-- kernel/src/boot.rs: the interrupts behind the start of the drivers.
use heine_os.Prelude.{
  ℕ, ◌+◌, ◌<◌, ◌≡◌, ◌≢◌, inl, refl, sym, ap, subst, ◌∙◌, Bool, true, Option, none, some, List, [],
  ◌∷◌, if◌then◌else◌, leb, ◌==◌, Outcome, done, panics, spins, unwrap, replicate, set, arith,
}
use heine_os.Ports.{Trace, Device, Io, lift, ◌>>=◌, ◌>>◌}
use heine_os.Timer.{set_interrupt_interval, counter_for}
use heine_os.Pic.{allow, status, init, port_of, line_of}
use heine_os.Pic.Masks.{enabled, Says, allow-Sets, Sets-vectors}
use heine_os.Boot.Accesses.{
  initialised, init_trace, timer_trace, programmed, line_two, initialised_at, vectors_at,
}
use heine_os.Pic.Controller.{Keeps, IsData, vector_of}
use heine_os.Interrupts.{no_vectors, register, dispatch_interrupt}
use heine_os.Interrupts.Registered.{Reaches, register_all, latest, init-Reaches}
use heine_os.Pci.{PciDevice}

module _ (dev : Device) {Isr : Type 0} where
  -- `keyboard::plugin`: its vector is 33.
  unfoldable pub keyboard_plugin : Isr → List (Option Isr) → Io (List (Option Isr))
  keyboard_plugin isr map = allow dev 1 >> lift (register map 33 isr)

  -- `main`, from `init_interrupt_dispatcher` to the keyboard, and with the network card.
  unfoldable pub start_first_drivers : Isr → Isr → Io (List (Option Isr))
  start_first_drivers timer keyboard = lift (heine_os.Interrupts.init no_vectors) >>= λ map.
      heine_os.Pic.init
      >> (heine_os.Timer.plugin dev timer map >>= λ map. keyboard_plugin keyboard map)

  unfoldable pub start_drivers : Isr → Isr → Isr → ℕ → ℕ → List PciDevice → Io (List (Option Isr))
  start_drivers timer keyboard card patience rx_buffer devices =
      start_first_drivers timer keyboard >>= λ map.
      heine_os.Rtl8139.Plugin.plugin dev card patience rx_buffer devices map

-- A handler for the timer, one for the keyboard, and no others; and the lines 0, 1 and 2 enabled, of
-- the timer, the keyboard and the second controller.
pub record Started (dev : Device) {Isr : Type 0} (timer keyboard : Isr)
    (r : Outcome (List (Option Isr) × Trace)) : Type 0 where
  pub map : List (Option Isr)
  pub later : Trace
  pub result : r ≡ done (map, later)
  -- The vectors of the lines of the timer and the keyboard, and of all lines.
  pub timer_is : (v : ℕ) × (vector_of later 0 ≡ some v) × (dispatch_interrupt map v ≡ done timer)
  pub keyboard_is :
      (v : ℕ) × (vector_of later 1 ≡ some v) × (dispatch_interrupt map v ≡ done keyboard)
  pub vectors : (j : ℕ) → j < 16 → vector_of later j ≡ some (32 + j)
  pub no_others :
      (vector : ℕ)
      → vector < 256
      → vector ≢ 32
      → vector ≢ 33
      → dispatch_interrupt map vector ≡ panics
  pub lines : (j : ℕ) → j < 16 → Says dev later j (leb j 2)

done-inj : {A : Type 0} {a b : A} → done a ≡ done b → a ≡ b
done-inj h = cc

-- What `status` says is what the mask says.
Says-enabled :
    (dev : Device) (t : Trace) (j : ℕ) {on : Bool} → Says dev t j on → enabled dev t j ≡ on
unfolding status
Says-enabled dev t j {on} (later, e) = ap answer e
  where
    answer : Outcome (Bool × Trace) → Bool
    answer (done (b, t)) = b
    answer panics = on
    answer spins = on

line_choice : (j : ℕ) → (if 1 == j then true else (if 0 == j then true else j == 2)) ≡ leb j 2
line_choice j = ground arith

module _ {Isr : Type 0} (timer keyboard : Isr) where
  abbrev registered : List (ℕ × Isr)
  registered = (32, timer) ∷ (33, keyboard) ∷ []

  abbrev map_first : List (Option Isr)
  map_first = replicate 256 none

  abbrev map_timer : List (Option Isr)
  map_timer = set map_first 32 (some timer)

  abbrev map_both : List (Option Isr)
  map_both = set map_timer 33 (some keyboard)

  reached : Reaches registered (λ _. none) (done map_both)
  unfolding heine_os.Interrupts.init register register_all
  reached = init-Reaches registered (omega arith)

  same_map : reached.map ≡ map_both
  same_map = done-inj (sym reached.result)

  dispatches :
      (vector : ℕ)
      → vector < 256
      → dispatch_interrupt map_both vector ≡ unwrap (latest registered vector none)
  dispatches vector h =
      ap (λ map. dispatch_interrupt map vector) (sym same_map) ∙ reached.reaches vector h

  no_handler : (vector : ℕ) → vector ≢ 32 → vector ≢ 33 → latest registered vector none ≡ none
  unfolding latest
  no_handler vector a b = ground arith

-- With controllers that keep the masks that they are given behind their initialisation, the start of
-- the first drivers ends: the vectors of the 16 lines start at 32, those of the timer and the keyboard
-- reach their handlers, the kernel panics at all others, and
-- status says of the lines 0, 1 and 2 that they are enabled and of the others that they are not.
pub start_first_drivers-Started :
    (dev : Device) {Isr : Type 0} (timer keyboard : Isr) (t : Trace)
    → Keeps dev
    → Started dev timer keyboard (start_first_drivers dev timer keyboard t)
unfolding start_first_drivers keyboard_plugin heine_os.Timer.plugin heine_os.Interrupts.init
    register latest
start_first_drivers-Started dev timer keyboard t keeps =
    let a = allow-Sets keeps (programmed dev keeps t) 0 (omega arith) refl in
    let first = λ (port : ℕ) (data_ : IsData port).
      Sets-vectors port data_ (initialised_at dev keeps t port data_) a in
    let b = allow-Sets keeps a.later 1 (omega arith) (first 33 (inl refl)).0 in
    let second =
      λ (port : ℕ) (data_ : IsData port). Sets-vectors port data_ (first port data_).0 b in
    let vectors : (j : ℕ) → j < 16 → vector_of b.later j ≡ some (32 + j) = λ j h.
      vectors_at dev keeps t b.later j h
        (λ port data_. (second port data_).1 ∙ (first port data_).1) in
    record {
      map = map_both timer keyboard;
      later = b.later;
      result = rw (init_trace t, timer_trace (initialised t), a.result, b.result) refl;
      timer_is = (32, vectors 0 (omega arith), dispatches timer keyboard 32 (omega arith));
      keyboard_is = (33, vectors 1 (omega arith), dispatches timer keyboard 33 (omega arith));
      vectors = vectors;
      no_others = λ vector h m n.
          dispatches timer keyboard vector h ∙ ap unwrap (no_handler timer keyboard vector m n);
      lines = λ j h.
          subst (Says dev b.later j)
            (ap (λ e. if 1 == j then true else e)
                (Says-enabled dev a.later j (a.lines j h)
                  ∙ ap (λ e. if 0 == j then true else e) (line_two dev keeps t j h))
              ∙ line_choice j)
            (b.lines j h);
    }

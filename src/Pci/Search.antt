-- ===== src/Pci/Search.antt =====
-- kernel/src/device/pci.rs: the search for devices, in a space that the search does not change.
use Prim.Native.Nat.{bit_and}
use heine_os.Prelude.{
  ℕ, zero, suc, ◌+◌, ◌%◌, ◌/◌, ◌≤◌, ◌<◌, ◌≡◌, refl, sym, ap, subst, ◌∙◌, true, false, [], ◌∷◌, ◌++◌,
  append-nil, append_assoc, if◌then◌else◌, ◌==◌, split, Outcome, done, arith,
}
use heine_os.Ports.{Device, Trace, Io, carry, pure, ◌>>=◌}
use heine_os.Pci.{
  calc_config_address, read8, read16, Register, register_offset, vendor_id, header_type, class,
  subclass, secondary_bus,
}
use heine_os.Pci.Scan.{
  Devices, each, check_function, check_other, check_device, scan_bus, scan_hosts, scan,
}
use heine_os.Pci.Values.{byte, half}
use heine_os.Pci.Registers.{shown, IsSpace, Reads, read8-Reads, read16-Reads}
use heine_os.Pci.Listing.{
  gather, cell8, cell16, absent, is_bridge, has_one_function, function_listing, other_listing,
  device_listing, listing, Descends,
}

module _ (dev : Device) (h : IsSpace dev) (space : ℕ → ℕ) where
  abbrev pub IsSame : Trace → Type 0
  IsSame t = (b : ℕ) → shown dev t b ≡ space b

  -- A call that adds these devices, and changes no register.
  pub record Finds (before found : Devices) (r : Outcome (Devices × Trace)) : Type 0 where
    pub now : Trace
    pub result : r ≡ done (before ++ found, now)
    pub same : IsSame now

  Finds-then :
      {ds xs ys : Devices} {r : Outcome (Devices × Trace)} (f : Devices → Io Devices)
      → Finds ds xs r
      → ((t : Trace) → IsSame t → Finds (ds ++ xs) ys (f (ds ++ xs) t))
      → Finds ds (xs ++ ys) (carry r f)
  Finds-then {ds} {xs} {ys} f a g =
      let b = g a.now a.same in
      record {
        now = b.now;
        result =
            ap (λ o. carry o f) a.result
            ∙ b.result
            ∙ ap (λ l. done (l, b.now)) (append_assoc ds xs ys);
        same = b.same;
      }

  Finds-read :
      {ds xs : Devices} {t : Trace} {v : ℕ} {r : Outcome (ℕ × Trace)} (f : ℕ → Io Devices)
      → Reads dev t v r
      → IsSame t
      → ((now : Trace) → IsSame now → Finds ds xs (f v now))
      → Finds ds xs (carry r f)
  Finds-read f a s g =
      let b = g a.now (λ c. a.same c ∙ s c) in
      record { now = b.now; result = ap (λ o. carry o f) a.result ∙ b.result; same = b.same }

  Finds-none : (ds : Devices) (t : Trace) → IsSame t → Finds ds [] (done (ds, t))
  Finds-none ds t s = record {
    now = t;
    result = ap (λ l. done (l, t)) (sym (append-nil ds));
    same = s;
  }

  read8_is :
      (bus device function : ℕ) (r : Register) (t : Trace)
      → IsSame t
      → Reads dev t
          (cell8 space bus device function r)
          (read8 dev bus device function (register_offset r) t)
  read8_is bus device function r t s =
      subst
        (λ (v : ℕ).
          Reads dev t (byte (register_offset r % 4) v)
            (read8 dev bus device function (register_offset r) t))
        (s (calc_config_address bus device function (register_offset r)))
        (read8-Reads dev h bus device function (register_offset r) t)

  read16_is :
      (bus device function : ℕ) (r : Register) (t : Trace)
      → IsSame t
      → Reads dev t
          (cell16 space bus device function r)
          (read16 dev bus device function (register_offset r) t)
  read16_is bus device function r t s =
      subst
        (λ (v : ℕ).
          Reads dev t (half (register_offset r / 2 % 2) v)
            (read16 dev bus device function (register_offset r) t))
        (s (calc_config_address bus device function (register_offset r)))
        (read16-Reads dev h bus device function (register_offset r) t)

  each-Finds :
      (n first : ℕ) (found : ℕ → Devices) (body : ℕ → Devices → Io Devices)
      → ((i : ℕ)
          → i < first + n
          → (ds : Devices) (t : Trace) → IsSame t
          → Finds ds (found i) (body i ds t))
      → (ds : Devices) (t : Trace) → IsSame t
      → Finds ds (gather n first found) (each n first body ds t)
  each-Finds zero first found body g ds t s = Finds-none ds t s
  each-Finds (suc n) first found body g ds t s =
      Finds-then (each n (suc first) body) (g first (omega arith) ds t s)
        (λ now s. each-Finds n (suc first) found body (λ i l. g i (omega arith)) _ now s)

  -- What a bus behind a bridge of this device gives is what is `behind` it.
  abbrev pub Deeper : (ℕ → Devices → Io Devices) → (ℕ → Devices) → ℕ → ℕ → Type 0
  Deeper scan_secondary behind bus device =
      (function : ℕ)
      → function < 8
      → is_bridge space bus device function ≡ true
      → (ds : Devices) (t : Trace) → IsSame t
      → Finds ds (behind (cell8 space bus device function secondary_bus))
          (scan_secondary (cell8 space bus device function secondary_bus) ds t)

  module _ (scan_secondary : ℕ → Devices → Io Devices) (behind : ℕ → Devices) (bus device : ℕ)
      (deeper : Deeper scan_secondary behind bus device) where
    check_function-Finds :
        (function : ℕ)
        → function < 8
        → (ds : Devices) (t : Trace) → IsSame t
        → Finds ds
            (function_listing space behind bus device function)
            (check_function dev scan_secondary bus device function ds t)
    unfolding check_function
    check_function-Finds function l ds t s =
        Finds-read _ (read8_is bus device function class t s) s (λ t s.
          Finds-read _ (read8_is bus device function subclass t s) s (λ t s.
            split
              (λ b.
                b ≡ is_bridge space bus device function
                → Finds ds
                    (if b
                      then behind (cell8 space bus device function secondary_bus)
                      else record { bus = bus; device = device; function = function } ∷ [])
                    ((if b
                        then (read8 dev bus device function (register_offset secondary_bus)
                            >>= λ secondary. scan_secondary secondary ds)
                        else pure
                            (ds ++ record { bus = bus; device = device; function = function } ∷ []))
                      t))
              (is_bridge space bus device function)
              (λ e f.
                Finds-read _ (read8_is bus device function secondary_bus t s) s
                  (λ t s. deeper function l e ds t s))
              (λ e f. record { now = t; result = refl; same = s }) refl))

    check_other-Finds :
        (function : ℕ)
        → function < 8
        → (ds : Devices) (t : Trace) → IsSame t
        → Finds ds
            (other_listing space behind bus device function)
            (check_other dev scan_secondary bus device function ds t)
    unfolding check_other
    check_other-Finds function l ds t s =
        Finds-read _ (read16_is bus device function vendor_id t s) s (λ t s.
          split
            (λ b.
              Finds ds (if b then [] else function_listing space behind bus device function) (
                (if b then pure ds else check_function dev scan_secondary bus device function ds)
                  t))
            (absent space bus device function) (λ e. Finds-none ds t s)
            (λ e. check_function-Finds function l ds t s))

    check_device-Finds :
        (ds : Devices) (t : Trace)
        → IsSame t
        → Finds ds
            (device_listing space behind bus device)
            (check_device dev scan_secondary bus device ds t)
    unfolding check_device
    check_device-Finds ds t s = Finds-read _ (read16_is bus device 0 vendor_id t s) s (λ t s.
        split
          (λ b. Finds ds (if b then [] else function_listing space behind bus device 0 ++ others) (
            (if b then pure ds else (check_function dev scan_secondary bus device 0 ds >>= more))
              t))
          (absent space bus device 0) (λ e. Finds-none ds t s)
          (λ e. Finds-then more (check_function-Finds 0 (omega arith) ds t s) (λ t s.
            Finds-read _ (read8_is bus device 0 header_type t s) s (λ t s.
              split
                (λ b.
                  Finds (ds ++ function_listing space behind bus device 0)
                    (if b then [] else gather 7 1 (other_listing space behind bus device))
                    ((if b
                        then pure (ds ++ function_listing space behind bus device 0)
                        else each 7 1 (check_other dev scan_secondary bus device)
                            (ds ++ function_listing space behind bus device 0))
                      t))
                (has_one_function space bus device) (λ e. Finds-none _ t s)
                (λ e. each-Finds 7 1 _ _ (λ i l. check_other-Finds i (omega arith)) _ t s)))))
      where
        others : Devices
        others =
            if has_one_function space bus device
            then []
            else gather 7 1 (other_listing space behind bus device)

        more : Devices → Io Devices
        more found = read8 dev bus device 0 (register_offset header_type) >>= λ header.
            if bit_and header 128 == 0
            then pure found
            else each 7 1 (check_other dev scan_secondary bus device) found

  module _ (descends : Descends space) where
    scan_bus-Finds :
        (nested bus : ℕ)
        → bus < 256
        → 256 ≤ bus + nested
        → (ds : Devices) (t : Trace) → IsSame t
        → Finds ds (listing space nested bus) (scan_bus dev nested bus ds t)
    unfolding scan_bus listing
    scan_bus-Finds zero bus l e ds t s = absurd (omega arith)
    scan_bus-Finds (suc nested) bus l e ds t s =
        each-Finds 32 0 (device_listing space (listing space nested) bus) _
          (λ device d.
            check_device-Finds (scan_bus dev nested) (listing space nested) bus device
              (λ function f b.
                scan_bus-Finds nested (cell8 space bus device function secondary_bus) (omega arith)
                  (omega (arith, descends bus device function l (omega arith) f b))))
          ds t s

    -- Where the host controller has one function and every bus behind a bridge has a larger number
    -- than the bridge's, the search ends
    -- with no more than 256 nested buses; it has found the devices of bus 0 and of the buses behind
    -- its bridges, in the order of their addresses, and has changed no register.
    pub scan-Finds :
        (t : Trace)
        → IsSame t
        → has_one_function space 0 0 ≡ true
        → Finds [] (listing space 256 0) (scan dev 256 t)
    unfolding scan
    scan-Finds t s e = Finds-read _ (read8_is 0 0 0 header_type t s) s (λ t s.
        subst
          (λ b.
            Finds [] (listing space 256 0)
              ((if b then scan_bus dev 256 0 [] else scan_hosts dev 256 8 0 []) t))
          (sym e) (scan_bus-Finds 256 0 (omega arith) (omega arith) [] t s))

  -- Where the host controller has several functions, the first of which is there, the search finds
  -- no device at all, however many there are.
  pub scan_several_hosts :
      (nested : ℕ) (t : Trace)
      → IsSame t
      → has_one_function space 0 0 ≡ false
      → absent space 0 0 0 ≡ false
      → Finds [] [] (scan dev nested t)
  unfolding scan scan_hosts
  scan_several_hosts nested t s e a = Finds-read _ (read8_is 0 0 0 header_type t s) s (λ t s.
      subst
        (λ b.
          Finds [] [] ((if b then scan_bus dev nested 0 [] else scan_hosts dev nested 8 0 []) t))
        (sym e)
        (Finds-read _ (read16_is 0 0 0 vendor_id t s) s (λ t s.
          subst
            (λ b.
              Finds [] [] (
                (if b then (scan_bus dev nested 0 [] >>= scan_hosts dev nested 7 1) else pure [])
                  t))
            (sym a) (Finds-none [] t s))))

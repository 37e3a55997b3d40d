-- ===== src/Pci/Tests.antt =====
-- A configuration space with a network card on the bus behind a bridge, and one whose host
-- controller says that it has several functions.
use heine_os.Prelude.{
  ℕ, ◌%◌, ◌^◌, ◌<◌, ◌≡◌, refl, ap, ◌∙◌, true, false, ◌&&◌, [], ◌∷◌, if◌then◌else◌, ◌==◌, ==_iff,
  Bool_false, true≢false, ◌≢◌, split, arith,
}
use heine_os.Prelude.Bytes.{and-fst}
use heine_os.Ports.{did_read, did_write, Trace, Device}
use heine_os.Pci.{calc_config_address}
use heine_os.Pci.Address.{calc_config_address_is}
use heine_os.Pci.Values.{byte}
use heine_os.Pci.Registers.{shown, IsSpace, Keeps}
use heine_os.Pci.Listing.{listing, Descends, has_one_function, absent}
use heine_os.Pci.Search.{Finds, scan-Finds, scan_several_hosts}
use heine_os.Pci.Scan.{scan}

-- The address that was written last.
abbrev selected : Trace → ℕ
selected [] = 0
selected (did_read port value ∷ t) = selected t
selected (did_write port value ∷ t) = if port == 3320 then value else selected t

module _ (initial : ℕ → ℕ) where
  abbrev cell : Trace → ℕ → ℕ
  cell [] a = initial a
  cell (did_read port value ∷ t) a = cell t a
  cell (did_write port value ∷ t) a =
      let before = cell t a in if (port == 3324) && (selected t == a) then value else before

  abbrev card : Device
  card t port = cell t (selected t)

  card-IsSpace : IsSpace card
  card-IsSpace = record {
    reading = λ t port value a. refl;
    addressing = λ t b a. refl;
    beside = λ t a b value n.
        ap (λ c. (if c then value else cell t b) % 2 ^ 32)
          (Bool_false (a == b) (λ e. n ((==_iff a b).0 e)));
  }

  card-Keeps : (a : ℕ) → Keeps card a
  card-Keeps a t value l =
      ap (λ c. (if c then value else cell t a) % 2 ^ 32) ((==_iff a a).1 refl) ∙ omega arith

-- A bridge at bus 0, device 0, function 0, with bus 1 behind it, and a card there. `header` is cell 12.
abbrev space : ℕ → ℕ → ℕ
space header a =
    if a == 2147483648
    then 305430662
    else if a == 2147483656
    then 100925440
    else if a == 2147483660
    then header
    else if a == 2147483672
    then 256
    else if a == 2147549184
    then 305430662
    else 4294967295

only_bridge : (a : ℕ) → (byte 3 (space 0 a) == 6) ≡ true → a ≡ 2147483656
only_bridge a h =
    split (λ b. b ≡ (a == 2147483656) → a ≡ 2147483656) (a == 2147483656)
      (λ e f. (==_iff a 2147483656).0 e)
      (λ e f. absurd (true≢false h (others a (λ n. true≢false ((==_iff a 2147483656).1 n) e)))) refl
  where
    others : (a : ℕ) → a ≢ 2147483656 → (byte 3 (space 0 a) == 6) ≡ false
    others a n = ground arith

descends : Descends (space 0)
unfolding calc_config_address
descends bus device function b d f e =
    let at = calc_config_address_is bus device function 11 b d f (omega arith) in
    let there = only_bridge (calc_config_address bus device function 11) (and-fst _ _ e) in
    let on : bus ≡ 0 = omega (arith, at, there) in
    let by : device ≡ 0 = omega (arith, at, there) in
    let of : function ≡ 0 = omega (arith, at, there) in rw (on, by, of) (omega arith)

shown_first :
    (header : ℕ) → header < 2 ^ 32 → (b : ℕ) → shown (card (space header)) [] b ≡ space header b
shown_first header l b = ground arith

one_function : has_one_function (space 0) 0 0 ≡ true
unfolding calc_config_address
one_function = refl

several_functions : has_one_function (space 8388608) 0 0 ≡ false
unfolding calc_config_address
several_functions = refl

there : absent (space 8388608) 0 0 0 ≡ false
unfolding calc_config_address
there = refl

scan-Finds_example :
    Finds
      (card (space 0))
      (card-IsSpace (space 0))
      (space 0)
      []
      (listing (space 0) 256 0)
      (scan (card (space 0)) 256 [])
scan-Finds_example =
    scan-Finds (card (space 0)) (card-IsSpace (space 0)) (space 0) descends []
      (shown_first 0 (omega arith)) one_function

scan_several_hosts_example :
    Finds
      (card (space 8388608))
      (card-IsSpace (space 8388608))
      (space 8388608)
      []
      []
      (scan (card (space 8388608)) 1 [])
scan_several_hosts_example =
    scan_several_hosts (card (space 8388608)) (card-IsSpace (space 8388608)) (space 8388608) 1 []
      (shown_first 8388608 (omega arith)) several_functions there

-- The card, at bus 1, is what the listing holds: the bridge stands for the bus behind it.
behind_bridge : listing (space 0) 2 0 ≡ record { bus = 1; device = 0; function = 0 } ∷ []
unfolding listing calc_config_address
behind_bridge = refl

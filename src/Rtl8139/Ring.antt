-- ===== src/Rtl8139/Ring.antt =====
-- kernel/src/device/rtl8139.rs: where the driver reads the receive ring, and what the card was told.
use heine_os.Prelude.{
  ℕ, ◌+◌, ◌*◌, ◌/◌, ◌%◌, ◌<◌, ◌≡◌, Bool, Option, none, some, List, [], ◌∷◌, ◌⊎◌, if◌then◌else◌,
  ◌==◌,
}
use heine_os.Ports.{did_read, did_write, Trace}
use heine_os.Rtl8139.{PacketQueue}
use heine_os.Rtl8139.Packets.{IsQueue}
use heine_os.Rtl8139.Registers.{reg_capr}
use heine_os.Rtl8139.Transfer.{RxState}

-- A queue of some packets.
abbrev pub IsAQueue : PacketQueue → Type 0
IsAQueue q = (packets : List (List ℕ)) × IsQueue q packets

-- The state between two packets.
pub record IsReady (rx : RxState) : Type 0 where
  pub inside : rx.rx_read_offset < 8192
  pub aligned : rx.rx_read_offset % 4 ≡ 0
  pub queued : IsAQueue rx.rx_queue

module _ (io_base : ℕ) where
  abbrev is_capr : ℕ → Bool
  is_capr port = port == io_base + reg_capr

  -- How often CAPR was written, and what was written last.
  abbrev pub capr_writes : Trace → ℕ
  capr_writes [] = 0
  capr_writes (did_read port value ∷ t) = capr_writes t
  capr_writes (did_write port value ∷ t) =
      (if port == io_base + reg_capr then 1 else 0) + capr_writes t

  abbrev pub latest_capr : Trace → Option ℕ
  latest_capr [] = none
  latest_capr (did_read port value ∷ t) = latest_capr t
  latest_capr (did_write port value ∷ t) =
      let before = latest_capr t in if port == io_base + reg_capr then some value else before

  -- CAPR, if it was written, is 16 behind the place where the driver reads on, in 16 bits.
  abbrev pub InStep : RxState → Trace → Type 0
  InStep rx t =
      (latest_capr t ≡ none)
      ⊎ ((capr : ℕ) × (latest_capr t ≡ some capr) × ((capr + 16) % 65536 ≡ rx.rx_read_offset))

  -- The place behind the packets that were acknowledged: each has a header of 4 bytes, the upper
  -- half of which is its length, and is filled up to a multiple of 4; the places go round at 8192.
  abbrev pub place : (Trace → ℕ → ℕ) → Trace → ℕ
  place ring [] = 0
  place ring (did_read port value ∷ t) = place ring t
  place ring (did_write port value ∷ t) =
      let before = place ring t in
      let length_ = ring t (before + 2) + ring t (before + 3) * 256 in
      if port == io_base + reg_capr then (before + 4 + length_ + 3) / 4 * 4 % 8192 else before

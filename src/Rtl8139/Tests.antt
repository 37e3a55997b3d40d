-- ===== src/Rtl8139/Tests.antt =====
-- Two packets on their way, and a third; and a card that has received one packet of 60 bytes.
use heine_os.Prelude.{
  ℕ, ◌%◌, ◌^◌, ◌≤◌, ◌<◌, ◌≡◌, refl, ap, true, List, [], ◌∷◌, none, some, done, inl, if◌then◌else◌,
  leb, ◌==◌, split, arith,
}
use heine_os.Ports.{Trace, Device}
use heine_os.Rtl8139.{new_packet_queue}
use heine_os.Rtl8139.Registers.{has_flag}
use heine_os.Rtl8139.Transfer.{new_rx_state, process_rx_buffer}
use heine_os.Rtl8139.Ring.{IsReady, capr_writes}
use heine_os.Rtl8139.Receiving.{Receives, AllBytes, Drains, process_rx_buffer-Receives}
use heine_os.Rtl8139.Traffic.{Op, put, get, run, ideal, packets_refine, new-IsQueue}

abbrev traffic : List Op
traffic = put (1 ∷ 2 ∷ []) ∷ put (3 ∷ []) ∷ get ∷ put [] ∷ get ∷ get ∷ get ∷ []

in_order : ideal traffic [] ≡ some (1 ∷ 2 ∷ []) ∷ some (3 ∷ []) ∷ some [] ∷ none ∷ []
unfolding ideal
in_order = refl

packets_refine_example : run traffic new_packet_queue ≡ done (ideal traffic [])
packets_refine_example = packets_refine traffic

abbrev card : Device
card t port = if port == 823 then (if leb 1 (capr_writes 768 t) then 1 else 0) else 0

-- A header with ROK and the length 64, and zeros.
abbrev ring : Trace → ℕ → ℕ
ring t i = if i == 0 then 1 else if i == 2 then 64 else 0

ring-AllBytes : AllBytes card ring (λ _. 0) 768
ring-AllBytes t i =
    split (λ b. (if b then 1 else if i == 2 then 64 else 0) < 256) (i == 0) (λ e. omega arith)
      (λ e. split (λ b. (if b then 64 else 0) < 256) (i == 2) (λ e. omega arith) (λ e. omega arith))

leb-one : (n : ℕ) → 1 ≤ n → leb 1 n ≡ true
leb-one n h = ground arith

card-Drains : Drains card ring (λ _. 0) 768 1
card-Drains t h =
    ap (λ b. has_flag ((if b then 1 else 0) % 2 ^ 8) 1) (leb-one (capr_writes 768 t) h)

new-IsReady : IsReady new_rx_state
unfolding new_rx_state
new-IsReady = record { inside = omega arith; aligned = refl; queued = ([], new-IsQueue) }

new_place : new_rx_state.rx_read_offset ≡ 0
unfolding new_rx_state
new_place = refl

process_rx_buffer-Receives_example :
    Receives 768 ring (process_rx_buffer card ring (λ _. 0) 768 2 new_rx_state [])
process_rx_buffer-Receives_example =
    process_rx_buffer-Receives card ring (λ _. 0) 768 ring-AllBytes 1 card-Drains 2 new_rx_state []
      (omega arith) (omega arith) new-IsReady (inl refl) new_place

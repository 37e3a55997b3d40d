-- ===== src/Rtl8139/Transfer.antt =====
-- kernel/src/device/rtl8139.rs: packets that come in through the receive ring and go out through the
-- four descriptors.
-- What the card has written into the receive buffer is the parameter `ring`: a byte for each place,
-- given the accesses to ports so far. `buffer_address` says where a transmit buffer lies.
use Prim.Native.Nat.{bit_and}
use heine_os.Prelude.{
  ℕ, zero, suc, ◌+◌, ◌-◌, ◌*◌, ◌/◌, ◌%◌, ◌^◌, Bool, ◌||◌, Option, none, some, List, [], ◌∷◌, ◌++◌,
  length, get_elem?, set, take, drop, replicate, if◌then◌else◌, ltb, leb, ◌==◌, Outcome, done,
  spins,
}
use heine_os.Ports.{Trace, Device, Io, ◌>>=◌, ◌>>◌, pure, panic, lift, indw, out}
use heine_os.Rtl8139.{EthernetFrame, PacketQueue, new_packet_queue, push, pop}
use heine_os.Rtl8139.Registers.{
  reg_tsd0, reg_tsad0, receive_ok, transmit_ok, rx_overflow, rok, has_flag, read_interrupt_status,
  acknowledge_interrupt, write_capr, rx_buffer_empty,
}

abbrev pub rx_buffer_size : ℕ
rx_buffer_size = 8192 + 1500 + 16

-- `RxState` without the buffer.
pub record RxState : Type 0 where
  pub rx_queue : PacketQueue
  pub rx_read_offset : ℕ

unfoldable pub new_rx_state : RxState
new_rx_state = record { rx_queue = new_packet_queue; rx_read_offset = 0 }

pub record TxState : Type 0 where
  pub current_tx_descriptor : ℕ
  pub tx_buffers : List (List ℕ)
  pub tx_queue : PacketQueue

unfoldable pub new_tx_state : TxState
new_tx_state = record {
  current_tx_descriptor = 0;
  tx_buffers = replicate 4 (replicate 2048 0);
  tx_queue = new_packet_queue;
}

-- The bytes of the buffer from a place on.
abbrev pub slice : (ℕ → ℕ) → ℕ → ℕ → List ℕ
slice buffer start zero = []
slice buffer start (suc n) = buffer start ∷ slice buffer (start + 1) n

-- `from_le_bytes` of the four bytes at an offset.
abbrev pub header_at : (ℕ → ℕ) → ℕ → ℕ
header_at buffer offset =
    buffer offset
    + buffer (offset + 1) * 2 ^ 8
    + buffer (offset + 2) * 2 ^ 16
    + buffer (offset + 3) * 2 ^ 24

-- The offset behind a packet, and what is written to CAPR for an offset.
abbrev pub next_offset : ℕ → ℕ → ℕ
next_offset offset length_ = bit_and (offset + 4 + length_ + 3) (2 ^ 64 - 4) % 8192

abbrev pub capr_for : ℕ → ℕ
capr_for offset = (offset % 2 ^ 16 + 2 ^ 16 - 16) % 2 ^ 16

-- What the loop does with the queue for a packet at an offset.
unfoldable pub take_packet : (ℕ → ℕ) → ℕ → PacketQueue → Outcome PacketQueue
take_packet buffer offset q =
    let header = header_at buffer offset in
    let packet_len = header / 2 ^ 16 - 4 in
    let data_start = offset + 4 in
    let pushed : Outcome PacketQueue = push q (slice buffer data_start packet_len) in
    if has_flag (header % 2 ^ 16) rok
    then (if leb (data_start + packet_len) rx_buffer_size then pushed else done q)
    else done q

module _ (dev : Device) (ring : Trace → ℕ → ℕ) (buffer_address : ℕ → ℕ) (io_base : ℕ) where
  -- The body of the loop in `process_rx_buffer`; an index out of the buffer panics.
  unfoldable pub process_packet : RxState → Io RxState
  process_packet rx t =
      let offset = rx.rx_read_offset in
      let next = next_offset offset (header_at (ring t) offset / 2 ^ 16) in
      (if ltb (offset + 3) rx_buffer_size
          then lift (take_packet (ring t) offset rx.rx_queue) >>= (λ q.
            write_capr dev io_base (capr_for next)
            >> pure (record { rx_queue = q; rx_read_offset = next }))
          else panic)
        t

  -- The loop, for so many packets at most: with none left it is taken never to end.
  unfoldable pub process_rx_buffer : ℕ → RxState → Io RxState
  process_rx_buffer zero rx t = spins
  process_rx_buffer (suc packets) rx t =
      let rest : RxState → Io RxState = process_rx_buffer packets in
      (rx_buffer_empty dev io_base >>= λ empty.
      if empty then pure rx else (process_packet rx >>= rest))
        t

  unfoldable pub tx_descriptor_free : TxState → Io Bool
  tx_descriptor_free tx = indw dev (io_base + reg_tsd0 + tx.current_tx_descriptor * 4) >>= λ status.
      pure (has_flag status (2 ^ 13))

  -- The frame goes to the buffer of the current descriptor, and the card is told.
  abbrev pub send_frame : TxState → EthernetFrame → Option (List ℕ) → Io TxState
  send_frame tx frame none = panic
  send_frame tx frame (some buffer) =
      let desc = tx.current_tx_descriptor in
      out (io_base + reg_tsad0 + desc * 4) (buffer_address desc % 2 ^ 32)
      >> out (io_base + reg_tsd0 + desc * 4) (frame.length_ % 2 ^ 32)
      >> pure (record tx {
        tx_buffers =
            set tx.tx_buffers desc (take frame.length_ frame.data_ ++ drop frame.length_ buffer);
        current_tx_descriptor = (desc + 1) % 4;
      })

  -- The loop of `flush_tx_queue`; every round takes a packet out of the queue, so that the size of
  -- the queue is enough rounds.
  unfoldable pub flush_rounds : ℕ → TxState → Io TxState
  flush_rounds zero tx = pure tx
  flush_rounds (suc rounds) tx =
      let rest : TxState → Io TxState = flush_rounds rounds in
      if tx.tx_queue.size == 0
      then pure tx
      else tx_descriptor_free tx >>= (λ free.
        if free
        then lift (pop tx.tx_queue) >>= (λ r. elim r.0 [
          | none ↦ pure tx
          | some frame ↦
              send_frame (record tx { tx_queue = r.1 }) frame
                (get_elem? tx.tx_buffers tx.current_tx_descriptor)
              >>= rest
        ])
        else pure tx)

  unfoldable pub flush_tx_queue : TxState → Io TxState
  flush_tx_queue tx = flush_rounds tx.tx_queue.size tx

  unfoldable pub transmit : List ℕ → TxState → Io TxState
  transmit data_ tx =
      if ltb 1792 (length data_)
      then pure tx
      else lift (push tx.tx_queue data_) >>= λ q. flush_tx_queue (record tx { tx_queue = q })

  -- `Rtl8139ISR::trigger`.
  unfoldable pub trigger_card : ℕ → RxState → TxState → Io (RxState × TxState)
  trigger_card packets rx tx = read_interrupt_status dev io_base >>= λ status.
      (if has_flag status receive_ok || has_flag status rx_overflow
        then process_rx_buffer packets rx
        else pure rx)
      >>= λ received.
          (if has_flag status transmit_ok then flush_tx_queue tx else pure tx) >>= λ sent.
          acknowledge_interrupt dev io_base status >> pure (received, sent)

unfoldable pub receive_packet : RxState → Outcome (Option EthernetFrame × PacketQueue)
receive_packet rx = pop rx.rx_queue

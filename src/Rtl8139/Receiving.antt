-- ===== src/Rtl8139/Receiving.antt =====
-- kernel/src/device/rtl8139.rs: the loop that empties the receive ring.
-- The hypothesis `Drains` is that the card reports an empty buffer once so many packets have been
-- acknowledged by a write to CAPR; `AllBytes` is that the buffer holds bytes.
use heine_os.Prelude.{
  ℕ, zero, suc, ◌+◌, ◌-◌, ◌*◌, ◌/◌, ◌%◌, ◌^◌, ◌≤◌, ◌<◌, ◌≡◌, refl, sym, ap, ◌∙◌, true, false, some,
  ◌∷◌, inr, if◌then◌else◌, leb, lt→ltb, ◌==◌, ==_iff, split, Outcome, done, arith, dec_lt,
  true≢false,
}
use heine_os.Prelude.Bits.{bit_and_high}
use heine_os.Ports.{
  did_read, did_write, Trace, Device, Io, carry, keep, lift, pure, panic, ◌>>=◌, ◌>>◌,
}
use heine_os.Rtl8139.{PacketQueue, push}
use heine_os.Rtl8139.Packets.{push-Pushes}
use heine_os.Rtl8139.Registers.{
  reg_cmd, reg_capr, rok, buffer_empty, has_flag, rx_buffer_empty, read_card_command, write_capr,
}
use heine_os.Rtl8139.Ring.{IsAQueue, IsReady, capr_writes, latest_capr, place, InStep}
use heine_os.Rtl8139.Transfer.{
  RxState, rx_buffer_size, slice, header_at, next_offset, capr_for, take_packet, process_packet,
  process_rx_buffer,
}

module _ (io_base : ℕ) where
  -- A call that ends between two packets.
  pub record Receives (ring : Trace → ℕ → ℕ) (r : Outcome (RxState × Trace)) : Type 0 where
    pub rx : RxState
    pub now : Trace
    pub result : r ≡ done (rx, now)
    pub ready : IsReady rx
    pub in_step : InStep io_base rx now
    pub place_is : rx.rx_read_offset ≡ place io_base ring now

module _ (dev : Device) (ring : Trace → ℕ → ℕ) (buffer_address : ℕ → ℕ) (io_base : ℕ) where
  abbrev pub AllBytes : Type 0
  AllBytes = (t : Trace) (i : ℕ) → ring t i < 256

  abbrev pub Drains : ℕ → Type 0
  Drains packets =
      (t : Trace)
      → packets ≤ capr_writes io_base t
      → has_flag (dev t (io_base + reg_cmd) % 2 ^ 8) buffer_empty ≡ true

  taken :
      (buffer : ℕ → ℕ) (offset : ℕ) (q : PacketQueue)
      → IsAQueue q
      → (next : PacketQueue) × (take_packet buffer offset q ≡ done next) × IsAQueue next
  unfolding take_packet
  taken buffer offset q (packets, h) =
      let packet_len = header_at buffer offset / 2 ^ 16 - 4 in
      let packet = slice buffer (offset + 4) packet_len in
      let p = push-Pushes h packet in
      split
        (λ b.
          (next : PacketQueue) × ((if b
              then (if leb (offset + 4 + packet_len) rx_buffer_size then push q packet else done q)
              else done q)
            ≡ done next)
          × IsAQueue next)
        (has_flag (header_at buffer offset % 2 ^ 16) rok)
        (λ e.
          split
            (λ b.
              (next : PacketQueue) × ((if b then push q packet else done q) ≡ done next)
              × IsAQueue next)
            (leb (offset + 4 + packet_len) rx_buffer_size) (λ f. (p.now, p.result, (_, p.is_queue)))
            (λ f. (q, refl, (packets, h))))
        (λ e. (q, refl, (packets, h)))

  moved_on :
      (offset length_ : ℕ)
      → offset < 8192
      → length_ < 65536
      → (next_offset offset length_ < 8192)
        × (next_offset offset length_ % 4 ≡ 0)
        × (next_offset offset length_ ≡ (offset + 4 + length_ + 3) / 4 * 4 % 8192)
  moved_on offset length_ a b =
      let e = bit_and_high 2 64 (offset + 4 + length_ + 3) (omega arith) (omega arith) in
      (omega arith, omega (arith, e), omega (arith, e))

  -- The upper half of a header.
  header_length :
      (buffer : ℕ → ℕ)
      → ((i : ℕ) → buffer i < 256)
      → (offset : ℕ)
      → header_at buffer offset / 2 ^ 16 ≡ buffer (offset + 2) + buffer (offset + 3) * 256
  header_length buffer bytes offset =
      omega (arith, bytes offset, bytes (offset + 1), bytes (offset + 2), bytes (offset + 3))

  -- After one packet.
  processed :
      AllBytes
      → (rx : RxState) (t : Trace) → IsReady rx
      → rx.rx_read_offset ≡ place io_base ring t
      → (r : Receives io_base ring (process_packet dev ring buffer_address io_base rx t))
        × (capr_writes io_base r.now ≡ capr_writes io_base t + 1)
  unfolding process_packet write_capr
  processed bytes rx t h at =
      let offset = rx.rx_read_offset in
      let next = next_offset offset (header_at (ring t) offset / 2 ^ 16) in
      let (q, found, queued) = taken (ring t) offset rx.rx_queue h.queued in
      let later : RxState = record { rx_queue = q; rx_read_offset = next } in
      let moves_on : PacketQueue → Io RxState = λ q.
        write_capr dev io_base (capr_for next)
        >> pure (record { rx_queue = q; rx_read_offset = next }) in
      let step : Io RxState = lift (take_packet (ring t) offset rx.rx_queue) >>= moves_on in
      let is_port : (io_base + reg_capr == io_base + reg_capr) ≡ true =
        (==_iff (io_base + reg_capr) (io_base + reg_capr)).1 refl in
      let m = moved_on offset (header_at (ring t) offset / 2 ^ 16) h.inside (
        omega (
          arith,
          bytes t offset,
          bytes t (offset + 1),
          bytes t (offset + 2),
          bytes t (offset + 3),
        )) in
      (
        record {
          rx = later;
          now = did_write (io_base + reg_capr) (capr_for next) ∷ t;
          result =
              ap (λ b. (if b then step else panic) t)
                (lt→ltb (offset + 3) rx_buffer_size (omega (arith, h.inside)))
              ∙ ap (λ o. carry (keep t o) moves_on) found;
          ready = record { inside = m.0; aligned = m.1; queued = queued };
          place_is =
              m.2
              ∙ ap (λ (n : ℕ). (offset + 4 + n + 3) / 4 * 4 % 8192)
                  (header_length (ring t) (bytes t) offset)
              ∙ ap (λ (n : ℕ). (n + 4 + (ring t (n + 2) + ring t (n + 3) * 256) + 3) / 4 * 4 % 8192)
                  at
              ∙ sym (
                  ap
                    (λ b.
                      let before = place io_base ring t in
                      let length_ = ring t (before + 2) + ring t (before + 3) * 256 in
                      if b then (before + 4 + length_ + 3) / 4 * 4 % 8192 else before)
                    is_port);
          in_step = inr (
            capr_for next,
            ap (λ b. if b then some (capr_for next) else latest_capr io_base t) is_port,
            omega (arith, m.0),
          );
        },
        omega (arith, ap {B = ℕ} (λ b. if b then 1 else 0) is_port),
      )

  -- If the card reports an empty buffer once `packets` packets in all were acknowledged, the rounds
  -- are more than the packets that are left, and the buffer holds bytes, then from a place that is
  -- inside of the ring, at a multiple of four and behind the acknowledged packets, with a well-formed
  -- queue, and CAPR, if it was written, 16 behind the place, the loop ends, without a panic, and the
  -- same holds then: each packet has taken its header, its length and the bytes up to a multiple of four.
  pub process_rx_buffer-Receives :
      AllBytes
      → (packets : ℕ) → Drains packets
      → (rounds : ℕ) (rx : RxState) (t : Trace) → packets < capr_writes io_base t + rounds
      → 1 ≤ rounds
      → IsReady rx
      → InStep io_base rx t
      → rx.rx_read_offset ≡ place io_base ring t
      → Receives io_base ring (process_rx_buffer dev ring buffer_address io_base rounds rx t)
  unfolding process_rx_buffer rx_buffer_empty read_card_command
  process_rx_buffer-Receives bytes packets drains zero rx t l o h i at = absurd (omega arith)
  process_rx_buffer-Receives bytes packets drains (suc rounds) rx t l o h i at =
      let command = dev t (io_base + reg_cmd) % 2 ^ 8 in
      let looked : Trace = did_read (io_base + reg_cmd) command ∷ t in
      split
        (λ b.
          b ≡ has_flag command buffer_empty
          → Receives io_base ring (
              (if b
                  then pure rx
                  else (process_packet dev ring buffer_address io_base rx
                      >>= process_rx_buffer dev ring buffer_address io_base rounds))
                looked))
        (has_flag command buffer_empty)
        (λ e f. record {
          rx = rx;
          now = looked;
          result = refl;
          ready = h;
          in_step = i;
          place_is = at;
        })
        (λ e f.
          let (p, counted) = processed bytes rx looked h at in
          let more =
            process_rx_buffer-Receives bytes packets drains rounds p.rx p.now
              (omega (arith, counted)) (omega (arith, still f)) p.ready p.in_step p.place_is in
          record {
            rx = more.rx;
            now = more.now;
            result =
                ap (λ o. carry o (process_rx_buffer dev ring buffer_address io_base rounds))
                  p.result
                ∙ more.result;
            ready = more.ready;
            in_step = more.in_step;
            place_is = more.place_is;
          })
        refl
    where
      still :
          false ≡ has_flag (dev t (io_base + reg_cmd) % 2 ^ 8) buffer_empty
          → capr_writes io_base t < packets
      still f = elim (dec_lt (capr_writes io_base t) packets) [
        | yes b ↦ b
        | no b ↦ absurd (true≢false (drains t (omega arith)) (sym f))
      ]

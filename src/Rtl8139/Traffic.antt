-- ===== src/Rtl8139/Traffic.antt =====
-- kernel/src/device/rtl8139.rs: any traffic through a packet queue.
use heine_os.Prelude.{
  ℕ, ◌≡◌, refl, ap, ◌∙◌, Option, none, some, List, [], ◌∷◌, length-replicate, Outcome, done, ◌>>=◌,
  arith,
}
use heine_os.Rtl8139.{
  EthernetFrame, PacketQueue, empty_frame, queue_capacity, new_packet_queue, push, pop,
}
use heine_os.Rtl8139.Packets.{payload, IsQueue, accepts, push-Pushes, pop-Pops}

pub data Op : Type 0 where
  put : List ℕ → Op
  get : Op

abbrev pub packet_of : Option EthernetFrame → Option (List ℕ)
packet_of none = none
packet_of (some frame) = some (payload frame)

-- What the calls of `pop` return, as packets.
unfoldable pub run : List Op → PacketQueue → Outcome (List (Option (List ℕ)))
run [] q = done []
run (put p ∷ ops) q = do next ← push q p; run ops next
run (get ∷ ops) q = do r ← pop q; rest ← run ops r.1; done (packet_of r.0 ∷ rest)

-- What a queue of packets with 64 places returns.
unfoldable pub ideal : List Op → List (List ℕ) → List (Option (List ℕ))
ideal [] packets = []
ideal (put p ∷ ops) packets = ideal ops (accepts packets p)
ideal (get ∷ ops) [] = none ∷ ideal ops []
ideal (get ∷ ops) (p ∷ packets) = some p ∷ ideal ops packets

pub new-IsQueue : IsQueue new_packet_queue []
unfolding new_packet_queue
new-IsQueue = record {
  places = length-replicate queue_capacity empty_frame;
  tail_inside = omega arith;
  head_is = refl;
  size_is = refl;
  bounded = omega arith;
  holds = tt;
}

run_at :
    (ops : List Op) (packets : List (List ℕ)) (q : PacketQueue)
    → IsQueue q packets
    → run ops q ≡ done (ideal ops packets)
unfolding run ideal
run_at [] packets q h = refl
run_at (put p ∷ ops) packets q h =
    let r = push-Pushes h p in
    ap (λ o. o >>= run ops) r.result ∙ run_at ops (accepts packets p) r.now r.is_queue
run_at (get ∷ ops) [] q h =
    ap (λ o. o >>= after) (pop-Pops [] h)
    ∙ ap (λ o. o >>= λ rest. done (none ∷ rest)) (run_at ops [] q h)
  where
    after : Option EthernetFrame × PacketQueue → Outcome (List (Option (List ℕ)))
    after r = run ops r.1 >>= λ rest. done (packet_of r.0 ∷ rest)
run_at (get ∷ ops) (p ∷ packets) q h =
    let (frame, now, result, same, valid) = pop-Pops (p ∷ packets) h in
    ap (λ o. o >>= after) result
    ∙ ap (λ o. o >>= λ rest. done (some (payload frame) ∷ rest)) (run_at ops packets now valid)
    ∙ ap (λ c. done (some c ∷ ideal ops packets)) same
  where
    after : Option EthernetFrame × PacketQueue → Outcome (List (Option (List ℕ)))
    after r = run ops r.1 >>= λ rest. done (packet_of r.0 ∷ rest)

-- From `PacketQueue::new` on, no sequence of calls of `push` and `pop` panics, and the packets that
-- come out are those of a queue with 64 places that refuses packets of more than 2048 bytes, and any
-- packet while it is full.
pub packets_refine : (ops : List Op) → run ops new_packet_queue ≡ done (ideal ops [])
packets_refine ops = run_at ops [] new_packet_queue new-IsQueue

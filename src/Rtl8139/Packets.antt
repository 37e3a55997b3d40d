-- ===== src/Rtl8139/Packets.antt =====
-- kernel/src/device/rtl8139.rs: the packet queue against a bounded queue of packets.
use heine_os.Prelude.{
  ℕ, ◌+◌, ◌-◌, ◌%◌, ◌^◌, ◌≤◌, ◌<◌, ◌≡◌, refl, sym, ap, ap₂, subst, ◌∙◌, Bool, true, false, ◌||◌,
  Option, none, some, List, [], ◌∷◌, ◌++◌, length, get_elem?, set, take, drop, length-append,
  length-set, get_elem?-set_self, get_elem?-set_ne, get_elem?-inside, take-append, Bool_false,
  if◌then◌else◌, ltb, ◌==◌, ==_iff, split, Outcome, done, arith,
}
use heine_os.Rtl8139.{
  EthernetFrame, PacketQueue, queue_capacity, filled, dropped, stored, fetched, push, pop,
}

-- The packet in a frame.
abbrev pub payload : EthernetFrame → List ℕ
payload frame = take frame.length_ frame.data_

-- The ring holds these packets from place `i` on.
abbrev pub Holds : List EthernetFrame → ℕ → List (List ℕ) → Type 0
Holds buffer i [] = Unit
Holds buffer i (p ∷ ps) =
    ((frame : EthernetFrame) × (get_elem? buffer i ≡ some frame) × (payload frame ≡ p))
    × Holds buffer ((i + 1) % 64) ps

-- The queue is well-formed and holds these packets, the oldest first.
pub record IsQueue (q : PacketQueue) (packets : List (List ℕ)) : Type 0 where
  pub places : length q.buffer ≡ 64
  pub tail_inside : q.tail < 64
  pub head_is : q.head ≡ (q.tail + q.size) % 64
  pub size_is : q.size ≡ length packets
  pub bounded : length packets ≤ 64
  pub holds : Holds q.buffer q.tail packets

-- A frame written behind all packets comes last, and the others stay.
Holds-set :
    (buffer : List EthernetFrame) (i h : ℕ) (ps : List (List ℕ)) (frame : EthernetFrame)
    → length buffer ≡ 64
    → i < 64
    → length ps < 64
    → h ≡ (i + length ps) % 64
    → Holds buffer i ps
    → Holds (set buffer h frame) i (ps ++ payload frame ∷ [])
Holds-set buffer i h [] frame l b s e w = (
  (
    frame,
    subst (λ n. get_elem? (set buffer h frame) n ≡ some frame) (omega arith)
        (get_elem?-set_self buffer h frame (omega arith)),
    refl,
  ),
  tt,
)
Holds-set buffer i h (p ∷ ps) frame l b s e ((old, at, same), w) = (
  (old, get_elem?-set_ne buffer frame (λ same. absurd (omega arith)) ∙ at, same),
  Holds-set buffer ((i + 1) % 64) h ps frame l (omega arith) (omega arith) (omega arith) w,
)

-- A packet is refused where 64 wait, or if it is too long.
abbrev pub refused : List (List ℕ) → List ℕ → Bool
refused packets p = (length packets == 64) || ltb 2048 (length p)

abbrev pub accepts : List (List ℕ) → List ℕ → List (List ℕ)
accepts packets p = if refused packets p then packets else packets ++ p ∷ []

-- `push` returns a queue that holds the packet as well, or has counted it as dropped.
pub record Pushes (q : PacketQueue) (packets : List (List ℕ)) (p : List ℕ) (r : Outcome PacketQueue)
    : Type 0 where
  pub now : PacketQueue
  pub result : r ≡ done now
  pub is_queue : IsQueue now (accepts packets p)
  pub counted :
      now.dropped_packets
      ≡ (if refused packets p then (q.dropped_packets + 1) % 2 ^ 64 else q.dropped_packets)

module _ {q : PacketQueue} {packets : List (List ℕ)} (h : IsQueue q packets) where
  dropped-IsQueue : IsQueue (dropped q) packets
  dropped-IsQueue = record {
    places = h.places;
    tail_inside = h.tail_inside;
    head_is = h.head_is;
    size_is = h.size_is;
    bounded = h.bounded;
    holds = h.holds;
  }

  drops : (p : List ℕ) → refused packets p ≡ true → Pushes q packets p (done (dropped q))
  drops p e = record {
    now = dropped q;
    result = refl;
    is_queue =
        subst (λ b. IsQueue (dropped q) (if b then packets else packets ++ p ∷ [])) (sym e)
          dropped-IsQueue;
    counted = rw e;
  }

  stored-IsQueue :
      (p : List ℕ) (frame : EthernetFrame)
      → length packets < 64
      → IsQueue
          (record q {
            buffer = set q.buffer q.head (filled frame p);
            head = (q.head + 1) % queue_capacity;
            size = q.size + 1;
          })
          (packets ++ p ∷ [])
  stored-IsQueue p frame room = record {
    places = length-set q.buffer q.head (filled frame p) ∙ h.places;
    tail_inside = h.tail_inside;
    head_is = omega (arith, h.head_is);
    size_is = omega (arith, h.size_is, length-append packets (p ∷ []));
    bounded = omega (arith, length-append packets (p ∷ []));
    holds =
        subst (λ c. Holds (set q.buffer q.head (filled frame p)) q.tail (packets ++ c ∷ []))
          (take-append p (drop (length p) frame.data_))
          (Holds-set q.buffer q.tail q.head packets (filled frame p) h.places h.tail_inside room
            (omega (arith, h.head_is, h.size_is)) h.holds);
  }

  pub push-Pushes : (p : List ℕ) → Pushes q packets p (push q p)
  unfolding push
  push-Pushes p =
      split
        (λ b. Pushes q packets p (
          if b
          then done (dropped q)
          else if ltb 2048 (length p)
          then done (dropped q)
          else stored q p at_head))
        (q.size == queue_capacity)
        (λ e. drops p (same_test e ∙ ap (λ b. b || ltb 2048 (length p)) e))
        (λ e.
          split (λ b. Pushes q packets p (if b then done (dropped q) else stored q p at_head))
            (ltb 2048 (length p)) (λ l. drops p (same_test e ∙ ap₂ (λ b c. b || c) e l))
            (λ l. taken e (same_test e ∙ ap₂ (λ b c. b || c) e l)))
    where
      at_head : Option EthernetFrame
      at_head = get_elem? q.buffer q.head

      same_test :
          {b : Bool}
          → (q.size == queue_capacity) ≡ b
          → refused packets p ≡ ((q.size == queue_capacity) || ltb 2048 (length p))
      same_test e = ap (λ n. (n == 64) || ltb 2048 (length p)) (sym h.size_is)

      room : (q.size == queue_capacity) ≡ false → length packets < 64
      room e = ground (arith, h.size_is, h.bounded)

      taken :
          (q.size == queue_capacity) ≡ false
          → refused packets p ≡ false
          → Pushes q packets p (stored q p at_head)
      taken e f =
          let (frame, found) =
            get_elem?-inside q.buffer q.head (omega (arith, h.places, h.head_is)) in
          let next : PacketQueue = record q {
            buffer = set q.buffer q.head (filled frame p);
            head = (q.head + 1) % queue_capacity;
            size = q.size + 1;
          } in
          record {
            now = next;
            result = ap (stored q p) found;
            is_queue =
                subst (λ b. IsQueue next (if b then packets else packets ++ p ∷ [])) (sym f)
                  (stored-IsQueue p frame (room e));
            counted =
                subst
                  (λ b.
                    q.dropped_packets
                    ≡ (if b then (q.dropped_packets + 1) % 2 ^ 64 else q.dropped_packets))
                  (sym f) refl;
          }

-- `pop` takes out the oldest packet.
abbrev pub Pops :
    List (List ℕ) → PacketQueue → Outcome (Option EthernetFrame × PacketQueue) → Type 0
Pops [] q r = r ≡ done (none, q)
Pops (p ∷ packets) q r =
    (frame : EthernetFrame) × (now : PacketQueue) × (r ≡ done (some frame, now))
    × (payload frame ≡ p)
    × IsQueue now packets

pub pop-Pops :
    {q : PacketQueue} (packets : List (List ℕ)) → IsQueue q packets → Pops packets q (pop q)
unfolding pop
pop-Pops {q} [] h =
    ap (λ n. if n == 0 then done (none, q) else fetched q (get_elem? q.buffer q.tail)) h.size_is
pop-Pops {q} (p ∷ packets) h =
    let ((frame, found, same), later) = h.holds in
    (
      frame,
      record q { tail = (q.tail + 1) % queue_capacity; size = q.size - 1 },
      ap₂ (λ b o. if b then done (none, q) else fetched q o)
          (Bool_false (q.size == 0) (λ e. absurd (omega (arith, (==_iff q.size 0).0 e, h.size_is))))
          found,
      same,
      record {
        places = h.places;
        tail_inside = omega (arith, h.tail_inside);
        head_is = omega (arith, h.head_is, h.size_is);
        size_is = omega (arith, h.size_is);
        bounded = omega (arith, h.bounded);
        holds = later;
      },
    )

-- ===== src/Rtl8139.antt =====
-- kernel/src/device/rtl8139.rs: the packet queues of the network card, and where the receive ring
-- goes on. A frame's `data` is the array of 2048 bytes; an index out of a table panics.
pub mod Registers
pub mod Transfer
pub mod Plugin
pub mod Ring
pub mod Receiving
pub mod Packets
pub mod Traffic
mod Tests
use Prim.Native.Nat.{bit_and, bit_or}
use heine_os.Prelude.{
  ℕ, ◌+◌, ◌-◌, ◌*◌, ◌%◌, ◌/◌, ◌^◌, Bool, true, false, ◌&&◌, Option, none, some, List, [], ◌∷◌, ◌++◌,
  length, get_elem?, set, drop, replicate, if◌then◌else◌, ltb, leb, ◌==◌, Outcome, done, panics,
  spins, ◌>>=◌, unwrap,
}

abbrev pub queue_capacity : ℕ
queue_capacity = 64

pub record EthernetFrame : Type 0 where
  pub data_ : List ℕ
  pub length_ : ℕ

unfoldable pub empty_frame : EthernetFrame
empty_frame = record { data_ = replicate 2048 0; length_ = 0 }

pub record PacketQueue : Type 0 where
  pub buffer : List EthernetFrame
  pub head : ℕ
  pub tail : ℕ
  pub size : ℕ
  pub dropped_packets : ℕ

unfoldable pub new_packet_queue : PacketQueue
new_packet_queue = record {
  buffer = replicate queue_capacity empty_frame;
  head = 0;
  tail = 0;
  size = 0;
  dropped_packets = 0;
}

-- The packet is dropped, and counted.
abbrev pub dropped : PacketQueue → PacketQueue
dropped q = record q { dropped_packets = (q.dropped_packets + 1) % 2 ^ 64 }

-- `frame` with the packet at the start of its data.
abbrev pub filled : EthernetFrame → List ℕ → EthernetFrame
filled frame packet = record {
  data_ = packet ++ drop (length packet) frame.data_;
  length_ = length packet;
}

-- The end of `push`, with the frame at the head of the ring.
abbrev pub stored : PacketQueue → List ℕ → Option EthernetFrame → Outcome PacketQueue
stored q packet none = panics
stored q packet (some frame) = done (record q {
  buffer = set q.buffer q.head (filled frame packet);
  head = (q.head + 1) % queue_capacity;
  size = q.size + 1;
})

unfoldable pub push : PacketQueue → List ℕ → Outcome PacketQueue
push q packet =
    if q.size == queue_capacity
    then done (dropped q)
    else if ltb 2048 (length packet)
    then done (dropped q)
    else stored q packet (get_elem? q.buffer q.head)

-- The end of `pop`, with the frame at the tail of the ring.
abbrev pub fetched :
    PacketQueue → Option EthernetFrame → Outcome (Option EthernetFrame × PacketQueue)
fetched q none = panics
fetched q (some frame) =
    done (some frame, record q { tail = (q.tail + 1) % queue_capacity; size = q.size - 1 })

unfoldable pub pop : PacketQueue → Outcome (Option EthernetFrame × PacketQueue)
pop q = if q.size == 0 then done (none, q) else fetched q (get_elem? q.buffer q.tail)

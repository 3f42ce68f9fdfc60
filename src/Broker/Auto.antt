-- ===== src/Broker/Auto.antt =====
-- keemash_mesh_tx_broker.c: the priority that the broker reads off a packet.
use keemash_core.Base.{
  ℕ, ◌+◌, ◌≤◌, Bool, false, not, ◌||◌, Option, none, some, List, ◌++◌, ltb, ◌==◌, if◌then◌else◌,
  if_false, length, drop, ◌≡◌, refl, ap, ◌∙◌, arith,
}
use keemash_core.Proto.{
  Esp, priority_normal, priority_control, pkt_magic, pkt_version_v2, type_data, hdr_size,
  reliable_hdr_size,
}
use keemash_core.Wire.{Hdr, hdr_bytes, hdr_of, RelHdr, rel_hdr_bytes, rel_hdr_of}
use keemash_core.Wire.RoundTrip.{
  IsHdr, hdr_of-hdr_bytes, drop-hdr_bytes, length-hdr_bytes, rel_hdr_of-rel_hdr_bytes,
  length-rel_hdr_bytes,
}
use keemash_core.Rel.{Ctx}
use keemash_core.Rel.Sender.{frame_bytes}
use keemash_core.Rel.Submit.{Message, frame_of}
use keemash_core.Rel.Frames.{IsSendable, frame_of-IsFrame}
use keemash_core.Broker.{Broker}
use keemash_core.Broker.Submit.{submit}

-- `keemash_mesh_packet_priority` after its first test, over the overlaid header, the bytes behind it
-- and the length of the packet.
unfoldable pub header_priority : Hdr → List ℕ → ℕ → ℕ
header_priority h rest len =
    if not (h.magic == pkt_magic) || not (h.version == pkt_version_v2)
    then priority_normal
    else if not (h.type == type_data)
        || ltb h.payload_len reliable_hdr_size
        || ltb len (hdr_size + reliable_hdr_size)
    then priority_control
    else (rel_hdr_of rest).priority

-- `keemash_mesh_packet_priority`; a NULL packet is `none`.
unfoldable pub packet_priority : Option (List ℕ) → ℕ
unfolding header_priority
packet_priority none = priority_normal
packet_priority (some packet) =
    if ltb (length packet) hdr_size
    then priority_normal
    else header_priority (hdr_of packet) (drop hdr_size packet) (length packet)

-- `keemash_mesh_tx_broker_submit_auto`
unfoldable pub submit_auto : Broker → Bool → Option ℕ → Option (List ℕ) → Broker × Esp
unfolding packet_priority
submit_auto b locked dst packet = submit b locked dst packet (packet_priority packet)

-- The bytes of a header whose fields fit their widths are read as that header.
packet_priority-hdr_bytes :
    (h : Hdr) (rest : List ℕ)
    → IsHdr h
    → packet_priority (some (hdr_bytes h ++ rest)) ≡ header_priority h rest (26 + length rest)
unfolding packet_priority
packet_priority-hdr_bytes h rest v =
    let packet = hdr_bytes h ++ rest in
    if_false priority_normal
      (header_priority (hdr_of packet) (drop hdr_size packet) (length packet)) (long_enough h rest)
    ∙ (λ i.
        header_priority (hdr_of-hdr_bytes h rest v i) (drop-hdr_bytes h rest i)
          (length-hdr_bytes h rest i))
  where
    long_enough : (h : Hdr) (rest : List ℕ) → ltb (length (hdr_bytes h ++ rest)) hdr_size ≡ false
    long_enough h rest = ground (arith, length-hdr_bytes h rest)

header_priority-data :
    (h : Hdr) (rest : List ℕ) (len : ℕ)
    → h.magic ≡ pkt_magic
    → h.version ≡ pkt_version_v2
    → h.type ≡ type_data
    → 40 ≤ h.payload_len
    → 66 ≤ len
    → header_priority h rest len ≡ (rel_hdr_of rest).priority
unfolding header_priority
header_priority-data h rest len m w t l s = ground arith

-- The broker queues a DATA frame under the priority of its message: `keemash_mesh_packet_priority`
-- of the bytes that `keemash_rel_submit` makes of a fragment is the priority that `submit` was
-- called with. The channel, the priority, the numbers and the addresses fit their widths, and the
-- fragment is one of at most 16.
pub packet_priority-frame_of :
    (sender : Ctx) (m : Message) (i seq : ℕ)
    → IsSendable sender m i seq
    → packet_priority (some (frame_bytes (frame_of sender m i seq))) ≡ m.priority
unfolding frame_of
packet_priority-frame_of sender m i seq v =
    let f = frame_of sender m i seq in
    let w = frame_of-IsFrame sender m i seq v in
    let payload = rel_hdr_bytes f.rh ++ f.chunk in
    packet_priority-hdr_bytes f.h payload w.header
    ∙ header_priority-data f.h payload (26 + length payload) refl refl refl
        (omega (arith, w.length_eq)) (omega (arith, length-rel_hdr_bytes f.rh f.chunk))
    ∙ ap (λ (r : RelHdr). r.priority) (rel_hdr_of-rel_hdr_bytes f.rh f.chunk w.rel_header)

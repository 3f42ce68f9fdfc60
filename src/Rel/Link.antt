-- ===== src/Rel/Link.antt =====
-- keemash_mesh_core.c: what one side's `send_packet` and `keemash_rel_submit` put on the air, the
-- other side's `keemash_rel_handle_rx` hands to the handler of that packet as it was meant.
use keemash_core.Base.{
  ℕ, ◌^◌, ◌≤◌, ◌<◌, Bool, true, false, some, List, if◌then◌else◌, if_true, length, ==-refl, ◌≡◌,
  refl, ap, ◌∙◌, arith,
}
use keemash_core.Proto.{
  Esp, pkt_magic, pkt_version_v2, payload_max, type_ack, type_nack, type_lost, type_hello_ack,
}
use keemash_core.Wire.{Hdr}
use keemash_core.Wire.RoundTrip.{IsHdr, sealed, packet_valid-sealed}
use keemash_core.Wire.Frames.{HelloAck, hello_ack_bytes, Ack, ack_bytes, Lost, lost_bytes}
use keemash_core.Wire.Payloads.{
  IsHelloAck, hello_ack_of-hello_ack_bytes, length-hello_ack_bytes, IsAck, ack_of-ack_bytes,
  length-ack_bytes, IsLost, lost_of-lost_bytes, length-lost_bytes,
}
use keemash_core.Rel.{Ctx}
use keemash_core.Rel.Radio.{outgoing, sealed_bytes}
use keemash_core.Rel.Handshake.{handle_hello_ack}
use keemash_core.Rel.Dispatch.{
  handle_ack_packet, handle_lost_packet, dispatch, from_sender, handle_rx,
}

-- The addresses and sessions of a side fit their fields.
pub record IsSide (c : Ctx) : Type 0 where
  pub local_mac : c.cfg.local_mac < 2 ^ 48
  pub local_session : c.local_session < 2 ^ 32

-- A packet that comes from the sender that its header names is dispatched.
from_sender-same :
    (c : Ctx) (h : Hdr) (payload : List ℕ)
    → from_sender c h.src_mac (some (h, payload)) ≡ dispatch c h.src_mac h payload
unfolding from_sender
from_sender-same c h payload =
    if_true (dispatch c h.src_mac h payload) (c, Esp.invalid_arg) (==-refl h.src_mac)

pub handle_rx-sealed :
    (c : Ctx) (h : Hdr) (payload : List ℕ)
    → IsHdr h
    → h.magic ≡ pkt_magic
    → h.version ≡ pkt_version_v2
    → h.payload_len ≡ length payload
    → length payload ≤ payload_max
    → handle_rx c h.src_mac (sealed_bytes h payload)
      ≡ dispatch c h.src_mac (sealed h payload) payload
unfolding handle_rx
handle_rx-sealed c h payload v m w l s =
    ap (from_sender c h.src_mac) (packet_valid-sealed h payload v m w l s)
    ∙ from_sender-same c (sealed h payload) payload

pub outgoing-IsHdr :
    (c : Ctx) (type : ℕ) (payload : List ℕ)
    → IsSide c
    → type < 2 ^ 8
    → IsHdr (outgoing c type c.local_session payload)
outgoing-IsHdr c type payload s t = record {
  magic = omega arith;
  version = omega arith;
  type = t;
  flags = omega arith;
  session_id = s.local_session;
  seq = omega arith;
  ack_seq = omega arith;
  payload_len = omega arith;
  src_mac = s.local_mac;
  crc16 = omega arith;
}

-- The packet that `send_packet` makes of a payload, as it arrives.
handle_rx-outgoing :
    (sender c : Ctx) (type : ℕ) (payload : List ℕ)
    → IsSide sender
    → type < 2 ^ 8
    → length payload ≤ payload_max
    → handle_rx c sender.cfg.local_mac
        (sealed_bytes (outgoing sender type sender.local_session payload) payload)
      ≡ dispatch c sender.cfg.local_mac
          (sealed (outgoing sender type sender.local_session payload) payload)
          payload
handle_rx-outgoing sender c type payload s t l =
    handle_rx-sealed c (outgoing sender type sender.local_session payload) payload
      (outgoing-IsHdr sender type payload s t) refl refl (omega arith) l

-- An acknowledgement whose fields fit their widths arrives as it was sent: the receiver's
-- `keemash_rel_handle_rx` of the packet is `handle_ack_packet` of the sender's structure, for an ACK
-- and for a NACK. The sender's address and session fit their widths.
pub handle_rx-ack :
    (sender c : Ctx) (a : Ack) (nack : Bool)
    → IsSide sender
    → IsAck a
    → let type = if nack then type_nack else type_ack in
      handle_rx c sender.cfg.local_mac
        (sealed_bytes (outgoing sender type sender.local_session (ack_bytes a)) (ack_bytes a))
      ≡ handle_ack_packet c sender.cfg.local_mac a nack
unfolding dispatch ack_bytes
handle_rx-ack sender c a true s v =
    handle_rx-outgoing sender c type_nack (ack_bytes a) s (omega arith)
      (omega (arith, length-ack_bytes a))
    ∙ ap (λ (b : Ack). handle_ack_packet c sender.cfg.local_mac b true) (ack_of-ack_bytes a v)
handle_rx-ack sender c a false s v =
    handle_rx-outgoing sender c type_ack (ack_bytes a) s (omega arith)
      (omega (arith, length-ack_bytes a))
    ∙ ap (λ (b : Ack). handle_ack_packet c sender.cfg.local_mac b false) (ack_of-ack_bytes a v)

-- The same of a LOST packet and `handle_lost_packet`.
pub handle_rx-lost :
    (sender c : Ctx) (l : Lost)
    → IsSide sender
    → IsLost l
    → handle_rx c sender.cfg.local_mac (
        sealed_bytes (outgoing sender type_lost sender.local_session (lost_bytes l)) (lost_bytes l))
      ≡ handle_lost_packet c sender.cfg.local_mac l
unfolding dispatch lost_bytes
handle_rx-lost sender c l s v =
    handle_rx-outgoing sender c type_lost (lost_bytes l) s (omega arith)
      (omega (arith, length-lost_bytes l))
    ∙ ap (handle_lost_packet c sender.cfg.local_mac) (lost_of-lost_bytes l v)

-- The same of the root's answer to a HELLO and `handle_hello_ack`.
pub handle_rx-hello_ack :
    (sender c : Ctx) (a : HelloAck)
    → IsSide sender
    → IsHelloAck a
    → handle_rx c sender.cfg.local_mac (
        sealed_bytes
          (outgoing sender type_hello_ack sender.local_session (hello_ack_bytes a))
          (hello_ack_bytes a))
      ≡ handle_hello_ack c sender.cfg.local_mac a
unfolding dispatch hello_ack_bytes
handle_rx-hello_ack sender c a s v =
    handle_rx-outgoing sender c type_hello_ack (hello_ack_bytes a) s (omega arith)
      (omega (arith, length-hello_ack_bytes a))
    ∙ ap (handle_hello_ack c sender.cfg.local_mac) (hello_ack_of-hello_ack_bytes a v)

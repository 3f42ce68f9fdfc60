-- ===== src/Rel/Frames.antt =====
-- keemash_mesh_core.c: the DATA frames of `keemash_rel_submit`, as `keemash_rel_handle_rx` reads them.
use keemash_core.Base.{
  ℕ, ◌+◌, ◌*◌, ◌^◌, ◌≤◌, ◌<◌, Bool, true, false, List, ◌++◌, ltb, ◌==◌, if◌then◌else◌, if_false,
  length, length-take, drop, ◌≡◌, refl, ap, ◌∙◌, sym, subst, arith,
}
use keemash_core.Proto.{
  Esp, pkt_magic, pkt_version_v2, type_data, inner_max, max_fragments, flag_fragment, flag_urgent,
  flag_latest, priority_control, channel_time,
}
use keemash_core.Wire.{Hdr, hdr_bytes, RelHdr, rel_hdr_bytes, rel_hdr_of, packet_crc}
use keemash_core.Wire.RoundTrip.{
  packet_crc-lt, IsHdr, sealed, IsRelHdr, rel_hdr_of-rel_hdr_bytes, drop-rel_hdr_bytes,
  length-rel_hdr_bytes,
}
use keemash_core.Rel.{Frame, Ctx, peer_at}
use Prim.Native.Nat.{bit_or}
use keemash_core.Rel.Peers.{peer_send_mac}
use keemash_core.Rel.Sender.{frame_bytes}
use keemash_core.Rel.Submit.{Message, chunk_of, frame_of}
use keemash_core.Rel.Receive.{handle_data}
use keemash_core.Rel.Dispatch.{dispatch, handle_rx}
use keemash_core.Rel.Link.{IsSide, handle_rx-sealed}

-- A frame as `submit` and retransmission make them: it is a DATA packet of this side, its fields fit
-- their widths, both lengths are those of the bytes behind them, and the checksum is right.
pub record IsFrame (c : Ctx) (f : Frame) : Type 0 where
  pub header : IsHdr f.h
  pub rel_header : IsRelHdr f.rh
  pub magic : f.h.magic ≡ pkt_magic
  pub version : f.h.version ≡ pkt_version_v2
  pub type : f.h.type ≡ type_data
  pub source : f.h.src_mac ≡ c.cfg.local_mac
  pub length_eq : f.h.payload_len ≡ 40 + length f.chunk
  pub chunk_le : length f.chunk ≤ inner_max
  pub checksum : f.h.crc16 ≡ packet_crc f.h (rel_hdr_bytes f.rh ++ f.chunk)

long_enough : (n : ℕ) → ltb (40 + n) 40 ≡ false
long_enough n = ground arith

dispatch-data :
    (c : Ctx) (from : ℕ) (h : Hdr) (rh : RelHdr) (chunk : List ℕ)
    → IsRelHdr rh
    → h.type ≡ type_data
    → h.payload_len ≡ 40 + length chunk
    → dispatch c from h (rel_hdr_bytes rh ++ chunk) ≡ handle_data c from rh chunk
unfolding dispatch
dispatch-data c from h rh chunk v t l =
    let payload = rel_hdr_bytes rh ++ chunk in
    let h' : Hdr = record h { type = type_data; payload_len = 40 + length chunk } in
    let same : h ≡ h' = λ i. record h { type = t i; payload_len = l i } in
    let read = handle_data c from (rel_hdr_of payload) (drop 40 payload) in
    ap (λ (g : Hdr). dispatch c from g payload) same
    ∙ if_false (c, Esp.invalid_size) read (long_enough (length chunk))
    ∙ ap (λ (r : RelHdr). handle_data c from r (drop 40 payload))
        (rel_hdr_of-rel_hdr_bytes rh chunk v)
    ∙ ap (handle_data c from rh) (drop-rel_hdr_bytes rh chunk)

-- A DATA frame arrives as it was made: `keemash_rel_handle_rx` of its bytes is `handle_data` of the
-- frame's reliable header and its piece of the message.
handle_rx-frame :
    (sender c : Ctx) (f : Frame)
    → IsFrame sender f
    → handle_rx c sender.cfg.local_mac (frame_bytes f)
      ≡ handle_data c sender.cfg.local_mac f.rh f.chunk
handle_rx-frame sender c f v =
    let payload = rel_hdr_bytes f.rh ++ f.chunk in
    let l : f.h.payload_len ≡ length payload =
      v.length_eq ∙ sym (length-rel_hdr_bytes f.rh f.chunk) in
    let resealed : f.h ≡ sealed f.h payload = λ i. record (f.h) { crc16 = v.checksum i } in
    let arrives : handle_rx c f.h.src_mac (frame_bytes f) ≡ handle_data c f.h.src_mac f.rh f.chunk =
      ap (λ (g : Hdr). handle_rx c f.h.src_mac (hdr_bytes g ++ payload)) resealed
      ∙ handle_rx-sealed c f.h payload v.header v.magic v.version l
          (omega (arith, v.chunk_le, length-rel_hdr_bytes f.rh f.chunk))
      ∙ dispatch-data c f.h.src_mac (sealed f.h payload) f.rh f.chunk v.rel_header v.type
          v.length_eq in
    subst (λ (mac : ℕ). handle_rx c mac (frame_bytes f) ≡ handle_data c mac f.rh f.chunk) v.source
      arrives

-- What a message and the sender's numbers must fit into.
pub record IsSendable (c : Ctx) (m : Message) (i seq : ℕ) : Type 0 where
  pub side : IsSide c
  pub channel : m.channel < 2 ^ 8
  pub priority : m.priority < 2 ^ 8
  pub fragments : m.fragments ≤ max_fragments
  pub index : i < m.fragments
  pub stream_id : m.stream_id < 2 ^ 32
  pub seq_lt : seq < 2 ^ 32
  pub now : c.now < 2 ^ 32
  pub root_session : (peer_at c m.pi).root_session_id < 2 ^ 32
  pub node_session : (peer_at c m.pi).node_session_id < 2 ^ 32
  pub target : peer_send_mac c (peer_at c m.pi) < 2 ^ 48

flags-lt :
    (fragment urgent latest : Bool)
    → bit_or
        (bit_or (if fragment then flag_fragment else 0) (if urgent then flag_urgent else 0))
        (if latest then flag_latest else 0)
      < 2 ^ 8
flags-lt true true true = omega arith
flags-lt true true false = omega arith
flags-lt true false true = omega arith
flags-lt true false false = omega arith
flags-lt false true true = omega arith
flags-lt false true false = omega arith
flags-lt false false true = omega arith
flags-lt false false false = omega arith

chunk_of-le : (payload : List ℕ) (i : ℕ) → length (chunk_of payload i) ≤ inner_max
chunk_of-le payload i = omega (arith, length-take inner_max (drop (i * inner_max) payload))

pub frame_of-IsFrame :
    (c : Ctx) (m : Message) (i seq : ℕ) → IsSendable c m i seq → IsFrame c (frame_of c m i seq)
unfolding frame_of packet_crc
frame_of-IsFrame c m i seq v =
    let l = chunk_of-le m.payload i in
    let f = frame_of c m i seq in
    record {
      header = record {
        magic = omega arith;
        version = omega arith;
        type = omega arith;
        flags = omega arith;
        session_id = v.side.local_session;
        seq = omega arith;
        ack_seq = omega arith;
        payload_len = omega arith;
        src_mac = v.side.local_mac;
        crc16 = packet_crc-lt f.h (rel_hdr_bytes f.rh ++ f.chunk);
      };
      rel_header = record {
        channel_id = v.channel;
        flags =
            flags-lt (ltb 1 m.fragments) (m.priority == priority_control)
              (m.channel == channel_time);
        priority = v.priority;
        fragment_count = omega (arith, v.fragments);
        payload_len = omega arith;
        fragment_index = omega (arith, v.fragments, v.index);
        stream_id = v.stream_id;
        seq = v.seq_lt;
        tx_ms = v.now;
        root_session_id = v.root_session;
        node_session_id = v.node_session;
        origin_mac = v.side.local_mac;
        target_mac = v.target;
      };
      magic = refl;
      version = refl;
      type = refl;
      source = refl;
      length_eq = omega arith;
      chunk_le = l;
      checksum = refl;
    }

-- Fragment `i` of a message arrives as it was sent: the receiver's `keemash_rel_handle_rx` of the
-- bytes that `keemash_rel_submit` queues is `handle_data` of the fragment's reliable header and its
-- piece of the message. The channel, the priority, the numbers and the addresses fit their widths,
-- and `i` is one of at most 16 fragments.
pub handle_rx-frame_of :
    (sender c : Ctx) (m : Message) (i seq : ℕ)
    → IsSendable sender m i seq
    → handle_rx c sender.cfg.local_mac (frame_bytes (frame_of sender m i seq))
      ≡ handle_data c sender.cfg.local_mac (frame_of sender m i seq).rh (chunk_of m.payload i)
unfolding frame_of packet_crc
handle_rx-frame_of sender c m i seq v =
    handle_rx-frame sender c (frame_of sender m i seq) (frame_of-IsFrame sender m i seq v)

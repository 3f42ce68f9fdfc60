-- ===== src/Wire/RoundTrip.antt =====
-- What is written as a packet is read back: structures, checksum and validation.
use keemash_core.Base.{
  ℕ, zero, suc, ◌+◌, ◌^◌, ◌≤◌, ◌<◌, ◌≡◌, refl, false, some, List, [], ◌∷◌, ◌++◌, arith, length,
  take, drop, ltb, ap, if_false, ◌∙◌,
}
use keemash_core.Proto.{pkt_magic, pkt_version_v2, payload_max, hdr_size}
use keemash_core.Wire.{
  Hdr, hdr_bytes, hdr_of, RelHdr, rel_hdr_bytes, rel_hdr_of, crc_shift, crc_byte, crc16_update,
  packet_crc, check_packet, packet_valid, value_le, bytes_le,
}

-- Every field fits its width.
pub record IsHdr (h : Hdr) : Type 0 where
  pub magic : h.magic < 2 ^ 8
  pub version : h.version < 2 ^ 8
  pub type : h.type < 2 ^ 8
  pub flags : h.flags < 2 ^ 8
  pub session_id : h.session_id < 2 ^ 32
  pub seq : h.seq < 2 ^ 32
  pub ack_seq : h.ack_seq < 2 ^ 32
  pub payload_len : h.payload_len < 2 ^ 16
  pub src_mac : h.src_mac < 2 ^ 48
  pub crc16 : h.crc16 < 2 ^ 16

pub value_1 : (x : ℕ) → x < 2 ^ 8 → value_le (bytes_le 1 x) ≡ x
value_1 x h = omega arith

pub value_2 : (x : ℕ) → x < 2 ^ 16 → value_le (bytes_le 2 x) ≡ x
value_2 x h = omega arith

pub value_4 : (x : ℕ) → x < 2 ^ 32 → value_le (bytes_le 4 x) ≡ x
value_4 x h = omega arith

pub value_6 : (x : ℕ) → x < 2 ^ 48 → value_le (bytes_le 6 x) ≡ x
value_6 x h = omega arith

pub hdr_of-hdr_bytes : (h : Hdr) (rest : List ℕ) → IsHdr h → hdr_of (hdr_bytes h ++ rest) ≡ h
unfolding hdr_of hdr_bytes
hdr_of-hdr_bytes h rest v = λ i. record {
  magic = value_1 h.magic v.magic i;
  version = value_1 h.version v.version i;
  type = value_1 h.type v.type i;
  flags = value_1 h.flags v.flags i;
  session_id = value_4 h.session_id v.session_id i;
  seq = value_4 h.seq v.seq i;
  ack_seq = value_4 h.ack_seq v.ack_seq i;
  payload_len = value_2 h.payload_len v.payload_len i;
  src_mac = value_6 h.src_mac v.src_mac i;
  crc16 = value_2 h.crc16 v.crc16 i;
}

-- Every field of a reliable header fits its width.
pub record IsRelHdr (r : RelHdr) : Type 0 where
  pub channel_id : r.channel_id < 2 ^ 8
  pub flags : r.flags < 2 ^ 8
  pub priority : r.priority < 2 ^ 8
  pub fragment_count : r.fragment_count < 2 ^ 8
  pub payload_len : r.payload_len < 2 ^ 16
  pub fragment_index : r.fragment_index < 2 ^ 16
  pub stream_id : r.stream_id < 2 ^ 32
  pub seq : r.seq < 2 ^ 32
  pub tx_ms : r.tx_ms < 2 ^ 32
  pub root_session_id : r.root_session_id < 2 ^ 32
  pub node_session_id : r.node_session_id < 2 ^ 32
  pub origin_mac : r.origin_mac < 2 ^ 48
  pub target_mac : r.target_mac < 2 ^ 48

pub rel_hdr_of-rel_hdr_bytes :
    (r : RelHdr) (rest : List ℕ) → IsRelHdr r → rel_hdr_of (rel_hdr_bytes r ++ rest) ≡ r
unfolding rel_hdr_of rel_hdr_bytes
rel_hdr_of-rel_hdr_bytes r rest v = λ i. record {
  channel_id = value_1 r.channel_id v.channel_id i;
  flags = value_1 r.flags v.flags i;
  priority = value_1 r.priority v.priority i;
  fragment_count = value_1 r.fragment_count v.fragment_count i;
  payload_len = value_2 r.payload_len v.payload_len i;
  fragment_index = value_2 r.fragment_index v.fragment_index i;
  stream_id = value_4 r.stream_id v.stream_id i;
  seq = value_4 r.seq v.seq i;
  tx_ms = value_4 r.tx_ms v.tx_ms i;
  root_session_id = value_4 r.root_session_id v.root_session_id i;
  node_session_id = value_4 r.node_session_id v.node_session_id i;
  origin_mac = value_6 r.origin_mac v.origin_mac i;
  target_mac = value_6 r.target_mac v.target_mac i;
}

crc_shift-lt : (crc : ℕ) → crc_shift crc < 2 ^ 16
crc_shift-lt crc = ground arith

crc16_update-lt : (crc : ℕ) (bs : List ℕ) → crc < 2 ^ 16 → crc16_update crc bs < 2 ^ 16
unfolding crc16_update
crc16_update-lt crc [] h = h
crc16_update-lt crc (b ∷ bs) h = crc16_update-lt (crc_byte crc b) bs (crc_shift-lt _)

take_all : (n : ℕ) (bs : List ℕ) → length bs ≡ n → take n bs ≡ bs
take_all zero [] h = refl
take_all zero (b ∷ bs) h = absurd (omega arith)
take_all (suc n) [] h = refl
take_all (suc n) (b ∷ bs) h = ap (◌∷◌ b) (take_all n bs (omega arith))

-- The packet that a sender makes of a header and a payload: the checksum is put in last.
abbrev pub sealed : Hdr → List ℕ → Hdr
sealed h payload = record h { crc16 = packet_crc h payload }

pub packet_crc-lt : (h : Hdr) (payload : List ℕ) → packet_crc h payload < 2 ^ 16
unfolding packet_crc
packet_crc-lt h payload = crc16_update-lt _ _ (crc16_update-lt 0xFFFF _ (omega arith))

-- `packet_crc` does not read the checksum field.
packet_crc-sealed :
    (h : Hdr) (payload : List ℕ) → packet_crc (sealed h payload) payload ≡ packet_crc h payload
unfolding packet_crc
packet_crc-sealed h payload = refl

pub sealed-IsHdr : (h : Hdr) (payload : List ℕ) → IsHdr h → IsHdr (sealed h payload)
sealed-IsHdr h payload v = record {
  magic = v.magic;
  version = v.version;
  type = v.type;
  flags = v.flags;
  session_id = v.session_id;
  seq = v.seq;
  ack_seq = v.ack_seq;
  payload_len = v.payload_len;
  src_mac = v.src_mac;
  crc16 = packet_crc-lt h payload;
}

pub length-hdr_bytes : (h : Hdr) (rest : List ℕ) → length (hdr_bytes h ++ rest) ≡ 26 + length rest
unfolding hdr_bytes
length-hdr_bytes h rest = omega arith

pub drop-hdr_bytes : (h : Hdr) (rest : List ℕ) → drop 26 (hdr_bytes h ++ rest) ≡ rest
unfolding hdr_bytes
drop-hdr_bytes h rest = refl

pub length-rel_hdr_bytes :
    (r : RelHdr) (rest : List ℕ) → length (rel_hdr_bytes r ++ rest) ≡ 40 + length rest
unfolding rel_hdr_bytes
length-rel_hdr_bytes r rest = omega arith

pub drop-rel_hdr_bytes : (r : RelHdr) (rest : List ℕ) → drop 40 (rel_hdr_bytes r ++ rest) ≡ rest
unfolding rel_hdr_bytes
drop-rel_hdr_bytes r rest = refl

check_packet-sealed :
    (h : Hdr) (payload : List ℕ)
    → h.magic ≡ pkt_magic
    → h.version ≡ pkt_version_v2
    → h.payload_len ≡ length payload
    → length payload ≤ payload_max
    → check_packet (sealed h payload) payload (26 + length payload)
      ≡ some (sealed h payload, payload)
unfolding check_packet
check_packet-sealed h payload m w l s = ground (arith, packet_crc-sealed h payload)

long_enough : (h : Hdr) (rest : List ℕ) → ltb (length (hdr_bytes h ++ rest)) hdr_size ≡ false
long_enough h rest = ground (arith, length-hdr_bytes h rest)

ap₃ :
    {A B C D : Type 0} (f : A → B → C → D) {a a' : A} {b b' : B} {c c' : C}
    → a ≡ a'
    → b ≡ b'
    → c ≡ c'
    → f a b c ≡ f a' b' c'
ap₃ f p q r = λ i. f (p i) (q i) (r i)

-- A receiver accepts a packet made of a V2 header whose fields fit their widths and whose length
-- field is the payload's length, of at most 192 bytes; it reads back the header, with the checksum
-- that the sender put in, and the payload.
pub packet_valid-sealed :
    (h : Hdr) (payload : List ℕ)
    → IsHdr h
    → h.magic ≡ pkt_magic
    → h.version ≡ pkt_version_v2
    → h.payload_len ≡ length payload
    → length payload ≤ payload_max
    → packet_valid (hdr_bytes (sealed h payload) ++ payload) ≡ some (sealed h payload, payload)
unfolding packet_valid
packet_valid-sealed h payload v m w l s =
    let h' : Hdr = sealed h payload in
    if_false _ _ (long_enough h' payload)
    ∙ (ap₃ check_packet (hdr_of-hdr_bytes h' payload (sealed-IsHdr h payload v))
          (drop-hdr_bytes h' payload) (length-hdr_bytes h' payload)
        ∙ check_packet-sealed h payload m w l s)

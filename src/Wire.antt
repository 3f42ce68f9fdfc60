-- ===== src/Wire.antt =====
-- The packed structures of include/keemash_mesh_proto.h that the reliable layer puts on the air, and
-- `crc16_update`, `packet_crc` and `packet_valid` of keemash_mesh_core.c.
-- A packed little-endian structure is the list of its bytes. A MAC address is one number, byte 0
-- its lowest digit: the code only copies and compares addresses.
pub mod RoundTrip
pub mod Frames
pub mod Payloads
use Prim.Native.Nat.{bit_and, bit_xor}
use keemash_core.Base.{
  ℕ, zero, suc, ◌+◌, ◌*◌, ◌/◌, ◌%◌, ◌^◌, Bool, true, false, not, ◌&&◌, ◌||◌, Option, none, some,
  List, [], ◌∷◌, ◌++◌, ltb, ◌==◌, if◌then◌else◌, u16, length, take, drop,
}
use keemash_core.Proto.{pkt_magic, pkt_version_v2, payload_max, hdr_size, reliable_hdr_size}

-- The bytes of an unsigned integer of `n` bytes, and the integer of some bytes.
abbrev pub bytes_le : ℕ → ℕ → List ℕ
bytes_le zero x = []
bytes_le (suc n) x = (x % 256) ∷ bytes_le n (x / 256)

abbrev pub value_le : List ℕ → ℕ
value_le [] = 0
value_le (b ∷ bs) = b + 256 * value_le bs

-- The field of `n` bytes at an offset.
abbrev pub field : ℕ → ℕ → List ℕ → ℕ
field offset n bytes = value_le (take n (drop offset bytes))

-- `mesh_v2_hdr_t`
pub record Hdr : Type 0 where
  pub magic : ℕ
  pub version : ℕ
  pub type : ℕ
  pub flags : ℕ
  pub session_id : ℕ
  pub seq : ℕ
  pub ack_seq : ℕ
  pub payload_len : ℕ
  pub src_mac : ℕ
  pub crc16 : ℕ

unfoldable pub hdr_bytes : Hdr → List ℕ
hdr_bytes h =
    bytes_le 1 h.magic
    ++ (bytes_le 1 h.version
        ++ (bytes_le 1 h.type
            ++ (bytes_le 1 h.flags
                ++ (bytes_le 4 h.session_id
                    ++ (bytes_le 4 h.seq
                        ++ (bytes_le 4 h.ack_seq
                            ++ (bytes_le 2 h.payload_len
                                ++ (bytes_le 6 h.src_mac ++ bytes_le 2 h.crc16))))))))

unfoldable pub hdr_of : List ℕ → Hdr
hdr_of b = record {
  magic = field 0 1 b;
  version = field 1 1 b;
  type = field 2 1 b;
  flags = field 3 1 b;
  session_id = field 4 4 b;
  seq = field 8 4 b;
  ack_seq = field 12 4 b;
  payload_len = field 16 2 b;
  src_mac = field 18 6 b;
  crc16 = field 24 2 b;
}

-- `mesh_v2_reliable_hdr_t`
pub record RelHdr : Type 0 where
  pub channel_id : ℕ
  pub flags : ℕ
  pub priority : ℕ
  pub fragment_count : ℕ
  pub payload_len : ℕ
  pub fragment_index : ℕ
  pub stream_id : ℕ
  pub seq : ℕ
  pub tx_ms : ℕ
  pub root_session_id : ℕ
  pub node_session_id : ℕ
  pub origin_mac : ℕ
  pub target_mac : ℕ

unfoldable pub rel_hdr_bytes : RelHdr → List ℕ
rel_hdr_bytes r =
    bytes_le 1 r.channel_id
    ++ (bytes_le 1 r.flags
        ++ (bytes_le 1 r.priority
            ++ (bytes_le 1 r.fragment_count
                ++ (bytes_le 2 r.payload_len
                    ++ (bytes_le 2 r.fragment_index
                        ++ (bytes_le 4 r.stream_id
                            ++ (bytes_le 4 r.seq
                                ++ (bytes_le 4 r.tx_ms
                                    ++ (bytes_le 4 r.root_session_id
                                        ++ (bytes_le 4 r.node_session_id
                                            ++ (bytes_le 6 r.origin_mac
                                                ++ bytes_le 6 r.target_mac)))))))))))

unfoldable pub rel_hdr_of : List ℕ → RelHdr
rel_hdr_of b = record {
  channel_id = field 0 1 b;
  flags = field 1 1 b;
  priority = field 2 1 b;
  fragment_count = field 3 1 b;
  payload_len = field 4 2 b;
  fragment_index = field 6 2 b;
  stream_id = field 8 4 b;
  seq = field 12 4 b;
  tx_ms = field 16 4 b;
  root_session_id = field 20 4 b;
  node_session_id = field 24 4 b;
  origin_mac = field 28 6 b;
  target_mac = field 34 6 b;
}

-- One turn of the inner loop of `crc16_update`, and eight of them.
abbrev pub crc_shift : ℕ → ℕ
crc_shift crc = if bit_and crc 0x8000 == 0 then u16 (crc * 2) else u16 (bit_xor (crc * 2) 0x1021)

abbrev pub crc_byte : ℕ → ℕ → ℕ
crc_byte crc b = crc_shift (
    crc_shift (
      crc_shift
        (crc_shift (crc_shift (crc_shift (crc_shift (crc_shift (u16 (bit_xor crc (b * 256))))))))))

unfoldable pub crc16_update : ℕ → List ℕ → ℕ
crc16_update crc [] = crc
crc16_update crc (b ∷ bs) = crc16_update (crc_byte crc b) bs

-- `packet_crc`: the header with its checksum field zeroed, then the payload.
unfoldable pub packet_crc : Hdr → List ℕ → ℕ
packet_crc h payload =
    crc16_update (crc16_update 0xFFFF (hdr_bytes (record h { crc16 = 0 })))
      (take h.payload_len payload)

-- The tests of `packet_valid` after the first, over the overlaid header, the bytes behind it and
-- the length of the packet.
unfoldable pub check_packet : Hdr → List ℕ → ℕ → Option (Hdr × List ℕ)
check_packet h payload len =
    if not (h.magic == pkt_magic)
      || not (h.version == pkt_version_v2)
      || ltb payload_max h.payload_len
      || not (len == hdr_size + h.payload_len)
    then none
    else if packet_crc h payload == h.crc16
    then some (h, payload)
    else none

-- `packet_valid`: the header and the payload of a packet that passes, `none` for one that does not.
unfoldable pub packet_valid : List ℕ → Option (Hdr × List ℕ)
packet_valid packet =
    if ltb (length packet) hdr_size
    then none
    else check_packet (hdr_of packet) (drop hdr_size packet) (length packet)

-- ===== src/Wire/Frames.antt =====
-- The payloads of the HELLO, HELLO_ACK, ACK, NACK and LOST packets, from
-- include/keemash_mesh_proto.h, and that each is read back as it was written.
use keemash_core.Base.{ℕ, List, ◌++◌, take, replicate}
use keemash_core.Wire.{bytes_le, field}

-- `mesh_v2_reliable_hello_payload_t`; the tag's 16 characters are a list of bytes.
pub record Hello : Type 0 where
  pub tag : List ℕ
  pub uptime_s : ℕ
  pub profile_version : ℕ
  pub mtu : ℕ
  pub tx_slots : ℕ
  pub reorder_window : ℕ
  pub capabilities : ℕ
  pub node_session_id : ℕ
  pub root_session_seen : ℕ

-- `strncpy` of at most 15 characters into a zeroed field of 16.
abbrev pub tag_field : List ℕ → List ℕ
tag_field tag = take 16 (take 15 tag ++ replicate 16 0)

unfoldable pub hello_bytes : Hello → List ℕ
hello_bytes h =
    h.tag
    ++ (bytes_le 4 h.uptime_s
        ++ (bytes_le 2 h.profile_version
            ++ (bytes_le 2 h.mtu
                ++ (bytes_le 2 h.tx_slots
                    ++ (bytes_le 2 h.reorder_window
                        ++ (bytes_le 4 h.capabilities
                            ++ (bytes_le 4 h.node_session_id
                                ++ bytes_le 4 h.root_session_seen)))))))

unfoldable pub hello_of : List ℕ → Hello
hello_of b = record {
  tag = take 16 b;
  uptime_s = field 16 4 b;
  profile_version = field 20 2 b;
  mtu = field 22 2 b;
  tx_slots = field 24 2 b;
  reorder_window = field 26 2 b;
  capabilities = field 28 4 b;
  node_session_id = field 32 4 b;
  root_session_seen = field 36 4 b;
}

-- `mesh_v2_reliable_hello_ack_payload_t`; `rsv` is always zero.
pub record HelloAck : Type 0 where
  pub profile_version : ℕ
  pub mtu : ℕ
  pub capabilities : ℕ
  pub root_session_id : ℕ
  pub node_session_id : ℕ
  pub reset_link : ℕ

unfoldable pub hello_ack_bytes : HelloAck → List ℕ
hello_ack_bytes a =
    bytes_le 2 a.profile_version
    ++ (bytes_le 2 a.mtu
        ++ (bytes_le 4 a.capabilities
            ++ (bytes_le 4 a.root_session_id
                ++ (bytes_le 4 a.node_session_id ++ (bytes_le 1 a.reset_link ++ bytes_le 3 0)))))

unfoldable pub hello_ack_of : List ℕ → HelloAck
hello_ack_of b = record {
  profile_version = field 0 2 b;
  mtu = field 2 2 b;
  capabilities = field 4 4 b;
  root_session_id = field 8 4 b;
  node_session_id = field 12 4 b;
  reset_link = field 16 1 b;
}

-- `mesh_v2_reliable_ack_payload_t`; its `flags`, `reason` and `rsv` are zero in every packet sent.
pub record Ack : Type 0 where
  pub channel_id : ℕ
  pub root_session_id : ℕ
  pub node_session_id : ℕ
  pub ack_seq : ℕ
  pub sack_bitmap : ℕ
  pub nack_seq : ℕ
  pub echo_tx_ms : ℕ
  pub origin_mac : ℕ
  pub target_mac : ℕ

unfoldable pub ack_bytes : Ack → List ℕ
ack_bytes a =
    bytes_le 1 a.channel_id
    ++ (bytes_le 3 0
        ++ (bytes_le 4 a.root_session_id
            ++ (bytes_le 4 a.node_session_id
                ++ (bytes_le 4 a.ack_seq
                    ++ (bytes_le 4 a.sack_bitmap
                        ++ (bytes_le 4 a.nack_seq
                            ++ (bytes_le 4 a.echo_tx_ms
                                ++ (bytes_le 6 a.origin_mac ++ bytes_le 6 a.target_mac))))))))

unfoldable pub ack_of : List ℕ → Ack
ack_of b = record {
  channel_id = field 0 1 b;
  root_session_id = field 4 4 b;
  node_session_id = field 8 4 b;
  ack_seq = field 12 4 b;
  sack_bitmap = field 16 4 b;
  nack_seq = field 20 4 b;
  echo_tx_ms = field 24 4 b;
  origin_mac = field 28 6 b;
  target_mac = field 34 6 b;
}

-- `mesh_v2_reliable_lost_payload_t`; `flags` is its field `rsv`.
pub record Lost : Type 0 where
  pub channel_id : ℕ
  pub reason : ℕ
  pub flags : ℕ
  pub root_session_id : ℕ
  pub node_session_id : ℕ
  pub seq_first : ℕ
  pub seq_last : ℕ
  pub origin_mac : ℕ
  pub target_mac : ℕ

unfoldable pub lost_bytes : Lost → List ℕ
lost_bytes l =
    bytes_le 1 l.channel_id
    ++ (bytes_le 1 l.reason
        ++ (bytes_le 2 l.flags
            ++ (bytes_le 4 l.root_session_id
                ++ (bytes_le 4 l.node_session_id
                    ++ (bytes_le 4 l.seq_first
                        ++ (bytes_le 4 l.seq_last
                            ++ (bytes_le 6 l.origin_mac ++ bytes_le 6 l.target_mac)))))))

unfoldable pub lost_of : List ℕ → Lost
lost_of b = record {
  channel_id = field 0 1 b;
  reason = field 1 1 b;
  flags = field 2 2 b;
  root_session_id = field 4 4 b;
  node_session_id = field 8 4 b;
  seq_first = field 12 4 b;
  seq_last = field 16 4 b;
  origin_mac = field 20 6 b;
  target_mac = field 26 6 b;
}

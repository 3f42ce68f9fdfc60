-- ===== src/Wire/Payloads.antt =====
-- The payloads of HELLO_ACK, ACK, NACK and LOST packets are read back as they were written.
use keemash_core.Base.{◌^◌, ◌<◌, ◌≡◌, refl, length}
use keemash_core.Wire.Frames.{
  HelloAck, hello_ack_bytes, hello_ack_of, Ack, ack_bytes, ack_of, Lost, lost_bytes, lost_of,
}
use keemash_core.Wire.RoundTrip.{value_1, value_2, value_4, value_6}

-- Every field of a HELLO_ACK fits its width.
pub record IsHelloAck (a : HelloAck) : Type 0 where
  pub profile_version : a.profile_version < 2 ^ 16
  pub mtu : a.mtu < 2 ^ 16
  pub capabilities : a.capabilities < 2 ^ 32
  pub root_session_id : a.root_session_id < 2 ^ 32
  pub node_session_id : a.node_session_id < 2 ^ 32
  pub reset_link : a.reset_link < 2 ^ 8

pub hello_ack_of-hello_ack_bytes :
    (a : HelloAck) → IsHelloAck a → hello_ack_of (hello_ack_bytes a) ≡ a
unfolding hello_ack_of hello_ack_bytes
hello_ack_of-hello_ack_bytes a h = λ i. record {
  profile_version = value_2 a.profile_version h.profile_version i;
  mtu = value_2 a.mtu h.mtu i;
  capabilities = value_4 a.capabilities h.capabilities i;
  root_session_id = value_4 a.root_session_id h.root_session_id i;
  node_session_id = value_4 a.node_session_id h.node_session_id i;
  reset_link = value_1 a.reset_link h.reset_link i;
}

pub length-hello_ack_bytes : (a : HelloAck) → length (hello_ack_bytes a) ≡ 20
unfolding hello_ack_bytes
length-hello_ack_bytes a = refl

-- Every field of an ACK fits its width.
pub record IsAck (a : Ack) : Type 0 where
  pub channel_id : a.channel_id < 2 ^ 8
  pub root_session_id : a.root_session_id < 2 ^ 32
  pub node_session_id : a.node_session_id < 2 ^ 32
  pub ack_seq : a.ack_seq < 2 ^ 32
  pub sack_bitmap : a.sack_bitmap < 2 ^ 32
  pub nack_seq : a.nack_seq < 2 ^ 32
  pub echo_tx_ms : a.echo_tx_ms < 2 ^ 32
  pub origin_mac : a.origin_mac < 2 ^ 48
  pub target_mac : a.target_mac < 2 ^ 48

pub ack_of-ack_bytes : (a : Ack) → IsAck a → ack_of (ack_bytes a) ≡ a
unfolding ack_of ack_bytes
ack_of-ack_bytes a h = λ i. record {
  channel_id = value_1 a.channel_id h.channel_id i;
  root_session_id = value_4 a.root_session_id h.root_session_id i;
  node_session_id = value_4 a.node_session_id h.node_session_id i;
  ack_seq = value_4 a.ack_seq h.ack_seq i;
  sack_bitmap = value_4 a.sack_bitmap h.sack_bitmap i;
  nack_seq = value_4 a.nack_seq h.nack_seq i;
  echo_tx_ms = value_4 a.echo_tx_ms h.echo_tx_ms i;
  origin_mac = value_6 a.origin_mac h.origin_mac i;
  target_mac = value_6 a.target_mac h.target_mac i;
}

pub length-ack_bytes : (a : Ack) → length (ack_bytes a) ≡ 40
unfolding ack_bytes
length-ack_bytes a = refl

-- Every field of a LOST packet fits its width.
pub record IsLost (l : Lost) : Type 0 where
  pub channel_id : l.channel_id < 2 ^ 8
  pub reason : l.reason < 2 ^ 8
  pub flags : l.flags < 2 ^ 16
  pub root_session_id : l.root_session_id < 2 ^ 32
  pub node_session_id : l.node_session_id < 2 ^ 32
  pub seq_first : l.seq_first < 2 ^ 32
  pub seq_last : l.seq_last < 2 ^ 32
  pub origin_mac : l.origin_mac < 2 ^ 48
  pub target_mac : l.target_mac < 2 ^ 48

pub lost_of-lost_bytes : (l : Lost) → IsLost l → lost_of (lost_bytes l) ≡ l
unfolding lost_of lost_bytes
lost_of-lost_bytes l h = λ i. record {
  channel_id = value_1 l.channel_id h.channel_id i;
  reason = value_1 l.reason h.reason i;
  flags = value_2 l.flags h.flags i;
  root_session_id = value_4 l.root_session_id h.root_session_id i;
  node_session_id = value_4 l.node_session_id h.node_session_id i;
  seq_first = value_4 l.seq_first h.seq_first i;
  seq_last = value_4 l.seq_last h.seq_last i;
  origin_mac = value_6 l.origin_mac h.origin_mac i;
  target_mac = value_6 l.target_mac h.target_mac i;
}

pub length-lost_bytes : (l : Lost) → length (lost_bytes l) ≡ 32
unfolding lost_bytes
length-lost_bytes l = refl

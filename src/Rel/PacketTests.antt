-- ===== src/Rel/PacketTests.antt =====
-- Packets of keemash_mesh_core.c on small inputs.
use keemash_core.Base.{◌≡◌, refl, true, some, ◌++◌, arith}
use keemash_core.Proto.{type_nack, type_lost, pkt_magic, pkt_version_v2}
use keemash_core.Wire.{Hdr, hdr_bytes, packet_valid}
use keemash_core.Wire.RoundTrip.{IsHdr, sealed, packet_valid-sealed}
use keemash_core.Wire.Frames.{Ack, ack_bytes, Lost, lost_bytes}
use keemash_core.Wire.Payloads.{IsAck, IsLost}
use keemash_core.Rel.{zero_hdr}
use keemash_core.Rel.Radio.{outgoing, sealed_bytes}
use keemash_core.Rel.Sender.{frame_bytes}
use keemash_core.Rel.Submit.{Message, chunk_of, frame_of}
use keemash_core.Rel.Receive.{handle_data}
use keemash_core.Rel.Dispatch.{handle_rx, handle_ack_packet, handle_lost_packet}
use keemash_core.Rel.Accept.{message_of}
use keemash_core.Rel.Link.{IsSide, handle_rx-ack, handle_rx-lost}
use keemash_core.Rel.Frames.{IsSendable, handle_rx-frame_of}
use keemash_core.Broker.Auto.{packet_priority, packet_priority-frame_of}
use keemash_core.Rel.Samples.{root_side, node_side, bytes_of}

abbrev one_frame : Message
one_frame = message_of root_side 0 3 bytes_of 1

root_side-IsSide : IsSide root_side
root_side-IsSide = record { local_mac = omega arith; local_session = omega arith }

abbrev plain_ack : Ack
plain_ack = record {
  channel_id = 3;
  root_session_id = 5;
  node_session_id = 9;
  ack_seq = 0;
  sack_bitmap = 2;
  nack_seq = 1;
  echo_tx_ms = 900;
  origin_mac = 1;
  target_mac = 2;
}

plain_ack-IsAck : IsAck plain_ack
plain_ack-IsAck = record {
  channel_id = omega arith;
  root_session_id = omega arith;
  node_session_id = omega arith;
  ack_seq = omega arith;
  sack_bitmap = omega arith;
  nack_seq = omega arith;
  echo_tx_ms = omega arith;
  origin_mac = omega arith;
  target_mac = omega arith;
}

node_side-IsSide : IsSide node_side
node_side-IsSide = record { local_mac = omega arith; local_session = omega arith }

handle_rx-ack_example :
    handle_rx root_side 2
      (sealed_bytes (outgoing node_side type_nack 9 (ack_bytes plain_ack)) (ack_bytes plain_ack))
    ≡ handle_ack_packet root_side 2 plain_ack true
handle_rx-ack_example =
    handle_rx-ack node_side root_side plain_ack true node_side-IsSide plain_ack-IsAck

abbrev some_lost : Lost
some_lost = record {
  channel_id = 3;
  reason = 1;
  flags = 1;
  root_session_id = 5;
  node_session_id = 9;
  seq_first = 1;
  seq_last = 3;
  origin_mac = 2;
  target_mac = 1;
}

some_lost-IsLost : IsLost some_lost
some_lost-IsLost = record {
  channel_id = omega arith;
  reason = omega arith;
  flags = omega arith;
  root_session_id = omega arith;
  node_session_id = omega arith;
  seq_first = omega arith;
  seq_last = omega arith;
  origin_mac = omega arith;
  target_mac = omega arith;
}

handle_rx-lost_example :
    handle_rx root_side 2
      (sealed_bytes (outgoing node_side type_lost 9 (lost_bytes some_lost)) (lost_bytes some_lost))
    ≡ handle_lost_packet root_side 2 some_lost
handle_rx-lost_example =
    handle_rx-lost node_side root_side some_lost node_side-IsSide some_lost-IsLost

one_frame-IsSendable : IsSendable root_side one_frame 0 1
one_frame-IsSendable = record {
  side = root_side-IsSide;
  channel = omega arith;
  priority = omega arith;
  fragments = omega arith;
  index = omega arith;
  stream_id = omega arith;
  seq_lt = omega arith;
  now = omega arith;
  root_session = omega arith;
  node_session = omega arith;
  target = omega arith;
}

handle_rx-frame_of_example :
    handle_rx node_side 1 (frame_bytes (frame_of root_side one_frame 0 1))
    ≡ handle_data node_side 1 (frame_of root_side one_frame 0 1).rh (chunk_of bytes_of 0)
handle_rx-frame_of_example =
    handle_rx-frame_of root_side node_side one_frame 0 1 one_frame-IsSendable

abbrev v2_header : Hdr
v2_header = record zero_hdr {
  magic = pkt_magic;
  version = pkt_version_v2;
  type = 58;
  payload_len = 3;
  src_mac = 7;
}

v2_header-IsHdr : IsHdr v2_header
v2_header-IsHdr = record {
  magic = omega arith;
  version = omega arith;
  type = omega arith;
  flags = omega arith;
  session_id = omega arith;
  seq = omega arith;
  ack_seq = omega arith;
  payload_len = omega arith;
  src_mac = omega arith;
  crc16 = omega arith;
}

packet_valid-sealed_example :
    packet_valid (hdr_bytes (sealed v2_header bytes_of) ++ bytes_of)
    ≡ some (sealed v2_header bytes_of, bytes_of)
packet_valid-sealed_example =
    packet_valid-sealed v2_header bytes_of v2_header-IsHdr refl refl refl (omega arith)

packet_priority-frame_of_example :
    packet_priority (some (frame_bytes (frame_of root_side one_frame 0 1))) ≡ 1
packet_priority-frame_of_example =
    packet_priority-frame_of root_side one_frame 0 1 one_frame-IsSendable

-- ===== src/Lib.antt =====
-- keemash_core: the message core of the mesh firmware, as functions, with what is proved of them.
--
-- Parts and how they interact. `keemash_mesh_core.c` is the reliable layer: it cuts messages into
-- fragments, numbers them per peer and channel, keeps them until they are acknowledged, puts them
-- into order and together again on the other side, and tells both sides what was lost. It hands
-- packets to a transport callback; in the firmware that is `keemash_mesh_tx_broker.c`, a priority
-- queue with a worker task in front of the radio. The packets' layout is
-- `include/keemash_mesh_proto.h`. Events for a console are queued by `keemash_mesh_event_outbox.c`,
-- whose worker task hands them to a callback until it takes them. `keemash_weekly_schedule.c` applies
-- the points of a weekly schedule by the local time, and keeps the schedule in NVS.
-- `keemash_ota_v3_checkpoint.c` keeps the progress of an update in two NVS entries.
--
-- Files:
--   Base      numbers of C words, Boolean tests, arrays as lists, single bits of a word;
--   Proto     the constants of the protocol and the error codes;
--   Wire      `mesh_v2_hdr_t` and `mesh_v2_reliable_hdr_t` as bytes, `crc16_update`, `packet_crc`,
--             `packet_valid`; Wire.Frames the payloads of HELLO, HELLO_ACK, ACK and LOST; Wire.RoundTrip
--             and Wire.Payloads that they are read back;
--   Rel       the state `struct keemash_rel_ctx`; Rel.Tables counting, finding and allocating slots
--             (`tx_alloc`, `tx_available`, `sack_bitmap`, `reassembly_find`); Rel.Peers `peer_find`;
--             Rel.Radio `raw_send` with its fault injection and `send_packet`; Rel.Loss `record_lost`,
--             `clear_peer_buffers`, `pending_lost_add`; Rel.Deliver `deliver_fragment`, `send_lost`,
--             `receiver_drop_range`; Rel.Consume `consume_contiguous`, `send_ack`; Rel.Sender `update_rto`,
--             `ack_slots`, `retransmit_slot`; Rel.Submit `keemash_rel_submit`; Rel.Handshake
--             `keemash_rel_send_hello`, `handle_hello`, `handle_hello_ack`; Rel.Receive `handle_data`;
--             Rel.Dispatch `handle_ack_packet`, `handle_lost_packet`, `keemash_rel_handle_rx`; Rel.Poll
--             `keemash_rel_poll`; Rel.Api `keemash_rel_init`, `keemash_rel_peer_route`,
--             `keemash_rel_supersede_channel`, `keemash_rel_remove_peer`, `keemash_rel_reset_peer`; Rel.Status
--             `keemash_rel_stats`, `keemash_rel_send` and the calls that read one value;
--             Rel.Limits, Rel.Rto, Rel.Acks, Rel.Clearing, Rel.Air, Rel.Queueing, Rel.Accept, Rel.Chunks,
--             Rel.Link, Rel.Frames, Rel.Binding, Rel.Rebinding, Rel.Desk, Rel.Tidy, Rel.Settle,
--             Rel.Fit, Rel.Filing and Rel.Reading what is proved of them;
--   Broker    the state of the broker and its worker's critical sections; Broker.Submit `init`, `submit`;
--             Broker.Auto `keemash_mesh_packet_priority` and `submit_auto`; Broker.Steps the callers and
--             the worker in any order of their critical sections; Broker.Order, Broker.Reserve,
--             Broker.Steps.Invariant, Broker.Steps.Conserve and Broker.Drain what is proved of them;
--   Outbox    the state of `keemash_mesh_event_outbox.c` and its worker's critical sections;
--             Outbox.Enqueue `enqueue` and `enqueue_group`; Outbox.View the queue that the slots stand for;
--             Outbox.Steps callers and worker in any order, and the specification of a queue;
--             Outbox.Oldest, Outbox.Inv, Outbox.Keeps, Outbox.Fifo, Outbox.Sends, Outbox.Held, Outbox.Tickets,
--             Outbox.Adds, Outbox.Grouped, Outbox.Keys, Outbox.Drain and Outbox.Steps.Refines,
--             Outbox.Steps.Worker what is proved of them;
--   Schedule  `keemash_weekly_schedule.c`: points, `config_valid`, `latest_point_index`,
--             `next_point_index`; Schedule.Blob the stored bytes, `persist_config`, `load_config`;
--             Schedule.Stage the state, `start`, `stage_begin`, `stage_point`, `stage_commit`; Schedule.Run
--             applying points; Schedule.Run.Task one round of `schedule_task`, `get_status`;
--             Schedule.Stage.Steps the staging calls in any order; Schedule.Scan, Schedule.Week,
--             Schedule.Latest, Schedule.Stored, Schedule.Stage.Complete, Schedule.Run.Once what is proved;
--   Checkpoint
--             `keemash_ota_v3_checkpoint.c`: `record_valid`, `latest_record`, `write_record`, and
--             `keemash_ota_v3_checkpoint_load`, `_save` and `_clear`; Checkpoint.Latest where the next record
--             goes; Checkpoint.Journal all calls in any order, and writes that end half done.
--
-- How the code is read. A function that changes the context takes it and returns it, with its
-- `esp_err_t`. Pointers into tables are indices, and a table has as many entries as the configuration
-- says. A MAC address is one number of 48 bits. Numbers are natural numbers, with the wrap-around of
-- their C type written out. `now_ms()` is the same during one call of the layer. The callbacks do not
-- call back into the layer: what they are called with is put into a trace, and `cfg.send` answers by
-- the trace, the destination and the packet. Whether a mutex or memory was obtained, and the numbers of
-- `esp_random`, are arguments.
--
-- Loops over tables are recursion on the table. The retry of `pending_lost_add` runs as often as the
-- source's, 8 times. `consume_contiguous` takes fuel: one more than there are reorder slots and pending
-- ranges, since each round clears one of them and adds none.
-- The worker's inner loop takes fuel, one more than there are slots in use; that of the event outbox
-- one more than events are queued. A C string is the list of its characters before the NUL. A mutex
-- that is waited for without a limit is obtained. The loop of `schedule_task` over the minutes that
-- began since the last sample has as many rounds as there are multiples of 60 in between. Wall times
-- are not negative. `localtime_r`, `schedule->apply`, the checksum of the ROM and NVS are parameters: functions, or the
-- answers they gave.
--
-- Not modelled: freeing memory, the debug hooks and the self-test of
-- `keemash_mesh_core.c`; the helpers for control and sensor payloads; the log stream,
-- the other OTA receivers and formats, the frames of keelink and fabric; the root and
-- node runtimes, hooks, time and network setup, which are mostly calls of ESP-IDF and ESP-MESH; generated
-- code and the Rust crate.
pub mod Base
pub mod Proto
pub mod Wire
pub mod Rel
pub mod Broker
pub mod Outbox
pub mod Schedule
pub mod Checkpoint

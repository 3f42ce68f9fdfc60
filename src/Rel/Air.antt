-- ===== src/Rel/Air.antt =====
-- keemash_mesh_core.c: what handing a packet to the transport can change, with all its faults.
use keemash_core.Base.{
  ℕ, Bool, true, false, not, ◌&&◌, ◌||◌, Option, none, some, List, [], ltb, leb, ◌==◌, if_keeps,
  before32, length, inc32, ◌≡◌, refl, ◌∙◌,
}
use keemash_core.Proto.{type_data, type_ack, type_nack, payload_max, packet_max}
use keemash_core.Rel.{Kept, Ctx}
use keemash_core.Rel.Radio.{
  flush, flush_delayed_packet, strikes, drop_fault, is_none, delay_fault, reorder_fault,
  release_held, duplicate_fault, put_on_air, after_reorder, after_delay, after_drop, raw_send,
  send_packet, call_send, sealed_bytes, outgoing,
}

-- The state without what the radio keeps: the calls made, the fault counters and the packets set
-- aside.
abbrev pub quiet : Ctx → Ctx
quiet c = record c {
  trace = [];
  data_counter = 0;
  ack_counter = 0;
  nack_counter = 0;
  duplicate_counter = 0;
  delay_counter = 0;
  reorder_counter = 0;
  held = none;
  delayed = none;
}

abbrev silent : {A : Type 0} → Ctx × A → Ctx
silent r = quiet r.0

flush-quiet : (c : Ctx) (now : ℕ) (o : Option Kept) → quiet (flush c now o) ≡ quiet c
unfolding flush
flush-quiet c now none = refl
flush-quiet c now (some k) = if_keeps quiet (before32 now k.due_ms) refl refl

drop-quiet : (c : Ctx) (type : ℕ) → silent (drop_fault c type) ≡ quiet c
unfolding drop_fault
drop-quiet c type =
    if_keeps silent (type == type_data) refl
      (if_keeps silent (type == type_ack) refl (if_keeps silent (type == type_nack) refl refl))

delay-quiet :
    (c : Ctx) (dst : ℕ) (packet : List ℕ) (type : ℕ)
    → silent (delay_fault c dst packet type) ≡ quiet c
unfolding delay_fault
delay-quiet c dst packet type =
    if_keeps silent (not (type == type_data) || (c.cfg.fault_delay_every == 0)) refl (
      if_keeps silent
        (strikes c.cfg.fault_delay_every (inc32 c.delay_counter)
          && is_none c.delayed
          && leb (length packet) packet_max)
        refl refl)

reorder-quiet :
    (c : Ctx) (dst : ℕ) (packet : List ℕ) (type : ℕ)
    → silent (reorder_fault c dst packet type) ≡ quiet c
unfolding reorder_fault
reorder-quiet c dst packet type =
    if_keeps silent (not (type == type_data) || (c.cfg.fault_reorder_every == 0)) refl (
      if_keeps silent
        (strikes c.cfg.fault_reorder_every (inc32 c.reorder_counter)
          && is_none c.held
          && leb (length packet) packet_max)
        refl refl)

release-quiet : (c : Ctx) (o : Option Kept) → quiet (release_held c o) ≡ quiet c
unfolding release_held
release-quiet c none = refl
release-quiet c (some k) = refl

duplicate-quiet :
    (c : Ctx) (dst : ℕ) (packet : List ℕ) (type : ℕ)
    → quiet (duplicate_fault c dst packet type) ≡ quiet c
unfolding duplicate_fault
duplicate-quiet c dst packet type =
    if_keeps quiet (not (type == type_data) || (c.cfg.fault_duplicate_every == 0)) refl
      (if_keeps quiet (strikes c.cfg.fault_duplicate_every (inc32 c.duplicate_counter)) refl refl)

put-quiet :
    (c : Ctx) (dst : ℕ) (packet : List ℕ) (type : ℕ)
    → silent (put_on_air c dst packet type) ≡ quiet c
unfolding put_on_air
put-quiet c dst packet type =
    let out = call_send c dst packet in
    duplicate-quiet (release_held out out.held) dst packet type ∙ release-quiet out out.held

after_reorder-quiet :
    (dst : ℕ) (packet : List ℕ) (type : ℕ) (r : Ctx × Bool)
    → silent (after_reorder dst packet type r) ≡ silent r
unfolding after_reorder
after_reorder-quiet dst packet type (c, true) = refl
after_reorder-quiet dst packet type (c, false) = put-quiet c dst packet type

after_delay-quiet :
    (dst : ℕ) (packet : List ℕ) (type : ℕ) (r : Ctx × Bool)
    → silent (after_delay dst packet type r) ≡ silent r
unfolding after_delay
after_delay-quiet dst packet type (c, true) = refl
after_delay-quiet dst packet type (c, false) =
    after_reorder-quiet dst packet type (reorder_fault c dst packet type)
    ∙ reorder-quiet c dst packet type

after_drop-quiet :
    (dst : ℕ) (packet : List ℕ) (type : ℕ) (r : Ctx × Bool)
    → silent (after_drop dst packet type r) ≡ silent r
unfolding after_drop
after_drop-quiet dst packet type (c, true) = refl
after_drop-quiet dst packet type (c, false) =
    after_delay-quiet dst packet type (delay_fault c dst packet type)
    ∙ delay-quiet c dst packet type

-- Sending a packet changes only what the radio keeps.
pub raw_send-quiet :
    (c : Ctx) (dst : ℕ) (packet : List ℕ) (type : ℕ)
    → quiet (raw_send c dst packet type).0 ≡ quiet c
unfolding raw_send flush_delayed_packet
raw_send-quiet c dst packet type =
    let flushed = flush_delayed_packet c c.now in
    if_keeps silent (is_none c.cfg.send) refl (
      after_drop-quiet dst packet type (drop_fault flushed type)
      ∙ drop-quiet flushed type
      ∙ flush-quiet c c.now c.delayed)

pub send_packet-quiet :
    (c : Ctx) (dst type session_id : ℕ) (payload : List ℕ)
    → quiet (send_packet c dst type session_id payload).0 ≡ quiet c
unfolding send_packet
send_packet-quiet c dst type session_id payload =
    if_keeps silent (ltb payload_max (length payload)) refl
      (raw_send-quiet c dst (sealed_bytes (outgoing c type session_id payload) payload) type)

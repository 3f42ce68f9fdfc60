-- ===== src/Rel/Radio.antt =====
-- keemash_mesh_core.c: handing packets to the transport, with the fault injection in front of it.
use keemash_core.Base.{
  ℕ, ◌+◌, ◌%◌, Bool, true, false, not, ◌&&◌, ◌||◌, Option, none, some, List, ◌∷◌, ◌++◌, ltb, leb,
  ◌==◌, if◌then◌else◌, u16, u32, inc32, before32, length,
}
use keemash_core.Proto.{
  Esp, ok, invalid_state, invalid_size, type_data, type_ack, type_nack, packet_max, payload_max,
  pkt_magic, pkt_version_v2,
}
use keemash_core.Wire.{Hdr, hdr_bytes, packet_crc}
use keemash_core.Rel.{sent, event, Peer, Kept, Ctx}
use keemash_core.Rel.Peers.{peer_send_mac}

-- A call of `cfg.send`, which is not NULL where the layer is initialised.
abbrev pub answer : Ctx → ℕ → List ℕ → Esp
answer ctx dst packet = elim ctx.cfg.send [ none ↦ ok | some f ↦ f ctx.trace dst packet ]

abbrev pub call_send : Ctx → ℕ → List ℕ → Ctx
call_send ctx dst packet = record ctx { trace = sent dst packet ∷ ctx.trace }

-- `flush_delayed_packet`
unfoldable pub flush : Ctx → ℕ → Option Kept → Ctx
flush ctx now none = ctx
flush ctx now (some k) =
    if before32 now k.due_ms then ctx else record (call_send ctx k.dst k.packet) { delayed = none }

unfoldable pub flush_delayed_packet : Ctx → ℕ → Ctx
unfolding flush
flush_delayed_packet ctx now = flush ctx now ctx.delayed

-- A fault that strikes each `every`-th time, never for zero.
abbrev pub strikes : ℕ → ℕ → Bool
strikes every counter = not (every == 0) && (counter % every == 0)

-- The first stage of `raw_send` counts the packet; the Boolean says that it is dropped.
unfoldable pub drop_fault : Ctx → ℕ → Ctx × Bool
drop_fault ctx type =
    if type == type_data
    then (
      record ctx { data_counter = inc32 ctx.data_counter },
      strikes ctx.cfg.fault_drop_data_every (inc32 ctx.data_counter),
    )
    else if type == type_ack
    then (
      record ctx { ack_counter = inc32 ctx.ack_counter },
      strikes ctx.cfg.fault_drop_ack_every (inc32 ctx.ack_counter),
    )
    else if type == type_nack
    then (
      record ctx { nack_counter = inc32 ctx.nack_counter },
      strikes ctx.cfg.fault_drop_nack_every (inc32 ctx.nack_counter),
    )
    else (ctx, false)

abbrev pub is_none {ℓ} : {A : Type ℓ} → Option A → Bool
is_none none = true
is_none (some _) = false

-- The second stage: the packet is set aside for `fault_delay_ms`.
unfoldable pub delay_fault : Ctx → ℕ → List ℕ → ℕ → Ctx × Bool
delay_fault ctx dst packet type =
    let counted = record ctx { delay_counter = inc32 ctx.delay_counter } in
    let wait = if ctx.cfg.fault_delay_ms == 0 then 250 else ctx.cfg.fault_delay_ms in
    let kept : Kept = record { dst = dst; due_ms = u32 (ctx.now + wait); packet = packet } in
    if not (type == type_data) || (ctx.cfg.fault_delay_every == 0)
    then (ctx, false)
    else if strikes ctx.cfg.fault_delay_every (inc32 ctx.delay_counter)
        && is_none ctx.delayed
        && leb (length packet) packet_max
    then (record counted { delayed = some kept }, true)
    else (counted, false)

-- The third stage: the packet is held until the next one has gone out.
unfoldable pub reorder_fault : Ctx → ℕ → List ℕ → ℕ → Ctx × Bool
reorder_fault ctx dst packet type =
    let counted = record ctx { reorder_counter = inc32 ctx.reorder_counter } in
    let kept : Kept = record { dst = dst; due_ms = 0; packet = packet } in
    if not (type == type_data) || (ctx.cfg.fault_reorder_every == 0)
    then (ctx, false)
    else if strikes ctx.cfg.fault_reorder_every (inc32 ctx.reorder_counter)
        && is_none ctx.held
        && leb (length packet) packet_max
    then (record counted { held = some kept }, true)
    else (counted, false)

unfoldable pub release_held : Ctx → Option Kept → Ctx
release_held ctx none = ctx
release_held ctx (some k) = record (call_send ctx k.dst k.packet) { held = none }

unfoldable pub duplicate_fault : Ctx → ℕ → List ℕ → ℕ → Ctx
duplicate_fault ctx dst packet type =
    let counted = record ctx { duplicate_counter = inc32 ctx.duplicate_counter } in
    if not (type == type_data) || (ctx.cfg.fault_duplicate_every == 0)
    then ctx
    else if strikes ctx.cfg.fault_duplicate_every (inc32 ctx.duplicate_counter)
    then call_send counted dst packet
    else counted

-- The last stage: the packet goes out, then a held one, then perhaps a duplicate.
unfoldable pub put_on_air : Ctx → ℕ → List ℕ → ℕ → Ctx × Esp
unfolding release_held duplicate_fault
put_on_air ctx dst packet type =
    let out = call_send ctx dst packet in
    (duplicate_fault (release_held out out.held) dst packet type, answer ctx dst packet)

-- The stages are functions of what the one before answered.
unfoldable pub after_reorder : ℕ → List ℕ → ℕ → Ctx × Bool → Ctx × Esp
unfolding put_on_air
after_reorder dst packet type (ctx, true) = (ctx, ok)
after_reorder dst packet type (ctx, false) = put_on_air ctx dst packet type

unfoldable pub after_delay : ℕ → List ℕ → ℕ → Ctx × Bool → Ctx × Esp
unfolding after_reorder reorder_fault
after_delay dst packet type (ctx, true) = (ctx, ok)
after_delay dst packet type (ctx, false) =
    after_reorder dst packet type (reorder_fault ctx dst packet type)

unfoldable pub after_drop : ℕ → List ℕ → ℕ → Ctx × Bool → Ctx × Esp
unfolding after_delay delay_fault
after_drop dst packet type (ctx, true) = (ctx, ok)
after_drop dst packet type (ctx, false) =
    after_delay dst packet type (delay_fault ctx dst packet type)

-- `raw_send`
unfoldable pub raw_send : Ctx → ℕ → List ℕ → ℕ → Ctx × Esp
unfolding after_drop drop_fault flush_delayed_packet
raw_send ctx dst packet type =
    if is_none ctx.cfg.send
    then (ctx, invalid_state)
    else after_drop dst packet type (drop_fault (flush_delayed_packet ctx ctx.now) type)

-- The header that `send_packet` writes.
abbrev pub outgoing : Ctx → ℕ → ℕ → List ℕ → Hdr
outgoing ctx type session_id payload = record {
  magic = pkt_magic;
  version = pkt_version_v2;
  type = type;
  flags = 0;
  session_id = session_id;
  seq = 0;
  ack_seq = 0;
  payload_len = u16 (length payload);
  src_mac = ctx.cfg.local_mac;
  crc16 = 0;
}

-- A packet with its checksum.
abbrev pub sealed_bytes : Hdr → List ℕ → List ℕ
sealed_bytes h payload = hdr_bytes (record h { crc16 = packet_crc h payload }) ++ payload

-- `send_packet`
unfoldable pub send_packet : Ctx → ℕ → ℕ → ℕ → List ℕ → Ctx × Esp
send_packet ctx dst type session_id payload =
    if ltb payload_max (length payload)
    then (ctx, invalid_size)
    else raw_send ctx dst (sealed_bytes (outgoing ctx type session_id payload) payload) type

-- `notify_event`
unfoldable pub notify_event : Ctx → Peer → ℕ → ℕ → ℕ → ℕ → Ctx
notify_event ctx p channel reason first last =
    if ctx.cfg.has_event
    then record ctx { trace = event (peer_send_mac ctx p) channel reason first last ∷ ctx.trace }
    else ctx

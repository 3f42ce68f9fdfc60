-- ===== src/Rel/Tables.antt =====
-- keemash_mesh_core.c: sequence arithmetic, and counting, finding and allocating slots.
-- A loop over `i < cfg.tx_slots` is a function over the table, which has that many entries.
use Prim.Native.Nat.{bit_and, bit_or}
use keemash_core.Base.{
  ℕ, zero, suc, ◌+◌, ◌-◌, ◌^◌, Bool, true, false, not, ◌&&◌, ◌||◌, Option, none, some, ltb, leb,
  ◌==◌, if◌then◌else◌, u32, sub32, before32, get_or, set, count_if, find_index,
}
use keemash_core.Proto.{priority_control, window}
use keemash_core.Wire.{RelHdr}
use keemash_core.Rel.{Config, TxSlot, RxSlot, ReSlot, Peer, Ctx, zero_reassembly}

-- `seq_before`, `seq_after` and `seq_in_range`
abbrev pub seq_before : ℕ → ℕ → Bool
seq_before a b = before32 a b

abbrev pub seq_after : ℕ → ℕ → Bool
seq_after a b = seq_before b a

abbrev pub seq_in_range : ℕ → ℕ → ℕ → Bool
seq_in_range seq first last = leb (sub32 seq first) (sub32 last first)

-- A flag of a bit field is set.
abbrev pub has_flag : ℕ → ℕ → Bool
has_flag flags flag = not (bit_and flags flag == 0)

-- The slots that belong to a peer.
abbrev pub owns_tx : Peer → TxSlot → Bool
owns_tx p s = s.used && (s.peer == p.mac)

abbrev pub owns_rx : Peer → RxSlot → Bool
owns_rx p s = s.used && (s.peer == p.mac)

abbrev pub owns_reassembly : Peer → ReSlot → Bool
owns_reassembly p s = s.used && (s.peer == p.mac)

-- Those of one channel.
abbrev pub on_channel_tx : Peer → ℕ → TxSlot → Bool
on_channel_tx p channel s = s.used && (s.channel == channel) && (s.peer == p.mac)

abbrev pub on_channel_rx : Peer → ℕ → RxSlot → Bool
on_channel_rx p channel s = s.used && (s.channel == channel) && (s.peer == p.mac)

unfoldable pub tx_unacked : Ctx → Peer → ℕ
tx_unacked ctx p = count_if (owns_tx p) ctx.tx

unfoldable pub channel_unacked : Ctx → Peer → ℕ → ℕ
channel_unacked ctx p channel = count_if (on_channel_tx p channel) ctx.tx

unfoldable pub reassembly_depth : Ctx → Peer → ℕ
reassembly_depth ctx p = count_if (owns_reassembly p) ctx.reassembly

unfoldable pub rx_depth : Ctx → Peer → ℕ
rx_depth ctx p = count_if (owns_rx p) ctx.rx

abbrev pub free_tx : TxSlot → Bool
free_tx s = not s.used

abbrev pub free_rx : RxSlot → Bool
free_rx s = not s.used

abbrev pub free_reassembly : ReSlot → Bool
free_reassembly s = not s.used

-- `non_control_limit`
abbrev pub non_control_limit : Config → ℕ
non_control_limit c =
    if ltb c.per_peer_control_reserve c.per_peer_tx_slots
    then c.per_peer_tx_slots - c.per_peer_control_reserve
    else 0

-- `tx_alloc`: the index of the slot.
unfoldable pub tx_alloc : Ctx → Peer → ℕ → Option ℕ
unfolding tx_unacked
tx_alloc ctx p priority =
    let peer_used = tx_unacked ctx p in
    let free_count = count_if free_tx ctx.tx in
    if (ltb priority priority_control && leb (non_control_limit ctx.cfg) peer_used)
      || ((priority == priority_control) && leb ctx.cfg.per_peer_tx_slots peer_used)
    then none
    else if ltb priority priority_control && leb free_count ctx.cfg.reserved_control_slots
    then none
    else find_index free_tx ctx.tx

-- `tx_available`
unfoldable pub tx_available : Ctx → Peer → ℕ → ℕ
unfolding tx_unacked
tx_available ctx p priority =
    let peer_used = tx_unacked ctx p in
    let free_count = count_if free_tx ctx.tx in
    let low = ltb priority priority_control in
    let usable = if low then free_count - ctx.cfg.reserved_control_slots else free_count in
    let peer_limit = if low then non_control_limit ctx.cfg else ctx.cfg.per_peer_tx_slots in
    let peer_free = if ltb peer_used peer_limit then peer_limit - peer_used else 0 in
    if low && leb free_count ctx.cfg.reserved_control_slots
    then 0
    else if ltb peer_free usable
    then peer_free
    else usable

-- `tx_find` and `rx_find`
unfoldable pub tx_find : Ctx → Peer → ℕ → ℕ → Option ℕ
tx_find ctx p channel seq =
    find_index (λ s. s.used && (s.channel == channel) && (s.seq == seq) && (s.peer == p.mac)) ctx.tx

abbrev pub is_rx : Peer → ℕ → ℕ → RxSlot → Bool
is_rx p channel seq s = s.used && (s.channel == channel) && (s.seq == seq) && (s.peer == p.mac)

unfoldable pub rx_find : Ctx → Peer → ℕ → ℕ → Option ℕ
rx_find ctx p channel seq = find_index (is_rx p channel seq) ctx.rx

unfoldable pub rx_alloc : Ctx → Peer → Option ℕ
unfolding rx_depth
rx_alloc ctx p =
    if leb ctx.cfg.per_peer_rx_slots (rx_depth ctx p) then none else find_index free_rx ctx.rx

-- `bitmap |= 1UL << bit` if the test holds.
abbrev pub set_bit : Bool → ℕ → ℕ → ℕ
set_bit b bit bitmap = if b then bit_or bitmap (2 ^ bit) else bitmap

abbrev pub is_some {ℓ} : {A : Type ℓ} → Option A → Bool
is_some none = false
is_some (some _) = true

-- The loop of `sack_bitmap`, with `left` rounds to go.
unfoldable pub sack_from : Ctx → Peer → ℕ → ℕ → ℕ → ℕ → ℕ → ℕ
sack_from ctx p channel ack zero bit bitmap = bitmap
sack_from ctx p channel ack (suc left) bit bitmap =
    sack_from ctx p channel ack left (bit + 1)
      (set_bit (is_some (rx_find ctx p channel (u32 (ack + 1 + bit)))) bit bitmap)

unfoldable pub sack_bitmap : Ctx → Peer → ℕ → ℕ
unfolding sack_from
sack_bitmap ctx p channel =
    sack_from ctx p channel (sub32 (get_or p.expected_seq channel 0) 1) window 0 0

-- The slot that already collects the stream of a fragment.
abbrev pub collects : Peer → RelHdr → ReSlot → Bool
collects p rh s =
    s.used && (s.channel == rh.channel_id) && (s.stream_id == rh.stream_id) && (s.peer == p.mac)

-- A fresh slot for the stream of a fragment.
abbrev pub opened : Ctx → Peer → RelHdr → ReSlot
opened ctx p rh = record zero_reassembly {
  used = true;
  peer = p.mac;
  channel = rh.channel_id;
  stream_id = rh.stream_id;
  fragment_count = rh.fragment_count;
  first_seq = sub32 rh.seq rh.fragment_index;
  last_ms = ctx.now;
}

unfoldable pub open_slot : Ctx → Peer → RelHdr → Option ℕ → Ctx × Option ℕ
open_slot ctx p rh none = (ctx, none)
open_slot ctx p rh (some i) =
    (record ctx { reassembly = set ctx.reassembly i (opened ctx p rh) }, some i)

unfoldable pub find_or_open : Ctx → Peer → RelHdr → Option ℕ → Ctx × Option ℕ
unfolding open_slot reassembly_depth
find_or_open ctx p rh (some i) =
    let s = get_or ctx.reassembly i zero_reassembly in
    if not (s.fragment_count == rh.fragment_count)
      || not (s.first_seq == sub32 rh.seq rh.fragment_index)
    then (ctx, none)
    else (ctx, some i)
find_or_open ctx p rh none =
    if leb ctx.cfg.per_peer_reassembly_slots (reassembly_depth ctx p)
    then (ctx, none)
    else open_slot ctx p rh (find_index free_reassembly ctx.reassembly)

-- `reassembly_find`, which is only called with `create`.
unfoldable pub reassembly_find : Ctx → Peer → RelHdr → Ctx × Option ℕ
unfolding find_or_open
reassembly_find ctx p rh = find_or_open ctx p rh (find_index (collects p rh) ctx.reassembly)

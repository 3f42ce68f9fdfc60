-- ===== src/Rel/Queueing.antt =====
-- keemash_mesh_core.c: `keemash_rel_submit` reserves what it needs, and cuts a message into pieces.
use keemash_core.Base.{
  ℕ, suc, ◌+◌, ◌-◌, ◌^◌, ◌≤◌, ◌<◌, Bool, true, false, ◌&&◌, ◌||◌, none, some, ltb, leb, ◌==◌,
  if◌then◌else◌, if_false, ==-refl, u32, inc32, length, get_or, set, count_if, count_if-set,
  find_index, find_index-some, find_index-none, get_or-set_self, length-set, Option-cases, ◌≡◌,
  refl, ap, ◌∙◌, inl, inr, arith,
}
use keemash_core.Proto.{priority_control}
use keemash_core.Rel.{Config, TxSlot, Peer, Ctx, peer_at, zero_peer}
use keemash_core.Rel.Tables.{
  owns_tx, free_tx, non_control_limit, tx_unacked, tx_alloc, tx_available,
}
use keemash_core.Rel.Submit.{Message, next_at, tx_slot_of, queue_one}

-- `tx_available` as a function of the counts: `low` for a priority below CONTROL, the peer's limit,
-- the slots kept back for CONTROL, the slots that the peer uses and the free ones.
abbrev room : Bool → ℕ → ℕ → ℕ → ℕ → ℕ
room low peer_limit reserved peer_used free_count =
    let usable = if low then free_count - reserved else free_count in
    let peer_free = if ltb peer_used peer_limit then peer_limit - peer_used else 0 in
    if low && leb free_count reserved then 0 else if ltb peer_free usable then peer_free else usable

abbrev limit_of : Config → ℕ → ℕ
limit_of c priority =
    if ltb priority priority_control then non_control_limit c else c.per_peer_tx_slots

tx_available-room :
    (ctx : Ctx) (p : Peer) (priority : ℕ)
    → tx_available ctx p priority
      ≡ room
          (ltb priority priority_control)
          (limit_of ctx.cfg priority)
          ctx.cfg.reserved_control_slots
          (count_if (owns_tx p) ctx.tx)
          (count_if free_tx ctx.tx)
unfolding tx_available tx_unacked
tx_available-room ctx p priority = refl

room_step :
    (low : Bool) (limit reserved used free : ℕ)
    → room low limit reserved used (suc free) ≤ suc (room low limit reserved (suc used) free)
room_step true limit reserved used free = ground arith
room_step false limit reserved used free = ground arith

room_none : (low : Bool) (limit reserved used : ℕ) → room low limit reserved used 0 ≡ 0
room_none true limit reserved used = ground arith
room_none false limit reserved used = ground arith

-- The two tests of `tx_alloc`.
room_tests :
    (priority limit low_limit reserved used free : ℕ)
    → 0
      < room
          (ltb priority priority_control)
          (if ltb priority priority_control then low_limit else limit)
          reserved
          used
          free
    → (((ltb priority priority_control && leb low_limit used)
          || ((priority == priority_control) && leb limit used))
        ≡ false)
      × ((ltb priority priority_control && leb free reserved) ≡ false)
room_tests priority limit low_limit reserved used free h = (ground arith, ground arith)

-- A slot that can be had is had.
pub tx_alloc-some :
    (ctx : Ctx) (p : Peer) (priority : ℕ)
    → 0 < tx_available ctx p priority
    → (k : ℕ) × (tx_alloc ctx p priority ≡ some k) × (find_index free_tx ctx.tx ≡ some k)
unfolding tx_alloc tx_available tx_unacked
tx_alloc-some ctx p priority h = elim (Option-cases (find_index free_tx ctx.tx)) [
  | inl e ↦
      let z =
        ap
          (room (ltb priority priority_control) (limit_of ctx.cfg priority)
            ctx.cfg.reserved_control_slots (count_if (owns_tx p) ctx.tx))
          (find_index-none free_tx ctx.tx e)
        ∙ room_none (ltb priority priority_control) (limit_of ctx.cfg priority)
            ctx.cfg.reserved_control_slots (count_if (owns_tx p) ctx.tx) in
      absurd (omega arith)
  | inr (k, e) ↦
      let (t, u) =
        room_tests priority ctx.cfg.per_peer_tx_slots (non_control_limit ctx.cfg)
          ctx.cfg.reserved_control_slots (count_if (owns_tx p) ctx.tx) (count_if free_tx ctx.tx)
          h in
      let free = find_index free_tx ctx.tx in
      (
        k,
        if_false none
              (if ltb priority priority_control
                  && leb (count_if free_tx ctx.tx) ctx.cfg.reserved_control_slots
                then none
                else free)
              t
            ∙ if_false none free u
            ∙ e,
        e,
      )
]

-- Taking a free slot costs one.
pub tx_available-set :
    (ctx ctx' : Ctx) (p p' : Peer) (priority k : ℕ) (s : TxSlot)
    → find_index free_tx ctx.tx ≡ some k
    → s.used ≡ true
    → owns_tx p s ≡ true
    → p'.mac ≡ p.mac
    → ctx'.cfg ≡ ctx.cfg
    → ctx'.tx ≡ set ctx.tx k s
    → tx_available ctx p priority ≤ suc (tx_available ctx' p' priority)
unfolding tx_available tx_unacked
tx_available-set ctx ctx' p p' priority k s e u o m c t =
    let low = ltb priority priority_control in
    let (x, ex, fx) = find_index-some free_tx ctx.tx k e in
    let used = count_if (owns_tx p) ctx.tx in
    let used' : count_if (owns_tx p') ctx'.tx ≡ suc used =
      ap (λ n. count_if (λ (r : TxSlot). r.used && (r.peer == n)) ctx'.tx) m
      ∙ ap (count_if (owns_tx p)) t
      ∙ ground (arith, count_if-set (owns_tx p) ctx.tx k {x = x} s ex) in
    let free' : count_if free_tx ctx.tx ≡ suc (count_if free_tx ctx'.tx) =
      ground (arith, count_if-set free_tx ctx.tx k {x = x} s ex, ap (count_if free_tx) t) in
    let before =
      ap (room low (limit_of ctx.cfg priority) ctx.cfg.reserved_control_slots used) free' in
    let after =
      ap
        (λ (d : Config).
          room low (limit_of d priority) d.reserved_control_slots (count_if (owns_tx p') ctx'.tx)
            (count_if free_tx ctx'.tx))
        c
      ∙ ap
          (λ n.
            room low (limit_of ctx.cfg priority) ctx.cfg.reserved_control_slots n
              (count_if free_tx ctx'.tx))
          used' in
    omega (
      arith,
      before,
      after,
      room_step low (limit_of ctx.cfg priority) ctx.cfg.reserved_control_slots used
          (count_if free_tx ctx'.tx),
    )

-- What queueing `n` fragments does: the peer owns `n` slots more, `n` free ones are gone, and the
-- channel's next sequence number has moved on by `n`.
pub record Queued (m : Message) (n : ℕ) (ctx ctx' : Ctx) : Type 0 where
  pub owned :
      count_if (owns_tx (peer_at ctx' m.pi)) ctx'.tx
      ≡ n + count_if (owns_tx (peer_at ctx m.pi)) ctx.tx
  pub free : n + count_if free_tx ctx'.tx ≡ count_if free_tx ctx.tx
  pub next : next_at ctx' m.pi m.channel ≡ u32 (next_at ctx m.pi m.channel + n)
  pub config : ctx'.cfg ≡ ctx.cfg

-- The message's peer is in the table, and has the channel, whose next number is a 32-bit word.
pub record IsAddressed (m : Message) (ctx : Ctx) : Type 0 where
  pub peer_lt : m.pi < length ctx.peers
  pub channel_lt : m.channel < length (peer_at ctx m.pi).next_seq
  pub next_lt : next_at ctx m.pi m.channel < 2 ^ 32

-- The peer after one fragment was queued.
pub queue_one-peer :
    (ctx : Ctx) (m : Message) (i k : ℕ)
    → IsAddressed m ctx
    → peer_at (queue_one ctx m i k) m.pi ≡ (record (peer_at ctx m.pi) {
      next_seq = set (peer_at ctx m.pi).next_seq m.channel (inc32 (next_at ctx m.pi m.channel));
    })
unfolding queue_one
queue_one-peer ctx m i k a =
    get_or-set_self ctx.peers m.pi
      (record (peer_at ctx m.pi) {
        next_seq = set (peer_at ctx m.pi).next_seq m.channel (inc32 (next_at ctx m.pi m.channel));
      })
      zero_peer a.peer_lt

pub queue_one-next :
    (ctx : Ctx) (m : Message) (i k : ℕ)
    → IsAddressed m ctx
    → next_at (queue_one ctx m i k) m.pi m.channel ≡ inc32 (next_at ctx m.pi m.channel)
queue_one-next ctx m i k a =
    ap (λ (p : Peer). get_or p.next_seq m.channel 0) (queue_one-peer ctx m i k a)
    ∙ get_or-set_self (peer_at ctx m.pi).next_seq m.channel (inc32 (next_at ctx m.pi m.channel)) 0
        a.channel_lt

pub queue_one-IsAddressed :
    (ctx : Ctx) (m : Message) (i k : ℕ) → IsAddressed m ctx → IsAddressed m (queue_one ctx m i k)
unfolding queue_one
queue_one-IsAddressed ctx m i k a =
    let p = peer_at ctx m.pi in
    let seq = inc32 (next_at ctx m.pi m.channel) in
    record {
      peer_lt = omega (
        arith,
        a.peer_lt,
        length-set ctx.peers m.pi (record p { next_seq = set p.next_seq m.channel seq }),
      );
      channel_lt = omega (
        arith,
        a.channel_lt,
        length-set p.next_seq m.channel seq,
        ap (λ (q : Peer). length q.next_seq) (queue_one-peer ctx m i k a),
      );
      next_lt = omega (arith, queue_one-next ctx m i k a);
    }

pub queue_one-Queued :
    (ctx : Ctx) (m : Message) (i k : ℕ)
    → IsAddressed m ctx
    → find_index free_tx ctx.tx ≡ some k
    → Queued m 1 ctx (queue_one ctx m i k)
unfolding queue_one
queue_one-Queued ctx m i k a e =
    let p = peer_at ctx m.pi in
    let seq = next_at ctx m.pi m.channel in
    let s = tx_slot_of ctx m i seq in
    let (x, ex, fx) = find_index-some free_tx ctx.tx k e in
    record {
      owned =
          ap (λ (q : Peer). count_if (owns_tx q) (set ctx.tx k s)) (queue_one-peer ctx m i k a)
          ∙ ground (arith, count_if-set (owns_tx p) ctx.tx k {x = x} s ex, ==-refl p.mac);
      free = ground (arith, count_if-set free_tx ctx.tx k {x = x} s ex);
      next = queue_one-next ctx m i k a;
      config = refl;
    }

-- ===== src/Rel/Accept.antt =====
-- keemash_mesh_core.c: when `keemash_rel_submit` accepts a message, and what it then has queued.
use keemash_core.Base.{
  ℕ, zero, suc, ◌+◌, ◌≤◌, Bool, true, false, not, ◌||◌, Option, none, some, List, [], ◌∷◌, ltb,
  ◌==◌, if◌then◌else◌, if_false, if_keeps, get_or, ==-refl, if_true, inc32, length, Bool-cases, ◌≡◌,
  refl, ap, ◌∙◌, sym, subst, inl, inr, arith,
}
use keemash_core.Proto.{Esp, ok, is_ok, invalid_size, no_mem, type_data, max_fragments}
use mathlib.Core.List.{reverse}
use keemash_core.Rel.{Peer, Ctx, peer_at, zero_tx}
use keemash_core.Rel.Air.{quiet, raw_send-quiet}
use keemash_core.Rel.Peers.{peer_send_mac}
use keemash_core.Rel.Sender.{frame_bytes}
use keemash_core.Rel.Radio.{strikes, raw_send}
use keemash_core.Rel.Tables.{tx_unacked, tx_alloc, tx_available}
use keemash_core.Rel.Submit.{
  Message, fragments_of, next_at, take_stream, tx_slot_of, queue_one, queue_from, send_slots,
  finish_submit, submit_to, Info, rejected, overflow,
}
use keemash_core.Rel.Queueing.{
  Queued, IsAddressed, tx_alloc-some, tx_available-set, queue_one-peer, queue_one-IsAddressed,
  queue_one-Queued,
}

Queued-refl : (m : Message) (ctx : Ctx) → IsAddressed m ctx → Queued m 0 ctx ctx
Queued-refl m ctx a = record {
  owned = omega arith;
  free = omega arith;
  next = omega (arith, a.next_lt);
  config = refl;
}

Queued-trans :
    (m : Message) (n : ℕ) (a b c : Ctx) → Queued m 1 a b → Queued m n b c → Queued m (suc n) a c
Queued-trans m n a b c q r = record {
  owned = omega (arith, q.owned, r.owned);
  free = omega (arith, q.free, r.free);
  next = omega (arith, q.next, r.next);
  config = r.config ∙ q.config;
}

queue_from-some :
    (n i : ℕ) (ctx : Ctx) (m : Message) (slots : List ℕ) (k : ℕ)
    → tx_alloc ctx (peer_at ctx m.pi) m.priority ≡ some k
    → queue_from (suc n) i ctx m slots ≡ queue_from n (i + 1) (queue_one ctx m i k) m (k ∷ slots)
unfolding queue_from
queue_from-some n i ctx m slots k e =
    ap
      (λ (o : Option ℕ). elim o as (λ _. Ctx × List ℕ × Bool) [
        | none ↦ (ctx, slots, false)
        | some k' ↦ queue_from n (i + 1) (queue_one ctx m i k') m (k' ∷ slots)
      ])
      e

within : (b : Bool) (available n : ℕ) → (b || ltb available n) ≡ false → n ≤ available
within b available n h = ground arith

abbrev silent : {A : Type 0} → Ctx × A → Ctx
silent r = quiet r.0

send_slots-quiet :
    (ctx : Ctx) (pi : ℕ) (ks : List ℕ) (err : Esp) → quiet (send_slots ctx pi ks err).0 ≡ quiet ctx
unfolding send_slots
send_slots-quiet ctx pi [] err = refl
send_slots-quiet ctx pi (k ∷ ks) err =
    let r =
      raw_send ctx (peer_send_mac ctx (peer_at ctx pi))
        (frame_bytes (get_or ctx.tx k zero_tx).frame) type_data in
    send_slots-quiet r.0 pi ks (if is_ok err then r.1 else err)
    ∙ raw_send-quiet ctx (peer_send_mac ctx (peer_at ctx pi))
        (frame_bytes (get_or ctx.tx k zero_tx).frame) type_data

if_answer :
    (b : Bool) (x y : Ctx × Esp × Info) {v w : Esp}
    → x.1 ≡ v
    → y.1 ≡ w
    → (if b then x else y).1 ≡ (if b then v else w)
if_answer true x y e f = e
if_answer false x y e f = f

-- With as many slots available as there are fragments, each fragment gets one.
queue_from-Queued :
    (n i : ℕ) (ctx : Ctx) (m : Message) (slots : List ℕ)
    → IsAddressed m ctx
    → n ≤ tx_available ctx (peer_at ctx m.pi) m.priority
    → let r = queue_from n i ctx m slots in
      (r.2 ≡ true) × (length r.1 ≡ n + length slots) × Queued m n ctx r.0
unfolding queue_from queue_one
queue_from-Queued zero i ctx m slots a h = (refl, omega arith, Queued-refl m ctx a)
queue_from-Queued (suc n) i ctx m slots a h =
    let (k, e, f) = tx_alloc-some ctx (peer_at ctx m.pi) m.priority (omega arith) in
    let b = queue_one ctx m i k in
    let s = tx_slot_of ctx m i (next_at ctx m.pi m.channel) in
    let same_mac : (peer_at b m.pi).mac ≡ (peer_at ctx m.pi).mac =
      ap (λ (p : Peer). p.mac) (queue_one-peer ctx m i k a) in
    let q = queue_one-Queued ctx m i k a f in
    let left : tx_available ctx (peer_at ctx m.pi) m.priority
        ≤ suc (tx_available b (peer_at b m.pi) m.priority) =
      tx_available-set ctx b (peer_at ctx m.pi) (peer_at b m.pi) m.priority k s f refl
        (==-refl (peer_at ctx m.pi).mac) same_mac q.config refl in
    let (t, l, r) =
      queue_from-Queued n (i + 1) b m (k ∷ slots) (queue_one-IsAddressed ctx m i k a)
        (omega arith) in
    subst
      (λ (v : Ctx × List ℕ × Bool).
        (v.2 ≡ true) × (length v.1 ≡ suc n + length slots) × Queued m (suc n) ctx v.0)
      (sym (queue_from-some n i ctx m slots k e))
      (t, omega (arith, l), Queued-trans m n ctx b (queue_from n (i + 1) b m (k ∷ slots)).0 q r)

-- What `submit_to` queues fragments of.
abbrev pub message_of : Ctx → ℕ → ℕ → List ℕ → ℕ → Message
message_of ctx pi channel payload priority = record {
  pi = pi;
  channel = channel;
  priority = priority;
  payload = payload;
  fragments = fragments_of (length payload);
  stream_id = (take_stream ctx.next_stream_id).0;
}

-- The state in which it does so.
abbrev pub overflow_count_of : Ctx → ℕ
overflow_count_of ctx =
    if not (ctx.cfg.fault_overflow_every == 0)
    then inc32 ctx.overflow_counter
    else ctx.overflow_counter

abbrev pub named_of : Ctx → Ctx
named_of ctx = record ctx {
  next_stream_id = (take_stream ctx.next_stream_id).1;
  overflow_counter = overflow_count_of ctx;
}

-- There is no room for a message of this many fragments, or the injected fault strikes.
abbrev pub is_full : Ctx → ℕ → ℕ → ℕ → Bool
is_full ctx pi priority fragments =
    strikes ctx.cfg.fault_overflow_every (overflow_count_of ctx)
    || ltb (tx_available ctx (peer_at ctx pi) priority) fragments

abbrev pub wrong_count : ℕ → Bool
wrong_count fragments = (fragments == 0) || ltb max_fragments fragments

-- The queue after a message for which there is room.
abbrev queued_of : Ctx → ℕ → ℕ → List ℕ → ℕ → Ctx × List ℕ × Bool
queued_of ctx pi channel payload priority =
    queue_from (fragments_of (length payload)) 0 (named_of ctx)
      (message_of ctx pi channel payload priority) []

Queued-quiet :
    (m : Message) (n : ℕ) (a c d : Ctx) → quiet c ≡ quiet d → Queued m n a d → Queued m n a c
Queued-quiet m n a c d e q =
    let r : Queued m n a (quiet c) =
      subst (Queued m n a) (sym e)
        (record { owned = q.owned; free = q.free; next = q.next; config = q.config }) in
    record { owned = r.owned; free = r.free; next = r.next; config = r.config }

queued_of-Queued :
    (ctx : Ctx) (pi channel : ℕ) (payload : List ℕ) (priority : ℕ)
    → IsAddressed (message_of ctx pi channel payload priority) ctx
    → is_full ctx pi priority (fragments_of (length payload)) ≡ false
    → let r = queued_of ctx pi channel payload priority in
      (r.2 ≡ true)
      × (length r.1 ≡ fragments_of (length payload) + 0)
      × Queued
          (message_of ctx pi channel payload priority)
          (fragments_of (length payload))
          (named_of ctx)
          r.0
unfolding tx_available tx_unacked
queued_of-Queued ctx pi channel payload priority a h =
    let m = message_of ctx pi channel payload priority in
    queue_from-Queued (fragments_of (length payload)) 0 (named_of ctx) m []
      (record { peer_lt = a.peer_lt; channel_lt = a.channel_lt; next_lt = a.next_lt })
      (within (strikes ctx.cfg.fault_overflow_every (overflow_count_of ctx))
        (tx_available ctx (peer_at ctx pi) priority) (fragments_of (length payload)) h)

finish_submit-queued :
    (m : Message) (first : ℕ) (r : Ctx × List ℕ × Bool)
    → r.2 ≡ true
    → ((finish_submit m first r).1 ≡ ok)
      × ((finish_submit m first r).2.queued ≡ true)
      × (quiet (finish_submit m first r).0 ≡ quiet r.0)
unfolding finish_submit
finish_submit-queued m first (c, s, true) h = (
  refl,
  refl,
  if_keeps silent (peer_at c m.pi).route_up (send_slots-quiet c m.pi (reverse s) ok) refl,
)
finish_submit-queued m first (c, s, false) h = absurd (ground arith)

-- `keemash_rel_submit` for a ready peer answers ESP_ERR_INVALID_SIZE exactly for a message without
-- fragments or with more than 16, ESP_ERR_NO_MEM exactly if the injected overflow strikes or fewer
-- slots are available than there are fragments, and ESP_OK in every other case: the branch that
-- gives a message up halfway, for want of a slot, is never taken. The condition is that the peer and
-- the channel are in the tables, and the channel's next sequence number is a 32-bit word.
pub submit_to_lem :
    (ctx : Ctx) (pi channel : ℕ) (payload : List ℕ) (priority : ℕ)
    → IsAddressed (message_of ctx pi channel payload priority) ctx
    → (submit_to ctx pi channel payload priority).1 ≡ (
        if wrong_count (fragments_of (length payload))
        then invalid_size
        else if is_full ctx pi priority (fragments_of (length payload))
        then no_mem
        else ok)
unfolding submit_to overflow tx_available tx_unacked
submit_to_lem ctx pi channel payload priority a =
    let n = fragments_of (length payload) in
    let m = message_of ctx pi channel payload priority in
    let first = next_at ctx pi channel in
    let r = queued_of ctx pi channel payload priority in
    if_answer (wrong_count n) (ctx, invalid_size, rejected)
      (if is_full ctx pi priority n
        then overflow (named_of ctx) m first
        else finish_submit m first r)
      refl
      (elim (Bool-cases (is_full ctx pi priority n)) [
        | inl e ↦
            ap (λ (x : Ctx × Esp × Info). x.1)
              (if_true (overflow (named_of ctx) m first) (finish_submit m first r) e)
            ∙ sym (if_true no_mem ok e)
        | inr e ↦
            ap (λ (x : Ctx × Esp × Info). x.1)
              (if_false (overflow (named_of ctx) m first) (finish_submit m first r) e)
            ∙ (finish_submit-queued m first r
                (queued_of-Queued ctx pi channel payload priority a e).0).0
            ∙ sym (if_false no_mem ok e)
      ])

-- What `keemash_rel_submit` has changed for a message of 1 to 16 fragments for which there is room,
-- of a peer and a channel in the tables: the peer owns one slot more for each fragment, so many free
-- slots are gone, and the channel's next sequence number, a 32-bit word, has moved on by the number
-- of fragments, whether or not the frames went out at once.
pub submit_to-Queued :
    (ctx : Ctx) (pi channel : ℕ) (payload : List ℕ) (priority : ℕ)
    → IsAddressed (message_of ctx pi channel payload priority) ctx
    → wrong_count (fragments_of (length payload)) ≡ false
    → is_full ctx pi priority (fragments_of (length payload)) ≡ false
    → Queued
        (message_of ctx pi channel payload priority)
        (fragments_of (length payload))
        ctx
        (submit_to ctx pi channel payload priority).0
unfolding submit_to overflow tx_available tx_unacked
submit_to-Queued ctx pi channel payload priority a w e =
    let n = fragments_of (length payload) in
    let m = message_of ctx pi channel payload priority in
    let first = next_at ctx pi channel in
    let r = queued_of ctx pi channel payload priority in
    let (t, l, q) = queued_of-Queued ctx pi channel payload priority a e in
    let full =
      if is_full ctx pi priority n
      then overflow (named_of ctx) m first
      else finish_submit m first r in
    let result : submit_to ctx pi channel payload priority ≡ finish_submit m first r =
      if_false (ctx, invalid_size, rejected) full w
      ∙ if_false (overflow (named_of ctx) m first) (finish_submit m first r) e in
    Queued-quiet m n ctx (submit_to ctx pi channel payload priority).0 r.0
      (ap (λ (x : Ctx × Esp × Info). quiet x.0) result ∙ (finish_submit-queued m first r t).2)
      (record { owned = q.owned; free = q.free; next = q.next; config = q.config })

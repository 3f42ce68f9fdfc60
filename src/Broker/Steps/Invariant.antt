-- ===== src/Broker/Steps/Invariant.antt =====
-- What keemash_mesh_tx_broker.c keeps true of its slots and counters, whatever the interleaving.
use keemash_core.Base.{
  ℕ, ◌+◌, ◌^◌, ◌≤◌, ◌<◌, ◌≡◌, refl, Bool, true, false, Option, none, some, List, arith, u32, length,
  get_elem?, set, count_if, All, length-set, All-set, All-get, count_if-set, count_if-le,
  get_elem?-set_ne, get_elem?-set_self, get_elem?-lt, ◌∙◌, ◌≢◌, inl, inr,
}
use keemash_core.Proto.{Esp, ok}
use keemash_core.Broker.{Slot, Broker, empty_slot, eligible, take_work, finish}
use keemash_core.Broker.Submit.{submit, occupy, filled}
use keemash_core.Broker.Order.{take_work-cases}
use keemash_core.Broker.Steps.{Worker, idle, ended, picked, sent}

abbrev pub is_used : Slot → Bool
is_used s = s.used

abbrev pub is_sending : Slot → Bool
is_sending s = s.sending

-- A slot that is not in use is as `memset` left it.
abbrev pub Cleared : Slot → Type 0
Cleared s = s.used ≡ false → s ≡ empty_slot

-- The slots and the counters agree; `active` is the slot that the worker holds.
pub record BrokerInv (b : Broker) : Type 0 where
  pub table : length b.slots ≡ b.cfg.slots
  pub small : b.cfg.slots < 2 ^ 16
  pub pending : b.stats.pending ≡ count_if is_used b.slots
  pub balance : b.stats.accepted ≡ u32 (b.stats.completed + b.stats.pending)
  pub water : (b.stats.pending ≤ b.stats.high_watermark) × (b.stats.high_watermark ≤ b.cfg.slots)
  pub cleared : All Cleared b.slots

-- One slot is being sent, by the worker that holds it; with no such worker, none is.
abbrev pub Held : Broker → Option ℕ → Type 0
Held b none = count_if is_sending b.slots ≡ 0
Held b (some i) =
    (s : Slot) × (get_elem? b.slots i ≡ some s)
    × (s.used ≡ true)
    × (s.sending ≡ true)
    × (count_if is_sending b.slots ≡ 1)

abbrev pub active : Worker → Option ℕ
active idle = none
active ended = none
active (picked i) = some i
active (sent i err) = some i

pub refused_keeps :
    (b : Broker) (locked : Bool) (dst : Option ℕ) (packet : Option (List ℕ)) (priority : ℕ)
    → (submit b locked dst packet priority).1 ≢ ok
    → let b' = (submit b locked dst packet priority).0 in
      (b'.cfg ≡ b.cfg)
      × (b'.slots ≡ b.slots)
      × (b'.stats.accepted ≡ b.stats.accepted)
      × (b'.stats.completed ≡ b.stats.completed)
      × (b'.stats.pending ≡ b.stats.pending)
      × (b'.stats.high_watermark ≡ b.stats.high_watermark)
unfolding submit
refused_keeps b locked dst none priority h = (refl, refl, refl, refl, refl, refl)
refused_keeps b locked dst (some bytes) priority h = ground arith

pub BrokerInv-same :
    (b b' : Broker)
    → (b'.cfg ≡ b.cfg)
      × (b'.slots ≡ b.slots)
      × (b'.stats.accepted ≡ b.stats.accepted)
      × (b'.stats.completed ≡ b.stats.completed)
      × (b'.stats.pending ≡ b.stats.pending)
      × (b'.stats.high_watermark ≡ b.stats.high_watermark)
    → BrokerInv b
    → BrokerInv b'
BrokerInv-same b b' (c, e, a, d, p, h) v = ground arith

pub occupy-BrokerInv :
    (b : Broker) (i : ℕ) (dst : Option ℕ) (bytes : List ℕ) (priority : ℕ) (s : Slot)
    → get_elem? b.slots i ≡ some s
    → s.used ≡ false
    → BrokerInv b
    → BrokerInv (occupy b i dst bytes priority)
unfolding occupy
occupy-BrokerInv b i dst bytes priority s g f v =
    let more = count_if-set is_used b.slots i {x = s} (filled b dst bytes priority) g in
    let bound = count_if-le is_used (set b.slots i (filled b dst bytes priority)) in
    let size = length-set b.slots i (filled b dst bytes priority) in
    record {
      table = omega (arith, v.table, size);
      small = v.small;
      pending = ground (arith, more, bound, size, v.pending, v.table, v.small);
      balance = ground (arith, more, bound, size, v.pending, v.table, v.small, v.balance);
      water = ground (arith, more, bound, size, v.pending, v.table, v.small, v.water);
      cleared = All-set Cleared b.slots i (filled b dst bytes priority) v.cleared (λ e. cc);
    }

pub finish-BrokerInv :
    (b : Broker) (i : ℕ) (err : Esp) → Held b (some i) → BrokerInv b → BrokerInv (finish b i err)
unfolding finish
finish-BrokerInv b i err (s, g, u, t, n) v =
    let less = count_if-set is_used b.slots i {x = s} empty_slot g in
    let size = length-set b.slots i empty_slot in
    let bound = count_if-le is_used b.slots in
    record {
      table = omega (arith, v.table, size);
      small = v.small;
      pending = ground (arith, less, bound, v.pending, v.table, v.small);
      balance = ground (arith, less, bound, v.pending, v.table, v.small, v.balance);
      water = ground (arith, less, bound, v.pending, v.table, v.small, v.water);
      cleared = All-set Cleared b.slots i empty_slot v.cleared (λ e. refl);
    }

pub finish-Held : (b : Broker) (i : ℕ) (err : Esp) → Held b (some i) → Held (finish b i err) none
unfolding finish
finish-Held b i err (s, g, u, t, n) =
    ground (arith, count_if-set is_sending b.slots i {x = s} empty_slot g)

pub occupy-Held :
    (b : Broker) (i : ℕ) (dst : Option ℕ) (bytes : List ℕ) (priority : ℕ) (s : Slot) (w : Option ℕ)
    → get_elem? b.slots i ≡ some s
    → s.used ≡ false
    → BrokerInv b
    → Held b w
    → Held (occupy b i dst bytes priority) w
unfolding occupy
occupy-Held b i dst bytes priority s none g f v h = ground (
  arith,
  count_if-set is_sending b.slots i {x = s} (filled b dst bytes priority) g,
  All-get Cleared b.slots i v.cleared g f,
)
occupy-Held b i dst bytes priority s (some j) g f v (t, gt, u, r, n) =
    let apart : i ≢ j = λ e. ground (arith, e) in
    (
      t,
      get_elem?-set_ne b.slots (filled b dst bytes priority) apart ∙ gt,
      u,
      r,
      ground (
        arith,
        count_if-set is_sending b.slots i {x = s} (filled b dst bytes priority) g,
        All-get Cleared b.slots i v.cleared g f,
      ),
    )

picked-BrokerInv :
    (b : Broker) (i : ℕ) (s : Slot)
    → get_elem? b.slots i ≡ some s
    → eligible s ≡ true
    → BrokerInv b
    → Held b none
    → let b' = record b { slots = set b.slots i (record s { sending = true }) } in
      BrokerInv b' × Held b' (some i)
picked-BrokerInv b i s g el v h =
    let marked : Slot = record s { sending = true } in
    let size = length-set b.slots i marked in
    let same = count_if-set is_used b.slots i {x = s} marked g in
    let sends = count_if-set is_sending b.slots i {x = s} marked g in
    (
      record {
        table = omega (arith, v.table, size);
        small = v.small;
        pending = ground (arith, same, v.pending);
        balance = v.balance;
        water = v.water;
        cleared = All-set Cleared b.slots i marked v.cleared (λ e. ground arith);
      },
      (
        marked,
        get_elem?-set_self b.slots i marked (get_elem?-lt b.slots i g),
        ground arith,
        refl,
        ground (arith, sends),
      ),
    )

pub take-BrokerInv :
    (b : Broker)
    → BrokerInv b
    → Held b none
    → BrokerInv (take_work b).0 × Held (take_work b).0 (take_work b).1
take-BrokerInv b v h = elim (take_work-cases b) [
  | inl (e, _) ↦ rw e (ground arith, h)
  | inr (inl (e, _, _)) ↦ rw e (v, h)
  | inr (inr (i, s, g, el, e)) ↦ rw e (picked-BrokerInv b i s g el v h)
]

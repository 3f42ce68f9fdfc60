-- ===== src/Rel/Limits.antt =====
-- keemash_mesh_core.c: what `keemash_rel_init` makes of its configuration.
use keemash_core.Base.{
  ℕ, ◌≤◌, ◌<◌, Bool, some, ltb, leb, ◌==◌, if◌then◌else◌, length, length-replicate, All,
  All-replicate, ◌≡◌, refl, subst, arith, ◌||◌, count_if, replicate, count_if-replicate,
  count_if-replicate_all,
}
use keemash_core.Proto.{ok, priority_control}
use keemash_core.Rel.{Config, Ctx, Peer, zero_tx, zero_peer, zero_rx, zero_reassembly}
use keemash_core.Rel.Tables.{non_control_limit, tx_available, tx_unacked, owns_tx, free_tx}
use keemash_core.Rel.Desk.{IsFiled}
use keemash_core.Rel.Api.{session_of, limit, completed, fresh, init}

-- The limits of a configuration fit its tables.
pub record IsLimited (c : Config) : Type 0 where
  pub tx : (0 < c.per_peer_tx_slots) × (c.per_peer_tx_slots ≤ c.tx_slots)
  pub rx : (0 < c.per_peer_rx_slots) × (c.per_peer_rx_slots ≤ c.rx_slots)
  pub reassembly :
      (0 < c.per_peer_reassembly_slots) × (c.per_peer_reassembly_slots ≤ c.reassembly_slots)
  pub reserve : c.per_peer_control_reserve < c.per_peer_tx_slots
  pub non_control : 0 < non_control_limit c
  pub grace : (0 < c.route_grace_ms) × (0 < c.stale_peer_ms)

limit_bounds :
    (per_peer total : ℕ) → 0 < total → (0 < limit per_peer total) × (limit per_peer total ≤ total)
limit_bounds per_peer total h = ground arith

reserve_lt :
    (reserve tx : ℕ)
    → 0 < tx
    → (if leb tx reserve then (if ltb 1 tx then 1 else 0) else reserve) < tx
reserve_lt reserve tx h = ground arith

non_zero : (n d : ℕ) → 0 < d → 0 < (if n == 0 then d else n)
non_zero n d h = ground arith

completed-IsLimited :
    (c : Config)
    → 0 < c.tx_slots
    → 0 < c.rx_slots
    → 0 < c.reassembly_slots
    → IsLimited (completed c)
unfolding completed
completed-IsLimited c t r a =
    let tx = limit_bounds c.per_peer_tx_slots c.tx_slots t in
    let reserve =
      reserve_lt c.per_peer_control_reserve (limit c.per_peer_tx_slots c.tx_slots) tx.0 in
    record {
      tx = tx;
      rx = limit_bounds c.per_peer_rx_slots c.rx_slots r;
      reassembly = limit_bounds c.per_peer_reassembly_slots c.reassembly_slots a;
      reserve = reserve;
      non_control = ground (arith, reserve);
      grace = (
        non_zero c.route_grace_ms 90000 (omega arith),
        non_zero c.stale_peer_ms 300000 (omega arith),
      );
    }

init-fresh :
    (c : Config) (allocated : Bool) (random random' now : ℕ) (x : Ctx)
    → init c allocated random random' now ≡ (ok, some x)
    → (0 < c.tx_slots)
      × (0 < c.rx_slots)
      × (0 < c.reassembly_slots)
      × (fresh (completed c) random random' now ≡ x)
unfolding init
init-fresh c allocated random random' now x e = ground arith

-- The tables have the sizes that the configuration names.
pub record IsSized (c : Ctx) : Type 0 where
  pub peers : length c.peers ≡ c.cfg.max_peers
  pub tx : length c.tx ≡ c.cfg.tx_slots
  pub rx : length c.rx ≡ c.cfg.rx_slots
  pub reassembly : length c.reassembly ≡ c.cfg.reassembly_slots

fresh-IsSized : (c : Config) (random random' now : ℕ) → IsSized (fresh c random random' now)
fresh-IsSized c random random' now = record {
  peers = length-replicate c.max_peers zero_peer;
  tx = length-replicate c.tx_slots zero_tx;
  rx = length-replicate c.rx_slots zero_rx;
  reassembly = length-replicate c.reassembly_slots zero_reassembly;
}

session_of-pos : (random : ℕ) → 0 < session_of random
session_of-pos random = ground arith

-- Whether a new context has a slot for a message of this priority.
fresh-tx_available :
    (c : Config) (random random' now : ℕ) (p : Peer) (priority : ℕ)
    → IsLimited c
    → ltb 0 (tx_available (fresh c random random' now) p priority)
      ≡ (leb priority_control priority || ltb c.reserved_control_slots c.tx_slots)
unfolding tx_available tx_unacked
fresh-tx_available c random random' now p priority v =
    let used : count_if (owns_tx p) (replicate c.tx_slots zero_tx) ≡ 0 =
      count_if-replicate (owns_tx p) c.tx_slots zero_tx refl in
    let unused : count_if free_tx (replicate c.tx_slots zero_tx) ≡ c.tx_slots =
      count_if-replicate_all free_tx c.tx_slots zero_tx refl in
    ground (arith, used, unused, v.tx.0, v.tx.1, v.non_control)

-- A context that `keemash_rel_init` returned is fit for use, whatever configuration it accepted: each
-- limit per peer is at least 1 and at most the size of its table, the limit per peer for messages
-- below CONTROL is at least 1, the two periods are not zero, the tables have the configured
-- sizes, every reorder slot holds what it is filed under, and neither the session nor the first
-- stream is zero. A peer finds room for a message of priority CONTROL or above, and for one below
-- exactly if fewer slots are kept back for CONTROL than there are.
pub init-IsLimited :
    (c : Config) (allocated : Bool) (random random' now : ℕ) (x : Ctx) (p : Peer) (priority : ℕ)
    → init c allocated random random' now ≡ (ok, some x)
    → IsLimited x.cfg
      × IsSized x
      × All IsFiled x.rx
      × (0 < x.local_session)
      × (0 < x.next_stream_id)
      × (ltb 0 (tx_available x p priority)
          ≡ (leb priority_control priority || ltb x.cfg.reserved_control_slots x.cfg.tx_slots))
init-IsLimited c allocated random random' now x p priority e =
    let (t, r, a, same) = init-fresh c allocated random random' now x e in
    subst
      (λ (y : Ctx).
        IsLimited y.cfg
        × IsSized y
        × All IsFiled y.rx
        × (0 < y.local_session)
        × (0 < y.next_stream_id)
        × (ltb 0 (tx_available y p priority)
            ≡ (leb priority_control priority || ltb y.cfg.reserved_control_slots y.cfg.tx_slots)))
      same
      (
        completed-IsLimited c t r a,
        fresh-IsSized (completed c) random random' now,
        All-replicate IsFiled (completed c).rx_slots zero_rx (refl, refl),
        session_of-pos random,
        session_of-pos random',
        fresh-tx_available (completed c) random random' now p priority
            (completed-IsLimited c t r a),
      )

-- ===== src/Rel/Status.antt =====
-- keemash_mesh_core.c: the calls that read the state of a peer, and `keemash_rel_send`.
use keemash_core.Base.{
  ℕ, Bool, true, false, Option, none, some, List, ◌-◌, ◌^◌, ◌||◌, ◌==◌, leb, if◌then◌else◌, sub32,
}
use keemash_core.Proto.{Esp, channel_count}
use keemash_core.Rel.{Ctx, Peer, peer_at}
use keemash_core.Rel.Tables.{tx_unacked, channel_unacked, rx_depth}
use keemash_core.Rel.Peers.{peer_find}
use keemash_core.Rel.Submit.{submit}

-- `keemash_rel_stats_t`
pub record PeerStats : Type 0 where
  pub seen : Bool
  pub ready : Bool
  pub root_session_id : ℕ
  pub node_session_id : ℕ
  pub tx_unacked : ℕ
  pub reorder_depth : ℕ
  pub rto_ms : ℕ
  pub retry_count : ℕ
  pub ack_age_ms : ℕ
  pub rtt_ms : ℕ
  pub overflow_count : ℕ
  pub replay_count : ℕ
  pub lost_count : ℕ
  pub lost_reason : ℕ
  pub route_up : Bool
  pub route_down_age_ms : ℕ
  pub last_rx_age_ms : ℕ
  pub capabilities : ℕ

abbrev pub zero_stats : PeerStats
zero_stats = record {
  seen = false;
  ready = false;
  root_session_id = 0;
  node_session_id = 0;
  tx_unacked = 0;
  reorder_depth = 0;
  rto_ms = 0;
  retry_count = 0;
  ack_age_ms = 0;
  rtt_ms = 0;
  overflow_count = 0;
  replay_count = 0;
  lost_count = 0;
  lost_reason = 0;
  route_up = false;
  route_down_age_ms = 0;
  last_rx_age_ms = 0;
  capabilities = 0;
}

-- The time since `then_ms`, or this if there was none.
abbrev age_or : ℕ → ℕ → ℕ → ℕ
age_or unset now then_ms = if then_ms == 0 then unset else sub32 now then_ms

abbrev pub stats_of : Ctx → Peer → PeerStats
stats_of ctx p = record {
  seen = true;
  ready = p.ready;
  root_session_id = p.root_session_id;
  node_session_id = p.node_session_id;
  tx_unacked = tx_unacked ctx p;
  reorder_depth = rx_depth ctx p;
  rto_ms = p.rto_ms;
  retry_count = p.retry_count;
  ack_age_ms = age_or (2 ^ 32 - 1) ctx.now p.last_ack_ms;
  rtt_ms = p.srtt_ms;
  overflow_count = p.overflow_count;
  replay_count = p.replay_count;
  lost_count = p.lost_count;
  lost_reason = p.lost_reason;
  route_up = p.route_up;
  route_down_age_ms = age_or 0 ctx.now p.route_down_since_ms;
  last_rx_age_ms = age_or (2 ^ 32 - 1) ctx.now p.last_rx_ms;
  capabilities = p.capabilities;
}

-- What is read of the peer that was found, or this if there is none. Finding it may change the context.
abbrev pub read_found {ℓ} : {A : Type ℓ} → A → (Ctx → Peer → A) → Ctx × Option ℕ → Ctx × A
read_found absent read (ctx, none) = (ctx, absent)
read_found absent read (ctx, some pi) = (ctx, read ctx (peer_at ctx pi))

-- `keemash_rel_stats`: what it writes to `out`, whose `seen` is what it returns.
unfoldable pub stats : Ctx → ℕ → Ctx × PeerStats
unfolding peer_find
stats ctx peer_mac = read_found zero_stats stats_of (peer_find ctx peer_mac false)

-- `keemash_rel_peer_ready`
unfoldable pub peer_ready : Ctx → ℕ → Ctx × Bool
unfolding peer_find
peer_ready ctx peer_mac =
    read_found false (λ (found : Ctx) (p : Peer). p.ready) (peer_find ctx peer_mac false)

-- `keemash_rel_peer_capabilities`
unfoldable pub peer_capabilities : Ctx → ℕ → Ctx × ℕ
unfolding peer_find
peer_capabilities ctx peer_mac =
    read_found 0 (λ (found : Ctx) (p : Peer). p.capabilities) (peer_find ctx peer_mac false)

-- `keemash_rel_channel_unacked`
unfoldable pub unacked_on : Ctx → ℕ → ℕ → Ctx × ℕ
unfolding peer_find channel_unacked
unacked_on ctx peer_mac channel =
    if (channel == 0) || leb channel_count channel
    then (ctx, 0)
    else read_found 0 (λ (found : Ctx) (p : Peer). channel_unacked found p channel)
        (peer_find ctx peer_mac false)

-- `keemash_rel_send`
unfoldable pub send : Ctx → ℕ → ℕ → List ℕ → ℕ → Ctx × Esp
unfolding submit
send ctx peer_mac channel payload priority =
    let r = submit ctx peer_mac channel payload priority in (r.0, r.1)

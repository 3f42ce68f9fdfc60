-- ===== src/Rel/Clearing/Reports.antt =====
-- keemash_mesh_core.c: what the reports of losses in `clear_peer_buffers` keep.
use keemash_core.Base.{
  ℕ, zero, suc, ◌+◌, ◌<◌, List, [], ◌∷◌, ◌==◌, if◌then◌else◌, if_keeps, u32, sub32, length,
  clear_if, get_or-set_self, get_or-set_view, length-set, ◌≡◌, refl, ap, ◌∙◌, arith,
}
use keemash_core.Rel.{
  Action, event, TxSlot, RxSlot, ReSlot, Peer, Ctx, peer_at, zero_tx, zero_rx, zero_reassembly,
  zero_peer,
}
use keemash_core.Rel.Peers.{set_peer, peer_send_mac}
use keemash_core.Rel.Radio.{notify_event}
use keemash_core.Rel.Tables.{owns_tx, owns_rx, owns_reassembly}
use keemash_core.Rel.Loss.{
  record_lost, span_of, lose_rx, lose_reassembly, lose_tx, restarted, unless_to, clear_peer_buffers,
}

-- The state in which `clear_peer_buffers` makes its reports.
abbrev pub emptied_of : Ctx → ℕ → Ctx
emptied_of c pi = record c {
  held = unless_to (peer_send_mac c (peer_at c pi)) c.held;
  delayed = unless_to (peer_send_mac c (peer_at c pi)) c.delayed;
  tx = clear_if (owns_tx (peer_at c pi)) zero_tx c.tx;
  rx = clear_if (owns_rx (peer_at c pi)) zero_rx c.rx;
  reassembly = clear_if (owns_reassembly (peer_at c pi)) zero_reassembly c.reassembly;
}

-- What a report of a loss to the application keeps, all reports keep.
module _ {ℓ} {A : Type ℓ} (view : Ctx → A) (pi : ℕ)
    (keeps : (c : Ctx) (channel reason first last count : ℕ)
      → view (record_lost c pi channel reason first last count) ≡ view c) where
  lose_rx-keeps :
      (c : Ctx) (reason : ℕ) (slots : List RxSlot) → view (lose_rx c pi reason slots) ≡ view c
  unfolding lose_rx
  lose_rx-keeps c reason [] = refl
  lose_rx-keeps c reason (s ∷ rest) =
      lose_rx-keeps
        (if owns_rx (peer_at c pi) s then record_lost c pi s.channel reason s.seq s.seq 1 else c)
        reason rest
      ∙ if_keeps view (owns_rx (peer_at c pi) s) (keeps c s.channel reason s.seq s.seq 1) refl

  lose_reassembly-keeps :
      (c : Ctx) (reason : ℕ) (slots : List ReSlot)
      → view (lose_reassembly c pi reason slots) ≡ view c
  unfolding lose_reassembly
  lose_reassembly-keeps c reason [] = refl
  lose_reassembly-keeps c reason (s ∷ rest) =
      let last = sub32 (s.first_seq + s.fragment_count) 1 in
      lose_reassembly-keeps
        (if owns_reassembly (peer_at c pi) s
          then record_lost c pi s.channel reason s.first_seq last s.fragment_count
          else c)
        reason rest
      ∙ if_keeps view (owns_reassembly (peer_at c pi) s)
          (keeps c s.channel reason s.first_seq last s.fragment_count) refl

  lose_tx-keeps :
      (c : Ctx) (reason : ℕ) (tx : List TxSlot) (channel left : ℕ)
      → view (lose_tx c pi reason tx channel left) ≡ view c
  unfolding lose_tx
  lose_tx-keeps c reason tx channel zero = refl
  lose_tx-keeps c reason tx channel (suc left) =
      let s = span_of (peer_at c pi) channel (record { first = 0; last = 0; count = 0 }) tx in
      lose_tx-keeps
        (if s.count == 0 then c else record_lost c pi channel reason s.first s.last s.count) reason
        tx (channel + 1) left
      ∙ if_keeps view (s.count == 0) refl (keeps c channel reason s.first s.last s.count)

  -- The reports of `clear_peer_buffers` come before and after the peer is restarted.
  pub clear-keeps :
      (c : Ctx) (reason : ℕ)
      → ((d : Ctx) → view (set_peer d pi (restarted (peer_at d pi))) ≡ view d)
      → view (clear_peer_buffers c pi reason) ≡ view (emptied_of c pi)
  unfolding clear_peer_buffers
  clear-keeps c reason restart =
      let emptied = emptied_of c pi in
      let told = lose_rx emptied pi reason c.rx in
      let reported = lose_reassembly told pi reason c.reassembly in
      lose_tx-keeps (set_peer reported pi (restarted (peer_at reported pi))) reason c.tx 1 9
      ∙ restart reported
      ∙ lose_reassembly-keeps told reason c.reassembly
      ∙ lose_rx-keeps emptied reason c.rx

-- The tables of slots.
abbrev pub tables : Ctx → List TxSlot × List RxSlot × List ReSlot
tables c = (c.tx, c.rx, c.reassembly)

-- A peer without its count of losses.
abbrev pub lasting : Peer → Peer
lasting p = record p { lost_reason = 0; lost_count = 0 }

pub notify-keeps {ℓ} :
    {A : Type ℓ} (view : Ctx → A) (c : Ctx) (p : Peer) (channel reason first last : ℕ)
    → ((t : List Action) → view (record c { trace = t }) ≡ view c)
    → view (notify_event c p channel reason first last) ≡ view c
unfolding notify_event
notify-keeps view c p channel reason first last h =
    if_keeps view c.cfg.has_event
      (h (event (peer_send_mac c p) channel reason first last ∷ c.trace)) refl

-- What `record_lost` writes to the peer.
abbrev pub lost_peer : Ctx → ℕ → ℕ → ℕ → Peer
lost_peer c pi reason count = record (peer_at c pi) {
  lost_reason = reason;
  lost_count = u32 ((peer_at c pi).lost_count + (if count == 0 then 1 else count));
}

record_lost-tables :
    (pi : ℕ) (c : Ctx) (channel reason first last count : ℕ)
    → tables (record_lost c pi channel reason first last count) ≡ tables c
unfolding record_lost
record_lost-tables pi c channel reason first last count =
    notify-keeps tables (set_peer c pi (lost_peer c pi reason count)) (lost_peer c pi reason count)
      channel reason first last (λ t. refl)

pub record_lost-length :
    (pi : ℕ) (c : Ctx) (channel reason first last count : ℕ)
    → length (record_lost c pi channel reason first last count).peers ≡ length c.peers
unfolding record_lost
record_lost-length pi c channel reason first last count =
    notify-keeps (λ d. length d.peers) (set_peer c pi (lost_peer c pi reason count))
      (lost_peer c pi reason count) channel reason first last (λ t. refl)
    ∙ length-set c.peers pi (lost_peer c pi reason count)

pub record_lost-session :
    (pi : ℕ) (c : Ctx) (channel reason first last count : ℕ)
    → (record_lost c pi channel reason first last count).local_session ≡ c.local_session
unfolding record_lost
record_lost-session pi c channel reason first last count =
    notify-keeps (λ d. d.local_session) (set_peer c pi (lost_peer c pi reason count))
      (lost_peer c pi reason count) channel reason first last (λ t. refl)

record_lost-lasting :
    (pi : ℕ) (c : Ctx) (channel reason first last count : ℕ)
    → lasting (peer_at (record_lost c pi channel reason first last count) pi)
      ≡ lasting (peer_at c pi)
unfolding record_lost
record_lost-lasting pi c channel reason first last count =
    notify-keeps (λ d. lasting (peer_at d pi)) (set_peer c pi (lost_peer c pi reason count))
      (lost_peer c pi reason count) channel reason first last (λ t. refl)
    ∙ get_or-set_view lasting c.peers pi (lost_peer c pi reason count) zero_peer refl

pub clear-tables :
    (c : Ctx) (pi reason : ℕ) → tables (clear_peer_buffers c pi reason) ≡ tables (emptied_of c pi)
clear-tables c pi reason = clear-keeps tables pi (record_lost-tables pi) c reason (λ d. refl)

pub clear-peer :
    (c : Ctx) (pi reason : ℕ)
    → pi < length c.peers
    → lasting (peer_at (clear_peer_buffers c pi reason) pi) ≡ lasting (restarted (peer_at c pi))
unfolding clear_peer_buffers
clear-peer c pi reason h =
    let view = λ (d : Ctx). lasting (peer_at d pi) in
    let count = λ (d : Ctx). length d.peers in
    let emptied = emptied_of c pi in
    let told = lose_rx emptied pi reason c.rx in
    let reported = lose_reassembly told pi reason c.reassembly in
    let same_count : length reported.peers ≡ length c.peers =
      lose_reassembly-keeps count pi (record_lost-length pi) told reason c.reassembly
      ∙ lose_rx-keeps count pi (record_lost-length pi) emptied reason c.rx in
    let same_peer : lasting (peer_at reported pi) ≡ lasting (peer_at c pi) =
      lose_reassembly-keeps view pi (record_lost-lasting pi) told reason c.reassembly
      ∙ lose_rx-keeps view pi (record_lost-lasting pi) emptied reason c.rx in
    lose_tx-keeps view pi (record_lost-lasting pi)
      (set_peer reported pi (restarted (peer_at reported pi))) reason c.tx 1 9
    ∙ ap lasting (
        get_or-set_self reported.peers pi (restarted (peer_at reported pi)) zero_peer
          (omega (arith, same_count)))
    ∙ ap restarted same_peer

-- ===== src/Outbox/Fifo.antt =====
-- Events that keemash_mesh_event_outbox.c puts into a slot, as a change of the queue.
use keemash_core.Base.{
  ℕ, ◌+◌, ◌^◌, ◌<◌, ◌≡◌, refl, ap, sym, subst, ◌∙◌, true, false, some, List, [], ◌∷◌, ◌++◌, arith,
  get_elem?, get_or-eq, set, All, All-set, All-map, get_elem?-lt, inc32, set-set_self,
  get_elem?-set_self,
}
use keemash_core.Outbox.{EventSlot, EventOutbox, no_slot, event_at}
use keemash_core.Outbox.Enqueue.{fill_slot, coalesce, new_event, with_text}
use keemash_core.Outbox.Oldest.{rank}
use keemash_core.Outbox.View.{
  Event, Entry, event, entry, events, view, queue, insert, insert-last, insert-split, view-All,
  view-fill, view-clear, Other,
}
use keemash_core.Outbox.Inv.{EventInv, Issued, last_rank, later_rank, next-Other}

pub events-append : (p q : List Entry) → events (p ++ q) ≡ events p ++ events q
events-append [] q = refl
events-append (e ∷ p) q = ap (◌∷◌ e.1) (events-append p q)

-- The slots of `xs` are older than a slot with the next ticket.
older_view :
    (base : ℕ) (o : EventOutbox) (v : EventSlot)
    → EventInv base o
    → last_rank base o + 1 < 2 ^ 31
    → v.ticket ≡ inc32 o.next_ticket
    → (xs : List EventSlot) → All (Issued base (last_rank base o)) xs
    → All (λ (e : Entry). e.0 < rank base v) (view base xs)
older_view base o v inv room e xs h =
    view-All (λ (e : Entry). e.0 < rank base v) base xs
      (All-map (Issued base (last_rank base o)) (λ t. t.used ≡ true → rank base t < rank base v) xs
        (λ t g u. omega (arith, (g u).1, later_rank base o v inv room e)) h)

-- A slot that is filled comes last.
pub fill_slot-queue :
    (base : ℕ) (o : EventOutbox) (i : ℕ) (key text : List ℕ) {s : EventSlot}
    → get_elem? o.slots i ≡ some s
    → s.used ≡ false
    → EventInv base o
    → last_rank base o + 1 < 2 ^ 31
    → queue base (fill_slot o i key text) ≡ queue base o ++ event (new_event o key text) ∷ []
unfolding fill_slot
fill_slot-queue base o i key text g f inv room =
    let new = new_event o key text in
    ap events (
      view-fill base o.slots i new g f refl (next-Other base o new inv room refl)
      ∙ insert-last (entry base new) (view base o.slots)
          (older_view base o new inv room refl o.slots inv.issued))
    ∙ events-append (view base o.slots) (entry base new ∷ [])

-- The queue has an event `e` somewhere, and `e'` takes its place at the end.
abbrev pub Replaces : List Event → List Event → Event → Event → Type 0
Replaces q q' e e' =
    (before : List Event) × (after : List Event) × (q ≡ before ++ e ∷ after)
    × (q' ≡ (before ++ after) ++ e' ∷ [])

Replaces-entries :
    (q r : List Entry) (k n : Entry)
    → q ≡ insert k r
    → Replaces (events q) (events (r ++ n ∷ [])) k.1 n.1
Replaces-entries q r k n e =
    let (before, after, old, new) = insert-split k r in
    (
      events before,
      events after,
      ap events (e ∙ new) ∙ events-append before (k ∷ after),
      events-append r (n ∷ [])
          ∙ ap (λ x. x ++ n.1 ∷ []) (ap events old ∙ events-append before after),
    )

pub coalesce-queue :
    (base : ℕ) (o : EventOutbox) (i : ℕ) (text : List ℕ) {s : EventSlot}
    → get_elem? o.slots i ≡ some s
    → s.used ≡ true
    → EventInv base o
    → last_rank base o + 1 < 2 ^ 31
    → Replaces
        (queue base o)
        (queue base (coalesce o i text))
        (event s)
        (event (with_text o s text))
unfolding coalesce
coalesce-queue base o i text {s} g u inv room =
    let new = with_text o s text in
    let at : event_at o i ≡ s = get_or-eq o.slots i no_slot g in
    let rest = set o.slots i no_slot in
    let issued_rest =
      All-set (Issued base (last_rank base o)) o.slots i no_slot inv.issued
        (λ w. absurd (ground (arith, w))) in
    let unlike =
      All-map (Issued base (last_rank base o)) (Other base (rank base new)) rest
        (λ t h w same. omega (arith, (h w).1, same, later_rank base o new inv room refl))
        issued_rest in
    let written : view base (set o.slots i new) ≡ view base rest ++ entry base new ∷ [] =
      ap (view base) (sym (set-set_self o.slots i no_slot new))
      ∙ view-fill base rest i {c = no_slot} new
          (get_elem?-set_self o.slots i no_slot (get_elem?-lt o.slots i g)) refl u unlike
      ∙ insert-last (entry base new) (view base rest)
          (older_view base o new inv room refl rest issued_rest) in
    subst
      (λ t.
        Replaces (queue base o) (events (view base (set o.slots i (with_text o t text)))) (event s)
          (event new))
      (sym at)
      (subst (λ q. Replaces (queue base o) (events q) (event s) (event new)) (sym written)
        (Replaces-entries (view base o.slots) (view base rest) (entry base s) (entry base new)
          (view-clear base o.slots i no_slot g u refl (inv.apart i s g u))))

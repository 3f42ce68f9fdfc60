-- ===== src/Outbox/Keys.antt =====
-- Replacing events by their key in keemash_mesh_event_outbox.c: `strncmp` over 16 characters against a
-- key that `snprintf` cut to 15.
use keemash_core.Base.{
  ℕ, zero, suc, ◌+◌, ◌≤◌, ◌<◌, ◌≡◌, ◌↔◌, refl, ap, sym, subst, ◌∙◌, Bool, true, not, Option, none,
  some, List, [], ◌∷◌, arith, length, take, take_all, get_elem?, get_or-eq, All, inl, inr,
  Bool-cases, find_index, find_index-some, find_index-none, find_index-pos, count_if, count_if-set,
  leb, ◌==◌, if◌then◌else◌, ==-refl, if_either,
}
use keemash_core.Proto.{Esp, ok}
use keemash_core.Outbox.{EventSlot, EventOutbox, no_slot, event_at}
use keemash_core.Outbox.Inv.{slot_used}
use keemash_core.Outbox.Enqueue.{
  fill_slot, coalesce, update_high_watermark_locked, new_event, with_text, enqueue, find_mate,
  is_mate, free_locked, place_event, add_event, strncmp_eq, slot_free,
}

-- `strncmp` finds no difference exactly where there is none, if one string ends before the limit.
strncmp_eq_iff : (n : ℕ) (a b : List ℕ) → length a < n → (strncmp_eq n a b ≡ true) ↔ (a ≡ b)
strncmp_eq_iff zero a b h = absurd (omega arith)
strncmp_eq_iff (suc n) [] [] h = ((λ e. refl), (λ e. refl))
strncmp_eq_iff (suc n) [] (y ∷ b) h = ((λ e. cc), (λ e. cc))
strncmp_eq_iff (suc n) (x ∷ a) [] h = ((λ e. cc), (λ e. cc))
strncmp_eq_iff (suc n) (x ∷ a) (y ∷ b) h =
    let rest = strncmp_eq_iff n a b (omega arith) in
    (
      (λ e.
          let same : x ≡ y = ground (arith, e) in
          let tails : a ≡ b = rest.0 (ground (arith, e)) in λ i. same i ∷ tails i),
      (λ e. ground (arith, e, ==-refl x, rest.1)),
    )

-- What `snprintf` leaves in a slot's key.
abbrev pub ShortKey : EventSlot → Type 0
ShortKey t = length t.key ≤ 15

-- The number of events that wait under this key.
abbrev pub mates : List ℕ → EventOutbox → ℕ
mates key o = count_if (is_mate key) o.slots

abbrev Coalesces : List ℕ → EventOutbox → EventOutbox × Esp → Type 0
Coalesces key o r = r.1 ≡ ok → mates key r.0 ≡ (if mates key o == 0 then 1 else mates key o)

add_event-Coalesces :
    (o : EventOutbox) (key text : List ℕ) (r : Option ℕ)
    → free_locked o ≡ r
    → length key ≤ 15
    → mates key o ≡ 0
    → Coalesces key o (add_event o key text r)
unfolding add_event fill_slot update_high_watermark_locked
add_event-Coalesces o key text none e short zero' h = cc
add_event-Coalesces o key text (some i) e short zero' h =
    let (s, g, f) = find_index-some slot_free o.slots i e in
    let same =
      (strncmp_eq_iff 16 (take 15 key) key (omega (arith, ap length (take_all 15 key short)))).1
        (take_all 15 key short) in
    ground (arith, same, count_if-set (is_mate key) o.slots i {x = s} (new_event o key text) g)

coalesce-Coalesces :
    (o : EventOutbox) (key text : List ℕ) (i : ℕ) (s : EventSlot)
    → get_elem? o.slots i ≡ some s
    → is_mate key s ≡ true
    → 0 < mates key o
    → Coalesces key o (coalesce o i text, ok)
unfolding coalesce
coalesce-Coalesces o key text i s g m pos h =
    let at : event_at o i ≡ s = get_or-eq o.slots i no_slot g in
    let kept : is_mate key (with_text o (event_at o i) text) ≡ true =
      ap (λ (t : EventSlot). is_mate key (with_text o t text)) at ∙ m in
    ground (
      arith,
      kept,
      count_if-set (is_mate key) o.slots i {x = s} (with_text o (event_at o i) text) g,
    )

place_event-Coalesces :
    (o : EventOutbox) (c : ℕ) (key text : List ℕ) (r : Option ℕ)
    → find_mate (some (c ∷ key)) o.slots ≡ r
    → length (c ∷ key) ≤ 15
    → Coalesces (c ∷ key) o (place_event o (some (c ∷ key)) text r)
unfolding place_event
place_event-Coalesces o c key text none e short =
    add_event-Coalesces o (c ∷ key) text (free_locked o) refl short
      (find_index-none (is_mate (c ∷ key)) o.slots e)
place_event-Coalesces o c key text (some i) e short =
    let (s, g, m) = find_index-some (is_mate (c ∷ key)) o.slots i e in
    coalesce-Coalesces o (c ∷ key) text i s g m (find_index-pos (is_mate (c ∷ key)) o.slots i e)

-- An accepted call of `enqueue` with a key of 1 to 15 characters adds no second event under the key:
-- afterwards as many events that are not being sent have the key as before, or one if none had.
pub enqueue-mates :
    (o : EventOutbox) (locked : Bool) (key : List ℕ) (text : Option (List ℕ))
    → 1 ≤ length key
    → length key ≤ 15
    → (enqueue o locked (some key) text).1 ≡ ok
    → mates key (enqueue o locked (some key) text).0 ≡ (if mates key o == 0 then 1 else mates key o)
unfolding enqueue
enqueue-mates o locked [] text long short = absurd (omega arith)
enqueue-mates o locked (c ∷ key) none long short = λ h. cc
enqueue-mates o locked (c ∷ key) (some text) long short =
    let P = Coalesces (c ∷ key) o in
    if_either P (length text == 0) (λ _ h. cc)
      λ _.
        if_either P (leb o.cfg.text_size (length text)) (λ _ h. cc)
          λ _.
            if_either P (not locked) (λ _ h. cc)
              λ _.
                place_event-Coalesces o c key text (find_mate (some (c ∷ key)) o.slots) refl short

-- Counters and slots show a new event, and none that was replaced.
abbrev AddsNew : EventOutbox → EventOutbox × Esp → Type 0
AddsNew o r =
    r.1 ≡ ok
    → (r.0.stats.coalesced ≡ o.stats.coalesced)
      × (count_if slot_used r.0.slots ≡ count_if slot_used o.slots + 1)

add_event-AddsNew :
    (o : EventOutbox) (key text : List ℕ) (r : Option ℕ)
    → free_locked o ≡ r
    → AddsNew o (add_event o key text r)
unfolding add_event fill_slot update_high_watermark_locked
add_event-AddsNew o key text none e h = cc
add_event-AddsNew o key text (some i) e h =
    let (s, g, f) = find_index-some slot_free o.slots i e in
    (refl, ground (arith, count_if-set slot_used o.slots i {x = s} (new_event o key text) g))

no_mate :
    (key : List ℕ) (xs : List EventSlot)
    → 16 ≤ length key
    → All ShortKey xs
    → find_index (is_mate key) xs ≡ none
no_mate key [] long short = refl
no_mate key (x ∷ xs) long short = elim (Bool-cases (strncmp_eq 16 x.key key)) [
  | inl e ↦ absurd (
      omega
        (arith, ap length ((strncmp_eq_iff 16 x.key key (omega (arith, short.0))).0 e), short.0))
  | inr e ↦ ground (arith, e, no_mate key xs long short.1)
]

no_long_mate :
    (key : List ℕ) (xs : List EventSlot)
    → 16 ≤ length key
    → All ShortKey xs
    → find_mate (some key) xs ≡ none
no_long_mate [] xs long short = absurd (omega arith)
no_long_mate (c ∷ key) xs long short = no_mate (c ∷ key) xs long short

placed : (o : EventOutbox) (key text : List ℕ) → AddsNew o (place_event o (some key) text none)
unfolding place_event
placed o key text = add_event-AddsNew o key text (free_locked o) refl

-- An accepted call of `enqueue` with a key of 16 or more characters never replaces an event, if the
-- stored keys are what `snprintf` leaves (at most 15 characters): the coalesced counter stays, and
-- one more slot is in use, even if the same call was made before.
pub enqueue-long_key :
    (o : EventOutbox) (locked : Bool) (key : List ℕ) (text : Option (List ℕ))
    → 16 ≤ length key
    → All ShortKey o.slots
    → (enqueue o locked (some key) text).1 ≡ ok
    → let o' = (enqueue o locked (some key) text).0 in
      (o'.stats.coalesced ≡ o.stats.coalesced)
      × (count_if slot_used o'.slots ≡ count_if slot_used o.slots + 1)
unfolding enqueue
enqueue-long_key o locked key none long short = λ h. cc
enqueue-long_key o locked key (some text) long short =
    let P = AddsNew o in
    let none' = no_long_mate key o.slots long short in
    if_either P (length text == 0) (λ _ h. cc)
      λ _.
        if_either P (leb o.cfg.text_size (length text)) (λ _ h. cc)
          λ _.
            if_either P (not locked) (λ _ h. cc)
              λ _. subst (λ r. P (place_event o (some key) text r)) (sym none') (placed o key text)

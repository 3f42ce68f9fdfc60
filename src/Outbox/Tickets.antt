-- ===== src/Outbox/Tickets.antt =====
-- How many tickets the calls of keemash_mesh_event_outbox.c give out.
use mathlib.Core.Option
use keemash_core.Base.{
  ℕ, ◌+◌, ◌≤◌, Bool, not, ◌||◌, Option, none, some, List, [], ◌∷◌, arith, length, if_either, ltb,
  leb, ◌==◌,
}
use keemash_core.Proto.{Esp, invalid_arg, invalid_size, timeout}
use keemash_core.Outbox.{EventOutbox}
use keemash_core.Outbox.Enqueue.{
  enqueue, enqueue_group, place_event, add_event, fill_slot, fill_all, fill_next, free_locked,
  coalesce, update_high_watermark_locked, find_mate, all_fit, free_count,
}

-- A call gives out at most one ticket for each text.
abbrev pub Gives : EventOutbox → ℕ → EventOutbox × Esp → Type 0
Gives o n r = r.0.next_ticket ≤ o.next_ticket + n

next_ticket-fill_slot :
    (o : EventOutbox) (i : ℕ) (key text : List ℕ)
    → (fill_slot o i key text).next_ticket ≤ o.next_ticket + 1
unfolding fill_slot
next_ticket-fill_slot o i key text = omega arith

add_event-Gives :
    (o : EventOutbox) (key text : List ℕ) (r : Option ℕ) → Gives o 1 (add_event o key text r)
unfolding add_event update_high_watermark_locked
add_event-Gives o key text none = omega arith
add_event-Gives o key text (some i) = next_ticket-fill_slot o i key text

place_event-Gives :
    (o : EventOutbox) (key : Option (List ℕ)) (text : List ℕ) (r : Option ℕ)
    → Gives o 1 (place_event o key text r)
unfolding place_event coalesce
place_event-Gives o key text none = add_event-Gives o _ text (free_locked o)
place_event-Gives o key text (some i) = omega arith

pub enqueue-Gives :
    (o : EventOutbox) (locked : Bool) (key text : Option (List ℕ))
    → Gives o 1 (enqueue o locked key text)
unfolding enqueue
enqueue-Gives o locked key none = omega arith
enqueue-Gives o locked key (some text) =
    let same : (err : Esp) → Gives o 1 (o, err) = λ err. omega arith in
    if_either (Gives o 1) (length text == 0) (λ _. same invalid_arg)
      λ _.
        if_either (Gives o 1) (leb o.cfg.text_size (length text)) (λ _. same invalid_size)
          λ _.
            if_either (Gives o 1) (not locked) (λ _. same timeout)
              λ _. place_event-Gives o key text (find_mate key o.slots)

fill_next-Gives :
    (o : EventOutbox) (text : List ℕ) (r : Option ℕ)
    → (fill_next o text r).next_ticket ≤ o.next_ticket + 1
fill_next-Gives o text none = omega arith
fill_next-Gives o text (some i) = next_ticket-fill_slot o i [] text

fill_all-Gives :
    (o : EventOutbox) (texts : List (Option (List ℕ)))
    → (fill_all o texts).next_ticket ≤ o.next_ticket + length texts
unfolding fill_all
fill_all-Gives o [] = omega arith
fill_all-Gives o (t ∷ texts) =
    let text = Option.get_or t [] in
    omega (
      arith,
      fill_next-Gives o text (free_locked o),
      fill_all-Gives (fill_next o text (free_locked o)) texts,
    )

pub enqueue_group-Gives :
    (o : EventOutbox) (locked : Bool) (texts : List (Option (List ℕ)))
    → Gives o (length texts) (enqueue_group o locked (some texts))
unfolding enqueue_group update_high_watermark_locked
enqueue_group-Gives o locked texts =
    let P = Gives o (length texts) in
    let same : (err : Esp) → P (o, err) = λ err. omega arith in
    if_either P ((length texts == 0) || ltb o.cfg.slots (length texts)) (λ _. same invalid_arg)
      λ _.
        if_either P (not (all_fit o.cfg.text_size texts)) (λ _. same invalid_size)
          λ _.
            if_either P (not locked) (λ _. same timeout)
              λ _.
                if_either P (ltb (free_count o) (length texts)) (λ _. omega arith)
                  λ _. fill_all-Gives o texts

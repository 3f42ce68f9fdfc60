-- ===== src/Broker/Tests.antt =====
-- keemash_mesh_tx_broker.c on small inputs: the theorems at states that meet their hypotheses.
use keemash_core.Base.{
  ◌≤◌, ◌≡◌, ◌≢◌, ◌↔◌, refl, Bool, true, false, none, some, [], ◌∷◌, arith, count_if, ◌==◌,
}
use keemash_core.Proto.{ok, no_mem}
use keemash_core.Broker.{Config, Slot, Broker, zero_stats, pick_next_locked, take_work, finish}
use keemash_core.Broker.Submit.{init, fresh, submit, free_slots}
use keemash_core.Broker.Order.{Picked, pick_next_locked-Picked}
use keemash_core.Broker.Reserve.{Admits, submit-ok_iff, submit_refused, submit_keeps_reserve}
use keemash_core.Broker.Steps.{System, Packet, start, here, next, accepts}
use keemash_core.Broker.Steps.Conserve.{holds, SystemInv, Reach-SystemInv}
use keemash_core.Broker.Steps.Invariant.{BrokerInv, is_used}
use keemash_core.Broker.Drain.{drain, drain_lem}

abbrev three_slots : Config
three_slots = record {
  slots = 3;
  control_reserved_slots = 1;
  max_packet_size = 8;
  has_raw_send = true;
}

-- A NORMAL packet, and a CONTROL packet submitted after it.
abbrev normal_slot : Slot
normal_slot = record {
  used = true;
  sending = false;
  priority = 1;
  dst = 7;
  ticket = 1;
  bytes = 10 ∷ 11 ∷ [];
}

abbrev control_slot : Slot
control_slot = record {
  used = true;
  sending = false;
  priority = 4;
  dst = 7;
  ticket = 2;
  bytes = 12 ∷ [];
}

abbrev free_slot : Slot
free_slot = record { used = false; sending = false; priority = 0; dst = 0; ticket = 0; bytes = [] }

abbrev two_waiting : Broker
two_waiting = record {
  cfg = three_slots;
  slots = normal_slot ∷ control_slot ∷ free_slot ∷ [];
  next_ticket = 2;
  stopping = false;
  task = true;
  stats = record zero_stats { accepted = 2; pending = 2; high_watermark = 2 };
}

two_waiting-BrokerInv : BrokerInv two_waiting
two_waiting-BrokerInv = record {
  table = refl;
  small = omega arith;
  pending = refl;
  balance = refl;
  water = omega arith;
  cleared = (λ e. cc, (λ e. cc, (λ e. refl, tt)));
}

-- The CONTROL packet goes first, although it came later.
control_first : (pick_next_locked two_waiting).1 ≡ some 1
unfolding pick_next_locked
control_first = refl

pick_example : Picked 1 two_waiting (pick_next_locked two_waiting)
pick_example =
    pick_next_locked-Picked 1 two_waiting
      (λ e. omega arith, (λ e. omega arith, (λ e. absurd (ground arith), tt)))

submit-ok_iff_example :
    ((submit two_waiting true (some 9) (some (5 ∷ [])) 4).1 ≡ ok)
    ↔ Admits two_waiting true (5 ∷ []) 4
submit-ok_iff_example = submit-ok_iff two_waiting true (some 9) (5 ∷ []) 4

-- One slot is free, and it is reserved.
refused_normal : (submit two_waiting true (some 9) (some (5 ∷ [])) 1).1 ≢ ok
unfolding submit
refused_normal e = cc

submit_refused_example :
    let b = (submit two_waiting true (some 9) (some (5 ∷ [])) 1).0 in
    (b.slots ≡ two_waiting.slots)
    × (b.next_ticket ≡ 2)
    × (b.stats.accepted ≡ 2)
    × (b.stats.pending ≡ 2)
submit_refused_example = submit_refused two_waiting true (some 9) (some (5 ∷ [])) 1 refused_normal

accepted_normal : (submit (fresh three_slots) true none (some (5 ∷ [])) 1).1 ≡ ok
unfolding submit
accepted_normal = refl

submit_keeps_reserve_example :
    1 ≤ free_slots (submit (fresh three_slots) true none (some (5 ∷ [])) 1).0
submit_keeps_reserve_example =
    submit_keeps_reserve (fresh three_slots) true none (5 ∷ []) 1 (omega arith) accepted_normal

init_three : init three_slots true true true ≡ (ok, some (fresh three_slots))
unfolding init
init_three = refl

abbrev after_one : System
after_one = record (start (fresh three_slots)) {
  broker = (submit (fresh three_slots) true none (some (5 ∷ [])) 1).0;
  taken = record { dst = 0; bytes = 5 ∷ [] } ∷ [];
}

Reach-SystemInv_example : SystemInv after_one
Reach-SystemInv_example =
    Reach-SystemInv three_slots true true true (fresh three_slots) after_one (omega arith)
      init_three (next here (accepts true none (5 ∷ []) 1 accepted_normal))

-- Both packets go out, the CONTROL packet first.
drain_order :
    (drain (λ p. ok) 3 two_waiting).1
    ≡ record { dst = 7; bytes = 12 ∷ [] } ∷ record { dst = 7; bytes = 10 ∷ 11 ∷ [] } ∷ []
unfolding drain take_work pick_next_locked finish
drain_order = refl

abbrev to_nine : Packet → Bool
to_nine p = p.dst == 9

drain_example :
    (count_if is_used (drain (λ p. no_mem) 3 two_waiting).0.slots ≡ 0)
    × (count_if to_nine (drain (λ p. no_mem) 3 two_waiting).1
        ≡ count_if (holds to_nine) two_waiting.slots)
drain_example =
    drain_lem (λ p. no_mem) 3 two_waiting to_nine two_waiting-BrokerInv refl refl (omega arith)

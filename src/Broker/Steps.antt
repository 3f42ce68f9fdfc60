-- ===== src/Broker/Steps.antt =====
-- The callers of the broker and its worker task, in any order of their critical sections.
pub mod Invariant
pub mod Conserve
use keemash_core.Base.{ℕ, ◌≡◌, ◌≢◌, Bool, true, false, Option, none, some, List, [], ◌∷◌}
use keemash_core.Proto.{Esp, ok}
use keemash_core.Broker.{Slot, Broker, Config, slot_at, take_work, finish}
use keemash_core.Broker.Submit.{init, submit, request_stop}

-- What a caller hands over and `raw_send` is given.
pub record Packet : Type 0 where
  pub dst : ℕ
  pub bytes : List ℕ

abbrev pub packet : Slot → Packet
packet s = record { dst = s.dst; bytes = s.bytes }

-- Where the worker task stands: before its first critical section, between it and `raw_send`,
-- between `raw_send` and the second critical section, or at its end.
pub data Worker : Type 0 where
  idle ended : Worker
  picked : ℕ → Worker
  sent : ℕ → Esp → Worker

-- `taken` are the packets for which `submit` returned ESP_OK, and `wire` those given to `raw_send`,
-- both with the newest first.
pub record System : Type 0 where
  pub broker : Broker
  pub worker : Worker
  pub taken : List Packet
  pub wire : List Packet

-- The worker after `take_work` on this broker answered this.
abbrev pub after_take : Broker → Option ℕ → Worker
after_take b none = elim b.stopping [ true ↦ ended | false ↦ idle ]
after_take b (some i) = picked i

-- The packet that `submit` stores.
abbrev pub offered : Option ℕ → List ℕ → Packet
offered none bytes = record { dst = 0; bytes = bytes }
offered (some dst) bytes = record { dst = dst; bytes = bytes }

pub data Step (s : System) : System → Type 0 where
  accepts :
      (locked : Bool) (dst : Option ℕ) (bytes : List ℕ) (priority : ℕ)
      → (submit s.broker locked dst (some bytes) priority).1 ≡ ok
      → Step s (record s {
        broker = (submit s.broker locked dst (some bytes) priority).0;
        taken = offered dst bytes ∷ s.taken;
      })
  refuses :
      (locked : Bool) (dst : Option ℕ) (bytes : Option (List ℕ)) (priority : ℕ)
      → (submit s.broker locked dst bytes priority).1 ≢ ok
      → Step s (record s { broker = (submit s.broker locked dst bytes priority).0 })
  stops : (locked : Bool) → Step s (record s { broker = request_stop s.broker locked })
  takes :
      s.worker ≡ idle
      → Step s (record s {
        broker = (take_work s.broker).0;
        worker = after_take s.broker (take_work s.broker).1;
      })
  transmits :
      (i : ℕ) (err : Esp)
      → s.worker ≡ picked i
      → Step s (record s { worker = sent i err; wire = packet (slot_at s.broker i) ∷ s.wire })
  finishes :
      (i : ℕ) (err : Esp)
      → s.worker ≡ sent i err
      → Step s (record s { broker = finish s.broker i err; worker = idle })

abbrev pub start : Broker → System
start b = record { broker = b; worker = idle; taken = []; wire = [] }

-- What a broker that `init` returned can come to.
pub data Reach (b : Broker) : System → Type 0 where
  here : Reach b (start b)
  next : {s t : System} → Reach b s → Step s t → Reach b t

-- ===== src/Broker/Steps/Conserve.antt =====
-- Every packet that keemash_mesh_tx_broker_submit accepts reaches `raw_send` once, with its bytes.
use keemash_core.Base.{
  ℕ, ◌+◌, ◌<◌, ◌≡◌, refl, Bool, true, false, ◌&&◌, Option, none, some, List, ◌∷◌, arith, get_elem?,
  get_or, set, count_if, count_if-set, get_or-eq, if◌then◌else◌, inl, inr, ◌⊎◌, ap, sym, subst, ◌∙◌,
  get_elem?-set_ne, ◌≢◌, count_if-replicate, All-replicate, length-replicate, ◌^◌,
}
use keemash_core.Proto.{Esp, ok}
use keemash_core.Broker.{Slot, Broker, Config, empty_slot, slot_at, take_work, finish}
use keemash_core.Broker.Submit.{fresh, init, submit, occupy, request_stop, filled}
use keemash_core.Broker.Order.{take_work-cases}
use keemash_core.Broker.Reserve.{submit_occupies}
use keemash_core.Broker.Steps.{
  System, Worker, idle, ended, picked, sent, Step, accepts, refuses, stops, takes, transmits,
  finishes, start, Reach, here, next, after_take, Packet, packet, offered,
}
use keemash_core.Broker.Steps.Invariant.{
  BrokerInv, BrokerInv-same, is_used, is_sending, Held, active, Cleared, refused_keeps,
  occupy-BrokerInv, occupy-Held, take-BrokerInv, finish-BrokerInv, finish-Held,
}

-- A slot that holds a packet which passes the test.
abbrev pub holds : (Packet → Bool) → Slot → Bool
holds p t = t.used && p (packet t)

-- The packet that `raw_send` has been given and whose slot is not yet cleared.
abbrev pub in_air : (Packet → Bool) → Broker → Worker → ℕ
in_air p b (sent i err) = if p (packet (slot_at b i)) then 1 else 0
in_air p b _ = 0

-- What holds of the whole system. The last field is an equation of multisets: it is stated of the
-- number of packets that pass a test, for every test.
pub record SystemInv (s : System) : Type 0 where
  pub broker_inv : BrokerInv s.broker
  pub held : Held s.broker (active s.worker)
  pub conserved :
      (p : Packet → Bool)
      → count_if p s.taken + in_air p s.broker s.worker
        ≡ count_if p s.wire + count_if (holds p) s.broker.slots

occupy-conserved :
    (b : Broker) (i : ℕ) (dst : Option ℕ) (bytes : List ℕ) (priority : ℕ) (s : Slot)
    (p : Packet → Bool)
    → get_elem? b.slots i ≡ some s
    → s.used ≡ false
    → count_if (holds p) (occupy b i dst bytes priority).slots
      ≡ count_if (holds p) b.slots + (if p (offered dst bytes) then 1 else 0)
unfolding occupy
occupy-conserved b i none bytes priority s p g f =
    ground (arith, count_if-set (holds p) b.slots i {x = s} (filled b none bytes priority) g)
occupy-conserved b i (some d) bytes priority s p g f =
    ground (arith, count_if-set (holds p) b.slots i {x = s} (filled b (some d) bytes priority) g)

occupy-in_air :
    (b : Broker) (i : ℕ) (dst : Option ℕ) (bytes : List ℕ) (priority : ℕ) (s : Slot)
    (p : Packet → Bool) (w : Worker)
    → get_elem? b.slots i ≡ some s
    → s.used ≡ false
    → Held b (active w)
    → in_air p (occupy b i dst bytes priority) w ≡ in_air p b w
unfolding occupy
occupy-in_air b i dst bytes priority s p idle g f h = refl
occupy-in_air b i dst bytes priority s p ended g f h = refl
occupy-in_air b i dst bytes priority s p (picked j) g f h = refl
occupy-in_air b i dst bytes priority s p (sent j err) g f (t, gt, u, r, n) =
    let apart : i ≢ j = λ e. ground (arith, e) in
    let now = get_elem?-set_ne b.slots (filled b dst bytes priority) apart ∙ gt in
    ground (
      arith,
      get_or-eq b.slots j empty_slot gt,
      get_or-eq (set b.slots i (filled b dst bytes priority)) j empty_slot now,
    )

accept-SystemInv :
    (s : System) (locked : Bool) (dst : Option ℕ) (bytes : List ℕ) (priority : ℕ)
    → (submit s.broker locked dst (some bytes) priority).1 ≡ ok
    → SystemInv s
    → SystemInv (record s {
      broker = (submit s.broker locked dst (some bytes) priority).0;
      taken = offered dst bytes ∷ s.taken;
    })
accept-SystemInv s locked dst bytes priority h v =
    let (i, t, g, f, e) = submit_occupies s.broker locked dst bytes priority h in
    record {
      broker_inv = rw e (occupy-BrokerInv s.broker i dst bytes priority t g f v.broker_inv);
      held =
          rw e
            (occupy-Held s.broker i dst bytes priority t (active s.worker) g f v.broker_inv v.held);
      conserved = λ p. rw e (
          omega (
            arith,
            occupy-conserved s.broker i dst bytes priority t p g f,
            occupy-in_air s.broker i dst bytes priority t p s.worker g f v.held,
            v.conserved p,
          ));
    }

-- A worker that holds no slot has nothing in the air.
rests-SystemInv :
    (s : System) (b : Broker) (w : Worker)
    → (w ≡ idle) ⊎ (w ≡ ended)
    → b.slots ≡ s.broker.slots
    → BrokerInv b
    → Held b none
    → ((p : Packet → Bool) → count_if p s.taken ≡ count_if p s.wire + count_if (holds p) b.slots)
    → SystemInv (record s { broker = b; worker = w })
rests-SystemInv s b w (inl e) same v h c =
    rw e (record { broker_inv = v; held = h; conserved = λ p. omega (arith, c p) })
rests-SystemInv s b w (inr e) same v h c =
    rw e (record { broker_inv = v; held = h; conserved = λ p. omega (arith, c p) })

after_none : (b : Broker) → (after_take b none ≡ idle) ⊎ (after_take b none ≡ ended)
after_none b = ground arith

take-SystemInv :
    (s : System)
    → s.worker ≡ idle
    → SystemInv s
    → SystemInv (record s {
      broker = (take_work s.broker).0;
      worker = after_take s.broker (take_work s.broker).1;
    })
take-SystemInv s w v =
    let h : Held s.broker none = rw w at v.held in
    let c : (p : Packet → Bool)
        → count_if p s.taken + 0 ≡ count_if p s.wire + count_if (holds p) s.broker.slots =
      λ p. rw w at (v.conserved p) in
    let both = take-BrokerInv s.broker v.broker_inv h in
    elim (take_work-cases s.broker) [
      | inl (e, _) ↦ rw e (
          rests-SystemInv s _ _ (after_none s.broker) refl (ground arith) h
            (λ p. omega (arith, c p)))
      | inr (inl (e, _, _)) ↦ rw e (
          rests-SystemInv s _ _ (after_none s.broker) refl v.broker_inv h (λ p. omega (arith, c p)))
      | inr (inr (i, t, g, el, e)) ↦ rw e (record {
        broker_inv = rw e at both.0;
        held = rw e at both.1;
        conserved = λ p. ground (
          arith,
          c p,
          count_if-set (holds p) s.broker.slots i {x = t} (record t { sending = true }) g,
        );
      })
    ]

transmit-SystemInv :
    (s : System) (i : ℕ) (err : Esp)
    → s.worker ≡ picked i
    → SystemInv s
    → SystemInv (record s { worker = sent i err; wire = packet (slot_at s.broker i) ∷ s.wire })
transmit-SystemInv s i err w v = record {
  broker_inv = v.broker_inv;
  held = rw w at v.held;
  conserved = λ p. let e = rw w at (v.conserved p) in omega (arith, e);
}

finish-conserved :
    (b : Broker) (i : ℕ) (err : Esp) (p : Packet → Bool)
    → Held b (some i)
    → count_if (holds p) (finish b i err).slots + in_air p b (sent i err)
      ≡ count_if (holds p) b.slots
unfolding finish
finish-conserved b i err p (t, g, u, r, n) =
    ground (
      arith,
      count_if-set (holds p) b.slots i {x = t} empty_slot g,
      get_or-eq b.slots i empty_slot g,
    )

finish-SystemInv :
    (s : System) (i : ℕ) (err : Esp)
    → s.worker ≡ sent i err
    → SystemInv s
    → SystemInv (record s { broker = finish s.broker i err; worker = idle })
finish-SystemInv s i err w v =
    let h : Held s.broker (some i) = rw w at v.held in
    record {
      broker_inv = finish-BrokerInv s.broker i err h v.broker_inv;
      held = finish-Held s.broker i err h;
      conserved = λ p.
          let e = rw w at (v.conserved p) in omega (arith, e, finish-conserved s.broker i err p h);
    }

in_air-slots :
    (p : Packet → Bool) (b b' : Broker) (w : Worker)
    → b'.slots ≡ b.slots
    → in_air p b' w ≡ in_air p b w
in_air-slots p b b' idle e = refl
in_air-slots p b b' ended e = refl
in_air-slots p b b' (picked i) e = refl
in_air-slots p b b' (sent i err) e =
    ap (λ xs. if p (packet (get_or xs i empty_slot)) then 1 else 0) e

Held-slots : (b b' : Broker) (w : Option ℕ) → b'.slots ≡ b.slots → Held b w → Held b' w
Held-slots b b' none e h = ground arith
Held-slots b b' (some i) e (t, g, u, r, n) = (t, ground (arith, e, g), u, r, ground (arith, e, n))

-- A change of the broker that leaves the slots alone.
same_slots-SystemInv :
    (s : System) (b : Broker)
    → b.slots ≡ s.broker.slots
    → BrokerInv b
    → SystemInv s
    → SystemInv (record s { broker = b })
same_slots-SystemInv s b e i v = record {
  broker_inv = i;
  held = Held-slots s.broker b (active s.worker) e v.held;
  conserved = λ p.
      omega (arith, v.conserved p, in_air-slots p s.broker b s.worker e, ap (count_if (holds p)) e);
}

stop-SystemInv :
    (s : System) (locked : Bool)
    → SystemInv s
    → SystemInv (record s { broker = request_stop s.broker locked })
unfolding request_stop
stop-SystemInv s true v = same_slots-SystemInv s _ refl (ground (arith, v.broker_inv)) v
stop-SystemInv s false v = v

refuse-SystemInv :
    (s : System) (locked : Bool) (dst : Option ℕ) (bytes : Option (List ℕ)) (priority : ℕ)
    → (submit s.broker locked dst bytes priority).1 ≢ ok
    → SystemInv s
    → SystemInv (record s { broker = (submit s.broker locked dst bytes priority).0 })
refuse-SystemInv s locked dst bytes priority h v =
    let same = refused_keeps s.broker locked dst bytes priority h in
    same_slots-SystemInv s _ same.1 (BrokerInv-same s.broker _ same v.broker_inv) v

fresh-SystemInv : (c : Config) → c.slots < 2 ^ 16 → SystemInv (start (fresh c))
fresh-SystemInv c small = record {
  broker_inv = record {
    table = length-replicate c.slots empty_slot;
    small = small;
    pending = sym (count_if-replicate is_used c.slots empty_slot refl);
    balance = omega arith;
    water = omega arith;
    cleared = All-replicate Cleared c.slots empty_slot (λ e. refl);
  };
  held = count_if-replicate is_sending c.slots empty_slot refl;
  conserved = λ p. omega (arith, count_if-replicate (holds p) c.slots empty_slot refl);
}

init-fresh :
    (c : Config) (allocated tables task_created : Bool) (b : Broker)
    → init c allocated tables task_created ≡ (ok, some b)
    → fresh c ≡ b
unfolding init
init-fresh c allocated tables task_created b e = ground arith

Step-SystemInv : {s t : System} → Step s t → SystemInv s → SystemInv t
Step-SystemInv {s} (accepts locked dst bytes priority h) v =
    accept-SystemInv s locked dst bytes priority h v
Step-SystemInv {s} (refuses locked dst bytes priority h) v =
    refuse-SystemInv s locked dst bytes priority h v
Step-SystemInv {s} (stops locked) v = stop-SystemInv s locked v
Step-SystemInv {s} (takes w) v = take-SystemInv s w v
Step-SystemInv {s} (transmits i err w) v = transmit-SystemInv s i err w v
Step-SystemInv {s} (finishes i err w) v = finish-SystemInv s i err w v

-- From a broker that `init` returned, whatever the order of the critical sections: the slots and
-- the counters agree (`BrokerInv`), one slot at most is being sent, by the worker that holds it, and
-- the accepted packets are those given to `raw_send` and those in the slots, each as often, where
-- the packet between `raw_send` and the clearing of its slot counts once.
pub Reach-SystemInv :
    (c : Config) (allocated tables task_created : Bool) (b : Broker) (s : System)
    → c.slots < 2 ^ 16
    → init c allocated tables task_created ≡ (ok, some b)
    → Reach b s
    → SystemInv s
Reach-SystemInv c allocated tables task_created b s small e here =
    subst (λ x. SystemInv (start x)) (init-fresh c allocated tables task_created b e)
      (fresh-SystemInv c small)
Reach-SystemInv c allocated tables task_created b s small e (next {s = t} r st) =
    Step-SystemInv st (Reach-SystemInv c allocated tables task_created b t small e r)

-- ===== src/Rel/Acks.antt =====
-- keemash_mesh_core.c: what an ACK says of the receiver, and what the sender does with it.
use keemash_core.Base.{
  ltb→lt, if_keeps, clear_if-eq, All, All-map, ℕ, zero, suc, ◌+◌, ◌*◌, ◌^◌, ◌≤◌, ◌<◌, Bool, true,
  false, not, ◌&&◌, ◌||◌, List, [], ◌∷◌, ltb, ◌==◌, if◌then◌else◌, u32, sub32, get_or, clear_if,
  ◌≡◌, refl, ap, ◌∙◌, arith, ◌⊎◌, inl, inr, subst,
}
use keemash_core.Base.Bits.{bit, bit_high, bit_new, bit_old, or_new, and_bit}
use keemash_core.Proto.{window}
use keemash_core.Wire.{RelHdr}
use keemash_core.Wire.Frames.{Ack}
use keemash_core.Rel.{TxSlot, Peer, Ctx, peer_at, zero_tx}
use keemash_core.Rel.Tables.{
  on_channel_tx, seq_after, has_flag, rx_find, is_some, set_bit, sack_from, sack_bitmap,
}
use keemash_core.Rel.Consume.{ack_for}
use keemash_core.Rel.Deliver.{expected_at}
use keemash_core.Rel.Sender.{covered, acked, measured, update_rto, ack_from, ack_slots}
use native.Mathlib.Nat.{pow-suc}

-- The sequence number that bit `j` of the bitmap stands for, is it buffered?
abbrev pub buffered_at : Ctx → Peer → ℕ → ℕ → ℕ → Bool
buffered_at ctx p channel ack j = is_some (rx_find ctx p channel (u32 (ack + 1 + j)))

plus_one : (k : ℕ) → k + 1 ≡ suc k
plus_one k = omega arith

pow_next : (k : ℕ) → 2 ^ (k + 1) ≡ 2 ^ k * 2
pow_next k = ap (λ t. 2 ^ t) (plus_one k) ∙ pow-suc 2 k

set_bit-lt : (b : Bool) (k x : ℕ) → x < 2 ^ k → set_bit b k x < 2 ^ (k + 1)
set_bit-lt true k x h = omega (arith, or_new k x h, pow_next k)
set_bit-lt false k x h = omega (arith, pow_next k)

set_bit-old : (b : Bool) (k j x : ℕ) → x < 2 ^ k → j < k → bit (set_bit b k x) j ≡ bit x j
set_bit-old true k j x h l = ap (λ t. bit t j) (or_new k x h) ∙ bit_old k j x h l
set_bit-old false k j x h l = refl

set_bit-new : (b : Bool) (k x : ℕ) → x < 2 ^ k → bit (set_bit b k x) k ≡ (if b then 1 else 0)
set_bit-new true k x h = ap (λ t. bit t k) (or_new k x h) ∙ bit_new k x h
set_bit-new false k x h = bit_high k x h

eq_or_lt : (b j : ℕ) → b ≤ j → (b ≡ j) ⊎ (b < j)
eq_or_lt b j h = ground arith

sack_from-old :
    (ctx : Ctx) (p : Peer) (channel ack left b x j : ℕ)
    → x < 2 ^ b
    → j < b
    → bit (sack_from ctx p channel ack left b x) j ≡ bit x j
unfolding sack_from
sack_from-old ctx p channel ack zero b x j h l = refl
sack_from-old ctx p channel ack (suc left) b x j h l =
    let s = buffered_at ctx p channel ack b in
    sack_from-old ctx p channel ack left (b + 1) (set_bit s b x) j (set_bit-lt s b x h)
      (omega arith)
    ∙ set_bit-old s b j x h l

sack_from-new :
    (ctx : Ctx) (p : Peer) (channel ack left b x j : ℕ)
    → x < 2 ^ b
    → b ≤ j
    → j < b + left
    → bit (sack_from ctx p channel ack left b x) j
      ≡ (if buffered_at ctx p channel ack j then 1 else 0)
unfolding sack_from
sack_from-new ctx p channel ack zero b x j h l l' = absurd (omega arith)
sack_from-new ctx p channel ack (suc left) b x j h l l' =
    let s = buffered_at ctx p channel ack b in
    elim (eq_or_lt b j l) [
      | inl e ↦
          subst
            (λ (t : ℕ).
              bit (sack_from ctx p channel ack left (b + 1) (set_bit s b x)) t
              ≡ (if buffered_at ctx p channel ack t then 1 else 0))
            e
            (sack_from-old ctx p channel ack left (b + 1) (set_bit s b x) b (set_bit-lt s b x h)
                (omega arith)
              ∙ set_bit-new s b x h)
      | inr m ↦
          sack_from-new ctx p channel ack left (b + 1) (set_bit s b x) j (set_bit-lt s b x h)
            (omega arith) (omega arith)
    ]

-- The bitmap has the bit of exactly those numbers of the window that are buffered.
pub bit-sack_bitmap :
    (ctx : Ctx) (p : Peer) (channel j : ℕ)
    → j < window
    → bit (sack_bitmap ctx p channel) j
      ≡ (if buffered_at ctx p channel (sub32 (get_or p.expected_seq channel 0) 1) j then 1 else 0)
unfolding sack_bitmap
bit-sack_bitmap ctx p channel j h =
    sack_from-new ctx p channel (sub32 (get_or p.expected_seq channel 0) 1) window 0 0 j
      (omega arith) (omega arith) (omega arith)

pow_pos : (k : ℕ) → 0 < 2 ^ k
pow_pos zero = omega arith
pow_pos (suc k) = omega (arith, pow-suc 2 k, pow_pos k)

scaled : (b : Bool) (x k : ℕ) → x ≡ (if b then 1 else 0) → x * 2 ^ k ≡ (if b then 2 ^ k else 0)
scaled true x k e = ap (λ t. t * 2 ^ k) e ∙ omega arith
scaled false x k e = ap (λ t. t * 2 ^ k) e ∙ omega arith

has_flag-bit : (b : Bool) (x k : ℕ) → bit x k ≡ (if b then 1 else 0) → has_flag x (2 ^ k) ≡ b
has_flag-bit true x k e = ground (arith, and_bit k x, scaled true (bit x k) k e, pow_pos k)
has_flag-bit false x k e = ground (arith, and_bit k x, scaled false (bit x k) k e)

-- The number that the sender looks up is the one that the receiver set the bit for.
same_seq : (seq a : ℕ) → seq < 2 ^ 32 → a < 2 ^ 32 → u32 (a + 1 + sub32 (sub32 seq a) 1) ≡ seq
same_seq seq a h l = omega arith

and_cases : (b c d : Bool) → (b ≡ true → c ≡ d) → (b && c) ≡ (b && d)
and_cases true c d h = h refl
and_cases false c d h = refl

-- The receiver has a packet of this channel, as its ACK tells it: its number lies before the one
-- that it expects, or the packet is buffered within the window after it.
abbrev pub has_got : Ctx → ℕ → ℕ → ℕ → Bool
has_got ctx pi channel seq =
    let last = sub32 (expected_at ctx pi channel) 1 in
    not (seq_after seq last)
    || (ltb (sub32 (sub32 seq last) 1) window && is_some (rx_find ctx (peer_at ctx pi) channel seq))

-- The sender takes a packet as acknowledged exactly if the receiver that built the ACK had it.
pub covered-ack_for :
    (ctx : Ctx) (pi : ℕ) (rh : RelHdr) (nack : Bool) (seq : ℕ)
    → seq < 2 ^ 32
    → covered (ack_for ctx pi rh nack) seq ≡ has_got ctx pi rh.channel_id seq
covered-ack_for ctx pi rh nack seq h =
    let channel = rh.channel_id in
    let last = sub32 (expected_at ctx pi channel) 1 in
    let d = sub32 (sub32 seq last) 1 in
    let got = λ (s : ℕ). is_some (rx_find ctx (peer_at ctx pi) channel s) in
    ap (λ (b : Bool). not (seq_after seq last) || b)
      (and_cases (ltb d window) (has_flag (sack_bitmap ctx (peer_at ctx pi) channel) (2 ^ d))
        (got seq)
        (λ l.
          has_flag-bit (got (u32 (last + 1 + d))) (sack_bitmap ctx (peer_at ctx pi) channel) d
            (bit-sack_bitmap ctx (peer_at ctx pi) channel d (ltb→lt d window l))
          ∙ ap got (same_seq seq last h (omega arith))))

update_rto-mac : (ctx : Ctx) (p : Peer) (sample : ℕ) → (update_rto ctx p sample).mac ≡ p.mac
unfolding update_rto
update_rto-mac ctx p sample =
    if_keeps (λ (r : Peer). r.mac) ((sample == 0) || ltb 60000 sample) refl refl

measured-mac : (ctx : Ctx) (p : Peer) (s : TxSlot) → (measured ctx p s).mac ≡ p.mac
measured-mac ctx p s =
    if_keeps (λ (r : Peer). r.mac) ((s.retries == 0) && not (s.first_sent_ms == 0))
      (update_rto-mac ctx p (sub32 ctx.now s.first_sent_ms)) refl

-- The measurements that the loop makes on the way do not change which slots it clears.
ack_from-slots :
    (ctx : Ctx) (ack : Ack) (p q : Peer) (slots : List TxSlot)
    → p.mac ≡ q.mac
    → (ack_from ctx ack p slots).1 ≡ clear_if (acked q ack) zero_tx slots
unfolding ack_from
ack_from-slots ctx ack p q [] e = refl
ack_from-slots ctx ack p q (s ∷ rest) e =
    let next = if acked p ack s then measured ctx p s else p in
    ap
      (λ (m : ℕ).
        (if (s.used && (s.channel == ack.channel_id) && (s.peer == m)) && covered ack s.seq
          then zero_tx
          else s)
        ∷ (ack_from ctx ack next rest).1)
      e
    ∙ ap (◌∷◌ (if acked q ack s then zero_tx else s)) (
        ack_from-slots ctx ack next q rest
          (if_keeps (λ (r : Peer). r.mac) (acked p ack s) (measured-mac ctx p s) refl ∙ e))

ack_slots_lem :
    (ctx : Ctx) (pi : ℕ) (ack : Ack)
    → (ack_slots ctx pi ack).tx ≡ clear_if (acked (peer_at ctx pi) ack) zero_tx ctx.tx
unfolding ack_slots
ack_slots_lem ctx pi ack = ack_from-slots ctx ack (peer_at ctx pi) (peer_at ctx pi) ctx.tx refl

-- What the sender forgets is what the receiver has: of a sender that handles the ACK (or NACK)
-- which a receiver builds for a packet of header `rh`, exactly those slots are cleared that are in
-- use, belong to the peer and the channel of the ACK, and whose sequence number the receiver has
-- got: it lies before the number that the receiver expects, or the receiver has it buffered within
-- the 32 numbers after. The condition is that the slots' sequence numbers are 32-bit words.
pub ack_slots-ack_for :
    (sender receiver : Ctx) (si ri : ℕ) (rh : RelHdr) (nack : Bool)
    → All (λ s. s.seq < 2 ^ 32) sender.tx
    → (ack_slots sender si (ack_for receiver ri rh nack)).tx
      ≡ clear_if
          (λ s.
            on_channel_tx (peer_at sender si) rh.channel_id s
            && has_got receiver ri rh.channel_id s.seq)
          zero_tx
          sender.tx
ack_slots-ack_for sender receiver si ri rh nack h =
    let ack = ack_for receiver ri rh nack in
    let p = peer_at sender si in
    ack_slots_lem sender si ack
    ∙ clear_if-eq (acked p ack)
        (λ s. on_channel_tx p rh.channel_id s && has_got receiver ri rh.channel_id s.seq) zero_tx
        sender.tx
        (All-map (λ (s : TxSlot). s.seq < 2 ^ 32)
          (λ s.
            acked p ack s
            ≡ (on_channel_tx p rh.channel_id s && has_got receiver ri rh.channel_id s.seq))
          sender.tx
          (λ s l.
            ap (λ b. on_channel_tx p rh.channel_id s && b)
              (covered-ack_for receiver ri rh nack s.seq l))
          h)

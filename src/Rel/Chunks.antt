-- ===== src/Rel/Chunks.antt =====
-- keemash_mesh_core.c: the pieces that `keemash_rel_submit` cuts a message into.
use keemash_core.Base.{
  ℕ, zero, suc, ◌+◌, ◌*◌, ◌≤◌, ◌<◌, List, [], ◌∷◌, ◌++◌, length, drop, take-append-drop, ◌≡◌, refl,
  ap, ◌∙◌, sym, arith,
}
use keemash_core.Proto.{inner_max, message_max, max_fragments}
use keemash_core.Rel.Submit.{chunk_of, fragments_of}

-- The payloads of fragments `i` to `i + n - 1`, one behind the other.
abbrev pub chunks : List ℕ → ℕ → ℕ → List ℕ
chunks payload i zero = []
chunks payload i (suc n) = chunk_of payload i ++ chunks payload (i + 1) n

zero_plus : (b : ℕ) → b ≡ 0 + b
zero_plus b = omega arith

suc_plus : (a b : ℕ) → suc (a + b) ≡ suc a + b
suc_plus a b = omega arith

next_offset : (i : ℕ) → (i + 1) * inner_max ≡ i * inner_max + inner_max
next_offset i = omega arith

module _ {ℓ} {A : Type ℓ} where
  drop-all : (n : ℕ) (xs : List A) → length xs ≤ n → drop n xs ≡ []
  drop-all zero [] h = refl
  drop-all zero (x ∷ xs) h = absurd (omega arith)
  drop-all (suc n) [] h = refl
  drop-all (suc n) (x ∷ xs) h = drop-all n xs (omega arith)

  drop-nil : (n : ℕ) → drop {A = A} n [] ≡ []
  drop-nil zero = refl
  drop-nil (suc n) = refl

  drop-drop : (a b : ℕ) (xs : List A) → drop b (drop a xs) ≡ drop (a + b) xs
  drop-drop zero b xs = ap (λ t. drop t xs) (zero_plus b)
  drop-drop (suc a) b [] = drop-nil b ∙ sym (drop-nil (suc a + b))
  drop-drop (suc a) b (x ∷ xs) = drop-drop a b xs ∙ ap (λ t. drop t (x ∷ xs)) (suc_plus a b)

chunks-drop :
    (payload : List ℕ) (i n : ℕ)
    → length payload ≤ (i + n) * inner_max
    → chunks payload i n ≡ drop (i * inner_max) payload
chunks-drop payload i zero h = sym (drop-all (i * inner_max) payload (omega arith))
chunks-drop payload i (suc n) h =
    ap (◌++◌ (chunk_of payload i)) (
      chunks-drop payload (i + 1) n (omega arith)
      ∙ ap (λ t. drop t payload) (next_offset i)
      ∙ sym (drop-drop (i * inner_max) inner_max payload))
    ∙ take-append-drop inner_max (drop (i * inner_max) payload)

-- The fragments of a message are enough and not too many: their payloads are the message, one
-- behind the other, there are at most 16 of them, and each but the last is full.
pub chunks-fragments_of :
    (payload : List ℕ)
    → length payload ≤ message_max
    → (chunks payload 0 (fragments_of (length payload)) ≡ payload)
      × (fragments_of (length payload) ≤ max_fragments)
      × (fragments_of (length payload) * inner_max < length payload + inner_max)
chunks-fragments_of payload h =
    (chunks-drop payload 0 (fragments_of (length payload)) (omega arith), omega arith, omega arith)

-- ===== src/Wire/Containers.antt =====
-- What the writers of leaves and of containers do.
use ferricstore_go.Base.{ℕ, ◌+◌, ◌≤◌, ◌<◌, ◌^◌, ◌≡◌, refl, [], ◌∷◌, ◌++◌, length, arith}
use ferricstore_go.Base.Bytes.{Bytes, be}
use ferricstore_go.Wire.Encode.{
  Writer, ◌▷◌, enter, ensure_container_budget, ensure_u32, write, write_byte, max_encode_depth,
  write_container_header, write_bytes, write_map_key,
}
use ferricstore_go.Wire.Encoding.{key_bytes}
use ferricstore_go.Wire.Writers.{
  Implements, ▷-Implements, enter-Implements, ensure_u32-Implements, write-Implements,
  ensure_container_budget-Implements,
}

module _ (limit : ℕ) where
  -- The same behaviour with the condition, the bytes or the count said in another way.
  pub restate :
      {w : Writer} {b c : Bytes} {n m : ℕ} {P Q : Type 0}
      → Implements limit w b n P
      → b ≡ c
      → n ≡ m
      → (P → Q)
      → (Q → P)
      → Implements limit w c m Q
  restate W e f to from = record {
    sound = λ s s' h. let (o, r, l, p) = W.sound s s' h in (rw (← e) o, rw (← f) r, l, to p);
    complete = λ s q r h. rw (← e, ← f) (W.complete s (from q) (rw f r) (rw e h));
  }

  pub header-Implements :
      (tag count : ℕ)
      → Implements limit (write_container_header limit tag count) (tag ∷ be 4 count) 0 (Unit {0})
  unfolding write_container_header write_byte
  header-Implements tag count =
      restate
        (▷-Implements limit (write-Implements limit (tag ∷ []))
          (write-Implements limit (be 4 count)))
        refl refl (λ _. tt) (λ _. (tt, tt))

  pub word-Implements :
      (tag w : ℕ)
      → Implements limit (write_byte limit tag ▷ write limit (be 8 w)) (tag ∷ be 8 w) 0 (Unit {0})
  unfolding write_byte
  word-Implements tag w =
      restate
        (▷-Implements limit (write-Implements limit (tag ∷ [])) (write-Implements limit (be 8 w)))
        refl refl (λ _. tt) (λ _. (tt, tt))

  pub bytes-Implements :
      (b : Bytes)
      → Implements limit (write_bytes limit b) (4 ∷ (be 4 (length b) ++ b)) 0 (length b < 2 ^ 32)
  unfolding write_bytes
  bytes-Implements b =
      restate
        (▷-Implements limit (ensure_u32-Implements limit (length b))
          (▷-Implements limit (header-Implements 4 (length b)) (write-Implements limit b)))
        refl refl (λ p. p.0) (λ p. (p, (tt, tt)))

  pub key-Implements :
      (k : Bytes) → Implements limit (write_map_key limit k) (key_bytes k) 0 (length k < 2 ^ 32)
  unfolding write_map_key
  key-Implements k =
      restate
        (▷-Implements limit (ensure_u32-Implements limit (length k)) (
          ▷-Implements limit (write-Implements limit (be 4 (length k))) (write-Implements limit k)))
        refl refl (λ p. p.0) (λ p. (p, (tt, tt)))

  -- A value with nothing inside: the item is counted, then the body is written.
  pub leaf-Implements :
      {w : Writer} {b : Bytes} {P : Type 0} (d : ℕ)
      → Implements limit w b 0 P
      → Implements limit (enter d ▷ w) b 1 ((d ≤ max_encode_depth) × P)
  leaf-Implements d W = ▷-Implements limit (enter-Implements limit d) W

  pub plain-Implements :
      {w : Writer} {b : Bytes} (d : ℕ)
      → Implements limit w b 0 (Unit {0})
      → Implements limit (enter d ▷ w) b 1 (d ≤ max_encode_depth)
  plain-Implements d W = restate (leaf-Implements d W) refl refl (λ p. p.0) (λ p. (p, tt))

  -- A container: the item, the tests on the count, the header, then what is inside.
  pub container-Implements :
      {w : Writer} {b : Bytes} {n : ℕ} {P : Type 0} (tag count d : ℕ)
      → count ≤ n
      → Implements limit w b n P
      → Implements limit
          (enter d
            ▷ ensure_u32 count
            ▷ ensure_container_budget count
            ▷ write_container_header limit tag count
            ▷ w)
          (tag ∷ (be 4 count ++ b))
          (1 + n)
          ((d ≤ max_encode_depth) × ((count < 2 ^ 32) × P))
  container-Implements {n = n} tag count d le W =
      restate
        (▷-Implements limit (enter-Implements limit d) (
          ▷-Implements limit (ensure_u32-Implements limit count) (
            ensure_container_budget-Implements limit {n = 0 + n} count (omega arith)
              (▷-Implements limit (header-Implements tag count) W))))
        refl (omega arith) (λ p. (p.0, (p.1.0, p.1.1.1))) (λ p. (p.0, (p.1.0, (tt, p.1.1))))

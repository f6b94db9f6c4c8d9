-- ===== src/Wire/Writers.antt =====
-- What a writer does, said once for all writers: the bytes, the items counted off, and the condition
-- under which it succeeds. The rule for `▷` puts writers together.
use ferricstore_go.Base.{
  ℕ, ◌+◌, ◌-◌, ◌≤◌, ◌<◌, ◌^◌, ◌≡◌, ◌∙◌, ap, sym, [], ◌++◌, length, length-append, ap₂, append_assoc,
  append-nil, ok, >>=-eq_ok, ltb-false, arith,
}
use ferricstore_go.Base.Bytes.{Bytes}
use ferricstore_go.Wire.Encode.{
  Encoder, Writer, ◌▷◌, done, enter, ensure_container_budget, ensure_u32, write, max_encode_depth,
}

module _ (limit : ℕ) where
  pub record Implements (w : Writer) (b : Bytes) (n : ℕ) (P : Type 0) : Type 0 where
    -- A success writes these bytes behind the others, and needed what it says.
    pub sound :
        (s s' : Encoder)
        → w s ≡ ok s'
        → (s'.out ≡ s.out ++ b)
          × (n + s'.remaining ≡ s.remaining)
          × (length s.out ≤ limit → length s'.out ≤ limit)
          × P
    -- Where the condition holds and the room is there, it succeeds.
    pub complete :
        (s : Encoder)
        → P
        → n ≤ s.remaining
        → length s.out + length b ≤ limit
        → w s ≡ ok (record { out = s.out ++ b; remaining = s.remaining - n })

  pub ▷-Implements :
      {f g : Writer} {b c : Bytes} {n m : ℕ} {P Q : Type 0}
      → Implements f b n P
      → Implements g c m Q
      → Implements (f ▷ g) (b ++ c) (n + m) (P × Q)
  ▷-Implements {f} {g} {b} {c} {n} {m} {P} {Q} F G = record {
    sound = λ s s' e.
        let (t, e₁, e₂) = >>=-eq_ok (f s) g e in
        let (b₁, r₁, l₁, p) = F.sound s t e₁ in
        let (b₂, r₂, l₂, q) = G.sound t s' e₂ in
        (b₂ ∙ ap (λ o. o ++ c) b₁ ∙ append_assoc s.out b c, omega arith, λ h. l₂ (l₁ h), (p, q));
    complete = λ s pq r h.
        let t : Encoder = record { out = s.out ++ b; remaining = s.remaining - n } in
        let room : length s.out + length b + length c ≤ limit = omega (arith, length-append b c) in
        rw (F.complete s pq.0 (omega arith) (omega arith)) (
          G.complete t pq.1 (omega arith) (omega (arith, length-append s.out b))
          ∙ ap₂ (λ o r. ok (record { out = o; remaining = r })) (append_assoc s.out b c)
              (omega arith));
  }

  -- A writer that leaves the bytes alone.
  silent :
      (w : Writer) (n : ℕ) (P : Type 0)
      → ((s s' : Encoder)
          → w s ≡ ok s'
          → (s' ≡ record s { remaining = s.remaining - n }) × (n ≤ s.remaining) × P)
      → ((s : Encoder) → P → n ≤ s.remaining → w s ≡ ok (record s { remaining = s.remaining - n }))
      → Implements w [] n P
  silent w n P only does = record {
    sound = λ s s' e.
        let (same, le, p) = only s s' e in
        (
          ap (λ t. t.out) same ∙ sym (append-nil s.out),
          omega (arith, ap (λ (t : Encoder). t.remaining) same),
          λ h. rw (ap (λ (t : Encoder). t.out) same) h,
          p,
        );
    complete = λ s p r h. rw (append-nil s.out) (does s p r);
  }

  pub done-Implements : Implements done [] 0 (Unit {0})
  done-Implements =
      silent done 0 Unit (λ s s' e. (ground arith, omega arith, tt)) (λ s p r. ground arith)

  pub enter-Implements : (d : ℕ) → Implements (enter d) [] 1 (d ≤ max_encode_depth)
  unfolding enter
  enter-Implements d =
      silent (enter d) 1 (d ≤ max_encode_depth)
        (λ s s' e. (ground arith, ground arith, ground arith)) (λ s p r. ground arith)

  pub ensure_u32-Implements : (n : ℕ) → Implements (ensure_u32 n) [] 0 (n < 2 ^ 32)
  unfolding ensure_u32
  ensure_u32-Implements n =
      silent (ensure_u32 n) 0 (n < 2 ^ 32) (λ s s' e. (ground arith, omega arith, ground arith))
        (λ s p r. ground arith)

  pub write-Implements : (b : Bytes) → Implements (write limit b) b 0 (Unit {0})
  unfolding write
  write-Implements b = record {
    sound = λ s s' e. (ground arith, ground arith, λ h. ground (arith, length-append s.out b), tt);
    complete = λ s p r h. ground arith;
  }

  -- The budget test in front of a container's items, which count off that many at least.
  pub ensure_container_budget-Implements :
      {w : Writer} {b : Bytes} {n : ℕ} {P : Type 0} (count : ℕ)
      → count ≤ n
      → Implements w b n P
      → Implements (ensure_container_budget count ▷ w) b n P
  unfolding ensure_container_budget
  ensure_container_budget-Implements {w} count h W = record {
    sound = λ s s' e.
        let (t, e₁, e₂) = >>=-eq_ok (ensure_container_budget count s) w e in
        let same : t ≡ s = ground arith in W.sound s s' (rw (← same) e₂);
    complete = λ s p r l. rw (ltb-false s.remaining count (omega arith)) (W.complete s p r l);
  }

-- ===== src/Frame/Assembler/Invariant.antt =====
-- What holds of the assembler between two frames.
use ferricstore_go.Base.{
  ℕ, ◌+◌, ◌≤◌, ◌<◌, ◌≡◌, refl, ap, sym, ◌∙◌, List, [], ◌∷◌, ◌++◌, length, length-append,
  append_assoc, append-nil, none, some, Option-cases, Bool-cases, ◌⊎◌, inl, inr, Result,
  Result-cases, ok, err, ◌≢◌, arith,
}
use ferricstore_go.Base.Bytes.{Bytes}
use ferricstore_go.Base.Dict.{
  lookup, insert, delete, Unique, insert-Unique, delete-Unique, total, weight_at, total-insert,
  total-delete, AllValues, AllValues-insert, AllValues-delete, AllValues-lookup, lookup-insert_self,
}
use ferricstore_go.Frame.Header.{Frame}
use ferricstore_go.Frame.Response.{DecodeMode, ResponseError, Response}
use ferricstore_go.Frame.Assembler.{
  chunk_key_eq, ChunkState, Assembler, flatten, content, compact, append_response_chunk, key_of,
  more_chunks, Opened, single, chunked, refused, open_state, check_frame, check_limits, collect,
  merge_flags, add_single, store, add_opened, add_chunk, add, new_assembler,
}

abbrev pub IsCounted : ChunkState → Type 0
IsCounted s = s.bytes ≡ length (content s)

pub record Inv (a : Assembler) : Type 0 where
  pub unique : Unique a.chunks
  pub counted : AllValues IsCounted a.chunks
  pub all_bytes : a.buffered_bytes ≡ total (λ s. s.bytes) a.chunks
  pub all_frames : a.buffered_frames ≡ total (λ s. s.frames) a.chunks
  pub within_bytes : a.buffered_bytes ≤ a.max_bytes
  pub within_frames : a.buffered_frames ≤ a.max_frames

pub new_assembler-Inv : (max_bytes max_frames : ℕ) → Inv (new_assembler max_bytes max_frames)
unfolding new_assembler
new_assembler-Inv b f = record {
  unique = tt;
  counted = tt;
  all_bytes = refl;
  all_frames = refl;
  within_bytes = omega arith;
  within_frames = omega arith;
}

flatten-snoc : (ps : List Bytes) (b : Bytes) → flatten (ps ++ (b ∷ [])) ≡ flatten ps ++ b
flatten-snoc [] b = append-nil b
flatten-snoc (p ∷ ps) b = ap (λ t. p ++ t) (flatten-snoc ps b) ∙ sym (append_assoc p (flatten ps) b)

-- A collected chunk stands behind the bytes collected before, whether or not they are compacted.
pub collect-content :
    (a : Assembler) (s t : ChunkState) (f : Frame)
    → collect a s f ≡ ok t
    → (content t ≡ content s ++ f.body)
      × (t.bytes ≡ s.bytes + length f.body)
      × (t.frames ≡ s.frames + 1)
      × (t.first ≡ s.first)
      × (t.decode_mode ≡ s.decode_mode)
unfolding collect append_response_chunk compact
collect-content a s t f e = ground (arith, flatten-snoc s.parts f.body)

-- The state that a chunk goes into: the one in the map, or an empty one.
abbrev pub IsOpen : Assembler → Frame → ChunkState → Type 0
IsOpen a f s =
    (weight_at (λ t. t.bytes) (lookup (key_of f) a.chunks) ≡ s.bytes)
    × (weight_at (λ t. t.frames) (lookup (key_of f) a.chunks) ≡ s.frames)
    × IsCounted s

-- A chunk goes into a new, empty state or into the one that the map holds.
pub opened_cases :
    (a : Assembler) (f : Frame) (mode : DecodeMode) (s : ChunkState)
    → open_state a f mode ≡ chunked s
    → ((lookup (key_of f) a.chunks ≡ none) × (s.bytes ≡ 0) × (s.frames ≡ 0) × (content s ≡ []))
      ⊎ (lookup (key_of f) a.chunks ≡ some s)
unfolding open_state
opened_cases a f mode s e = ground arith

opened-IsOpen :
    (a : Assembler) (f : Frame) (mode : DecodeMode) (s : ChunkState)
    → Inv a
    → open_state a f mode ≡ chunked s
    → IsOpen a f s
opened-IsOpen a f mode s h e = elim (opened_cases a f mode s e) [
  | inl (absent, b, n, c) ↦ rw absent (sym b, sym n, b ∙ sym (ap length c))
  | inr found ↦
      rw found (refl, refl, AllValues-lookup IsCounted (key_of f) s a.chunks h.counted found)
]

kept-Inv :
    (a : Assembler) (f : Frame) (s : ChunkState)
    → Inv a
    → IsOpen a f s
    → Inv (record a { chunks = insert (key_of f) s a.chunks })
kept-Inv a f s h o = record {
  unique = insert-Unique (key_of f) s a.chunks h.unique;
  counted = AllValues-insert IsCounted (key_of f) s a.chunks o.2 h.counted;
  all_bytes =
      omega
        (arith, h.all_bytes, o.0, total-insert (λ (t : ChunkState). t.bytes) (key_of f) s a.chunks);
  all_frames =
      omega (
        arith,
        h.all_frames,
        o.1,
        total-insert (λ (t : ChunkState). t.frames) (key_of f) s a.chunks,
      );
  within_bytes = h.within_bytes;
  within_frames = h.within_frames;
}

-- Merging the flags leaves the counts and the bytes alone.
merged-IsOpen :
    (a : Assembler) (f : Frame) (s : ChunkState) → IsOpen a f s → IsOpen a f (merge_flags s f)
unfolding merge_flags
merged-IsOpen a f s o = o

pub check_limits-none :
    (a : Assembler) (s : ChunkState) (f : Frame)
    → check_limits a s f ≡ none
    → (s.bytes + length f.body ≤ a.max_bytes)
      × (s.frames < a.max_frames)
      × (a.buffered_bytes + length f.body ≤ a.max_bytes)
      × (a.buffered_frames < a.max_frames)
unfolding check_limits
check_limits-none a s f e = ground arith

-- Below the limits no chunk is refused: the capacity check repeats one that has passed.
pub collect-ok :
    (a : Assembler) (s : ChunkState) (f : Frame) (e : ResponseError)
    → IsCounted s
    → check_limits a s f ≡ none
    → collect a s f ≢ err e
unfolding collect append_response_chunk
collect-ok a s f e c l r = ground (arith, check_limits-none a s f l)

module _ {V : Type 0}
    (decode : Frame → Bytes → ℕ → DecodeMode → Result ResponseError (Response V)) where
  store-Inv :
      (a : Assembler) (s t : ChunkState) (f : Frame)
      → Inv a
      → IsOpen a f s
      → check_limits a s f ≡ none
      → collect a s f ≡ ok t
      → Inv (store decode a t f).0
  unfolding store
  store-Inv a s t f h o l e = elim (Bool-cases (more_chunks f)) [
    | inl more ↦ rw more stored
    | inr last ↦ rw last (record {
      unique = delete-Unique (key_of f) (insert (key_of f) t a.chunks) stored.unique;
      counted = AllValues-delete IsCounted (key_of f) (insert (key_of f) t a.chunks) stored.counted;
      all_bytes = omega (arith, stored.all_bytes, taken (λ u. u.bytes));
      all_frames = omega (arith, stored.all_frames, taken (λ u. u.frames));
      within_bytes = omega (arith, stored.within_bytes);
      within_frames = omega (arith, stored.within_frames);
    })
  ]
    where
      c :
          (content t ≡ content s ++ f.body)
          × (t.bytes ≡ s.bytes + length f.body)
          × (t.frames ≡ s.frames + 1)
          × (t.first ≡ s.first)
          × (t.decode_mode ≡ s.decode_mode)
      c = collect-content a s t f e

      fits :
          (s.bytes + length f.body ≤ a.max_bytes)
          × (s.frames < a.max_frames)
          × (a.buffered_bytes + length f.body ≤ a.max_bytes)
          × (a.buffered_frames < a.max_frames)
      fits = check_limits-none a s f l

      counts : IsCounted t
      counts = c.1 ∙ omega (arith, o.2, ap length c.0, length-append (content s) f.body)

      stored : Inv (record a {
        chunks = insert (key_of f) t a.chunks;
        buffered_bytes = a.buffered_bytes + length f.body;
        buffered_frames = a.buffered_frames + 1;
      })
      stored = record {
        unique = insert-Unique (key_of f) t a.chunks h.unique;
        counted = AllValues-insert IsCounted (key_of f) t a.chunks counts h.counted;
        all_bytes = omega (
          arith,
          h.all_bytes,
          o.0,
          c.1,
          total-insert (λ (t : ChunkState). t.bytes) (key_of f) t a.chunks,
        );
        all_frames = omega (
          arith,
          h.all_frames,
          o.1,
          c.2,
          total-insert (λ (t : ChunkState). t.frames) (key_of f) t a.chunks,
        );
        within_bytes = fits.2;
        within_frames = omega (arith, fits.3);
      }

      taken :
          (w : ChunkState → ℕ)
          → total w (delete (key_of f) (insert (key_of f) t a.chunks)) + w t
            ≡ total w (insert (key_of f) t a.chunks)
      taken w =
          let inserted = insert (key_of f) t a.chunks in
          rw (lookup-insert_self (key_of f) t a.chunks) at
            (total-delete w (key_of f) inserted stored.unique)

  add_chunk-Inv :
      (a : Assembler) (s : ChunkState) (f : Frame)
      → Inv a
      → IsOpen a f s
      → Inv (add_chunk decode a s f).0
  unfolding add_chunk
  add_chunk-Inv a s f h o = elim (Option-cases (check_limits a (merge_flags s f) f)) [
    | inr (e, bad) ↦ rw (bad, add_chunk) (kept-Inv a f (merge_flags s f) h (merged-IsOpen a f s o))
    | inl good ↦ elim (Result-cases (collect a (merge_flags s f) f)) [
      | inl (t, c) ↦
          rw (good, c, add_chunk)
            (store-Inv a (merge_flags s f) t f h (merged-IsOpen a f s o) good c)
      | inr (e, c) ↦ absurd (collect-ok a (merge_flags s f) f e (merged-IsOpen a f s o).2 good c)
    ]
  ]

  pub add_single-same :
      (a : Assembler) (f : Frame) (mode : DecodeMode) → (add_single decode a f mode).0 ≡ a
  unfolding add_single
  add_single-same a f mode = ground arith

  opened-Inv :
      (a : Assembler) (f : Frame) (mode : DecodeMode) (o : Opened)
      → Inv a
      → open_state a f mode ≡ o
      → Inv (add_opened decode a f mode o).0
  unfolding add_opened
  opened-Inv a f mode single h e = rw (add_single-same a f mode) h
  opened-Inv a f mode (refused x) h e = h
  opened-Inv a f mode (chunked s) h e = add_chunk-Inv a s f h (opened-IsOpen a f mode s h e)

  -- Every frame keeps the invariant, whether it is taken in, completes a response or is refused.
  pub add-Inv :
      (a : Assembler) (f : Frame) (mode : DecodeMode) → Inv a → Inv (add decode a f mode).0
  unfolding add
  add-Inv a f mode h = elim (Option-cases (check_frame a f)) [
    | inr (e, bad) ↦ rw (bad, add) h
    | inl good ↦ rw (good, add) (opened-Inv a f mode (open_state a f mode) h refl)
  ]

-- ===== src/Frame/Assembler/Reassembly.antt =====
-- Chunks of a response are put together in the order of arrival, whatever else arrives between them.
use ferricstore_go.Base.{
  ℕ, ◌+◌, ◌-◌, ◌≡◌, refl, subst, ap, sym, ◌∙◌, List, [], ◌∷◌, ◌++◌, length, append_assoc,
  append-nil, true, false, Option, none, some, Option-cases, Bool-cases, inl, inr, Result,
  Result-cases, ok, err, ltb, leb, if◌then◌else◌, arith,
}
use ferricstore_go.Base.Bytes.{Bytes}
use ferricstore_go.Base.Dict.{lookup, insert, delete, lookup-insert_self, lookup-delete_self}
use ferricstore_go.Frame.Header.{Frame}
use ferricstore_go.Frame.Response.{DecodeMode, ResponseError, Response}
use ferricstore_go.Frame.Assembler.{
  ChunkKey, same_key, same_key_iff, chunk_key_eq, ChunkState, Assembler, content, key_of,
  more_chunks, Opened, single, chunked, refused, open_state, check_frame, check_limits, collect,
  merge_flags, Reply, finish, add_single, store, add_opened, add_chunk, add,
}
use ferricstore_go.Frame.Assembler.Others.{add-others}
use ferricstore_go.Frame.Assembler.Invariant.{opened_cases, collect-content}

-- What the assembler has of the response under a key.
abbrev pub content_of : Option ChunkState → Bytes
content_of none = []
content_of (some s) = content s

abbrev pub collected : ChunkKey → Assembler → Bytes
collected k a = content_of (lookup k a.chunks)

opened-collected :
    (a : Assembler) (f : Frame) (mode : DecodeMode) (s : ChunkState)
    → open_state a f mode ≡ chunked s
    → collected (key_of f) a ≡ content s
opened-collected a f mode s e = elim (opened_cases a f mode s e) [
  | inl (absent, b, n, c) ↦ rw (absent, c)
  | inr found ↦ rw found
]

merged-content :
    (a : Assembler) (s t : ChunkState) (f : Frame)
    → collect a (merge_flags s f) f ≡ ok t
    → content t ≡ content s ++ f.body
unfolding merge_flags
merged-content a s t f c = (collect-content a (merge_flags s f) t f c).0

open_state-single :
    (a : Assembler) (f : Frame) (mode : DecodeMode)
    → open_state a f mode ≡ single
    → (lookup (key_of f) a.chunks ≡ none) × (more_chunks f ≡ false)
unfolding open_state
open_state-single a f mode e = ground arith

module _ {V : Type 0}
    (decode : Frame → Bytes → ℕ → DecodeMode → Result ResponseError (Response V)) where
  -- What a reply says of the frame that it answers: a chunk is kept behind what came before, or the
  -- whole is decoded and forgotten.
  abbrev pub Answers : Frame → Bytes → Assembler → Reply decode → Type 0
  Answers f whole a' (err e) = Unit {0}
  Answers f whole a' (ok none) = (more_chunks f ≡ true) × (collected (key_of f) a' ≡ whole)
  Answers f whole a' (ok (some r)) =
      (more_chunks f ≡ false)
      × (lookup (key_of f) a'.chunks ≡ none)
      × ((first : Frame) × (flags : ℕ) × (mode : DecodeMode) × (decode first whole flags mode
            ≡ ok r))

  finish-Answers :
      (f first : Frame) (whole : Bytes) (flags : ℕ) (mode : DecodeMode) (a' : Assembler)
      → more_chunks f ≡ false
      → lookup (key_of f) a'.chunks ≡ none
      → Answers f whole a' (finish decode (decode first whole flags mode))
  finish-Answers f first whole flags mode a' last gone = go (decode first whole flags mode) refl
    where
      go :
          (r : Result ResponseError (Response V))
          → decode first whole flags mode ≡ r
          → Answers f whole a' (finish decode r)
      go (ok r) e = (last, gone, (first, flags, mode, e))
      go (err e) _ = tt

  store-Answers :
      (a : Assembler) (t : ChunkState) (f : Frame)
      → Answers f (content t) (store decode a t f).0 (store decode a t f).1
  unfolding store
  store-Answers a t f = elim (Bool-cases (more_chunks f)) [
    | inl more ↦ rw more (more, ap content_of (lookup-insert_self (key_of f) t a.chunks))
    | inr last ↦ rw last (
        finish-Answers f t.first (content t) _ t.decode_mode
          (record a {
            chunks = delete (key_of f) (insert (key_of f) t a.chunks);
            buffered_bytes = a.buffered_bytes + length f.body - t.bytes;
            buffered_frames = a.buffered_frames + 1 - t.frames;
          })
          last (lookup-delete_self (key_of f) (insert (key_of f) t a.chunks)))
  ]

  add_chunk-Answers :
      (a : Assembler) (s : ChunkState) (f : Frame)
      → Answers f (content s ++ f.body) (add_chunk decode a s f).0 (add_chunk decode a s f).1
  unfolding add_chunk
  add_chunk-Answers a s f = elim (Option-cases (check_limits a (merge_flags s f) f)) [
    | inr (e, bad) ↦ rw (bad, add_chunk) tt
    | inl good ↦ elim (Result-cases (collect a (merge_flags s f) f)) [
      | inr (e, c) ↦ rw (good, c, add_chunk) tt
      | inl (t, c) ↦ rw (good, c, add_chunk, ← merged-content a s t f c) (store-Answers a t f)
    ]
  ]

  add_single-Answers :
      (a : Assembler) (f : Frame) (mode : DecodeMode)
      → lookup (key_of f) a.chunks ≡ none
      → more_chunks f ≡ false
      → Answers f f.body (add_single decode a f mode).0 (add_single decode a f mode).1
  unfolding add_single
  add_single-Answers a f mode absent last =
      elim (Bool-cases (ltb a.max_bytes (a.buffered_bytes + length f.body))) [
        | inl full ↦ rw full tt
        | inr room ↦ elim (Bool-cases (leb a.max_frames a.buffered_frames)) [
          | inl full ↦ rw (room, full) tt
          | inr free ↦ rw (room, free) (finish-Answers f f f.body f.flags mode a last absent)
        ]
      ]

  opened-Answers :
      (a : Assembler) (f : Frame) (mode : DecodeMode) (o : Opened)
      → open_state a f mode ≡ o
      → Answers f
          (collected (key_of f) a ++ f.body)
          (add_opened decode a f mode o).0
          (add_opened decode a f mode o).1
  unfolding add_opened
  opened-Answers a f mode single e =
      let (absent, last) = open_state-single a f mode e in
      rw absent (add_single-Answers a f mode absent last)
  opened-Answers a f mode (refused x) e = tt
  opened-Answers a f mode (chunked s) e =
      rw (opened-collected a f mode s e) (add_chunk-Answers a s f)

  -- A reply to a chunk that is not the last leaves the chunk's body behind what was held under its key;
  -- a response decodes from all of that, and the key is free again.
  pub add-Answers :
      (a : Assembler) (f : Frame) (mode : DecodeMode)
      → Answers f (collected (key_of f) a ++ f.body) (add decode a f mode).0 (add decode a f mode).1
  unfolding add
  add-Answers a f mode = elim (Option-cases (check_frame a f)) [
    | inr (e, bad) ↦ rw (bad, add) tt
    | inl good ↦ rw (good, add) (opened-Answers a f mode (open_state a f mode) refl)
  ]

  -- A list of frames, as the reader hands them to the assembler.
  unfoldable pub run : Assembler → List (Frame × DecodeMode) → Assembler
  run a [] = a
  run a ((f, mode) ∷ fs) = run (add decode a f mode).0 fs

  -- Every chunk under the key is taken in, and none is the last.
  abbrev pub TakesAll : ChunkKey → Assembler → List (Frame × DecodeMode) → Type 0
  TakesAll k a [] = Unit {0}
  TakesAll k a ((f, mode) ∷ fs) =
      (same_key (key_of f) k ≡ true → (add decode a f mode).1 ≡ ok none)
      × TakesAll k (add decode a f mode).0 fs

  -- The bodies of the frames under the key, in their order.
  abbrev pub bodies : ChunkKey → List (Frame × DecodeMode) → Bytes
  bodies k [] = []
  bodies k ((f, mode) ∷ fs) = (if same_key (key_of f) k then f.body else []) ++ bodies k fs

  taken-collected :
      (a : Assembler) (f : Frame) (mode : DecodeMode) (k : ChunkKey)
      → same_key (key_of f) k ≡ true
      → (add decode a f mode).1 ≡ ok none
      → collected k (add decode a f mode).0 ≡ collected k a ++ f.body
  taken-collected a f mode k same reply =
      subst (λ j. collected j (add decode a f mode).0 ≡ collected j a ++ f.body)
        ((same_key_iff (key_of f) k).0 same)
        (subst (Answers f (collected (key_of f) a ++ f.body) (add decode a f mode).0) reply
          (add-Answers a f mode)).1

  -- Frames of many responses may come interleaved: what is held under a key is what was held before
  -- with the bodies of that key's frames behind it, in their order, if each of them was taken in as
  -- a chunk that is not the last.
  pub run-collected :
      (k : ChunkKey) (a : Assembler) (fs : List (Frame × DecodeMode))
      → TakesAll k a fs
      → collected k (run a fs) ≡ collected k a ++ bodies k fs
  unfolding run
  run-collected k a [] h = sym (append-nil (collected k a))
  run-collected k a ((f, mode) ∷ fs) (h, hs) = elim (Bool-cases (same_key (key_of f) k)) [
    | inl same ↦ rw same (
        run-collected k (add decode a f mode).0 fs hs
        ∙ ap (λ b. b ++ bodies k fs) (taken-collected a f mode k same (h same))
        ∙ append_assoc (collected k a) f.body (bodies k fs))
    | inr other ↦ rw other (
        run-collected k (add decode a f mode).0 fs hs
        ∙ ap (λ o. content_of o ++ bodies k fs) (add-others decode f k other a mode))
  ]

  -- The response of the last chunk decodes from what was held under its key, the bodies of the
  -- frames that came under it since, in their order, and the body of the last frame.
  pub run-reassembles :
      (k : ChunkKey) (a : Assembler) (fs : List (Frame × DecodeMode)) (f : Frame)
      (mode : DecodeMode) (r : Response V)
      → TakesAll k a fs
      → same_key (key_of f) k ≡ true
      → (add decode (run a fs) f mode).1 ≡ ok (some r)
      → (first : Frame) × (flags : ℕ) × (m : DecodeMode) × (decode first
            ((collected k a ++ bodies k fs) ++ f.body)
            flags
            m
          ≡ ok r)
  run-reassembles k a fs f mode r h same reply =
      let (_, _, (first, flags, m, e)) =
        subst
          (Answers f (collected (key_of f) (run a fs) ++ f.body) (add decode (run a fs) f mode).0)
          reply (add-Answers (run a fs) f mode) in
      (first, flags, m, rw (← run-collected k a fs h, ← (same_key_iff (key_of f) k).0 same) e)

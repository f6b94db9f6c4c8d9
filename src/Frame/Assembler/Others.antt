-- ===== src/Frame/Assembler/Others.antt =====
-- A frame leaves the responses under other keys alone.
use ferricstore_go.Base.{
  ℕ, ◌≡◌, refl, ap, ◌∙◌, List, false, Option-cases, Bool-cases, inl, inr, Result, Result-cases,
}
use ferricstore_go.Base.Bytes.{Bytes}
use ferricstore_go.Base.Dict.{lookup, insert, delete, lookup-insert, lookup-delete}
use ferricstore_go.Frame.Header.{Frame}
use ferricstore_go.Frame.Response.{DecodeMode, ResponseError, Response}
use ferricstore_go.Frame.Assembler.{
  ChunkKey, same_key, chunk_key_eq, ChunkState, Assembler, key_of, more_chunks, Opened, single,
  chunked, refused, open_state, check_frame, check_limits, collect, merge_flags, store, add_opened,
  add_chunk, add,
}
use ferricstore_go.Frame.Assembler.Invariant.{add_single-same}

module _ {V : Type 0}
    (decode : Frame → Bytes → ℕ → DecodeMode → Result ResponseError (Response V)) where
  module _ (f : Frame) (j : ChunkKey) (other : same_key (key_of f) j ≡ false) where
    inserted-others :
        (s : ChunkState) (m : List (ChunkKey × ChunkState))
        → lookup j (insert (key_of f) s m) ≡ lookup j m
    inserted-others s m = rw (lookup-insert (key_of f) j s m, other)

    deleted-others :
        (m : List (ChunkKey × ChunkState)) → lookup j (delete (key_of f) m) ≡ lookup j m
    deleted-others m = rw (lookup-delete (key_of f) j m, other)

    store-others :
        (a : Assembler) (t : ChunkState)
        → lookup j (store decode a t f).0.chunks ≡ lookup j a.chunks
    unfolding store
    store-others a t = elim (Bool-cases (more_chunks f)) [
      | inl more ↦ rw more (inserted-others t a.chunks)
      | inr last ↦
          rw last (deleted-others (insert (key_of f) t a.chunks) ∙ inserted-others t a.chunks)
    ]

    add_chunk-others :
        (a : Assembler) (s : ChunkState)
        → lookup j (add_chunk decode a s f).0.chunks ≡ lookup j a.chunks
    unfolding add_chunk
    add_chunk-others a s = elim (Option-cases (check_limits a (merge_flags s f) f)) [
      | inr (e, bad) ↦ rw (bad, add_chunk) (inserted-others (merge_flags s f) a.chunks)
      | inl good ↦ elim (Result-cases (collect a (merge_flags s f) f)) [
        | inr (e, c) ↦ rw (good, c, add_chunk) (inserted-others _ a.chunks)
        | inl (t, c) ↦ rw (good, c, add_chunk) (store-others a t)
      ]
    ]

    opened-others :
        (a : Assembler) (mode : DecodeMode) (o : Opened)
        → lookup j (add_opened decode a f mode o).0.chunks ≡ lookup j a.chunks
    unfolding add_opened
    opened-others a mode single =
        ap (λ (b : Assembler). lookup j b.chunks) (add_single-same decode a f mode)
    opened-others a mode (refused x) = refl
    opened-others a mode (chunked s) = add_chunk-others a s

    -- Under any other key nothing changes, whatever becomes of the frame.
    pub add-others :
        (a : Assembler) (mode : DecodeMode)
        → lookup j (add decode a f mode).0.chunks ≡ lookup j a.chunks
    unfolding add
    add-others a mode = elim (Option-cases (check_frame a f)) [
      | inr (e, bad) ↦ rw (bad, add) refl
      | inl good ↦ rw (good, add) (opened-others a mode (open_state a f mode))
    ]

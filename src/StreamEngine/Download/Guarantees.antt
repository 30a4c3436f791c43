-- ===== src/StreamEngine/Download/Guarantees.antt =====
-- packages/stream-engine/src/download.ts: what `getByteRange` gives under what its sources give.
use ddrive.Prelude.{
  ℕ, ◌+◌, ◌*◌, ◌≤◌, ◌<◌, ◌≡◌, refl, ◌⊎◌, inl, inr, List, [], Option, none, some, String, arith,
  length, All, str_eq_refl,
}
use ddrive.Prelude.Slices.{slice}
use ddrive.Prelude.Tables.{lookup-insert}
use ddrive.Processing.Chunker.{Bytes}
use ddrive.Storage.Rows.{Result, ok, err}
use ddrive.StreamEngine.Download.{
  StreamConfig, Engine, ChunkSource, Event, register, get_in, get_index, get_byte_range,
}
use ddrive.StreamEngine.Download.Cache.{IsHonest, IsHonestEvent, Coherent}
use ddrive.StreamEngine.Download.Assembly.{chunk_of}
use ddrive.StreamEngine.Download.Ranges.{Outcome, get_byte_range-Outcome}

-- A chunk that decrypts is its part of the file.
abbrev pub IsOwn : StreamConfig → Bytes → ℕ → Result Bytes → Type 0
IsOwn stream plain ci r = (b : Bytes) → r ≡ ok b → b ≡ chunk_of stream plain ci

-- Each chunk that the file has is delivered.
abbrev pub IsDelivered : StreamConfig → Bytes → ℕ → Result Bytes → Type 0
IsDelivered stream plain ci r =
    ci * stream.chunk_size < length plain → r ≡ ok (chunk_of stream plain ci)

-- A file that has just been registered.
pub register-Coherent :
    (subtle_decrypt : String → Bytes → Bytes → Option Bytes) (stream : StreamConfig)
    (Good : ℕ → Result Bytes → Type 0) (e : Engine)
    → Coherent subtle_decrypt stream.file_id stream Good (register e stream)
unfolding register get_index
register-Coherent subtle_decrypt stream Good e = record {
  registered =
      rw (lookup-insert stream.file_id stream.file_id stream e.streams, str_eq_refl stream.file_id);
  cached = λ ci b got.
      let bad : none ≡ some b =
        rw
          (
            get_in,
            lookup-insert stream.file_id stream.file_id [] e.chunk_cache,
            str_eq_refl stream.file_id,
          )
          at got in
      cc;
  pending = λ ci r got.
      let bad : none ≡ some r =
        rw
          (
            get_in,
            lookup-insert stream.file_id stream.file_id [] e.fetching,
            str_eq_refl stream.file_id,
          )
          at got in
      cc;
}

module _ (subtle_decrypt : String → Bytes → Bytes → Option Bytes) (file : String)
    (stream : StreamConfig) (plain : Bytes) (source : ChunkSource) (meanwhile : ℕ → List Event)
    (start end : ℕ) where
  -- For a positive chunk size and a range inside a registered file, whatever other calls, arrivals and
  -- evictions happen while chunks are awaited: if what sources give of the file, and what the engine
  -- holds of it, decrypts to its own chunks or not at all, `getByteRange` gives exactly the bytes from
  -- `start` to `end`, or fails.
  pub get_byte_range-own :
      (e : Engine)
      → start ≤ end
      → end < length plain
      → 0 < stream.chunk_size
      → IsHonest subtle_decrypt file stream (IsOwn stream plain) source
      → ((ci : ℕ)
          → All (IsHonestEvent subtle_decrypt file stream (IsOwn stream plain)) (meanwhile ci))
      → Coherent subtle_decrypt file stream (IsOwn stream plain) e
      → ((get_byte_range subtle_decrypt e file start end source meanwhile).1
          ≡ ok (slice start (end + 1) plain))
        ⊎ ((why : String) × ((get_byte_range subtle_decrypt e file start end source meanwhile).1
              ≡ err why))
  get_byte_range-own e ordered inside pos honest others c =
      elim (get_byte_range-Outcome subtle_decrypt file stream plain (IsOwn stream plain) Unit source
        meanwhile start end sound honest others ordered inside e c pos) [
          | inl given ↦ inl given
          | inr (failed, may) ↦ inr failed
        ]
    where
      sound :
          (ci : ℕ) (r : Result Bytes)
          → ci * stream.chunk_size ≤ end
          → IsOwn stream plain ci r
          → Outcome Unit (chunk_of stream plain ci) r
      sound ci (ok b) h own = let same = own b refl in inl (rw same)
      sound ci (err why) h own = inr ((why, refl), tt)

  -- For a positive chunk size and a range inside a registered file, whatever other calls, arrivals and
  -- evictions happen while chunks are awaited: if the sources deliver every chunk of the file, and what
  -- the engine holds of it was so delivered, `getByteRange` gives exactly the bytes from `start` to `end`.
  pub get_byte_range-delivers :
      (e : Engine)
      → start ≤ end
      → end < length plain
      → 0 < stream.chunk_size
      → IsHonest subtle_decrypt file stream (IsDelivered stream plain) source
      → ((ci : ℕ)
          → All
              (IsHonestEvent subtle_decrypt file stream (IsDelivered stream plain))
              (meanwhile ci))
      → Coherent subtle_decrypt file stream (IsDelivered stream plain) e
      → (get_byte_range subtle_decrypt e file start end source meanwhile).1
        ≡ ok (slice start (end + 1) plain)
  get_byte_range-delivers e ordered inside pos honest others c =
      elim (get_byte_range-Outcome subtle_decrypt file stream plain (IsDelivered stream plain) ⊥
        source meanwhile start end (λ ci r h delivered. inl (delivered (omega arith))) honest others
        ordered inside e c pos) [ inl given ↦ given | inr (failed, never) ↦ absurd never ]

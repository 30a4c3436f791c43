-- ===== src/StreamEngine/Download.antt =====
-- packages/stream-engine/src/download.ts. `crypto.subtle.decrypt` is a parameter. A promise is what
-- it settles to; what else happens while the engine awaits one is a list of events.
pub mod Maps
pub mod Cache
pub mod Assembly
pub mod Ranges
pub mod Guarantees
use Prim.Native.String.{◌++◌ as concat}
use ddrive.Prelude.{
  ℕ, zero, suc, ◌+◌, ◌-◌, ◌*◌, ◌/◌, min, max, Bool, true, false, not, ◌&&◌, List, [], ◌∷◌, Option,
  none, some, String, ltb, ◌==◌, if◌then◌else◌, filter, length, take, drop, replicate,
}
use ddrive.Prelude.Slices.{slice}
use ddrive.Prelude.Tables.{Map, lookup, insert, erase}
use ddrive.Processing.Chunker.{Bytes, set_at}
use ddrive.Storage.Rows.{Result, ok, err}

pub record StreamConfig : Type 0 where
  pub file_id : String
  pub fek : String
  pub chunk_size : ℕ
  pub chunk_count : ℕ
  pub total_size : ℕ
  pub mime_type : String
  pub chunks_ahead : ℕ
  pub chunks_behind : ℕ

-- A `Map` with numbers for keys, whose order is not observed.
abbrev pub Indexed {ℓ} : Type ℓ → Type ℓ
Indexed A = List (ℕ × A)

module _ {ℓ} {A : Type ℓ} where
  unfoldable pub get_index : ℕ → Indexed A → Option A
  get_index k [] = none
  get_index k ((j, a) ∷ m) = if j == k then some a else get_index k m

  unfoldable pub delete_index : ℕ → Indexed A → Indexed A
  delete_index k m = filter (λ entry. not (entry.0 == k)) m

  abbrev pub set_index : ℕ → A → Indexed A → Indexed A
  set_index k a m = (k, a) ∷ delete_index k m

-- `DownloadEngine`.
pub record Engine : Type 0 where
  pub streams : Map StreamConfig
  pub chunk_cache : Map (Indexed Bytes)
  pub fetching : Map (Indexed (Result Bytes))

unfoldable pub register : Engine → StreamConfig → Engine
register e cfg = record {
  streams = insert cfg.file_id cfg e.streams;
  chunk_cache = insert cfg.file_id [] e.chunk_cache;
  fetching = insert cfg.file_id [] e.fetching;
}

unfoldable pub unregister : Engine → String → Engine
unregister e file_id = record {
  streams = erase file_id e.streams;
  chunk_cache = erase file_id e.chunk_cache;
  fetching = erase file_id e.fetching;
}

-- `cache?.set(chunkIndex, decrypted)`, and the like for `fetching`.
abbrev pub set_in {ℓ} : {A : Type ℓ} → String → ℕ → A → Map (Indexed A) → Map (Indexed A)
set_in file_id ci a maps = elim (lookup file_id maps) [
  | none ↦ maps
  | some m ↦ insert file_id (set_index ci a m) maps
]

abbrev pub delete_in {ℓ} : {A : Type ℓ} → String → ℕ → Map (Indexed A) → Map (Indexed A)
delete_in file_id ci maps = elim (lookup file_id maps) [
  | none ↦ maps
  | some m ↦ insert file_id (delete_index ci m) maps
]

-- `maps.get(fileId)?.get(chunkIndex)`.
abbrev pub get_in {ℓ} : {A : Type ℓ} → String → ℕ → Map (Indexed A) → Option A
get_in file_id ci maps = elim (lookup file_id maps) [ none ↦ none | some m ↦ get_index ci m ]

-- `ChunkSource.fetch`, as what its promise settles to.
abbrev pub ChunkSource : Type 0
ChunkSource = String → ℕ → Result Bytes

abbrev not_registered : String → String
not_registered file_id = concat "Stream " (concat file_id " not registered")

-- What happens elsewhere while the engine awaits a chunk.
pub data Event : Type 0 where
  -- another call of `getDecryptedChunk` begins
  begins : ChunkSource → String → ℕ → Event
  -- the fetch of a chunk settles
  settles : String → ℕ → Event
  -- another range moves the window of the cache
  evicts : String → ℕ → Event

module _ (subtle_decrypt : String → Bytes → Bytes → Option Bytes) where
  decrypt : Bytes → String → Result Bytes
  decrypt encrypted fek = elim (subtle_decrypt fek (take 12 encrypted) (drop 12 encrypted)) [
    | none ↦ err "OperationError"
    | some plaintext ↦ ok plaintext
  ]

  unfoldable pub fetch_and_decrypt : String → StreamConfig → ℕ → ChunkSource → Result Bytes
  unfolding decrypt
  fetch_and_decrypt file_id stream ci source = elim (source file_id ci) [
    | err e ↦ err e
    | ok encrypted ↦ decrypt encrypted stream.fek
  ]

  -- `getDecryptedChunk` up to its `await`: the engine, and what the promise settles to.
  begin_chunk : Engine → String → ℕ → ChunkSource → Engine × Result Bytes
  begin_chunk e file_id ci source = elim (get_in file_id ci e.chunk_cache) [
    | some cached ↦ (e, ok cached)
    | none ↦ elim (get_in file_id ci e.fetching) [
      | some promise ↦ (e, promise)
      | none ↦ elim (lookup file_id e.streams) [
        | none ↦ (e, err (not_registered file_id))
        | some stream ↦
            let promise = fetch_and_decrypt file_id stream ci source in
            (record e { fetching = set_in file_id ci promise e.fetching }, promise)
      ]
    ]
  ]

  -- Behind the `await`, in the call that began the fetch.
  settle_chunk : Engine → String → ℕ → Engine
  settle_chunk e file_id ci = elim (get_in file_id ci e.fetching) [
    | none ↦ e
    | some (err why) ↦ record e { fetching = delete_in file_id ci e.fetching }
    | some (ok decrypted) ↦ record e {
      chunk_cache = set_in file_id ci decrypted e.chunk_cache;
      fetching = delete_in file_id ci e.fetching;
    }
  ]

  pub schedule_eviction : Engine → String → ℕ → Engine
  schedule_eviction e file_id current = elim (lookup file_id e.streams) [
    | none ↦ e
    | some stream ↦ elim (lookup file_id e.chunk_cache) [
      | none ↦ e
      | some cache ↦
          let kept = filter (λ entry. not (ltb (entry.0 + stream.chunks_behind) current)) cache in
          record e { chunk_cache = insert file_id kept e.chunk_cache }
    ]
  ]

  -- The loop of `schedulePrefetch` from chunk `ci` on, with `left` rounds to go.
  pub prefetch_from : Engine → String → ChunkSource → ℕ → ℕ → Engine
  prefetch_from e file_id source ci zero = e
  prefetch_from e file_id source ci (suc left) =
      prefetch_from (begin_chunk e file_id ci source).0 file_id source (ci + 1) left

  pub schedule_prefetch : Engine → String → ℕ → ChunkSource → Engine
  schedule_prefetch e file_id current source = elim (lookup file_id e.streams) [
    | none ↦ e
    | some stream ↦
        let limit = min (current + stream.chunks_ahead + 1) stream.chunk_count in
        prefetch_from e file_id source (current + 1) (limit - (current + 1))
  ]

  happen : Engine → Event → Engine
  happen e (begins source file_id ci) = (begin_chunk e file_id ci source).0
  happen e (settles file_id ci) = settle_chunk e file_id ci
  happen e (evicts file_id current) = schedule_eviction e file_id current

  happen_all : Engine → List Event → Engine
  happen_all e [] = e
  happen_all e (event ∷ events) = happen_all (happen e event) events

  -- `await this.getDecryptedChunk(...)`, with what happens meanwhile.
  pub get_decrypted_chunk : Engine → String → ℕ → ChunkSource → List Event → Engine × Result Bytes
  get_decrypted_chunk e file_id ci source meanwhile =
      let (e', promise) = begin_chunk e file_id ci source in
      (settle_chunk (happen_all e' meanwhile) file_id ci, promise)

  -- The loop over the chunks, with `left` of them to go.
  pub assemble :
      String
      → ℕ
      → ℕ
      → ℕ
      → ChunkSource
      → (ℕ → List Event)
      → ℕ
      → ℕ
      → Bytes
      → ℕ
      → Engine
      → Engine × Result Bytes
  assemble file_id chunk_size start end source meanwhile ci zero result written e = (e, ok result)
  assemble file_id chunk_size start end source meanwhile ci (suc left) result written e =
      let (e', chunk) = get_decrypted_chunk e file_id ci source (meanwhile ci) in
      elim chunk [
        | err why ↦ (e', err why)
        | ok decrypted ↦
            let chunk_start = ci * chunk_size in
            let slice_start = max start chunk_start - chunk_start in
            let slice_end = min (end + 1) (chunk_start + length decrypted) - chunk_start in
            elim (if ltb slice_end slice_start
              then none
              else set_at result (slice slice_start slice_end decrypted) written) [
                | none ↦ (e', err "RangeError")
                | some result' ↦
                    assemble file_id chunk_size start end source meanwhile (ci + 1) left result'
                      (written + (slice_end - slice_start)) e'
              ]
      ]

  -- Behind the look-up of the stream.
  range_of :
      StreamConfig
      → Engine
      → String
      → ℕ
      → ℕ
      → ChunkSource
      → (ℕ → List Event)
      → Engine × Result Bytes
  range_of stream e file_id start end source meanwhile =
      let start_chunk = start / stream.chunk_size in
      let end_chunk = end / stream.chunk_size in
      let total_bytes = end + 1 - start in
      let e' =
        schedule_eviction (schedule_prefetch e file_id start_chunk source) file_id start_chunk in
      elim (start_chunk == end_chunk) [
        | true ↦
            let (e'', chunk) =
              get_decrypted_chunk e' file_id start_chunk source (meanwhile start_chunk) in
            elim chunk [
              | err why ↦ (e'', err why)
              | ok decrypted ↦
                  let offset_in_chunk = start - start_chunk * stream.chunk_size in
                  (e'', ok (slice offset_in_chunk (offset_in_chunk + total_bytes) decrypted))
            ]
        | false ↦
            assemble file_id stream.chunk_size start end source meanwhile start_chunk
              (end_chunk + 1 - start_chunk) (replicate total_bytes 0) 0 e'
      ]

  unfoldable pub get_byte_range :
      Engine → String → ℕ → ℕ → ChunkSource → (ℕ → List Event) → Engine × Result Bytes
  unfolding range_of assemble get_decrypted_chunk happen_all happen schedule_prefetch prefetch_from
      schedule_eviction settle_chunk begin_chunk fetch_and_decrypt
  get_byte_range e file_id start end source meanwhile = elim (lookup file_id e.streams) [
    | none ↦ (e, err (not_registered file_id))
    | some stream ↦ range_of stream e file_id start end source meanwhile
  ]

  -- `for (let i = 0; i < stream.chunkCount; i++)`, from chunk `ci` on.
  download_from :
      Engine → String → ChunkSource → (ℕ → List Event) → ℕ → ℕ → Engine × Result (List Bytes)
  download_from e file_id source meanwhile ci zero = (e, ok [])
  download_from e file_id source meanwhile ci (suc left) =
      let (e', chunk) = get_decrypted_chunk e file_id ci source (meanwhile ci) in
      elim chunk [
        | err why ↦ (e', err why)
        | ok decrypted ↦
            let (e'', rest) = download_from e' file_id source meanwhile (ci + 1) left in
            elim rest [ err why ↦ (e'', err why) | ok chunks ↦ (e'', ok (decrypted ∷ chunks)) ]
      ]

  unfoldable pub download_all :
      Engine → String → ChunkSource → (ℕ → List Event) → Engine × Result (List Bytes)
  unfolding download_from get_decrypted_chunk happen_all happen schedule_eviction settle_chunk
      begin_chunk fetch_and_decrypt
  download_all e file_id source meanwhile = elim (lookup file_id e.streams) [
    | none ↦ (e, err (not_registered file_id))
    | some stream ↦ download_from e file_id source meanwhile 0 stream.chunk_count
  ]

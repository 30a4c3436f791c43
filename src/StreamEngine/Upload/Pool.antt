-- ===== src/StreamEngine/Upload/Pool.antt =====
-- packages/stream-engine/src/upload.ts: `uploadChunks` and `runPool`. The workers run one at a time between
-- awaits: what one does behind an await, up to the next, is one step.
use ddrive.Prelude.{
  ℕ, zero, suc, ◌+◌, min, ◌≡◌, ◌⊎◌, Bool, true, ◌||◌, List, [], ◌∷◌, ◌++◌, Option, none, some,
  String, ltb, if◌then◌else◌, length, replicate,
}
use ddrive.Processing.Chunker.{Bytes}
use ddrive.Storage.Rows.{Result, ok, err}
use ddrive.StreamEngine.Upload.{ChunkSink, Done, encrypt, upload_with_retry}

pub record UploadProgress : Type 0 where
  pub chunk_index : ℕ
  pub uploaded_chunks : ℕ
  pub total_chunks : ℕ
  pub bytes_uploaded : ℕ
  pub total_bytes : ℕ

-- The variables of the two functions: `running` has the tasks of the workers that have not ended, and
-- `failed` the error with which `Promise.all` rejects first.
pub record Pool : Type 0 where
  pub next_idx : ℕ
  pub running : List ℕ
  pub results : List (Option Done)
  pub failed : Option String
  pub is_aborted : Bool
  pub uploaded_chunks : ℕ
  pub bytes_uploaded : ℕ
  pub progress : List UploadProgress

abbrev pub abort_error : String
abort_error = "AbortError"

-- What `uploadChunks` is called with: the bytes of the chunks, the concurrency and the retries; the
-- sink by index and bytes, the cipher, and the IV that is drawn for each chunk.
pub record Job : Type 0 where
  pub chunks : List Bytes
  pub concurrency : ℕ
  pub max_retries : Option ℕ
  pub sink : ℕ → Bytes → ChunkSink
  pub subtle_encrypt : String → Bytes → Bytes → Bytes
  pub fek : String
  pub ivs : ℕ → Bytes

-- `chunks.reduce((sum, c) => sum + c.byteLength, 0)`.
abbrev pub sum_lengths : List Bytes → ℕ
sum_lengths [] = 0
sum_lengths (c ∷ cs) = length c + sum_lengths cs

abbrev pub chunk_at : List Bytes → ℕ → Bytes
chunk_at [] i = []
chunk_at (c ∷ cs) zero = c
chunk_at (c ∷ cs) (suc i) = chunk_at cs i

-- `results[idx] = value`.
abbrev pub store_at : ℕ → Done → List (Option Done) → List (Option Done)
store_at i a [] = []
store_at zero a (x ∷ xs) = some a ∷ xs
store_at (suc i) a (x ∷ xs) = x ∷ store_at i a xs

-- A promise rejects once.
abbrev pub reject : String → Pool → Pool
reject e p = record p { failed = elim p.failed [ none ↦ some e | some first ↦ some first ] }

module _ (j : Job) where
  abbrev pub total_chunks : ℕ
  total_chunks = length j.chunks

  -- `cfg.maxRetries ?? 5`.
  abbrev pub retries : ℕ
  retries = elim j.max_retries [ none ↦ 5 | some n ↦ n ]

  -- What the upload of a chunk settles to, if it is not aborted.
  unfoldable pub upload_task : ℕ → Result Done
  upload_task i =
      (upload_with_retry (j.sink i (encrypt j.subtle_encrypt j.fek (j.ivs i) (chunk_at j.chunks i)))
        retries).0

  -- The head of a worker's loop: it throws, ends or begins the next task.
  unfoldable pub take_next : Pool → Pool
  take_next p =
      if p.is_aborted
      then reject abort_error p
      else if ltb p.next_idx total_chunks
      then record p { next_idx = p.next_idx + 1; running = p.next_idx ∷ p.running }
      else p

  unfoldable pub start_workers : ℕ → Pool → Pool
  unfolding take_next
  start_workers zero p = p
  start_workers (suc n) p = start_workers n (take_next p)

  abbrev pub worker_count : ℕ
  worker_count = min j.concurrency total_chunks

  abbrev pub empty_pool : Bool → Pool
  empty_pool aborted = record {
    next_idx = 0;
    running = [];
    results = replicate total_chunks none;
    failed = none;
    is_aborted = aborted;
    uploaded_chunks = 0;
    bytes_uploaded = 0;
    progress = [];
  }

  -- The call, up to the first await.
  unfoldable pub start : Bool → Pool
  unfolding start_workers
  start aborted = start_workers worker_count (empty_pool aborted)

  -- The counts and the call of `onProgress`.
  unfoldable pub count_chunk : ℕ → Pool → Pool
  count_chunk i p =
      let chunks = p.uploaded_chunks + 1 in
      let bytes = p.bytes_uploaded + length (chunk_at j.chunks i) in
      let report : UploadProgress = record {
        chunk_index = i;
        uploaded_chunks = chunks;
        total_chunks = total_chunks;
        bytes_uploaded = bytes;
        total_bytes = sum_lengths j.chunks;
      } in
      record p {
        uploaded_chunks = chunks;
        bytes_uploaded = bytes;
        progress = p.progress ++ report ∷ [];
      }

  -- A worker whose task has settled, with the tasks of the other workers. `onProgress` may abort the upload.
  unfoldable pub settle : ℕ → List ℕ → Result Done → Bool → Pool → Pool
  unfolding count_chunk take_next
  settle i others (err e) aborts p = reject e (record p { running = others })
  settle i others (ok a) aborts p =
      let q = count_chunk i (record p { running = others }) in
      take_next (record q { results = store_at i a q.results; is_aborted = q.is_aborted || aborts })

  -- What may happen while the workers await.
  pub data Step : Pool → Pool → Type 0 where
    settles :
        (p : Pool) (before after : List ℕ) (i : ℕ) (r : Result Done) (aborts : Bool)
        → p.running ≡ before ++ i ∷ after
        → (r ≡ upload_task i) ⊎ ((p.is_aborted ≡ true) × (r ≡ err abort_error))
        → Step p (settle i (before ++ after) r aborts p)
    is_aborted : (p : Pool) → Step p (record p { is_aborted = true })

  pub data Reaches : Pool → Type 0 where
    starts : (aborted : Bool) → Reaches (start aborted)
    next : {p q : Pool} → Reaches p → Step p q → Reaches q

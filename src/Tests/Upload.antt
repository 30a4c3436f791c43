-- ===== src/Tests/Upload.antt =====
-- packages/stream-engine/src/upload.ts with a sink that is throttled once, and uploads of several chunks.
use ddrive.Prelude.{
  ℕ, zero, suc, ◌+◌, ◌≤◌, ◌≡◌, refl, sym, [], ◌∷◌, none, false, inl, arith, length, if◌then◌else◌,
  ◌==◌,
}
use ddrive.Prelude.Texts.{codes, includes}
use ddrive.Storage.Rows.{ok, err}
use ddrive.StreamEngine.Upload.{ChunkSink, attempts_from, backoff_ms, upload_with_retry}
use ddrive.StreamEngine.Upload.Pool.{
  Pool, Job, upload_task, take_next, start_workers, start, count_chunk, settle, settles, Reaches,
  starts, next,
}
use ddrive.StreamEngine.Upload.Counting.{count, stored}
use ddrive.StreamEngine.Upload.Pooling.{settlements, Reaches-bounds, Reaches-finished}
use ddrive.StreamEngine.Upload.Streaming.{
  StreamedChunk, UploadStream, Run, begins, then_, arrives, ends, next_chunk, settled, fresh_upload,
  arrive, settle_chunk, await_all, Run-returned,
}
use ddrive.StreamEngine.Upload.Streaming
use ddrive.StreamEngine.Upload.Retries.{Tried, upload_with_retry-Tried}

abbrev throttled_once : ChunkSink
throttled_once zero = err "HTTP 429"
throttled_once (suc attempt) = ok tt

second_attempt : upload_with_retry throttled_once 5 ≡ (ok tt, 5000 ∷ [])
unfolding upload_with_retry backoff_ms includes codes
second_attempt = refl

no_retries : upload_with_retry throttled_once 0 ≡ (err "HTTP 429", [])
unfolding upload_with_retry
no_retries = refl

upload_with_retry-Tried_example : Tried throttled_once 5 0 (upload_with_retry throttled_once 5)
upload_with_retry-Tried_example = upload_with_retry-Tried throttled_once 5

-- Two chunks of three and two bytes, one worker, and a sink that takes all.
abbrev job : Job
job = record {
  chunks = (1 ∷ 2 ∷ 3 ∷ []) ∷ (4 ∷ 5 ∷ []) ∷ [];
  concurrency = 1;
  max_retries = none;
  sink = λ i bytes attempt. ok tt;
  subtle_encrypt = λ fek iv chunk. chunk;
  fek = "key";
  ivs = λ i. [];
}

abbrev first_done : Pool
first_done = settle job 0 [] (ok tt) false (start job false)

abbrev both_done : Pool
both_done = settle job 1 [] (ok tt) false first_done

takes : (i : ℕ) → upload_task job i ≡ ok tt
unfolding upload_task upload_with_retry attempts_from
takes i = refl

both : Reaches job both_done
unfolding start start_workers take_next settle count_chunk
both =
    next
      (next (starts false)
        (settles (start job false) [] [] 0 (ok tt) false refl (inl (sym (takes 0)))))
      (settles first_done [] [] 1 (ok tt) false refl (inl (sym (takes 1))))

Reaches-bounds_example :
    (length both_done.running ≤ 1)
    × (length both_done.running ≤ 2)
    × (count 1 both_done.running + stored 1 both_done.results ≤ 1)
    × ((if stored 1 both_done.results == 1 then upload_task job 1 else ok tt) ≡ ok tt)
    × (settlements job both ≤ 2)
Reaches-bounds_example = Reaches-bounds job both 1

all_settled : both_done.running ≡ []
unfolding start start_workers take_next settle count_chunk
all_settled = refl

none_failed : both_done.failed ≡ none
unfolding start start_workers take_next settle count_chunk
none_failed = refl

Reaches-finished_example :
    (upload_task job 1 ≡ ok tt)
    × (stored 1 both_done.results ≡ 1)
    × (both_done.uploaded_chunks ≡ 2)
    × (both_done.bytes_uploaded ≡ 5)
    × (settlements job both ≡ 2)
Reaches-finished_example =
    Reaches-finished job both 1 (omega arith) all_settled none_failed (omega arith)

-- A chunk that fails while the next one is awaited: the function returns all the same.
abbrev chunk : StreamedChunk
chunk = record { index = 0; bytes = 3 }

abbrev queued : UploadStream
queued = arrive 2 chunk fresh_upload

abbrev failed : UploadStream
failed = settle_chunk chunk [] (err "HTTP 500") queued

returned : Run 2 (await_all failed)
unfolding arrive settle_chunk
returned =
    then_
      (then_ (then_ begins (arrives chunk fresh_upload refl))
        (Streaming.settles queued [] [] chunk (err "HTTP 500") refl))
      (ends failed refl)

returns : (await_all failed).awaiting ≡ settled (ok tt)
unfolding arrive settle_chunk
returns = refl

nothing_uploaded : (await_all failed).uploaded_chunks ≡ 0
unfolding arrive settle_chunk
nothing_uploaded = refl

Run-returned_example :
    (length (await_all failed).queue ≤ 2)
    × (length (await_all failed).queue ≡ 0)
    × ((await_all failed).uploaded_chunks + (await_all failed).rejected
        ≡ (await_all failed).arrived)
Run-returned_example = Run-returned 2 returned returns

-- ===== src/StreamEngine/Upload/Pooling.antt =====
-- packages/stream-engine/src/upload.ts: what the pool of uploads does, in whatever order tasks settle.
use ddrive.Prelude.{
  ℕ, zero, suc, ◌+◌, ◌≤◌, ◌<◌, ◌≡◌, refl, sym, ap, subst, ◌∙◌, ◌⊎◌, inl, inr, Bool, true, ◌||◌,
  List, [], ◌∷◌, ◌++◌, none, String, if◌then◌else◌, length, arith, ◌==◌, take, Bool-cases,
}
use ddrive.Storage.Rows.{Result, ok, err}
use ddrive.StreamEngine.Upload.{Done}
use ddrive.StreamEngine.Upload.Pool.{
  Pool, Job, sum_lengths, chunk_at, store_at, reject, abort_error, total_chunks, upload_task,
  take_next, start_workers, worker_count, empty_pool, start, count_chunk, settle, settles,
  is_aborted, Reaches, starts, next,
}
use ddrive.StreamEngine.Upload.Counting.{
  count, count-middle, length-middle, stored, stored-store_at, length-store_at, carried,
  carried-middle, take-all,
}
use ddrive.StreamEngine.Upload.Starting.{Good, reject-failed, take_next-Good, start-Good}

module _ (j : Job) where
  -- A worker leaves its task.
  left :
      (p : Pool) (before after : List ℕ) (i : ℕ)
      → p.running ≡ before ++ i ∷ after
      → (length (before ++ after) + 1 ≡ length p.running)
        × ((k : ℕ) → count k p.running ≡ count k (before ++ after) + (if i == k then 1 else 0))
        × (carried j.chunks p.running
            ≡ carried j.chunks (before ++ after) + length (chunk_at j.chunks i))
  left p before after i e = (
    omega (arith, ap length e, length-middle i before after),
    λ k. ap (count k) e ∙ count-middle k i before after,
    ap (carried j.chunks) e ∙ carried-middle j.chunks i before after,
  )

  failed-Good :
      (p : Pool) (before after : List ℕ) (i : ℕ) (e : String)
      → p.running ≡ before ++ i ∷ after
      → Good j 0 p
      → Good j 0 (reject e (record p { running = before ++ after }))
  failed-Good p before after i e at g =
      let p' : Pool = record p { running = before ++ after } in
      let (len, counts, bytes) = left p before after i at in
      record {
        bound = g.bound;
        slots = g.slots;
        in_flight = omega (arith, g.in_flight, len);
        once = λ k. ground (arith, g.once k, counts k);
        right = g.right;
        busy = λ h. absurd (reject-failed e p' h);
        whole = λ h. absurd (reject-failed e p' h);
        chunks = λ h. absurd (reject-failed e p' h);
        bytes = λ h. absurd (reject-failed e p' h);
      }

  done-Good :
      (p : Pool) (before after : List ℕ) (i : ℕ) (aborts : Bool)
      → p.running ≡ before ++ i ∷ after
      → upload_task j i ≡ ok tt
      → Good j 0 p
      → let q = count_chunk j i (record p { running = before ++ after }) in
        Good j 1
          (record q { results = store_at i tt q.results; is_aborted = q.is_aborted || aborts })
  unfolding count_chunk
  done-Good p before after i aborts at good g =
      let (len, counts, bytes) = left p before after i at in
      let here : count i p.running ≡ count i (before ++ after) + 1 = ground (arith, counts i) in
      let begun : i < total_chunks j = ground (arith, g.once i, here, g.bound) in
      let store = λ (k : ℕ). stored-store_at k i tt p.results (omega (arith, begun, g.slots)) in
      record {
        bound = g.bound;
        slots = length-store_at i tt p.results ∙ g.slots;
        in_flight = omega (arith, g.in_flight, len);
        once = λ k. ground (arith, g.once k, counts k, store k);
        right = λ k h. elim (Bool-cases (i == k)) [
          | inl t ↦ subst (λ x. upload_task j x ≡ ok tt) (ground (arith, t)) good
          | inr t ↦ g.right k (ground (arith, h, store k, t))
        ];
        busy = λ h. elim (g.busy h) [ inl e ↦ inl (omega (arith, e, len)) | inr e ↦ inr e ];
        whole = λ h k. ground (arith, g.whole h k, g.once k, counts k, store k);
        chunks = λ h. omega (arith, g.chunks h, len);
        bytes = λ h. omega (arith, g.bytes h, bytes);
      }

  settle-Good :
      (p : Pool) (before after : List ℕ) (i : ℕ) (r : Result Done) (aborts : Bool)
      → p.running ≡ before ++ i ∷ after
      → (r ≡ upload_task j i) ⊎ ((p.is_aborted ≡ true) × (r ≡ err abort_error))
      → Good j 0 p
      → Good j 0 (settle j i (before ++ after) r aborts p)
  unfolding settle
  settle-Good p before after i (err e) aborts at from g = failed-Good p before after i e at g
  settle-Good p before after i (ok tt) aborts at from g =
      let good : upload_task j i ≡ ok tt = elim from [
        | inl e ↦ sym e
        | inr (aborted, e) ↦ absurd (let bad : ok tt ≡ err abort_error = e in cc)
      ] in
      let q = count_chunk j i (record p { running = before ++ after }) in
      take_next-Good j 0
        (record q { results = store_at i tt q.results; is_aborted = q.is_aborted || aborts })
        (done-Good p before after i aborts at good g)

  Reaches-Good : {p : Pool} → Reaches j p → Good j 0 p
  Reaches-Good (starts aborted) = start-Good j aborted
  Reaches-Good (next run (settles p before after i r aborts at from)) =
      settle-Good p before after i r aborts at from (Reaches-Good run)
  Reaches-Good (next run (is_aborted p)) =
      let g = Reaches-Good run in
      record {
        bound = g.bound;
        slots = g.slots;
        in_flight = g.in_flight;
        once = g.once;
        right = g.right;
        busy = g.busy;
        whole = g.whole;
        chunks = g.chunks;
        bytes = g.bytes;
      }

  -- The tasks that have settled in a run.
  pub settlements : {p : Pool} → Reaches j p → ℕ
  settlements (starts aborted) = 0
  settlements (next run (settles p before after i r aborts at from)) = suc (settlements run)
  settlements (next run (is_aborted p)) = settlements run

  take_next-begun :
      (p : Pool) (k : ℕ)
      → k + length p.running ≡ p.next_idx
      → k + length (take_next j p).running ≡ (take_next j p).next_idx
  unfolding take_next
  take_next-begun p k e = ground (arith, e)

  start_workers-begun :
      (n : ℕ) (p : Pool)
      → length p.running ≡ p.next_idx
      → length (start_workers j n p).running ≡ (start_workers j n p).next_idx
  unfolding start_workers
  start_workers-begun zero p e = e
  start_workers-begun (suc n) p e =
      start_workers-begun n (take_next j p) (ground (arith, take_next-begun p 0 (omega (arith, e))))

  settlements-begun :
      {p : Pool} (run : Reaches j p) → settlements run + length p.running ≡ p.next_idx
  unfolding settlements start settle count_chunk
  settlements-begun (starts aborted) =
      omega (arith, start_workers-begun (worker_count j) (empty_pool j aborted) refl)
  settlements-begun (next run (settles p before after i (err e) aborts at from)) =
      omega (arith, settlements-begun run, ap length at, length-middle i before after)
  settlements-begun (next run (settles p before after i (ok a) aborts at from)) =
      let q = count_chunk j i (record p { running = before ++ after }) in
      let q' : Pool = record q {
        results = store_at i a q.results;
        is_aborted = q.is_aborted || aborts;
      } in
      take_next-begun q' (suc (settlements run))
        (omega (arith, settlements-begun run, ap length at, length-middle i before after))
  settlements-begun (next run (is_aborted p)) = settlements-begun run

  -- Whatever the order in which tasks settle, and whether the upload is aborted or tasks fail: no more tasks
  -- are under way than the concurrency, nor than there are chunks; no chunk is both under way and
  -- stored, nor twice; what is stored has been uploaded; and no more tasks settle than there are chunks.
  pub Reaches-bounds :
      {p : Pool} (run : Reaches j p) (i : ℕ)
      → (length p.running ≤ j.concurrency)
        × (length p.running ≤ total_chunks j)
        × (count i p.running + stored i p.results ≤ 1)
        × ((if stored i p.results == 1 then upload_task j i else ok tt) ≡ ok tt)
        × (settlements run ≤ total_chunks j)
  Reaches-bounds {p} run i =
      let g = Reaches-Good run in
      (
        omega (arith, g.in_flight),
        omega (arith, g.in_flight),
        ground (arith, g.once i),
        ground (arith, g.right i),
        omega (arith, g.bound, settlements-begun run),
      )

  -- If the concurrency is positive, and no task is under way and none has failed, as when the call returns: every chunk's upload
  -- has succeeded and is stored, and the counts that are reported are the number of chunks and of their bytes.
  pub Reaches-finished :
      {p : Pool} (run : Reaches j p) (i : ℕ)
      → 1 ≤ j.concurrency
      → p.running ≡ []
      → p.failed ≡ none
      → i < total_chunks j
      → (upload_task j i ≡ ok tt)
        × (stored i p.results ≡ 1)
        × (p.uploaded_chunks ≡ total_chunks j)
        × (p.bytes_uploaded ≡ sum_lengths j.chunks)
        × (settlements run ≡ total_chunks j)
  Reaches-finished {p} run i positive idle fine lt =
      let g = Reaches-Good run in
      let none_left : length p.running ≡ 0 = ap length idle in
      let none_running : count i p.running ≡ 0 = ap (count i) idle ∙ (unfold count in refl) in
      let no_bytes : carried j.chunks p.running ≡ 0 =
        ap (carried j.chunks) idle ∙ (unfold carried in refl) in
      let all_begun : p.next_idx ≡ total_chunks j = elim (g.busy fine) [
        | inl e ↦ omega (arith, e, none_left, positive, lt)
        | inr e ↦ e
      ] in
      let is_stored : stored i p.results ≡ 1 =
        ground (arith, g.whole fine i, none_running, all_begun, lt) in
      (
        g.right i is_stored,
        is_stored,
        omega (arith, g.chunks fine, none_left, all_begun),
        omega (
          arith,
          g.bytes fine,
          no_bytes,
          ap (λ n. sum_lengths (take n j.chunks)) all_begun ∙ ap sum_lengths (take-all j.chunks),
        ),
        omega (arith, settlements-begun run, none_left, all_begun),
      )

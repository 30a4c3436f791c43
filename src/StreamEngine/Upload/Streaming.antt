-- ===== src/StreamEngine/Upload/Streaming.antt =====
-- packages/stream-engine/src/upload.ts: `uploadStream`, whose chunks arrive one after another. A promise of the
-- queue leaves it as it settles; what happens between two awaits is one step.
use ddrive.Prelude.{
  ℕ, ◌+◌, ◌≤◌, ◌≡◌, refl, subst, sym, ap, ◌∙◌, Bool, true, false, List, [], ◌∷◌, ◌++◌, leb,
  if◌then◌else◌, length, arith, Bool-cases, inl, inr,
}
use ddrive.Storage.Rows.{Result, ok, err}
use ddrive.StreamEngine.Upload.{Done}

-- A chunk: its index and the number of its bytes.
pub record StreamedChunk : Type 0 where
  pub index : ℕ
  pub bytes : ℕ

-- Where the function awaits: the next chunk, `Promise.race(queue)` with the chunk that has arrived, or
-- `Promise.all(queue)`; or it has returned or thrown.
pub data Awaiting : Type 0 where
  next_chunk : Awaiting
  race : StreamedChunk → Awaiting
  all_queued : Awaiting
  settled : Result Done → Awaiting

-- `rejected` counts the promises that reject while nothing awaits them.
pub record UploadStream : Type 0 where
  pub queue : List StreamedChunk
  pub awaiting : Awaiting
  pub arrived : ℕ
  pub uploaded_chunks : ℕ
  pub bytes_uploaded : ℕ
  pub rejected : ℕ

abbrev pub fresh_upload : UploadStream
fresh_upload = record {
  queue = [];
  awaiting = next_chunk;
  arrived = 0;
  uploaded_chunks = 0;
  bytes_uploaded = 0;
  rejected = 0;
}

-- `queue.push(tracked)`, and on to the next chunk.
abbrev pub push : StreamedChunk → UploadStream → UploadStream
push c u = record u { queue = c ∷ u.queue; awaiting = next_chunk }

-- A chunk arrives, where the function awaits one.
unfoldable pub arrive : ℕ → StreamedChunk → UploadStream → UploadStream
arrive concurrency c u =
    if leb concurrency (length u.queue)
    then record u { awaiting = race c; arrived = u.arrived + 1 }
    else push c (record u { arrived = u.arrived + 1 })

-- `await Promise.all(queue)` of the promises that are left.
abbrev pub await_all : UploadStream → UploadStream
await_all u = elim u.queue [
  | [] ↦ record u { awaiting = settled (ok tt) }
  | c ∷ cs ↦ record u { awaiting = all_queued }
]

-- The upload of a chunk has settled: the counts, the queue without it, and who awaits it.
unfoldable pub settle_chunk :
    StreamedChunk → List StreamedChunk → Result Done → UploadStream → UploadStream
settle_chunk c others (ok a) u =
    let v = record u {
      queue = others;
      uploaded_chunks = u.uploaded_chunks + 1;
      bytes_uploaded = u.bytes_uploaded + c.bytes;
    } in
    elim u.awaiting [
      | next_chunk ↦ v
      | race d ↦ push d v
      | all_queued ↦ await_all v
      | settled r ↦ v
    ]
settle_chunk c others (err e) u =
    let v = record u { queue = others } in
    elim u.awaiting [
      | next_chunk ↦ record v { rejected = u.rejected + 1 }
      | race d ↦ record v { awaiting = settled (err e) }
      | all_queued ↦ record v { awaiting = settled (err e) }
      | settled r ↦ record v { rejected = u.rejected + 1 }
    ]

pub data Event (concurrency : ℕ) : UploadStream → UploadStream → Type 0 where
  arrives :
      (c : StreamedChunk) (u : UploadStream)
      → u.awaiting ≡ next_chunk
      → Event concurrency u (arrive concurrency c u)
  ends : (u : UploadStream) → u.awaiting ≡ next_chunk → Event concurrency u (await_all u)
  settles :
      (u : UploadStream) (before after : List StreamedChunk) (c : StreamedChunk) (r : Result Done)
      → u.queue ≡ before ++ c ∷ after
      → Event concurrency u (settle_chunk c (before ++ after) r u)

pub data Run (concurrency : ℕ) : UploadStream → Type 0 where
  begins : Run concurrency fresh_upload
  then_ : {u v : UploadStream} → Run concurrency u → Event concurrency u v → Run concurrency v

-- Chunks that have arrived and are not queued yet, or never will be.
abbrev held : Awaiting → ℕ
held (race c) = 1
held _ = 0

abbrev has_returned : Awaiting → Bool
has_returned (settled (ok a)) = true
has_returned _ = false

abbrev has_thrown : Awaiting → Bool
has_thrown (settled (err e)) = true
has_thrown _ = false

record Good (concurrency : ℕ) (u : UploadStream) : Type 0 where
  in_flight : length u.queue ≤ concurrency
  counted :
      has_thrown u.awaiting ≡ false
      → u.uploaded_chunks + u.rejected + length u.queue + held u.awaiting ≡ u.arrived
  idle : has_returned u.awaiting ≡ true → length u.queue ≡ 0

arrive-Good :
    (k : ℕ) (c : StreamedChunk) (u : UploadStream)
    → u.awaiting ≡ next_chunk
    → Good k u
    → Good k (arrive k c u)
unfolding arrive
arrive-Good k c u e g = elim (Bool-cases (leb k (length u.queue))) [
  | inl t ↦ rw t (record {
    in_flight = g.in_flight;
    counted = λ h. ground (arith, g.counted, e);
    idle = λ h. absurd (let bad : false ≡ true = h in cc);
  })
  | inr t ↦ rw t (record {
    in_flight = ground (arith, t);
    counted = λ h. ground (arith, g.counted, e);
    idle = λ h. absurd (let bad : false ≡ true = h in cc);
  })
]

await_all-Good :
    (k : ℕ) (u : UploadStream)
    → held u.awaiting ≡ 0
    → has_thrown u.awaiting ≡ false
    → Good k u
    → Good k (await_all u)
await_all-Good k u none_held calm g =
    elim u.queue as (λ q. u.queue ≡ q → Good k (await_all u)) [
      | [] ↦ λ e.
          let same : await_all u ≡ record u { awaiting = settled (ok tt) } = ground (arith, e) in
          subst (Good k) (sym same) (record {
            in_flight = g.in_flight;
            counted = λ h. ground (arith, g.counted calm, none_held);
            idle = λ h. ap length e;
          })
      | c ∷ cs ↦ λ e.
          let same : await_all u ≡ record u { awaiting = all_queued } = ground (arith, e) in
          subst (Good k) (sym same) (record {
            in_flight = g.in_flight;
            counted = λ h. ground (arith, g.counted calm, none_held);
            idle = λ h. absurd (let bad : false ≡ true = h in cc);
          })
    ]
      refl

length-others :
    (before after : List StreamedChunk) (c : StreamedChunk)
    → length (before ++ c ∷ after) ≡ length (before ++ after) + 1
length-others [] after c = ground arith
length-others (b ∷ before) after c = ground (arith, length-others before after c)

settle_chunk-Good :
    (k : ℕ) (u : UploadStream) (others : List StreamedChunk) (c : StreamedChunk) (r : Result Done)
    → length u.queue ≡ length others + 1
    → Good k u
    → Good k (settle_chunk c others r u)
unfolding settle_chunk
settle_chunk-Good k u others c (ok a) len g =
    let v : UploadStream = record u {
      queue = others;
      uploaded_chunks = u.uploaded_chunks + 1;
      bytes_uploaded = u.bytes_uploaded + c.bytes;
    } in
    let kept : has_thrown u.awaiting ≡ false → Good k v = λ calm. record {
      in_flight = omega (arith, g.in_flight, len);
      counted = λ h. omega (arith, g.counted h, len);
      idle = λ h. omega (arith, g.idle h, len);
    } in
    elim u.awaiting as (λ x. u.awaiting ≡ x → Good k (settle_chunk c others (ok a) u)) [
      | next_chunk ↦ λ e.
          let same : settle_chunk c others (ok a) u ≡ v = ground (arith, e) in
          subst (Good k) (sym same) (kept (ap has_thrown e))
      | race d ↦ λ e.
          let same : settle_chunk c others (ok a) u ≡ push d v = ground (arith, e) in
          subst (Good k) (sym same) (record {
            in_flight = omega (arith, g.in_flight, len);
            counted = λ h. ground (arith, g.counted (ap has_thrown e), len, e);
            idle = λ h. absurd (let bad : false ≡ true = h in cc);
          })
      | all_queued ↦ λ e.
          let same : settle_chunk c others (ok a) u ≡ await_all v = ground (arith, e) in
          subst (Good k) (sym same)
            (await_all-Good k v (ap held e) (ap has_thrown e) (kept (ap has_thrown e)))
      | settled r ↦ λ e.
          let same : settle_chunk c others (ok a) u ≡ v = ground (arith, e) in
          subst (Good k) (sym same) (record {
            in_flight = omega (arith, g.in_flight, len);
            counted = λ h. omega (arith, g.counted h, len);
            idle = λ h. omega (arith, g.idle h, len);
          })
    ]
      refl
settle_chunk-Good k u others c (err x) len g =
    let v : UploadStream = record u { queue = others } in
    let lost : Good k (record v { rejected = u.rejected + 1 }) = record {
      in_flight = omega (arith, g.in_flight, len);
      counted = λ h. omega (arith, g.counted h, len);
      idle = λ h. omega (arith, g.idle h, len);
    } in
    let thrown : Good k (record v { awaiting = settled (err x) }) = record {
      in_flight = omega (arith, g.in_flight, len);
      counted = λ h. absurd (let bad : true ≡ false = h in cc);
      idle = λ h. absurd (let bad : false ≡ true = h in cc);
    } in
    elim u.awaiting as (λ y. u.awaiting ≡ y → Good k (settle_chunk c others (err x) u)) [
      | next_chunk ↦ λ e.
          let same : settle_chunk c others (err x) u ≡ record v { rejected = u.rejected + 1 } =
            ground (arith, e) in
          subst (Good k) (sym same) lost
      | race d ↦ λ e.
          let same : settle_chunk c others (err x) u ≡ record v { awaiting = settled (err x) } =
            ground (arith, e) in
          subst (Good k) (sym same) thrown
      | all_queued ↦ λ e.
          let same : settle_chunk c others (err x) u ≡ record v { awaiting = settled (err x) } =
            ground (arith, e) in
          subst (Good k) (sym same) thrown
      | settled r ↦ λ e.
          let same : settle_chunk c others (err x) u ≡ record v { rejected = u.rejected + 1 } =
            ground (arith, e) in
          subst (Good k) (sym same) lost
    ]
      refl

Run-Good : (k : ℕ) {u : UploadStream} → Run k u → Good k u
Run-Good k begins = record {
  in_flight = omega arith;
  counted = λ h. refl;
  idle = λ h. absurd (let bad : false ≡ true = h in cc);
}
Run-Good k (then_ run (arrives c u e)) = arrive-Good k c u e (Run-Good k run)
Run-Good k (then_ run (ends u e)) =
    await_all-Good k u (ap held e) (ap has_thrown e) (Run-Good k run)
Run-Good k (then_ run (settles u before after c r e)) =
    settle_chunk-Good k u (before ++ after) c r (ap length e ∙ length-others before after c)
      (Run-Good k run)

-- No more chunks are under way than the concurrency; and when uploadStream has returned, every chunk that
-- arrived has been uploaded, but for those that failed while the next chunk was awaited.
pub Run-returned :
    (concurrency : ℕ) {u : UploadStream}
    → Run concurrency u
    → u.awaiting ≡ settled (ok tt)
    → (length u.queue ≤ concurrency)
      × (length u.queue ≡ 0)
      × (u.uploaded_chunks + u.rejected ≡ u.arrived)
Run-returned k {u} run e =
    let g = Run-Good k run in
    (
      g.in_flight,
      g.idle (ap has_returned e),
      omega (arith, g.counted (ap has_thrown e), g.idle (ap has_returned e), ap held e),
    )

-- ===== src/StreamEngine/Upload/Starting.antt =====
-- packages/stream-engine/src/upload.ts: what holds while the pool of uploads runs, and that its start
-- makes it hold.
use ddrive.Prelude.{
  ℕ, zero, suc, ◌+◌, ◌≤◌, ◌≡◌, ◌≢◌, refl, sym, subst, ◌⊎◌, inl, inr, Bool, true, false, ◌∷◌, none,
  some, String, ltb, if◌then◌else◌, length, length-replicate, arith, take, Bool-cases, Option-cases,
}
use ddrive.Storage.Rows.{ok}
use ddrive.StreamEngine.Upload.Pool.{
  Pool, Job, sum_lengths, reject, abort_error, total_chunks, upload_task, take_next, start_workers,
  worker_count, empty_pool, start,
}
use ddrive.StreamEngine.Upload.Counting.{count, stored, stored-replicate, carried, sum-take_suc}

pub reject-failed : (e : String) (p : Pool) → (reject e p).failed ≢ none
reject-failed e p h = elim (Option-cases p.failed) [
  | inl t ↦ absurd (let bad : some e ≡ none = rw t at h in cc)
  | inr (x, t) ↦ absurd (let bad : some x ≡ none = rw t at h in cc)
]

-- What holds when a number of workers are at the head of their loop, and the others await.
pub record Good (j : Job) (heads : ℕ) (p : Pool) : Type 0 where
  pub bound : p.next_idx ≤ total_chunks j
  pub slots : length p.results ≡ total_chunks j
  pub in_flight : length p.running + heads ≤ worker_count j
  pub once : (i : ℕ) → count i p.running + stored i p.results ≤ (if ltb i p.next_idx then 1 else 0)
  pub right : (i : ℕ) → stored i p.results ≡ 1 → upload_task j i ≡ ok tt
  pub busy :
      p.failed ≡ none → (length p.running + heads ≡ worker_count j) ⊎ (p.next_idx ≡ total_chunks j)
  pub whole :
      p.failed ≡ none
      → (i : ℕ) → count i p.running + stored i p.results ≡ (if ltb i p.next_idx then 1 else 0)
  pub chunks : p.failed ≡ none → p.uploaded_chunks + length p.running ≡ p.next_idx
  pub bytes :
      p.failed ≡ none
      → p.bytes_uploaded + carried j.chunks p.running ≡ sum_lengths (take p.next_idx j.chunks)

module _ (j : Job) where
  pub reject-Good :
      (e : String) (heads : ℕ) (p : Pool) → Good j (suc heads) p → Good j heads (reject e p)
  reject-Good e heads p g = record {
    bound = g.bound;
    slots = g.slots;
    in_flight = omega (arith, g.in_flight);
    once = g.once;
    right = g.right;
    busy = λ h. absurd (reject-failed e p h);
    whole = λ h. absurd (reject-failed e p h);
    chunks = λ h. absurd (reject-failed e p h);
    bytes = λ h. absurd (reject-failed e p h);
  }

  begin-Good :
      (heads : ℕ) (p : Pool)
      → ltb p.next_idx (total_chunks j) ≡ true
      → Good j (suc heads) p
      → Good j heads (record p { next_idx = p.next_idx + 1; running = p.next_idx ∷ p.running })
  unfolding count carried
  begin-Good heads p lt g = record {
    bound = ground (arith, lt);
    slots = g.slots;
    in_flight = omega (arith, g.in_flight);
    once = λ i. ground (arith, g.once i);
    right = g.right;
    busy = λ h. elim (g.busy h) [
      | inl e ↦ inl (omega (arith, e))
      | inr e ↦ absurd (ground (arith, e, lt))
    ];
    whole = λ h i. ground (arith, g.whole h i);
    chunks = λ h. omega (arith, g.chunks h);
    bytes = λ h. omega (arith, g.bytes h, sum-take_suc j.chunks p.next_idx);
  }

  end-Good :
      (heads : ℕ) (p : Pool)
      → ltb p.next_idx (total_chunks j) ≡ false
      → Good j (suc heads) p
      → Good j heads p
  end-Good heads p ge g = record {
    bound = g.bound;
    slots = g.slots;
    in_flight = omega (arith, g.in_flight);
    once = g.once;
    right = g.right;
    busy = λ h. inr (ground (arith, ge, g.bound));
    whole = g.whole;
    chunks = g.chunks;
    bytes = g.bytes;
  }

  pub take_next-Good : (heads : ℕ) (p : Pool) → Good j (suc heads) p → Good j heads (take_next j p)
  unfolding take_next
  take_next-Good heads p g = elim (Bool-cases p.is_aborted) [
    | inl e ↦
        let same : take_next j p ≡ reject abort_error p = ground (arith, e) in
        subst (Good j heads) (sym same) (reject-Good abort_error heads p g)
    | inr e ↦ elim (Bool-cases (ltb p.next_idx (total_chunks j))) [
      | inl t ↦
          let same : take_next j p
              ≡ record p { next_idx = p.next_idx + 1; running = p.next_idx ∷ p.running } =
            ground (arith, e, t) in
          subst (Good j heads) (sym same) (begin-Good heads p t g)
      | inr t ↦
          let same : take_next j p ≡ p = ground (arith, e, t) in
          subst (Good j heads) (sym same) (end-Good heads p t g)
    ]
  ]

  pub start_workers-Good :
      (heads : ℕ) (p : Pool) → Good j heads p → Good j 0 (start_workers j heads p)
  unfolding start_workers
  start_workers-Good zero p g = g
  start_workers-Good (suc heads) p g =
      start_workers-Good heads (take_next j p) (take_next-Good heads p g)

  pub start-Good : (aborted : Bool) → Good j 0 (start j aborted)
  unfolding start count carried
  start-Good aborted = start_workers-Good (worker_count j) (empty_pool j aborted) (record {
    bound = omega arith;
    slots = length-replicate (total_chunks j) none;
    in_flight = omega arith;
    once = λ i. ground (arith, stored-replicate i (total_chunks j));
    right = λ i h. absurd (ground (arith, h, stored-replicate i (total_chunks j)));
    busy = λ h. inl (omega arith);
    whole = λ h i. ground (arith, stored-replicate i (total_chunks j));
    chunks = λ h. refl;
    bytes = λ h. ground arith;
  })

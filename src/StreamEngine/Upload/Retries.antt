-- ===== src/StreamEngine/Upload/Retries.antt =====
-- packages/stream-engine/src/upload.ts: how often an upload is tried, and how long it pauses.
use native.Mathlib.Nat.{one-le-pow}
use ddrive.Prelude.{
  ℕ, zero, suc, ◌+◌, ◌^◌, ◌≤◌, ◌<◌, ◌≡◌, refl, sym, ap, ◌∙◌, ◌⊎◌, inl, inr, true, false, List, ◌∷◌,
  String, arith, leb, length, All, Bool-cases, le→leb, subst,
}
use ddrive.Storage.Rows.{Result, ok, err}
use ddrive.StreamEngine.Upload.{
  ChunkSink, Done, is_throttled, backoff_ms, attempts_from, upload_with_retry,
}

Result-cases {ℓ} :
    {A : Type ℓ} (r : Result A) → ((a : A) × (r ≡ ok a)) ⊎ ((e : String) × (r ≡ err e))
Result-cases (ok a) = inl (a, refl)
Result-cases (err e) = inr (e, refl)

-- A pause between two attempts.
abbrev pub IsPause : ℕ → Type 0
IsPause ms = (1000 ≤ ms) × (ms ≤ 60000)

backoff_ms-IsPause : (msg : String) (attempt : ℕ) → IsPause (backoff_ms msg attempt)
unfolding backoff_ms
backoff_ms-IsPause msg attempt =
    let one : 1 ≤ 2 ^ attempt = one-le-pow attempt 2 (omega arith) in
    elim (Bool-cases (is_throttled msg)) [
      | inl e ↦ rw e (omega arith, omega arith)
      | inr e ↦ rw e (omega arith, omega arith)
    ]

module _ (upload : ChunkSink) (max_retries : ℕ) where
  abbrev pub HasFailed : ℕ → Type 0
  HasFailed j = (msg : String) × (upload j ≡ err msg)

  -- What the attempts from `attempt` on come to: the first that succeeds ends them, or the last that is
  -- allowed has failed; a pause stands between two attempts.
  abbrev pub Tried : ℕ → Result Done × List ℕ → Type 0
  Tried attempt (result, pauses) =
      (((k : ℕ) × (k ≡ attempt + length pauses)
          × (k ≤ max_retries)
          × (upload k ≡ ok tt)
          × ((j : ℕ) → attempt ≤ j → j < k → HasFailed j)
          × (result ≡ ok tt))
        ⊎ ((max_retries ≡ attempt + length pauses)
            × ((j : ℕ) → attempt ≤ j → j ≤ max_retries → HasFailed j)
            × (result ≡ upload max_retries)))
      × All IsPause pauses

  -- One more attempt that has failed, in front of others.
  failed_from :
      (attempt top : ℕ)
      → HasFailed attempt
      → ((j : ℕ) → attempt + 1 ≤ j → j < top → HasFailed j)
      → (j : ℕ) → attempt ≤ j
      → j < top
      → HasFailed j
  failed_from attempt top first rest j h k = elim (equal_or_more attempt j h) [
    | inl e ↦ subst HasFailed e first
    | inr more ↦ rest j more k
  ]
    where
      equal_or_more : (a b : ℕ) → a ≤ b → (a ≡ b) ⊎ (a + 1 ≤ b)
      equal_or_more a b h = grind arith

  -- A pause, and what the next attempts come to.
  Tried-again :
      (attempt ms : ℕ) (rest : Result Done × List ℕ)
      → HasFailed attempt
      → IsPause ms
      → Tried (attempt + 1) rest
      → Tried attempt (rest.0, ms ∷ rest.1)
  Tried-again attempt ms (result, pauses) failed pause (inl (k, at, le, done, before, is), all) =
      (inl (k, omega (arith, at), le, done, failed_from attempt k failed before, is), (pause, all))
  Tried-again attempt ms (result, pauses) failed pause (inr (at, every, is), all) = (
    inr (
      omega (arith, at),
      λ j h k.
          failed_from attempt (max_retries + 1) failed (λ i a b. every i a (omega arith)) j h
            (omega arith),
      is,
    ),
    (pause, all),
  )

  attempts_from-Tried :
      (attempt left : ℕ)
      → attempt + left ≡ max_retries
      → Tried attempt (attempts_from upload max_retries attempt (suc left))
  unfolding attempts_from
  attempts_from-Tried attempt zero at = elim (Result-cases (upload attempt)) [
    | inl (d, e) ↦
        rw (e, attempts_from)
          (inl (attempt, omega arith, omega arith, e, λ j h k. absurd (omega arith), refl), tt)
    | inr (msg, e) ↦
        let last : leb max_retries attempt ≡ true = le→leb _ _ (omega arith) in
        let same : attempt ≡ max_retries = omega arith in
        rw (e, last, attempts_from)
          (
            inr (
              omega arith,
              λ j h k. let here : attempt ≡ j = omega arith in subst HasFailed here (msg, e),
              sym e ∙ ap upload same,
            ),
            tt,
          )
  ]
  attempts_from-Tried attempt (suc left) at = elim (Result-cases (upload attempt)) [
    | inl (d, e) ↦
        rw (e, attempts_from)
          (inl (attempt, omega arith, omega arith, e, λ j h k. absurd (omega arith), refl), tt)
    | inr (msg, e) ↦
        let more : leb max_retries attempt ≡ false = ground arith in
        rw (e, more, attempts_from)
          (Tried-again attempt (backoff_ms msg attempt)
            (attempts_from upload max_retries (attempt + 1) (suc left)) (msg, e)
            (backoff_ms-IsPause msg attempt) (attempts_from-Tried (attempt + 1) left (omega arith)))
  ]

  -- An upload ends with the first attempt that succeeds, or fails with the error of attempt number
  -- `maxRetries` (from 0) when it and all before it fail; the pauses, one between each two attempts, last
  -- between one second and one minute.
  pub upload_with_retry-Tried : Tried 0 (upload_with_retry upload max_retries)
  unfolding upload_with_retry
  upload_with_retry-Tried =
      subst (λ n. Tried 0 (attempts_from upload max_retries 0 n)) (suc_is max_retries)
        (attempts_from-Tried 0 max_retries (omega arith))
    where
      suc_is : (n : ℕ) → suc n ≡ n + 1
      suc_is n = omega arith

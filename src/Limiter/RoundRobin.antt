-- ===== src/Limiter/RoundRobin.antt =====
-- `for (let i = 0; i < n; i++) { const idx = (start + i) % n; ... }`: the loop by which
-- rate-limiter.ts, telegram-blobs.ts and replica-pools.ts look for a sender that can be used.
use native.Mathlib.Nat.{mod-lt, mod-eq_of_lt, mod-add-mod, add-mod_right}
use ddrive.Prelude.{
  ℕ, zero, suc, ◌+◌, ◌-◌, ◌%◌, ◌≤◌, ◌<◌, ◌≡◌, refl, sym, ap, ◌∙◌, ◌⊎◌, inl, inr, Bool, true, false,
  List, [], ◌∷◌, Option, none, some, arith, length, get_elem?, Bool-cases, subst,
}

-- Every index is looked at in some round.
index_reached : (start k n : ℕ) → k < n → (i : ℕ) × (i < n) × ((start + (0 + i)) % n ≡ k)
index_reached start k n h = elim (le_cases (start % n) k) [
  | inl le ↦ (
    k - start % n,
    omega arith,
    ap (λ m. m % n) (omega arith)
        ∙ sym (mod-add-mod start n (k - start % n))
        ∙ ap (λ m. m % n) (omega arith)
        ∙ mod-eq_of_lt h,
  )
  | inr lt ↦
      let below : start % n < n = mod-lt start (omega arith) in
      (
        k + n - start % n,
        omega arith,
        ap (λ m. m % n) (omega arith)
            ∙ sym (mod-add-mod start n (k + n - start % n))
            ∙ ap (λ m. m % n) (omega arith)
            ∙ add-mod_right k n
            ∙ mod-eq_of_lt h,
      )
]
  where
    le_cases : (m n : ℕ) → (m ≤ n) ⊎ (n < m)
    le_cases m n = grind arith

module _ {ℓ} {A : Type ℓ} where
  -- From round `i` on, with `left` rounds to go: the index and the entry that passes first.
  unfoldable pub scan : (A → Bool) → List A → ℕ → ℕ → ℕ → Option (ℕ × A)
  scan usable xs start i zero = none
  scan usable xs start i (suc left) = elim (get_elem? xs ((start + i) % length xs)) [
    | none ↦ none
    | some a ↦ elim (usable a) [
      | true ↦ some ((start + i) % length xs, a)
      | false ↦ scan usable xs start (i + 1) left
    ]
  ]

  unfoldable pub round_robin : (A → Bool) → List A → ℕ → Option (ℕ × A)
  unfolding scan
  round_robin usable xs start = scan usable xs start 0 (length xs)

  get_elem?-some : (xs : List A) (k : ℕ) → k < length xs → (a : A) × (get_elem? xs k ≡ some a)
  get_elem?-some [] k h = absurd (omega arith)
  get_elem?-some (x ∷ xs) zero h = (x, refl)
  get_elem?-some (x ∷ xs) (suc k) h = get_elem?-some xs k (omega arith)

  get_elem?-lt : (xs : List A) (k : ℕ) (a : A) → get_elem? xs k ≡ some a → k < length xs
  get_elem?-lt [] k a e = cc
  get_elem?-lt (x ∷ xs) zero a e = omega arith
  get_elem?-lt (x ∷ xs) (suc k) a e = omega (arith, get_elem?-lt xs k a e)

  -- What the loop has found: an entry that passes, the first from `start` on.
  pub record Found (usable : A → Bool) (xs : List A) (start first idx : ℕ) (a : A) : Type ℓ where
    pub round : ℕ
    pub place : idx ≡ (start + (first + round)) % length xs
    pub entry : get_elem? xs idx ≡ some a
    pub passes : usable a ≡ true
    pub earlier :
        (k : ℕ) (b : A)
        → k < round
        → get_elem? xs ((start + (first + k)) % length xs) ≡ some b
        → usable b ≡ false

  scan-outcome :
      (usable : A → Bool) (xs : List A) (start i left : ℕ)
      → 0 < length xs
      → ((idx : ℕ) × (a : A) × (scan usable xs start i left ≡ some (idx, a))
          × Found usable xs start i idx a)
        ⊎ ((scan usable xs start i left ≡ none)
            × ((k : ℕ) (b : A)
                → k < left
                → get_elem? xs ((start + (i + k)) % length xs) ≡ some b
                → usable b ≡ false))
  unfolding scan
  scan-outcome usable xs start i zero pos = inr (refl, λ k b h e. absurd (omega arith))
  scan-outcome usable xs start i (suc left) pos =
      let (a, at) = get_elem?-some xs ((start + i) % length xs) (mod-lt (start + i) pos) in
      elim (Bool-cases (usable a)) [
        | inl passes ↦ inl (
          (start + i) % length xs,
          a,
          rw (at, passes, scan),
          record {
            round = 0;
            place = ap (λ n. n % length xs) (omega arith);
            entry = at;
            passes = passes;
            earlier = λ k b h e. absurd (omega arith);
          },
        )
        | inr fails ↦
            let here : (b : A)
                → get_elem? xs ((start + i) % length xs) ≡ some b
                → usable b ≡ false =
              λ b e. cc in
            elim (scan-outcome usable xs start (i + 1) left pos) [
              | inl (idx, b, run, f) ↦ inl (
                idx,
                b,
                rw (at, fails, scan) run,
                record {
                  round = suc f.round;
                  place = f.place ∙ ap (λ n. n % length xs) (omega arith);
                  entry = f.entry;
                  passes = f.passes;
                  earlier = shift f.round here f.earlier;
                },
              )
              | inr (run, all_fail) ↦ inr (rw (at, fails, scan) run, shift left here all_fail)
            ]
      ]
    where
      shift :
          (n : ℕ)
          → ((b : A) → get_elem? xs ((start + i) % length xs) ≡ some b → usable b ≡ false)
          → ((k : ℕ) (b : A)
              → k < n
              → get_elem? xs ((start + (i + 1 + k)) % length xs) ≡ some b
              → usable b ≡ false)
          → (k : ℕ) (b : A) → k < suc n
          → get_elem? xs ((start + (i + k)) % length xs) ≡ some b
          → usable b ≡ false
      shift n here later zero b h e =
          here b (ap (λ m. get_elem? xs (m % length xs)) (omega arith) ∙ e)
      shift n here later (suc k) b h e =
          later k b (omega arith) (ap (λ m. get_elem? xs (m % length xs)) (omega arith) ∙ e)

  -- The loop finds the first entry from `start` on, around the end of the list, that passes, or
  -- else no entry of the list passes.
  pub round_robin-outcome :
      (usable : A → Bool) (xs : List A) (start : ℕ)
      → 0 < length xs
      → ((idx : ℕ) × (a : A) × (round_robin usable xs start ≡ some (idx, a))
          × (idx < length xs)
          × Found usable xs start 0 idx a)
        ⊎ ((round_robin usable xs start ≡ none)
            × ((k : ℕ) (a : A) → get_elem? xs k ≡ some a → usable a ≡ false))
  unfolding round_robin
  round_robin-outcome usable xs start pos = elim (scan-outcome usable xs start 0 (length xs) pos) [
    | inl (idx, a, run, f) ↦
        inl (idx, a, run, subst (λ i. i < length xs) (sym f.place) (mod-lt _ pos), f)
    | inr (run, all_fail) ↦ inr (run, λ k a e. every all_fail k a (get_elem?-lt xs k a e) e)
  ]
    where
      every :
          ((i : ℕ) (b : A)
            → i < length xs
            → get_elem? xs ((start + (0 + i)) % length xs) ≡ some b
            → usable b ≡ false)
          → (k : ℕ) (a : A) → k < length xs
          → get_elem? xs k ≡ some a
          → usable a ≡ false
      every all_fail k a h e =
          let (i, lt, at) = index_reached start k (length xs) h in
          all_fail i a lt (ap (get_elem? xs) at ∙ e)

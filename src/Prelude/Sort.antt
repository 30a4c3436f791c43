-- ===== src/Prelude/Sort.antt =====
-- `xs.sort((a, b) => score(a) - score(b))`: the stable sort of the language, by insertion.
use Prim.Native.Nat.{ℕ, ◌≤◌}
use mathlib.Core.Path.{◌≡◌, refl}
use mathlib.Core.List.{List, [], ◌∷◌, Perm}
use mathlib.Core.List.Perm
use native.Mathlib.Omega.{arith}
use mathlib.Core.Logic.{inl, inr}
use ddrive.Prelude.Tests.{leb, leb→le, leb→lt, if◌then◌else◌, Bool-cases, ◌==◌}
use ddrive.Prelude.Lists.{All, All-mono, filter}

module _ {ℓ} {A : Type ℓ} (score : A → ℕ) where
  -- In front of the first entry that scores no less: later entries of the input go first.
  unfoldable pub insert_by : A → List A → List A
  insert_by a [] = a ∷ []
  insert_by a (x ∷ xs) = if leb (score a) (score x) then a ∷ x ∷ xs else x ∷ insert_by a xs

  unfoldable pub sort_by : List A → List A
  unfolding insert_by
  sort_by [] = []
  sort_by (x ∷ xs) = insert_by x (sort_by xs)

  abbrev pub IsSorted : List A → Type 0
  IsSorted [] = Unit
  IsSorted (x ∷ xs) = All (λ y. score x ≤ score y) xs × IsSorted xs

  insert_by-All :
      (n : ℕ) (a : A) (xs : List A)
      → n ≤ score a
      → All (λ y. n ≤ score y) xs
      → All (λ y. n ≤ score y) (insert_by a xs)
  unfolding insert_by
  insert_by-All n a [] h k = (h, tt)
  insert_by-All n a (x ∷ xs) h k = ground (arith, insert_by-All n a xs h k.1)

  insert_by-IsSorted : (a : A) (xs : List A) → IsSorted xs → IsSorted (insert_by a xs)
  unfolding insert_by
  insert_by-IsSorted a [] s = (tt, tt)
  insert_by-IsSorted a (x ∷ xs) (h, s) = elim (Bool-cases (leb (score a) (score x))) [
    | inl e ↦
        let le : score a ≤ score x = leb→le _ _ e in
        rw e (
          (
            le,
            All-mono (λ y. score x ≤ score y) (λ y. score a ≤ score y) (λ y k. omega arith) xs h,
          ),
          (h, s),
        )
    | inr e ↦
        let lt = leb→lt _ _ e in
        rw e (insert_by-All (score x) a xs (omega arith) h, insert_by-IsSorted a xs s)
  ]

  pub sort_by-All {κ} : (P : A → Type κ) (xs : List A) → All P xs → All P (sort_by xs)
  unfolding sort_by
  sort_by-All P [] h = tt
  sort_by-All P (x ∷ xs) (p, h) = place x (sort_by xs) p (sort_by-All P xs h)
    where
      place : (a : A) (ys : List A) → P a → All P ys → All P (insert_by a ys)
      place a [] q k = (q, tt)
      place a (y ∷ ys) q (r, k) = ground (arith, place a ys q k)

  All-insert_by {κ} :
      (P : A → Type κ) (a : A) (xs : List A) → All P (insert_by a xs) → All P (a ∷ xs)
  unfolding insert_by
  All-insert_by P a [] h = h
  All-insert_by P a (x ∷ xs) h = elim (Bool-cases (leb (score a) (score x))) [
    | inl e ↦ rw (e, insert_by) at h
    | inr e ↦
        let (p, rest) = rw (e, insert_by) at h in
        let (q, tail) = All-insert_by P a xs rest in (q, (p, tail))
  ]

  pub All-sort_by {κ} : (P : A → Type κ) (xs : List A) → All P (sort_by xs) → All P xs
  unfolding sort_by
  All-sort_by P [] h = tt
  All-sort_by P (x ∷ xs) h =
      let (p, rest) = All-insert_by P x (sort_by xs) h in (p, All-sort_by P xs rest)

  pub sort_by-IsSorted : (xs : List A) → IsSorted (sort_by xs)
  unfolding sort_by
  sort_by-IsSorted [] = tt
  sort_by-IsSorted (x ∷ xs) = insert_by-IsSorted x (sort_by xs) (sort_by-IsSorted xs)

  insert_by-perm : (a : A) (xs : List A) → Perm (insert_by a xs) (a ∷ xs)
  unfolding insert_by
  insert_by-perm a [] = Perm.refl (a ∷ [])
  insert_by-perm a (x ∷ xs) = elim (Bool-cases (leb (score a) (score x))) [
    | inl e ↦ rw e (Perm.refl (a ∷ x ∷ xs))
    | inr e ↦ rw e (Perm.trans (Perm.cons x (insert_by-perm a xs)) (Perm.swap a x xs))
  ]

  pub sort_by-perm : (xs : List A) → Perm (sort_by xs) xs
  unfolding sort_by
  sort_by-perm [] = Perm.refl []
  sort_by-perm (x ∷ xs) = Perm.trans (insert_by-perm x (sort_by xs)) (Perm.cons x (sort_by-perm xs))

  -- The sort is stable: entries of one score keep their order.
  insert_by-stable :
      (n : ℕ) (a : A) (xs : List A)
      → filter (λ y. score y == n) (insert_by a xs) ≡ filter (λ y. score y == n) (a ∷ xs)
  unfolding insert_by filter
  insert_by-stable n a [] = refl
  insert_by-stable n a (x ∷ xs) = ground (arith, insert_by-stable n a xs)

  pub sort_by-stable :
      (n : ℕ) (xs : List A)
      → filter (λ y. score y == n) (sort_by xs) ≡ filter (λ y. score y == n) xs
  unfolding sort_by filter
  sort_by-stable n [] = refl
  sort_by-stable n (x ∷ xs) = ground (arith, insert_by-stable n x (sort_by xs), sort_by-stable n xs)

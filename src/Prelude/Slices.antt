-- ===== src/Prelude/Slices.antt =====
-- Byte ranges: `xs.subarray(from, to)` and the laws by which consecutive ranges are joined.
use Prim.Native.Nat.{ℕ, zero, suc, ◌+◌, ◌-◌, ◌<◌, ◌≤◌, min}
use mathlib.Core.Path.{◌≡◌, refl, sym, ap, ap₂, ◌∙◌}
use mathlib.Core.Logic.{◌⊎◌, inl, inr}
use mathlib.Core.List.{List, [], ◌∷◌, ◌++◌}
use native.Mathlib.Omega.{arith}
use ddrive.Prelude.Lists.{length, take, drop}

module _ {ℓ} {A : Type ℓ} where
  -- From `from` to the one before `to`; both ends are cut at the end of the list.
  abbrev pub slice : ℕ → ℕ → List A → List A
  slice from to xs = take (to - from) (drop from xs)

  pub take-append-drop : (n : ℕ) (xs : List A) → take n xs ++ drop n xs ≡ xs
  take-append-drop zero xs = refl
  take-append-drop (suc n) [] = refl
  take-append-drop (suc n) (x ∷ xs) = ap (λ l. x ∷ l) (take-append-drop n xs)

  pub length-take : (n : ℕ) (xs : List A) → length (take n xs) ≡ min n (length xs)
  length-take zero xs = omega arith
  length-take (suc n) [] = omega arith
  length-take (suc n) (x ∷ xs) = omega (arith, length-take n xs)

  pub length-drop : (n : ℕ) (xs : List A) → length (drop n xs) ≡ length xs - n
  length-drop zero xs = omega arith
  length-drop (suc n) [] = omega arith
  length-drop (suc n) (x ∷ xs) = omega (arith, length-drop n xs)

  pub take-nil : (n : ℕ) → take {A = A} n [] ≡ []
  take-nil zero = refl
  take-nil (suc n) = refl

  pub drop-nil : (n : ℕ) → drop {A = A} n [] ≡ []
  drop-nil zero = refl
  drop-nil (suc n) = refl

  pub take_all : (n : ℕ) (xs : List A) → length xs ≤ n → take n xs ≡ xs
  take_all zero [] h = refl
  take_all zero (x ∷ xs) h = absurd (omega arith)
  take_all (suc n) [] h = refl
  take_all (suc n) (x ∷ xs) h = ap (λ l. x ∷ l) (take_all n xs (omega arith))

  pub drop_all : (n : ℕ) (xs : List A) → length xs ≤ n → drop n xs ≡ []
  drop_all zero [] h = refl
  drop_all zero (x ∷ xs) h = absurd (omega arith)
  drop_all (suc n) [] h = refl
  drop_all (suc n) (x ∷ xs) h = drop_all n xs (omega arith)

  -- A range that ends inside the first part, and one that begins behind it.
  pub take-append_left : (n : ℕ) (xs ys : List A) → n ≤ length xs → take n (xs ++ ys) ≡ take n xs
  take-append_left zero xs ys h = refl
  take-append_left (suc n) [] ys h = absurd (omega arith)
  take-append_left (suc n) (x ∷ xs) ys h = ap (λ l. x ∷ l) (take-append_left n xs ys (omega arith))

  pub take-append_right :
      (n : ℕ) (xs ys : List A) → length xs ≤ n → take n (xs ++ ys) ≡ xs ++ take (n - length xs) ys
  take-append_right n [] ys h = ap (λ k. take k ys) (omega arith)
  take-append_right zero (x ∷ xs) ys h = absurd (omega arith)
  take-append_right (suc n) (x ∷ xs) ys h =
      ap (λ l. x ∷ l) (take-append_right n xs ys (omega arith))
      ∙ ap (λ k. x ∷ (xs ++ take k ys)) (omega arith)

  pub drop-append_left :
      (n : ℕ) (xs ys : List A) → n ≤ length xs → drop n (xs ++ ys) ≡ drop n xs ++ ys
  drop-append_left zero xs ys h = refl
  drop-append_left (suc n) [] ys h = absurd (omega arith)
  drop-append_left (suc n) (x ∷ xs) ys h = drop-append_left n xs ys (omega arith)

  pub drop-append_right :
      (n : ℕ) (xs ys : List A) → length xs ≤ n → drop n (xs ++ ys) ≡ drop (n - length xs) ys
  drop-append_right n [] ys h = ap (λ k. drop k ys) (omega arith)
  drop-append_right zero (x ∷ xs) ys h = absurd (omega arith)
  drop-append_right (suc n) (x ∷ xs) ys h =
      drop-append_right n xs ys (omega arith) ∙ ap (λ k. drop k ys) (omega arith)

  pub drop-drop : (m n : ℕ) (xs : List A) → drop m (drop n xs) ≡ drop (n + m) xs
  drop-drop m zero xs = ap (λ k. drop k xs) (omega arith)
  drop-drop m (suc n) [] = drop-nil m ∙ sym (drop-nil (suc n + m))
  drop-drop m (suc n) (x ∷ xs) = drop-drop m n xs ∙ ap (λ k. drop k (x ∷ xs)) (le_suc n m)
    where
      le_suc : (n m : ℕ) → suc (n + m) ≡ suc n + m
      le_suc n m = omega arith

  pub take-take : (m n : ℕ) (xs : List A) → take m (take n xs) ≡ take (min m n) xs
  take-take zero n xs = ap (λ k. take k xs) (zero_min n)
    where
      zero_min : (n : ℕ) → 0 ≡ min 0 n
      zero_min n = omega arith
  take-take (suc m) zero xs = ap (λ k. take k xs) (min_zero m)
    where
      min_zero : (m : ℕ) → 0 ≡ min (suc m) 0
      min_zero m = omega arith
  take-take (suc m) (suc n) [] = sym (take-nil (min (suc m) (suc n)))
  take-take (suc m) (suc n) (x ∷ xs) =
      ap (λ l. x ∷ l) (take-take m n xs) ∙ ap (λ k. take k (x ∷ xs)) (min_suc m n)
    where
      min_suc : (m n : ℕ) → suc (min m n) ≡ min (suc m) (suc n)
      min_suc m n = omega arith

  pub take-drop-add : (m n : ℕ) (xs : List A) → take m xs ++ take n (drop m xs) ≡ take (m + n) xs
  take-drop-add zero n xs = ap (λ k. take k xs) (omega arith)
  take-drop-add (suc m) n [] = take-nil n ∙ sym (take-nil (suc m + n))
  take-drop-add (suc m) n (x ∷ xs) =
      ap (λ l. x ∷ l) (take-drop-add m n xs) ∙ ap (λ k. take k (x ∷ xs)) (add_suc m n)
    where
      add_suc : (m n : ℕ) → suc (m + n) ≡ suc m + n
      add_suc m n = omega arith

  -- Two ranges that meet make one.
  pub slice-append :
      (a b c : ℕ) (xs : List A) → a ≤ b → b ≤ c → slice a b xs ++ slice b c xs ≡ slice a c xs
  slice-append a b c xs h k =
      ap (λ l. take (b - a) (drop a xs) ++ take (c - b) l) (sym meet)
      ∙ take-drop-add (b - a) (c - b) (drop a xs)
      ∙ ap (λ n. take n (drop a xs)) (omega arith)
    where
      meet : drop (b - a) (drop a xs) ≡ drop b xs
      meet = drop-drop (b - a) a xs ∙ ap (λ n. drop n xs) (omega arith)

  pub length-slice : (a b : ℕ) (xs : List A) → length (slice a b xs) ≡ min (b - a) (length xs - a)
  length-slice a b xs = omega (arith, length-take (b - a) (drop a xs), length-drop a xs)

  pub slice_empty : (a b : ℕ) (xs : List A) → b ≤ a → slice a b xs ≡ []
  slice_empty a b xs h = let e : b - a ≡ 0 = omega arith in rw e

  -- A range behind the first part is a range of the rest.
  pub slice-append_right :
      (a b : ℕ) (xs ys : List A)
      → length xs ≤ a
      → slice a b (xs ++ ys) ≡ slice (a - length xs) (b - length xs) ys
  slice-append_right a b xs ys h = ap₂ take (omega arith) (drop-append_right a xs ys h)

  pub slice-append_left :
      (a b : ℕ) (xs ys : List A) → b ≤ length xs → slice a b (xs ++ ys) ≡ slice a b xs
  slice-append_left a b xs ys h = elim (le_cases a (length xs)) [
    | inl k ↦
        ap (take (b - a)) (drop-append_left a xs ys k)
        ∙ take-append_left (b - a) (drop a xs) ys (omega (arith, length-drop a xs))
    | inr k ↦ slice_empty a b (xs ++ ys) (omega arith) ∙ sym (slice_empty a b xs (omega arith))
  ]
    where
      le_cases : (m n : ℕ) → (m ≤ n) ⊎ (n < m)
      le_cases m n = grind arith

  -- A range that begins in the first part and reaches past it takes the whole end of that part.
  pub slice-append_across :
      (a b : ℕ) (xs ys : List A)
      → a ≤ length xs
      → length xs ≤ b
      → slice a b (xs ++ ys) ≡ drop a xs ++ slice 0 (b - length xs) ys
  slice-append_across a b xs ys h k =
      ap (take (b - a)) (drop-append_left a xs ys h)
      ∙ take-append_right (b - a) (drop a xs) ys (omega (arith, length-drop a xs))
      ∙ ap (λ n. drop a xs ++ take n ys) (omega (arith, length-drop a xs))

  -- A range that ends behind the first part is a range of each part, joined.
  pub slice-append_split :
      (a b : ℕ) (xs ys : List A)
      → length xs ≤ b
      → slice a b (xs ++ ys) ≡ slice a (length xs) xs ++ slice (a - length xs) (b - length xs) ys
  slice-append_split a b xs ys k = elim (le_cases a (length xs)) [
    | inl h ↦
        slice-append_across a b xs ys h k
        ∙ ap₂ ◌++◌ (sym (take_all (length xs - a) (drop a xs) (omega (arith, length-drop a xs))))
            (ap (λ n. slice n (b - length xs) ys) (omega arith))
    | inr h ↦
        slice-append_right a b xs ys (omega arith)
        ∙ ap (λ l. l ++ slice (a - length xs) (b - length xs) ys)
            (sym (slice_empty a (length xs) xs (omega arith)))
  ]
    where
      le_cases : (m n : ℕ) → (m ≤ n) ⊎ (n < m)
      le_cases m n = grind arith

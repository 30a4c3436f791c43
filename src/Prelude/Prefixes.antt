-- ===== src/Prelude/Prefixes.antt =====
-- `s.startsWith(part)`: what follows the part.
use ddrive.Prelude.{ℕ, ◌≡◌, refl, ap₂, inl, inr, true, List, [], ◌∷◌, ◌++◌, ◌==◌, arith, Bool-cases}
use ddrive.Prelude.Texts.{strip_prefix, starts_with}

pub starts_with-append :
    (part s : List ℕ) → starts_with part s ≡ true → (rest : List ℕ) × (s ≡ part ++ rest)
unfolding starts_with strip_prefix
starts_with-append [] s e = (s, refl)
starts_with-append (c ∷ cs) [] e = absurd (ground (arith, e))
starts_with-append (c ∷ cs) (d ∷ ds) e = elim (Bool-cases (c == d)) [
  | inl t ↦
      let (rest, same) = starts_with-append cs ds (ground (arith, e, t)) in
      (rest, ap₂ (λ x (xs : List ℕ). x ∷ xs) (ground (arith, t)) same)
  | inr t ↦ absurd (ground (arith, e, t))
]

pub append-starts_with : (part rest : List ℕ) → starts_with part (part ++ rest) ≡ true
unfolding starts_with strip_prefix
append-starts_with [] rest = refl
append-starts_with (c ∷ cs) rest = ground (arith, append-starts_with cs rest)

pub starts_with_both-eq : (a b : List ℕ) → starts_with a b ≡ true → starts_with b a ≡ true → a ≡ b
unfolding starts_with strip_prefix
starts_with_both-eq [] [] e k = refl
starts_with_both-eq [] (d ∷ ds) e k = absurd (ground (arith, k))
starts_with_both-eq (c ∷ cs) [] e k = absurd (ground (arith, e))
starts_with_both-eq (c ∷ cs) (d ∷ ds) e k = elim (Bool-cases (c == d)) [
  | inl t ↦
      ap₂ (λ x (xs : List ℕ). x ∷ xs) (ground (arith, t))
        (starts_with_both-eq cs ds (ground (arith, e, t)) (ground (arith, k, t)))
  | inr t ↦ absurd (ground (arith, e, t))
]

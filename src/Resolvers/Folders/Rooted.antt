-- ===== src/Resolvers/Folders/Rooted.antt =====
-- apps/api/src/resolvers/folders.ts: folders without cycles, as chains of parents that end.
use ddrive.Prelude.{
  ℕ, zero, suc, ◌+◌, ◌<◌, ◌≡◌, refl, ap, ◌∙◌, inl, inr, ◌≢◌, Bool, true, false, ◌&&◌, List, [], ◌∷◌,
  Option, none, some, String, arith, str_eq, str_cases, if◌then◌else◌, find, Option-cases,
  Bool-cases, eq_iff,
}
use ddrive.Prelude.Tables.{update_many}
use ddrive.Resolvers.Folders.{
  Folder, parent_field, is_row, find_folder, parent_of, meets, set_parent,
}

-- The walk upwards from a folder ends after so many steps, at a folder with no parent in scope.
pub data Rooted (scope : Folder → Bool) (folders : List Folder) : String → ℕ → Type 0 where
  top : {id : String} → parent_of scope folders id ≡ none → Rooted scope folders id zero
  below :
      {id p : String} {n : ℕ}
      → parent_of scope folders id ≡ some p
      → Rooted scope folders p n
      → Rooted scope folders id (suc n)

-- No cycles: every walk upwards ends.
abbrev pub IsForest : (Folder → Bool) → List Folder → Type 0
IsForest scope folders = (id : String) → (n : ℕ) × Rooted scope folders id n

module _ (scope : Folder → Bool) where
  -- On a chain that ends, the loop of `moveFolder` ends too.
  pub meets-some :
      (fuel : ℕ) (folders : List Folder) (folder_id c : String) {n : ℕ}
      → Rooted scope folders c n
      → n + 1 < fuel
      → (b : Bool) × (meets scope fuel folders folder_id (some c) ≡ some b)
  unfolding meets
  meets-some zero folders folder_id c r h = absurd (omega arith)
  meets-some (suc zero) folders folder_id c r h = absurd (omega arith)
  meets-some (suc (suc fuel)) folders folder_id c (top e) h =
      elim (Bool-cases (str_eq c folder_id)) [
        | inl same ↦ (true, rw (same, meets))
        | inr other ↦ (false, rw (other, e, meets))
      ]
  meets-some (suc (suc fuel)) folders folder_id c (below {p = p} e r) h =
      elim (Bool-cases (str_eq c folder_id)) [
        | inl same ↦ (true, rw (same, meets))
        | inr other ↦
            let (b, run) = meets-some (suc fuel) folders folder_id p r (omega arith) in
            (b, rw (other, e, meets) run)
      ]

abbrev updated {ℓ} : {A : Type ℓ} → (A → Bool) → (A → A) → Option A → Option A
updated q g none = none
updated q g (some r) = some (if q r then g r else r)

-- A row is found in the updated table where it was found before.
find-update_many {ℓ} :
    {A : Type ℓ} (p q : A → Bool) (g : A → A) (rows : List A)
    → ((r : A) → p (g r) ≡ p r)
    → find p (update_many q g rows) ≡ updated q g (find p rows)
unfolding find update_many
find-update_many p q g [] same = refl
find-update_many p q g (r ∷ rows) same = ground (arith, same r, find-update_many p q g rows same)

find-passes {ℓ} :
    {A : Type ℓ} (p : A → Bool) (rows : List A) (r : A) → find p rows ≡ some r → p r ≡ true
unfolding find
find-passes p [] r e = cc
find-passes p (x ∷ rows) r e = elim (Bool-cases (p x)) [
  | inl t ↦ let x_is_r : some x ≡ some r = rw (t, find) at e in cc
  | inr f ↦ find-passes p rows r (rw (f, find) at e)
]

-- The parents after an update that keeps every row in scope, or out of it.
pub parent_of-set_parent :
    (scope : Folder → Bool) (folders : List Folder) (folder_id x : String) (parent : Option String)
    → ((f : Folder) → scope (record f { parent_folder_id = parent }) ≡ scope f)
    → find_folder scope folders folder_id ≢ none
    → parent_of scope (set_parent scope folder_id parent folders) x
      ≡ (if str_eq folder_id x then parent else parent_of scope folders x)
unfolding parent_of find_folder set_parent
parent_of-set_parent scope folders folder_id x parent keeps found =
    let moved = ap parent_field (
      find-update_many (is_row scope x) (λ f. str_eq f.id folder_id)
        (λ f. record f { parent_folder_id = parent }) folders
        (λ f. ap (λ b. str_eq f.id x && b) (keeps f))) in
    elim (Option-cases (find (is_row scope x) folders)) [
      | inl absent ↦ elim (str_cases folder_id x) [
        | inl (t, eq) ↦ absurd (found (ap (λ i. find (is_row scope i) folders) eq ∙ absent))
        | inr (t, ne) ↦ moved ∙ rw (absent, t)
      ]
      | inr (f, at) ↦
          let is_x =
            (eq_iff f.id x).0 (ground (arith, find-passes (is_row scope x) folders f at)) in
          moved ∙ rw at (ground (arith, is_x, eq_iff f.id folder_id, eq_iff folder_id x))
    ]

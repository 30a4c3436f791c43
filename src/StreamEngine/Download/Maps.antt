-- ===== src/StreamEngine/Download/Maps.antt =====
-- packages/stream-engine/src/download.ts: what the maps of the engine hold after an entry of one file
-- was written or deleted.
use ddrive.Prelude.{
  ℕ, ◌≡◌, sym, ◌∙◌, ◌⊎◌, inl, inr, Bool, true, false, not, [], ◌∷◌, Option, none, some, String,
  arith, ◌==◌, if◌then◌else◌, filter, Option-cases, Bool-cases, str_cases, str_eq, subst,
}
use ddrive.Prelude.Tables.{Map, lookup, insert, lookup-insert}
use ddrive.StreamEngine.Download.{
  Indexed, get_index, delete_index, set_index, get_in, set_in, delete_in,
}

module _ {ℓ} {A : Type ℓ} where
  -- A test on the keys keeps or drops the whole of a key.
  get_index-filter :
      (p : ℕ → Bool) (k : ℕ) (m : Indexed A)
      → get_index k (filter (λ entry. p entry.0) m) ≡ (if p k then get_index k m else none)
  unfolding get_index filter
  get_index-filter p k [] = ground arith
  get_index-filter p k ((j, a) ∷ m) = grind (arith, get_index-filter p k m)

  get_index-set_index :
      (k j : ℕ) (a b : A) (m : Indexed A)
      → get_index j (set_index k a m) ≡ some b
      → ((k ≡ j) × (a ≡ b)) ⊎ (get_index j m ≡ some b)
  unfolding get_index delete_index
  get_index-set_index k j a b m e = grind (arith, get_index-filter (λ i. not (i == k)) j m)

  get_in-insert :
      (f g : String) (k : ℕ) (m : Indexed A) (maps : Map (Indexed A))
      → get_in g k (insert f m maps) ≡ (if str_eq f g then get_index k m else get_in g k maps)
  get_in-insert f g k m maps = elim (Bool-cases (str_eq f g)) [
    | inl e ↦ rw (get_in, lookup-insert f g m maps, e)
    | inr e ↦ rw (get_in, lookup-insert f g m maps, e)
  ]

  -- An entry of the map that is written for one file, seen from any file.
  written :
      (f g : String) (j : ℕ) (b : A) (m new : Indexed A) (maps : Map (Indexed A))
      → lookup f maps ≡ some m
      → get_in g j (insert f new maps) ≡ some b
      → ((f ≡ g) × (get_index j new ≡ some b) × (get_index j m ≡ get_in g j maps))
        ⊎ (get_in g j maps ≡ some b)
  written f g j b m new maps at e = elim (str_cases f g) [
    | inl (t, eq) ↦ inl (
      eq,
      rw t at (sym (get_in-insert f g j new maps) ∙ e),
      subst (λ h. get_index j m ≡ get_in h j maps) eq (rw (get_in, at)),
    )
    | inr (t, ne) ↦ inr (rw t at (sym (get_in-insert f g j new maps) ∙ e))
  ]

  pub get_in-set_in :
      (f g : String) (k j : ℕ) (a b : A) (maps : Map (Indexed A))
      → get_in g j (set_in f k a maps) ≡ some b
      → ((f ≡ g) × (k ≡ j) × (a ≡ b)) ⊎ (get_in g j maps ≡ some b)
  get_in-set_in f g k j a b maps e = elim (Option-cases (lookup f maps)) [
    | inl absent ↦ inr (rw (absent, set_in) at e)
    | inr (m, at) ↦ elim (written f g j b m (set_index k a m) maps at (rw (at, set_in) at e)) [
      | inl (eq, new, old) ↦ elim (get_index-set_index k j a b m new) [
        | inl (same, value) ↦ inl (eq, same, value)
        | inr before ↦ inr (sym old ∙ before)
      ]
      | inr before ↦ inr before
    ]
  ]

  -- Dropping entries by their keys.
  pub get_in-filter :
      (p : ℕ → Bool) (f g : String) (j : ℕ) (b : A) (m : Indexed A) (maps : Map (Indexed A))
      → lookup f maps ≡ some m
      → get_in g j (insert f (filter (λ entry. p entry.0) m) maps) ≡ some b
      → get_in g j maps ≡ some b
  get_in-filter p f g j b m maps at e =
      elim (written f g j b m (filter (λ entry. p entry.0) m) maps at e) [
        | inl (eq, new, old) ↦ sym old ∙ kept (p j) (sym (get_index-filter p j m) ∙ new)
        | inr before ↦ before
      ]
    where
      kept : (c : Bool) {o : Option A} → (if c then o else none) ≡ some b → o ≡ some b
      kept true h = h
      kept false h = cc

  pub get_in-delete_in :
      (f g : String) (k j : ℕ) (b : A) (maps : Map (Indexed A))
      → get_in g j (delete_in f k maps) ≡ some b
      → get_in g j maps ≡ some b
  unfolding delete_index
  get_in-delete_in f g k j b maps e = elim (Option-cases (lookup f maps)) [
    | inl absent ↦ rw (absent, delete_in) at e
    | inr (m, at) ↦ get_in-filter (λ i. not (i == k)) f g j b m maps at (rw (at, delete_in) at e)
  ]

-- ===== src/Resolvers/Folders/Moving.antt =====
-- apps/api/src/resolvers/folders.ts: `moveFolder` and `moveAnonymousFolder` never make a cycle.
use ddrive.Prelude.{
  ℕ, zero, suc, ◌≡◌, sym, ap, ◌∙◌, inl, inr, ◌≢◌, Bool, true, false, List, Option, none, some,
  String, arith, str_eq, str_eq_refl, str_cases, Option-cases, Bool-cases, subst, eq_iff,
}
use ddrive.Storage.Rows.{ok, err}
use ddrive.Resolvers.Folders.{
  Folder, parent_field, find_folder, parent_of, meets, set_parent, move_under, move_folder,
}
use ddrive.Resolvers.Folders.Rooted.{Rooted, top, below, IsForest, parent_of-set_parent}

-- A folder's row is in scope whatever its parent.
abbrev pub IgnoresParents : (Folder → Bool) → Type 0
IgnoresParents scope =
    (f : Folder) (parent : Option String) → scope (record f { parent_folder_id = parent }) ≡ scope f

module _ (scope : Folder → Bool) (keeps : IgnoresParents scope) where
  other_parent :
      (folders : List Folder) (id x : String) (parent : Option String)
      → find_folder scope folders id ≢ none
      → str_eq id x ≡ false
      → parent_of scope (set_parent scope id parent folders) x ≡ parent_of scope folders x
  other_parent folders id x parent found ne =
      parent_of-set_parent scope folders id x parent (λ f. keeps f parent) found ∙ rw ne

  own_parent :
      (folders : List Folder) (id : String) (parent : Option String)
      → find_folder scope folders id ≢ none
      → parent_of scope (set_parent scope id parent folders) id ≡ parent
  own_parent folders id parent found =
      parent_of-set_parent scope folders id id parent (λ f. keeps f parent) found
      ∙ rw (str_eq_refl id)

  -- A chain on which the loop has not met the folder ends in the new table as well.
  meets-Rooted :
      (fuel : ℕ) (folders : List Folder) (id c : String) (parent : Option String)
      → find_folder scope folders id ≢ none
      → meets scope fuel folders id (some c) ≡ some false
      → (n : ℕ) × Rooted scope (set_parent scope id parent folders) c n
  unfolding meets
  meets-Rooted zero folders id c parent found e = cc
  meets-Rooted (suc fuel) folders id c parent found e = elim (str_cases c id) [
    | inl (t, same) ↦ let bad : some true ≡ some false = rw (t, meets) at e in cc
    | inr (t, ne) ↦
        let step = other_parent folders id c parent found (ground (arith, eq_iff id c)) in
        let rest : meets scope fuel folders id (parent_of scope folders c) ≡ some false =
          rw (t, meets) at e in
        elim (Option-cases (parent_of scope folders c)) [
          | inl none_left ↦ (0, top (step ∙ none_left))
          | inr (p, at) ↦
              let (n, r) = meets-Rooted fuel folders id p parent found (rw at at rest) in
              (suc n, below (step ∙ at) r)
        ]
  ]

  -- If the chain from the folder that moves ends, all do.
  Rooted-set_parent :
      (folders : List Folder) (id x : String) (parent : Option String) {n : ℕ}
      → find_folder scope folders id ≢ none
      → ((k : ℕ) × Rooted scope (set_parent scope id parent folders) id k)
      → Rooted scope folders x n
      → (k : ℕ) × Rooted scope (set_parent scope id parent folders) x k
  Rooted-set_parent folders id x parent found base (top e) = elim (str_cases id x) [
    | inl (t, eq) ↦
        subst (λ y. (k : ℕ) × Rooted scope (set_parent scope id parent folders) y k) eq base
    | inr (t, ne) ↦ (0, top (other_parent folders id x parent found t ∙ e))
  ]
  Rooted-set_parent folders id x parent found base (below {p = p} e r) = elim (str_cases id x) [
    | inl (t, eq) ↦
        subst (λ y. (k : ℕ) × Rooted scope (set_parent scope id parent folders) y k) eq base
    | inr (t, ne) ↦
        let (k, s) = Rooted-set_parent folders id p parent found base r in
        (suc k, below (other_parent folders id x parent found t ∙ e) s)
  ]

  free_chain :
      (fuel : ℕ) (folders : List Folder) (id c : String) (parent above : Option String)
      → find_folder scope folders id ≢ none
      → str_eq c id ≡ false
      → parent_of scope folders c ≡ above
      → meets scope fuel folders id above ≡ some false
      → (n : ℕ) × Rooted scope (set_parent scope id parent folders) c n
  free_chain fuel folders id c parent none found ne at e = (
    0,
    top (other_parent folders id c parent found (ground (arith, eq_iff id c, eq_iff c id)) ∙ at),
  )
  free_chain fuel folders id c parent (some p) found ne at e =
      let (n, r) = meets-Rooted fuel folders id p parent found e in
      (
        suc n,
        below
            (other_parent folders id c parent found (ground (arith, eq_iff id c, eq_iff c id)) ∙ at)
            r,
      )

  -- What `moveFolder` has checked when it moves a folder under another.
  move_under-Rooted :
      (fuel : ℕ) (folders after : List Folder) (id target : String)
      → find_folder scope folders id ≢ none
      → str_eq target id ≡ false
      → move_under scope fuel folders id target ≡ some (ok after)
      → (after ≡ set_parent scope id (some target) folders)
        × ((n : ℕ) × Rooted scope (set_parent scope id (some target) folders) target n)
  unfolding move_under
  move_under-Rooted fuel folders after id target found ne e =
      elim (Option-cases (find_folder scope folders target)) [
        | inl absent ↦
            let bad : some (err "Target folder not found") ≡ some (ok after) =
              rw (absent, move_under) at e in
            cc
        | inr (p, at) ↦ elim (Option-cases (meets scope fuel folders id p.parent_folder_id)) [
          | inl out ↦ let bad : none ≡ some (ok after) = rw (at, out, move_under) at e in cc
          | inr (true, met) ↦
              let bad : some (err "Cannot move folder into its own subfolder") ≡ some (ok after) =
                rw (at, met, move_under) at e in
              cc
          | inr (false, free) ↦
              let done : some (ok (set_parent scope id (some target) folders)) ≡ some (ok after) =
                rw (at, free, move_under) at e in
              (
                cc,
                free_chain fuel folders id target (some target) p.parent_folder_id found ne
                    (unfold parent_of in ap parent_field at) free,
              )
        ]
      ]

  -- Where a folder's scope does not depend on its parent and the folders in scope have no cycles, a
  -- move that succeeds leaves them without cycles.
  pub move_folder-IsForest :
      (fuel : ℕ) (folders after : List Folder) (id : String) (parent : Option String)
      → IsForest scope folders
      → move_folder scope fuel folders id parent ≡ some (ok after)
      → IsForest scope after
  unfolding move_folder
  move_folder-IsForest fuel folders after id none forest e x =
      elim (Option-cases (find_folder scope folders id)) [
        | inl absent ↦
            let bad : some (err "Folder not found") ≡ some (ok after) =
              rw (absent, move_folder) at e in
            cc
        | inr (f, at) ↦
            let done : some (ok (set_parent scope id none folders)) ≡ some (ok after) =
              rw (at, move_folder) at e in
            let there : find_folder scope folders id ≢ none = λ gone. cc in
            let same : set_parent scope id none folders ≡ after = cc in
            subst (λ fs. (n : ℕ) × Rooted scope fs x n) same
              (Rooted-set_parent folders id x none there (0, top (own_parent folders id none there))
                (forest x).1)
      ]
  move_folder-IsForest fuel folders after id (some target) forest e x =
      elim (Option-cases (find_folder scope folders id)) [
        | inl absent ↦
            let bad : some (err "Folder not found") ≡ some (ok after) =
              rw (absent, move_folder) at e in
            cc
        | inr (f, at) ↦ elim (Bool-cases (str_eq target id)) [
          | inl same ↦
              let bad : some (err "Cannot move folder into itself") ≡ some (ok after) =
                rw (at, same, move_folder) at e in
              cc
          | inr ne ↦
              let there : find_folder scope folders id ≢ none = λ gone. cc in
              let (same, (n, chain)) =
                move_under-Rooted fuel folders after id target there ne
                  (rw (at, ne, move_folder) at e) in
              subst (λ fs. (n : ℕ) × Rooted scope fs x n) (sym same)
                (Rooted-set_parent folders id x (some target) there
                  (suc n, below (own_parent folders id (some target) there) chain) (forest x).1)
        ]
      ]

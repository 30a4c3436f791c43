-- ===== src/Resolvers/Folders/Subfolders.antt =====
-- apps/api/src/resolvers/folders.ts: which moves `moveFolder` and `moveAnonymousFolder` refuse, and
-- that they end.
use ddrive.Prelude.{
  ℕ, zero, suc, ◌+◌, ◌≤◌, ◌≡◌, refl, sym, ap, ◌∙◌, ◌⊎◌, inl, inr, ◌≢◌, Bool, true, false, List,
  Option, none, some, String, arith, str_eq, str_eq_refl, str_cases, Option-cases, Bool-cases,
  subst,
}
use ddrive.Storage.Rows.{ok, err}
use ddrive.Resolvers.Folders.{
  Folder, parent_field, find_folder, parent_of, meets, set_parent, move_under, move_folder,
}
use ddrive.Resolvers.Folders.Rooted.{IsForest, meets-some}

-- `c` is the folder `id`, or stands somewhere below it.
pub data Under (scope : Folder → Bool) (folders : List Folder) (id : String) : String → Type 0 where
  itself : Under scope folders id id
  inside :
      {c p : String}
      → parent_of scope folders c ≡ some p
      → Under scope folders id p
      → Under scope folders id c

module _ (scope : Folder → Bool) where
  -- The loop answers "yes" only below the folder.
  meets-Under :
      (fuel : ℕ) (folders : List Folder) (id c : String)
      → meets scope fuel folders id (some c) ≡ some true
      → Under scope folders id c
  unfolding meets
  meets-Under zero folders id c e = cc
  meets-Under (suc zero) folders id c e = elim (str_cases c id) [
    | inl (t, same) ↦ subst (λ x. Under scope folders id x) (sym same) itself
    | inr (t, ne) ↦
        let bad : meets scope zero folders id (parent_of scope folders c) ≡ some true =
          rw (t, meets) at e in
        cc
  ]
  meets-Under (suc (suc fuel)) folders id c e = elim (str_cases c id) [
    | inl (t, same) ↦ subst (λ x. Under scope folders id x) (sym same) itself
    | inr (t, ne) ↦
        let rest : meets scope (suc fuel) folders id (parent_of scope folders c) ≡ some true =
          rw (t, meets) at e in
        elim (Option-cases (parent_of scope folders c)) [
          | inl root ↦ let bad : some false ≡ some true = rw root at rest in cc
          | inr (p, at) ↦ inside at (meets-Under (suc fuel) folders id p (rw at at rest))
        ]
  ]

  -- and below it never "no".
  Under-meets :
      (fuel : ℕ) (folders : List Folder) (id c : String)
      → Under scope folders id c
      → meets scope fuel folders id (some c) ≢ some false
  unfolding meets
  Under-meets zero folders id c u e = cc
  Under-meets (suc fuel) folders id c itself e =
      let bad : some true ≡ some false = rw (str_eq_refl id, meets) at e in cc
  Under-meets (suc fuel) folders id c (inside {p = p} at u) e = elim (Bool-cases (str_eq c id)) [
    | inl t ↦ let bad : some true ≡ some false = rw (t, meets) at e in cc
    | inr t ↦ Under-meets fuel folders id p u (rw (t, at, meets) at e)
  ]

  Under-parent_of :
      (folders : List Folder) (id c : String)
      → str_eq c id ≡ false
      → Under scope folders id c
      → (p : String) × (parent_of scope folders c ≡ some p) × Under scope folders id p
  Under-parent_of folders id c ne itself = let bad : true ≡ false = sym (str_eq_refl id) ∙ ne in cc
  Under-parent_of folders id c ne (inside {p = p} at u) = (p, at, u)

  -- The walk from the parent of a folder ends, and tells whether the folder is below `id`.
  walk-outcome :
      (folders : List Folder) (id c : String) (above : Option String)
      → IsForest scope folders
      → str_eq c id ≡ false
      → parent_of scope folders c ≡ above
      → (enough : ℕ) × ((fuel : ℕ)
          → enough ≤ fuel
          → (Under scope folders id c × (meets scope fuel folders id above ≡ some true))
            ⊎ (¬ Under scope folders id c × (meets scope fuel folders id above ≡ some false)))
  unfolding meets
  walk-outcome folders id c none forest ne at = (1, at_root)
    where
      at_root :
          (fuel : ℕ)
          → 1 ≤ fuel
          → (Under scope folders id c × (meets scope fuel folders id none ≡ some true))
            ⊎ (¬ Under scope folders id c × (meets scope fuel folders id none ≡ some false))
      at_root zero h = absurd (omega arith)
      at_root (suc fuel) h =
          inr (λ u. let (p, at', u') = Under-parent_of folders id c ne u in cc, refl)
  walk-outcome folders id c (some p) forest ne at =
      let (n, r) = forest p in
      (n + 2, λ fuel h. met fuel (meets-some scope fuel folders id p r (omega arith)))
    where
      met :
          (fuel : ℕ)
          → (b : Bool) × (meets scope fuel folders id (some p) ≡ some b)
          → (Under scope folders id c × (meets scope fuel folders id (some p) ≡ some true))
            ⊎ (¬ Under scope folders id c × (meets scope fuel folders id (some p) ≡ some false))
      met fuel (true, run) = inl (inside at (meets-Under fuel folders id p run), run)
      met fuel (false, run) = inr (
        λ u.
            let (q, at', u') = Under-parent_of folders id c ne u in
            let same : q ≡ p = cc in
            Under-meets fuel folders id p (subst (λ x. Under scope folders id x) same u') run,
        run,
      )

  -- What `moveFolder` answers for two folders that are there: it refuses to move `id` under itself or
  -- one of its subfolders, and otherwise moves it.
  abbrev pub Fate : ℕ → List Folder → String → String → Type 0
  Fate fuel folders id target =
      (Under scope folders id target
        × ((why : String) × (move_folder scope fuel folders id (some target) ≡ some (err why))))
      ⊎ (¬ Under scope folders id target
          × (move_folder scope fuel folders id (some target)
              ≡ some (ok (set_parent scope id (some target) folders))))

  -- Where the folders have no cycles and both folders are there, the move ends: it is refused when the
  -- target is the folder or one of its subfolders, and otherwise made.
  pub move_folder-outcome :
      (folders : List Folder) (id target : String)
      → IsForest scope folders
      → find_folder scope folders id ≢ none
      → find_folder scope folders target ≢ none
      → (enough : ℕ) × ((fuel : ℕ) → enough ≤ fuel → Fate fuel folders id target)
  unfolding move_folder move_under
  move_folder-outcome folders id target forest found there =
      elim (Option-cases (find_folder scope folders id)) [
        | inl absent ↦ absurd (found absent)
        | inr (f, at) ↦ elim (Option-cases (find_folder scope folders target)) [
          | inl absent ↦ absurd (there absent)
          | inr (p, to) ↦ elim (str_cases target id) [
            | inl (t, same) ↦ (
              0,
              λ fuel h. inl (
                subst (λ x. Under scope folders id x) (sym same) itself,
                ("Cannot move folder into itself", rw (at, t, move_folder)),
              ),
            )
            | inr (t, ne) ↦
                let (enough, walk) =
                  walk-outcome folders id target p.parent_folder_id forest t
                    (unfold parent_of in ap parent_field to) in
                (
                  enough,
                  λ fuel h. elim (walk fuel h) [
                    | inl (u, run) ↦ inl (
                      u,
                      (
                        "Cannot move folder into its own subfolder",
                        rw (at, t, to, run, move_folder, move_under),
                      ),
                    )
                    | inr (u, run) ↦ inr (u, rw (at, t, to, run, move_folder, move_under))
                  ],
                )
          ]
        ]
      ]

-- ===== src/Database/Keys.antt =====
-- packages/database/prisma/schema.prisma: rows found by a key in a table that is updated.
use ddrive.Prelude.{
  ◌≡◌, refl, inl, inr, Bool, true, false, not, List, [], ◌∷◌, none, some, arith, find, filter, All,
  All-mono, Bool-cases, map, String, str_eq, str_eq_refl, any, eq_iff, ◌||◌, subst, sym,
}
use ddrive.Prelude.Tables.{update_many, delete_many}

module _ {ℓ} {Row : Type ℓ} (p : Row → Bool) where
  pub find-passes : (rows : List Row) (a : Row) → find p rows ≡ some a → p a ≡ true
  unfolding find
  find-passes [] a e = absurd (none_some e)
    where
      none_some : none ≡ some a → ⊥
      none_some e = cc
  find-passes (r ∷ rows) a e = ground (arith, e, find-passes rows a)

  pub find-update_many :
      (f : Row → Row) (rows : List Row) (a : Row)
      → p (f a) ≡ true
      → find p rows ≡ some a
      → find p (update_many p f rows) ≡ some (f a)
  unfolding find update_many
  find-update_many f [] a kept e = absurd (none_some e)
    where
      none_some : none ≡ some a → ⊥
      none_some e = cc
  find-update_many f (r ∷ rows) a kept e = elim (Bool-cases (p r)) [
    | inl t ↦ ground (arith, e, t, kept)
    | inr t ↦ ground (arith, e, t, find-update_many f rows a kept)
  ]

-- A row that no update matches is found as before.
pub find-update_many_other {ℓ} :
    {Row : Type ℓ} (p q : Row → Bool) (f : Row → Row) (rows : List Row)
    → ((r : Row) → q r ≡ true → p r ≡ false)
    → ((r : Row) → p r ≡ true → q (f r) ≡ false)
    → find q (update_many p f rows) ≡ find q rows
unfolding find update_many
find-update_many_other p q f [] apart kept = refl
find-update_many_other p q f (r ∷ rows) apart kept =
    ground (arith, find-update_many_other p q f rows apart kept, apart r, kept r)

-- A test that is weaker finds a row where one is found.
pub find_weaker {ℓ} :
    {Row : Type ℓ} (p q : Row → Bool) (rows : List Row) (a : Row)
    → ((r : Row) → q r ≡ true → p r ≡ true)
    → find q rows ≡ some a
    → (b : Row) × (find p rows ≡ some b)
unfolding find
find_weaker p q [] a weaker e = absurd (none_some e)
  where
    none_some : none ≡ some a → ⊥
    none_some e = cc
find_weaker p q (r ∷ rows) a weaker e = elim (Bool-cases (p r)) [
  | inl t ↦ (r, ground (arith, t))
  | inr t ↦
      let (b, found) = find_weaker p q rows a weaker (ground (arith, e, t, weaker r)) in
      (b, ground (arith, t, found))
]

-- What deletions and filters leave.
module _ {ℓ} {Row : Type ℓ} where
  pub find-delete_many : (p : Row → Bool) (rows : List Row) → find p (delete_many p rows) ≡ none
  unfolding find delete_many
  find-delete_many p [] = refl
  find-delete_many p (r ∷ rows) = ground (arith, find-delete_many p rows)

  pub delete_many-none :
      (p : Row → Bool) (rows : List Row) → find p rows ≡ none → delete_many p rows ≡ rows
  unfolding find delete_many
  delete_many-none p [] e = refl
  delete_many-none p (r ∷ rows) e = ground (arith, e, delete_many-none p rows)

  pub delete_many_twice :
      (p q : Row → Bool) (rows : List Row)
      → delete_many p (delete_many q rows) ≡ delete_many (λ r. q r || p r) rows
  unfolding delete_many
  delete_many_twice p q [] = refl
  delete_many_twice p q (r ∷ rows) = ground (arith, delete_many_twice p q rows)

  pub filter-delete_many :
      (q p : Row → Bool) (rows : List Row)
      → All (λ r. q r ≡ true → p r ≡ true) rows
      → filter q (delete_many p rows) ≡ []
  unfolding filter delete_many
  filter-delete_many q p [] h = refl
  filter-delete_many q p (r ∷ rows) (k, h) = ground (arith, k, filter-delete_many q p rows h)

  pub delete_many-filter :
      (p q : Row → Bool) (rows : List Row)
      → All (λ r. p r ≡ q r) rows
      → delete_many p rows ≡ filter (λ r. not (q r)) rows
  unfolding filter delete_many
  delete_many-filter p q [] h = refl
  delete_many-filter p q (r ∷ rows) (k, h) = ground (arith, k, delete_many-filter p q rows h)

  pub delete_many_congr :
      (p q : Row → Bool) (rows : List Row)
      → ((r : Row) → p r ≡ q r)
      → delete_many p rows ≡ delete_many q rows
  unfolding delete_many
  delete_many_congr p q [] h = refl
  delete_many_congr p q (r ∷ rows) h = ground (arith, h r, delete_many_congr p q rows h)

  pub filter-kept_update :
      (q p : Row → Bool) (f : Row → Row) (rows : List Row)
      → All (λ r. p r ≡ true → (q r ≡ false) × (q (f r) ≡ false)) rows
      → filter q (update_many p f rows) ≡ filter q rows
  unfolding filter update_many
  filter-kept_update q p f [] h = refl
  filter-kept_update q p f (r ∷ rows) (k, h) = ground (arith, k, filter-kept_update q p f rows h)

  pub filter-kept_delete :
      (q p : Row → Bool) (rows : List Row)
      → All (λ r. p r ≡ true → q r ≡ false) rows
      → filter q (delete_many p rows) ≡ filter q rows
  unfolding filter delete_many
  filter-kept_delete q p [] h = refl
  filter-kept_delete q p (r ∷ rows) (k, h) = ground (arith, k, filter-kept_delete q p rows h)

  pub update_many_twice :
      (p : Row → Bool) (f g h : Row → Row) (rows : List Row)
      → All (λ r. p r ≡ true → (p (f r) ≡ true) × (g (f r) ≡ h r)) rows
      → update_many p g (update_many p f rows) ≡ update_many p h rows
  unfolding update_many
  update_many_twice p f g h [] k = refl
  update_many_twice p f g h (r ∷ rows) (a, k) = ground (arith, a, update_many_twice p f g h rows k)

  pub update_many_back :
      (p : Row → Bool) (f g : Row → Row) (rows : List Row)
      → All (λ r. p r ≡ true → (p (f r) ≡ true) × (g (f r) ≡ r)) rows
      → update_many p g (update_many p f rows) ≡ rows
  unfolding update_many
  update_many_back p f g [] h = refl
  update_many_back p f g (r ∷ rows) (k, h) = ground (arith, k, update_many_back p f g rows h)

-- No row that a deletion matches is left.
pub filter-deleted {ℓ} :
    {Row : Type ℓ} (p : Row → Bool) (rows : List Row) → filter p (delete_many p rows) ≡ []
filter-deleted {Row = Row} p rows = filter-delete_many p p rows (each rows)
  where
    each : (xs : List Row) → All (λ r. p r ≡ true → p r ≡ true) xs
    each [] = tt
    each (x ∷ xs) = (λ k. k, each xs)

-- What holds of all rows holds of the one that is found.
pub find-All {ℓ κ} :
    {Row : Type ℓ} (P : Row → Type κ) (q : Row → Bool) (rows : List Row) (a : Row)
    → All P rows
    → find q rows ≡ some a
    → P a
unfolding find
find-All P q [] a h e = absurd (let bad : none ≡ some a = e in cc)
find-All P q (r ∷ rows) a (k, h) e = elim (Bool-cases (q r)) [
  | inl t ↦ subst P (let eq : some r ≡ some a = rw t at e in cc) k
  | inr t ↦ find-All P q rows a h (rw t at e)
]

-- Keys of rows, and the keys of those that pass a test.
module _ {ℓ} {Row : Type ℓ} (key : Row → String) where
  -- No two rows have the same key.
  abbrev pub UniqueKeys : List Row → Type ℓ
  UniqueKeys rows = All (λ r. All (λ s. str_eq (key s) (key r) ≡ true → s ≡ r) rows) rows

  pub unique-found :
      (q : Row → Bool) (rows : List Row) (a : Row)
      → UniqueKeys rows
      → find q rows ≡ some a
      → All (λ s. str_eq (key s) (key a) ≡ true → s ≡ a) rows
  unique-found q rows a unique e =
      find-All (λ r. All (λ s. str_eq (key s) (key r) ≡ true → s ≡ r) rows) q rows a unique e

  within :
      (q : Row → Bool) (rows : List Row) (ids : List String)
      → ((id : String)
          → any (str_eq id) (map key (filter q rows)) ≡ true
          → any (str_eq id) ids ≡ true)
      → All (λ r. q r ≡ true → any (str_eq (key r)) ids ≡ true) rows
  unfolding filter
  within q [] ids h = tt
  within q (r ∷ rows) ids h = elim (Bool-cases (q r)) [
    | inl t ↦
        let h' = rw t at h in
        (
          λ k. h' (key r) (ground (arith, str_eq_refl (key r))),
          within q rows ids (λ id k. h' id (ground (arith, k))),
        )
    | inr t ↦
        (λ k. absurd (let bad : false ≡ true = rw t at k in cc), within q rows ids (rw t at h))
  ]

  -- The keys of the rows that pass a test are theirs, and with unique keys theirs only.
  pub keys-filter :
      (q : Row → Bool) (rows : List Row)
      → All (λ r. q r ≡ true → any (str_eq (key r)) (map key (filter q rows)) ≡ true) rows
  keys-filter q rows = within q rows (map key (filter q rows)) (λ id k. k)

  passes :
      (q : Row → Bool) (rows : List Row) (r : Row)
      → All (λ s. str_eq (key r) (key s) ≡ true → r ≡ s) rows
      → any (str_eq (key r)) (map key (filter q rows)) ≡ true
      → q r ≡ true
  unfolding filter
  passes q [] r same k = absurd (let bad : false ≡ true = k in cc)
  passes q (s ∷ rows) r (e, same) k = elim (Bool-cases (q s)) [
    | inr t ↦ passes q rows r same (rw t at k)
    | inl t ↦ elim (Bool-cases (str_eq (key r) (key s))) [
      | inl eq ↦ rw (e eq) t
      | inr ne ↦ passes q rows r same (ground (arith, k, t, ne))
    ]
  ]

  both :
      (q : Row → Bool) (ids : List String) (rows : List Row)
      → All (λ r. q r ≡ true → any (str_eq (key r)) ids ≡ true) rows
      → All (λ r. any (str_eq (key r)) ids ≡ true → q r ≡ true) rows
      → All (λ r. any (str_eq (key r)) ids ≡ q r) rows
  both q ids [] h k = tt
  both q ids (r ∷ rows) (a, h) (b, k) = (ground (arith, a, b), both q ids rows h k)

  pub keys-filter_unique :
      (q : Row → Bool) (rows : List Row)
      → UniqueKeys rows
      → All (λ r. any (str_eq (key r)) (map key (filter q rows)) ≡ q r) rows
  keys-filter_unique q rows unique = both q (map key (filter q rows)) rows (keys-filter q rows) (
      All-mono (λ r. All (λ s. str_eq (key s) (key r) ≡ true → s ≡ r) rows)
        (λ r. any (str_eq (key r)) (map key (filter q rows)) ≡ true → q r ≡ true)
        (λ r same. passes q rows r (
          All-mono (λ s. str_eq (key s) (key r) ≡ true → s ≡ r)
            (λ s. str_eq (key r) (key s) ≡ true → r ≡ s)
            (λ s e k. sym (e (ground (arith, k, eq_iff (key r) (key s), eq_iff (key s) (key r)))))
            rows same))
        rows unique)

-- The only row that an update matches is found behind it by what it has become.
pub find-updated {ℓ} :
    {Row : Type ℓ} (p q before : Row → Bool) (f : Row → Row) (rows : List Row) (a : Row)
    → ((r : Row) → p r ≡ false → (q r ≡ false) × (before r ≡ false))
    → All (λ r. p r ≡ true → r ≡ a) rows
    → q (f a) ≡ true
    → find before rows ≡ some a
    → find q (update_many p f rows) ≡ some (f a)
unfolding find update_many
find-updated p q before f [] a apart only kept e = absurd (let bad : none ≡ some a = e in cc)
find-updated p q before f (r ∷ rows) a apart (k, only) kept e = elim (Bool-cases (p r)) [
  | inl t ↦ rw (t, k t, kept) refl
  | inr t ↦
      let (not_after, not_before) = apart r t in
      rw (t, not_after) (find-updated p q before f rows a apart only kept (rw not_before at e))
]

-- A row found by a test that an update does not change is found behind it, updated.
pub find-update_kept {ℓ} :
    {Row : Type ℓ} (p q : Row → Bool) (f : Row → Row) (rows : List Row) (a : Row)
    → ((r : Row) → q r ≡ true → p r ≡ true)
    → ((r : Row) → q (f r) ≡ q r)
    → find q rows ≡ some a
    → find q (update_many p f rows) ≡ some (f a)
unfolding find update_many
find-update_kept p q f [] a stronger keeps e = absurd (let bad : none ≡ some a = e in cc)
find-update_kept p q f (r ∷ rows) a stronger keeps e = elim (Bool-cases (q r)) [
  | inl t ↦ ground (arith, e, t, keeps r, stronger r t)
  | inr t ↦ ground (arith, e, t, keeps r, find-update_kept p q f rows a stronger keeps)
]

-- ===== src/Database/Updates.antt =====
-- packages/database/prisma/schema.prisma: what updates, additions and deletions leave to be found.
use ddrive.Prelude.{
  ◌≡◌, refl, inl, inr, Bool, true, false, not, List, [], ◌∷◌, ◌++◌, if◌then◌else◌, none, some,
  arith, find, filter, All, Bool-cases, map, String, str_eq, str_eq_refl, ◌||◌, subst,
}
use ddrive.Prelude.Tables.{update_many, delete_many}

-- A row found by a test that an update does not change is found behind it, updated where it matches.
pub find-update_through {ℓ} :
    {Row : Type ℓ} (p q : Row → Bool) (f : Row → Row) (rows : List Row) (a : Row)
    → ((r : Row) → q (f r) ≡ q r)
    → find q rows ≡ some a
    → find q (update_many p f rows) ≡ some (if p a then f a else a)
unfolding find update_many
find-update_through p q f [] a keeps e = absurd (let bad : none ≡ some a = e in cc)
find-update_through p q f (r ∷ rows) a keeps e =
    ground (arith, e, keeps r, find-update_through p q f rows a keeps)

-- A row that is added is found where none was.
pub find-append {ℓ} :
    {Row : Type ℓ} (q : Row → Bool) (rows more : List Row)
    → find q rows ≡ none
    → find q (rows ++ more) ≡ find q more
unfolding find
find-append q [] more e = refl
find-append q (r ∷ rows) more e = ground (arith, e, find-append q rows more)

-- A row that a test finds is there: its key finds one.
pub find_by_key {ℓ} :
    {Row : Type ℓ} (key : Row → String) (q : Row → Bool) (rows : List Row) (a : Row)
    → find q rows ≡ some a
    → (b : Row) × (find (λ r. str_eq (key r) (key a)) rows ≡ some b)
unfolding find
find_by_key key q [] a e = absurd (let bad : none ≡ some a = e in cc)
find_by_key key q (r ∷ rows) a e = elim (Bool-cases (str_eq (key r) (key a))) [
  | inl t ↦ (r, ground (arith, t))
  | inr t ↦
      let (b, found) = find_by_key key q rows a (ground (arith, e, t, str_eq_refl (key a))) in
      (b, ground (arith, t, found))
]

-- Where a test finds none, a stronger one does not, and where two find none, either does not.
module _ {ℓ} {Row : Type ℓ} where
  pub find-none_stronger :
      (p q : Row → Bool) (rows : List Row)
      → ((r : Row) → q r ≡ true → p r ≡ true)
      → find p rows ≡ none
      → find q rows ≡ none
  unfolding find
  find-none_stronger p q [] stronger e = refl
  find-none_stronger p q (r ∷ rows) stronger e =
      ground (arith, e, stronger r, find-none_stronger p q rows stronger)

  pub find-none_either :
      (p q : Row → Bool) (rows : List Row)
      → find p rows ≡ none
      → find q rows ≡ none
      → find (λ r. p r || q r) rows ≡ none
  unfolding find
  find-none_either p q [] e k = refl
  find-none_either p q (r ∷ rows) e k = ground (arith, e, k, find-none_either p q rows)

-- What passes a test only if it is deleted is not found, nor left.
module _ {ℓ} {Row : Type ℓ} where
  pub find-delete_many_within :
      (q p : Row → Bool) (rows : List Row)
      → All (λ r. q r ≡ true → p r ≡ true) rows
      → find q (delete_many p rows) ≡ none
  unfolding find delete_many
  find-delete_many_within q p [] h = refl
  find-delete_many_within q p (r ∷ rows) (k, h) =
      ground (arith, k, find-delete_many_within q p rows h)

  pub update_many-All {κ} :
      (P : Row → Type κ) (p : Row → Bool) (f : Row → Row) (rows : List Row)
      → ((r : Row) → P r → P (f r))
      → All P rows
      → All P (update_many p f rows)
  unfolding update_many
  update_many-All P p f [] keeps h = tt
  update_many-All P p f (r ∷ rows) keeps (k, h) = elim (Bool-cases (p r)) [
    | inl t ↦ rw t (keeps r k, update_many-All P p f rows keeps h)
    | inr t ↦ rw t (k, update_many-All P p f rows keeps h)
  ]

  -- No row that passes a test is left where every such row is deleted, and updates of other columns
  -- make none.
  pub filter-deleted_within :
      (q p : Row → Bool) (rows : List Row)
      → ((r : Row) → q r ≡ true → p r ≡ true)
      → filter q (delete_many p rows) ≡ []
  unfolding filter delete_many
  filter-deleted_within q p [] h = refl
  filter-deleted_within q p (r ∷ rows) h = ground (arith, h r, filter-deleted_within q p rows h)

  pub filter-map_none :
      (q : Row → Bool) (f : Row → Row) (rows : List Row)
      → ((r : Row) → q (f r) ≡ q r)
      → filter q rows ≡ []
      → filter q (map f rows) ≡ []
  unfolding filter
  filter-map_none q f [] keeps e = refl
  filter-map_none q f (r ∷ rows) keeps e =
      ground (arith, e, keeps r, filter-map_none q f rows keeps)

  -- The rows that a deletion leaves are those that do not match, all of them.
  pub filter-others :
      (p : Row → Bool) (rows : List Row)
      → filter (λ r. not (p r)) (delete_many p rows) ≡ filter (λ r. not (p r)) rows
  unfolding filter delete_many
  filter-others p [] = refl
  filter-others p (r ∷ rows) = ground (arith, filter-others p rows)

-- Updates of rows of which others do not pass a test.
module _ {ℓ} {Row : Type ℓ} (p q : Row → Bool) where
  pub find-updated_only :
      (before : Row → Bool) (f : Row → Row) (rows : List Row) (a : Row)
      → All (λ r. p r ≡ false → q r ≡ false) rows
      → All (λ r. p r ≡ true → r ≡ a) rows
      → q (f a) ≡ true
      → p a ≡ true
      → find before rows ≡ some a
      → find q (update_many p f rows) ≡ some (f a)
  unfolding find update_many
  find-updated_only before f [] a others only kept is e = absurd (let bad : none ≡ some a = e in cc)
  find-updated_only before f (r ∷ rows) a (o, others) (k, only) kept is e =
      elim (Bool-cases (p r)) [
        | inl t ↦ rw (t, k t, kept) refl
        | inr t ↦ elim (Bool-cases (before r)) [
          | inl b ↦ absurd (
              let same : some r ≡ some a = rw b at e in
              let bad : p r ≡ true = (subst (λ x. p x ≡ true) (some-injective r a same) is) in cc)
          | inr b ↦ rw (t, o t) (find-updated_only before f rows a others only kept is (rw b at e))
        ]
      ]
    where
      some-injective : (x y : Row) → some x ≡ some y → y ≡ x
      some-injective x y e = cc

  pub find-none_updated :
      (f : Row → Row) (rows : List Row)
      → All (λ r. p r ≡ false → q r ≡ false) rows
      → ((r : Row) → q (f r) ≡ false)
      → find q (update_many p f rows) ≡ none
  unfolding find update_many
  find-none_updated f [] others gone = refl
  find-none_updated f (r ∷ rows) (o, others) gone =
      ground (arith, o, gone r, find-none_updated f rows others gone)

pub update_many_twice {ℓ} :
    {Row : Type ℓ} (p : Row → Bool) (f g : Row → Row) (rows : List Row)
    → ((r : Row) → p (g r) ≡ p r)
    → update_many p f (update_many p g rows) ≡ update_many p (λ r. f (g r)) rows
unfolding update_many
update_many_twice p f g [] keeps = refl
update_many_twice p f g (r ∷ rows) keeps =
    ground (arith, keeps r, update_many_twice p f g rows keeps)

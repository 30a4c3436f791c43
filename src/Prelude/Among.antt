-- ===== src/Prelude/Among.antt =====
-- Which elements a list has, through the functions on lists that the modules use.
use ddrive.Prelude.{
  ◌≡◌, refl, sym, ap, subst, ◌⊎◌, inl, inr, Bool, true, false, List, [], ◌∷◌, ◌++◌, map, filter,
  flatten, any, str_eq, String, arith, Bool-cases, eq_iff,
}
use ddrive.Prelude.Tables.{delete_many}

abbrev pub Among : {A : Type 0} → A → List A → Type 0
Among x [] = ⊥
Among x (y ∷ ys) = (x ≡ y) ⊎ Among x ys

module _ {A : Type 0} (x : A) where
  pub append-Among : (xs ys : List A) → Among x (xs ++ ys) → Among x xs ⊎ Among x ys
  append-Among [] ys m = inr m
  append-Among (z ∷ xs) ys (inl e) = inl (inl e)
  append-Among (z ∷ xs) ys (inr m) = elim (append-Among xs ys m) [
    | inl k ↦ inl (inr k)
    | inr k ↦ inr k
  ]

  pub Among-append_left : (xs ys : List A) → Among x xs → Among x (xs ++ ys)
  Among-append_left [] ys m = absurd m
  Among-append_left (z ∷ xs) ys (inl e) = inl e
  Among-append_left (z ∷ xs) ys (inr m) = inr (Among-append_left xs ys m)

  pub Among-append_right : (xs ys : List A) → Among x ys → Among x (xs ++ ys)
  Among-append_right [] ys m = m
  Among-append_right (z ∷ xs) ys m = inr (Among-append_right xs ys m)

  pub filter-Among :
      (q : A → Bool) (xs : List A) → Among x (filter q xs) → Among x xs × (q x ≡ true)
  unfolding filter
  filter-Among q [] m = absurd m
  filter-Among q (z ∷ xs) m = elim (Bool-cases (q z)) [
    | inr e ↦ let (k, h) = filter-Among q xs (rw e at m) in (inr k, h)
    | inl e ↦
        let m' : (x ≡ z) ⊎ Among x (filter q xs) = rw e at m in
        elim m' [
          | inl same ↦ (inl same, subst (λ y. q y ≡ true) (sym same) e)
          | inr k ↦ let (k', h) = filter-Among q xs k in (inr k', h)
        ]
  ]

  pub Among-filter : (q : A → Bool) (xs : List A) → Among x xs → q x ≡ true → Among x (filter q xs)
  unfolding filter
  Among-filter q [] m h = absurd m
  Among-filter q (z ∷ xs) (inl same) h =
      let e : q z ≡ true = subst (λ y. q y ≡ true) same h in rw e (inl same)
  Among-filter q (z ∷ xs) (inr m) h = elim (Bool-cases (q z)) [
    | inr e ↦ rw e (Among-filter q xs m h)
    | inl e ↦ rw e (inr (Among-filter q xs m h))
  ]

  pub delete_many-Among :
      (p : A → Bool) (xs : List A) → Among x (delete_many p xs) → Among x xs × (p x ≡ false)
  unfolding delete_many
  delete_many-Among p [] m = absurd m
  delete_many-Among p (z ∷ xs) m = elim (Bool-cases (p z)) [
    | inl e ↦ let (k, h) = delete_many-Among p xs (rw e at m) in (inr k, h)
    | inr e ↦
        let m' : (x ≡ z) ⊎ Among x (delete_many p xs) = rw e at m in
        elim m' [
          | inl same ↦ (inl same, subst (λ y. p y ≡ false) (sym same) e)
          | inr k ↦ let (k', h) = delete_many-Among p xs k in (inr k', h)
        ]
  ]

  pub Among-delete_many :
      (p : A → Bool) (xs : List A) → Among x xs → p x ≡ false → Among x (delete_many p xs)
  unfolding delete_many
  Among-delete_many p [] m h = absurd m
  Among-delete_many p (z ∷ xs) (inl same) h =
      let e : p z ≡ false = subst (λ y. p y ≡ false) same h in rw e (inl same)
  Among-delete_many p (z ∷ xs) (inr m) h = elim (Bool-cases (p z)) [
    | inl e ↦ rw e (Among-delete_many p xs m h)
    | inr e ↦ rw e (inr (Among-delete_many p xs m h))
  ]

module _ {A B : Type 0} (f : A → B) where
  pub map-Among : (y : B) (xs : List A) → Among y (map f xs) → (x : A) × Among x xs × (y ≡ f x)
  map-Among y [] m = absurd m
  map-Among y (z ∷ xs) (inl e) = (z, inl refl, e)
  map-Among y (z ∷ xs) (inr m) = let (x, k, e) = map-Among y xs m in (x, inr k, e)

  pub Among-map : (x : A) (xs : List A) → Among x xs → Among (f x) (map f xs)
  Among-map x [] m = absurd m
  Among-map x (z ∷ xs) (inl e) = inl (ap f e)
  Among-map x (z ∷ xs) (inr m) = inr (Among-map x xs m)

module _ {A B : Type 0} (g : A → List B) where
  pub flatten-Among :
      (y : B) (xs : List A) → Among y (flatten (map g xs)) → (x : A) × Among x xs × Among y (g x)
  unfolding flatten
  flatten-Among y [] m = absurd m
  flatten-Among y (z ∷ xs) m = elim (append-Among y (g z) (flatten (map g xs)) m) [
    | inl k ↦ (z, inl refl, k)
    | inr k ↦ let (x, here, h) = flatten-Among y xs k in (x, inr here, h)
  ]

  pub Among-flatten :
      (y : B) (x : A) (xs : List A) → Among x xs → Among y (g x) → Among y (flatten (map g xs))
  unfolding flatten
  Among-flatten y x [] m k = absurd m
  Among-flatten y x (z ∷ xs) (inl e) k =
      Among-append_left y (g z) (flatten (map g xs)) (subst (λ u. Among y (g u)) e k)
  Among-flatten y x (z ∷ xs) (inr m) k =
      Among-append_right y (g z) (flatten (map g xs)) (Among-flatten y x xs m k)

-- A test for one of some texts.
pub any-Among : (id : String) (ids : List String) → any (str_eq id) ids ≡ true → Among id ids
unfolding any
any-Among id [] e = absurd (ground (arith, e))
any-Among id (j ∷ ids) e = elim (Bool-cases (str_eq id j)) [
  | inl t ↦ inl ((eq_iff id j).0 t)
  | inr t ↦ inr (any-Among id ids (ground (arith, e, t)))
]

pub Among-any : (id : String) (ids : List String) → Among id ids → any (str_eq id) ids ≡ true
unfolding any
Among-any id [] m = absurd m
Among-any id (j ∷ ids) (inl e) = ground (arith, (eq_iff id j).1 e)
Among-any id (j ∷ ids) (inr m) = ground (arith, Among-any id ids m)

-- ===== src/Handlers/Blob/Reach.antt =====
-- apps/api/src/handlers/blob.ts: which blobs a share reaches.
use ddrive.Prelude.{
  ℕ, ◌≡◌, refl, ap, ◌∙◌, ◌⊎◌, inl, inr, Bool, true, ◌&&◌, List, [], ◌∷◌, ◌++◌, Option, none, some,
  String, arith, any, Bool-cases, eq_iff,
}
use ddrive.Prelude.Texts.{codes, starts_with}
use ddrive.Prelude.Prefixes.{starts_with_both-eq}
use ddrive.Storage.Rows.{Transport}
use ddrive.Storage.ServerCrypto.{Gcm}
use ddrive.Handlers.Reading.{PoolGet}
use ddrive.Resolvers.Folders.{opt_eq}
use ddrive.Resolvers.Files.{is_null}
use ddrive.Database.Rows.{File, ShareType, file_share, folder_share, Share, Db}
use ddrive.Handlers.Blob.{before, names_file, reaches}

-- A blob that a share reaches: one of the share's owner, whichever file it is of; for a folder, one whose
-- name begins, up to the first colon, with the identifier of a file in the folder that is not deleted.
pub data Reached (s : Share) (t : Transport) (db : Db) : Type 0 where
  of_owner : s.share_type ≡ file_share → t.owner_user_id ≡ s.owner_user_id → Reached s t db
  in_folder :
      (f : File) (earlier later : List File) (rest : List ℕ)
      → s.share_type ≡ folder_share
      → db.files ≡ earlier ++ f ∷ later
      → codes t.blob_id ≡ codes f.id ++ rest
      → (rest ≡ []) ⊎ (starts_with (codes ":") rest ≡ true)
      → f.parent_folder_id ≡ s.folder_id
      → f.deleted_at ≡ none
      → Reached s t db

before-append :
    (separator s : List ℕ)
    → (rest : List ℕ) × (s ≡ before separator s ++ rest)
      × ((rest ≡ []) ⊎ (starts_with separator rest ≡ true))
unfolding before
before-append separator [] = ([], refl, inl refl)
before-append separator (c ∷ cs) = elim (Bool-cases (starts_with separator (c ∷ cs))) [
  | inl e ↦ (c ∷ cs, rw e refl, inr e)
  | inr e ↦
      let (rest, same, ends) = before-append separator cs in
      (rest, rw e (ap (λ (xs : List ℕ). c ∷ xs) same), ends)
]

any-append :
    (q : File → Bool) (files : List File)
    → any q files ≡ true
    → (f : File) × (earlier : List File) × (later : List File) × (files ≡ earlier ++ f ∷ later)
      × (q f ≡ true)
unfolding any
any-append q [] e = absurd (ground (arith, e))
any-append q (f ∷ files) e = elim (Bool-cases (q f)) [
  | inl t ↦ (f, [], files, refl, t)
  | inr t ↦
      let (g, earlier, later, same, holds) = any-append q files (ground (arith, e, t)) in
      (g, f ∷ earlier, later, ap (λ (xs : List File). f ∷ xs) same, holds)
]

opt_eq-eq : (a b : Option String) → opt_eq a b ≡ true → a ≡ b
opt_eq-eq none none e = refl
opt_eq-eq none (some b) e = absurd (ground (arith, e))
opt_eq-eq (some a) none e = absurd (ground (arith, e))
opt_eq-eq (some a) (some b) e = ap some ((eq_iff a b).0 e)

is_null-none : (a : Option ℕ) → is_null a ≡ true → a ≡ none
is_null-none none e = refl
is_null-none (some a) e = absurd (ground (arith, e))

folder-Reached :
    (s : Share) (t : Transport) (db : Db)
    → s.share_type ≡ folder_share
    → any
        (λ (f : File).
          names_file t.blob_id f && (opt_eq f.parent_folder_id s.folder_id && is_null f.deleted_at))
        db.files
      ≡ true
    → Reached s t db
folder-Reached s t db kind e =
    let (f, earlier, later, here_, holds) =
      any-append
        (λ (f : File).
          names_file t.blob_id f && (opt_eq f.parent_folder_id s.folder_id && is_null f.deleted_at))
        db.files e in
    let (rest, split, ends) = before-append (codes ":") (codes t.blob_id) in
    let named =
      starts_with_both-eq (before (codes ":") (codes t.blob_id)) (codes f.id)
        (ground (arith, holds)) (ground (arith, holds)) in
    in_folder f earlier later rest kind here_ (split ∙ ap (λ (xs : List ℕ). xs ++ rest) named) ends
      (opt_eq-eq f.parent_folder_id s.folder_id (ground (arith, holds)))
      (is_null-none f.deleted_at (ground (arith, holds)))

share_type-cases : (k : ShareType) → (k ≡ file_share) ⊎ (k ≡ folder_share)
share_type-cases file_share = inl refl
share_type-cases folder_share = inr refl

module _ (get : PoolGet) (g : Gcm) (key : String) where
  pub reaches-Reached :
      (s : Share) (t : Transport) (db : Db) → reaches get g key s t db ≡ true → Reached s t db
  unfolding reaches
  reaches-Reached s t db e = elim (share_type-cases s.share_type) [
    | inl kind ↦
        of_owner kind ((eq_iff t.owner_user_id s.owner_user_id).0 (ground (arith, e, kind)))
    | inr kind ↦ folder-Reached s t db kind (ground (arith, e, kind))
  ]

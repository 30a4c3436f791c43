-- ===== src/Resolvers/Files/Emptying.antt =====
-- apps/api/src/resolvers/files.ts: the files of other accounts while one empties its trash.
use ddrive.Prelude.{
  ◌≡◌, refl, sym, ap, ◌∙◌, subst, inl, inr, Bool, true, false, not, List, [], ◌∷◌, String, map,
  arith, filter, any, str_eq, All, All-mono, Bool-cases,
}
use ddrive.Prelude.Tables.{delete_many}
use ddrive.Storage.Rows.{Result-cases}
use ddrive.Database.Rows.{File, Db}
use ddrive.Database.Keys.{UniqueKeys, filter-kept_delete, keys-filter_unique}
use ddrive.Resolvers.Files.Trash.{is_trashed, purge_each, purge_file_record, empty_trash}
use ddrive.Resolvers.Files.Trash.Purging.{file_id, purge_file_record-files}

abbrev not_owned : String → File → Bool
not_owned owner f = not (str_eq f.owner_user_id owner)

-- Rows that have the identifier of one of some files belong to the account.
abbrev Own : String → List File → List File → Type 0
Own owner fs files =
    All (λ r. any (str_eq r.id) (map file_id fs) ≡ true → str_eq r.owner_user_id owner ≡ true) files

All-delete_many :
    (P : File → Type 0) (q : File → Bool) (rows : List File)
    → All P rows
    → All P (delete_many q rows)
unfolding delete_many
All-delete_many P q [] h = tt
All-delete_many P q (r ∷ rows) (k, h) = elim (Bool-cases (q r)) [
  | inl e ↦ rw e (All-delete_many P q rows h)
  | inr e ↦ rw e (k, All-delete_many P q rows h)
]

purge_each-others :
    (owner : String) (fs : List File) (db : Db)
    → Own owner fs db.files
    → filter (not_owned owner) (purge_each fs db).1.files ≡ filter (not_owned owner) db.files
unfolding purge_each
purge_each-others owner [] db own = refl
purge_each-others owner (f ∷ fs) db own =
    let db' = (purge_file_record f db).1 in
    let gone = purge_file_record-files f db in
    let first : filter (not_owned owner) db'.files ≡ filter (not_owned owner) db.files =
      ap (filter (not_owned owner)) gone
      ∙ filter-kept_delete (not_owned owner) (λ (g : File). str_eq g.id f.id) db.files
          (All-mono
            (λ (r : File).
              any (str_eq r.id) (map file_id (f ∷ fs)) ≡ true → str_eq r.owner_user_id owner ≡ true)
            (λ (r : File). str_eq r.id f.id ≡ true → not_owned owner r ≡ false)
            (λ r h e. ground (arith, h (ground (arith, e)))) db.files own) in
    let left : Own owner fs db'.files = subst (Own owner fs) (sym gone) (
      All-delete_many
        (λ r. any (str_eq r.id) (map file_id fs) ≡ true → str_eq r.owner_user_id owner ≡ true)
        (λ (g : File). str_eq g.id f.id) db.files
        (All-mono
          (λ (r : File).
            any (str_eq r.id) (map file_id (f ∷ fs)) ≡ true → str_eq r.owner_user_id owner ≡ true)
          (λ (r : File).
            any (str_eq r.id) (map file_id fs) ≡ true → str_eq r.owner_user_id owner ≡ true)
          (λ r h e. h (ground (arith, e))) db.files own)) in
    elim (Result-cases (purge_file_record f db).0) [
      | inl (done, e) ↦ ground (arith, e, purge_each-others owner fs db' left, first)
      | inr (m, e) ↦ ground (arith, e, first)
    ]

-- With unique identifiers, emptying the trash keeps the files of other accounts.
pub empty_trash-others :
    (owner : String) (db : Db)
    → UniqueKeys file_id db.files
    → filter (not_owned owner) (empty_trash owner db).1.files ≡ filter (not_owned owner) db.files
unfolding empty_trash
empty_trash-others owner db unique =
    let fs = filter (is_trashed owner) db.files in
    let kept = purge_each-others owner fs db (
      All-mono (λ (r : File). any (str_eq r.id) (map file_id fs) ≡ is_trashed owner r)
        (λ (r : File).
          any (str_eq r.id) (map file_id fs) ≡ true → str_eq r.owner_user_id owner ≡ true)
        (λ r same e. ground (arith, same, e)) db.files
        (keys-filter_unique file_id (is_trashed owner) db.files unique)) in
    elim (Result-cases (purge_each fs db).0) [
      | inl (done, e) ↦ ground (arith, e, kept)
      | inr (m, e) ↦ ground (arith, e, kept)
    ]

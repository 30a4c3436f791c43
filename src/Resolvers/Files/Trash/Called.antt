-- ===== src/Resolvers/Files/Trash/Called.antt =====
-- apps/api/src/resolvers/files.ts, `deleteBlobsBestEffort`: which copies of a file's blobs it asks the
-- providers to delete.
use ddrive.Prelude.{
  ℕ, ◌≡◌, ◌≢◌, ◌↔◌, refl, sym, ap, subst, ◌∙◌, ◌⊎◌, inl, inr, true, false, not, List, [], ◌∷◌, ◌++◌,
  some, String, map, filter, str_eq, arith, Bool-cases, Option-cases, eq_iff,
}
use ddrive.Prelude.Among.{
  Among, filter-Among, Among-filter, map-Among, Among-map, flatten-Among, Among-flatten,
}
use ddrive.Prelude.Texts.{codes, starts_with}
use ddrive.Prelude.Prefixes.{starts_with-append, append-starts_with}
use ddrive.Storage.Rows.{
  PlacementStatus, pending, active, missing, modified, deleting, Placement, Transport, primary,
  truthy,
}
use ddrive.Storage.Provider.{placement_from_row, placement_from_blob_record}
use ddrive.Database.Rows.{File, Deletion, Db}
use ddrive.Resolvers.Files.Trash.{
  is_pending, is_unwritten, placements_of, deletions_of, is_blob_of, blobs_of,
}
use ddrive.Resolvers.Files.Trash.Purging.{purge_calls}

-- A blob of a file has its owner, and either a name that begins with the file's identifier and a colon,
-- or the name of the file's preview.
pub data BlobOf (f : File) (t : Transport) : Type 0 where
  named :
      (rest : List ℕ)
      → t.owner_user_id ≡ f.owner_user_id
      → codes t.blob_id ≡ (codes f.id ++ codes ":") ++ rest
      → BlobOf f t
  previewed :
      t.owner_user_id ≡ f.owner_user_id
      → f.preview_blob_id ≡ some t.blob_id
      → t.blob_id ≢ ""
      → BlobOf f t

-- Something was written for a placement: it is not PENDING, or it has the message of an earlier copy.
abbrev pub Written : Placement → Type 0
Written p = (p.status ≢ pending) ⊎ ((m : String) × (p.message_id ≡ some m) × (m ≢ ""))

-- The copies of the file's blobs: what is written for the placements of each, and the columns of a blob
-- that has no placement.
pub data Called (f : File) (db : Db) (d : Deletion) : Type 0 where
  copy :
      (t : Transport) (p : Placement)
      → Among t db.transports
      → BlobOf f t
      → Among p db.placements
      → p.blob_id ≡ t.blob_id
      → Written p
      → d ≡ (p.provider, p.pool_role, placement_from_row t.blob_id t.owner_user_id p)
      → Called f db d
  legacy :
      (t : Transport)
      → Among t db.transports
      → BlobOf f t
      → ((p : Placement) → Among p db.placements → p.blob_id ≢ t.blob_id)
      → d ≡ (t.storage_kind, primary, placement_from_blob_record t)
      → Called f db d

pub is_blob_of-BlobOf : (f : File) (t : Transport) → is_blob_of f t ≡ true → BlobOf f t
is_blob_of-BlobOf f t e =
    let own = (eq_iff t.owner_user_id f.owner_user_id).0 (ground (arith, e)) in
    elim (Bool-cases (starts_with (codes f.id ++ codes ":") (codes t.blob_id))) [
      | inl k ↦
          let (rest, split) = starts_with-append (codes f.id ++ codes ":") (codes t.blob_id) k in
          named rest own split
      | inr k ↦ elim (Option-cases f.preview_blob_id) [
        | inl p ↦ absurd (ground (arith, e, k, p))
        | inr (id, p) ↦
            let same = (eq_iff t.blob_id id).0 (ground (arith, e, k, p)) in
            previewed own (p ∙ ap some (sym same))
              (λ empty. ground (arith, e, k, p, eq_iff id "", sym same ∙ empty))
      ]
    ]

pub BlobOf-is_blob_of : (f : File) (t : Transport) → BlobOf f t → is_blob_of f t ≡ true
BlobOf-is_blob_of f t (named rest own e) =
    let begins : starts_with (codes f.id ++ codes ":") (codes t.blob_id) ≡ true =
      subst (λ x. starts_with (codes f.id ++ codes ":") x ≡ true) (sym e)
        (append-starts_with (codes f.id ++ codes ":") rest) in
    ground (arith, (eq_iff t.owner_user_id f.owner_user_id).1 own, begins)
BlobOf-is_blob_of f t (previewed own e ne) = ground (
  arith,
  (eq_iff t.owner_user_id f.owner_user_id).1 own,
  e,
  eq_iff t.blob_id "",
  ne,
  (eq_iff t.blob_id t.blob_id).1 refl,
)

written-pending :
    (p : Placement)
    → p.status ≡ pending
    → truthy p.message_id ≡ false
    → not (is_unwritten p) ≡ true
    → ⊥
written-pending p same k e = ground (arith, same, k, e)

is_unwritten-Written : (p : Placement) → not (is_unwritten p) ≡ true → Written p
is_unwritten-Written p e = elim (Option-cases p.message_id) [
  | inr (m, k) ↦ elim (Bool-cases (str_eq m "")) [
    | inr t ↦ inr (m, k, λ empty. ground (arith, t, eq_iff m "", empty))
    | inl t ↦ inl (λ same. written-pending p same (ground (arith, k, t)) e)
  ]
  | inl k ↦ inl (λ same. written-pending p same (ground (arith, k)) e)
]

is_pending-pending : (s : PlacementStatus) → is_pending s ≡ true → s ≡ pending
is_pending-pending pending e = refl
is_pending-pending active e = absurd (ground (arith, e))
is_pending-pending missing e = absurd (ground (arith, e))
is_pending-pending modified e = absurd (ground (arith, e))
is_pending-pending deleting e = absurd (ground (arith, e))

Written-is_unwritten : (p : Placement) → Written p → not (is_unwritten p) ≡ true
Written-is_unwritten p (inl other) = elim (Bool-cases (is_unwritten p)) [
  | inr e ↦ ground (arith, e)
  | inl e ↦ absurd (other (is_pending-pending p.status (ground (arith, e))))
]
Written-is_unwritten p (inr (m, e, ne)) = ground (arith, e, eq_iff m "", ne)

-- The calls for one blob, from those of its placements that are read with it.
deletions-Called :
    (f : File) (db : Db) (t : Transport) (ps : List Placement) (d : Deletion)
    → placements_of db t ≡ ps
    → Among t db.transports
    → BlobOf f t
    → Among d (deletions_of t ps)
    → Called f db d
unfolding deletions_of
deletions-Called f db t [] d e here_ b (inl same) =
    legacy t here_ b
      (λ p m k.
        let bad : Among p [] = subst (Among p) e (
          Among-filter p (λ (q : Placement). str_eq q.blob_id t.blob_id) db.placements m
            ((eq_iff p.blob_id t.blob_id).1 k)) in
        absurd bad)
      same
deletions-Called f db t [] d e here_ b (inr m) = absurd m
deletions-Called f db t (p0 ∷ ps) d e here_ b m =
    let (p, kept, same) =
      map-Among
        (λ (p : Placement).
          (p.provider, p.pool_role, placement_from_row t.blob_id t.owner_user_id p))
        d (filter (λ (q : Placement). not (is_unwritten q)) (p0 ∷ ps)) m in
    let (read, written) = filter-Among p (λ (q : Placement). not (is_unwritten q)) (p0 ∷ ps) kept in
    let (row, mine) =
      filter-Among p (λ (q : Placement). str_eq q.blob_id t.blob_id) db.placements
        (subst (Among p) (sym e) read) in
    copy t p here_ b row ((eq_iff p.blob_id t.blob_id).0 mine) (is_unwritten-Written p written) same

copy-deletions :
    (t : Transport) (ps : List Placement) (p : Placement)
    → Among p ps
    → Written p
    → Among
        (p.provider, p.pool_role, placement_from_row t.blob_id t.owner_user_id p)
        (deletions_of t ps)
unfolding deletions_of
copy-deletions t [] p m w = absurd m
copy-deletions t (p0 ∷ ps) p m w =
    Among-map
      (λ (p : Placement). (p.provider, p.pool_role, placement_from_row t.blob_id t.owner_user_id p))
      p (filter (λ (q : Placement). not (is_unwritten q)) (p0 ∷ ps))
      (Among-filter p (λ (q : Placement). not (is_unwritten q)) (p0 ∷ ps) m
        (Written-is_unwritten p w))

legacy-deletions :
    (t : Transport) (ps : List Placement)
    → ((p : Placement) → ¬ Among p ps)
    → Among (t.storage_kind, primary, placement_from_blob_record t) (deletions_of t ps)
unfolding deletions_of
legacy-deletions t [] none_left = inl refl
legacy-deletions t (p ∷ ps) none_left = absurd (none_left p (inl refl))

abbrev calls_for : Transport × List Placement → List Deletion
calls_for b = deletions_of b.0 b.1

in_calls :
    (f : File) (db : Db) (t : Transport) (d : Deletion)
    → Among t db.transports
    → BlobOf f t
    → Among d (deletions_of t (placements_of db t))
    → Among d (purge_calls f db)
in_calls f db t d m b k =
    Among-flatten calls_for d (t, placements_of db t)
      (map (λ (t : Transport). (t, placements_of db t)) (blobs_of f db))
      (Among-map (λ (t : Transport). (t, placements_of db t)) t (blobs_of f db)
        (Among-filter t (is_blob_of f) db.transports m (BlobOf-is_blob_of f t b)))
      k

pub purge_calls-Called :
    (f : File) (db : Db) (d : Deletion) → Among d (purge_calls f db) ↔ Called f db d
purge_calls-Called f db d = (there, back)
  where
    there : Among d (purge_calls f db) → Called f db d
    there m =
        let (b, pair, k) =
          flatten-Among calls_for d
            (map (λ (t : Transport). (t, placements_of db t)) (blobs_of f db)) m in
        let (t, mine, same) =
          map-Among (λ (t : Transport). (t, placements_of db t)) b (blobs_of f db) pair in
        let (row, owned) = filter-Among t (is_blob_of f) db.transports mine in
        deletions-Called f db t (placements_of db t) d refl row (is_blob_of-BlobOf f t owned)
          (subst (λ x. Among d (calls_for x)) same k)

    back : Called f db d → Among d (purge_calls f db)
    back (copy t p m b row same w e) =
        subst (λ x. Among x (purge_calls f db)) (sym e)
          (in_calls f db t (p.provider, p.pool_role, placement_from_row t.blob_id t.owner_user_id p)
            m b
            (copy-deletions t (placements_of db t) p
              (Among-filter p (λ (q : Placement). str_eq q.blob_id t.blob_id) db.placements row
                ((eq_iff p.blob_id t.blob_id).1 same))
              w))
    back (legacy t m b alone e) =
        subst (λ x. Among x (purge_calls f db)) (sym e)
          (in_calls f db t (t.storage_kind, primary, placement_from_blob_record t) m b
            (legacy-deletions t (placements_of db t) (λ p k.
              let (row, same) =
                filter-Among p (λ (q : Placement). str_eq q.blob_id t.blob_id) db.placements k in
              alone p row ((eq_iff p.blob_id t.blob_id).0 same))))

-- ===== src/Resolvers/Sharing/Access.antt =====
-- apps/api/src/resolvers/sharing.ts: revoked shares, and files that are claimed through a share.
use ddrive.Prelude.{
  ℕ, ◌≡◌, refl, sym, ap, ◌∙◌, str_cases, subst, ◌⊎◌, inl, inr, true, false, ◌&&◌, none, some,
  String, arith, find, str_eq, str_eq_refl, if◌then◌else◌, Bool-cases, Option-cases, eq_iff,
}
use ddrive.Prelude.Tables.{update_many}
use ddrive.Storage.Rows.{ok, err}
use ddrive.Database.Rows.{File, stamped, Share, revoked, Db}
use ddrive.Database.Keys.{find_weaker, find-passes, find-update_many, find-update_many_other}
use ddrive.Database.Cascades.{update_share, update_file}
use ddrive.Resolvers.Sharing.{
  Hashing, find_share, file_of_share, opens, access_share, resolve_share_for_page, claim,
  claim_share,
}
use ddrive.Resolvers.Sharing.Opening.{Opened, opens-Opened, Opened-opens}
use ddrive.Resolvers.Sharing.Managing.{revoke, revoke_share}

-- A revocation that succeeds leaves the share in the table, as a revoked one.
pub revoke_share-find_share :
    (owner share_id : String) (now : ℕ) (db : Db)
    → (revoke_share owner share_id now db).0 ≡ ok true
    → (s : Share) × (find_share share_id (revoke_share owner share_id now db).1 ≡ some s)
      × (s.status ≡ revoked)
unfolding revoke_share update_share
revoke_share-find_share owner share_id now db done =
    elim (Option-cases (
      find (λ (s : Share). str_eq s.share_id share_id && str_eq s.owner_user_id owner) db.shares)) [
        | inl e ↦ absurd (refused e done)
        | inr (s, e) ↦
            let (t, found) =
              find_weaker (λ (s : Share). str_eq s.share_id share_id)
                (λ s. str_eq s.share_id share_id && str_eq s.owner_user_id owner) db.shares s
                (λ r k. ground (arith, k)) e in
            (
              revoke now t,
              rw e (
                  find-update_many (λ (s : Share). str_eq s.share_id share_id) (revoke now)
                    db.shares t
                    (find-passes (λ (s : Share). str_eq s.share_id share_id) db.shares t found)
                    found),
              refl,
            )
      ]
  where
    refused :
        find (λ (s : Share). str_eq s.share_id share_id && str_eq s.owner_user_id owner) db.shares
          ≡ none
        → (revoke_share owner share_id now db).0 ≡ ok true
        → ⊥
    refused e done = let bad : err "Share not found" ≡ ok true = rw (e, revoke_share) at done in cc

-- A share that has been revoked by its owner is not opened again, whatever token is presented, and no
-- view is counted.
pub access_share-revoke_share :
    (h : Hashing) (owner share_id token : String) (now later : ℕ) (db : Db)
    → (revoke_share owner share_id now db).0 ≡ ok true
    → (access_share h share_id token later (revoke_share owner share_id now db).1
        ≡ (ok none, (revoke_share owner share_id now db).1))
      × (resolve_share_for_page h share_id token later (revoke_share owner share_id now db).1
          ≡ none)
unfolding access_share resolve_share_for_page
access_share-revoke_share h owner share_id token now later db done =
    let (s, found, gone) = revoke_share-find_share owner share_id now db done in
    (ground (arith, found, gone), ground (arith, found, gone))

-- What `claimShare` does, as seen at a file of any identifier.
unfoldable pub Claimed : Hashing → String → String → String → ℕ → Db → String → Type 0
Claimed h user share_id token now db id =
    ((s : Share) × (f : File) × (find_share share_id db ≡ some s)
      × Opened h now token s
      × (file_of_share s db ≡ some f)
      × ((claim_share h user share_id token now db).0 ≡ ok true)
      × (find (λ (g : File). str_eq g.id id) (claim_share h user share_id token now db).1.files ≡ (
          if str_eq f.id id
          then some (record f {
            owner_user_id = user;
            is_anonymous = false;
            anon_session_id = none;
            expires_at = none;
            updated_at = now;
          })
          else find (λ (g : File). str_eq g.id id) db.files)))
    ⊎ ((message : String) × (claim_share h user share_id token now db ≡ (err message, db))
        × ((s : Share) (f : File)
            → find_share share_id db ≡ some s
            → Opened h now token s
            → file_of_share s db ≡ some f
            → ⊥))

file_of_share-row :
    (s : Share) (f : File) (db : Db)
    → file_of_share s db ≡ some f
    → (s.file_id ≡ some f.id) × (find (λ (g : File). str_eq g.id f.id) db.files ≡ some f)
file_of_share-row s f db found = elim (Option-cases s.file_id) [
  | inl e ↦ absurd (let bad : none ≡ some f = rw e at found in cc)
  | inr (id, e) ↦
      let row : find (λ (g : File). str_eq g.id id) db.files ≡ some f = rw e at found in
      let same = (eq_iff f.id id).0 (find-passes (λ (g : File). str_eq g.id id) db.files f row) in
      (
        e ∙ ap some (sym same),
        subst (λ x. find (λ (g : File). str_eq g.id x) db.files ≡ some f) (sym same) row,
      )
]

claim_share-files :
    (h : Hashing) (user share_id token : String) (now : ℕ) (db : Db) (s : Share) (f : File)
    (id : String)
    → find_share share_id db ≡ some s
    → opens h now token s ≡ true
    → file_of_share s db ≡ some f
    → s.file_id ≡ some id
    → (claim_share h user share_id token now db).1.files
      ≡ update_many (λ (g : File). str_eq g.id id) (stamped now (claim h user)) db.files
unfolding claim_share resolve_share_for_page update_file
claim_share-files h user share_id token now db s f id e opened found named =
    ground (arith, e, opened, found, named)

-- If the share is in the table, is active, has not expired, has views left and the presented token,
-- and its file is in the table, then the call succeeds, and the file comes to belong to the caller,
-- for good and out of any session, whoever it belonged to, and is marked as updated; no other
-- column of it changes, and no other file. Otherwise, and only then, the call fails and changes
-- nothing.
pub claim_share-Claimed :
    (h : Hashing) (user share_id token : String) (now : ℕ) (db : Db) (id : String)
    → Claimed h user share_id token now db id
unfolding Claimed claim_share resolve_share_for_page
claim_share-Claimed h user share_id token now db id = elim (Option-cases (find_share share_id db)) [
  | inl e ↦ inr (
    "Share not found or expired",
    ground (arith, e),
    λ s f found o named. let bad : none ≡ some s = sym e ∙ found in absurd (cc),
  )
  | inr (s, e) ↦ elim (Bool-cases (opens h now token s)) [
    | inr shut ↦ inr (
      "Share not found or expired",
      ground (arith, e, shut),
      λ s' f found o named.
          let same : some s ≡ some s' = sym e ∙ found in
          ground (arith, shut, same, Opened-opens h now token s' o),
    )
    | inl opened ↦ elim (Option-cases (file_of_share s db)) [
      | inl lost ↦ inr (
        "This share has no file (folder shares cannot be claimed)",
        ground (arith, e, opened, lost),
        λ s' f found o named.
            let same : some s ≡ some s' = sym e ∙ found in ground (arith, lost, same, named),
      )
      | inr (f, found) ↦
          let (named, row) = file_of_share-row s f db found in
          let files =
            claim_share-files h user share_id token now db s f f.id e opened found named in
          inl (
            s,
            f,
            e,
            opens-Opened h now token s opened,
            found,
            ground (arith, e, opened, found),
            elim (str_cases f.id id) [
              | inl (t, same) ↦
                  rw (files, t)
                    (subst
                      (λ x.
                        find (λ (g : File). str_eq g.id x)
                          (update_many (λ (g : File). str_eq g.id f.id) (stamped now (claim h user))
                            db.files)
                        ≡ some (stamped now (claim h user) f))
                      same
                      (find-update_many (λ (g : File). str_eq g.id f.id)
                        (stamped now (claim h user)) db.files f (str_eq_refl f.id) row))
              | inr (t, ne) ↦
                  rw (files, t)
                    (find-update_many_other (λ (g : File). str_eq g.id f.id)
                      (λ (g : File). str_eq g.id id) (stamped now (claim h user)) db.files
                      (λ r k. ground (arith, k, ne, eq_iff r.id id, eq_iff r.id f.id))
                      (λ r k. ground (arith, k, ne, eq_iff r.id id, eq_iff r.id f.id)))
            ],
          )
    ]
  ]
]

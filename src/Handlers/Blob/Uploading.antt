-- ===== src/Handlers/Blob/Uploading.antt =====
-- apps/api/src/handlers/blob.ts: what an upload leaves to be read.
use ddrive.Prelude.{
  ℕ, ◌≡◌, refl, ap, ◌∙◌, ◌⊎◌, inl, inr, ◌≢◌, Bool, true, false, not, ◌&&◌, List, [], ◌∷◌, ◌++◌,
  none, String, arith, map, filter, any, str_eq, str_eq_refl, All, All-append, Bool-cases,
}
use ddrive.Prelude.Tables.{update_many, delete_many}
use ddrive.Storage.Rows.{ProviderKind, same_kind, is_primary, pending, active, primary, Placement}
use ddrive.Storage.Provider.{is_readable, placement_from_row}
use ddrive.Storage.Provider.Order.{Serves, Serves-is_readable, is_readable_of_Serves}
use ddrive.Resolvers.Files.{PlacementIds, replica_placement, same_placement, create_many}
use ddrive.Resolvers.Files.Health.{is_stored}
use ddrive.Handlers.Blob.Uploads.{
  Stored, placement_coordinates, create_placement, upsert, write_primary, queue_replicas,
}

-- The rows of a blob, and of its primary copies.
abbrev pub of_blob : String → Placement → Bool
of_blob blob_id p = str_eq p.blob_id blob_id

abbrev pub is_primary_of : String → Placement → Bool
is_primary_of blob_id p = str_eq p.blob_id blob_id && is_primary p.pool_role

abbrev pub is_copy_at : String → ProviderKind → Placement → Bool
is_copy_at blob_id kind p =
    str_eq p.blob_id blob_id && (same_kind p.provider kind && is_primary p.pool_role)

-- The database keeps the primary copies of a blob on one provider unique.
abbrev pub OnePrimary : String → ProviderKind → List Placement → Type 0
OnePrimary blob_id kind [] = Unit
OnePrimary blob_id kind (p ∷ ps) =
    (is_copy_at blob_id kind p ≡ true → All (λ r. is_copy_at blob_id kind r ≡ false) ps)
    × OnePrimary blob_id kind ps

-- A copy that is written where an upload has put the content.
abbrev pub At : Stored → Placement → Type 0
At s p =
    (p.status ≡ active)
    × (placement_from_row s.blob_id s.owner p ≡ record {
      blob_id = s.blob_id;
      owner_user_id = s.owner;
      provider = s.kind;
      storage_path = s.written.storage_path;
      message_id = s.written.message_id;
      location_id = s.written.location_id;
      sender_id = s.written.sender_id;
    })
    × (p.provider ≡ s.kind)
    × (p.pool_role ≡ primary)

-- The row is not one of a replica of the blob that can be read.
abbrev pub IsSilent : String → Placement → Type 0
IsSilent blob_id r =
    (str_eq r.blob_id blob_id && not (is_primary r.pool_role)) ≡ true → is_readable r ≡ false

module _ (id_of : PlacementIds) (s : Stored) (now : ℕ) where
  abbrev elsewhere : Placement → Bool
  elsewhere p =
      str_eq p.blob_id s.blob_id && (is_primary p.pool_role && not (same_kind p.provider s.kind))

  gone :
      (xs : List Placement)
      → All (λ r. is_copy_at s.blob_id s.kind r ≡ false) xs
      → filter (is_primary_of s.blob_id) (delete_many elsewhere xs) ≡ []
  unfolding filter delete_many
  gone [] h = refl
  gone (x ∷ xs) (k, h) = ground (arith, k, gone xs h)

  same_kind_eq : (a b : ProviderKind) → same_kind a b ≡ true → a ≡ b
  same_kind_eq a b e = ground (arith, e)

  created-At : At s (create_placement id_of s now)
  unfolding placement_from_row
  created-At = (refl, refl, refl, refl)

  updated-At :
      (p : Placement) → is_copy_at s.blob_id s.kind p ≡ true → At s (placement_coordinates s now p)
  unfolding placement_from_row
  updated-At p e =
      let kind : p.provider ≡ s.kind = same_kind_eq p.provider s.kind (ground (arith, e)) in
      let role : p.pool_role ≡ primary = ground (arith, e) in (refl, rw kind refl, kind, role)

  write_primary-one :
      (xs : List Placement)
      → OnePrimary s.blob_id s.kind xs
      → (p : Placement) × (filter (is_primary_of s.blob_id) (write_primary id_of s now xs) ≡ p ∷ [])
        × At s p
  unfolding write_primary upsert delete_many filter
  write_primary-one [] h =
      (create_placement id_of s now, ground (arith, str_eq_refl s.blob_id), created-At)
  write_primary-one (x ∷ xs) (k, h) = elim (Bool-cases (elsewhere x)) [
    | inl moved ↦
        let (p, rows, at) = write_primary-one xs h in (p, rw (moved, delete_many) rows, at)
    | inr here ↦ elim (Bool-cases (is_copy_at s.blob_id s.kind x)) [
      | inl match_ ↦ (
        placement_coordinates s now x,
        ground (arith, here, match_, gone xs (k match_)),
        updated-At x match_,
      )
      | inr other ↦
          let (p, rows, at) = write_primary-one xs h in (p, ground (arith, here, other, rows), at)
    ]
  ]

  unreadable : (p : Placement) → is_stored p.status ≡ false → is_readable p ≡ false
  unreadable p e = elim (Bool-cases (is_readable p)) [
    | inr no_ ↦ no_
    | inl r ↦ absurd (stored_serves (Serves-is_readable p r))
  ]
    where
      stored_serves : Serves p → ⊥
      stored_serves v = ground (arith, v, e)

  abbrev requeue : Placement → Placement
  requeue p = record p { status = pending; attempt_count = 0; next_attempt_at = none }

  abbrev is_stale : Placement → Bool
  is_stale p = str_eq p.blob_id s.blob_id && (not (is_primary p.pool_role) && is_stored p.status)

  requeue-IsSilent :
      (xs : List Placement) → All (IsSilent s.blob_id) (update_many is_stale requeue xs)
  unfolding update_many
  requeue-IsSilent [] = tt
  requeue-IsSilent (x ∷ xs) = elim (Bool-cases (is_stale x)) [
    | inl e ↦ rw (e, update_many) (λ k. unreadable (requeue x) refl, requeue-IsSilent xs)
    | inr e ↦ rw (e, update_many) (λ k. unreadable x (ground (arith, e, k)), requeue-IsSilent xs)
  ]

  requeue-primaries :
      (xs : List Placement)
      → filter (is_primary_of s.blob_id) (update_many is_stale requeue xs)
        ≡ filter (is_primary_of s.blob_id) xs
  unfolding filter update_many
  requeue-primaries [] = refl
  requeue-primaries (x ∷ xs) = ground (arith, requeue-primaries xs)

  delete_many-IsSilent :
      (xs : List Placement)
      → All (IsSilent s.blob_id) xs
      → All (IsSilent s.blob_id) (delete_many elsewhere xs)
  unfolding delete_many
  delete_many-IsSilent [] h = tt
  delete_many-IsSilent (x ∷ xs) (k, h) = elim (Bool-cases (elsewhere x)) [
    | inl e ↦ rw (e, delete_many) (delete_many-IsSilent xs h)
    | inr e ↦ rw (e, delete_many) (k, delete_many-IsSilent xs h)
  ]

  upsert-IsSilent :
      (xs : List Placement)
      → All (IsSilent s.blob_id) xs
      → All (IsSilent s.blob_id) (
          upsert
            (is_copy_at s.blob_id s.kind)
            (placement_coordinates s now)
            (create_placement id_of s now)
            xs)
  unfolding upsert
  upsert-IsSilent [] h = (λ k. ground (arith, k), tt)
  upsert-IsSilent (x ∷ xs) (k, h) = elim (Bool-cases (is_copy_at s.blob_id s.kind x)) [
    | inl e ↦ rw (e, upsert) (λ r. ground (arith, r, e), h)
    | inr e ↦ rw (e, upsert) (k, upsert-IsSilent xs h)
  ]

  write_primary-IsSilent :
      (xs : List Placement)
      → All (IsSilent s.blob_id) xs
      → All (IsSilent s.blob_id) (write_primary id_of s now xs)
  unfolding write_primary
  write_primary-IsSilent xs h =
      upsert-IsSilent (delete_many elsewhere xs) (delete_many-IsSilent xs h)

  filter-append :
      (r : Placement)
      → is_primary r.pool_role ≡ false
      → (ys : List Placement)
      → filter (is_primary_of s.blob_id) (ys ++ r ∷ []) ≡ filter (is_primary_of s.blob_id) ys
  unfolding filter
  filter-append r role [] = ground (arith, role)
  filter-append r role (y ∷ ys) = ground (arith, filter-append r role ys)

  create_many-replicas :
      (rs xs : List Placement)
      → All (λ r. (is_primary r.pool_role ≡ false) × (is_readable r ≡ false)) rs
      → All (IsSilent s.blob_id) xs
      → All (IsSilent s.blob_id) (create_many same_placement rs xs)
        × (filter (is_primary_of s.blob_id) (create_many same_placement rs xs)
            ≡ filter (is_primary_of s.blob_id) xs)
  unfolding create_many
  create_many-replicas [] xs g h = (h, refl)
  create_many-replicas (r ∷ rs) xs ((role, silent), g) h =
      elim (Bool-cases (any (same_placement r) xs)) [
        | inl there ↦ rw (there, create_many) (create_many-replicas rs xs g h)
        | inr fresh ↦
            let (all_silent, primaries) =
              create_many-replicas rs (xs ++ r ∷ []) g
                (All-append (IsSilent s.blob_id) xs (r ∷ []) h (λ k. silent, tt)) in
            rw (fresh, create_many) (all_silent, primaries ∙ filter-append r role xs)
      ]

  replicas-unreadable :
      (kinds : List ProviderKind)
      → All
          (λ r. (is_primary r.pool_role ≡ false) × (is_readable r ≡ false))
          (map (replica_placement id_of now s.blob_id) kinds)
  replicas-unreadable [] = tt
  replicas-unreadable (kind ∷ kinds) = (
    (refl, unreadable (replica_placement id_of now s.blob_id kind) refl),
    replicas-unreadable kinds,
  )

  readable-primaries :
      (ys : List Placement)
      → All (IsSilent s.blob_id) ys
      → filter is_readable (filter (of_blob s.blob_id) ys)
        ≡ filter is_readable (filter (is_primary_of s.blob_id) ys)
  unfolding filter
  readable-primaries [] h = refl
  readable-primaries (y ∷ ys) (k, h) = ground (arith, k, readable-primaries ys h)

  queue_replicas-quiet :
      (kinds : List ProviderKind) (xs : List Placement)
      → (kinds ≢ []) ⊎ All (IsSilent s.blob_id) xs
      → All (IsSilent s.blob_id) (queue_replicas id_of kinds s.blob_id now xs)
        × (filter (is_primary_of s.blob_id) (queue_replicas id_of kinds s.blob_id now xs)
            ≡ filter (is_primary_of s.blob_id) xs)
  unfolding queue_replicas
  queue_replicas-quiet [] xs (inl some_kind) = absurd (some_kind refl)
  queue_replicas-quiet [] xs (inr h) = (h, refl)
  queue_replicas-quiet (kind ∷ kinds) xs c =
      let (all_silent, primaries) =
        create_many-replicas (map (replica_placement id_of now s.blob_id) (kind ∷ kinds))
          (update_many is_stale requeue xs) (replicas-unreadable (kind ∷ kinds))
          (requeue-IsSilent xs) in
      (all_silent, primaries ∙ requeue-primaries xs)

  quiet_after :
      (kinds : List ProviderKind) (xs : List Placement)
      → (kinds ≢ []) ⊎ All (IsSilent s.blob_id) xs
      → (kinds ≢ []) ⊎ All (IsSilent s.blob_id) (write_primary id_of s now xs)
  quiet_after kinds xs (inl some_kind) = inl some_kind
  quiet_after kinds xs (inr h) = inr (write_primary-IsSilent xs h)

  keeps_readable : (p : Placement) → p.status ≡ active → filter is_readable (p ∷ []) ≡ p ∷ []
  unfolding filter
  keeps_readable p e = rw (is_readable_of_Serves p (inl e)) refl

  -- Behind an upload, the one copy of the blob that can be read is the primary one, where the content
  -- was put.
  pub one_readable :
      (kinds : List ProviderKind) (xs : List Placement)
      → OnePrimary s.blob_id s.kind xs
      → (kinds ≢ []) ⊎ All (IsSilent s.blob_id) xs
      → (p : Placement) × (filter is_readable (
            filter
              (of_blob s.blob_id)
              (queue_replicas id_of kinds s.blob_id now (write_primary id_of s now xs)))
          ≡ p ∷ [])
        × At s p
  one_readable kinds xs one c =
      let (p, rows, at) = write_primary-one xs one in
      let (silent, primaries) =
        queue_replicas-quiet kinds (write_primary id_of s now xs) (quiet_after kinds xs c) in
      (
        p,
        readable-primaries (queue_replicas id_of kinds s.blob_id now (write_primary id_of s now xs))
              silent
            ∙ (ap (filter is_readable) (primaries ∙ rows) ∙ keeps_readable p at.0),
        at,
      )

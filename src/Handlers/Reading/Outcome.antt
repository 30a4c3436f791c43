-- ===== src/Handlers/Reading/Outcome.antt =====
-- apps/api/src/handlers/blob.ts, `readBlobBytes`: which copy's bytes are returned.
use ddrive.Prelude.{
  ℕ, ◌≡◌, refl, sym, ap, ◌∙◌, ◌⊎◌, inl, inr, ◌≢◌, List, [], ◌∷◌, ◌++◌, String, All, All-middle,
  subst, arith,
}
use ddrive.Processing.Chunker.{Bytes}
use ddrive.Storage.Rows.{Placement, Transport, ok, err, Result-cases}
use ddrive.Storage.Provider.{order_placements_for_read}
use ddrive.Storage.Provider.Order.{Serves, All-order}
use ddrive.Handlers.Reading.{
  PoolGet, fetch, read_from, read_candidates, read_blob_bytes, note_failure,
}

module _ (get : PoolGet) (now : ℕ) (blob : Transport) where
  -- The pool has no bytes for this copy.
  abbrev pub Fails : Placement → Type 0
  Fails r = (e : String) × (fetch get now blob.blob_id blob.owner_user_id r ≡ err e)

  -- The bytes are those of the first copy, in the order of the list, that its pool can deliver.
  pub record FirstOf (rs : List Placement) (bytes : Bytes) : Type 0 where
    pub tried : List Placement
    pub chosen : Placement
    pub rest : List Placement
    pub split : rs ≡ tried ++ chosen ∷ rest
    pub failed : All Fails tried
    pub delivered : fetch get now blob.blob_id blob.owner_user_id chosen ≡ ok bytes

  FirstOf-cons :
      {r : Placement} {rs : List Placement} {bytes : Bytes}
      → Fails r
      → FirstOf rs bytes
      → FirstOf (r ∷ rs) bytes
  FirstOf-cons {r} {rs} f h = record {
    tried = r ∷ h.tried;
    chosen = h.chosen;
    rest = h.rest;
    split = ap (λ l. r ∷ l) h.split;
    failed = (f, h.failed);
    delivered = h.delivered;
  }

  read_from-outcome :
      (rs : List Placement) (last : String) (table : List Placement)
      → ((bytes : Bytes) × ((read_from get now blob.blob_id blob.owner_user_id rs last table).0
            ≡ ok bytes)
          × FirstOf rs bytes)
        ⊎ (((e : String) × ((read_from get now blob.blob_id blob.owner_user_id rs last table).0
                ≡ err e))
            × All Fails rs)
  unfolding read_from
  read_from-outcome [] last table = inr ((last, refl), tt)
  read_from-outcome (r ∷ rs) last table =
      elim (Result-cases (fetch get now blob.blob_id blob.owner_user_id r)) [
        | inl (bytes, e) ↦ inl (
          bytes,
          rw (e, read_from),
          record { tried = []; chosen = r; rest = rs; split = refl; failed = tt; delivered = e },
        )
        | inr (m, e) ↦ elim (read_from-outcome rs m (note_failure now r m table)) [
          | inl (bytes, run, first) ↦ inl (bytes, rw (e, read_from) run, FirstOf-cons (m, e) first)
          | inr ((m', run), all_fail) ↦ inr ((m', rw (e, read_from) run), ((m, e), all_fail))
        ]
      ]

  -- A blob with a readable placement: the bytes of the first candidate that its pool delivers are
  -- returned, or else every candidate fails and so does the read.
  pub read_blob_bytes-outcome :
      (placements table : List Placement)
      → order_placements_for_read placements ≢ []
      → ((bytes : Bytes) × ((read_blob_bytes get now blob placements table).0 ≡ ok bytes)
          × FirstOf (order_placements_for_read placements) bytes)
        ⊎ (((e : String) × ((read_blob_bytes get now blob placements table).0 ≡ err e))
            × All Fails (order_placements_for_read placements))
  unfolding read_blob_bytes
  read_blob_bytes-outcome placements table some_left =
      go (order_placements_for_read placements) some_left
    where
      go :
          (rs : List Placement)
          → rs ≢ []
          → ((bytes : Bytes) × ((read_candidates get now blob rs table).0 ≡ ok bytes)
              × FirstOf rs bytes)
            ⊎ (((e : String) × ((read_candidates get now blob rs table).0 ≡ err e)) × All Fails rs)
      go [] h = absurd (h refl)
      go (r ∷ rs) h = read_from-outcome (r ∷ rs) "" table

  -- One good copy is enough: if a pool delivers any ACTIVE or MODIFIED placement of the blob, the
  -- read succeeds.
  pub read_blob_bytes-available :
      (before after : List Placement) (r : Placement) (table : List Placement) (bytes : Bytes)
      → Serves r
      → fetch get now blob.blob_id blob.owner_user_id r ≡ ok bytes
      → (got : Bytes) × ((read_blob_bytes get now blob (before ++ r ∷ after) table).0 ≡ ok got)
  read_blob_bytes-available before after r table bytes s e =
      elim (read_blob_bytes-outcome rows table candidates) [
        | inl (got, run, first) ↦ (got, run)
        | inr (failed, all_fail) ↦ absurd (refuted (All-order Fails rows all_fail))
      ]
    where
      rows : List Placement
      rows = before ++ r ∷ after

      refuted : All (λ x. Serves x → Fails x) rows → ⊥
      refuted h =
          let (m, f) = All-middle (λ x. Serves x → Fails x) before r after h s in
          ok-ne-err (sym e ∙ f)
        where
          ok-ne-err : {b : Bytes} {m : String} → ok b ≡ err m → ⊥
          ok-ne-err h = cc

      candidates : order_placements_for_read rows ≢ []
      candidates none_left = refuted (All-order Fails rows (subst (All Fails) (sym none_left) tt))

  -- With one candidate that its pool delivers, its bytes are returned and no row is marked.
  pub read_blob_bytes_one :
      (placements table : List Placement) (p : Placement) (bytes : Bytes)
      → order_placements_for_read placements ≡ p ∷ []
      → fetch get now blob.blob_id blob.owner_user_id p ≡ ok bytes
      → read_blob_bytes get now blob placements table ≡ (ok bytes, table)
  unfolding read_blob_bytes read_candidates read_from
  read_blob_bytes_one placements table p bytes one delivered =
      ap (λ rs. read_candidates get now blob rs table) one ∙ ground (arith, delivered)

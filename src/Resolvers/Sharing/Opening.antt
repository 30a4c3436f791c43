-- ===== src/Resolvers/Sharing/Opening.antt =====
-- apps/api/src/resolvers/sharing.ts: the checks of a share, against what they mean.
use ddrive.Prelude.{
  ℕ, ◌≤◌, ◌<◌, ◌≡◌, refl, ap₂, inl, inr, Bool, true, false, [], ◌∷◌, Option, none, some, String,
  arith, ◌&&◌, not, Option-cases,
}
use ddrive.Processing.Chunker.{Bytes}
use ddrive.Database.Rows.{ShareStatus, active, revoked, expired, Share}
use ddrive.Resolvers.Sharing.{
  Hashing, same_bytes, is_active_share, has_expired, is_used_up, token_matches, opens,
}

same_bytes-eq : (xs ys : Bytes) → same_bytes xs ys ≡ true → xs ≡ ys
same_bytes-eq [] [] e = refl
same_bytes-eq [] (y ∷ ys) e = absurd (ground (arith, e))
same_bytes-eq (x ∷ xs) [] e = absurd (ground (arith, e))
same_bytes-eq (x ∷ xs) (y ∷ ys) e =
    ap₂ (λ z (zs : Bytes). z ∷ zs) (ground (arith, e)) (same_bytes-eq xs ys (ground (arith, e)))

same_bytes_refl : (xs : Bytes) → same_bytes xs xs ≡ true
same_bytes_refl [] = refl
same_bytes_refl (x ∷ xs) = ground (arith, same_bytes_refl xs)

-- A share that is active, whose end has not passed, and whose token is the one presented.
pub record Admitted (h : Hashing) (now : ℕ) (presented : String) (s : Share) : Type 0 where
  pub is_active : s.status ≡ active
  pub in_time : (t : ℕ) → s.expires_at ≡ some t → now ≤ t
  pub token : h.from_hex (h.sha256_hex presented) ≡ h.from_hex s.token_hash

-- One that has views left too.
pub record Opened (h : Hashing) (now : ℕ) (presented : String) (s : Share) : Type 0 where
  pub admitted : Admitted h now presented s
  pub views_left : (m : ℕ) → s.max_views ≡ some m → s.view_count < m

is_active_share-active : (st : ShareStatus) → is_active_share st ≡ true → st ≡ active
is_active_share-active active e = refl
is_active_share-active revoked e = absurd (ground (arith, e))
is_active_share-active expired e = absurd (ground (arith, e))

is_in_time :
    (now : ℕ) (end : Option ℕ) → has_expired now end ≡ false → (t : ℕ) → end ≡ some t → now ≤ t
is_in_time now none e t named = absurd (let bad : none ≡ some t = named in cc)
is_in_time now (some t') e t named = ground (arith, e, named)

has_expired-in_time :
    (now : ℕ) (end : Option ℕ) → ((t : ℕ) → end ≡ some t → now ≤ t) → has_expired now end ≡ false
has_expired-in_time now none h = refl
has_expired-in_time now (some t) h = ground (arith, h t refl)

module _ (h : Hashing) (now : ℕ) (presented : String) (s : Share) where
  -- The checks but for the limit of views.
  abbrev pub admits : Bool
  admits =
      is_active_share s.status
      && (not (has_expired now s.expires_at) && token_matches h presented s)

  pub admits-Admitted : admits ≡ true → Admitted h now presented s
  admits-Admitted e = record {
    is_active = is_active_share-active s.status (ground (arith, e));
    in_time = is_in_time now s.expires_at (ground (arith, e));
    token =
        same_bytes-eq (h.from_hex (h.sha256_hex presented)) (h.from_hex s.token_hash)
          (ground (arith, e));
  }

  pub Admitted-admits : Admitted h now presented s → admits ≡ true
  Admitted-admits a =
      let same : token_matches h presented s ≡ true =
        rw a.token (same_bytes_refl (h.from_hex s.token_hash)) in
      let on : is_active_share s.status ≡ true = rw a.is_active refl in
      ground (arith, on, same, has_expired-in_time now s.expires_at a.in_time)

  views_left-is_used_up : is_used_up s ≡ false → (m : ℕ) → s.max_views ≡ some m → s.view_count < m
  views_left-is_used_up e m named = ground (arith, e, named)

  is_used_up-views_left : ((m : ℕ) → s.max_views ≡ some m → s.view_count < m) → is_used_up s ≡ false
  is_used_up-views_left left = elim (Option-cases s.max_views) [
    | inl e ↦ ground (arith, e)
    | inr (m, e) ↦ ground (arith, e, left m e)
  ]

  -- The checks of the code are these conditions.
  pub opens-Opened : opens h now presented s ≡ true → Opened h now presented s
  opens-Opened e = record {
    admitted = admits-Admitted (ground (arith, e));
    views_left = views_left-is_used_up (ground (arith, e));
  }

  pub Opened-opens : Opened h now presented s → opens h now presented s ≡ true
  Opened-opens o = ground (arith, Admitted-admits o.admitted, is_used_up-views_left o.views_left)

-- ===== src/Storage/Provider/Order.antt =====
-- apps/api/src/storage/provider.ts, `orderPlacementsForRead`: what the order guarantees.
use mathlib.Core.List.{Perm}
use ddrive.Prelude.{
  ℕ, ◌≤◌, Bool, true, false, ◌≡◌, ◌⊎◌, List, [], ◌∷◌, arith, filter, All, ◌==◌, filter-passes,
  filter_congr, All-filter, All-mono, subst, ap, ◌∙◌,
}
use ddrive.Prelude.Sort.{
  sort_by, sort_by-All, All-sort_by, sort_by-IsSorted, IsSorted, sort_by-perm, sort_by-stable,
}
use ddrive.Storage.Rows.{Placement, PlacementStatus, active, modified, primary}
use ddrive.Storage.Provider.{rank, is_readable, score, role_bonus, order_placements_for_read}

-- The rows that serve reads, as the comment of the function names them.
abbrev pub Serves : Placement → Type 0
Serves r = (r.status ≡ active) ⊎ (r.status ≡ modified)

-- `a` is to be tried no later than `b`: ACTIVE before MODIFIED, and PRIMARY before REPLICA among
-- copies of one status.
abbrev pub NoLater : Placement → Placement → Type 0
NoLater a b =
    ((b.status ≡ active) → (a.status ≡ active))
    × ((a.status ≡ b.status) → (b.pool_role ≡ primary) → (a.pool_role ≡ primary))

abbrev pub InOrder : List Placement → Type 0
InOrder [] = Unit
InOrder (r ∷ rs) = All (λ s. NoLater r s) rs × InOrder rs

-- The statuses that serve reads.
abbrev pub serves : Placement → Bool
serves r = is_active_or_modified r.status
  where
    is_active_or_modified : PlacementStatus → Bool
    is_active_or_modified active = true
    is_active_or_modified modified = true
    is_active_or_modified _ = false

is_readable-serves : (r : Placement) → is_readable r ≡ serves r
unfolding score role_bonus
is_readable-serves r = ground arith

pub Serves-is_readable : (r : Placement) → is_readable r ≡ true → Serves r
unfolding score role_bonus
Serves-is_readable r h = ground arith

pub is_readable_of_Serves : (r : Placement) → Serves r → is_readable r ≡ true
unfolding score role_bonus
is_readable_of_Serves r h = ground arith

NoLater-rank : (a b : Placement) → Serves a → Serves b → rank a ≤ rank b → NoLater a b
unfolding score role_bonus
NoLater-rank a b p q h = ground arith

InOrder-IsSorted : (rs : List Placement) → All Serves rs → IsSorted rank rs → InOrder rs
InOrder-IsSorted [] s h = tt
InOrder-IsSorted (r ∷ rs) (p, s) (h, k) = (go rs s h, InOrder-IsSorted rs s k)
  where
    go :
        (xs : List Placement)
        → All Serves xs
        → All (λ x. rank r ≤ rank x) xs
        → All (λ x. NoLater r x) xs
    go [] s h = tt
    go (x ∷ xs) (q, s) (h, k) = (NoLater-rank r x p q h, go xs s k)

-- The candidates are the ACTIVE and MODIFIED rows, each as often as it is given and no other;
-- ACTIVE ones come before MODIFIED ones, and PRIMARY before REPLICA within a status; rows of equal
-- rank keep their order.
pub order_placements_for_read-InOrder :
    (rows : List Placement)
    → Perm (order_placements_for_read rows) (filter serves rows)
      × All Serves (order_placements_for_read rows)
      × InOrder (order_placements_for_read rows)
      × ((n : ℕ)
          → filter (λ r. rank r == n) (order_placements_for_read rows)
            ≡ filter (λ r. rank r == n) (filter serves rows))
unfolding order_placements_for_read
order_placements_for_read-InOrder rows =
    let kept = filter is_readable rows in
    let same : kept ≡ filter serves rows =
      filter_congr is_readable serves is_readable-serves rows in
    let served : All Serves (sort_by rank kept) = sort_by-All rank Serves kept (
      All-mono (λ r. is_readable r ≡ true) Serves Serves-is_readable kept
        (filter-passes is_readable rows)) in
    (
      subst (λ l. Perm (sort_by rank kept) l) same (sort_by-perm rank kept),
      served,
      InOrder-IsSorted (sort_by rank kept) served (sort_by-IsSorted rank kept),
      λ n. sort_by-stable rank n kept ∙ ap (filter (λ r. rank r == n)) same,
    )

-- What holds of all candidates holds of every row that serves reads.
pub All-order {ℓ} :
    (P : Placement → Type ℓ) (rows : List Placement)
    → All P (order_placements_for_read rows)
    → All (λ r. Serves r → P r) rows
unfolding order_placements_for_read
All-order P rows h =
    All-mono (λ r. is_readable r ≡ true → P r) (λ r. Serves r → P r)
      (λ r k s. k (is_readable_of_Serves r s)) rows
      (All-filter P is_readable rows (All-sort_by rank P (filter is_readable rows) h))

-- With one copy that can be read, there is nothing to order.
pub order_placements_for_read_one :
    (rows : List Placement) (p : Placement)
    → filter is_readable rows ≡ p ∷ []
    → order_placements_for_read rows ≡ p ∷ []
unfolding order_placements_for_read sort_by
order_placements_for_read_one rows p e = ap (sort_by rank) e

-- ===== src/Storage/DiscordBlobs/Groups.antt =====
-- apps/api/src/storage/discord-blobs.ts: the groups of webhooks.
use native.Mathlib.Nat.{suc-mul, zero-mul, mod-lt, div-add-mod}
use ddrive.Prelude.{
  length-filter-le, filter-All, ℕ, zero, suc, ◌+◌, ◌-◌, ◌*◌, ◌/◌, ◌%◌, ◌≤◌, max, ◌≡◌, refl, ap, ap₂,
  ◌∙◌, List, [], ◌∷◌, ◌++◌, String, map, length, take, drop, filter, flatten, ltb, if◌then◌else◌,
  arith, All,
}
use ddrive.Storage.DiscordBlobs.{
  Layout, is_full, groups_from, safe_group_count, partition_sequential, GroupedWebhook, grouped_in,
  grouped_servers, grouped_users, proportional_server_count, get_server_count, get_user_group_count,
  build_grouped_webhooks,
}

module _ {ℓ} {A : Type ℓ} where
  flatten-filter_full : (gs : List (List A)) → flatten (filter is_full gs) ≡ flatten gs
  unfolding filter
  flatten-filter_full [] = refl
  flatten-filter_full ([] ∷ gs) = flatten-filter_full gs
  flatten-filter_full ((x ∷ xs) ∷ gs) = ap (λ r. x ∷ xs ++ r) (flatten-filter_full gs)

  take-drop_append : (n : ℕ) (xs : List A) → take n xs ++ drop n xs ≡ xs
  take-drop_append zero xs = refl
  take-drop_append (suc n) [] = refl
  take-drop_append (suc n) (x ∷ xs) = ap (λ r. x ∷ r) (take-drop_append n xs)

  length-drop_le : (n : ℕ) (xs : List A) → n ≤ length xs → length (drop n xs) + n ≡ length xs
  length-drop_le zero xs h = omega arith
  length-drop_le (suc n) [] h = absurd (omega (arith, h))
  length-drop_le (suc n) (x ∷ xs) h = omega (arith, length-drop_le n xs (omega (arith, h)))

  length-take_le : (n : ℕ) (xs : List A) → n ≤ length xs → length (take n xs) ≡ n
  length-take_le zero xs h = refl
  length-take_le (suc n) [] h = absurd (omega (arith, h))
  length-take_le (suc n) (x ∷ xs) h = ap suc (length-take_le n xs (omega (arith, h)))

  -- What is left for the groups behind the next one.
  left_over :
      (base remainder i left : ℕ) (items : List A)
      → length items ≡ suc left * base + (remainder - i)
      → let size = base + (if ltb i remainder then 1 else 0) in
        (size ≤ length items) × (length (drop size items) ≡ left * base + (remainder - (i + 1)))
  left_over base remainder i left items len =
      let size = base + (if ltb i remainder then 1 else 0) in
      let fits : size ≤ length items = ground (arith, len, suc-mul left base) in
      (fits, ground (arith, len, suc-mul left base, length-drop_le size items fits))

  -- Groups whose sizes add up to the items that are left take them all.
  flatten-groups_from :
      (base remainder i left : ℕ) (items : List A)
      → length items ≡ left * base + (remainder - i)
      → remainder ≤ i + left
      → flatten (groups_from base remainder i left items) ≡ items
  unfolding groups_from
  flatten-groups_from base remainder i zero [] len le = refl
  flatten-groups_from base remainder i zero (x ∷ items) len le =
      absurd (omega (arith, len, le, zero-mul base))
  flatten-groups_from base remainder i (suc left) items len le =
      let size = base + (if ltb i remainder then 1 else 0) in
      let (fits, rest) = left_over base remainder i left items len in
      ap (λ r. take size items ++ r)
        (flatten-groups_from base remainder (i + 1) left (drop size items) rest (omega (arith, le)))
      ∙ take-drop_append size items

  -- A group that has as many items as the others, or one more.
  abbrev IsEven : ℕ → List A → Type 0
  IsEven base g = (base ≤ length g) × (length g ≤ base + 1)

  groups_from-IsEven :
      (base remainder i left : ℕ) (items : List A)
      → length items ≡ left * base + (remainder - i)
      → All (IsEven base) (groups_from base remainder i left items)
  unfolding groups_from
  groups_from-IsEven base remainder i zero items len = tt
  groups_from-IsEven base remainder i (suc left) items len =
      let size = base + (if ltb i remainder then 1 else 0) in
      let (fits, rest) = left_over base remainder i left items len in
      let taken = length-take_le size items fits in
      (
        (ground (arith, taken), ground (arith, taken)),
        groups_from-IsEven base remainder (i + 1) left (drop size items) rest,
      )

  length-groups_from :
      (base remainder i left : ℕ) (items : List A)
      → length (groups_from base remainder i left items) ≡ left
  unfolding groups_from
  length-groups_from base remainder i zero items = refl
  length-groups_from base remainder i (suc left) items = ap suc (
      length-groups_from base remainder (i + 1) left
        (drop (base + (if ltb i remainder then 1 else 0)) items))

  full-All : (gs : List (List A)) → All (λ g. 1 ≤ length g) (filter is_full gs)
  unfolding filter
  full-All [] = tt
  full-All ([] ∷ gs) = full-All gs
  full-All ((x ∷ xs) ∷ gs) = (omega arith, full-All gs)

  sizes :
      (items : List A) (k : ℕ)
      → let safe = safe_group_count (length items) k in
        length items ≡ safe * (length items / safe) + (length items % safe - 0)
  sizes items k =
      let safe = safe_group_count (length items) k in omega (arith, div-add-mod (length items) safe)

  -- The groups are at most as many as are asked for, or one; none is empty, and their sizes differ by one at most;
  -- joined they are the items in their order.
  pub partition_sequential-groups :
      (items : List A) (group_count : ℕ)
      → let gs = partition_sequential items group_count in
        let safe = safe_group_count (length items) group_count in
        (flatten gs ≡ items)
        × (length gs ≤ max 1 group_count)
        × All (λ g. 1 ≤ length g) gs
        × All (IsEven (length items / safe)) gs
  unfolding partition_sequential
  partition_sequential-groups items k =
      let safe = safe_group_count (length items) k in
      let base = length items / safe in
      let gs = groups_from base (length items % safe) 0 safe items in
      (
        flatten-filter_full gs
            ∙ flatten-groups_from base (length items % safe) 0 safe items (sizes items k)
                (omega (arith, mod-lt (length items) {m = safe} (omega arith))),
        omega (
          arith,
          length-filter-le is_full gs,
          length-groups_from base (length items % safe) 0 safe items,
        ),
        full-All gs,
        filter-All (IsEven base) is_full gs
            (groups_from-IsEven base (length items % safe) 0 safe items (sizes items k)),
      )

abbrev webhook_of : GroupedWebhook → String
webhook_of c = c.webhook

map-append {ℓ κ} :
    {A : Type ℓ} {B : Type κ} (f : A → B) (xs ys : List A) → map f (xs ++ ys) ≡ map f xs ++ map f ys
map-append f [] ys = refl
map-append f (x ∷ xs) ys = ap (λ r. f x ∷ r) (map-append f xs ys)

map-grouped_in :
    (user server i : ℕ) (ws : List String) → map webhook_of (grouped_in user server i ws) ≡ ws
unfolding grouped_in
map-grouped_in user server i [] = refl
map-grouped_in user server i (w ∷ ws) = ap (λ r. w ∷ r) (map-grouped_in user server (i + 1) ws)

map-grouped_servers :
    (user server : ℕ) (gs : List (List String))
    → map webhook_of (grouped_servers user server gs) ≡ flatten gs
unfolding grouped_servers
map-grouped_servers user server [] = refl
map-grouped_servers user server (g ∷ gs) =
    map-append webhook_of (grouped_in user server 0 g) (grouped_servers user (server + 1) gs)
    ∙ ap₂ (λ x y. x ++ y) (map-grouped_in user server 0 g)
        (map-grouped_servers user (server + 1) gs)

map-grouped_users :
    (total count user : ℕ) (gs : List (List String))
    → map webhook_of (grouped_users total count user gs) ≡ flatten gs
unfolding grouped_users
map-grouped_users total count user [] = refl
map-grouped_users total count user (g ∷ gs) =
    let parts = partition_sequential g (proportional_server_count total (length g) count) in
    map-append webhook_of (grouped_servers user 0 parts) (grouped_users total count (user + 1) gs)
    ∙ ap₂ (λ x y. x ++ y)
        (map-grouped_servers user 0 parts
          ∙ (partition_sequential-groups g (proportional_server_count total (length g) count)).0)
        (map-grouped_users total count (user + 1) gs)

-- Every webhook stands in one group, in its order.
pub build_grouped_webhooks-all :
    (y : Layout) (webhooks : List String)
    → map (λ (c : GroupedWebhook). c.webhook) (build_grouped_webhooks y webhooks) ≡ webhooks
unfolding build_grouped_webhooks
build_grouped_webhooks-all y webhooks =
    map-grouped_users (get_server_count y (length webhooks)) (length webhooks) 0
      (partition_sequential webhooks (get_user_group_count y (length webhooks)))
    ∙ (partition_sequential-groups webhooks (get_user_group_count y (length webhooks))).0

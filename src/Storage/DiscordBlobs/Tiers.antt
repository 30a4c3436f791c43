-- ===== src/Storage/DiscordBlobs/Tiers.antt =====
-- apps/api/src/storage/discord-blobs.ts: what `selectSender` chooses, and how many uploads a sender carries.
use ddrive.Prelude.{
  ℕ, suc, ◌<◌, ◌≡◌, refl, sym, ap, subst, ◌∙◌, ◌⊎◌, inl, inr, Bool, true, false, not, ◌&&◌, List,
  [], ◌∷◌, none, some, String, map, length, filter, leb, if◌then◌else◌, get_elem?, arith, All,
  All-mono, all, ◌||◌, All-filter, filter-All, Bool-cases, Option-cases,
}
use ddrive.Prelude.Sort.{sort_by-All, All-sort_by}
use ddrive.Limiter.RoundRobin.{scan, round_robin, round_robin-outcome}
use ddrive.Storage.DiscordBlobs.{
  Layout, GroupedWebhook, Senders, Round, webhook, bot, sleep, is_free, available,
  score_grouped_webhook, build_grouped_webhooks, select_round,
}
use ddrive.Storage.DiscordBlobs.Groups.{build_grouped_webhooks-all}

filter-passes {ℓ} : {A : Type ℓ} (p : A → Bool) (xs : List A) → All (λ a. p a ≡ true) (filter p xs)
unfolding filter
filter-passes p [] = tt
filter-passes p (x ∷ xs) = elim (Bool-cases (p x)) [
  | inl t ↦ rw (t, filter) (t, filter-passes p xs)
  | inr t ↦ rw (t, filter) (filter-passes p xs)
]

All-map {ℓ κ ρ} :
    {A : Type ℓ} {B : Type κ} (P : B → Type ρ) (f : A → B) (xs : List A)
    → All (λ a. P (f a)) xs
    → All P (map f xs)
All-map P f [] h = tt
All-map P f (x ∷ xs) (p, h) = (p, All-map P f xs h)

at-All {ℓ κ} :
    {A : Type ℓ} (P : A → Type κ) (xs : List A)
    → ((k : ℕ) (a : A) → get_elem? xs k ≡ some a → P a)
    → All P xs
at-All P [] h = tt
at-All P (x ∷ xs) h = (h 0 x refl, at-All P xs (λ k a e. h (suc k) a e))

module _ (y : Layout) (s : Senders) (now : ℕ) where
  available-free :
      (tier : List GroupedWebhook) (c : GroupedWebhook) (cs : List GroupedWebhook)
      → available y s now tier ≡ c ∷ cs
      → is_free s now c.webhook ≡ true
  unfolding available
  available-free tier c cs e =
      let p = λ (x : GroupedWebhook). is_free s now x.webhook in
      (subst (All (λ x. p x ≡ true)) e (
        sort_by-All (score_grouped_webhook y s) (λ x. p x ≡ true) (filter p tier)
          (filter-passes p tier))).0

  available-from :
      (q : GroupedWebhook → Bool) (all : List GroupedWebhook) (c : GroupedWebhook)
      (cs : List GroupedWebhook)
      → available y s now (filter q all) ≡ c ∷ cs
      → q c ≡ true
  unfolding available
  available-from q all c cs e =
      let p = λ (x : GroupedWebhook). is_free s now x.webhook in
      (subst (All (λ x. q x ≡ true)) e (
        sort_by-All (score_grouped_webhook y s) (λ x. q x ≡ true) (filter p (filter q all))
          (filter-All (λ x. q x ≡ true) p (filter q all) (filter-passes q all)))).0

  -- An empty tier has no free webhook.
  available-none :
      (q : GroupedWebhook → Bool) (all : List GroupedWebhook)
      → available y s now (filter q all) ≡ []
      → All (λ x. q x ≡ true → is_free s now x.webhook ≡ false) all
  unfolding available
  available-none q all e =
      let p = λ (x : GroupedWebhook). is_free s now x.webhook in
      let P = λ (x : GroupedWebhook). p x ≡ false in
      let kept : All P (filter p (filter q all)) =
        All-sort_by (score_grouped_webhook y s) P (filter p (filter q all))
          (subst (All P) (sym e) tt) in
      All-filter P q all (
        All-mono (λ x. p x ≡ true → P x) P
          (λ x h. elim (Bool-cases (p x)) [ inl t ↦ h t | inr t ↦ t ]) (filter q all)
          (All-filter P p (filter q all) kept))

all-All {ℓ} : {A : Type ℓ} (p : A → Bool) (xs : List A) → All (λ a. p a ≡ true) xs → all p xs ≡ true
all-All p [] h = refl
all-All p (x ∷ xs) (k, h) = ground (arith, k, all-All p xs h)

-- No webhook that is not relayed is free, no sender of a list is, and what a choice may be.
abbrev pub no_direct : Layout → Senders → ℕ → List String → Bool
no_direct y s now webhooks = all (λ w. y.is_relayed w || not (is_free s now w)) webhooks

abbrev pub none_free : Senders → ℕ → List String → Bool
none_free s now ids = all (λ id. not (is_free s now id)) ids

unfoldable pub chosen_well : Layout → Senders → ℕ → List String → List String → Round → Bool
chosen_well y s now webhooks bots (webhook id) =
    is_free s now id
    && (if y.is_relayed id then no_direct y s now webhooks && none_free s now bots else true)
chosen_well y s now webhooks bots (bot id) = is_free s now id && no_direct y s now webhooks
chosen_well y s now webhooks bots (sleep ms) =
    none_free s now webhooks && (none_free s now bots && (leb 50 ms && leb ms 100))

pub List-cases {ℓ} :
    {A : Type ℓ} (xs : List A) → (xs ≡ []) ⊎ ((x : A) × (rest : List A) × (xs ≡ x ∷ rest))
List-cases [] = inl refl
List-cases (x ∷ xs) = inr (x, xs, refl)

positive {ℓ} : {A : Type ℓ} {xs : List A} (x : A) (rest : List A) → xs ≡ x ∷ rest → 0 < length xs
positive x rest e = omega (arith, ap length e)

module _ (y : Layout) (s : Senders) (now : ℕ) (webhooks bots : List String) where
  on_webhooks :
      (p : String → Bool)
      → All (λ (c : GroupedWebhook). p c.webhook ≡ true) (build_grouped_webhooks y webhooks)
      → all p webhooks ≡ true
  on_webhooks p h = all-All p webhooks (
      subst (All (λ w. p w ≡ true)) (build_grouped_webhooks-all y webhooks) (
        All-map (λ w. p w ≡ true) (λ (c : GroupedWebhook). c.webhook)
          (build_grouped_webhooks y webhooks) h))

  abbrev pub direct : List GroupedWebhook
  direct =
      filter (λ (c : GroupedWebhook). not (y.is_relayed c.webhook))
        (build_grouped_webhooks y webhooks)

  abbrev pub relayed : List GroupedWebhook
  relayed =
      filter (λ (c : GroupedWebhook). y.is_relayed c.webhook) (build_grouped_webhooks y webhooks)

  none_direct : available y s now direct ≡ [] → no_direct y s now webhooks ≡ true
  none_direct e =
      on_webhooks (λ w. y.is_relayed w || not (is_free s now w))
        (All-mono
          (λ (c : GroupedWebhook).
            not (y.is_relayed c.webhook) ≡ true → is_free s now c.webhook ≡ false)
          (λ (c : GroupedWebhook). (y.is_relayed c.webhook || not (is_free s now c.webhook)) ≡ true)
          (λ c h. ground (arith, h)) (build_grouped_webhooks y webhooks)
          (available-none y s now (λ (c : GroupedWebhook). not (y.is_relayed c.webhook))
            (build_grouped_webhooks y webhooks) e))

  none_webhook :
      available y s now direct ≡ []
      → available y s now relayed ≡ []
      → none_free s now webhooks ≡ true
  none_webhook e k =
      on_webhooks (λ w. not (is_free s now w))
        (both (build_grouped_webhooks y webhooks)
          (available-none y s now (λ (c : GroupedWebhook). not (y.is_relayed c.webhook))
            (build_grouped_webhooks y webhooks) e)
          (available-none y s now (λ (c : GroupedWebhook). y.is_relayed c.webhook)
            (build_grouped_webhooks y webhooks) k))
    where
      both :
          (cs : List GroupedWebhook)
          → All (λ c. not (y.is_relayed c.webhook) ≡ true → is_free s now c.webhook ≡ false) cs
          → All (λ c. y.is_relayed c.webhook ≡ true → is_free s now c.webhook ≡ false) cs
          → All (λ c. not (is_free s now c.webhook) ≡ true) cs
      both [] h k = tt
      both (c ∷ cs) (h, hs) (k, ks) = (ground (arith, h, k), both cs hs ks)

  no_bot : round_robin (is_free s now) bots s.bot_index ≡ none → none_free s now bots ≡ true
  no_bot e = elim (List-cases bots) [
    | inl empty ↦ rw empty refl
    | inr (b0, rest, cons) ↦
        elim (round_robin-outcome (is_free s now) bots s.bot_index (positive b0 rest cons)) [
          | inl (idx, a, run, lt, f) ↦ absurd (let bad : none ≡ some (idx, a) = sym e ∙ run in cc)
          | inr (run, every) ↦
              all-All (λ id. not (is_free s now id)) bots
                (at-All (λ id. not (is_free s now id) ≡ true) bots
                  (λ k a at. ground (arith, every k a at)))
        ]
  ]

  bot_free :
      (idx : ℕ) (id : String)
      → round_robin (is_free s now) bots s.bot_index ≡ some (idx, id)
      → is_free s now id ≡ true
  unfolding round_robin scan
  bot_free idx id e = elim (List-cases bots) [
    | inl empty ↦ absurd (let bad : none ≡ some (idx, id) = rw empty at e in cc)
    | inr (b0, rest, cons) ↦
        elim (round_robin-outcome (is_free s now) bots s.bot_index (positive b0 rest cons)) [
          | inl (i, a, run, lt, f) ↦
              let same : some (i, a) ≡ some (idx, id) = sym run ∙ e in
              subst (λ x. is_free s now x ≡ true) (let eq : a ≡ id = cc in eq) f.passes
          | inr (run, every) ↦ absurd (let bad : none ≡ some (idx, id) = sym run ∙ e in cc)
        ]
  ]

  -- Whatever the groups and the cursors, a round chooses a sender that the limiter lets through and that
  -- carries fewer than two uploads. It chooses a relayed webhook only if no other webhook and no bot is so,
  -- and a bot only if no webhook is that is not relayed. It sleeps, for 50 to 100 ms, only if no sender is.
  pub select_round-chosen_well :
      chosen_well y s now webhooks bots (select_round y s now webhooks bots).1 ≡ true
  unfolding select_round chosen_well
  select_round-chosen_well = elim (List-cases (available y s now direct)) [
    | inr (c, cs, e) ↦
        let free = available-free y s now direct c cs e in
        let plain =
          available-from y s now (λ (x : GroupedWebhook). not (y.is_relayed x.webhook))
            (build_grouped_webhooks y webhooks) c cs e in
        ground (arith, e, free, plain)
    | inl e ↦ elim (Option-cases (round_robin (is_free s now) bots s.bot_index)) [
      | inr ((idx, id), r) ↦ ground (arith, e, r, bot_free idx id r, none_direct e)
      | inl r ↦ elim (List-cases (available y s now relayed)) [
        | inr (c, cs, k) ↦
            let free = available-free y s now relayed c cs k in
            ground (arith, e, r, k, free, none_direct e, no_bot r)
        | inl k ↦ ground (arith, e, r, k, none_webhook e k, no_bot r)
      ]
    ]
  ]

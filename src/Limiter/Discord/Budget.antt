-- ===== src/Limiter/Discord/Budget.antt =====
-- packages/discord-client/src/rate-limiter.ts: reservations never exceed what Discord has granted,
-- and a throttled sender is left alone until its time.
use ddrive.Prelude.{
  ℕ, ◌+◌, ◌-◌, ◌≤◌, ◌<◌, max, ◌≡◌, sym, ap, ◌∙◌, inl, inr, ◌≢◌, true, false, none, some, String,
  arith, ltb, leb, str_eq, str_eq_refl, if◌then◌else◌, Option-cases, Bool-cases, str_cases,
}
use ddrive.Prelude.Tables.{lookup, lookup-insert}
use ddrive.Limiter.Discord.{
  WebhookState, Limiter, fresh, state_of, can_use, reserve, release, record_throttle, put_state,
}

-- The state of every sender after one was written.
state_of-put_state :
    (l : Limiter) (id other : String) (s : WebhookState)
    → state_of (put_state l id s) other ≡ (if str_eq id other then s else state_of l other)
unfolding state_of
state_of-put_state l id other s = elim (Bool-cases (str_eq id other)) [
  | inl e ↦ rw (lookup-insert id other s l.webhooks, e, state_of)
  | inr e ↦ rw (lookup-insert id other s l.webhooks, e, state_of)
]

lookup-put_state :
    (l : Limiter) (id : String) (s : WebhookState) → lookup id (put_state l id s).webhooks ≡ some s
lookup-put_state l id s = rw (lookup-insert id id s l.webhooks, str_eq_refl id)

release-known :
    (l : Limiter) (id : String) (s : WebhookState)
    → lookup id l.webhooks ≡ some s
    → release l id ≡ put_state l id (record s { in_flight = s.in_flight - 1 })
unfolding release
release-known l id s e = rw (e, release)

can_use-known :
    (l : Limiter) (now : ℕ) (id : String) (s : WebhookState)
    → lookup id l.webhooks ≡ some s
    → can_use l now id ≡ (if leb s.reset_at now then true else ltb s.in_flight s.remaining)
unfolding can_use
can_use-known l now id s e = rw (e, can_use)

-- A sender's reservations are within what is left of its window, or its window is over.
abbrev pub WithinBudget : Limiter → ℕ → String → Type 0
WithinBudget l now id =
    now < (state_of l id).reset_at → (state_of l id).in_flight ≤ (state_of l id).remaining

-- A reservation that `canUse` has allowed keeps the sender within its budget.
pub reserve-WithinBudget :
    (l : Limiter) (now : ℕ) (id : String)
    → can_use l now id ≡ true
    → WithinBudget (reserve l id) now id
unfolding reserve
reserve-WithinBudget l now id h = elim (Option-cases (lookup id l.webhooks)) [
  | inl unknown ↦
      let old : state_of l id ≡ fresh = unfold state_of in rw (unknown, state_of) in
      rw
        (
          state_of-put_state l id id
              (record (state_of l id) { in_flight = (state_of l id).in_flight + 1 }),
          str_eq_refl id,
          old,
        )
        (λ _. omega arith)
  | inr (s, known) ↦
      let old : state_of l id ≡ s = unfold state_of in rw (known, state_of) in
      let usable = sym (can_use-known l now id s known) ∙ h in
      rw
        (
          state_of-put_state l id id
              (record (state_of l id) { in_flight = (state_of l id).in_flight + 1 }),
          str_eq_refl id,
          old,
        )
        (λ t. ground arith)
]

-- A reservation and its release leave every sender's state as it was.
pub release-reserve :
    (l : Limiter) (id other : String)
    → state_of (release (reserve l id) id) other ≡ state_of l other
unfolding reserve
release-reserve l id other =
    let s = state_of l id in
    let s1 : WebhookState = record s { in_flight = s.in_flight + 1 } in
    let s2 : WebhookState = record s1 { in_flight = s1.in_flight - 1 } in
    let same : s2 ≡ s = ap (λ n. record s { in_flight = n }) (back s.in_flight) in
    rw (release-known (put_state l id s1) id s1 (lookup-put_state l id s1)) (
      state_of-put_state (put_state l id s1) id other s2 ∙ elim (str_cases id other) [
        | inl (e, eq) ↦ rw e (same ∙ ap (state_of l) eq)
        | inr (e, ne) ↦ rw e (state_of-put_state l id other s1 ∙ rw e)
      ])
  where
    back : (n : ℕ) → n + 1 - 1 ≡ n
    back n = omega arith

-- While the time that a 429 asks for lasts, the sender cannot be used, and other senders can be used
-- as before.
pub record_throttle-can_use :
    (l : Limiter) (id other : String) (retry_after_ms now later : ℕ)
    → later < now + retry_after_ms
    → (can_use (record_throttle l id retry_after_ms false now) later id ≡ false)
      × (id ≢ other
          → can_use (record_throttle l id retry_after_ms false now) later other
            ≡ can_use l later other)
unfolding record_throttle
record_throttle-can_use l id other ms now later h =
    let s = state_of l id in
    let t : WebhookState = record s { remaining = 0; reset_at = max s.reset_at (now + ms) } in
    (
      can_use-known (put_state l id t) later id t (lookup-put_state l id t) ∙ ground arith,
      λ ne. elim (str_cases id other) [
        | inl (e, eq) ↦ absurd (ne eq)
        | inr (e, _) ↦
            unfold can_use in
            ap
              (λ o. elim o [
                | none ↦ true
                | some x ↦ if leb x.reset_at later then true else ltb x.in_flight x.remaining
              ])
              (lookup-insert id other t l.webhooks ∙ rw e)
      ],
    )

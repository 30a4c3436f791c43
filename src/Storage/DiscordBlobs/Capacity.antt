-- ===== src/Storage/DiscordBlobs/Capacity.antt =====
-- apps/api/src/storage/discord-blobs.ts: the uploads that share the senders.
use ddrive.Prelude.{
  ℕ, ◌+◌, ◌-◌, ◌≤◌, ◌≡◌, ap, sym, subst, ◌∙◌, inl, inr, true, List, [], ◌∷◌, ◌++◌, String, length,
  ◌%◌, if◌then◌else◌, arith, Option-cases, str_eq, eq_iff,
}
use ddrive.Prelude.Tables.{lookup, lookup-insert, lookup-erase}
use ddrive.Storage.Rows.{ok, err}
use ddrive.Limiter.RoundRobin.{round_robin}
use ddrive.Limiter.Discord.{Limiter}
use ddrive.Storage.DiscordBlobs.{
  Layout, Senders, Round, webhook, bot, sleep, active_of, claim_sender, unclaim_sender, is_free,
  sender_has_capacity, available, advance_group_cursors, build_grouped_webhooks, select_round,
  select_sender,
}
use ddrive.Storage.DiscordBlobs.Tiers.{
  chosen_well, select_round-chosen_well, direct, relayed, List-cases,
}

-- The module's variables, and the senders of the uploads that are under way.
pub record World : Type 0 where
  pub senders : Senders
  pub uploads : List String

begun : List String → Round → List String
begun ups (webhook id) = id ∷ ups
begun ups (bot id) = id ∷ ups
begun ups (sleep ms) = ups

chosen : List String → Senders × Round → World
unfolding begun
chosen ups (s, r) = record { senders = s; uploads = begun ups r }

-- `await selectSender(webhooks, bots)`, as far as one round comes.
pub select : Layout → ℕ → List String → List String → World → World
unfolding chosen
select y now webhooks bots w = elim (select_sender y w.senders now webhooks bots) [
  | err e ↦ w
  | ok r ↦ chosen w.uploads r
]

pub data Event : World → World → Type 0 where
  selects :
      (w : World) (y : Layout) (now : ℕ) (webhooks bots : List String)
      → Event w (select y now webhooks bots w)
  -- `finally { unclaimSender(id) }`
  finishes :
      (w : World) (before after : List String) (id : String)
      → w.uploads ≡ before ++ id ∷ after
      → Event w (record { senders = unclaim_sender id w.senders; uploads = before ++ after })
  -- What the requests tell the limiter.
  limits :
      (w : World) (l : Limiter) → Event w (record w { senders = record w.senders { limiter = l } })

pub data Reaches (w : World) : World → Type 0 where
  here : Reaches w w
  next : {t u : World} → Reaches w t → Event t u → Reaches w u

-- The uploads that a sender carries.
pub carried : String → List String → ℕ
carried j [] = 0
carried j (id ∷ ups) = (if str_eq id j then 1 else 0) + carried j ups

carried-middle :
    (j id : String) (before after : List String)
    → carried j (before ++ id ∷ after)
      ≡ carried j (before ++ after) + (if str_eq id j then 1 else 0)
unfolding carried
carried-middle j id [] after = ground arith
carried-middle j id (x ∷ before) after = ground (arith, carried-middle j id before after)

-- What `claimSender` and `unclaimSender` do to the count of a sender.
active_of-claim :
    (id j : String) (s : Senders)
    → active_of (claim_sender id s) j ≡ active_of s j + (if str_eq id j then 1 else 0)
unfolding claim_sender
active_of-claim id j s =
    ground (arith, lookup-insert id j (active_of s id + 1) s.active, eq_iff id j)

active_of-unclaim :
    (id j : String) (s : Senders)
    → active_of (unclaim_sender id s) j ≡ active_of s j - (if str_eq id j then 1 else 0)
unfolding unclaim_sender
active_of-unclaim id j s = elim (Option-cases (lookup id s.active)) [
  | inl e ↦ ground (arith, e, lookup-erase id j s.active, eq_iff id j)
  | inr (n, e) ↦
      ground
        (arith, e, lookup-erase id j s.active, lookup-insert id j (n - 1) s.active, eq_iff id j)
]

-- The counts are those of the uploads, and none is above the limit.
record Good (w : World) : Type 0 where
  counted : (j : String) → active_of w.senders j ≡ carried j w.uploads
  capped : (j : String) → carried j w.uploads ≤ 2

select-counts :
    (y : Layout) (s : Senders) (now : ℕ) (webhooks bots : List String) (j : String)
    (ups : List String)
    → active_of s j ≡ carried j ups
    → active_of (select_round y s now webhooks bots).0 j
      ≡ carried j (begun ups (select_round y s now webhooks bots).1)
unfolding select_round begun carried advance_group_cursors
select-counts y s now webhooks bots j ups e =
    elim (List-cases (available y s now (direct y s now webhooks bots))) [
      | inr (c, cs, d) ↦
          let moved = advance_group_cursors c (build_grouped_webhooks y webhooks) s in
          ground (arith, d, e, active_of-claim c.webhook j moved)
      | inl d ↦ elim (Option-cases (round_robin (is_free s now) bots s.bot_index)) [
        | inr ((idx, id), r) ↦
            let moved : Senders = record s { bot_index = (idx + 1) % length bots } in
            ground (arith, d, r, e, active_of-claim id j moved)
        | inl r ↦ elim (List-cases (available y s now (relayed y s now webhooks bots))) [
          | inr (c, cs, k) ↦
              let moved = advance_group_cursors c (build_grouped_webhooks y webhooks) s in
              ground (arith, d, r, k, e, active_of-claim c.webhook j moved)
          | inl k ↦ ground (arith, d, r, k, e)
        ]
      ]
    ]

chosen-Good :
    (w : World) (y : Layout) (now : ℕ) (webhooks bots : List String)
    → Good w
    → Good (chosen w.uploads (select_round y w.senders now webhooks bots))
unfolding chosen chosen_well is_free sender_has_capacity begun carried
chosen-Good w y now webhooks bots g =
    let r = (select_round y w.senders now webhooks bots).1 in
    let well = select_round-chosen_well y w.senders now webhooks bots in
    record {
      counted = λ j. select-counts y w.senders now webhooks bots j w.uploads (g.counted j);
      capped = λ j.
          (elim r
              as (λ x.
                chosen_well y w.senders now webhooks bots x ≡ true
                → carried j (begun w.uploads x) ≤ 2) [
                  | webhook id ↦ λ k. ground (arith, k, g.counted id, g.capped j, eq_iff id j)
                  | bot id ↦ λ k. ground (arith, k, g.counted id, g.capped j, eq_iff id j)
                  | sleep ms ↦ λ k. g.capped j
                ])
            well;
    }

select-Good :
    (w : World) (y : Layout) (now : ℕ) (webhooks bots : List String)
    → Good w
    → Good (select y now webhooks bots w)
unfolding select select_sender
select-Good w y now webhooks bots g = elim (List-cases (build_grouped_webhooks y webhooks)) [
  | inl e ↦
      let same : select y now webhooks bots w ≡ w = ground (arith, e) in subst Good (sym same) g
  | inr (c, cs, e) ↦
      let same : select y now webhooks bots w
          ≡ chosen w.uploads (select_round y w.senders now webhooks bots) =
        ground (arith, e) in
      subst Good (sym same) (chosen-Good w y now webhooks bots g)
]

finish-Good :
    (w : World) (before after : List String) (id : String)
    → w.uploads ≡ before ++ id ∷ after
    → Good w
    → Good (record { senders = unclaim_sender id w.senders; uploads = before ++ after })
finish-Good w before after id e g =
    let counts = λ (j : String). ap (carried j) e ∙ carried-middle j id before after in
    record {
      counted = λ j. omega (arith, active_of-unclaim id j w.senders, g.counted j, counts j);
      capped = λ j. omega (arith, g.capped j, counts j);
    }

Event-Good : {w u : World} → Event w u → Good w → Good u
Event-Good (selects w y now webhooks bots) g = select-Good w y now webhooks bots g
Event-Good (finishes w before after id e) g = finish-Good w before after id e g
Event-Good (limits w l) g = record { counted = g.counted; capped = g.capped }

Reaches-Good : {w u : World} → Reaches w u → w.senders.active ≡ [] → w.uploads ≡ [] → Good u
unfolding carried lookup
Reaches-Good {w = w} here fresh idle = record {
  counted = λ j. ground (arith, ap (lookup j) fresh, ap (carried j) idle);
  capped = λ j. ground (arith, ap (carried j) idle);
}
Reaches-Good (next run event) fresh idle = Event-Good event (Reaches-Good run fresh idle)

-- From a state in which no uploads are under way, and none is counted, uploads that begin and end in any
-- order are counted right for each sender, and no sender ever carries more than two.
pub Reaches-capped :
    {w u : World} (id : String)
    → Reaches w u
    → w.senders.active ≡ []
    → w.uploads ≡ []
    → (active_of u.senders id ≡ carried id u.uploads) × (carried id u.uploads ≤ 2)
Reaches-capped id run fresh idle =
    let g = Reaches-Good run fresh idle in (g.counted id, g.capped id)

-- ===== src/Limiter/Telegram/Uploads/Serial.antt =====
-- apps/api/src/storage/telegram-blobs.ts and packages/telegram-client/src/client.ts: sends of one
-- bot never overlap, whatever the uploads do.
use ddrive.Prelude.{
  ℕ, ◌+◌, ◌-◌, ◌≤◌, ◌%◌, min, max, ◌≡◌, refl, ap, ◌∙◌, inl, inr, true, false, List, [], ◌∷◌, none,
  some, String, arith, length, if◌then◌else◌, str_eq, eq_iff,
}
use ddrive.Prelude.Tables.{lookup}
use ddrive.Limiter.RoundRobin.{round_robin, round_robin-outcome}
use ddrive.Limiter.Telegram.{
  Limiter, state_of, put_state, can_use, reserve, release, record_sent, record_retry_after,
  select_round, reserved, sleep, get_next_reset_ms,
}
use ddrive.Limiter.Telegram.Uploads.{
  state_of-put_state, World, begun, begin, Event, selects, attempts, responds, finishes, sent,
  throttled, Reaches, here, next, carried, held, carried-append, held-append, carried-le-held,
  held-middle, carried-middle, initial,
}

-- Each sender's `inFlight` counts the reservations, and no sender carries two uploads.
record Inv (w : World) : Type 0 where
  counted : (j : String) → (state_of w.selector.limiter j).in_flight ≡ held j w.uploads
  serial : (j : String) → carried j w.uploads ≤ 1

reserve-in_flight :
    (l : Limiter) (id j : String)
    → (state_of (reserve l id) j).in_flight
      ≡ (state_of l j).in_flight + (if str_eq id j then 1 else 0)
unfolding reserve
reserve-in_flight l id j = ground (
  arith,
  state_of-put_state l id j (record (state_of l id) { in_flight = (state_of l id).in_flight + 1 }),
  eq_iff id j,
)

release-in_flight :
    (l : Limiter) (id j : String)
    → (state_of (release l id) j).in_flight
      ≡ (state_of l j).in_flight - (if str_eq id j then 1 else 0)
unfolding release
release-in_flight l id j = ground (
  arith,
  state_of-put_state l id j (record (state_of l id) { in_flight = (state_of l id).in_flight - 1 }),
  eq_iff id j,
)

begin-Inv : (w : World) (now : ℕ) (bots : List String) → Inv w → Inv (begin w now bots)
unfolding begin begun select_round
begin-Inv w now [] v = unfold round_robin in v
begin-Inv w now (b ∷ bots) v =
    elim (round_robin-outcome (can_use w.selector.limiter now) (b ∷ bots)
      w.selector.round_robin_index (omega arith)) [
        | inl (idx, bot, run, lt, found) ↦ rw (select_reserved run) (record {
          counted = λ j.
              unfold held in
              ground (arith, v.counted j, reserve-in_flight w.selector.limiter bot j);
          serial = λ j.
              unfold carried can_use in
              ground (
                arith,
                v.counted j,
                v.serial j,
                found.passes,
                eq_iff bot j,
                carried-le-held j w.uploads,
              );
        })
        | inr (run, unusable) ↦ rw (select_sleep run) v
      ]
  where
    select_reserved :
        {idx : ℕ} {bot : String}
        → round_robin (can_use w.selector.limiter now) (b ∷ bots) w.selector.round_robin_index
          ≡ some (idx, bot)
        → select_round w.selector now (b ∷ bots) ≡ (
          record {
            limiter = reserve w.selector.limiter bot;
            round_robin_index = (idx + 1) % length (b ∷ bots);
          },
          reserved bot,
        )
    select_reserved run = rw (run, select_round)

    select_sleep :
        round_robin (can_use w.selector.limiter now) (b ∷ bots) w.selector.round_robin_index ≡ none
        → select_round w.selector now (b ∷ bots) ≡ (
          w.selector,
          sleep (max 50 (min (get_next_reset_ms w.selector.limiter now (b ∷ bots)) 1000)),
        )
    select_sleep run = rw (run, select_round)

-- A change of one sender's times leaves the reservations as they are.
put_times-in_flight :
    (l : Limiter) (id j : String) (at : ℕ)
    → (state_of (put_state l id (record (state_of l id) { next_allowed_at = at })) j).in_flight
      ≡ (state_of l j).in_flight
put_times-in_flight l id j at = ground (
  arith,
  state_of-put_state l id j (record (state_of l id) { next_allowed_at = at }),
  eq_iff id j,
)

Event-Inv : {w u : World} → Event w u → Inv w → Inv u
unfolding record_sent record_retry_after
Event-Inv (selects w now bots) v = begin-Inv w now bots v
Event-Inv (attempts w before after id e) v = record {
  counted = λ j. ground (
    arith,
    v.counted j,
    reserve-in_flight w.selector.limiter id j,
    ap (held j) e,
    held-middle j before after id false,
    held-middle j before after id true,
  );
  serial = λ j. ground (
    arith,
    v.serial j,
    ap (carried j) e,
    carried-middle j before after id false,
    carried-middle j before after id true,
  );
}
Event-Inv (responds w before after id e) v = record {
  counted = λ j. ground (
    arith,
    v.counted j,
    release-in_flight w.selector.limiter id j,
    ap (held j) e,
    held-middle j before after id false,
    held-middle j before after id true,
  );
  serial = λ j. ground (
    arith,
    v.serial j,
    ap (carried j) e,
    carried-middle j before after id false,
    carried-middle j before after id true,
  );
}
Event-Inv (finishes w before after id e) v = record {
  counted = λ j. ground (
    arith,
    v.counted j,
    release-in_flight w.selector.limiter id j,
    ap (held j) e,
    held-middle j before after id false,
    held-append j before after,
  );
  serial = λ j. ground (
    arith,
    v.serial j,
    ap (carried j) e,
    carried-middle j before after id false,
    carried-append j before after,
  );
}
Event-Inv (sent w id now) v = record {
  counted = λ j. put_times-in_flight w.selector.limiter id j _ ∙ v.counted j;
  serial = v.serial;
}
Event-Inv (throttled w id seconds now) v = record {
  counted = λ j. put_times-in_flight w.selector.limiter id j _ ∙ v.counted j;
  serial = v.serial;
}

initial-Inv : (interval : ℕ) → Inv (initial interval)
initial-Inv interval = record {
  counted = λ j. unfold state_of held lookup in refl;
  serial = λ j. unfold carried in omega arith;
}

Reaches-Inv : {w u : World} → Inv w → Reaches w u → Inv u
Reaches-Inv v here = v
Reaches-Inv v (next r e) = Event-Inv e (Reaches-Inv v r)

-- Uploads that start, send, retry and end in any order never run two at a time on one bot: in every
-- state that the process can come to, each bot carries one upload at most, and when none is in
-- progress every reservation has been given back.
pub Reaches-serial :
    (interval : ℕ) (w : World)
    → Reaches (initial interval) w
    → ((j : String) → carried j w.uploads ≤ 1)
      × (w.uploads ≡ [] → (j : String) → (state_of w.selector.limiter j).in_flight ≡ 0)
Reaches-serial interval w r =
    let v = Reaches-Inv (initial-Inv interval) r in
    (v.serial, λ e j. v.counted j ∙ ap (held j) e ∙ (unfold held in refl))

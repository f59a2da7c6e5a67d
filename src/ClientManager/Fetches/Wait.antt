-- ===== src/ClientManager/Fetches/Wait.antt =====
-- The wait for a publisher's answer to a fetch ends, and a cancel.
use laps.Prelude.{
  ℕ, zero, suc, ◌+◌, ◌*◌, ◌≤◌, ◌<◌, ◌≡◌, ◌≢◌, ◌⊎◌, refl, ltb, true, false, is_some, arith,
  Bool-cases, Option-cases, inl, inr,
}
use laps.Prelude.Outcome.{done}
use laps.Prelude.SortedMap.{lookup, nat_key, lookup-insert}
use laps.Prelude.SortedMap.Pairs.{lex_key, lex_beq_iff}
use laps.ClientManager.{try_emplace}
use laps.ClientManager.Fetches.{
  FetchStatus, pending_response, not_subscribed, done_by_fin, ok, error, other, is_pending_response,
  is_not_subscribed, is_waiting, wait_for_upstream, Flags, begin_fetch, fetch_cancel_received,
}

pending-cases :
    (s : FetchStatus)
    → ((is_pending_response s ≡ true) × (s ≡ pending_response))
      ⊎ ((is_pending_response s ≡ false) × (s ≢ pending_response))
pending-cases pending_response = inl (refl, refl)
pending-cases not_subscribed = inr (refl, λ e. absurd (cc e))
pending-cases done_by_fin = inr (refl, λ e. absurd (cc e))
pending-cases ok = inr (refl, λ e. absurd (cc e))
pending-cases error = inr (refl, λ e. absurd (cc e))
pending-cases other = inr (refl, λ e. absurd (cc e))

not_subscribed-cases :
    (s : FetchStatus)
    → ((is_not_subscribed s ≡ true) × (s ≡ not_subscribed))
      ⊎ ((is_not_subscribed s ≡ false) × (s ≢ not_subscribed))
not_subscribed-cases not_subscribed = inl (refl, refl)
not_subscribed-cases pending_response = inr (refl, λ e. absurd (cc e))
not_subscribed-cases done_by_fin = inr (refl, λ e. absurd (cc e))
not_subscribed-cases ok = inr (refl, λ e. absurd (cc e))
not_subscribed-cases error = inr (refl, λ e. absurd (cc e))
not_subscribed-cases other = inr (refl, λ e. absurd (cc e))

-- The first reading is a pending response, or the second is that there is no subscription.
abbrev pub Waits : FetchStatus × FetchStatus → Type 0
Waits (first, second) = (first ≡ pending_response) ⊎ (second ≡ not_subscribed)

-- Neither.
abbrev pub Answers : FetchStatus × FetchStatus → Type 0
Answers (first, second) = (first ≢ pending_response) × (second ≢ not_subscribed)

is_waiting-cases :
    (s : FetchStatus × FetchStatus)
    → ((is_waiting s ≡ true) × Waits s) ⊎ ((is_waiting s ≡ false) × Answers s)
is_waiting-cases (first, second) = elim (pending-cases first) [
  | inl (b, e) ↦ inl (rw b refl, inl e)
  | inr (b, e) ↦ elim (not_subscribed-cases second) [
    | inl (c, f) ↦ inl (rw (b, c) refl, inr f)
    | inr (c, f) ↦ inr (rw (b, c) refl, (e, f))
  ]
]

-- From the counter `to` on, with a turn of fuel for every five up to the limit: the wait ends after
-- some number of turns, with the counter less than five above the limit. Each of these turns was
-- below the limit and read a waiting status, and the turn that it ends at is at the limit or above,
-- or reads no waiting status.
pub wait_for_upstream-ends :
    (status : ℕ → FetchStatus × FetchStatus) (max_ms fuel to : ℕ)
    → to ≤ max_ms + 4
    → max_ms + 5 ≤ to + 5 * fuel
    → (turns : ℕ) × (wait_for_upstream status max_ms fuel to ≡ done (to + 5 * turns))
      × (to + 5 * turns ≤ max_ms + 4)
      × ((j : ℕ) → j < turns → (to + 5 * j < max_ms) × Waits (status (to + 5 * j)))
      × ((max_ms ≤ to + 5 * turns) ⊎ Answers (status (to + 5 * turns)))
unfolding wait_for_upstream
wait_for_upstream-ends status max_ms zero to in_range enough =
    absurd (omega (arith, in_range, enough))
wait_for_upstream-ends status max_ms (suc fuel) to in_range enough =
    let here : to + 5 * 0 ≡ to = omega arith in
    let none_before : (j : ℕ) → j < 0 → (to + 5 * j < max_ms) × Waits (status (to + 5 * j)) =
      λ j few. absurd (omega (arith, few)) in
    elim (Bool-cases (ltb to max_ms)) [
      | inr late ↦
          (0, rw (late, here) refl, rw here in_range, none_before, inl (ground (arith, late)))
      | inl early ↦ elim (is_waiting-cases (status to)) [
        | inr (ends, answered) ↦
            (0, rw (early, ends, here) refl, rw here in_range, none_before, inr (rw here answered))
        | inl (waits, waiting) ↦
            let soon : to + 5 ≤ max_ms + 4 = ground (arith, early) in
            let more : max_ms + 5 ≤ to + 5 + 5 * fuel = omega (arith, enough) in
            let (turns, run, bound, before, over) =
              wait_for_upstream-ends status max_ms fuel (to + 5) soon more in
            let same : to + 5 + 5 * turns ≡ to + 5 * (turns + 1) = omega arith in
            (
              turns + 1,
              rw (early, waits, ← same) run,
              rw (← same) bound,
              first_turn to turns (ground (arith, early)) waiting before,
              rw (← same) over,
            )
      ]
    ]
  where
    first_turn :
        (to turns : ℕ)
        → to < max_ms
        → Waits (status to)
        → ((j : ℕ) → j < turns → (to + 5 + 5 * j < max_ms) × Waits (status (to + 5 + 5 * j)))
        → (j : ℕ) → j < turns + 1
        → (to + 5 * j < max_ms) × Waits (status (to + 5 * j))
    first_turn to turns early waiting before zero few =
        let here : to + 5 * 0 ≡ to = omega arith in rw here (early, waiting)
    first_turn to turns early waiting before (suc j) few =
        let same : to + 5 + 5 * j ≡ to + 5 * suc j = omega arith in
        rw (← same) (before j (omega (arith, few)))

begin_fetch-lookup :
    (conn request_id : ℕ) (flags : Flags)
    → is_some (lookup (conn, request_id) (begin_fetch conn request_id flags)) ≡ true
unfolding begin_fetch try_emplace
begin_fetch-lookup conn request_id flags =
    let who : ℕ × ℕ = (conn, request_id) in
    elim (Option-cases (lookup who flags)) [
      | inl missing ↦
          rw (begin_fetch, try_emplace, missing, lookup-insert, (lex_beq_iff who who).1 refl) refl
      | inr (flag, known) ↦ rw (begin_fetch, try_emplace, known, known) refl
    ]

-- A cancel of a fetch that has begun changes no flag.
pub cancel_running :
    (conn request_id : ℕ) (flags : Flags)
    → fetch_cancel_received conn request_id (begin_fetch conn request_id flags)
      ≡ begin_fetch conn request_id flags
unfolding fetch_cancel_received begin_fetch
cancel_running conn request_id flags =
    rw (fetch_cancel_received, begin_fetch-lookup conn request_id flags) refl

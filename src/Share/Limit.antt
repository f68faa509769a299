-- ===== src/Share/Limit.antt =====
-- pkg/server/server.go: the number of devices that an unpaid share serves at a time, with requests that
-- are handled at the same time: the check of the limit and the note of the client are two steps.
use eqrcp.Base.{
  ℕ, suc, ◌+◌, ◌≤◌, ◌≡◌, ◌≢◌, ◌⊎◌, inl, inr, refl, ap, ◌∙◌, String, Bool, Bool-cases, true, false,
  not, ◌&&◌, List, [], ◌∷◌, Option, none, some, length, arith, eq_iff, if◌then◌else◌,
}
use eqrcp.Base.Int.{ℤ, pos, ◌≤ℤ◌}
use eqrcp.Base.Clock.{Time}
use eqrcp.Base.Assoc.{lookup, insert}
use eqrcp.Base.Distinct.{has, AllDistinct, without}
use eqrcp.Quota.Usage.{ChatUsage}
use eqrcp.Share.{Server}
use eqrcp.Share.Clients.{
  count_active, count_others, is_active, is_client_limit_exceeded, update_client_status, seen_now,
}
use eqrcp.Share.Status.{enter_client, register_client_activity_with_id, update_status, show_new}
use eqrcp.Share.Active.{keys, keys-insert-AllDistinct}
use eqrcp.Share.Passed.{
  count_free, count_distinct, count_distinct-le-length, count_free-nil, count_free-le,
  count_free-later, count_active-others, count_free-known, count_free-passed,
  count_distinct-without, count_free-insert,
}

-- A request: who asks, when, and what the limiter says of the usage then.
pub record Request : Type 0 where
  pub client : String
  pub usage : ChatUsage
  pub now : Time

-- The server, and the clients of the requests that passed the check and are not noted yet.
pub record Door : Type 0 where
  pub server : Server
  pub passed : List String

-- `registerClientActivityWithID` checks the limit and then takes `clientMutex` again to note the client:
-- other requests may do either in between.
pub data Act : Type 0 where
  checks : Request → Act
  enters : (client : String) → (device_name : Option String) → (now : Time) → Act

-- The usage is that of an unpaid user who has used up the free shares.
abbrev pub IsLimited : ChatUsage → Type 0
IsLimited u = (u.is_paid ≡ false) × (pos 5 ≤ℤ u.used_transfers)

-- A request that is checked names its client and finds a limited usage.
abbrev pub IsFair : Act → Type 0
IsFair (checks r) = IsLimited r.usage × (r.client ≢ "")
IsFair (enters client device_name now) = Unit

abbrev pub time_of : Act → Time
time_of (checks r) = r.now
time_of (enters client device_name now) = now

abbrev pub end_of : Time → List Act → Time
end_of now [] = now
end_of now (a ∷ acts) = end_of (time_of a) acts

-- The active clients and those that will be are at most one more than the requests at work.
abbrev pub Bounded : ℕ → Time → Door → Type 0
Bounded most now d =
    (count_free now d.passed d.server.last_seen + count_distinct d.passed ≤ suc most)
    × AllDistinct (keys d.server.last_seen)

module _ (stat : String → Option ℤ) (show_stat : ℕ → ℕ → String) (version : String)
    (testing : Bool) where
  -- Only a client that passed is noted.
  unfoldable pub act : Door → Act → Door
  act d (checks r) =
      if is_client_limit_exceeded d.server testing r.usage r.now r.client
      then d
      else record d { passed = r.client ∷ d.passed }
  act d (enters client device_name now) =
      if has client d.passed
      then record {
        server = enter_client stat show_stat version d.server client device_name now;
        passed = without client d.passed;
      }
      else d

  abbrev pub acts : Door → List Act → Door
  acts d [] = d
  acts d (a ∷ more) = acts (act d a) more

  -- A request that no other comes between is registered by the one call.
  pub acts-register :
      (s : Server) (r : Request) (device_name : Option String)
      → (acts
          (record { server = s; passed = [] })
          (checks r ∷ enters r.client device_name r.now ∷ [])).server
        ≡ register_client_activity_with_id stat show_stat version s testing r.usage r.client
            device_name r.now
  unfolding act register_client_activity_with_id
  acts-register s r device_name =
      elim (Bool-cases (is_client_limit_exceeded s testing r.usage r.now r.client)) [
        | inl full ↦ rw (full, act, register_client_activity_with_id) refl
        | inr free ↦
            let self = (eq_iff r.client r.client).1 refl in
            rw (free, act, register_client_activity_with_id) (rw self refl)
      ]

  -- Each act is fair and not before the last, and so many requests at most are between their check and
  -- their note at any time.
  abbrev pub Within : ℕ → Time → Door → List Act → Type 0
  Within most before d [] = Unit
  Within most before d (a ∷ more) =
      IsFair a
      × (before ≤ time_of a)
      × (length (act d a).passed ≤ most)
      × Within most (time_of a) (act d a) more

  show_new-same :
      (s : Server) (before : Option Time) (now : Time)
      → ((show_new stat show_stat version s before now).last_seen ≡ s.last_seen)
        × ((show_new stat show_stat version s before now).keep_alive ≡ s.keep_alive)
  unfolding show_new update_status
  show_new-same s none now = (refl, refl)
  show_new-same s (some before) now = (refl, refl)

  enter_client-same :
      (s : Server) (client : String) (device_name : Option String) (now : Time)
      → let after = enter_client stat show_stat version s client device_name now in
        (after.last_seen ≡ insert client now s.last_seen) × (after.keep_alive ≡ s.keep_alive)
  unfolding update_client_status
  enter_client-same s client device_name now =
      show_new-same (seen_now s now client) (lookup client s.last_seen) now

  exceeded_cases :
      (s : Server) (r : Request)
      → IsLimited r.usage
      → r.client ≢ ""
      → s.keep_alive && not testing ≡ false
      → is_client_limit_exceeded s testing r.usage r.now r.client ≡ false
      → (is_active r.now r.client s.last_seen ≡ true)
        ⊎ ((is_active r.now r.client s.last_seen ≡ false)
            × (count_others r.now r.client s.last_seen ≤ 1))
  unfolding is_client_limit_exceeded
  exceeded_cases s r limited named counted e = ground (arith, eq_iff r.client "")

  -- A request that passes the check adds no one beyond the bound.
  passes-Bounded :
      (most : ℕ) (d : Door) (r : Request)
      → IsLimited r.usage
      → r.client ≢ ""
      → d.server.keep_alive && not testing ≡ false
      → is_client_limit_exceeded d.server testing r.usage r.now r.client ≡ false
      → suc (length d.passed) ≤ most
      → Bounded most r.now d
      → Bounded most r.now (record d { passed = r.client ∷ d.passed })
  unfolding count_distinct
  passes-Bounded most d r limited named counted free few (bound, distinct) =
      let m = d.server.last_seen in
      let c = r.client in
      elim (exceeded_cases d.server r limited named counted free) [
        | inl active ↦ elim (Bool-cases (has c d.passed)) [
          | inl known ↦
              let same = count_free-known r.now c d.passed m known in
              (ground (arith, same, known), distinct)
          | inr new ↦
              let less = count_free-passed r.now c d.passed m distinct new active in
              (ground (arith, less, new), distinct)
        ]
        | inr (idle, alone) ↦
            let others = count_active-others r.now c m distinct idle in
            let some_free = count_free-le r.now (c ∷ d.passed) m in
            let some_passed = count_distinct-le-length (c ∷ d.passed) in
            (omega (arith, others, some_free, some_passed, alone), distinct)
      ]

  act-Bounded :
      (most : ℕ) (before : Time) (d : Door) (a : Act)
      → d.server.keep_alive && not testing ≡ false
      → IsFair a
      → before ≤ time_of a
      → length (act d a).passed ≤ most
      → Bounded most before d
      → Bounded most (time_of a) (act d a)
  unfolding act
  act-Bounded most before d (checks r) counted (limited, named) le few (bound, distinct) =
      let later = count_free-later before r.now d.passed d.server.last_seen le in
      let now_bound : Bounded most r.now d = (omega (arith, later, bound), distinct) in
      elim (Bool-cases (is_client_limit_exceeded d.server testing r.usage r.now r.client)) [
        | inl full ↦ rw (full, act) now_bound
        | inr free ↦
            let room : suc (length d.passed) ≤ most = rw (free, act) at few in
            rw (free, act) (passes-Bounded most d r limited named counted free room now_bound)
      ]
  act-Bounded most before d (enters c name now) counted fair le few (bound, distinct) =
      let m = d.server.last_seen in
      let later = count_free-later before now d.passed m le in
      elim (Bool-cases (has c d.passed)) [
        | inr stranger ↦ rw (stranger, act) (omega (arith, later, bound), distinct)
        | inl known ↦
            let same = (enter_client-same d.server c name now).0 in
            let noted = count_free-insert now c d.passed m distinct known in
            let gone = count_distinct-without c d.passed known in
            rw (known, act)
              (rw same (
                omega (arith, later, bound, noted, gone),
                keys-insert-AllDistinct c now m distinct,
              ))
      ]

  act-keep_alive : (d : Door) (a : Act) → (act d a).server.keep_alive ≡ d.server.keep_alive
  unfolding act
  act-keep_alive d (checks r) = ground arith
  act-keep_alive d (enters c name now) = elim (Bool-cases (has c d.passed)) [
    | inl known ↦ rw (known, act) ((enter_client-same d.server c name now).1)
    | inr stranger ↦ rw (stranger, act) refl
  ]

  acts-keep_bound :
      (most : ℕ) (before : Time) (d : Door) (more : List Act)
      → d.server.keep_alive && not testing ≡ false
      → Within most before d more
      → Bounded most before d
      → Bounded most (end_of before more) (acts d more)
  acts-keep_bound most before d [] counted h bound = bound
  acts-keep_bound most before d (a ∷ more) counted (fair, le, few, rest) bound =
      let kept : (act d a).server.keep_alive && not testing ≡ false =
        ap (λ b. b && not testing) (act-keep_alive d a) ∙ counted in
      acts-keep_bound most (time_of a) (act d a) more kept rest
        (act-Bounded most before d a counted fair le few bound)

  -- Once the free shares are used up, an unpaid share that does not stay alive has at most one active
  -- device more than requests are between their check and their note at any time: so two where the
  -- requests come one after another, and more only where they race. This is stated for the moment when
  -- no request is between the two, from such a moment on with no more active devices, for requests
  -- with a client's id in any order and a clock that does not go back. Clients that an upload notes
  -- without a check are left out.
  pub acts-Bounded :
      (most : ℕ) (before : Time) (d : Door) (more : List Act)
      → d.server.keep_alive && not testing ≡ false
      → d.passed ≡ []
      → AllDistinct (keys d.server.last_seen)
      → count_active before d.server.last_seen ≤ suc most
      → Within most before d more
      → (acts d more).passed ≡ []
      → count_active (end_of before more) (acts d more).server.last_seen ≤ suc most
  acts-Bounded most before d more counted none_before distinct few h none_after =
      let start : Bounded most before d = (
        rw none_before
            (unfold count_distinct in omega (arith, few, count_free-nil before d.server.last_seen)),
        distinct,
      ) in
      let after = acts d more in
      let now = end_of before more in
      let bound : count_free now after.passed after.server.last_seen + count_distinct after.passed
          ≤ suc most =
        (acts-keep_bound most before d more counted h start).0 in
      let free : count_free now after.passed after.server.last_seen
          ≡ count_active now after.server.last_seen =
        ap (λ p. count_free now p after.server.last_seen) none_after
        ∙ count_free-nil now after.server.last_seen in
      omega (arith, bound, free)

-- ===== src/Quota/Fetches.antt =====
-- The fetches of the network time, in any order of the calls that start them.
use eqrcp.Base.{
  ℕ, suc, ◌≡◌, inl, inr, Option-cases, Bool, true, false, Option, none, some, arith, if◌then◌else◌,
}
use eqrcp.Base.Clock.{Time}
use eqrcp.Quota.NetTime.{
  NetTime, answer_at_once, get_network_time_or_start_fetch, finish_fetch, none_when_due,
}

-- The cache and the number of fetches that run.
pub record World : Type 0 where
  pub net : NetTime
  pub in_flight : ℕ

abbrev pub ask : Bool → Time → World → World
ask testing now w =
    let (n, (answer, starts)) = get_network_time_or_start_fetch testing (λ n. n) w.net now in
    record { net = n; in_flight = if starts then suc w.in_flight else w.in_flight }

-- A call, or the end of a fetch; the acts of several threads come in any order.
pub data Act (w : World) : World → Type 0 where
  asks : (testing : Bool) (now : Time) → Act w (ask testing now w)
  finishes :
      (k : ℕ) (result : Option Time) (checked now : Time)
      → w.in_flight ≡ suc k
      → Act w (record { net = finish_fetch result checked now w.net; in_flight = k })

pub data Acts : World → World → Type 0 where
  no_act : {w : World} → Acts w w
  act : {v w : World} (u : World) → Act v u → Acts u w → Acts v w

-- The flag tells whether a fetch runs, and there is at most one.
abbrev pub RunsOne : World → Type 0
RunsOne w = w.in_flight ≡ (if w.net.is_checking then 1 else 0)

ask-RunsOne : (testing : Bool) (now : Time) (v : World) → RunsOne v → RunsOne (ask testing now v)
unfolding get_network_time_or_start_fetch
ask-RunsOne true now v one = one
ask-RunsOne false now v one = elim (Option-cases (answer_at_once v.net now)) [
  | inr (early, e) ↦ rw (e, ask) one
  | inl e ↦ let (idle, _, _) = none_when_due v.net now e in rw (e, ask) (ground arith)
]

Act-RunsOne : (v w : World) → Act v w → RunsOne v → RunsOne w
unfolding finish_fetch
Act-RunsOne v _ (asks testing now) one = ask-RunsOne testing now v one
Act-RunsOne v _ (finishes k none checked now e) one = ground arith
Act-RunsOne v _ (finishes k (some t) checked now e) one = ground arith

-- However the calls and the ends of the fetches come, at most one fetch runs at a time, and the flag
-- tells whether one does.
pub Acts-RunsOne : (v w : World) → Acts v w → RunsOne v → RunsOne w
Acts-RunsOne v _ no_act one = one
Acts-RunsOne v w (act u first more) one = Acts-RunsOne u w more (Act-RunsOne v u first one)

-- ===== src/Share/Counted.antt =====
-- pkg/server/server.go: the counts of `isAllActiveClientsFinished` say what its comments promise.
use eqrcp.Base.{
  ◌≤◌, ◌≡◌, ◌↔◌, ◌⊎◌, String, Bool, true, false, List, [], ◌∷◌, Option, arith, ltb, ◌==◌,
}
use eqrcp.Base.Int.{ℤ}
use eqrcp.Base.Clock.{Time}
use eqrcp.Share.{Server}
use eqrcp.Share.Clients.{active_at}
use eqrcp.Share.Finished.{
  tally, all_finished, is_all_active_clients_finished, counts_as_finished, ignored,
}

module _ (finished skipped : String → Bool) where
  -- A client that counts and passes the test.
  abbrev pub Some : (String × Time → Bool) → List (String × Time) → Type 0
  Some test [] = ⊥
  Some test (c ∷ m) = ((skipped c.0 ≡ false) × (test c ≡ true)) ⊎ Some test m

  -- Each client is left out, fails the test, or is finished.
  abbrev pub EachFinished : (String × Time → Bool) → List (String × Time) → Type 0
  EachFinished test [] = Unit
  EachFinished test (c ∷ m) =
      ((skipped c.0 ≡ true) ⊎ (test c ≡ false) ⊎ (finished c.0 ≡ true)) × EachFinished test m

  abbrev pub counts : String × Time → Bool
  counts c = true

  abbrev pub is_active_at : Time → String × Time → Bool
  is_active_at now c = active_at now c.1

  tally_le :
      (now : Time) (m : List (String × Time))
      → let t = tally finished skipped now m in
        (t.finished_total ≤ t.total) × (t.finished_active ≤ t.active)
  unfolding tally
  tally_le now [] = (ground arith, ground arith)
  tally_le now ((id, seen) ∷ m) = let ih = tally_le now m in ground (arith, ih)

  total-Some :
      (now : Time) (m : List (String × Time))
      → ((tally finished skipped now m).total == 0 ≡ false) ↔ Some counts m
  unfolding tally
  total-Some now [] = ground arith
  total-Some now ((id, seen) ∷ m) = let ih = total-Some now m in ground (arith, ih)

  active-Some :
      (now : Time) (m : List (String × Time))
      → (ltb 0 (tally finished skipped now m).active ≡ true) ↔ Some (is_active_at now) m
  unfolding tally
  active-Some now [] = ground arith
  active-Some now ((id, seen) ∷ m) = let ih = active-Some now m in ground (arith, ih)

  total-EachFinished :
      (now : Time) (m : List (String × Time))
      → let t = tally finished skipped now m in
        (t.finished_total == t.total ≡ true) ↔ EachFinished counts m
  unfolding tally
  total-EachFinished now [] = ground arith
  total-EachFinished now ((id, seen) ∷ m) =
      let ih = total-EachFinished now m in let le = tally_le now m in ground (arith, ih, le)

  active-EachFinished :
      (now : Time) (m : List (String × Time))
      → let t = tally finished skipped now m in
        (t.finished_active == t.active ≡ true) ↔ EachFinished (is_active_at now) m
  unfolding tally
  active-EachFinished now [] = ground arith
  active-EachFinished now ((id, seen) ∷ m) =
      let ih = active-EachFinished now m in let le = tally_le now m in ground (arith, ih, le)

  -- The share ends.
  abbrev pub Ends : Time → List (String × Time) → Type 0
  Ends now m =
      Some counts m
      × (EachFinished counts m ⊎ (Some (is_active_at now) m × EachFinished (is_active_at now) m))

  all_finished-Ends :
      (now : Time) (m : List (String × Time))
      → (all_finished (tally finished skipped now m) ≡ true) ↔ Ends now m
  unfolding all_finished
  all_finished-Ends now m = ground (
    arith,
    total-Some now m,
    active-Some now m,
    total-EachFinished now m,
    active-EachFinished now m,
  )

-- A share with the automatic stop ends exactly when there is a client that counts, and all that count are
-- finished or there are active ones and all of these are finished.
pub is_all_active_clients_finished-Ends :
    (stat : String → Option ℤ) (s : Server) (now : Time)
    → (is_all_active_clients_finished stat s now ≡ true)
      ↔ Ends (counts_as_finished stat s) (ignored s) now s.last_seen
unfolding is_all_active_clients_finished
is_all_active_clients_finished-Ends stat s now =
    all_finished-Ends (counts_as_finished stat s) (ignored s) now s.last_seen

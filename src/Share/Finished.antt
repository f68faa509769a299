-- ===== src/Share/Finished.antt =====
-- pkg/server/server.go: whether all clients are done, which ends a share that stops by itself.
use eqrcp.Base.{
  ℕ, suc, String, Bool, true, false, not, ◌&&◌, ◌||◌, List, [], ◌∷◌, Option, none, some, ltb, leb,
  ◌==◌, ◌=ₛ◌, length, if◌then◌else◌,
}
use eqrcp.Base.Int.{ℤ}
use eqrcp.Base.Clock.{Time}
use eqrcp.Base.Assoc.{lookup, insert}
use eqrcp.Share.{Server, path_list}
use eqrcp.Share.Progress.{count_done}
use eqrcp.Share.Clients.{active_at}

-- The clients that count, the active ones of them, and of both those that are finished.
pub record Tally : Type 0 where
  pub total : ℕ
  pub active : ℕ
  pub finished_active : ℕ
  pub finished_total : ℕ

abbrev pub one_if : Bool → ℕ → ℕ
one_if b n = if b then suc n else n

-- The client's state says that its transfer ended.
unfoldable pub state_ended : Server → String → Bool
state_ended s client = elim (lookup client s.client_states) [
  | none ↦ false
  | some state ↦ state.state =ₛ "completed" || state.state =ₛ "failed"
]

-- It is left out of the count, since it was done when the automatic stop was switched on.
unfoldable pub ignored : Server → String → Bool
ignored s client =
    s.auto_stop && elim (lookup client s.auto_stop_ignored) [ none ↦ false | some b ↦ b ]

-- All items of a sender are with the client.
unfoldable pub has_all_items : (stat : String → Option ℤ) → Server → String → Bool
has_all_items stat s client =
    let ps = path_list s in
    elim (lookup client s.progress) [
      | none ↦ leb (length ps) 0
      | some progress ↦ leb (length ps) (count_done stat s progress 0 ps)
    ]

unfoldable pub counts_as_finished : (stat : String → Option ℤ) → Server → String → Bool
counts_as_finished stat s client =
    state_ended s client || (not (length (path_list s) == 0) && has_all_items stat s client)

module _ (finished skipped : String → Bool) where
  unfoldable pub tally : Time → List (String × Time) → Tally
  tally now [] = record { total = 0; active = 0; finished_active = 0; finished_total = 0 }
  tally now ((id, seen) ∷ m) =
      let t = tally now m in
      if skipped id then t else record {
        total = suc t.total;
        active = one_if (active_at now seen) t.active;
        finished_active = one_if (finished id && active_at now seen) t.finished_active;
        finished_total = one_if (finished id) t.finished_total;
      }

unfoldable pub all_finished : Tally → Bool
all_finished t =
    if t.total == 0
    then false
    else if t.finished_total == t.total
    then true
    else if ltb 0 t.active && t.finished_active == t.active
    then true
    else false

unfoldable pub is_all_active_clients_finished : (stat : String → Option ℤ) → Server → Time → Bool
is_all_active_clients_finished stat s now =
    all_finished (tally (counts_as_finished stat s) (ignored s) now s.last_seen)

-- The clients with all items are ignored from the moment that the automatic stop is switched on;
-- of a receiver, those that completed.
abbrev completed : Server → String → Bool
completed s client = elim (lookup client s.client_states) [
  | none ↦ false
  | some state ↦ state.state =ₛ "completed"
]

unfoldable pub ignored_at_start :
    (stat : String → Option ℤ) → Server → List (String × Time) → List (String × Bool)
ignored_at_start stat s [] = []
ignored_at_start stat s ((id, seen) ∷ m) =
    let others = ignored_at_start stat s m in
    let done = if length (path_list s) == 0 then completed s id else has_all_items stat s id in
    if done then insert id true others else others

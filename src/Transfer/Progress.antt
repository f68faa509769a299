-- ===== src/Transfer/Progress.antt =====
-- The percentage that the progress events show.
use eqrcp.Base.{
  inl, inr, String, ◌≡◌, refl, Bool, true, false, List, [], ◌∷◌, All, All-append, arith,
  Option-cases, if◌then◌else◌,
}
use eqrcp.Base.Int.{ℤ, pos, ◌≤ℤ◌, eqb_ℤ→eq}
use eqrcp.Base.Clock.{Time}
use eqrcp.Base.Float.{Float64}
use eqrcp.Base.Assoc.{lookup}
use eqrcp.Transfer.Job.{Job, new_job, is_terminal_state, percent, to_event, update_progress}
use eqrcp.Transfer.Manager.{EventType, transfer_queued, Manager, Notice, publish}
use eqrcp.Transfer.Run.{
  Call, creates, subject, event_type, effect, step, run, step_create, step_found, step_missing,
}

abbrev pub IsCapped : Notice → Type 0
IsCapped n = n.event.percent ≤ℤ pos 100

module _ (fl : Float64) where
  publish-IsCapped :
      (m : Manager) (k : String) (t : EventType) (r : Job × Bool)
      → All IsCapped (publish fl m k t r).sent
  unfolding publish to_event percent
  publish-IsCapped m k t (j, b) = ground arith

  step-IsCapped : (m : Manager) (c : Call) → All IsCapped (step fl m c).sent
  step-IsCapped m (creates t k mi ci f total now) =
      rw ((step_create fl m t k mi ci f total now k).1)
        (publish-IsCapped m k transfer_queued (new_job t k mi ci f total now, true))
  step-IsCapped m c = elim (Option-cases (lookup (subject c) m.jobs)) [
    | inl missing ↦ rw (step_missing fl m c refl missing) tt
    | inr (j, found) ↦
        rw ((step_found fl m c j (subject c) refl found).1)
          (publish-IsCapped m (subject c) (event_type fl c) (effect fl c j))
  ]

  -- No event that the manager ever sends shows more than 100 percent.
  pub run-IsCapped : (m : Manager) (cs : List Call) → All IsCapped (run fl m cs).1
  unfolding run
  run-IsCapped m [] = tt
  run-IsCapped m (c ∷ cs) =
      All-append IsCapped (step fl m c).sent _ (step-IsCapped m c)
        (run-IsCapped (step fl m c).manager cs)

  -- Updates of one job, with the percentage that the last event showed.
  unfoldable pub follow : Job → ℤ → List (ℤ × Time) → Job × ℤ
  follow j shown [] = (j, shown)
  follow j shown ((done, now) ∷ us) =
      let (j', told) = update_progress fl j done now in
      follow j' (if told then (to_event fl j').percent else shown) us

  IsShown : Job → ℤ → Type 0
  IsShown j shown = (shown ≡ j.last_pct) × (shown ≡ percent fl j.bytes_done j.bytes_total)

  update_lem :
      (j : Job) (shown done : ℤ) (now : Time)
      → is_terminal_state j.state ≡ false
      → shown ≡ j.last_pct
      → let (j', told) = update_progress fl j done now in
        (is_terminal_state j'.state ≡ false)
        × IsShown j' (if told then (to_event fl j').percent else shown)
  unfolding update_progress to_event IsShown
  update_lem j shown done now live h =
      ground (arith, eqb_ℤ→eq (percent fl done j.bytes_total) j.last_pct)

  follow-IsShown :
      (j : Job) (shown : ℤ) (us : List (ℤ × Time))
      → is_terminal_state j.state ≡ false
      → IsShown j shown
      → let (j', shown') = follow j shown us in IsShown j' shown'
  unfolding follow IsShown
  follow-IsShown j shown [] live h = h
  follow-IsShown j shown ((done, now) ∷ us) live h =
      let (j', told) = update_progress fl j done now in
      let (live', h') = update_lem j shown done now live h.0 in
      follow-IsShown j' (if told then (to_event fl j').percent else shown) us live' h'

  -- Although most updates send no event, after any updates of a job that has not ended the
  -- percentage last shown is that of the bytes done so far.
  pub follow_shown :
      (j : Job) (u : ℤ × Time) (us : List (ℤ × Time))
      → is_terminal_state j.state ≡ false
      → let (j', shown') = follow j j.last_pct (u ∷ us) in
        shown' ≡ percent fl j'.bytes_done j'.bytes_total
  unfolding follow IsShown
  follow_shown j (done, now) us live =
      let (live', h') = update_lem j j.last_pct done now live refl in
      (follow-IsShown _ _ us live' h').1

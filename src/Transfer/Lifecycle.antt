-- ===== src/Transfer/Lifecycle.antt =====
-- The life of one transfer job under any calls: terminal states, the order of the states, and the
-- events of its end.
use eqrcp.Base.{
  ℕ, suc, ◌+◌, ◌≤◌, ◌≡◌, refl, ◌∙◌, inl, inr, String, Bool, true, false, ◌&&◌, List, [], ◌∷◌, ◌++◌,
  some, All, arith, eq_iff, Option-cases, Bool-cases, ◌=ₛ◌, if◌then◌else◌,
}
use eqrcp.Base.Assoc.{lookup}
use eqrcp.Base.Float.{Float64}
use eqrcp.Transfer.Job.{
  TransferState, queued, running, completed, failed, cancelled, is_terminal_state, Job, new_job,
  update_state, set_bytes_total, update_progress, to_event,
}
use eqrcp.Transfer.Manager.{
  EventType, transfer_queued, transfer_completed, transfer_failed, transfer_cancelled, Manager,
  Notice, publish,
}
use eqrcp.Transfer.Run.{
  Call, creates, starts, sets_total, progresses, completes, fails, cancels, subject, is_create,
  Spares, step, run, effect, event_type, step_create, step_found, step_missing, step-lookup_other,
  step-has_callback,
}

-- How far along a state is.
abbrev pub phase : TransferState → ℕ
phase queued = 0
phase running = 1
phase completed = 2
phase failed = 2
phase cancelled = 2

abbrev pub is_terminal_type : EventType → Bool
is_terminal_type transfer_completed = true
is_terminal_type transfer_failed = true
is_terminal_type transfer_cancelled = true
is_terminal_type _ = false

-- 1 for a job in a terminal state, 0 for another.
abbrev pub ended : TransferState → ℕ
ended s = if is_terminal_state s then 1 else 0

-- How many events of a list tell the end of the job `id`.
abbrev pub endings : String → List Notice → ℕ
endings id [] = 0
endings id (n ∷ ns) =
    if n.event.id =ₛ id && is_terminal_type n.event_type then suc (endings id ns) else endings id ns

endings-append :
    (id : String) (ms ns : List Notice) → endings id (ms ++ ns) ≡ endings id ms + endings id ns
endings-append id [] ns = omega arith
endings-append id (m ∷ ms) ns = ground (arith, endings-append id ms ns)

module _ (fl : Float64) where
  -- What one call does to a job that is there.
  effect_lem :
      (c : Call) (j : Job)
      → is_create c ≡ false
      → (phase j.state ≤ phase (effect fl c j).0.state)
        × ((effect fl c j).0.id ≡ j.id)
        × (ended (effect fl c j).0.state
            ≡ ended j.state
              + (if (effect fl c j).1 && is_terminal_type (event_type fl c) then 1 else 0))
  unfolding effect update_state set_bytes_total update_progress
  effect_lem (creates t k mi ci f total now) j p = cc
  effect_lem (starts k now) j p = ground arith
  effect_lem (sets_total k total) j p = ground arith
  effect_lem (progresses k done now) j p = ground arith
  effect_lem (completes k now) j p = ground arith
  effect_lem (fails k err now) j p = ground arith
  effect_lem (cancels k now) j p = ground arith

  effect_terminal : (c : Call) (j : Job) → is_terminal_state j.state ≡ true → (effect fl c j).0 ≡ j
  unfolding effect update_state set_bytes_total update_progress
  effect_terminal (creates t k mi ci f total now) j h = refl
  effect_terminal (starts k now) j h = ground arith
  effect_terminal (sets_total k total) j h = ground arith
  effect_terminal (progresses k done now) j h = ground arith
  effect_terminal (completes k now) j h = ground arith
  effect_terminal (fails k err now) j h = ground arith
  effect_terminal (cancels k now) j h = ground arith

  not_create : (c : Call) (id : String) → Spares id c → subject c ≡ id → is_create c ≡ false
  not_create c id sp same = elim (Bool-cases (is_create c)) [
    | inl p ↦ absurd (sp p same)
    | inr p ↦ p
  ]

  -- The job `id` after a call.
  abbrev after : Call → String → Job → Job
  after c id j = if subject c =ₛ id then (effect fl c j).0 else j

  after_lem :
      (c : Call) (id : String) (j : Job)
      → Spares id c
      → (phase j.state ≤ phase (after c id j).state) × ((after c id j).id ≡ j.id)
  after_lem c id j sp = ground (arith, eq_iff (subject c) id, not_create c id sp, effect_lem c j)

  step_job :
      (m : Manager) (c : Call) (id : String) (j : Job)
      → Spares id c
      → lookup id m.jobs ≡ some j
      → lookup id (step fl m c).manager.jobs ≡ some (after c id j)
  step_job m c id j sp e = elim (Bool-cases (subject c =ₛ id)) [
    | inl same ↦
        let k : subject c ≡ id = (eq_iff (subject c) id).0 same in
        let found : lookup (subject c) m.jobs ≡ some j = rw k e in
        rw same ((step_found fl m c j id (not_create c id sp k) found).0 ∙ rw same)
    | inr other ↦ ground (arith, eq_iff (subject c) id, step-lookup_other fl m c id)
  ]

  -- A job that is completed, failed or cancelled stays exactly as it is, bytes and error included,
  -- whatever calls follow, as long as none creates a job of the same id.
  pub terminal_absorbs :
      (m : Manager) (cs : List Call) (id : String) (j : Job)
      → All (Spares id) cs
      → lookup id m.jobs ≡ some j
      → is_terminal_state j.state ≡ true
      → lookup id (run fl m cs).0.jobs ≡ some j
  unfolding run
  terminal_absorbs m [] id j sp e h = e
  terminal_absorbs m (c ∷ cs) id j sp e h =
      terminal_absorbs (step fl m c).manager cs id j sp.1
        (ground (arith, step_job m c id j sp.0 e, effect_terminal c j h)) h

  -- A job is never lost, and never goes back to an earlier phase: from running to queued, or from
  -- a terminal state to any other phase.
  pub run-phase-le :
      (m : Manager) (cs : List Call) (id : String) (j : Job)
      → All (Spares id) cs
      → lookup id m.jobs ≡ some j
      → (j' : Job) × (lookup id (run fl m cs).0.jobs ≡ some j') × (phase j.state ≤ phase j'.state)
  unfolding run
  run-phase-le m [] id j sp e = (j, e, omega arith)
  run-phase-le m (c ∷ cs) id j sp e =
      let (j', found, later) =
        run-phase-le (step fl m c).manager cs id (after c id j) sp.1 (step_job m c id j sp.0 e) in
      (j', found, omega (arith, later, after_lem c id j sp.0))

  -- The key of a job is its id.
  abbrev Keyed : Manager → Type 0
  Keyed m = (k : String) (j : Job) → lookup k m.jobs ≡ some j → j.id ≡ k

  step-Keyed : (m : Manager) (c : Call) → Keyed m → Keyed (step fl m c).manager
  unfolding new_job
  step-Keyed m (creates t k mi ci f total now) keyed id j e =
      ground (arith, step_create fl m t k mi ci f total now id, eq_iff k id, keyed id j)
  step-Keyed m c keyed id j e = elim (Option-cases (lookup (subject c) m.jobs)) [
    | inl missing ↦ keyed id j (rw (step_missing fl m c refl missing) at e)
    | inr (j₁, found) ↦ ground (
      arith,
      step_found fl m c j₁ id refl found,
      effect_lem c j₁ refl,
      keyed id j,
      keyed (subject c) j₁ found,
      eq_iff (subject c) id,
    )
  ]

  publish-endings :
      (m : Manager) (k : String) (t : EventType) (r : Job × Bool) (id : String)
      → m.has_callback ≡ true
      → endings id (publish fl m k t r).sent
        ≡ (if r.0.id =ₛ id then (if r.1 && is_terminal_type t then 1 else 0) else 0)
  unfolding publish to_event
  publish-endings m k t r id cb = ground arith

  -- The events that one call sends, as far as they tell the end of `id`.
  step-endings :
      (m : Manager) (c : Call) (id : String) (j : Job)
      → Keyed m
      → Spares id c
      → m.has_callback ≡ true
      → lookup id m.jobs ≡ some j
      → endings id (step fl m c).sent + ended j.state ≡ ended (after c id j).state
  unfolding new_job
  step-endings m (creates t k mi ci f total now) id j keyed sp cb e = ground (
    arith,
    step_create fl m t k mi ci f total now id,
    publish-endings m k transfer_queued (new_job t k mi ci f total now, true) id cb,
    eq_iff k id,
  )
  step-endings m c id j keyed sp cb e = elim (Option-cases (lookup (subject c) m.jobs)) [
    | inl missing ↦ ground (arith, step_missing fl m c refl missing, eq_iff (subject c) id)
    | inr (j₁, found) ↦ ground (
      arith,
      step_found fl m c j₁ id refl found,
      publish-endings m (subject c) (event_type fl c) (effect fl c j₁) id cb,
      effect_lem c j₁ refl,
      keyed (subject c) j₁ found,
      eq_iff (subject c) id,
      eq_iff (effect fl c j₁).0.id id,
    )
  ]

  -- With a callback registered, exactly one event tells the end of a job if it ends during the
  -- calls, and none does otherwise.
  pub run-endings :
      (m : Manager) (cs : List Call) (id : String) (j j' : Job)
      → Keyed m
      → All (Spares id) cs
      → m.has_callback ≡ true
      → lookup id m.jobs ≡ some j
      → lookup id (run fl m cs).0.jobs ≡ some j'
      → endings id (run fl m cs).1 + ended j.state ≡ ended j'.state
  unfolding run
  run-endings m [] id j j' keyed sp cb e e' = ground arith
  run-endings m (c ∷ cs) id j j' keyed sp cb e e' =
      let o = step fl m c in
      omega (
        arith,
        endings-append id o.sent (run fl o.manager cs).1,
        step-endings m c id j keyed sp.0 cb e,
        run-endings o.manager cs id (after c id j) j' (step-Keyed m c keyed) sp.1
            (step-has_callback fl m c ∙ cb) (step_job m c id j sp.0 e) e',
      )

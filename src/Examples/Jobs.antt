-- ===== src/Examples/Jobs.antt =====
-- pkg/chat/v2/transfer at concrete inputs.
use eqrcp.Base.{◌+◌, ◌≡◌, refl, String, true, List, [], ◌∷◌, some, All, arith, eq_iff}
use eqrcp.Base.Int.{ℤ, pos, ◌*ℤ◌, quot}
use eqrcp.Base.Clock.{second}
use eqrcp.Base.Float.{Float64}
use eqrcp.Base.Assoc.{lookup, insert}
use eqrcp.Transfer.Job.{running, completed, Job, update_state, percent, to_event, update_progress}
use eqrcp.Transfer.Manager.{
  Manager, complete_job, fail_job, cancel_job, update_job_progress, publish, with_job,
}
use eqrcp.Transfer.Run.{Call, progresses, completes, fails, cancels, Spares, step, run}
use eqrcp.Transfer.Lifecycle.{endings, run-endings}

abbrev whole : Float64
whole = record {
  F = ℤ;
  of_int64 = λ n. n;
  mul = ◌*ℤ◌;
  div = quot;
  to_int64 = λ n. n;
  seconds = λ d. quot d (pos second);
}

abbrev upload : Job
upload = record {
  token = "t";
  id = "u";
  message_id = "m";
  client_id = "c";
  file_name = "f";
  bytes_done = pos 0;
  bytes_total = pos 10;
  state = running;
  error = "";
  updated_at = 5;
  last_pct = pos 0;
  last_sent_time = 0;
}

abbrev finished : Job
finished = record upload { state = completed; updated_at = 9 }

abbrev desk : Job → Manager
desk j = record { jobs = ("v", record upload { id = "v" }) ∷ ("u", j) ∷ []; has_callback = true }

abbrev late : List Call
late = fails "u" (some "disk") 12 ∷ cancels "u" 13 ∷ progresses "v" (pos 3) 14 ∷ []

abbrev ending : List Call
ending = completes "u" 9 ∷ cancels "u" 13 ∷ []

runs : Unit {0}
unfolding run step lookup insert complete_job fail_job cancel_job update_job_progress publish
    with_job update_state update_progress percent to_event
runs = tt

late-Spares : All (Spares "u") late
late-Spares = (λ e. cc, (λ e. cc, (λ e. cc, tt)))

ending-Spares : All (Spares "u") ending
ending-Spares = (λ e. cc, (λ e. cc, tt))

desk_keyed : (k : String) (j : Job) → lookup k (desk upload).jobs ≡ some j → j.id ≡ k
unfolding lookup
desk_keyed k j e = ground (arith, eq_iff k "u", eq_iff k "v")

run-endings_example : endings "u" (run whole (desk upload) ending).1 + 0 ≡ 1
unfolding runs
run-endings_example =
    run-endings whole (desk upload) ending "u" upload finished desk_keyed ending-Spares refl refl
      refl

-- ===== src/Job.antt =====
-- The `job` object of internal/execd/job_lifecycle.go. Its mutex makes each method one step. The
-- channel `done` is open or closed, and closing it twice is a run-time panic (`none`); of the
-- context that `cancel` belongs to the model keeps whether it was canceled.
use vpsops.Base.{Bool, true, false, Option, none, some, Text, ℤ, if◌then◌else◌}
use vpsops.Types.{RunResult, JobSummary, state_running, state_canceled}

pub record Job : Type 0 where
  pub id : Text
  pub state : Text
  pub result : Option RunResult
  pub done : Bool
  pub started : ℤ
  pub hash : Text
  pub token_id : Text
  pub remote : Text
  pub lock_key : Text
  pub has_cancel : Bool
  pub context_canceled : Bool
  pub cancel_requested : Bool

-- close(ch)
abbrev pub close : Bool → Option Bool
close true = none
close false = some true

-- setResult
unfoldable pub set_result : Job → RunResult → Option Job
set_result j res = elim j.result [
  | some old ↦ some j
  | none ↦ elim (close j.done) [
    | none ↦ none
    | some done ↦ some (record j { result = some res; state = res.state; done = done })
  ]
]

-- setCancel, for a function that is not nil
unfoldable pub set_cancel : Job → Job
set_cancel j =
    let j' = record j { has_cancel = true } in
    if j.cancel_requested then record j' { context_canceled = true } else j'

-- requestCancel
unfoldable pub request_cancel : Job → Job × Bool
request_cancel j = elim j.result [
  | some res ↦ (j, false)
  | none ↦
      let j' = record j { cancel_requested = true; state = state_canceled } in
      (if j.has_cancel then record j' { context_canceled = true } else j', true)
]

-- wasCancelRequested
unfoldable pub was_cancel_requested : Job → Bool
was_cancel_requested j = j.cancel_requested

-- summary
unfoldable pub summary : Job → JobSummary
summary j = record {
  job_id = j.id;
  state = j.state;
  started_at = j.started;
  finished_at = elim j.result [ none ↦ none | some res ↦ some res.finished_at ];
  result = j.result;
}

-- jobDone
unfoldable pub job_done : Job → Bool
job_done j = j.done

-- markRunning
unfoldable pub mark_running : Job → Job
mark_running j =
    if j.cancel_requested
    then record j { state = state_canceled }
    else record j { state = state_running }

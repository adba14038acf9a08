-- ===== src/SshJobs/Runs.antt =====
-- tools/ssh/jobs.go: the states that the worker and cancellations reach in any order.
use agent_tool.Base.{
  ℕ, Bool, true, false, not, List, [], ◌∷◌, none, some, is_some, Bytes, bytes_eq, bytes_eq_refl,
  ◌≡◌, refl, ap, ◌∙◌, inl, inr, Bool-cases,
}
use agent_tool.SshJobs.{
  Status, running, cancelled, failed, completed, RunOutcome, success, exit_error, other_error,
  SshJob, new_job, finish, cancel, is_running, is_stale, prune_ssh_jobs, lookup, insert_job,
  start_ssh_job, get_ssh_job, JobState, Step, ends, cancels, Steps, stay, step,
}

-- While the worker waits the job runs or was cancelled; then it does not run.
abbrev pub agrees : Bool → Status → Bool
agrees true running = true
agrees true cancelled = true
agrees true failed = false
agrees true completed = false
agrees false running = false
agrees false cancelled = true
agrees false failed = true
agrees false completed = true

-- A job is finished exactly when it is not running, and its session is set exactly while the worker
-- waits.
pub IsJob : JobState → Type 0
IsJob s =
    (is_some s.job.finished_at ≡ not (is_running s.job.status))
    × (s.job.has_session ≡ s.waiting)
    × (agrees s.waiting s.job.status ≡ true)

finish_status-IsJob :
    (st : Status) (now : ℕ) (o : RunOutcome) (j : SshJob)
    → IsJob (record { job = finish now o (record j { status = st }); waiting = false })
unfolding finish IsJob
finish_status-IsJob running now success j = (refl, refl, refl)
finish_status-IsJob running now (exit_error code text) j = (refl, refl, refl)
finish_status-IsJob running now (other_error text) j = (refl, refl, refl)
finish_status-IsJob cancelled now success j = (refl, refl, refl)
finish_status-IsJob cancelled now (exit_error code text) j = (refl, refl, refl)
finish_status-IsJob cancelled now (other_error text) j = (refl, refl, refl)
finish_status-IsJob failed now success j = (refl, refl, refl)
finish_status-IsJob failed now (exit_error code text) j = (refl, refl, refl)
finish_status-IsJob failed now (other_error text) j = (refl, refl, refl)
finish_status-IsJob completed now success j = (refl, refl, refl)
finish_status-IsJob completed now (exit_error code text) j = (refl, refl, refl)
finish_status-IsJob completed now (other_error text) j = (refl, refl, refl)

cancel_status-IsJob :
    (st : Status) (now : ℕ) (j : SshJob) (w : Bool)
    → IsJob (record { job = record j { status = st }; waiting = w })
    → IsJob (record { job = (cancel now (record j { status = st })).1; waiting = w })
unfolding cancel IsJob
cancel_status-IsJob running now j true (done, session, fits) = (refl, session, refl)
cancel_status-IsJob running now j false (done, session, fits) = cc
cancel_status-IsJob cancelled now j w h = h
cancel_status-IsJob failed now j w h = h
cancel_status-IsJob completed now j w h = h

Step-IsJob : {s t : JobState} → Step s t → IsJob s → IsJob t
Step-IsJob (ends now o j) h = finish_status-IsJob j.status now o j
Step-IsJob (cancels now j w) h = cancel_status-IsJob j.status now j w h

Steps-IsJob : {s t : JobState} → Steps s t → IsJob s → IsJob t
Steps-IsJob (stay s) h = h
Steps-IsJob (step ss st) h = Step-IsJob st (Steps-IsJob ss h)

-- In every order of cancellations and the end of the worker, a started job has a finishing time
-- exactly when it is not running, has its session exactly while the worker waits, is running or
-- cancelled while the worker waits, and is not running once the worker has ended.
pub new_job-IsJob :
    (id command : Bytes) (now : ℕ) {t : JobState}
    → Steps (record { job = new_job id command now; waiting = true }) t
    → IsJob t
unfolding IsJob
new_job-IsJob id command now ss = Steps-IsJob ss (refl, refl, refl)

status-finish :
    (st : Status) (now : ℕ) (o : RunOutcome) (j : SshJob)
    → is_running st ≡ false
    → agrees true st ≡ true
    → (finish now o (record j { status = st })).status ≡ st
unfolding finish
status-finish running now o j stopped h = cc
status-finish cancelled now success j stopped h = refl
status-finish cancelled now (exit_error code text) j stopped h = refl
status-finish cancelled now (other_error text) j stopped h = refl
status-finish failed now o j stopped h = cc
status-finish completed now o j stopped h = cc

cancel_refused : (now : ℕ) (j : SshJob) → is_running j.status ≡ false → cancel now j ≡ (true, j)
unfolding cancel
cancel_refused now j stopped = rw (stopped, cancel) refl

status-Step :
    {s t : JobState}
    → Step s t
    → IsJob s
    → is_running s.job.status ≡ false
    → t.job.status ≡ s.job.status
unfolding IsJob
status-Step (ends now o j) (done, session, fits) stopped =
    status-finish j.status now o j stopped fits
status-Step (cancels now j w) h stopped = ap (λ r. r.1.status) (cancel_refused now j stopped)

-- A job that is not running keeps its status in every order of what follows: a cancelled one is
-- not reported as completed or failed when its command ends, and a finished one cannot be cancelled.
pub status-Steps :
    {s t : JobState}
    → Steps s t
    → IsJob s
    → is_running s.job.status ≡ false
    → t.job.status ≡ s.job.status
status-Steps (stay s) h stopped = refl
status-Steps (step ss st) h stopped =
    let before = status-Steps ss h stopped in
    status-Step st (Steps-IsJob ss h) (ap is_running before ∙ stopped) ∙ before

some-injective : {i j : SshJob} → some i ≡ some j → i ≡ j
some-injective h = cc

is_stale_unfinished : (now : ℕ) (j : SshJob) → j.finished_at ≡ none → is_stale now j ≡ false
is_stale_unfinished now j e = rw e refl

prune_kept :
    (now : ℕ) (k : Bytes) (j : SshJob) (js : List (Bytes × SshJob))
    → is_stale now j ≡ false
    → prune_ssh_jobs now ((k, j) ∷ js) ≡ (k, j) ∷ prune_ssh_jobs now js
unfolding prune_ssh_jobs
prune_kept now k j js e = rw (e, prune_ssh_jobs) refl

prune_dropped :
    (now : ℕ) (k : Bytes) (j : SshJob) (js : List (Bytes × SshJob))
    → is_stale now j ≡ true
    → prune_ssh_jobs now ((k, j) ∷ js) ≡ prune_ssh_jobs now js
unfolding prune_ssh_jobs
prune_dropped now k j js e = rw (e, prune_ssh_jobs) refl

-- A job without a finishing time is found under its id after every removal of old jobs, however
-- long ago it was started.
pub lookup-prune_ssh_jobs :
    (now : ℕ) (k : Bytes) (js : List (Bytes × SshJob)) (j : SshJob)
    → lookup k js ≡ some j
    → j.finished_at ≡ none
    → lookup k (prune_ssh_jobs now js) ≡ some j
lookup-prune_ssh_jobs now k [] j found unfinished = cc
lookup-prune_ssh_jobs now k ((i, l) ∷ js) j found unfinished = elim (Bool-cases (bytes_eq k i)) [
  | inl same ↦
      let one : l ≡ j = some-injective (rw same at found) in
      let live = is_stale_unfinished now l (ap (λ m. m.finished_at) one ∙ unfinished) in
      rw (prune_kept now i l js live, same) (ap some one)
  | inr other ↦
      let rest = lookup-prune_ssh_jobs now k js j (rw other at found) unfinished in
      elim (Bool-cases (is_stale now l)) [
        | inl stale ↦ rw (prune_dropped now i l js stale) rest
        | inr live ↦ rw (prune_kept now i l js live, other) rest
      ]
]

lookup-insert_job :
    (k : Bytes) (j : SshJob) (js : List (Bytes × SshJob)) → lookup k (insert_job k j js) ≡ some j
lookup-insert_job k j [] = let same = bytes_eq_refl k in rw same refl
lookup-insert_job k j ((i, l) ∷ js) = elim (Bool-cases (bytes_eq k i)) [
  | inl same ↦ rw (same, same) refl
  | inr other ↦ rw (other, other) (lookup-insert_job k j js)
]

-- A job that was started is found under its id by a request on the table as the start has left it,
-- at any time and whatever other jobs there are: a job without an end is not pruned.
pub get_ssh_job-start_ssh_job :
    (now later : ℕ) (id command : Bytes) (js : List (Bytes × SshJob))
    → (get_ssh_job later id (start_ssh_job now id command js)).0 ≡ some (new_job id command now)
unfolding get_ssh_job start_ssh_job
get_ssh_job-start_ssh_job now later id command js =
    lookup-prune_ssh_jobs later id (insert_job id (new_job id command now) (prune_ssh_jobs now js))
      (new_job id command now)
      (lookup-insert_job id (new_job id command now) (prune_ssh_jobs now js)) refl

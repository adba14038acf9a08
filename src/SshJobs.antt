-- ===== src/SshJobs.antt =====
-- tools/ssh/jobs.go: background commands on a remote host. A job is shared by the worker that waits
-- for the command and by the requests; each takes the job's mutex, so each is one step.
pub mod Runs
pub mod Examples
use agent_tool.Base.{
  ℕ, zero, suc, ◌+◌, ◌-◌, ◌*◌, Bool, true, false, not, ◌&&◌, List, [], ◌∷◌, ◌++◌, Option, none,
  some, ltb, leb, if◌then◌else◌, Bytes, codes, bytes_eq,
}

-- `sshJobRetention`, in nanoseconds.
abbrev pub ssh_job_retention : ℕ
ssh_job_retention = 3600000000000

pub data Status : Type 0 where
  running cancelled failed completed : Status

-- What `session.Run` returns: no error, an exit status with the text of the error, another error.
pub data RunOutcome : Type 0 where
  success : RunOutcome
  exit_error : ℕ → Bytes → RunOutcome
  other_error : Bytes → RunOutcome

-- `sshJob`; the zero time is `none`, and of the session only whether it is still set.
pub record SshJob : Type 0 where
  pub id : Bytes
  pub command : Bytes
  pub created_at : ℕ
  pub finished_at : Option ℕ
  pub status : Status
  pub exit_code : ℕ
  pub error : Bytes
  pub has_session : Bool

-- The job that `startSSHJob` makes.
abbrev pub new_job : Bytes → Bytes → ℕ → SshJob
new_job id command now = record {
  id = id;
  command = command;
  created_at = now;
  finished_at = none;
  status = running;
  exit_code = 0;
  error = [];
  has_session = true;
}

-- The end of the worker's function, for a job that was not cancelled.
abbrev pub finish_uncancelled : RunOutcome → SshJob → SshJob
finish_uncancelled success j = record j { status = completed }
finish_uncancelled (exit_error code text) j = record j {
  exit_code = code;
  status = failed;
  error = text;
}
finish_uncancelled (other_error text) j = record j { status = failed; error = text }

abbrev pub finish_cancelled : RunOutcome → SshJob → SshJob
finish_cancelled success j = j
finish_cancelled (exit_error code text) j = record j { exit_code = code }
finish_cancelled (other_error text) j = j

abbrev pub is_cancelled : Status → Bool
is_cancelled cancelled = true
is_cancelled _ = false

abbrev pub is_running : Status → Bool
is_running running = true
is_running _ = false

-- The worker, when the command has ended.
unfoldable pub finish : ℕ → RunOutcome → SshJob → SshJob
finish now outcome j =
    let j' : SshJob = record j { finished_at = some now; has_session = false; exit_code = 0 } in
    if is_cancelled j.status then finish_cancelled outcome j' else finish_uncancelled outcome j'

-- `cancel`: whether it was refused because the job is not running, and the job. Whether the remote
-- side could be signalled is the session's matter.
unfoldable pub cancel : ℕ → SshJob → Bool × SshJob
cancel now j =
    if is_running j.status
    then (false, record j { status = cancelled; finished_at = some now })
    else (true, j)

abbrev pub is_stale : ℕ → SshJob → Bool
is_stale now j = elim j.finished_at [ none ↦ false | some t ↦ ltb ssh_job_retention (now - t) ]

-- `pruneSSHJobsLocked`.
unfoldable pub prune_ssh_jobs : ℕ → List (Bytes × SshJob) → List (Bytes × SshJob)
prune_ssh_jobs now [] = []
prune_ssh_jobs now ((k, j) ∷ js) =
    let rest = prune_ssh_jobs now js in if is_stale now j then rest else (k, j) ∷ rest

abbrev pub lookup : Bytes → List (Bytes × SshJob) → Option SshJob
lookup k [] = none
lookup k ((i, j) ∷ js) = if bytes_eq k i then some j else lookup k js

-- `getSSHJob`: the job, and the table behind the call.
unfoldable pub get_ssh_job :
    ℕ → Bytes → List (Bytes × SshJob) → Option SshJob × List (Bytes × SshJob)
get_ssh_job now id js = let left = prune_ssh_jobs now js in (lookup id left, left)

abbrev pub insert_job : Bytes → SshJob → List (Bytes × SshJob) → List (Bytes × SshJob)
insert_job k j [] = (k, j) ∷ []
insert_job k j ((i, l) ∷ js) = if bytes_eq k i then (i, j) ∷ js else (i, l) ∷ insert_job k j js

-- The table behind `startSSHJob`, with the session made and the id drawn.
unfoldable pub start_ssh_job : ℕ → Bytes → Bytes → List (Bytes × SshJob) → List (Bytes × SshJob)
start_ssh_job now id command js = insert_job id (new_job id command now) (prune_ssh_jobs now js)

-- A job and whether its worker still waits.
pub record JobState : Type 0 where
  pub job : SshJob
  pub waiting : Bool

-- The steps that change a job: the worker ends, once, and requests cancel.
pub data Step : JobState → JobState → Type 0 where
  ends :
      (now : ℕ) (o : RunOutcome) (j : SshJob)
      → Step (record { job = j; waiting = true }) (record { job = finish now o j; waiting = false })
  cancels :
      (now : ℕ) (j : SshJob) (w : Bool)
      → Step (record { job = j; waiting = w }) (record { job = (cancel now j).1; waiting = w })

pub data Steps : JobState → JobState → Type 0 where
  stay : (s : JobState) → Steps s s
  step : {s t u : JobState} → Steps s t → Step t u → Steps s u

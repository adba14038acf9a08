-- ===== src/SshJobs/Examples.antt =====
-- Runs of a job, and the theorems at concrete inputs.
use agent_tool.Base.{[], ◌∷◌, some, true, false, ◌≡◌, refl, codes, bytes_eq}
use agent_tool.SshJobs.{
  SshJob, cancelled, completed, new_job, success, exit_error, finish, cancel, prune_ssh_jobs,
  lookup, get_ssh_job, start_ssh_job, JobState, Steps, stay, step, ends, cancels,
}
use agent_tool.SshJobs.Runs.{
  IsJob, new_job-IsJob, status-Steps, lookup-prune_ssh_jobs, get_ssh_job-start_ssh_job,
}

abbrev job : SshJob
job = new_job (codes "0a") (codes "make") 5

abbrev cancelled_job : SshJob
cancelled_job = record job { status = cancelled; finished_at = some 7 }

abbrev started : JobState
started = record { job = job; waiting = true }

abbrev cancelled_state : JobState
cancelled_state = record { job = cancelled_job; waiting = true }

abbrev ended_state : JobState
ended_state = record {
  job = record cancelled_job { finished_at = some 9; exit_code = 137; has_session = false };
  waiting = false;
}

cancels_job : Steps started cancelled_state
unfolding cancel
cancels_job = step (stay started) (cancels 7 job true)

ends_job : Steps cancelled_state ended_state
unfolding finish
ends_job = step (stay cancelled_state) (ends 9 (exit_error 137 (codes "killed")) cancelled_job)

completes : (finish 9 success job).status ≡ completed
unfolding finish
completes = refl

new_job-IsJob_example : IsJob cancelled_state
new_job-IsJob_example = new_job-IsJob (codes "0a") (codes "make") 5 cancels_job

status-Steps_example : ended_state.job.status ≡ cancelled
status-Steps_example = status-Steps ends_job new_job-IsJob_example refl

lookup-prune_ssh_jobs_example :
    lookup (codes "0a") (prune_ssh_jobs 9000000000000 ((codes "0a", job) ∷ [])) ≡ some job
unfolding bytes_eq
lookup-prune_ssh_jobs_example =
    lookup-prune_ssh_jobs 9000000000000 (codes "0a") ((codes "0a", job) ∷ []) job refl refl

get_ssh_job-start_ssh_job_example :
    (get_ssh_job 8
      (codes "0a")
      (start_ssh_job 5 (codes "0a") (codes "make") ((codes "0b", job) ∷ []))).0
    ≡ some (new_job (codes "0a") (codes "make") 5)
get_ssh_job-start_ssh_job_example =
    get_ssh_job-start_ssh_job 5 8 (codes "0a") (codes "make") ((codes "0b", job) ∷ [])

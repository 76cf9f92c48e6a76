-- ===== src/Queue/Spec.antt =====
-- What the queue promises: three lines of jobs, served HIGH, then MEDIUM, then LOW, each first in,
-- first out. A line holds its oldest job first.
use ingress_api_gateway.Prelude.{
  ℕ, ◌+◌, Option, none, some, List, [], ◌∷◌, ◌++◌, length, ◌==◌, if◌then◌else◌,
}
use ingress_api_gateway.Domain.Job.{Job, priority_high, priority_low}

pub record Lines : Type 0 where
  pub high : List Job
  pub medium : List Job
  pub low : List Job

abbrev pub no_jobs : Lines
no_jobs = record { high = []; medium = []; low = [] }

-- A job joins the end of the line of its priority; an unknown priority counts as MEDIUM.
unfoldable pub enter : Job → Lines → Lines
enter job l =
    if job.priority == priority_high
    then record l { high = l.high ++ job ∷ [] }
    else if job.priority == priority_low
    then record l { low = l.low ++ job ∷ [] }
    else record l { medium = l.medium ++ job ∷ [] }

abbrev serve_low : List Job → Lines → Option Job × Lines
serve_low [] l = (none, l)
serve_low (job ∷ rest) l = (some job, record l { low = rest })

abbrev serve_medium : List Job → Lines → Option Job × Lines
serve_medium [] l = serve_low l.low l
serve_medium (job ∷ rest) l = (some job, record l { medium = rest })

abbrev serve_high : List Job → Lines → Option Job × Lines
serve_high [] l = serve_medium l.medium l
serve_high (job ∷ rest) l = (some job, record l { high = rest })

unfoldable pub serve : Lines → Option Job × Lines
serve l = serve_high l.high l

unfoldable pub waiting : Lines → ℕ
waiting l = length l.high + length l.medium + length l.low

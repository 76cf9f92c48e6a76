-- ===== src/Api/Handlers/Admin.antt =====
-- internal/api/handlers/admin_handler.go: the admin's handlers over the admin service. The query,
-- the path parameters of chi and `strconv.Atoi` are parameters.
pub mod Statuses
use ingress_api_gateway.Prelude.{ℕ, String, Option, none, some, List, length, ◌==◌, if◌then◌else◌}
use ingress_api_gateway.Prelude.Int.{ℤ, pos}
use ingress_api_gateway.Domain.Error.{
  Error, error_text, is_error, err_not_found, err_invalid_payload,
}
use ingress_api_gateway.Domain.Result.{Result, ok, err, Act}
use ingress_api_gateway.Domain.Job.{Job, JobFilter, JobStats}
use ingress_api_gateway.Api.Http.{
  Request, Response, Handler, one_job, many_jobs, job_stats, write_json, write_error,
}

-- The methods of `service.AdminService` that the handlers call.
pub record AdminService (W : Type 0) : Type 0 where
  pub list_jobs : JobFilter → Act W (List Job)
  pub get_job : String → Act W Job
  pub list_dead_letter : ℤ → ℤ → Act W (List Job)
  pub stats : Act W JobStats
  pub retry_job : String → Act W Job

abbrev pub or_default : ℤ → Option ℤ → ℤ
or_default def none = def
or_default def (some n) = n

unfoldable pub atoi_default : (String → Option ℤ) → String → ℤ → ℤ
atoi_default atoi s def = if s == "" then def else or_default def (atoi s)

-- `fail`
unfoldable pub failed : Request → Response
unfolding write_error
failed r = write_error r 500 "internal_error" "request failed"

abbrev pub reply_jobs : Request → Result (List Job) → Response
unfolding write_json failed
reply_jobs r (ok jobs) = write_json 200 (many_jobs (length jobs) jobs)
reply_jobs r (err e) = failed r

abbrev pub reply_job : Request → Result Job → Response
unfolding write_json write_error failed
reply_job r (ok job) = write_json 200 (one_job job)
reply_job r (err e) =
    if is_error e err_not_found then write_error r 404 "not_found" "job not found" else failed r

abbrev pub reply_stats : Request → Result JobStats → Response
unfolding write_json failed
reply_stats r (ok stats) = write_json 200 (job_stats stats)
reply_stats r (err e) = failed r

abbrev pub reply_retry : (String → String) → Request → Result Job → Response
unfolding write_json write_error failed
reply_retry quote r (ok job) = write_json 200 (one_job job)
reply_retry quote r (err e) =
    if is_error e err_not_found
    then write_error r 404 "not_found" "job not found"
    else if is_error e err_invalid_payload
    then write_error r 409 "conflict" (error_text quote e)
    else failed r

module _ {W : Type 0} (svc : AdminService W) (query url_param : Request → String → String)
    (atoi : String → Option ℤ) (quote : String → String) where
  unfoldable pub list_jobs_handler : Handler W
  unfolding atoi_default
  list_jobs_handler r w =
      let f : JobFilter = record {
        status = query r "status";
        job_type = query r "job_type";
        limit = atoi_default atoi (query r "limit") (pos 50);
        offset = atoi_default atoi (query r "offset") (pos 0);
      } in
      let out = svc.list_jobs f w in (reply_jobs r out.0, out.1)

  unfoldable pub get_job_handler : Handler W
  get_job_handler r w = let out = svc.get_job (url_param r "id") w in (reply_job r out.0, out.1)

  unfoldable pub stats_handler : Handler W
  stats_handler r w = let out = svc.stats w in (reply_stats r out.0, out.1)

  unfoldable pub retry_job_handler : Handler W
  retry_job_handler r w =
      let out = svc.retry_job (url_param r "id") w in (reply_retry quote r out.0, out.1)

  unfoldable pub dead_letter_jobs_handler : Handler W
  unfolding atoi_default
  dead_letter_jobs_handler r w =
      let limit = atoi_default atoi (query r "limit") (pos 50) in
      let offset = atoi_default atoi (query r "offset") (pos 0) in
      let out = svc.list_dead_letter limit offset w in (reply_jobs r out.0, out.1)

-- ===== src/Api/Http.antt =====
-- internal/api/httpx and what the handlers use of net/http: requests, responses and the error
-- envelope. A header that is absent reads as "".
use ingress_api_gateway.Prelude.{ℕ, String, Bool, Option, List}
use ingress_api_gateway.Prelude.Int.{ℤ}
use ingress_api_gateway.Domain.Job.{Job, JobStats}

-- What `io.ReadAll` of the body gives: the bytes, a MaxBytesError, or another error.
pub data BodyRead : Type 0 where
  bytes : String → BodyRead
  max_bytes_error : BodyRead
  broken : BodyRead

-- `body` answers a read under the limit that a MaxBytesReader sets, if any. The two ids are those
-- that the request's context carries; `route` is chi's pattern of the route, "" where none matches.
pub record Request : Type 0 where
  pub method : String
  pub path : String
  pub route : String
  pub header : String → String
  pub content_length : ℤ
  pub body : Option ℤ → BodyRead
  pub limit : Option ℤ
  pub remote_addr : String
  pub request_id : String
  pub trace_id : String

pub record AcceptResponse : Type 0 where
  pub job_id : String
  pub status : String
  pub job_type : String
  pub duplicate : Bool
  pub trace_id : String

pub record ErrorBody : Type 0 where
  pub error : String
  pub detail : String
  pub request_id : String
  pub trace_id : String

pub data Payload : Type 0 where
  accepted : AcceptResponse → Payload
  error : ErrorBody → Payload
  one_job : Job → Payload
  many_jobs : ℕ → List Job → Payload
  job_stats : JobStats → Payload
  health : String → ℕ → Payload
  alive : Payload
  readiness : String → List (String × String) → Payload

-- `retry_after` is the Retry-After header, "" if it is not set; the ids are the correlation headers.
pub record Response : Type 0 where
  pub status : ℕ
  pub payload : Payload
  pub retry_after : String
  pub request_id : String
  pub trace_id : String

abbrev pub Handler : Type 0 → Type 0
Handler W = Request → W → Response × W

unfoldable pub write_json : ℕ → Payload → Response
write_json status v = record {
  status = status;
  payload = v;
  retry_after = "";
  request_id = "";
  trace_id = "";
}

unfoldable pub write_error : Request → ℕ → String → String → Response
unfolding write_json
write_error r status code detail = write_json status (
    error
      (record { error = code; detail = detail; request_id = r.request_id; trace_id = r.trace_id }))

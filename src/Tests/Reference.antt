-- ===== src/Tests/Reference.antt =====
-- Concrete adapters for the ports: a cache that is a function, a queue and a table that are lists, a
-- counting clock, and decoders that answer one payload each.
use ingress_api_gateway.Prelude.{
  ℕ, ◌+◌, String, ◌≡◌, refl, true, Option, none, some, List, [], ◌∷◌, ◌++◌, length, ◌==◌, arith,
  eq_iff, if◌then◌else◌,
}
use ingress_api_gateway.Prelude.Int.{pos}
use ingress_api_gateway.Domain.Error.{sentinel, err_not_found, foreign}
use ingress_api_gateway.Domain.Result.{Result, ok, err}
use ingress_api_gateway.Domain.Job.{Job, new_job}
use ingress_api_gateway.Domain.Event.{
  RegistrationPayload, PaymentWebhookPayload, QrScanPayload, NotificationPayload,
}
use ingress_api_gateway.Domain.Ports.{Queue, Cache, JobRepository, Env, Runtime, World}
use ingress_api_gateway.Domain.Laws.{IsReliable, FindsById, DrawsBelow, is_none, some_or}

abbrev pub Memory : Type 0
Memory = String → Option String

abbrev pub put : String → Option String → Memory → Memory
put k v c j = if k == j then v else c j

abbrev pub memory_cache : Cache Memory
memory_cache = record {
  set_nx = λ k v t c. (ok (is_none (c k)), put k (some_or (c k) v) c);
  get = λ k c. (ok (c k), c);
  set = λ k v t c. (ok tt, put k (some v) c);
  incr = λ k c. (ok (pos 1), put k (some "1") c);
  del = λ k c. (ok tt, put k none c);
  ping = λ c. (ok tt, c);
}

abbrev pub view : Memory → String → Option String
view c k = c k

pub memory_cache-IsReliable : IsReliable memory_cache view
memory_cache-IsReliable = record {
  set_nx_reply = λ k v t c. refl;
  set_nx_view = λ k v t c j. refl;
  get_reply = λ k c. refl;
  get_view = λ k c j. refl;
  set_view = λ k v t c j. refl;
  incr_view = λ k c j h. rw h;
  del_view = λ k c j. refl;
}

abbrev pub empty : Memory
empty k = none

abbrev pub list_queue : Queue (List Job)
list_queue = record {
  push = λ job q. (ok tt, q ++ job ∷ []);
  pop = λ q. (ok none, q);
  push_dead_letter = λ job q. (ok tt, q);
  depth = λ p q. (ok (length q), q);
  total_depth = λ q. (ok (length q), q);
  dead_letter_depth = λ q. (ok 0, q);
  list_dead_letter = λ n q. (ok [], q);
  ping = λ q. (ok tt, q);
}

-- The newest row of a job stands first.
unfoldable pub row_of : String → List Job → Result Job
row_of id [] = err (sentinel err_not_found)
row_of id (j ∷ js) = let rest = row_of id js in if j.id == id then ok j else rest

abbrev pub list_jobs : JobRepository (List Job)
list_jobs = record {
  create = λ job s. (ok tt, job ∷ s);
  update = λ job s. (ok tt, job ∷ s);
  get_by_id = λ id s. (row_of id s, s);
  list = λ f s. (ok s, s);
  list_dead_letter = λ limit offset s. (ok s, s);
  count_by_status = λ s. (ok [], s);
  count_by_type = λ s. (ok [], s);
  add_attempt = λ a s. (ok tt, s);
  ping = λ s. (ok tt, s);
}

row_of-id : (id : String) (s : List Job) (job : Job) → row_of id s ≡ ok job → job.id ≡ id
unfolding row_of
row_of-id id [] job h = ground arith
row_of-id id (j ∷ js) job h = ground (arith, row_of-id id js job, eq_iff j.id id)

pub list_jobs-FindsById : FindsById list_jobs
list_jobs-FindsById = row_of-id

abbrev pub counter : Env ℕ
counter = record {
  now = λ e. (e, e + 1);
  new_uuid = λ e. ("u1", e + 1);
  int63n = λ n e. (0, e + 1);
  count = λ m e. e;
}

pub counter-DrawsBelow : DrawsBelow counter
counter-DrawsBelow n e h = h

abbrev pub registration : RegistrationPayload
registration = record {
  event_id = "ev";
  attendee_name = "Ann";
  email = "a@b";
  phone = "";
  ticket_type = "VIP";
}

abbrev pub payment : PaymentWebhookPayload
payment = record {
  gateway_order_id = "o1";
  payment_id = "p1";
  payment_status = "CAPTURED";
  amount_cents = pos 100;
  currency = "INR";
}

abbrev pub qr_scan : QrScanPayload
qr_scan = record { qr_code = "qr1"; event_id = "ev"; gate_id = "g1"; scanned_by = "bob" }

abbrev pub notification : NotificationPayload
notification = record {
  channel = "EMAIL";
  recipient = "a@b";
  template = "t";
  subject = "s";
  body = "b";
  event_id = "ev";
}

-- Every text is JSON but "x".
abbrev pub unless_x : {A : Type 0} → A → String → Result A
unless_x a s = if s == "x" then err (foreign "syntax error") else ok a

abbrev pub fixed : Job → Runtime
fixed job = record {
  quote = λ s. s;
  sha256_hex = λ s. s;
  hmac_sha256_hex = λ secret s. "ab";
  json_valid = λ s. true;
  decode_registration = unless_x registration;
  decode_payment = unless_x payment;
  decode_qr_scan = unless_x qr_scan;
  decode_notification = unless_x notification;
  encode_notification = λ p. ok "{}";
  encode_job = λ j. ok "j";
  decode_job = λ s. ok job;
}

abbrev pub queued : Job
queued = new_job 0 "u1" "REGISTRATION" "{}" "k" "t" (pos 3)

abbrev pub rt : Runtime
rt = fixed queued

abbrev pub fresh_world : World (List Job) (List Job) Memory ℕ
fresh_world = record { queue = []; store = []; cache = empty; env = 0 }

-- ===== src/Tests/Repository.antt =====
-- A jobs table that is a list of rows, and what the repository's theorems say of it.
use Prim.Native.String.{slice, len}
use ingress_api_gateway.Prelude.{
  decimal, join, ℕ, ◌*◌, ◌/◌, String, ◌≡◌, refl, Bool, true, false, Option, none, some, List, [],
  ◌∷◌, ◌++◌, ◌==◌, arith, Option-cases, inl, inr, eqb, length, ◌<>◌, ◌+◌, ◌≤◌, ◌||◌, zero, suc,
  starts_with, if◌then◌else◌,
}
use ingress_api_gateway.Prelude.Int.{pos, pos_part}
use ingress_api_gateway.Domain.Error.{foreign}
use ingress_api_gateway.Domain.Result.{Result, ok, err}
use ingress_api_gateway.Domain.Job.{Job, JobFilter, new_job}
use ingress_api_gateway.Repository.Database.{
  Postgres, Value, text, int, time, null, RowReply, no_rows,
}
use ingress_api_gateway.Repository.Sql.{insert_job, update_job, select_job, insert_attempt}
use ingress_api_gateway.Repository.Jobs.{scan_job, create, update, get_by_id}
use ingress_api_gateway.Repository.Query.{conditions, list_text, list_args, clamp_limit}
use ingress_api_gateway.Repository.Jobs.Table.{
  Row, IsPostgres, find_row, update_rows, row_reply, stored, assigned, insert_columns,
  update_columns, select_columns, empty_row, is_absent, restored, mutated,
}
use ingress_api_gateway.Repository.Jobs.RoundTrip.{get_by_id-create, get_by_id-update}
use ingress_api_gateway.Repository.Jobs.Listing.{list_text-conditions, list_args-conditions}
use ingress_api_gateway.Tests.Reference.{queued}

-- Texts come back as given and times in whole microseconds.
abbrev pub same : String → String
same s = s

abbrev pub micros : ℕ → ℕ
micros t = t / 1000 * 1000

abbrev pub insert_new : List Value → List Row → Option Row → Result ℕ × List Row
insert_new values d none =
    (ok 1, d ++ assigned insert_columns (stored same micros insert_columns values) empty_row ∷ [])
insert_new values d (some r) = (err (foreign "duplicate key"), d)

abbrev pub count_of : Bool → ℕ
count_of true = 0
count_of false = 1

abbrev pub run_exec : String → List Value → List Row → Result ℕ × List Row
run_exec sql (text id ∷ rest) d =
    if sql == insert_job
    then insert_new (text id ∷ rest) d (find_row id d)
    else if sql == update_job
    then (
      ok (count_of (is_absent (find_row id d))),
      update_rows id (assigned update_columns (stored same micros update_columns rest)) d,
    )
    else (ok 0, d)
run_exec sql other d = (err (foreign "bad arguments"), d)

abbrev pub run_query_row : List Value → List Row → RowReply
run_query_row (text id ∷ []) d = row_reply (find_row id d)
run_query_row other d = no_rows

abbrev pub row_table : Postgres (List Row)
row_table = record {
  exec = run_exec;
  query_row = λ sql args d. (run_query_row args d, d);
  query = λ sql args d. (ok (record { all = []; ended = none }), d);
  ping = λ d. (ok tt, d);
}

inserted_new :
    (id : String) (values : List Value) (d : List Row) (n : ℕ)
    → (row_table.exec insert_job (text id ∷ values) d).0 ≡ ok n
    → (find_row id d ≡ none)
      × ((row_table.exec insert_job (text id ∷ values) d).1
          ≡ d
            ++ assigned insert_columns
                (stored same micros insert_columns (text id ∷ values))
                empty_row
              ∷ [])
inserted_new id values d n h = elim (Option-cases (find_row id d)) [
  | inl p ↦ (p, rw p refl)
  | inr (r, p) ↦ ground arith
]

counted_update : (r : Option Row) (n : ℕ) → count_of (is_absent r) ≡ n → eqb n 0 ≡ is_absent r
counted_update none n h = ground arith
counted_update (some r) n h = ground arith

ok_inj : (m n : ℕ) → ok m ≡ ok n → m ≡ n
ok_inj m n h = ground arith

attempted_elsewhere :
    (values : List Value) (d : List Row) → (row_table.exec insert_attempt values d).1 ≡ d
attempted_elsewhere [] d = refl
attempted_elsewhere (text id ∷ rest) d = refl
attempted_elsewhere (int n ∷ rest) d = refl
attempted_elsewhere (time t ∷ rest) d = refl
attempted_elsewhere (null ∷ rest) d = refl

pub row_table-IsPostgres : IsPostgres same micros row_table (λ d. d)
row_table-IsPostgres = record {
  inserted = inserted_new;
  updated = λ id values d n h.
      (refl, counted_update (find_row id d) n (ok_inj (count_of (is_absent (find_row id d))) n h));
  attempted = attempted_elsewhere;
  selected = λ id d. refl;
}

abbrev other : Job
other = record queued { id = "u2" }

abbrev table_of_one : List Row
table_of_one = (create row_table queued []).1

abbrev processed : Job
processed = record queued {
  status = "COMPLETED";
  updated_at = 5300;
  processed_at = some 5300;
  payload = "no";
}

get_by_id-create_example :
    (get_by_id row_table "u2" (create row_table other table_of_one).1).0
    ≡ ok (restored same micros other)
unfolding create get_by_id find_row new_job
get_by_id-create_example =
    get_by_id-create same micros row_table (λ d. d) row_table-IsPostgres other "u2" table_of_one
      refl

get_by_id-update_example :
    (get_by_id row_table "u1" (update row_table processed table_of_one).1).0
    ≡ ok (mutated same micros processed queued)
unfolding create update get_by_id find_row update_rows new_job scan_job
get_by_id-update_example =
    get_by_id-update same micros row_table (λ d. d) row_table-IsPostgres processed queued "u1"
      table_of_one refl refl

abbrev failed_jobs : JobFilter
failed_jobs = record {
  status = "FAILED";
  job_type = "NOTIFICATION";
  limit = pos 900;
  offset = pos 20;
}

abbrev injected : JobFilter
injected = record failed_jobs { status = "'; DROP TABLE jobs; --" }

list_text-conditions_example : list_text (conditions failed_jobs) ≡ list_text (conditions injected)
list_text-conditions_example = list_text-conditions failed_jobs injected refl refl

list_args-conditions_example :
    ((conditions failed_jobs).conds ≡ "status=$1" ∷ "job_type=$2" ∷ [])
    × ((conditions failed_jobs).i ≡ 3)
    × (list_args failed_jobs
        ≡ text "FAILED" ∷ text "NOTIFICATION" ∷ int (pos 50) ∷ int (pos 20) ∷ [])
    × (length (list_args failed_jobs) ≡ 4)
    × (1 ≤ pos_part (clamp_limit (pos 900)))
    × (pos_part (clamp_limit (pos 900)) ≤ 500)
unfolding conditions clamp_limit list_args decimal
list_args-conditions_example = list_args-conditions failed_jobs

-- The lists of columns stand in the texts of the statements, spaces aside.
squeeze_from : ℕ → ℕ → String → String
squeeze_from zero i s = ""
squeeze_from (suc fuel) i s =
    let rest = squeeze_from fuel (i + 1) s in
    let c = slice s i (i + 1) in
    if (c == " ") || (c == "\n") || (c == "\t") then rest else c <> rest

squeeze : String → String
unfolding squeeze_from
squeeze s = squeeze_from (len s) 0 s

columns-insert_job :
    starts_with (squeeze insert_job) ("INSERTINTOjobs(" <> join "," insert_columns <> ")VALUES($1,")
    ≡ true
unfolding squeeze join
columns-insert_job = refl

columns-select_job :
    squeeze select_job ≡ "SELECT" <> join "," select_columns <> "FROMjobsWHEREid=$1"
unfolding squeeze join
columns-select_job = refl

columns-update_job :
    squeeze update_job
    ≡ "UPDATEjobsSETstatus=$2,retry_count=$3,error_message=$4,updated_at=$5,processed_at=$6WHEREid=$1"
unfolding squeeze
columns-update_job = refl

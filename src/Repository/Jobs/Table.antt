-- ===== src/Repository/Jobs/Table.antt =====
-- internal/repository/job_repository.go: what is read of the jobs table after a write.
use mathlib.Core.Option
use ingress_api_gateway.Prelude.{
  ℕ, String, ◌≡◌, refl, Bool, true, false, Option, none, some, List, [], ◌∷◌, ◌++◌, map, arith,
  ◌==◌, eq_iff, inl, inr, Bool-cases, eqb, if◌then◌else◌,
}
use ingress_api_gateway.Domain.Result.{ok}
use ingress_api_gateway.Domain.Job.{Job}
use ingress_api_gateway.Repository.Database.{
  Postgres, Value, text, int, time, null, RowReply, row, no_rows,
}
use ingress_api_gateway.Repository.Sql.{insert_job, update_job, select_job, insert_attempt}
use ingress_api_gateway.Repository.Jobs.{job_values, update_values, scan_job}

-- A row of the table: a value for each column.
abbrev pub Row : Type 0
Row = String → Value

-- The columns that Create, `jobColumns` and Update name, in the order of their texts.
abbrev pub insert_columns : List String
insert_columns =
    "id" ∷ "job_type" ∷ "payload" ∷ "status" ∷ "retry_count" ∷ "max_retries" ∷ "priority"
    ∷ "idempotency_key" ∷ "trace_id" ∷ "error_message" ∷ "created_at" ∷ "updated_at"
    ∷ "processed_at" ∷ []

abbrev pub select_columns : List String
select_columns = insert_columns

abbrev pub update_columns : List String
update_columns = "status" ∷ "retry_count" ∷ "error_message" ∷ "updated_at" ∷ "processed_at" ∷ []

abbrev pub behind_first : List Value → List Value
behind_first [] = []
behind_first (v ∷ vs) = vs

-- The row with the columns set to the values.
abbrev pub assigned : List String → List Value → Row → Row
assigned [] values r k = r k
assigned (c ∷ cs) [] r k = r k
assigned (c ∷ cs) (v ∷ vs) r k = if c == k then v else assigned cs vs r k

abbrev pub empty_row : Row
empty_row k = null

abbrev pub has_id : String → Value → Bool
has_id id (text s) = s == id
has_id id other = false

-- The first row with the id.
unfoldable pub find_row : String → List Row → Option Row
find_row id [] = none
find_row id (r ∷ rest) = if has_id id (r "id") then some r else find_row id rest

unfoldable pub update_rows : String → (Row → Row) → List Row → List Row
update_rows id f [] = []
update_rows id f (r ∷ rest) = (if has_id id (r "id") then f r else r) ∷ update_rows id f rest

abbrev pub project : List String → Row → List Value
project cs r = map r cs

abbrev pub row_reply : Option Row → RowReply
row_reply none = no_rows
row_reply (some r) = row (project select_columns r)

abbrev pub is_absent : Option Row → Bool
is_absent none = true
is_absent (some r) = false

module _ (jsonb : String → String) (instant : ℕ → ℕ) where
  -- What a column gives back of a value: JSONB normalises a text, TIMESTAMPTZ drops what is below a
  -- microsecond.
  abbrev pub column_value : Bool → Value → Value
  column_value is_json (text s) = text (if is_json then jsonb s else s)
  column_value is_json (int n) = int n
  column_value is_json (time t) = time (instant t)
  column_value is_json null = null

  abbrev pub stored : List String → List Value → List Value
  stored [] vs = []
  stored (c ∷ cs) [] = []
  stored (c ∷ cs) (v ∷ vs) = column_value (c == "payload") v ∷ stored cs vs

  abbrev pub inserted_row : Job → Row
  inserted_row j = assigned insert_columns (stored insert_columns (job_values j)) empty_row

  -- The arguments of Update behind the id, in its columns.
  abbrev pub updated_row : Job → Row → Row
  updated_row j = assigned update_columns (stored update_columns (behind_first (update_values j)))

  -- What Postgres documents of the statements on a table with the primary key `id`, at a call
  -- that answers: whatever the arguments, they are set in the columns that the text names.
  pub record IsPostgres {D : Type 0} (pg : Postgres D) (rows : D → List Row) : Type 0 where
    pub inserted :
        (id : String) (values : List Value) (d : D) (n : ℕ)
        → (pg.exec insert_job (text id ∷ values) d).0 ≡ ok n
        → (find_row id (rows d) ≡ none)
          × (rows (pg.exec insert_job (text id ∷ values) d).1
              ≡ rows d
                ++ assigned insert_columns (stored insert_columns (text id ∷ values)) empty_row
                  ∷ [])
    pub updated :
        (id : String) (values : List Value) (d : D) (n : ℕ)
        → (pg.exec update_job (text id ∷ values) d).0 ≡ ok n
        → (rows (pg.exec update_job (text id ∷ values) d).1
            ≡ update_rows id (assigned update_columns (stored update_columns values)) (rows d))
          × (eqb n 0 ≡ is_absent (find_row id (rows d)))
    pub attempted :
        (values : List Value) (d : D) → rows (pg.exec insert_attempt values d).1 ≡ rows d
    pub selected :
        (id : String) (d : D)
        → (pg.query_row select_job (text id ∷ []) d).0 ≡ row_reply (find_row id (rows d))

  -- What Postgres gives back of a job.
  abbrev pub restored : Job → Job
  restored j = record j {
    payload = jsonb j.payload;
    created_at = instant j.created_at;
    updated_at = instant j.updated_at;
    processed_at = Option.map instant j.processed_at;
  }

  -- What Update makes of a stored job: five columns are set, the others stay.
  abbrev pub mutated : Job → Job → Job
  mutated j old = record old {
    status = j.status;
    retry_count = j.retry_count;
    error_message = j.error_message;
    updated_at = instant j.updated_at;
    processed_at = Option.map instant j.processed_at;
  }

  pub scan_job-inserted :
      (j : Job) → scan_job (project select_columns (inserted_row j)) ≡ ok (restored j)
  unfolding scan_job
  scan_job-inserted j = ground arith

  pub scan_job-updated :
      (j old : Job) (r : Row)
      → scan_job (project select_columns r) ≡ ok old
      → scan_job (project select_columns (updated_row j r)) ≡ ok (mutated j old)
  unfolding scan_job
  scan_job-updated j old r h = ground arith

pub find_row-append :
    (id : String) (rows : List Row) (r : Row)
    → find_row id rows ≡ none
    → find_row id (rows ++ r ∷ []) ≡ (if has_id id (r "id") then some r else none)
unfolding find_row
find_row-append id [] r h = refl
find_row-append id (x ∷ rows) r h = ground (arith, find_row-append id rows r)

pub find_row-append_other :
    (id : String) (rows : List Row) (r : Row)
    → has_id id (r "id") ≡ false
    → find_row id (rows ++ r ∷ []) ≡ find_row id rows
unfolding find_row
find_row-append_other id [] r h = rw h
find_row-append_other id (x ∷ rows) r h = rw (find_row-append_other id rows r h) refl

has_id_other :
    (id key : String) (v : Value) → (id == key) ≡ false → has_id id v ≡ true → has_id key v ≡ false
has_id_other id key (text s) ne h = ground (arith, eq_iff s id, eq_iff s key, eq_iff id key)
has_id_other id key (int n) ne h = ground arith
has_id_other id key (time t) ne h = ground arith
has_id_other id key null ne h = ground arith

module _ (f : Row → Row) (keeps : (r : Row) → f r "id" ≡ r "id") where
  pub find_row-update_rows :
      (id : String) (rows : List Row)
      → find_row id (update_rows id f rows) ≡ Option.map f (find_row id rows)
  unfolding find_row update_rows
  find_row-update_rows id [] = refl
  find_row-update_rows id (r ∷ rows) = elim (Bool-cases (has_id id (r "id"))) [
    | inl p ↦ rw p (rw (keeps r) (rw p refl))
    | inr n ↦ rw n (rw n (find_row-update_rows id rows))
  ]

  pub find_row-update_rows_other :
      (id key : String) (rows : List Row)
      → (id == key) ≡ false
      → find_row key (update_rows id f rows) ≡ find_row key rows
  unfolding find_row update_rows
  find_row-update_rows_other id key [] ne = refl
  find_row-update_rows_other id key (r ∷ rows) ne = elim (Bool-cases (has_id id (r "id"))) [
    | inl p ↦
        let other = has_id_other id key (r "id") ne p in
        rw p (rw (keeps r) (rw other (find_row-update_rows_other id key rows ne)))
    | inr n ↦ rw n (rw (find_row-update_rows_other id key rows ne) refl)
  ]

-- ===== src/Repository/Jobs/Contract.antt =====
-- internal/repository/job_repository.go is a table of jobs.
use ingress_api_gateway.Prelude.{ℕ, String, ◌≡◌, refl, ap, sym, ◌∙◌, List, inl, inr}
use ingress_api_gateway.Domain.Result.{Result-cases}
use ingress_api_gateway.Domain.Job.{JobAttempt}
use ingress_api_gateway.Domain.Laws.{IsJobTable}
use ingress_api_gateway.Repository.Database.{Postgres, Value}
use ingress_api_gateway.Repository.Sql.{insert_attempt}
use ingress_api_gateway.Repository.Events.{exec_only}
use ingress_api_gateway.Repository.Jobs.{get_by_id, add_attempt, attempt_values, postgres_jobs}
use ingress_api_gateway.Repository.Jobs.Table.{Row, IsPostgres, find_row, restored, mutated}
use ingress_api_gateway.Repository.Jobs.RoundTrip.{
  read, get_by_id-read, get_by_id-create, get_by_id-update,
}

exec_only_state :
    {D : Type 0} (pg : Postgres D) (step sql : String) (args : List Value) (d : D)
    → (exec_only pg step sql args d).1 ≡ (pg.exec sql args d).1
exec_only_state pg step sql args d = elim (Result-cases (pg.exec sql args d).0) [
  | inl (n, p) ↦ rw p refl
  | inr (e, p) ↦ rw p refl
]

module _ {D : Type 0} (pg : Postgres D) (jsonb : String → String) (instant : ℕ → ℕ)
    (rows : D → List Row) (is_postgres : IsPostgres jsonb instant pg rows) where
  get_by_id-add_attempt :
      (id : String) (a : JobAttempt) (d : D)
      → (get_by_id pg id (add_attempt pg a d).1).0 ≡ (get_by_id pg id d).0
  unfolding add_attempt
  get_by_id-add_attempt id a d =
      get_by_id-read jsonb instant pg rows is_postgres id (add_attempt pg a d).1
      ∙ ap (λ rs. read (find_row id rs))
          (ap rows (exec_only_state pg "insert job attempt: " insert_attempt (attempt_values a) d)
            ∙ is_postgres.attempted (attempt_values a) d)
      ∙ sym (get_by_id-read jsonb instant pg rows is_postgres id d)

  -- The store in Postgres is a table of jobs: it keeps a new job but for what JSONB and TIMESTAMPTZ
  -- normalise, and an Update sets five columns.
  pub postgres_jobs-IsJobTable :
      IsJobTable (postgres_jobs pg) (restored jsonb instant) (mutated jsonb instant)
  postgres_jobs-IsJobTable = record {
    created = get_by_id-create jsonb instant pg rows is_postgres;
    updated = get_by_id-update jsonb instant pg rows is_postgres;
    attempted = get_by_id-add_attempt;
    merged_twice = λ j k old. refl;
  }

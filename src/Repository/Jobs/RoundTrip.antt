-- ===== src/Repository/Jobs/RoundTrip.antt =====
-- internal/repository/job_repository.go: what GetByID reads after Create and Update.
use mathlib.Core.Option
use ingress_api_gateway.Prelude.{
  ℕ, String, ◌≡◌, refl, ap, ◌∙◌, sym, true, false, Option, none, some, List, [], ◌∷◌, ◌++◌, arith,
  ◌==◌, eq_iff, eq_refl, inl, inr, Bool-cases, if◌then◌else◌,
}
use ingress_api_gateway.Domain.Error.{sentinel, err_not_found}
use ingress_api_gateway.Domain.Result.{Result, ok, err, Result-cases}
use ingress_api_gateway.Domain.Job.{Job}
use ingress_api_gateway.Repository.Database.{Postgres, Value}
use ingress_api_gateway.Repository.Sql.{insert_job, update_job}
use ingress_api_gateway.Repository.Events.{exec_only}
use ingress_api_gateway.Repository.Jobs.{
  job_values, update_values, scan_job, create, update, get_by_id, got_job, named_get_job, affected,
}
use ingress_api_gateway.Repository.Jobs.Table.{
  behind_first, Row, IsPostgres, find_row, update_rows, row_reply, inserted_row, updated_row,
  restored, mutated, project, select_columns, is_absent, find_row-append, find_row-append_other,
  find_row-update_rows, find_row-update_rows_other, scan_job-inserted, scan_job-updated,
}

abbrev pub read : Option Row → Result Job
read r = got_job (row_reply r)

exec_only_ok :
    {D : Type 0} (pg : Postgres D) (step sql : String) (args : List Value) (d : D)
    → (exec_only pg step sql args d).0 ≡ ok tt
    → ((n : ℕ) × ((pg.exec sql args d).0 ≡ ok n))
      × ((exec_only pg step sql args d).1 ≡ (pg.exec sql args d).1)
exec_only_ok pg step sql args d done = elim (Result-cases (pg.exec sql args d).0) [
  | inl (n, p) ↦ ((n, p), rw p refl)
  | inr (e, p) ↦ ground arith
]

affected_ok : (r : Result ℕ) → affected r ≡ ok tt → (n : ℕ) × (r ≡ ok n)
affected_ok (ok n) done = (n, refl)
affected_ok (err e) done = ground arith

same_id : (id key : String) → (id == key) ≡ true → id ≡ key
same_id id key p = (eq_iff id key).0 p

other_id : (id key : String) → (id == key) ≡ false → (key == id) ≡ false
other_id id key n = grind (arith, eq_iff id key, eq_iff key id)

got_job_ok : (r : Result Job) (j : Job) → named_get_job r ≡ ok j → r ≡ ok j
got_job_ok (ok i) j h = h
got_job_ok (err e) j h = ground arith

read-absent : (r : Option Row) → read r ≡ err (sentinel err_not_found) → r ≡ none
read-absent none h = refl
read-absent (some r) h = elim (Result-cases (scan_job (project select_columns r))) [
  | inl (j, p) ↦ ground arith
  | inr (e, p) ↦ ground arith
]

update_rows_absent :
    (f : Row → Row) (id : String) (before : List Row)
    → find_row id before ≡ none
    → update_rows id f before ≡ before
unfolding find_row update_rows
update_rows_absent f id [] h = refl
update_rows_absent f id (r ∷ before) h = ground (arith, update_rows_absent f id before)

module _ (jsonb : String → String) (instant : ℕ → ℕ) where
  read-inserted_same :
      (j : Job) (before : List Row)
      → find_row j.id before ≡ none
      → read (find_row j.id (before ++ inserted_row jsonb instant j ∷ []))
        ≡ ok (restored jsonb instant j)
  read-inserted_same j before fresh =
      rw (find_row-append j.id before (inserted_row jsonb instant j) fresh)
        (rw (eq_refl j.id) (ap named_get_job (scan_job-inserted jsonb instant j)))

  read-inserted :
      (j : Job) (id : String) (before : List Row)
      → find_row j.id before ≡ none
      → read (find_row id (before ++ inserted_row jsonb instant j ∷ []))
        ≡ (if id == j.id then ok (restored jsonb instant j) else read (find_row id before))
  read-inserted j id before fresh = elim (Bool-cases (id == j.id)) [
    | inl p ↦ rw p (rw (same_id id j.id p) (read-inserted_same j before fresh))
    | inr n ↦
        let other = other_id id j.id n in
        rw n (ap read (find_row-append_other id before (inserted_row jsonb instant j) other))
  ]

  read-map :
      (j old : Job) (r : Option Row)
      → read r ≡ ok old
      → read (Option.map (updated_row jsonb instant j) r) ≡ ok (mutated jsonb instant j old)
  read-map j old none found = ground arith
  read-map j old (some r) found = ap named_get_job (
      scan_job-updated jsonb instant j old r
        (got_job_ok (scan_job (project select_columns r)) old found))

  read-updated :
      (j old : Job) (id : String) (before : List Row)
      → read (find_row j.id before) ≡ ok old
      → read (find_row id (update_rows j.id (updated_row jsonb instant j) before))
        ≡ (if id == j.id then ok (mutated jsonb instant j old) else read (find_row id before))
  read-updated j old id before found = elim (Bool-cases (id == j.id)) [
    | inl p ↦ rw p (
        rw (same_id id j.id p) (
          rw (find_row-update_rows (updated_row jsonb instant j) (λ r. refl) j.id before)
            (read-map j old (find_row j.id before) found)))
    | inr n ↦
        let other = other_id id j.id n in
        rw n (
          ap read (
            find_row-update_rows_other (updated_row jsonb instant j) (λ r. refl) j.id id before
              other))
  ]

  module _ {D : Type 0} (pg : Postgres D) (rows : D → List Row)
      (server : IsPostgres jsonb instant pg rows) where
    pub get_by_id-read : (id : String) (d : D) → (get_by_id pg id d).0 ≡ read (find_row id (rows d))
    unfolding get_by_id
    get_by_id-read id d = ap got_job (server.selected id d)

    -- On a Postgres as documented, after a Create that answers ok: GetByID reads the job back as
    -- given, but for its payload as JSONB keeps it and its times as the columns keep them. What
    -- GetByID answers for another id is as before.
    pub get_by_id-create :
        (j : Job) (id : String) (d : D)
        → (create pg j d).0 ≡ ok tt
        → (get_by_id pg id (create pg j d).1).0
          ≡ (if id == j.id then ok (restored jsonb instant j) else (get_by_id pg id d).0)
    unfolding create
    get_by_id-create j id d done =
        let ((n, answered), moved) =
          exec_only_ok pg "insert job: " insert_job (job_values j) d done in
        let (fresh, grown) = server.inserted j.id (behind_first (job_values j)) d n answered in
        get_by_id-read id (create pg j d).1
        ∙ ap (λ rs. read (find_row id rs)) (ap rows moved ∙ grown)
        ∙ rw (get_by_id-read id d) (read-inserted j id (rows d) fresh)

    -- On a Postgres as documented, after an Update that answers ok of a job that GetByID found:
    -- GetByID reads the status, the retry count, the error message and the two times of the new job,
    -- the times as the columns keep them, and everything else of the one found. What it answers for
    -- another id is as before.
    pub get_by_id-update :
        (j old : Job) (id : String) (d : D)
        → (get_by_id pg j.id d).0 ≡ ok old
        → (update pg j d).0 ≡ ok tt
        → (get_by_id pg id (update pg j d).1).0
          ≡ (if id == j.id then ok (mutated jsonb instant j old) else (get_by_id pg id d).0)
    unfolding update
    get_by_id-update j old id d found done =
        let (n, answered) = affected_ok (pg.exec update_job (update_values j) d).0 done in
        let (changed, _) = server.updated j.id (behind_first (update_values j)) d n answered in
        get_by_id-read id (update pg j d).1
        ∙ ap (λ rs. read (find_row id rs)) changed
        ∙ rw (get_by_id-read id d)
            (read-updated j old id (rows d) (sym (get_by_id-read j.id d) ∙ found))

    -- On a Postgres as documented: an Update of a job that GetByID does not find, which the server
    -- answers, fails with ErrNotFound and changes no answer of GetByID.
    pub update-get_by_id_absent :
        (j : Job) (id : String) (d : D) (n : ℕ)
        → (get_by_id pg j.id d).0 ≡ err (sentinel err_not_found)
        → (pg.exec update_job (update_values j) d).0 ≡ ok n
        → ((update pg j d).0 ≡ err (sentinel err_not_found))
          × ((get_by_id pg id (update pg j d).1).0 ≡ (get_by_id pg id d).0)
    unfolding update
    update-get_by_id_absent j id d n absent answered =
        let none_there =
          read-absent (find_row j.id (rows d)) (sym (get_by_id-read j.id d) ∙ absent) in
        let (changed, count) = server.updated j.id (behind_first (update_values j)) d n answered in
        (
          ap affected answered ∙ rw (count ∙ ap is_absent none_there) refl,
          get_by_id-read id (update pg j d).1
              ∙ ap (λ rs. read (find_row id rs))
                  (changed
                    ∙ update_rows_absent (updated_row jsonb instant j) j.id (rows d) none_there)
              ∙ sym (get_by_id-read id d),
        )

-- ===== src/Repository/Query.antt =====
-- internal/repository/job_repository.go: the text and the arguments of the query of List.
use ingress_api_gateway.Prelude.{
  decimal, join, ℕ, ◌+◌, String, ◌||◌, not, List, [], ◌∷◌, ◌++◌, ◌<>◌, ◌==◌, if◌then◌else◌,
}
use ingress_api_gateway.Prelude.Int.{ℤ, pos, is_positive, ltb_ℤ}
use ingress_api_gateway.Domain.Job.{JobFilter}
use ingress_api_gateway.Repository.Database.{Value, text, int}
use ingress_api_gateway.Repository.Sql.{job_columns}

-- What a query is built from: the conditions, the arguments and the next placeholder.
pub record Builder : Type 0 where
  pub conds : List String
  pub args : List Value
  pub i : ℕ

unfoldable pub add_condition : String → String → Builder → Builder
add_condition column value b =
    if not (value == "")
    then record {
      conds = b.conds ++ (column <> "=$" <> decimal b.i) ∷ [];
      args = b.args ++ text value ∷ [];
      i = b.i + 1;
    }
    else b

abbrev pub where_clause : List String → String
where_clause [] = ""
where_clause (c ∷ cs) = " WHERE " <> join " AND " (c ∷ cs)

-- A limit that is not positive, or above 500, is 50.
unfoldable pub clamp_limit : ℤ → ℤ
clamp_limit limit = if not (is_positive limit) || ltb_ℤ (pos 500) limit then pos 50 else limit

-- The conditions of List.
unfoldable pub conditions : JobFilter → Builder
unfolding add_condition
conditions f =
    add_condition "job_type" f.job_type
      (add_condition "status" f.status (record { conds = []; args = []; i = 1 }))

abbrev pub list_text : Builder → String
list_text b =
    "SELECT "
    <> job_columns
    <> " FROM jobs"
    <> where_clause b.conds
    <> " ORDER BY created_at DESC LIMIT $"
    <> decimal b.i
    <> " OFFSET $"
    <> decimal (b.i + 1)

unfoldable pub list_args : JobFilter → List Value
unfolding conditions clamp_limit
list_args f = (conditions f).args ++ int (clamp_limit f.limit) ∷ int f.offset ∷ []

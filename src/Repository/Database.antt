-- ===== src/Repository/Database.antt =====
-- What internal/repository calls of pgx: values, rows and the three ways to run a statement.
use ingress_api_gateway.Prelude.{ℕ, String, Option, none, some, List}
use ingress_api_gateway.Prelude.Int.{ℤ}
use ingress_api_gateway.Domain.Error.{Error, foreign}
use ingress_api_gateway.Domain.Result.{Result, ok, err, Act}

-- An argument of a statement, or a column of a row.
pub data Value : Type 0 where
  text : String → Value
  int : ℤ → Value
  time : ℕ → Value
  null : Value

-- `QueryRow` and its scan: a row, pgx.ErrNoRows, or another error.
pub data RowReply : Type 0 where
  row : List Value → RowReply
  no_rows : RowReply
  failed : Error → RowReply

-- `Query`: the rows that `Next` gives, and what `Err` says after the last.
pub record Rows : Type 0 where
  pub all : List (List Value)
  pub ended : Option Error

-- `exec` answers the number of the affected rows.
pub record Postgres (D : Type 0) : Type 0 where
  pub exec : String → List Value → Act D ℕ
  pub query_row : String → List Value → D → RowReply × D
  pub query : String → List Value → Act D Rows
  pub ping : Act D Unit

-- A nil time is NULL.
abbrev pub optional_time : Option ℕ → Value
optional_time none = null
optional_time (some t) = time t

-- The error of `Scan` for a column of another type; its text is pgx's and is left out.
abbrev pub scan_error : Error
scan_error = foreign "can't scan into dest"

abbrev pub scan_text : Value → Result String
scan_text (text s) = ok s
scan_text other = err scan_error

abbrev pub scan_int : Value → Result ℤ
scan_int (int n) = ok n
scan_int other = err scan_error

abbrev pub scan_time : Value → Result ℕ
scan_time (time t) = ok t
scan_time other = err scan_error

abbrev pub scan_optional_time : Value → Result (Option ℕ)
scan_optional_time (time t) = ok (some t)
scan_optional_time null = ok none
scan_optional_time other = err scan_error

-- One column after the other: the first that fails ends the scan.
infixl 5 ◌>>=◌
abbrev pub ◌>>=◌ : {A B : Type 0} → Result A → (A → Result B) → Result B
ok a >>= f = f a
err e >>= f = err e

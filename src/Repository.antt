-- ===== src/Repository.antt =====
-- internal/repository: the store on Postgres. The driver (pgx) is a parameter: a function from the
-- text of a statement and its arguments to an answer and a database.
pub mod Database
pub mod Sql
pub mod Query
pub mod Jobs
pub mod Events
pub mod Connect

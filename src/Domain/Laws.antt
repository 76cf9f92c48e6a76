-- ===== src/Domain/Laws.antt =====
-- What the code relies on from the adapters behind the ports, as laws over an abstract view of
-- their state.
use ingress_api_gateway.Prelude.{
  ℕ, ◌<◌, String, ◌≡◌, Bool, true, false, Option, none, some, ◌==◌, if◌then◌else◌,
}
use ingress_api_gateway.Prelude.Int.{ℤ}
use ingress_api_gateway.Domain.Result.{ok}
use ingress_api_gateway.Domain.Job.{Job, JobAttempt}
use ingress_api_gateway.Domain.Ports.{Cache, JobRepository, Env}

abbrev pub is_none : Option String → Bool
is_none none = true
is_none (some v) = false

abbrev pub some_or : Option String → String → Option String
some_or none v = some v
some_or (some u) v = some u

-- A Redis server that answers, and on which no key runs out between the calls: SETNX, GET, SET and
-- DEL as Redis documents them. `view` is what the server holds.
pub record IsReliable {C : Type 0} (cache : Cache C) (view : C → String → Option String)
    : Type 0 where
  pub set_nx_reply :
      (k v : String) (t : ℤ) (c : C) → (cache.set_nx k v t c).0 ≡ ok (is_none (view c k))
  pub set_nx_view :
      (k v : String) (t : ℤ) (c : C) (j : String)
      → view (cache.set_nx k v t c).1 j ≡ (if k == j then some_or (view c k) v else view c j)
  pub get_reply : (k : String) (c : C) → (cache.get k c).0 ≡ ok (view c k)
  pub get_view : (k : String) (c : C) (j : String) → view (cache.get k c).1 j ≡ view c j
  pub set_view :
      (k v : String) (t : ℤ) (c : C) (j : String)
      → view (cache.set k v t c).1 j ≡ (if k == j then some v else view c j)
  pub incr_view :
      (k : String) (c : C) (j : String) → (k == j) ≡ false → view (cache.incr k c).1 j ≡ view c j
  pub del_view :
      (k : String) (c : C) (j : String)
      → view (cache.del k c).1 j ≡ (if k == j then none else view c j)

-- `GetByID` returns a job of the id that was asked for.
abbrev pub FindsById : {S : Type 0} → JobRepository S → Type 0
FindsById {S} jobs =
    (id : String) (s : S) (job : Job) → (jobs.get_by_id id s).0 ≡ ok job → job.id ≡ id

-- `rand.Int63n(n)` lies in [0, n).
abbrev pub DrawsBelow : {E : Type 0} → Env E → Type 0
DrawsBelow {E} env = (n : ℕ) (e : E) → 0 < n → (env.int63n n e).0 < n

-- What the services rely on of a table of jobs: GetByID reads what Create and Update have written, and an
-- attempt is recorded elsewhere. `kept` is what the table gives back of a new job, `merged j old` what it
-- makes of a stored one by an Update with j.
pub record IsJobTable {S : Type 0} (jobs : JobRepository S) (kept : Job → Job)
    (merged : Job → Job → Job) : Type 0 where
  pub created :
      (j : Job) (id : String) (s : S)
      → (jobs.create j s).0 ≡ ok tt
      → (jobs.get_by_id id (jobs.create j s).1).0
        ≡ (if id == j.id then ok (kept j) else (jobs.get_by_id id s).0)
  pub updated :
      (j old : Job) (id : String) (s : S)
      → (jobs.get_by_id j.id s).0 ≡ ok old
      → (jobs.update j s).0 ≡ ok tt
      → (jobs.get_by_id id (jobs.update j s).1).0
        ≡ (if id == j.id then ok (merged j old) else (jobs.get_by_id id s).0)
  pub attempted :
      (id : String) (a : JobAttempt) (s : S)
      → (jobs.get_by_id id (jobs.add_attempt a s).1).0 ≡ (jobs.get_by_id id s).0
  pub merged_twice : (j k old : Job) → merged j (merged k old) ≡ merged j old

-- ===== src/Config/DotEnv.antt =====
-- internal/config/config.go: the .env file gives way to the environment.
use ingress_api_gateway.Prelude.{
  String, ◌≡◌, false, Option, none, some, List, [], ◌∷◌, arith, ◌==◌, eq_iff,
}
use ingress_api_gateway.Config.{Environ, load_line, load_lines, load_dot_env}

-- `os.Setenv` changes no other variable.
abbrev pub SetsOne : {V : Type 0} → Environ V → Type 0
SetsOne {V} os =
    (key val other : String) (v : V)
    → (key == other) ≡ false
    → os.lookup other (os.setenv key val v) ≡ os.lookup other v

module _ {V : Type 0} (os : Environ V) (sets_one : SetsOne os) where
  lookup-load_line :
      (key val line : String) (v : V)
      → os.lookup key v ≡ some val
      → os.lookup key (load_line os line v) ≡ some val
  unfolding load_line
  lookup-load_line key val line v h = grind (arith, sets_one, eq_iff)

  lookup-load_lines :
      (key val : String) (lines : List String) (v : V)
      → os.lookup key v ≡ some val
      → os.lookup key (load_lines os lines v) ≡ some val
  lookup-load_lines key val [] v h = h
  lookup-load_lines key val (line ∷ rest) v h =
      lookup-load_lines key val rest (load_line os line v) (lookup-load_line key val line v h)

  -- If setting a variable changes no other: a variable that is set keeps its value, whatever the .env
  -- file holds.
  pub lookup-load_dot_env :
      (key val : String) (file : Option (List String)) (v : V)
      → os.lookup key v ≡ some val
      → os.lookup key (load_dot_env os file v) ≡ some val
  unfolding load_dot_env
  lookup-load_dot_env key val none v h = h
  lookup-load_dot_env key val (some lines) v h = lookup-load_lines key val lines v h

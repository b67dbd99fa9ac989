-- ===== src/Config/Dotenv.antt =====
-- LoadEnv: what the process environment holds wins over every file, and an earlier file over a
-- later one.
use ginblade.Prelude.{◌≡◌, refl, String, Option, none, some, List, [], ◌∷◌, ◌++◌, sym, ◌∙◌, ap}
use ginblade.Errors.{or_else}
use ginblade.Config.{Env, load_files, load_env}

-- godotenv.Load on one file, as documented: a variable that is set already is not overridden, and
-- another takes the file's value; a file that cannot be read changes nothing (`file` gives none).
pub record LoadsFile (file : String → String → Option String) (load_file : String → Env → Env)
    : Type 0 where
  pub loads :
      (path : String) (env : Env) (key : String)
      → load_file path env key ≡ or_else (env key) (file path key)

-- The value in the first of the files that sets the variable.
abbrev pub first_value : (String → String → Option String) → List String → String → Option String
first_value file [] key = none
first_value file (path ∷ paths) key = or_else (file path key) (first_value file paths key)

or_else_assoc {ℓ} :
    {A : Type ℓ} (a b c : Option A) → or_else (or_else a b) c ≡ or_else a (or_else b c)
or_else_assoc none b c = refl
or_else_assoc (some a) b c = refl

or_else-none {ℓ} : {A : Type ℓ} (a : Option A) → or_else a none ≡ a
or_else-none none = refl
or_else-none (some a) = refl

load_files_lem :
    (file : String → String → Option String) (load_file : String → Env → Env) (paths : List String)
    (env : Env) (key : String)
    → LoadsFile file load_file
    → load_files load_file paths env key ≡ or_else (env key) (first_value file paths key)
unfolding load_files
load_files_lem file load_file [] env key h = sym (or_else-none (env key))
load_files_lem file load_file (path ∷ paths) env key h =
    load_files_lem file load_file paths (load_file path env) key h
    ∙ ap (λ v. or_else v (first_value file paths key)) (h.loads path env key)
    ∙ or_else_assoc (env key) (file path key) _

-- After LoadEnv a variable has the value that the process was started with, if it was set, and else
-- the value of the first file that sets it, the given paths in order and ".env" last.
pub load_env_lem :
    (file : String → String → Option String) (load_file : String → Env → Env) (paths : List String)
    (env : Env) (key : String)
    → LoadsFile file load_file
    → load_env load_file paths env key
      ≡ or_else (env key) (first_value file (paths ++ ".env" ∷ []) key)
unfolding load_env
load_env_lem file load_file paths env key h = load_files_lem file load_file _ env key h

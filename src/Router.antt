-- ===== src/Router.antt =====
-- internal/router/router.go: which routes are registered. gin's router is a table that is looked
-- up by method and path; all the paths are static.
pub mod Table
use ginblade.Prelude.{
  String, Bool, true, false, ◌&&◌, Option, none, some, List, [], ◌∷◌, ◌++◌, str_eq, if◌then◌else◌,
}
use ginblade.Handler.{AuthHandler}

-- What a route runs.
pub data Endpoint : Type 0 where
  check_health create_token show_me list_examples create_example enqueue_task : Endpoint

-- A registered route; `guarded` says that AuthRequired runs before the handler.
pub record Route : Type 0 where
  pub method : String
  pub path : String
  pub guarded : Bool
  pub endpoint : Endpoint

-- Dependencies, through the tests for nil that the registration makes.
pub record Dependencies : Type 0 where
  pub auth : Bool
  pub auth_required : Bool
  pub example : Bool

abbrev route : String → String → Bool → Endpoint → Route
route method path guarded endpoint = record {
  method = method;
  path = path;
  guarded = guarded;
  endpoint = endpoint;
}

-- registerAuthRoutes, under the group "/api/v1"
unfoldable pub register_auth_routes : Dependencies → List Route
register_auth_routes deps =
    if deps.auth
    then route "POST" "/api/v1/auth/token" false create_token
      ∷ (if deps.auth_required then route "GET" "/api/v1/auth/me" true show_me ∷ [] else [])
    else []

-- registerExampleRoutes
unfoldable pub register_example_routes : Dependencies → List Route
register_example_routes deps =
    if deps.example
    then route "GET" "/api/v1/examples" false list_examples
      ∷ route "POST" "/api/v1/examples" false create_example
      ∷ route "POST" "/api/v1/examples/tasks" false enqueue_task
      ∷ []
    else []

-- RegisterRoutes
unfoldable pub register_routes : Dependencies → List Route
unfolding register_auth_routes register_example_routes
register_routes deps = register_auth_routes deps ++ register_example_routes deps

-- gin's lookup
unfoldable pub find_route : String → String → List Route → Option Route
find_route method path [] = none
find_route method path (r ∷ rs) =
    let rest = find_route method path rs in
    if str_eq r.method method && str_eq r.path path then some r else rest

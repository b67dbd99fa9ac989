-- ===== src/Router/Table.antt =====
-- The route table, for every set of dependencies.
use mathlib.Core.Option.{some_inj}
use ginblade.Prelude.{
  [], ◌&&◌, sym, ◌≡◌, refl, ◌≢◌, ◌⊎◌, inl, inr, true, false, All, Bool, All-append, String, str_eq,
  List, some, ◌∷◌, arith, eq_iff, Bool-cases,
}
use ginblade.Router.{
  Route, Dependencies, show_me, register_routes, register_auth_routes, register_example_routes,
  find_route,
}

-- A route that answers as the authenticated subject is guarded, and is there only if both the
-- handler and the middleware are configured; no other route is guarded.
abbrev pub IsSound : Dependencies → Route → Type 0
IsSound deps r =
    ((r.guarded ≡ true) × (r.endpoint ≡ show_me) × (deps.auth ≡ true) × (deps.auth_required ≡ true))
    ⊎ ((r.guarded ≡ false) × (r.endpoint ≢ show_me))

abbrev dependencies : Bool → Bool → Bool → Dependencies
dependencies a r e = record { auth = a; auth_required = r; example = e }

register_auth_routes-IsSound :
    (a r e : Bool) → All (IsSound (dependencies a r e)) (register_auth_routes (dependencies a r e))
unfolding register_auth_routes
register_auth_routes-IsSound false r e = tt
register_auth_routes-IsSound true false e = (inr (refl, λ h. cc), tt)
register_auth_routes-IsSound true true e = (inr (refl, λ h. cc), (inl (refl, refl, refl, refl), tt))

register_example_routes-IsSound :
    (a r e : Bool)
    → All (IsSound (dependencies a r e)) (register_example_routes (dependencies a r e))
unfolding register_example_routes
register_example_routes-IsSound a r false = tt
register_example_routes-IsSound a r true =
    (inr (refl, λ h. cc), (inr (refl, λ h. cc), (inr (refl, λ h. cc), tt)))

-- Every route that is registered is sound, for every set of dependencies: the handler of the
-- authenticated subject is behind AuthRequired, which needs both the authentication handler and the
-- middleware; no other route is guarded.
pub register_routes-IsSound : (deps : Dependencies) → All (IsSound deps) (register_routes deps)
unfolding register_routes
register_routes-IsSound deps =
    All-append (IsSound deps) (register_auth_routes deps) (register_example_routes deps)
      (register_auth_routes-IsSound deps.auth deps.auth_required deps.example)
      (register_example_routes-IsSound deps.auth deps.auth_required deps.example)

tested : (a b c d : String) → (str_eq a b && str_eq c d) ≡ true → (a ≡ b) × (c ≡ d)
tested a b c d h = ground (arith, eq_iff a b, eq_iff c d)

module _ (P : Route → Type 0) (method path : String) where
  -- What is known of a route that was found.
  abbrev pub IsFound : Route → Type 0
  IsFound r = P r × (r.method ≡ method) × (r.path ≡ path)

  tested-IsFound :
      (x r : Route)
      → P x
      → (str_eq x.method method && str_eq x.path path) ≡ true
      → x ≡ r
      → IsFound r
  tested-IsFound x r p h e = rw (sym e) (p, (tested _ _ _ _ h).0, (tested _ _ _ _ h).1)

  -- The route that is found is one of the table, and has the method and the path.
  pub find_route-IsFound :
      (rs : List Route) → All P rs → (r : Route) → find_route method path rs ≡ some r → IsFound r
  unfolding find_route
  find_route-IsFound [] h r e = cc
  find_route-IsFound (x ∷ rs) (p, ps) r e =
      elim (Bool-cases (str_eq x.method method && str_eq x.path path)) [
        | inl hit ↦ tested-IsFound x r p hit (some_inj.0 (rw hit at e))
        | inr miss ↦ find_route-IsFound rs ps r (rw miss at e)
      ]

-- ===== src/Examples/Security.antt =====
-- Tokens, BearerAuth, CORS, and the rate limiter, at concrete requests.
use ginblade.Prelude.Text.{has_prefix, to_lower}
use ginblade.Middleware.RateLimit.{
  allow, minute, IpRateLimiter, new_ip_rate_limiter_per_minute, tick, Visitor, cleanup_in_order,
}
use ginblade.Prelude.{
  has_prefix, to_lower, drop_ascii, ◌*◌, ◌/◌, ◌≤◌, ◌≡◌, refl, ◌⊎◌, String, true, false, none, some,
  List, [], ◌∷◌, is_empty, trim_space, arith, ◌↔◌, ◌+◌, str_eq, if◌then◌else◌, ◌-◌,
}
use ginblade.Prelude.Int.{pos}
use ginblade.Errors.{ok}
use ginblade.Auth.{
  JwtManager, generate_token, parse_token, parser_options, normalize_bearer_token, claims_for,
}
use ginblade.Auth.RoundTrip.{parse_token-generate_token, parse_token_sound}
use ginblade.Http.{Gin, set_key}
use ginblade.Middleware.{bearer_auth, cors_headers, auth_subject_key}
use ginblade.Middleware.Auth.{
  IsAdmitted, IsRefused, bearer_auth_verdict, bearer_auth-generate_token,
}
use ginblade.Middleware.Cors.{HeaderVerdict, cors_headers_verdict}
use ginblade.Middleware.RateLimit.Refinement.{
  Event, ask, sweep, decisions, bucket_decisions, decisions-eq-bucket_decisions,
}
use ginblade.Middleware.RateLimit.Sweep.{VisitsAll, cleanup_in_order_verdict}
use ginblade.Examples.Tokens.{toy_jwt, toy_jwt-JwtLaws, alice}
use ginblade.Examples.Buckets.{toy_limiters, toy_limiters-LimiterLaws, full_bucket}
use ginblade.Examples.Requests.{request, teapot}

abbrev manager : JwtManager
manager = record { secret = "secret"; issuer = "ginblade"; ttl = pos 3600000000000 }

alice_token : generate_token toy_jwt manager 5 " alice " ≡ ok "alice.signed"
unfolding generate_token trim_space
alice_token = refl

alice_accepted : parse_token toy_jwt manager 9 "bearer alice.signed" ≡ ok alice
unfolding parse_token normalize_bearer_token trim_space has_prefix to_lower drop_ascii
alice_accepted = refl

parse_token-generate_token_example :
    parse_token toy_jwt manager 9 "Bearer alice.signed"
    ≡ ok (claims_for toy_jwt manager 5 (trim_space " alice "))
unfolding claims_for
parse_token-generate_token_example =
    parse_token-generate_token toy_jwt manager 5 9 " alice " "alice.signed" toy_jwt-JwtLaws
      alice_token (omega arith) (omega arith)

parse_token_sound_example :
    (is_empty (trim_space alice.subject) ≡ false)
    × (toy_jwt.parse_with_claims
          (parser_options manager 9)
          (normalize_bearer_token "bearer alice.signed")
          manager.secret
        ≡ ok (alice, true))
    × ((is_empty manager.issuer ≡ true) ⊎ (alice.issuer ≡ manager.issuer))
parse_token_sound_example =
    parse_token_sound toy_jwt manager 9 "bearer alice.signed" alice toy_jwt-JwtLaws alice_accepted

abbrev me_request : Gin
me_request = request "GET" "/api/v1/auth/me" "Authorization" "Bearer alice.signed"

bearer_auth_verdict_example :
    IsAdmitted toy_jwt 9 teapot me_request tt
      (some manager)
      (bearer_auth toy_jwt (some manager) 9 teapot me_request tt)
    ⊎ IsRefused toy_jwt 9 teapot me_request tt
        (some manager)
        (bearer_auth toy_jwt (some manager) 9 teapot me_request tt)
bearer_auth_verdict_example =
    bearer_auth_verdict toy_jwt 9 teapot me_request tt (some manager) toy_jwt-JwtLaws

bearer_auth-generate_token_example :
    bearer_auth toy_jwt (some manager) 9 teapot me_request tt
    ≡ teapot (set_key auth_subject_key (trim_space " alice ") me_request) tt
unfolding claims_for
bearer_auth-generate_token_example =
    bearer_auth-generate_token toy_jwt 9 teapot me_request tt manager 5 " alice " "alice.signed"
      toy_jwt-JwtLaws alice_token (omega arith) (omega arith) refl

abbrev origins : List String
origins = " https://a.example " ∷ "" ∷ []

abbrev preflight : Gin
preflight = request "OPTIONS" "/health" "Origin" "https://a.example"

cors_headers_verdict_example : HeaderVerdict origins preflight (cors_headers origins preflight)
cors_headers_verdict_example = cors_headers_verdict origins preflight

-- Two requests a minute: one client uses up its burst, another is served, and the first one's
-- visitor is forgotten before it comes back.
abbrev limiter : IpRateLimiter toy_limiters
limiter = record { visitors = λ ip. none; rate = minute / 2; burst = 2; stopped = false }

abbrev events : List Event
events =
    ask "10.0.0.1" 1 2
    ∷ ask "10.0.0.1" 3 4
    ∷ ask "10.0.0.1" 5 6
    ∷ ask "10.0.0.2" 7 8
    ∷ sweep (4 * minute)
    ∷ ask "10.0.0.1" (4 * minute) (4 * minute)
    ∷ []

limiter_made : new_ip_rate_limiter_per_minute toy_limiters (pos 2) ≡ some limiter
unfolding new_ip_rate_limiter_per_minute
limiter_made = refl

third_refused : decisions toy_limiters limiter events ≡ true ∷ true ∷ false ∷ true ∷ true ∷ []
unfolding decisions allow tick
third_refused = refl

decisions-eq-bucket_decisions_example :
    decisions toy_limiters limiter events
    ≡ bucket_decisions toy_limiters (λ ip. full_bucket (minute / 2) 2) events
decisions-eq-bucket_decisions_example =
    decisions-eq-bucket_decisions toy_limiters (pos 2) limiter events toy_limiters-LimiterLaws
      limiter_made (ground arith)

abbrev visitor : Visitor toy_limiters
visitor = record { limiter = full_bucket (minute / 2) 2; last_seen = minute }

abbrev old_visitor : Visitor toy_limiters
old_visitor = record visitor { last_seen = 5 }

abbrev visited : IpRateLimiter toy_limiters
visited = record limiter {
  visitors = λ ip.
      if str_eq "10.0.0.1" ip
      then some visitor
      else if str_eq "10.0.0.2" ip
      then some old_visitor
      else none;
}

abbrev order : List String
order = "10.0.0.2" ∷ "10.0.0.1" ∷ []

order-VisitsAll : VisitsAll toy_limiters order visited
order-VisitsAll ip h = ground arith

cleanup_in_order_verdict_example :
    (cleanup_in_order toy_limiters order (4 * minute - 3 * minute) visited
      ≡ tick toy_limiters (4 * minute) visited)
    × ((ip : String) (v : Visitor toy_limiters)
        → ((cleanup_in_order toy_limiters order (4 * minute - 3 * minute) visited).visitors ip
            ≡ some v)
          ↔ ((visited.visitors ip ≡ some v) × (4 * minute ≤ v.last_seen + 3 * minute)))
cleanup_in_order_verdict_example =
    cleanup_in_order_verdict toy_limiters order (4 * minute) visited order-VisitsAll

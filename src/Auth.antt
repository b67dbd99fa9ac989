-- ===== src/Auth.antt =====
-- pkg/auth/jwt.go: the JWT manager. golang-jwt is a parameter, `Jwt`; the clock's reading is an
-- argument.
pub mod Library
pub mod Bearer
pub mod RoundTrip
use ginblade.Prelude.{
  ℕ, ◌+◌, String, Bool, true, false, ◌||◌, not, Option, none, some, List, [], ◌∷◌, is_empty,
  trim_space, to_lower, has_prefix, drop_ascii, if◌then◌else◌,
}
use ginblade.Prelude.Int.{ℤ, pos_part, is_positive}
use ginblade.Errors.{GoError, sentinel, plain, wrap, Result, ok, err, ◌>>=◌}
use Library.{Claims, ParserOptions, Jwt}

-- JWTConfig
pub record JwtConfig : Type 0 where
  pub secret : String
  pub issuer : String
  pub ttl : ℤ

-- JWTManager; the field `now` is the clock.
pub record JwtManager : Type 0 where
  pub secret : String
  pub issuer : String
  pub ttl : ℤ

abbrev pub err_missing_secret : GoError
err_missing_secret = sentinel "jwt secret is required"

abbrev pub err_missing_subject : GoError
err_missing_subject = sentinel "jwt subject is required"

-- NewJWTManager
unfoldable pub new_jwt_manager : JwtConfig → Result JwtManager
new_jwt_manager cfg =
    if is_empty (trim_space cfg.secret)
    then err err_missing_secret
    else ok (record { secret = cfg.secret; issuer = trim_space cfg.issuer; ttl = cfg.ttl })

-- normalizeBearerToken
unfoldable pub normalize_bearer_token : String → String
normalize_bearer_token raw =
    let token = trim_space raw in
    if has_prefix (to_lower token) "bearer " then trim_space (drop_ascii 7 token) else token

abbrev sign_wrapped : Result String → Result String
sign_wrapped (ok signed) = ok signed
sign_wrapped (err e) = err (wrap "sign jwt token" e)

-- The options that ParseToken gives to the parser.
unfoldable pub parser_options : JwtManager → ℕ → ParserOptions
parser_options m now = record {
  valid_methods = "HS256" ∷ [];
  now = now;
  issuer = if is_empty m.issuer then none else some m.issuer;
}

-- ParseToken, from the parser's answer on; `token.Claims` has the type that was passed in.
unfoldable pub accept_token : Result (Claims × Bool) → Result Claims
accept_token (err e) = err (wrap "parse jwt token" e)
accept_token (ok (claims, valid)) =
    if not valid
    then err (plain "invalid jwt token")
    else if is_empty (trim_space claims.subject)
    then err err_missing_subject
    else ok claims

module _ (jwt : Jwt) (m : JwtManager) where
  -- GenerateTokenWithClaims
  unfoldable pub generate_token_with_claims : Claims → Result String
  generate_token_with_claims claims =
      if is_empty (trim_space claims.subject)
      then err err_missing_subject
      else sign_wrapped (
          jwt.signed_string
            (record claims { issuer = if is_empty claims.issuer then m.issuer else claims.issuer })
            m.secret)

  -- The claims that GenerateToken fills in, at the time `now`.
  unfoldable pub claims_for : ℕ → String → Claims
  claims_for now subject = record {
    subject = subject;
    issuer = m.issuer;
    audience = [];
    id = "";
    issued_at = some (jwt.numeric_date now);
    not_before = some (jwt.numeric_date now);
    expires_at = if is_positive m.ttl then some (jwt.numeric_date (now + pos_part m.ttl)) else none;
  }

  -- GenerateToken
  unfoldable pub generate_token : ℕ → String → Result String
  unfolding generate_token_with_claims claims_for
  generate_token now raw =
      let subject = trim_space raw in
      if is_empty subject
      then err err_missing_subject
      else generate_token_with_claims (claims_for now subject)

  -- ParseToken
  unfoldable pub parse_token : ℕ → String → Result Claims
  unfolding normalize_bearer_token parser_options accept_token
  parse_token now raw =
      let token = normalize_bearer_token raw in
      if is_empty token
      then err (plain "jwt token is required")
      else accept_token (jwt.parse_with_claims (parser_options m now) token m.secret)

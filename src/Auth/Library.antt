-- ===== src/Auth/Library.antt =====
-- golang-jwt, which pkg/auth calls: its operations are a parameter, and what the program relies on
-- is a record of laws, from the package's documentation.
use ginblade.Prelude.{
  ℕ, ◌≤◌, ◌<◌, ◌≡◌, String, Bool, true, false, Option, none, some, List, [], ◌∷◌, is_empty,
  trim_space,
}
use ginblade.Errors.{Result, ok}

-- jwt.RegisteredClaims, in the wrapper auth.Claims
pub record Claims : Type 0 where
  pub subject : String
  pub issuer : String
  pub audience : List String
  pub id : String
  pub issued_at : Option ℕ
  pub not_before : Option ℕ
  pub expires_at : Option ℕ

-- WithValidMethods, WithTimeFunc and WithIssuer
pub record ParserOptions : Type 0 where
  pub valid_methods : List String
  pub now : ℕ
  pub issuer : Option String

pub record Jwt : Type 0 where
  -- jwt.NewNumericDate
  pub numeric_date : ℕ → ℕ
  -- jwt.NewWithClaims(SigningMethodHS256, claims).SignedString(secret)
  pub signed_string : Claims → String → Result String
  -- jwt.ParseWithClaims with a key function that returns the secret; the claims and `token.Valid`
  pub parse_with_claims : ParserOptions → String → String → Result (Claims × Bool)

abbrev pub NotBefore : ℕ → Option ℕ → Type 0
NotBefore now none = Unit
NotBefore now (some t) = t ≤ now

abbrev pub NotExpired : ℕ → Option ℕ → Type 0
NotExpired now none = Unit
NotExpired now (some t) = now < t

abbrev pub HasIssuer : Option String → String → Type 0
HasIssuer none issuer = Unit
HasIssuer (some i) issuer = issuer ≡ i

-- The claims pass the parser's validation.
pub record IsAccepted (o : ParserOptions) (c : Claims) : Type 0 where
  pub methods : o.valid_methods ≡ "HS256" ∷ []
  pub started : NotBefore o.now c.not_before
  pub unexpired : NotExpired o.now c.expires_at
  pub issued : HasIssuer o.issuer c.issuer

pub record JwtLaws (jwt : Jwt) : Type 0 where
  -- a numeric date cuts a time down to its precision
  pub truncates : (t : ℕ) → jwt.numeric_date t ≤ t
  -- a signed token is three base64url parts with dots between: not empty, and without spaces
  pub compact :
      (c : Claims) (secret token : String)
      → jwt.signed_string c secret ≡ ok token
      → (trim_space token ≡ token) × (is_empty token ≡ false)
  -- a token parses to the claims that were signed with the same secret, if they pass validation
  pub verifies :
      (o : ParserOptions) (c : Claims) (secret token : String)
      → jwt.signed_string c secret ≡ ok token
      → IsAccepted o c
      → jwt.parse_with_claims o token secret ≡ ok (c, true)
  -- the parser enforces the issuer that it is told to expect
  pub enforces_issuer :
      (o : ParserOptions) (token secret : String) (c : Claims) (v : Bool)
      → jwt.parse_with_claims o token secret ≡ ok (c, v)
      → HasIssuer o.issuer c.issuer

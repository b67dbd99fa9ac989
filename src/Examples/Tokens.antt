-- ===== src/Examples/Tokens.antt =====
-- A concrete JWT library, which signs one set of claims with one secret.
use ginblade.Prelude.{
  ℕ, ◌≡◌, refl, sym, String, Bool, true, false, ◌&&◌, Option, none, some, List, [], ◌∷◌, arith,
  str_eq, eq_iff, ◌==◌, is_empty, trim_space,
}
use ginblade.Errors.{Result, ok, err, plain}
use ginblade.Auth.Library.{Jwt, JwtLaws, Claims, ParserOptions, IsAccepted, HasIssuer}

abbrev pub alice : Claims
alice = record {
  subject = "alice";
  issuer = "ginblade";
  audience = [];
  id = "";
  issued_at = some 5;
  not_before = some 5;
  expires_at = some 3600000000005;
}

abbrev no_audience : List String → Bool
no_audience [] = true
no_audience (a ∷ rest) = false

abbrev is_at : ℕ → Option ℕ → Bool
is_at n none = false
is_at n (some m) = m == n

abbrev is_alice : Claims → Bool
is_alice c =
    (str_eq c.subject "alice"
      && str_eq c.issuer "ginblade"
      && no_audience c.audience
      && is_empty c.id)
    && (is_at 5 c.issued_at && is_at 5 c.not_before && is_at 3600000000005 c.expires_at)

no_audience_sound : (names : List String) → no_audience names ≡ true → names ≡ []
no_audience_sound names h = ground arith

is_at_sound : (n : ℕ) (o : Option ℕ) → is_at n o ≡ true → o ≡ some n
is_at_sound n o h = ground arith

is_empty_sound : (s : String) → is_empty s ≡ true → s ≡ ""
is_empty_sound String.[] h = refl
is_empty_sound (String.◌∷◌ c s) h = cc

is_alice_sound : (c : Claims) → is_alice c ≡ true → c ≡ alice
is_alice_sound c h = ground (
  arith,
  eq_iff c.subject "alice",
  eq_iff c.issuer "ginblade",
  no_audience_sound c.audience,
  is_empty_sound c.id,
  is_at_sound 5 c.issued_at,
  is_at_sound 5 c.not_before,
  is_at_sound 3600000000005 c.expires_at,
)

abbrev expects : Option String → Bool
expects none = true
expects (some i) = str_eq "ginblade" i

abbrev signed : Bool → Result String
signed true = ok "alice.signed"
signed false = err (plain "unknown claims")

abbrev parsed : Bool → Result (Claims × Bool)
parsed true = ok (alice, true)
parsed false = err (plain "token is malformed")

abbrev pub toy_jwt : Jwt
toy_jwt = record {
  numeric_date = λ t. t;
  signed_string = λ c secret. signed (is_alice c && str_eq secret "secret");
  parse_with_claims = λ o token secret.
      parsed (str_eq token "alice.signed" && str_eq secret "secret" && expects o.issuer);
}

signed_sound :
    (b : Bool) (token : String) → signed b ≡ ok token → (b ≡ true) × (token ≡ "alice.signed")
signed_sound b token h = ground arith

expects_of_HasIssuer : (o : Option String) → HasIssuer o "ginblade" → expects o ≡ true
expects_of_HasIssuer none h = refl
expects_of_HasIssuer (some i) h = (eq_iff "ginblade" i).1 h

HasIssuer_of_expects : (o : Option String) → expects o ≡ true → HasIssuer o "ginblade"
HasIssuer_of_expects none h = tt
HasIssuer_of_expects (some i) h = (eq_iff "ginblade" i).0 h

and_true : (a b : Bool) → (a && b) ≡ true → (a ≡ true) × (b ≡ true)
and_true a b h = ground arith

parsed_sound : (b : Bool) (c : Claims) (v : Bool) → parsed b ≡ ok (c, v) → (b ≡ true) × (alice ≡ c)
parsed_sound b c v h = ground arith

compact_lem :
    (b : Bool) (token : String)
    → signed b ≡ ok token
    → (trim_space token ≡ token) × (is_empty token ≡ false)
unfolding trim_space
compact_lem b token h = rw (signed_sound b token h).1 (refl, refl)

verifies_lem :
    (o : ParserOptions) (c : Claims) (secret token : String)
    → toy_jwt.signed_string c secret ≡ ok token
    → IsAccepted o c
    → toy_jwt.parse_with_claims o token secret ≡ ok (c, true)
verifies_lem o c secret token h a =
    let (both, named) = signed_sound _ token h in
    let (known, keyed) = and_true (is_alice c) _ both in
    let same = is_alice_sound c known in
    let issuer : HasIssuer o.issuer "ginblade" = rw same at a.issued in
    rw (named, keyed, expects_of_HasIssuer o.issuer issuer, same)

enforces_lem :
    (o : ParserOptions) (token secret : String) (c : Claims) (v : Bool)
    → toy_jwt.parse_with_claims o token secret ≡ ok (c, v)
    → HasIssuer o.issuer c.issuer
enforces_lem o token secret c v h =
    let (passed, same) = parsed_sound _ c v h in
    rw (sym same) (
      HasIssuer_of_expects o.issuer
        (and_true (str_eq token "alice.signed" && str_eq secret "secret") _ passed).1)

pub toy_jwt-JwtLaws : JwtLaws toy_jwt
toy_jwt-JwtLaws = record {
  truncates = λ t. omega arith;
  compact = λ c secret token h. compact_lem _ token h;
  verifies = verifies_lem;
  enforces_issuer = enforces_lem;
}

-- ===== src/Auth/RoundTrip.antt =====
-- A token that the manager signs is accepted by it, and one that it accepts has a subject.
use Prim.Native.String.{String, ◌++◌}
use ginblade.Prelude.{
  ℕ, ◌≤◌, ◌≡◌, refl, sym, true, false, arith, Bool, Bool-cases, is_empty, trim_space, if◌then◌else◌,
  inl, inr, some, none, ◌⊎◌,
}
use ginblade.Prelude.Text.Trim.{trim_space_idem}
use ginblade.Errors.{ok-ne-err, Result, ok}
use ginblade.Auth.{
  JwtManager, generate_token, sign_wrapped, claims_for, parser_options, accept_token, parse_token,
  normalize_bearer_token,
}
use ginblade.Auth.Library.{Jwt, JwtLaws, Claims, NotExpired, HasIssuer, IsAccepted}
use ginblade.Auth.Bearer.{normalize_bearer_token-append}

same_branches {ℓ} : {A : Type ℓ} (b : Bool) (a : A) → (if b then a else a) ≡ a
same_branches true a = refl
same_branches false a = refl

sign_wrapped-eq-ok : (r : Result String) (t : String) → sign_wrapped r ≡ ok t → r ≡ ok t
sign_wrapped-eq-ok r t h = ground arith

pub accept_token-eq-ok :
    (r : Result (Claims × Bool)) (c : Claims)
    → accept_token r ≡ ok c
    → (r ≡ ok (c, true)) × (is_empty (trim_space c.subject) ≡ false)
unfolding accept_token
accept_token-eq-ok r c h = ground arith

expected-HasIssuer : (b : Bool) (i : String) → HasIssuer (if b then none else some i) i
expected-HasIssuer true i = tt
expected-HasIssuer false i = refl

expected-issuer :
    (b : Bool) (expected issuer : String)
    → HasIssuer (if b then none else some expected) issuer
    → (b ≡ true) ⊎ (issuer ≡ expected)
expected-issuer true expected issuer h = inl refl
expected-issuer false expected issuer h = inr h

module _ (jwt : Jwt) (m : JwtManager) where
  claims_for-HasIssuer :
      (now later : ℕ) (subject : String)
      → HasIssuer (parser_options m later).issuer (claims_for jwt m now subject).issuer
  unfolding claims_for parser_options
  claims_for-HasIssuer now later subject = expected-HasIssuer (is_empty m.issuer) m.issuer

  -- What a signed token was made from.
  generate_token-eq-ok :
      (now : ℕ) (subject token : String)
      → generate_token jwt m now subject ≡ ok token
      → (is_empty (trim_space subject) ≡ false)
        × (jwt.signed_string (claims_for jwt m now (trim_space subject)) m.secret ≡ ok token)
  unfolding generate_token
  generate_token-eq-ok now subject token h =
      ground (arith, trim_space_idem subject, same_branches (is_empty m.issuer) m.issuer)

  claims_for-IsAccepted :
      (now later : ℕ) (subject : String)
      → JwtLaws jwt
      → now ≤ later
      → NotExpired later (claims_for jwt m now subject).expires_at
      → IsAccepted (parser_options m later) (claims_for jwt m now subject)
  unfolding claims_for parser_options
  claims_for-IsAccepted now later subject laws early fresh = record {
    methods = refl;
    started = omega (arith, laws.truncates now);
    unexpired = fresh;
    issued = claims_for-HasIssuer now later subject;
  }

  accept_token-claims_for :
      (now : ℕ) (subject : String)
      → trim_space subject ≡ subject
      → is_empty subject ≡ false
      → accept_token (ok (claims_for jwt m now subject, true)) ≡ ok (claims_for jwt m now subject)
  unfolding accept_token claims_for
  accept_token-claims_for now subject trimmed given = rw (trimmed, given)

  parse_token-eq-ok :
      (now : ℕ) (raw : String) (c : Claims)
      → parse_token jwt m now raw ≡ ok c
      → accept_token
          (jwt.parse_with_claims (parser_options m now) (normalize_bearer_token raw) m.secret)
        ≡ ok c
  unfolding parse_token
  parse_token-eq-ok now raw c h = elim (Bool-cases (is_empty (normalize_bearer_token raw))) [
    | inl e ↦ absurd (ok-ne-err (sym (rw e at h)))
    | inr e ↦ rw e at h
  ]

  -- A token that GenerateToken signs is accepted by ParseToken of the same manager, behind the
  -- scheme "Bearer ", at any time from its issue to its expiry; the claims that come back are the
  -- ones that were filled in, with the trimmed subject.
  pub parse_token-generate_token :
      (now later : ℕ) (subject token : String)
      → JwtLaws jwt
      → generate_token jwt m now subject ≡ ok token
      → now ≤ later
      → NotExpired later (claims_for jwt m now (trim_space subject)).expires_at
      → parse_token jwt m later ("Bearer " ++ token)
        ≡ ok (claims_for jwt m now (trim_space subject))
  unfolding parse_token
  parse_token-generate_token now later subject token laws made early fresh =
      let (given, signed) = generate_token-eq-ok now subject token made in
      let (trimmed, nonempty) = laws.compact _ m.secret token signed in
      let accepted = claims_for-IsAccepted now later (trim_space subject) laws early fresh in
      rw
        (
          normalize_bearer_token-append token trimmed nonempty,
          nonempty,
          laws.verifies _ _ m.secret token signed accepted,
        )
        (accept_token-claims_for now (trim_space subject) (trim_space_idem subject) given)

  -- Whatever ParseToken accepts, at any time, has a subject that is not blank, was accepted by the
  -- parser with a valid signature, and has the manager's issuer if the manager has one.
  pub parse_token_sound :
      (now : ℕ) (raw : String) (c : Claims)
      → JwtLaws jwt
      → parse_token jwt m now raw ≡ ok c
      → (is_empty (trim_space c.subject) ≡ false)
        × (jwt.parse_with_claims (parser_options m now) (normalize_bearer_token raw) m.secret
            ≡ ok (c, true))
        × ((is_empty m.issuer ≡ true) ⊎ (c.issuer ≡ m.issuer))
  unfolding parser_options
  parse_token_sound now raw c laws h =
      let (parsed, given) = accept_token-eq-ok _ c (parse_token-eq-ok now raw c h) in
      (
        given,
        parsed,
        expected-issuer (is_empty m.issuer) m.issuer c.issuer (
            laws.enforces_issuer (parser_options m now) (normalize_bearer_token raw) m.secret c true
              parsed),
      )

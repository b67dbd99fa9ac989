-- ===== src/Middleware/Auth.antt =====
-- BearerAuth: who gets through, and as whom.
use Prim.Native.String.{String, ◌++◌}
use ginblade.Prelude.{
  true, ℕ, ◌≤◌, ◌≡◌, refl, ◌⊎◌, inl, inr, false, Option, none, some, is_empty, trim_space,
}
use ginblade.Errors.{GoError, Result, ok, err}
use ginblade.Auth.{JwtManager, parse_token, generate_token, claims_for}
use ginblade.Auth.Library.{Jwt, JwtLaws, Claims, NotExpired}
use ginblade.Auth.RoundTrip.{parse_token_sound, parse_token-generate_token}
use ginblade.Http.{Gin, Outcome, finished, Handler, set_key, envelope, trace_of, with_body}
use ginblade.Response.{error_response}
use ginblade.Errcode.{unauthorized}
use ginblade.Middleware.{admit, bearer_auth, deny_unauthorized, auth_subject, auth_subject_key}

module _ {W : Type 0} (jwt : Jwt) (now : ℕ) (next : Handler W) (c : Gin) (w : W) where
  -- The request was let through: there is a manager, its parser accepted the token in the header,
  -- and the rest of the chain ran with the token's subject, which is not blank, as AuthSubject.
  pub record IsAdmitted (manager : Option JwtManager) (o : Outcome W) : Type 0 where
    pub m : JwtManager
    pub claims : Claims
    pub configured : manager ≡ some m
    pub accepted : parse_token jwt m now (c.header "Authorization") ≡ ok claims
    pub given : is_empty (trim_space claims.subject) ≡ false
    pub passed : o ≡ next (set_key auth_subject_key claims.subject c) w
    pub subject : auth_subject (set_key auth_subject_key claims.subject c) ≡ claims.subject

  -- The request was refused: there is no manager, or its parser gave an error. The rest of the chain
  -- did not run: the request is aborted in the state it came in, with the envelope for UNAUTHORIZED
  -- at status 200, and nothing else of it changed.
  pub record IsRefused (manager : Option JwtManager) (o : Outcome W) : Type 0 where
    pub at : Gin
    pub finishes : o ≡ finished at w
    pub status : at.status ≡ 200
    pub aborted : at.aborted ≡ true
    pub answer :
        at.bodies ≡ with_body c.bodies (envelope (error_response (trace_of c) unauthorized))
    pub logged : at.log ≡ c.log
    pub keys : at.keys ≡ c.keys
    pub reason :
        (manager ≡ none)
        ⊎ ((m : JwtManager) × (manager ≡ some m)
            × (e : GoError) × (parse_token jwt m now (c.header "Authorization") ≡ err e))

  auth_subject-set_key : (s : String) → auth_subject (set_key auth_subject_key s c) ≡ s
  unfolding auth_subject
  auth_subject-set_key s = refl

  denied :
      (manager : Option JwtManager)
      → (manager ≡ none)
        ⊎ ((m : JwtManager) × (manager ≡ some m)
            × (e : GoError) × (parse_token jwt m now (c.header "Authorization") ≡ err e))
      → IsRefused manager (finished (deny_unauthorized c) w)
  denied manager why = record {
    at = deny_unauthorized c;
    finishes = refl;
    status = refl;
    aborted = refl;
    answer = refl;
    logged = refl;
    keys = refl;
    reason = why;
  }

  admit_verdict :
      (m : JwtManager) (r : Result Claims)
      → JwtLaws jwt
      → parse_token jwt m now (c.header "Authorization") ≡ r
      → IsAdmitted (some m) (admit r next c w) ⊎ IsRefused (some m) (admit r next c w)
  admit_verdict m (err e) laws h = inr (denied (some m) (inr (m, refl, e, h)))
  admit_verdict m (ok claims) laws h = inl (record {
    m = m;
    claims = claims;
    configured = refl;
    accepted = h;
    given = (parse_token_sound jwt m now _ claims laws h).0;
    passed = refl;
    subject = auth_subject-set_key claims.subject;
  })

  -- BearerAuth either lets a request through, as the subject of a token that the manager accepts, or
  -- refuses it, when there is no manager or the manager does not accept the token: then it aborts
  -- with the envelope for UNAUTHORIZED at status 200, and the rest of the chain does not run.
  pub bearer_auth_verdict :
      (manager : Option JwtManager)
      → JwtLaws jwt
      → IsAdmitted manager (bearer_auth jwt manager now next c w)
        ⊎ IsRefused manager (bearer_auth jwt manager now next c w)
  unfolding bearer_auth
  bearer_auth_verdict none laws = inr (denied none (inl refl))
  bearer_auth_verdict (some m) laws = admit_verdict m _ laws refl

  -- A request that carries a token which the manager signed earlier, and which is not expired, is let
  -- through as the trimmed subject that the token was made for.
  pub bearer_auth-generate_token :
      (m : JwtManager) (issued : ℕ) (subject token : String)
      → JwtLaws jwt
      → generate_token jwt m issued subject ≡ ok token
      → issued ≤ now
      → NotExpired now (claims_for jwt m issued (trim_space subject)).expires_at
      → c.header "Authorization" ≡ "Bearer " ++ token
      → bearer_auth jwt (some m) now next c w
        ≡ next (set_key auth_subject_key (trim_space subject) c) w
  unfolding bearer_auth claims_for
  bearer_auth-generate_token m issued subject token laws made early fresh sent =
      rw (sent, parse_token-generate_token jwt m issued now subject token laws made early fresh)

-- ===== src/Middleware/Cors.antt =====
-- CORS: which origins are answered, and preflight requests.
use mathlib.Core.Bool.{false≢true}
use ginblade.Prelude.{
  ◌≡◌, ◌≢◌, refl, sym, ◌∙◌, ◌⊎◌, inl, inr, String, true, false, List, [], ◌∷◌, arith, is_empty,
  trim_space, eq_iff, str_eq, Bool-cases,
}
use ginblade.Http.{Gin, Handler, get_string, finished, abort_with_status}
use ginblade.Middleware.{contains, allowed_origins, allow_origin, cors_headers, cors}

-- One of the configured origins, trimmed, is this origin.
abbrev pub Lists : List String → String → Type 0
Lists [] origin = ⊥
Lists (o ∷ os) origin = (trim_space o ≡ origin) ⊎ Lists os origin

contains-allowed_origins :
    (os : List String) (origin : String)
    → is_empty origin ≡ false
    → ((contains (allowed_origins os) origin ≡ true) × Lists os origin)
      ⊎ ((contains (allowed_origins os) origin ≡ false) × (Lists os origin → ⊥))
unfolding contains allowed_origins
contains-allowed_origins [] origin h = inr (refl, λ e. e)
contains-allowed_origins (o ∷ os) origin h =
    ground (arith, contains-allowed_origins os origin h, eq_iff (trim_space o) origin)

-- The response's Access-Control-Allow-Origin.
abbrev pub allowed_header : Gin → String
allowed_header c = get_string "Access-Control-Allow-Origin" c.response_header

allowed_header-allow_origin :
    (origin : String) (c : Gin) → allowed_header (allow_origin origin c) ≡ origin
unfolding allow_origin get_string
allowed_header-allow_origin origin c = refl

-- What the handler of CORS may do with the headers: name the request's origin, which is then not
-- empty and configured; or leave them, the origin being empty or not configured.
abbrev pub HeaderVerdict : List String → Gin → Gin → Type 0
HeaderVerdict os c c' =
    ((is_empty (trim_space (c.header "Origin")) ≡ false)
      × Lists os (trim_space (c.header "Origin"))
      × (allowed_header c' ≡ trim_space (c.header "Origin")))
    ⊎ (((is_empty (trim_space (c.header "Origin")) ≡ true)
          ⊎ (Lists os (trim_space (c.header "Origin")) → ⊥))
        × (c' ≡ c))

-- CORS names an origin in its answer exactly when it is configured, and then it is the request's
-- own; else it sets no header.
pub cors_headers_verdict : (os : List String) (c : Gin) → HeaderVerdict os c (cors_headers os c)
unfolding cors_headers
cors_headers_verdict os c = elim (Bool-cases (is_empty (trim_space (c.header "Origin")))) [
  | inl blank ↦ inr (inl blank, rw blank)
  | inr given ↦ elim (contains-allowed_origins os (trim_space (c.header "Origin")) given) [
    | inl (found, listed) ↦ inl (given, listed, rw (given, found) (allowed_header-allow_origin _ c))
    | inr (missing, unlisted) ↦ inr (inr unlisted, rw (given, missing))
  ]
]

method-cors_headers : (os : List String) (c : Gin) → (cors_headers os c).method ≡ c.method
unfolding cors_headers allow_origin
method-cors_headers os c = ground arith

str-ne : {s t : String} → str_eq s t ≡ false → s ≢ t
str-ne {s} {t} h e = false≢true (sym h ∙ (eq_iff s t).1 e)

module _ {W : Type 0} (os : List String) (next : Handler W) (c : Gin) (w : W) where
  -- An OPTIONS request is answered with 204 and aborted, and reaches nothing behind CORS; any other
  -- request goes on with the headers that CORS has set.
  pub cors_preflight :
      ((c.method ≡ "OPTIONS")
        × (cors os next c w ≡ finished (abort_with_status 204 (cors_headers os c)) w))
      ⊎ ((c.method ≢ "OPTIONS") × (cors os next c w ≡ next (cors_headers os c) w))
  unfolding cors
  cors_preflight = elim (Bool-cases (str_eq c.method "OPTIONS")) [
    | inl preflight ↦ inl ((eq_iff _ _).0 preflight, rw (method-cors_headers os c, preflight))
    | inr other ↦ inr (str-ne other, rw (method-cors_headers os c, other))
  ]

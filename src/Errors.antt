-- ===== src/Errors.antt =====
-- Go errors and the two walks over their chains, `errors.As` and `errors.Is` (standard library), and
-- internal/errcode/type.go: the error that an API reports.
use ginblade.Prelude.{
  refl, ◌≡◌, String, Bool, false, ◌||◌, Option, none, some, List, [], ◌∷◌, str_eq, is_empty,
  if◌then◌else◌,
}
use ginblade.Prelude.Int.{ℤ, pos, is_positive}

-- errcode.Error: a stable API error definition returned by services.
pub record Error : Type 0 where
  pub code : ℤ
  pub reason : String

unfoldable pub new_error : ℤ → String → Error
new_error code reason = record { code = code; reason = reason }

-- (Error).Code
unfoldable pub code_of : Error → ℤ
code_of e = if is_positive e.code then e.code else pos 0

-- (Error).Reason
unfoldable pub reason_of : Error → String
reason_of e = if is_empty e.reason then "UNKNOWN_ERROR" else e.reason

-- (Error).Error
unfoldable pub error_text : Error → String
unfolding reason_of
error_text e = reason_of e

-- A non-nil error value. A sentinel is a package variable, told apart by its text; `plain` is an
-- error made on the spot; `wrap` is fmt.Errorf with %w; the last two are errors.Join.
pub data GoError : Type 0 where
  api : Error → GoError
  sentinel : String → GoError
  plain : String → GoError
  wrap : String → GoError → GoError
  joined : GoError → GoError → GoError
  joined_end : GoError

-- A Go function that returns a value and an error, of which one is meant.
pub data Result {ℓ} (A : Type ℓ) : Type ℓ where
  ok : A → Result A
  err : GoError → Result A

pub ok-injective {ℓ} : {A : Type ℓ} {a b : A} → ok a ≡ ok b → a ≡ b
ok-injective h = cc

pub ok-ne-err {ℓ} : {A : Type ℓ} {a : A} {e : GoError} → ok a ≡ err e → ⊥
ok-ne-err h = cc

infixl 5 ◌>>=◌
abbrev pub ◌>>=◌ {ℓ κ} : {A : Type ℓ} {B : Type κ} → Result A → (A → Result B) → Result B
ok a >>= f = f a
err e >>= f = err e

pub bind-eq-ok {ℓ κ} :
    {A : Type ℓ} {B : Type κ} (r : Result A) (f : A → Result B) (b : B)
    → (r >>= f) ≡ ok b
    → (a : A) × (r ≡ ok a) × (f a ≡ ok b)
bind-eq-ok (ok a) f b h = (a, refl, h)
bind-eq-ok (err e) f b h = cc

pub bind-congruence {ℓ κ} :
    {A : Type ℓ} {B : Type κ} (r : Result A) (f g : A → Result B)
    → ((a : A) → r ≡ ok a → f a ≡ g a)
    → (r >>= f) ≡ (r >>= g)
bind-congruence (ok a) f g h = h a refl
bind-congruence (err e) f g h = refl

abbrev pub or_else {ℓ} : {A : Type ℓ} → Option A → Option A → Option A
or_else none b = b
or_else (some a) b = some a

-- errors.As(err, &ec): the first API error of the chain
unfoldable pub as_api : GoError → Option Error
as_api (api e) = some e
as_api (sentinel s) = none
as_api (plain s) = none
as_api (wrap s e) = as_api e
as_api (joined e es) = or_else (as_api e) (as_api es)
as_api joined_end = none

-- errors.Is(err, target) for a sentinel
unfoldable pub is_sentinel : GoError → String → Bool
is_sentinel (api e) t = false
is_sentinel (sentinel s) t = str_eq s t
is_sentinel (plain s) t = false
is_sentinel (wrap s e) t = is_sentinel e t
is_sentinel (joined e es) t = is_sentinel e t || is_sentinel es t
is_sentinel joined_end t = false

abbrev join_all : List GoError → GoError
join_all [] = joined_end
join_all (e ∷ es) = joined e (join_all es)

-- errors.Join: nil when there is nothing to join
unfoldable pub join_errors : List GoError → Option GoError
join_errors [] = none
join_errors (e ∷ es) = some (join_all (e ∷ es))

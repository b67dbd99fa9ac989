-- ===== src/Config/DurationEnv.antt =====
-- durationEnv: what a duration setting can be.
use ginblade.Prelude.{
  str_eq, sym, ℕ, zero, suc, ◌≤◌, ◌^◌, ◌≡◌, refl, String, Bool, true, false, arith, Bool-cases, inl,
  inr, ◌⊎◌, is_empty, trim_space, ◌<◌, List, ◌∷◌,
}
use ginblade.Prelude.Text.Append.{size}
use ginblade.Prelude.Int.{ℤ}
use ginblade.Errors.{ok, ok-injective, ok-ne-err, bind-eq-ok}
use ginblade.Config.{Env, getenv, duration_env}
use ginblade.Config.Loading.{IsInt64, or_fallback-IsInt64}
use ginblade.Config.Durations.Written.{Part, written, total, sign, signed_total, is_empty-written}
use ginblade.Config.Durations.Overflow.{NoneExact, parse_duration-IsErr}
use ginblade.Config.Durations.RoundTrip.{parse_duration-written}
use Prim.Native.String.{◌++◌}
use text.Mathlib.TextLemmas.{nil-append, cons-append}
use ginblade.Config.Durations.{
  segment, segments, add, finish, signed, unsigned, split_sign, parse_duration,
}

add-le : (scale : ℕ → ℕ → ℕ → ℕ) (d v n : ℕ) → add scale d v ≡ ok n → n ≤ 2 ^ 63
add-le scale d v n h = ground arith

finish-IsInt64 :
    (negative : Bool) (d : ℕ) (z : ℤ) → d ≤ 2 ^ 63 → finish negative d ≡ ok z → IsInt64 z
finish-IsInt64 true d z le h = ground arith
finish-IsInt64 false d z le h = ground arith

module _ (scale : ℕ → ℕ → ℕ → ℕ) where
  segments-le :
      (fuel d n : ℕ) (s : String) → d ≤ 2 ^ 63 → segments scale fuel d s ≡ ok n → n ≤ 2 ^ 63
  unfolding segments
  segments-le fuel d n String.[] le h = rw (← ok-injective h) le
  segments-le zero d n (String.◌∷◌ c s) le h = cc
  segments-le (suc fuel) d n (String.◌∷◌ c s) le h =
      let (p, cut, more) = bind-eq-ok (segment scale (String.◌∷◌ c s)) _ n h in
      let (d', added, rest) = bind-eq-ok (add scale d p.0) _ n more in
      segments-le fuel d' n p.1 (add-le scale d p.0 d' added) rest

  unsigned-IsInt64 :
      (negative : Bool) (s : String) (z : ℤ) → unsigned scale negative s ≡ ok z → IsInt64 z
  unfolding unsigned
  unsigned-IsInt64 negative s z h = elim (Bool-cases (str_eq s "0")) [
    | inl nothing ↦ rw (← ok-injective (rw nothing at h)) (omega arith, omega arith)
    | inr other ↦ elim (Bool-cases (is_empty s)) [
      | inl blank ↦ absurd (ok-ne-err (sym (rw (other, blank) at h)))
      | inr given ↦
          let (d, read, done) =
            bind-eq-ok (segments scale (size s) 0 s) _ z (rw (other, given) at h) in
          finish-IsInt64 negative d z (segments-le (size s) 0 d s (omega arith) read) done
    ]
  ]

  parse_duration-IsInt64 : (s : String) (z : ℤ) → parse_duration scale s ≡ ok z → IsInt64 z
  unfolding parse_duration signed
  parse_duration-IsInt64 s z h = unsigned-IsInt64 (split_sign s).0 (split_sign s).1 z h

  -- A duration setting is the fallback or an int64, whatever text the variable holds.
  pub duration_env-IsInt64 :
      (env : Env) (key : String) (fallback : ℤ)
      → (duration_env scale env key fallback ≡ fallback)
        ⊎ IsInt64 (duration_env scale env key fallback)
  unfolding duration_env
  duration_env-IsInt64 env key fallback =
      elim (Bool-cases (is_empty (trim_space (getenv env key)))) [
        | inl blank ↦ rw blank (inl refl)
        | inr given ↦
            rw given (
              or_fallback-IsInt64 fallback _ (parse_duration-IsInt64 (trim_space (getenv env key))))
      ]

  is_empty-signed :
      (negative : Bool) (s : String) → is_empty s ≡ false → is_empty (sign negative ++ s) ≡ false
  is_empty-signed true s h = rw cons-append refl
  is_empty-signed false s h = rw nil-append h

  -- A variable that holds, within spaces, a written duration of more than 2^63 nanoseconds sets the
  -- fallback, not a number that has wrapped around, if no part of it is of exactly 2^63.
  pub duration_env-too_long :
      (env : Env) (key : String) (fallback : ℤ) (negative : Bool) (p : Part) (ps : List Part)
      → trim_space (getenv env key) ≡ sign negative ++ written (p ∷ ps)
      → 2 ^ 63 < total (p ∷ ps)
      → NoneExact (p ∷ ps)
      → duration_env scale env key fallback ≡ fallback
  unfolding duration_env
  duration_env-too_long env key fallback negative p ps holds over none =
      let (e, refused) = parse_duration-IsErr scale negative p ps over none in
      rw (holds, is_empty-signed negative (written (p ∷ ps)) (is_empty-written p ps), refused) refl

  -- A variable that holds, within spaces, a duration written as whole numbers with their units, one
  -- after the other and behind a sign or none, sets the sum of the numbers times their units, with
  -- the sign, if that sum is less than 2^63.
  pub duration_env-written :
      (env : Env) (key : String) (fallback : ℤ) (negative : Bool) (p : Part) (ps : List Part)
      → trim_space (getenv env key) ≡ sign negative ++ written (p ∷ ps)
      → total (p ∷ ps) < 2 ^ 63
      → duration_env scale env key fallback ≡ signed_total negative (p ∷ ps)
  unfolding duration_env
  duration_env-written env key fallback negative p ps holds le = rw (
    holds,
    is_empty-signed negative (written (p ∷ ps)) (is_empty-written p ps),
    parse_duration-written scale negative p ps le,
  )

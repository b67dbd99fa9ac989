-- ===== src/Config/Durations/Fuel.antt =====
-- The loop takes a character in each pass, so a text's length is enough fuel.
use ginblade.Prelude.{
  ap, sym, ℕ, zero, suc, ◌≤◌, ◌<◌, ◌+◌, ◌-◌, ◌*◌, ◌≡◌, refl, code, String, Bool, false, arith,
  Bool-cases, inl, inr, is_empty, ◌&&◌, not,
}
use ginblade.Prelude.Text.Append.{size}
use ginblade.Errors.{Result, ok, err, ok-injective, ok-ne-err, bind-eq-ok, bind-congruence}
use ginblade.Config.Durations.{
  leading_int, leading_fraction, add_digit, fraction_part, split_unit, segment, segments, add,
  after_whole, after_int, with_unit, amount, ends_unit, unit_map,
}
use ginblade.Config.Numbers.{is_digit}

leading_int-size : (x v : ℕ) (s rest : String) → leading_int x s ≡ ok (v, rest) → size rest ≤ size s
unfolding leading_int
leading_int-size x v String.[] rest h = rw (← ap (λ p. p.1) (ok-injective h)) (omega arith)
leading_int-size x v (String.◌∷◌ c s) rest h =
    ground (arith, leading_int-size (x * 10 + (code c - b'0')) v s rest)

leading_fraction-size : (p : ℕ × ℕ × Bool) (s : String) → size (leading_fraction p s).2 ≤ size s
unfolding leading_fraction
leading_fraction-size p String.[] = omega arith
leading_fraction-size p (String.◌∷◌ c s) =
    ground (arith, leading_fraction-size (add_digit p (code c - b'0')) s)

fraction_part-size : (s : String) → size (fraction_part s).3 ≤ size s
unfolding fraction_part
fraction_part-size String.[] = omega arith
fraction_part-size (String.◌∷◌ c s) = ground (arith, leading_fraction-size (0, 0, false) s)

split_unit-size : (s : String) → size (split_unit s).0 + size (split_unit s).1 ≡ size s
unfolding split_unit
split_unit-size String.[] = refl
split_unit-size (String.◌∷◌ c s) = elim (Bool-cases (ends_unit (code c))) [
  | inl ends ↦ rw ends (omega arith)
  | inr goes ↦ rw goes (omega (arith, split_unit-size s))
]

module _ (scale : ℕ → ℕ → ℕ → ℕ) where
  -- What is left is shorter than the text.
  abbrev Shortens : ℕ → Result (ℕ × String) → Type 0
  Shortens n r = (p : ℕ × String) → r ≡ ok p → size p.1 < n

  given_size : (s : String) → is_empty s ≡ false → 0 < size s
  given_size String.[] h = cc
  given_size (String.◌∷◌ c s) h = omega arith

  with_unit-Shortens :
      (n v f digits : ℕ) (q : String × String)
      → size q.0 + size q.1 ≤ n
      → Shortens n (with_unit scale v f digits q)
  unfolding with_unit
  with_unit-Shortens n v f digits (u, rest) le p h = elim (Bool-cases (is_empty u)) [
    | inl blank ↦ absurd (ok-ne-err (sym (rw blank at h)))
    | inr given ↦
        let (a, has, e) = bind-eq-ok (amount scale v f digits (unit_map u)) _ p (rw given at h) in
        rw (← ap (λ x. x.1) (ok-injective e)) (omega (arith, given_size u given))
  ]

  after_int-Shortens :
      (n v : ℕ) (pre : Bool) (q : ℕ × ℕ × Bool × String)
      → size q.3 ≤ n
      → Shortens n (after_int scale pre v q)
  unfolding after_int
  after_int-Shortens n v pre (f, digits, post, s) le p h = elim (Bool-cases (not pre && not post)) [
    | inl bare ↦ absurd (ok-ne-err (sym (rw bare at h)))
    | inr read ↦
        with_unit-Shortens n v f digits (split_unit s) (omega (arith, split_unit-size s)) p
          (rw read at h)
  ]

  after_whole-Shortens :
      (n : ℕ) (pre : Bool) (r : Result (ℕ × String))
      → ((v : ℕ) (rest : String) → r ≡ ok (v, rest) → size rest ≤ n)
      → Shortens n (after_whole scale pre r)
  unfolding after_whole
  after_whole-Shortens n pre (err e) le p h = absurd (ok-ne-err (sym h))
  after_whole-Shortens n pre (ok (v, s)) le p h =
      after_int-Shortens n v pre (fraction_part s)
        (omega (arith, fraction_part-size s, le v s refl)) p h

  segment-Shortens : (s : String) → Shortens (size s) (segment scale s)
  unfolding segment
  segment-Shortens String.[] p h = cc
  segment-Shortens (String.◌∷◌ c s) p h = elim (Bool-cases (ends_unit (code c))) [
    | inl numeric ↦
        after_whole-Shortens _ (is_digit (code c)) (leading_int 0 (String.◌∷◌ c s))
          (λ v rest. leading_int-size 0 v (String.◌∷◌ c s) rest) p (rw numeric at h)
    | inr other ↦ absurd (ok-ne-err (sym (rw other at h)))
  ]

  -- More fuel than characters changes nothing.
  segments_fuel :
      (fuel more d : ℕ) (s : String)
      → size s ≤ fuel
      → segments scale (fuel + more) d s ≡ segments scale fuel d s
  unfolding segments
  segments_fuel fuel more d String.[] le = refl
  segments_fuel zero more d (String.◌∷◌ c s) le = absurd (omega arith)
  segments_fuel (suc fuel) more d (String.◌∷◌ c s) le =
      let e : suc fuel + more ≡ suc (fuel + more) = omega arith in
      rw e (
        bind-congruence (segment scale (String.◌∷◌ c s)) _ _ (λ p cut.
          bind-congruence (add scale d p.0) _ _ (λ d' added.
            segments_fuel fuel more d' p.1
              (omega (arith, segment-Shortens (String.◌∷◌ c s) p cut)))))

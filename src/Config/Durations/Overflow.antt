-- ===== src/Config/Durations/Overflow.antt =====
-- A written duration that an int64 does not hold is refused.
use Prim.Native.String.{◌++◌}
use text.Mathlib.TextLemmas.{cons-append}
use ginblade.Config.Durations.{
  unsigned, signed, parse_duration, size, leading_int, segment, segments, add, after_whole,
  after_int, with_unit,
}
use ginblade.Prelude.{
  length, none-ne-some, some-injective, ℕ, zero, suc, ◌≤◌, ◌+◌, ◌-◌, ◌*◌, ◌/◌, ◌^◌, ◌≡◌, ◌≢◌, refl,
  ◌∙◌, inl, inr, code, String, Bool, true, false, arith, some, List, [], ◌∷◌, ◌<◌, ◌%◌, is_empty,
  ltb→lt, ltb, ◌||◌, Bool-cases,
}
use ginblade.Errors.{GoError, Result, ok, err}
use ginblade.Config.Numbers.{is_digit, digits_from, parse_digits}
use ginblade.Config.Durations.Written.{
  TimeUnit, nanosecond, microsecond, millisecond, second, minute, hour, Part, unit_name, unit_size,
  length_of, written, total, IsBoundary, written-IsBoundary, written-size, written-starts, sign,
  split_sign-written, not_zero, not_empty, is_empty-written,
}
use ginblade.Config.Durations.Pieces.{
  split_unit-name, unit_name-IsName, BeginsName-append, unit_name-BeginsName, no_fraction,
  is_empty-name, unit_map-name, starts-digit, leading_int-digits, BeginsName-IsPast,
}
use ginblade.Config.Durations.RoundTrip.{segment-cons, segment-part, segments-step}

-- It is an error.
abbrev pub IsErr {ℓ} : {A : Type ℓ} → Result A → Type ℓ
IsErr r = (e : GoError) × (r ≡ err e)

out_of_bounds : (x y : ℕ) → 2 ^ 63 < y → (ltb (2 ^ 63 / 10) x || ltb (2 ^ 63) y) ≡ true
out_of_bounds x y h = ground arith

leading_int-IsErr :
    (x n : ℕ) (s rest : String)
    → digits_from x s ≡ some n
    → x ≤ 2 ^ 63
    → 2 ^ 63 < n
    → IsErr (leading_int x (s ++ rest))
unfolding leading_int digits_from
leading_int-IsErr x n String.[] rest h le over = absurd (omega (arith, some-injective x n h))
leading_int-IsErr x n (String.◌∷◌ c s) rest h le over = elim (Bool-cases (is_digit (code c))) [
  | inr other ↦ absurd (none-ne-some n (rw other at h))
  | inl digit ↦
      let y = x * 10 + (code c - b'0') in
      elim (Bool-cases (ltb (2 ^ 63 / 10) x || ltb (2 ^ 63) (x * 10 + (code c - b'0')))) [
        | inl out ↦ rw cons-append (rw (digit, out) (_, refl))
        | inr fits ↦ rw cons-append (
            rw (digit, fits)
              (leading_int-IsErr (x * 10 + (code c - b'0')) n s rest (rw digit at h)
                (ground (arith, fits)) over))
      ]
]

out_of_unit :
    (u : TimeUnit) (n : ℕ) → 2 ^ 63 < n * unit_size u → ltb (2 ^ 63 / unit_size u) n ≡ true
out_of_unit nanosecond n h = ground arith
out_of_unit microsecond n h = ground arith
out_of_unit millisecond n h = ground arith
out_of_unit second n h = ground arith
out_of_unit minute n h = ground arith
out_of_unit hour n h = ground arith

-- No part is 2^63 nanoseconds long: two of those would add up to 0 in a uint64.
unfoldable pub NoneExact : List Part → Type 0
NoneExact [] = Unit
NoneExact (p ∷ ps) = (length_of p ≢ 2 ^ 63) × NoneExact ps

below : (n : ℕ) → ltb (2 ^ 63) n ≡ false → n ≢ 2 ^ 63 → n < 2 ^ 63
below n short other = ground (arith, short, other)

module _ (scale : ℕ → ℕ → ℕ → ℕ) where
  after_whole-IsErr :
      (u : TimeUnit) (n : ℕ) (rest : String)
      → 2 ^ 63 < n * unit_size u
      → IsBoundary rest
      → IsErr (after_whole scale true (ok (n, unit_name u ++ rest)))
  unfolding after_whole after_int with_unit
  after_whole-IsErr u n rest over ends =
      rw
        (
          no_fraction (unit_name u ++ rest)
              (BeginsName-append (unit_name u) rest (unit_name-BeginsName u)),
          split_unit-name (unit_name u) rest (unit_name-IsName u) ends,
          is_empty-name u,
          unit_map-name u,
          out_of_unit u n over,
        )
        (_, refl)

  -- The loop's body refuses a part that is too long.
  segment-IsErr :
      (s : String) (n : ℕ) (u : TimeUnit) (rest : String)
      → parse_digits s ≡ some n
      → 2 ^ 63 < n * unit_size u
      → IsBoundary rest
      → IsErr (segment scale (s ++ (unit_name u ++ rest)))
  unfolding parse_digits after_whole
  segment-IsErr String.[] n u rest h over ends = absurd (none-ne-some n h)
  segment-IsErr (String.◌∷◌ c s) n u rest h over ends =
      let past =
        BeginsName-IsPast _ (BeginsName-append (unit_name u) rest (unit_name-BeginsName u)) in
      elim (Bool-cases (ltb (2 ^ 63) n)) [
        | inl long ↦
            let (e, refused) =
              leading_int-IsErr 0 n (String.◌∷◌ c s) (unit_name u ++ rest) h (omega arith)
                (ground (arith, long)) in
            rw cons-append (
              e,
              segment-cons scale c (s ++ (unit_name u ++ rest)) n (err e) (starts-digit c s n h)
                  (rw cons-append at refused),
            )
        | inr short ↦
            let read =
              leading_int-digits 0 n (String.◌∷◌ c s) (unit_name u ++ rest) h
                (ground (arith, short)) past in
            let (e, refused) = after_whole-IsErr u n rest over ends in
            rw cons-append (
              e,
              segment-cons scale c (s ++ (unit_name u ++ rest)) n (ok (n, unit_name u ++ rest))
                    (starts-digit c s n h) (rw cons-append at read)
                  ∙ refused,
            )
      ]

  segments-refuse :
      (fuel d : ℕ) (s : String)
      → is_empty s ≡ false
      → IsErr (segment scale s)
      → IsErr (segments scale (suc fuel) d s)
  unfolding segments
  segments-refuse fuel d String.[] given (e, h) = cc
  segments-refuse fuel d (String.◌∷◌ c s) given (e, h) = (e, rw h refl)

  too_long : (d v : ℕ) → d ≤ 2 ^ 63 → v < 2 ^ 63 → 2 ^ 63 < d + v → IsErr (add scale d v)
  too_long d v le less over =
      let long : ltb (2 ^ 63) ((d + v) % 2 ^ 64) ≡ true = ground arith in rw long (_, refl)

  segments-overflow :
      (fuel d a : ℕ) (s rest : String)
      → is_empty s ≡ false
      → segment scale s ≡ ok (a, rest)
      → IsErr (add scale d a)
      → IsErr (segments scale (suc fuel) d s)
  unfolding segments
  segments-overflow fuel d a String.[] rest given h (e, over) = cc
  segments-overflow fuel d a (String.◌∷◌ c s) rest given h (e, over) = (e, rw (h, over) refl)

  segments-IsErr :
      (fuel d : ℕ) (ps : List Part)
      → length ps ≤ fuel
      → d ≤ 2 ^ 63
      → 2 ^ 63 < d + total ps
      → NoneExact ps
      → IsErr (segments scale fuel d (written ps))
  unfolding written total NoneExact
  segments-IsErr fuel d [] le low over none = absurd (omega arith)
  segments-IsErr zero d (p ∷ ps) le low over none = absurd (omega arith)
  segments-IsErr (suc fuel) d (p ∷ ps) le low over (other, none) =
      let given = is_empty-written p ps in
      elim (Bool-cases (ltb (2 ^ 63) (length_of p))) [
        | inl long ↦ segments-refuse fuel d (written (p ∷ ps)) given (
            segment-IsErr p.numeral p.count p.unit (written ps) p.reads (ltb→lt _ _ long)
              (written-IsBoundary ps))
        | inr short ↦
            let least : length_of p < 2 ^ 63 = below (length_of p) short other in
            let read =
              segment-part scale p.numeral p.count p.unit (written ps) p.reads
                (omega (arith, least)) (written-IsBoundary ps) in
            elim (Bool-cases (ltb (2 ^ 63) (d + length_of p))) [
              | inl beyond ↦
                  segments-overflow fuel d (length_of p) (written (p ∷ ps)) (written ps) given read
                    (too_long d (length_of p) low least (ltb→lt _ _ beyond))
              | inr within ↦
                  let fits : d + length_of p ≤ 2 ^ 63 = ground (arith, within) in
                  let (e, refused) =
                    segments-IsErr fuel (d + length_of p) ps (omega (arith, le)) fits
                      (omega (arith, over)) none in
                  (
                    e,
                    segments-step scale fuel d (length_of p) (written (p ∷ ps)) (written ps) read
                          fits
                        ∙ refused,
                  )
            ]
      ]

  unsigned-IsErr :
      (negative : Bool) (p : Part) (ps : List Part)
      → 2 ^ 63 < total (p ∷ ps)
      → NoneExact (p ∷ ps)
      → IsErr (unsigned scale negative (written (p ∷ ps)))
  unfolding unsigned
  unsigned-IsErr negative p ps over none =
      let long = written-size (p ∷ ps) in
      let (e, refused) =
        segments-IsErr (size (written (p ∷ ps))) 0 (p ∷ ps) (omega (arith, long)) (omega arith)
          (omega (arith, over)) none in
      rw
        (
          not_zero (written (p ∷ ps)) (omega (arith, long)),
          not_empty (written (p ∷ ps)) (omega (arith, long)),
          refused,
        )
        (e, refl)

  -- A written duration that is too long is refused.
  pub parse_duration-IsErr :
      (negative : Bool) (p : Part) (ps : List Part)
      → 2 ^ 63 < total (p ∷ ps)
      → NoneExact (p ∷ ps)
      → IsErr (parse_duration scale (sign negative ++ written (p ∷ ps)))
  unfolding parse_duration signed
  parse_duration-IsErr negative p ps over none =
      rw (split_sign-written negative (written (p ∷ ps)) (written-starts p ps))
        (unsigned-IsErr negative p ps over none)

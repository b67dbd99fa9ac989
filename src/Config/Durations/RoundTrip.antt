-- ===== src/Config/Durations/RoundTrip.antt =====
-- A written duration is read back.
use Prim.Native.String.{◌++◌}
use text.Mathlib.TextLemmas.{cons-append}
use Prim.Native.Char.{Char}
use ginblade.Prelude.Int.{pos}
use ginblade.Config.Durations.{
  negate, unsigned, signed, parse_duration, size, leading_int, segment, segments, add, after_whole,
  after_int, with_unit,
}
use ginblade.Prelude.{
  if◌then◌else◌, length, ◌==◌, none-ne-some, ℕ, zero, suc, ◌≤◌, ◌+◌, ◌*◌, ◌^◌, ◌≡◌, ap, sym, ◌∙◌,
  code, String, Bool, true, arith, some, List, [], ◌∷◌, ◌<◌,
}
use ginblade.Errors.{Result, ok, ok-ne-err}
use ginblade.Config.Numbers.{is_digit, parse_digits}
use ginblade.Config.Durations.Written.{
  TimeUnit, Part, unit_name, unit_size, length_of, written, total, IsBoundary, written-IsBoundary,
  written-size, written-starts, sign, signed_total, split_sign-written, finish-total, not_zero,
  not_empty,
}
use ginblade.Config.Durations.Pieces.{
  leading_int-digits, or-true, split_unit-name, unit_name-IsName, BeginsName-append,
  unit_name-BeginsName, BeginsName-IsPast, no_fraction, is_empty-name, unit_map-name, in_unit,
  count-le, starts-digit,
}

module _ (scale : ℕ → ℕ → ℕ → ℕ) where
  with_unit-name :
      (u : TimeUnit) (n : ℕ) (rest : String)
      → n * unit_size u ≤ 2 ^ 63
      → with_unit scale n 0 0 (unit_name u, rest) ≡ ok (n * unit_size u, rest)
  unfolding with_unit
  with_unit-name u n rest le = rw (is_empty-name u, unit_map-name u, in_unit u n le)

  after_whole-name :
      (u : TimeUnit) (n : ℕ) (rest : String)
      → n * unit_size u ≤ 2 ^ 63
      → IsBoundary rest
      → after_whole scale true (ok (n, unit_name u ++ rest)) ≡ ok (n * unit_size u, rest)
  unfolding after_whole after_int
  after_whole-name u n rest le ends =
      rw
        (
          no_fraction (unit_name u ++ rest)
              (BeginsName-append (unit_name u) rest (unit_name-BeginsName u)),
          split_unit-name (unit_name u) rest (unit_name-IsName u) ends,
        )
        (with_unit-name u n rest le)

  pub segment-cons :
      (c : Char) (s : String) (n : ℕ) (r : Result (ℕ × String))
      → is_digit (code c) ≡ true
      → leading_int 0 (String.◌∷◌ c s) ≡ r
      → segment scale (String.◌∷◌ c s) ≡ after_whole scale true r
  unfolding segment
  segment-cons c s n r digit h = rw (or-true (code c == b'.') _ digit, h, digit)

  -- The loop's body reads one part.
  pub segment-part :
      (s : String) (n : ℕ) (u : TimeUnit) (rest : String)
      → parse_digits s ≡ some n
      → n * unit_size u ≤ 2 ^ 63
      → IsBoundary rest
      → segment scale (s ++ (unit_name u ++ rest)) ≡ ok (n * unit_size u, rest)
  unfolding parse_digits
  segment-part String.[] n u rest h le ends = absurd (none-ne-some n h)
  segment-part (String.◌∷◌ c s) n u rest h le ends =
      let past =
        BeginsName-IsPast _ (BeginsName-append (unit_name u) rest (unit_name-BeginsName u)) in
      let read =
        leading_int-digits 0 n (String.◌∷◌ c s) (unit_name u ++ rest) h (count-le u n le) past in
      rw cons-append (
        segment-cons c (s ++ (unit_name u ++ rest)) n (ok (n, unit_name u ++ rest))
          (starts-digit c s n h) (rw cons-append at read)
        ∙ after_whole-name u n rest le ends)

  add-small : (d v : ℕ) → d + v ≤ 2 ^ 63 → add scale d v ≡ ok (d + v)
  add-small d v le = ground arith

  -- One pass of the loop.
  pub segments-step :
      (fuel d a : ℕ) (s rest : String)
      → segment scale s ≡ ok (a, rest)
      → d + a ≤ 2 ^ 63
      → segments scale (suc fuel) d s ≡ segments scale fuel (d + a) rest
  unfolding segments
  segments-step fuel d a String.[] rest h le = absurd (ok-ne-err (sym h))
  segments-step fuel d a (String.◌∷◌ c s) rest h le = rw (h, add-small d a le)

  pub segments-written :
      (fuel d : ℕ) (ps : List Part)
      → length ps ≤ fuel
      → d + total ps ≤ 2 ^ 63
      → segments scale fuel d (written ps) ≡ ok (d + total ps)
  unfolding segments written total
  segments-written fuel d [] le bound = ap ok (omega arith)
  segments-written zero d (p ∷ ps) le bound = absurd (omega arith)
  segments-written (suc fuel) d (p ∷ ps) le bound =
      segments-step fuel d (length_of p) (written (p ∷ ps)) (written ps)
        (segment-part p.numeral p.count p.unit (written ps) p.reads (omega (arith, bound))
          (written-IsBoundary ps))
        (omega (arith, bound))
      ∙ segments-written fuel (d + length_of p) ps (omega (arith, le)) (omega (arith, bound))
      ∙ ap ok (omega arith)

  unsigned-written :
      (negative : Bool) (p : Part) (ps : List Part)
      → total (p ∷ ps) < 2 ^ 63
      → unsigned scale negative (written (p ∷ ps)) ≡ ok (signed_total negative (p ∷ ps))
  unfolding unsigned
  unsigned-written negative p ps le =
      let long = written-size (p ∷ ps) in
      rw
        (
          not_zero (written (p ∷ ps)) (omega (arith, long)),
          not_empty (written (p ∷ ps)) (omega (arith, long)),
          segments-written (size (written (p ∷ ps))) 0 (p ∷ ps) (omega (arith, long))
              (omega (arith, le)),
        )
        (finish-total negative (0 + total (p ∷ ps)) (omega (arith, le))
          ∙ ap (λ n. ok (if negative then negate n else pos n)) (omega arith))

  -- A written duration is read back.
  pub parse_duration-written :
      (negative : Bool) (p : Part) (ps : List Part)
      → total (p ∷ ps) < 2 ^ 63
      → parse_duration scale (sign negative ++ written (p ∷ ps))
        ≡ ok (signed_total negative (p ∷ ps))
  unfolding parse_duration signed
  parse_duration-written negative p ps le =
      rw (split_sign-written negative (written (p ∷ ps)) (written-starts p ps))
        (unsigned-written negative p ps le)

-- ===== src/Encoding/Escapes.antt =====
-- Scanning what appendString wrote.
use Prim.Native.Char.{Char}
use Prim.Native.String.{◌++◌}
use text.Mathlib.TextLemmas.{nil-append, cons-append, append-nil, append_assoc}
use text.Mathlib.TextEquality.{Char-path}
use native.Mathlib.Decide.{dec_lt}
use ginblade.Encoding.{rune, hex_digit, is_unsafe, escape, escapes, dite, behind_slash, code_unit}
use ginblade.Encoding.Literal.{
  Reading, plain, emit, is_surrogate, digits, read_char, unescape, hex_value,
}
use ginblade.Encoding.Scan.{Scan, literal, step, run}
use ginblade.Prelude.{
  ℕ, suc, ◌+◌, ◌-◌, ◌*◌, ◌/◌, ◌%◌, ◌<◌, ◌≡◌, refl, ap, sym, ◌∙◌, code, String, Bool, true, false,
  ◌||◌, Option, none, some, Bool-cases, inl, inr, ltb, ◌==◌, arith, if◌then◌else◌,
}

code_of_dite :
    {P : Type 0} (d : Dec P) (n : ℕ) (f : P → Char) (g : ¬ P → Char)
    → P
    → ((p : P) → code (f p) ≡ n)
    → code (dite d f g) ≡ n
code_of_dite (Dec.yes p) n f g h k = k p
code_of_dite (Dec.no q) n f g h k = absurd (q h)

code-rune : (n : ℕ) → n < 55296 → code (rune n) ≡ n
unfolding rune
code-rune n h = code_of_dite (dec_lt n 55296) n _ _ h (λ k. refl)

rune-code : (c : Char) (n : ℕ) → code c ≡ n → code c < 55296 → rune n ≡ c
rune-code c n e h = Char-path (rune n) c (code-rune n (rw (← e) h) ∙ sym e)

-- A literal that is read up to `t`.
abbrev pub reading : Bool → String → Scan → Scan
reading k t m = record m { mode = literal k (record { text = t; high = none; place = plain }) }

hex_value-hex_digit : (n : ℕ) → n < 16 → hex_value (code (hex_digit n)) ≡ some n
unfolding hex_value hex_digit
hex_value-hex_digit n h = elim (Bool-cases (ltb n 10)) [
  | inl small ↦ rw (small, code-rune (b'0' + n) (omega arith)) (ground arith)
  | inr large ↦ rw (large, code-rune (b'a' + (n - 10)) (omega arith)) (ground arith)
]

run-none : (s : String) → run s none ≡ none
unfolding run
run-none String.[] = refl
run-none (String.◌∷◌ c s) = refl

pub run-append : (p t : String) (m : Option Scan) → run (p ++ t) m ≡ run t (run p m)
unfolding run
run-append String.[] t m = rw nil-append refl
run-append (String.◌∷◌ c p) t none = rw cons-append (sym (run-none t))
run-append (String.◌∷◌ c p) t (some m) = rw cons-append (run-append p t (step c m))

module _ (k : Bool) (m : Scan) where
  -- One character that is read as itself.
  run-plain :
      (t rest : String) (c : Char)
      → (code c == b'"') ≡ false
      → (code c == b'\\') ≡ false
      → ltb (code c) 32 ≡ false
      → run (String.◌∷◌ c rest) (some (reading k t m))
        ≡ run rest (some (reading k (t ++ String.◌∷◌ c "") m))
  unfolding run step read_char
  run-plain t rest c q b l = rw (q, b, l) refl

  run-slash :
      (t rest : String) (c : Char)
      → (code c == b'"' || code c == b'\\') ≡ true
      → run (behind_slash c rest) (some (reading k t m))
        ≡ run rest (some (reading k (t ++ String.◌∷◌ c "") m))
  unfolding run step read_char unescape
  run-slash t rest c e =
      let known : (code c == b'"' || code c == b'\\' || code c == b'/') ≡ true = ground arith in
      rw known refl

  -- A letter behind a backslash that stands for a character.
  run-letter :
      (t rest : String) (c l : Char) (n : ℕ)
      → ((r : Reading) → unescape l r ≡ emit (rune n) r)
      → code c ≡ n
      → code c < 55296
      → run (behind_slash l rest) (some (reading k t m))
        ≡ run rest (some (reading k (t ++ String.◌∷◌ c "") m))
  unfolding run step read_char
  run-letter t rest c l n h e le = rw (h _, rune-code c n e le) refl

  -- A literal that is read up to `t`, in a \u.
  abbrev in_unit : String → ℕ → ℕ → Scan
  in_unit t left value = record m {
    mode = literal k (record { text = t; high = none; place = digits left value });
  }

  run-begin_unit :
      (t rest : String)
      → run (behind_slash "u" rest) (some (reading k t m)) ≡ run rest (some (in_unit t 3 0))
  unfolding run step read_char unescape
  run-begin_unit t rest = refl

  run-digit :
      (t rest : String) (c : Char) (left value v : ℕ)
      → hex_value (code c) ≡ some v
      → run (String.◌∷◌ c rest) (some (in_unit t (suc left) value))
        ≡ run rest (some (in_unit t left (value * 16 + v)))
  unfolding run step read_char
  run-digit t rest c left value v h = rw h refl

  run-last_digit :
      (t rest : String) (c x : Char) (value v : ℕ)
      → hex_value (code c) ≡ some v
      → code x ≡ value * 16 + v
      → code x < 55296
      → run (String.◌∷◌ c rest) (some (in_unit t 0 value))
        ≡ run rest (some (reading k (t ++ String.◌∷◌ x "") m))
  unfolding run step read_char
  run-last_digit t rest c x value v h e le =
      let low : is_surrogate (value * 16 + v) ≡ false = rw (← e) (ground arith) in
      rw (h, low, rune-code x _ e le) refl

  -- Four digits behind \u that stand for a character below the surrogates.
  run-unit :
      (t rest : String) (x a b c d : Char) (p q u v : ℕ)
      → hex_value (code a) ≡ some p
      → hex_value (code b) ≡ some q
      → hex_value (code c) ≡ some u
      → hex_value (code d) ≡ some v
      → code x ≡ (((0 * 16 + p) * 16 + q) * 16 + u) * 16 + v
      → code x < 55296
      → run (code_unit a b c d rest) (some (reading k t m))
        ≡ run rest (some (reading k (t ++ String.◌∷◌ x "") m))
  run-unit t rest x a b c d p q u v ha hb hc hd e le =
      run-begin_unit t _
      ∙ run-digit t _ a 2 _ p ha
      ∙ run-digit t _ b 1 _ q hb
      ∙ run-digit t _ c 0 _ u hc
      ∙ run-last_digit t rest d x _ v hd e le

  run-choice :
      (b : Bool) (x y : String) (t : String) (n : Option Scan)
      → (b ≡ true → run x (some (reading k t m)) ≡ n)
      → (b ≡ false → run y (some (reading k t m)) ≡ n)
      → run (if b then x else y) (some (reading k t m)) ≡ n
  run-choice true x y t n h g = h refl
  run-choice false x y t n h g = g refl

  run-named :
      (t rest : String) (c l : Char) (n : ℕ)
      → ((r : Reading) → unescape l r ≡ emit (rune n) r)
      → n < 55296
      → (code c == n) ≡ true
      → run (behind_slash l rest) (some (reading k t m))
        ≡ run rest (some (reading k (t ++ String.◌∷◌ c "") m))
  run-named t rest c l n h le e =
      let same : code c ≡ n = ground arith in run-letter t rest c l n h same (rw same le)

  run-unsafe :
      (t rest : String) (c : Char)
      → is_unsafe (code c) ≡ true
      → run
          (code_unit "0" "0" (hex_digit (code c / 16)) (hex_digit (code c % 16)) rest)
          (some (reading k t m))
        ≡ run rest (some (reading k (t ++ String.◌∷◌ c "") m))
  unfolding hex_value
  run-unsafe t rest c e =
      let small : code c < 256 = ground arith in
      run-unit t rest c "0" "0" _ _ 0 0 (code c / 16) (code c % 16) refl refl
        (hex_value-hex_digit (code c / 16) (omega arith))
        (hex_value-hex_digit (code c % 16) (omega arith)) (omega arith) (omega arith)

  run-separator :
      (t rest : String) (c d : Char) (v : ℕ)
      → hex_value (code d) ≡ some v
      → v < 16
      → (code c == 8224 + v) ≡ true
      → run (code_unit "2" "0" "2" d rest) (some (reading k t m))
        ≡ run rest (some (reading k (t ++ String.◌∷◌ c "") m))
  unfolding hex_value
  run-separator t rest c d v h le e =
      let same : code c ≡ 8224 + v = ground arith in
      run-unit t rest c "2" "0" "2" d 2 0 2 v refl refl refl h (omega arith) (omega arith)

  -- A character that appendString wrote is read as itself.
  run-escape :
      (t rest : String) (c : Char)
      → run (escape c rest) (some (reading k t m))
        ≡ run rest (some (reading k (t ++ String.◌∷◌ c "") m))
  unfolding escape unescape hex_value
  run-escape t rest c = run-choice _ _ _ t _ (run-slash t rest c) (λ e1.
      run-choice _ _ _ t _ (run-named t rest c "b" 8 (λ r. refl) (omega arith)) (λ e2.
        run-choice _ _ _ t _ (run-named t rest c "f" 12 (λ r. refl) (omega arith)) (λ e3.
          run-choice _ _ _ t _ (run-named t rest c "n" 10 (λ r. refl) (omega arith)) (λ e4.
            run-choice _ _ _ t _ (run-named t rest c "r" 13 (λ r. refl) (omega arith)) (λ e5.
              run-choice _ _ _ t _ (run-named t rest c "t" 9 (λ r. refl) (omega arith)) (λ e6.
                run-choice _ _ _ t _ (run-unsafe t rest c) (λ e7.
                  run-choice _ _ _ t _ (run-separator t rest c "8" 8 refl (omega arith)) (λ e8.
                    run-choice _ _ _ t _ (run-separator t rest c "9" 9 refl (omega arith)) (λ e9.
                      run-plain t rest c (ground arith) (ground arith) (ground arith))))))))))

  -- A text that appendString wrote is read as itself.
  pub run-escapes :
      (t s rest : String)
      → run (escapes s rest) (some (reading k t m)) ≡ run rest (some (reading k (t ++ s) m))
  unfolding escapes
  run-escapes t String.[] rest = rw (append-nil t) refl
  run-escapes t (String.◌∷◌ c s) rest =
      let joined : (t ++ String.◌∷◌ c "") ++ s ≡ t ++ String.◌∷◌ c s =
        append_assoc t (String.◌∷◌ c "") s
        ∙ ap (λ u. t ++ u) (cons-append c "" s ∙ ap (λ u. String.◌∷◌ c u) (nil-append s)) in
      run-escape t (escapes s rest) c
      ∙ run-escapes (t ++ String.◌∷◌ c "") s rest
      ∙ ap (λ u. run rest (some (reading k u m))) joined

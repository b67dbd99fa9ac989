-- ===== src/Prelude/Text/Append.antt =====
-- How the functions on texts act on a text with a known beginning or end.
use Prim.Native.Nat.{ℕ, zero, suc}
use Prim.Native.Char.{Char, code}
use Prim.Native.String.{String, ◌++◌}
use mathlib.Core.Path.{◌≡◌, refl, sym, ap, ◌∙◌}
use mathlib.Core.Bool.{true, false}
use native.Mathlib.Omega.{arith}
use text.Mathlib.TextLemmas.{nil-append, cons-append}
use ginblade.Prelude.Text.{
  is_empty, is_space, trim_left, trim_right, trim_space, has_prefix, to_lower, drop_ascii,
}
use ginblade.Prelude.Text.Trim.{trim_right_idem}

pub has_prefix-append :
    (p t q : String) → has_prefix (to_lower p) q ≡ true → has_prefix (to_lower (p ++ t)) q ≡ true
unfolding has_prefix to_lower
has_prefix-append String.[] t String.[] h = refl
has_prefix-append String.[] t (String.◌∷◌ d q) h = cc
has_prefix-append (String.◌∷◌ c p) t String.[] h = refl
has_prefix-append (String.◌∷◌ c p) t (String.◌∷◌ d q) h =
    rw cons-append (ground (arith, has_prefix-append p t q))

-- The number of characters.
abbrev pub size : String → ℕ
size String.[] = zero
size (String.◌∷◌ c s) = suc (size s)

pub drop_ascii-append : (p t : String) → drop_ascii (size p) (p ++ t) ≡ t
unfolding drop_ascii
drop_ascii-append String.[] t = nil-append t
drop_ascii-append (String.◌∷◌ c p) t = rw cons-append (drop_ascii-append p t)

is_empty-append : (p t : String) → is_empty t ≡ false → is_empty (p ++ t) ≡ false
is_empty-append String.[] t h = rw nil-append h
is_empty-append (String.◌∷◌ c p) t h = rw cons-append refl

trim_right-append :
    (p t : String) → is_empty t ≡ false → trim_right t ≡ t → trim_right (p ++ t) ≡ p ++ t
unfolding trim_right
trim_right-append String.[] t e h = rw nil-append h
trim_right-append (String.◌∷◌ c p) t e h =
    rw cons-append (ground (arith, trim_right-append p t e h, is_empty-append p t e))

trim_left-append :
    (c : Char) (p t : String)
    → is_space (code c) ≡ false
    → trim_left (String.◌∷◌ c p ++ t) ≡ String.◌∷◌ c p ++ t
unfolding trim_left
trim_left-append c p t h = rw cons-append (rw h)

-- A text that begins with a character that is no space, and ends in a trimmed text, is trimmed.
pub trim_space-append :
    (c : Char) (p t : String)
    → is_space (code c) ≡ false
    → is_empty t ≡ false
    → trim_space t ≡ t
    → trim_space (String.◌∷◌ c p ++ t) ≡ String.◌∷◌ c p ++ t
unfolding trim_space
trim_space-append c p t h e k =
    ap trim_right (trim_left-append c p t h)
    ∙ trim_right-append (String.◌∷◌ c p) t e
        (ap trim_right (sym k) ∙ trim_right_idem (trim_left t) ∙ k)

-- ===== src/Base/Texts.antt =====
-- Tests on the characters of a text, by their code points.
use Prim.Native.Nat.{ℕ, ◌<◌}
use Prim.Native.String.len
use Prim.Native.String.{String, [], ◌∷◌, len}
use Prim.Native.Char.{code}
use mathlib.Core.Bool.{Bool, true, false, ◌&&◌, ◌||◌}
use mathlib.Core.Path.{◌≡◌}
use native.Mathlib.Omega.{arith}
use text.Mathlib.Text.{◌==◌ as str_eq}
use text.Mathlib.TextPositions.{len_utf8-pos}
use observe_agent.Base.Tests.{◌==◌, leb}

abbrev pub any_char : (ℕ → Bool) → String → Bool
any_char p [] = false
any_char p (c ∷ s) = p (code c) || any_char p s

abbrev pub all_chars : (ℕ → Bool) → String → Bool
all_chars p [] = true
all_chars p (c ∷ s) = p (code c) && all_chars p s

abbrev pub first_char : (ℕ → Bool) → String → Bool
first_char p [] = false
first_char p (c ∷ s) = p (code c)

-- CR, LF and NUL.
abbrev pub is_break : ℕ → Bool
is_break c = c == 13 || c == 10 || c == 0

abbrev pub is_alphanumeric : ℕ → Bool
is_alphanumeric c = (leb 48 c && leb c 57) || (leb 65 c && leb c 90) || (leb 97 c && leb c 122)

pub len-nonzero : (k : String) → str_eq k "" ≡ false → 0 < len k
len-nonzero [] h = cc
len-nonzero (c ∷ s) h = omega (arith, len.cons c s, (len_utf8-pos c).1)

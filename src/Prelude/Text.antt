-- ===== src/Prelude/Text.antt =====
-- White space and the length of a text, as `str.strip` and `len` of Python take them.
use Prim.Native.Nat.{ℕ}
use Prim.Native.Char.{code}
use Prim.Native.String.{String, count as count_chars, ◌++◌ as append_text}
use mathlib.Core.Bool.{Bool, true, false, ◌&&◌, ◌||◌}
use mathlib.Core.Option.{Option, none, some}
use mathlib.Core.List.{List, [], ◌∷◌}
use text.Mathlib.Text.{◌==◌ as str_eq}
use doc_grading.Prelude.Tests.{◌==◌, leb, if◌then◌else◌}
use doc_grading.Prelude.Lists.{any}

abbrev is_between : ℕ → ℕ → ℕ → Bool
is_between a b n = leb a n && leb n b

-- `str.isspace` of one character, by its code point
abbrev pub is_space : ℕ → Bool
is_space n =
    is_between 9 13 n
    || is_between 28 32 n
    || is_between 8192 8202 n
    || any (λ m. m == n) (133 ∷ 160 ∷ 5760 ∷ 8232 ∷ 8233 ∷ 8239 ∷ 8287 ∷ 12288 ∷ [])

-- `not s.strip()`
unfoldable pub is_blank : String → Bool
is_blank String.[] = true
is_blank (String.◌∷◌ c s) = is_space (code c) && is_blank s

-- `len(s)`
abbrev pub len_text : String → ℕ
len_text s = count_chars s

-- `all(p(c) for c in s)`, on code points
unfoldable pub all_chars : (ℕ → Bool) → String → Bool
all_chars p String.[] = true
all_chars p (String.◌∷◌ c s) = p (code c) && all_chars p s

-- `s.rstrip()`
unfoldable pub rstrip : String → String
unfolding is_blank
rstrip String.[] = ""
rstrip (String.◌∷◌ c s) = if is_space (code c) && is_blank s then "" else String.◌∷◌ c (rstrip s)

unfoldable pub lstrip : String → String
lstrip String.[] = ""
lstrip (String.◌∷◌ c s) = if is_space (code c) then lstrip s else String.◌∷◌ c s

-- `s.strip()`
unfoldable pub strip : String → String
unfolding rstrip lstrip
strip s = lstrip (rstrip s)

-- the parts of a format string, one after another
unfoldable pub concat : List String → String
concat [] = ""
concat (s ∷ ss) = append_text s (concat ss)

-- equality of optional texts
abbrev pub str_opt_eq : Option String → Option String → Bool
str_opt_eq none none = true
str_opt_eq (some a) (some b) = str_eq a b
str_opt_eq _ _ = false

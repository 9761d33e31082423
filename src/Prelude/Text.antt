-- ===== src/Prelude/Text.antt =====
-- Rust's `str` as its list of code points, and the operations of the standard library that the
-- program calls on it. Offsets count code points: the source's byte offsets stand at the same
-- places, since a match of valid UTF-8 starts and ends at a code point.
pub mod Trim
pub mod Equality
pub mod Order
use Prim.Native.Nat.{ℕ, zero, suc, ◌+◌}
use Prim.Native.Char.{code}
use Prim.Native.String.{String}
use mathlib.Core.Bool.{Bool, true, false, not, ◌&&◌, ◌||◌}
use mathlib.Core.Option
use mathlib.Core.Option.{Option, none, some}
use mathlib.Core.List.{List, [], ◌∷◌, ◌++◌, map}
use tech_atlas.Prelude.Tests.{ltb, leb, ◌==◌, if◌then◌else◌}
use tech_atlas.Prelude.Lists.{any}

abbrev pub Text : Type 0
Text = List ℕ

-- The code points of a literal.
abbrev pub text : String → Text
text String.[] = []
text (String.◌∷◌ c s) = code c ∷ text s

unfoldable pub eq_text : Text → Text → Bool
eq_text [] [] = true
eq_text (a ∷ s) (b ∷ t) = a == b && eq_text s t
eq_text _ _ = false

abbrev pub is_empty : Text → Bool
is_empty [] = true
is_empty (c ∷ s) = false

-- Unicode's White_Space, the set of `char::is_whitespace`.
unfoldable pub is_whitespace : ℕ → Bool
is_whitespace c =
    (leb 9 c && leb c 13)
    || c == 32
    || c == 0x85
    || c == 0xa0
    || c == 0x1680
    || (leb 0x2000 c && leb c 0x200a)
    || c == 0x2028
    || c == 0x2029
    || c == 0x202f
    || c == 0x205f
    || c == 0x3000

unfoldable pub trim_start : Text → Text
trim_start [] = []
trim_start (c ∷ s) = if is_whitespace c then trim_start s else c ∷ s

-- Puts a code point before a text that is trimmed at its end.
abbrev pub keep_start : ℕ → Text → Text
keep_start c [] = if is_whitespace c then [] else c ∷ []
keep_start c (d ∷ s) = c ∷ d ∷ s

unfoldable pub trim_end : Text → Text
trim_end [] = []
trim_end (c ∷ s) = keep_start c (trim_end s)

unfoldable pub trim : Text → Text
unfolding trim_start trim_end is_whitespace
trim s = trim_end (trim_start s)

-- `to_ascii_lowercase` on one code point and on a text.
unfoldable pub lower : ℕ → ℕ
lower c = if leb 65 c && leb c 90 then c + 32 else c

unfoldable pub to_ascii_lowercase : Text → Text
unfolding lower
to_ascii_lowercase = map lower

unfoldable pub starts_with : Text → Text → Bool
starts_with s [] = true
starts_with [] (p ∷ ps) = false
starts_with (c ∷ s) (p ∷ ps) = c == p && starts_with s ps

-- `find` of a text: the offset of its first occurrence.
unfoldable pub find_text : Text → Text → Option ℕ
unfolding starts_with
find_text [] p = if starts_with [] p then some 0 else none
find_text (c ∷ s) p = if starts_with (c ∷ s) p then some 0 else Option.map suc (find_text s p)

unfoldable pub contains : Text → Text → Bool
unfolding starts_with
contains [] p = starts_with [] p
contains (c ∷ s) p = starts_with (c ∷ s) p || contains s p

-- `split(separator)`: never empty, and the separators are dropped.
abbrev pub push_first : ℕ → List Text → List Text
push_first c [] = (c ∷ []) ∷ []
push_first c (s ∷ rest) = (c ∷ s) ∷ rest

unfoldable pub split : ℕ → Text → List Text
split sep [] = [] ∷ []
split sep (c ∷ s) = if c == sep then [] ∷ split sep s else push_first c (split sep s)

-- `split_once(separator)`
abbrev pub in_front : ℕ → Text × Text → Text × Text
in_front c (a, b) = (c ∷ a, b)

unfoldable pub split_once : ℕ → Text → Option (Text × Text)
split_once sep [] = none
split_once sep (c ∷ s) =
    if c == sep then some ([], s) else Option.map (in_front c) (split_once sep s)

-- The part before the first separator: `split(separator).next()`.
unfoldable pub before : ℕ → Text → Text
before sep [] = []
before sep (c ∷ s) = if c == sep then [] else c ∷ before sep s

unfoldable pub ends_with : ℕ → Text → Bool
ends_with c [] = false
ends_with c (d ∷ []) = d == c
ends_with c (d ∷ e ∷ s) = ends_with c (e ∷ s)

-- `strip_suffix(character).unwrap_or(self)`
unfoldable pub strip_last : ℕ → Text → Text
strip_last c [] = []
strip_last c (d ∷ []) = if d == c then [] else d ∷ []
strip_last c (d ∷ e ∷ s) = d ∷ strip_last c (e ∷ s)

-- The width of one code point in UTF-8, and `str::len`.
abbrev pub utf8_width : ℕ → ℕ
utf8_width c = if ltb c 0x80 then 1 else if ltb c 0x800 then 2 else if ltb c 0x10000 then 3 else 4

unfoldable pub utf8_len : Text → ℕ
utf8_len [] = 0
utf8_len (c ∷ s) = utf8_width c + utf8_len s

unfoldable pub is_one_of : Text → List Text → Bool
unfolding eq_text
is_one_of s names = any (eq_text s) names

-- `eq_ignore_ascii_case`
abbrev pub eq_ignore_ascii_case : Text → Text → Bool
eq_ignore_ascii_case s t = eq_text (to_ascii_lowercase s) (to_ascii_lowercase t)

-- `split_whitespace`: the words between runs of white space.
abbrev pub starts_word : Text → Bool
starts_word [] = false
starts_word (c ∷ s) = not (is_whitespace c)

unfoldable pub split_whitespace : Text → List Text
unfolding is_whitespace
split_whitespace [] = []
split_whitespace (c ∷ s) =
    let rest = split_whitespace s in
    if is_whitespace c then rest else if starts_word s then push_first c rest else (c ∷ []) ∷ rest

-- `join(" ")`
unfoldable pub join_words : List Text → Text
join_words [] = []
join_words (w ∷ []) = w
join_words (w ∷ v ∷ rest) = w ++ 32 ∷ join_words (v ∷ rest)

-- `trim_end_matches(character)`
abbrev pub keep_unless : ℕ → ℕ → Text → Text
keep_unless last c [] = if c == last then [] else c ∷ []
keep_unless last c (d ∷ s) = c ∷ d ∷ s

unfoldable pub trim_end_matches : ℕ → Text → Text
trim_end_matches last [] = []
trim_end_matches last (c ∷ s) = keep_unless last c (trim_end_matches last s)

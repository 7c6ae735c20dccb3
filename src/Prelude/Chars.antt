-- ===== src/Prelude/Chars.antt =====
-- Python's string methods that read characters: strip, lower, split, replace, and int(text).
-- Spaces, letters and digits are the ASCII ones.
use Prim.Native.Nat.{ℕ, ◌+◌, ◌-◌, ◌*◌}
use Prim.Native.Char.{Char, code}
use Prim.Native.String.{String, ◌++◌}
use mathlib.Core.Bool.{Bool, true, false, ◌||◌, ◌&&◌}
use mathlib.Core.List.{List, [], ◌∷◌}
use mathlib.Core.Option.{Option, none, some}
use tacktcix.Prelude.Tests.{leb, nat_beq, if◌then◌else◌}
use tacktcix.Prelude.Classes.{◌==◌, string_eq}
use tacktcix.Prelude.Int.{ℤ, pos, sub_ℕ}

abbrev pub one_char : Char → String
one_char c = String.◌∷◌ c String.[]

-- Tab to carriage return, file to unit separator, and the space.
abbrev pub is_space : ℕ → Bool
is_space c = (leb 9 c && leb c 13) || (leb 28 c && leb c 32)

abbrev pub lstrip : String → String
lstrip String.[] = String.[]
lstrip (String.◌∷◌ c s) = if is_space (code c) then lstrip s else String.◌∷◌ c s

-- A space is kept only in front of something that is kept.
abbrev pub push_front : Char → String → String
push_front c String.[] = if is_space (code c) then String.[] else one_char c
push_front c (String.◌∷◌ d s) = String.◌∷◌ c (String.◌∷◌ d s)

abbrev pub rstrip : String → String
rstrip String.[] = String.[]
rstrip (String.◌∷◌ c s) = push_front c (rstrip s)

unfoldable pub strip : String → String
strip s = lstrip (rstrip s)

-- `s.split(sep)` for a separator of one character: never empty.
abbrev pub onto_first : Char → List String → List String
onto_first c [] = one_char c ∷ []
onto_first c (s ∷ rest) = String.◌∷◌ c s ∷ rest

abbrev pub split_on : ℕ → String → List String
split_on sep String.[] = "" ∷ []
split_on sep (String.◌∷◌ c s) =
    if nat_beq (code c) sep then "" ∷ split_on sep s else onto_first c (split_on sep s)

-- `s.lower() == t` for a `t` of ASCII lower case letters.
abbrev pub lower_code : ℕ → ℕ
lower_code c = if leb b'A' c && leb c b'Z' then c + 32 else c

abbrev pub lower_is : String → String → Bool
lower_is String.[] String.[] = true
lower_is String.[] (String.◌∷◌ d t) = false
lower_is (String.◌∷◌ c s) String.[] = false
lower_is (String.◌∷◌ c s) (String.◌∷◌ d t) = nat_beq (lower_code (code c)) (code d) && lower_is s t

-- `s.replace(old, new)` for an `old` of one character.
abbrev pub replace_char : (old : ℕ) (new : String) → String → String
replace_char old new String.[] = ""
replace_char old new (String.◌∷◌ c s) =
    if nat_beq (code c) old
    then new ++ replace_char old new s
    else String.◌∷◌ c (replace_char old new s)

abbrev pub is_digit : ℕ → Bool
is_digit c = leb b'0' c && leb c b'9'

-- The digits from the left, with single underscores between them.
abbrev pub digits_from : (value : ℕ) (after_digit : Bool) → String → Option ℕ
digits_from value true String.[] = some value
digits_from value false String.[] = none
digits_from value after_digit (String.◌∷◌ c s) =
    let next = digits_from (value * 10 + (code c - b'0')) true s in
    let skip = digits_from value false s in
    if is_digit (code c) then next else if after_digit && nat_beq (code c) b'_' then skip else none

abbrev pub signed : String → Option ℤ
signed String.[] = none
signed (String.◌∷◌ c s) =
    if nat_beq (code c) b'-'
    then elim (digits_from 0 false s) [ none ↦ none | some n ↦ some (sub_ℕ 0 n) ]
    else if nat_beq (code c) b'+'
    then elim (digits_from 0 false s) [ none ↦ none | some n ↦ some (pos n) ]
    else elim (digits_from 0 false (String.◌∷◌ c s)) [ none ↦ none | some n ↦ some (pos n) ]

-- `int(s)`; `none` is ValueError.
abbrev pub int_of : String → Option ℤ
int_of s = signed (strip s)

-- `s.lower().startswith(needle)` and `needle in s.lower()`.
abbrev pub lower_starts : (needle s : String) → Bool
lower_starts String.[] s = true
lower_starts (String.◌∷◌ d t) String.[] = false
lower_starts (String.◌∷◌ d t) (String.◌∷◌ c s) =
    nat_beq (lower_code (code c)) (code d) && lower_starts t s

abbrev pub lower_has : (needle s : String) → Bool
lower_has needle String.[] = lower_starts needle String.[]
lower_has needle (String.◌∷◌ c s) = lower_starts needle (String.◌∷◌ c s) || lower_has needle s

-- `s.endswith(suffix)`
abbrev pub ends_with : (suffix s : String) → Bool
ends_with String.[] String.[] = true
ends_with (String.◌∷◌ d t) String.[] = false
ends_with suffix (String.◌∷◌ c s) = (String.◌∷◌ c s) == suffix || ends_with suffix s

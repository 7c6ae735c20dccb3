-- ===== src/Metrics/Paths.antt =====
-- `_normalize_path` of backend/app/core/metrics.py.
use Prim.Native.Char.{code}
use tacktcix.Prelude.{
  ℕ, zero, suc, String, Bool, true, false, Option, none, some, List, [], ◌∷◌, map, ◌&&◌, ◌||◌,
  nat_beq, leb, if◌then◌else◌, string_eq, ◌==◌,
}
use tacktcix.Prelude.Chars.{is_digit, split_on}
use tacktcix.Prelude.Text.{◌+ₛ◌, join}

-- `[0-9a-f]`
unfoldable pub is_hex : ℕ → Bool
is_hex c = is_digit c || (leb b'a' c && leb c b'f')

-- What follows n digits; `none` if they are not there.
unfoldable pub after_hex : (n : ℕ) → String → Option String
unfolding is_hex
after_hex zero s = some s
after_hex (suc n) String.[] = none
after_hex (suc n) (String.◌∷◌ c s) =
    let rest = after_hex n s in if is_hex (code c) then rest else none

unfoldable pub after_dash : Option String → Option String
after_dash none = none
after_dash (some String.[]) = none
after_dash (some (String.◌∷◌ c s)) = if nat_beq (code c) b'-' then some s else none

-- `{n}-{m}...` of the expression: the groups of digits that are left, with a dash before each.
unfoldable pub after_groups : List ℕ → Option String → Option String
unfolding after_hex after_dash
after_groups [] s = s
after_groups (n ∷ ns) s = elim (after_dash s) [
  | none ↦ none
  | some t ↦ after_groups ns (after_hex n t)
]

-- `$` also holds in front of a last line feed.
unfoldable pub is_uuid : String → Bool
unfolding after_groups
is_uuid seg = elim (after_groups (4 ∷ 4 ∷ 4 ∷ 12 ∷ []) (after_hex 8 seg)) [
  | none ↦ false
  | some rest ↦ rest == "" || rest == "\n"
]

all_digits : String → Bool
all_digits String.[] = true
all_digits (String.◌∷◌ c s) = is_digit (code c) && all_digits s

unfoldable pub normalize_segment : String → String
unfolding is_uuid all_digits
normalize_segment seg =
    if is_uuid seg
    then "{uuid}"
    else if seg == ""
    then seg
    else if all_digits seg
    then "{id}"
    else seg

-- `path.strip("/")`
lstrip_slash : String → String
lstrip_slash String.[] = String.[]
lstrip_slash (String.◌∷◌ c s) = if nat_beq (code c) b'/' then lstrip_slash s else String.◌∷◌ c s

-- A slash is kept only in front of something that is kept.
keep_slash : String → String → String
keep_slash slash kept = if kept == "" then "" else slash +ₛ kept

rstrip_slash : String → String
unfolding keep_slash
rstrip_slash String.[] = String.[]
rstrip_slash (String.◌∷◌ c s) =
    let kept = rstrip_slash s in
    if nat_beq (code c) b'/' then keep_slash "/" kept else String.◌∷◌ c kept

unfoldable pub normalize_path : String → String
unfolding normalize_segment lstrip_slash rstrip_slash
normalize_path path =
    "/" +ₛ join "/" (map normalize_segment (split_on b'/' (lstrip_slash (rstrip_slash path))))

-- ===== src/Prelude/Text.antt =====
-- Python's operations on strings that the program calls: `+`, `sep.join(...)`, `s in t`.
use Prim.Native.String.{String, ◌++◌}
use mathlib.Core.Bool.{Bool, true, false}
use mathlib.Core.List.{List, [], ◌∷◌}
use mathlib.Core.Option.{Option, none, some}
use tacktcix.Prelude.Tests.{if◌then◌else◌}
use tacktcix.Prelude.Classes.{◌==◌, string_eq}
use text.Mathlib.Text.{find?}

-- `x or default`
unfoldable pub or_default : Option String → (default : String) → String
or_default none default = default
or_default (some s) default = if s == "" then default else s

infixl 65 ◌+ₛ◌
abbrev pub ◌+ₛ◌ : String → String → String
s +ₛ t = s ++ t

abbrev pub join : String → List String → String
join sep [] = ""
join sep (s ∷ []) = s
join sep (s ∷ t ∷ rest) = s +ₛ sep +ₛ join sep (t ∷ rest)

-- `needle in s`
abbrev pub has_substring : (needle s : String) → Bool
has_substring needle s = elim (find? s needle) [ none ↦ false | some _ ↦ true ]

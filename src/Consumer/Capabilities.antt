-- ===== src/Consumer/Capabilities.antt =====
-- The capability list of a message (src/consumer.py) survives the way to the queue and back.
use tacktcix.Prelude.{
  ℕ, ◌≡◌, refl, sym, ap, ◌∙◌, String, Bool, true, false, List, [], ◌∷◌, ◌==◌, string_eq, All,
  nat_beq, true_not_false, Bool-cases, inl, inr, arith, ◌&&◌, not,
}
use Prim.Native.Char.{Char, code}
use Prim.Native.String.{◌++◌}
use text.Mathlib.TextLemmas.{cons-append, nil-append}
use tacktcix.Prelude.Chars.{strip, split_on}
use tacktcix.Prelude.Text.{◌+ₛ◌, join}
use tacktcix.Consumer.{keep_stripped, parse_capabilities}

abbrev pub lacks : ℕ → String → Bool
lacks sep String.[] = true
lacks sep (String.◌∷◌ c s) = not (nat_beq (code c) sep) && lacks sep s

-- What a capability's name is: not empty, no comma, no space at its ends.
pub record IsName (s : String) : Type 0 where
  pub filled : (s == "") ≡ false
  pub plain : lacks b',' s ≡ true
  pub trimmed : strip s ≡ s

split_on-plain : (sep : ℕ) (s : String) → lacks sep s ≡ true → split_on sep s ≡ s ∷ []
split_on-plain sep String.[] h = refl
split_on-plain sep (String.◌∷◌ c s) h = ground (arith, split_on-plain sep s)

split_on-comma :
    (s rest : String)
    → lacks b',' s ≡ true
    → split_on b',' (s +ₛ "," +ₛ rest) ≡ s ∷ split_on b',' rest
split_on-comma String.[] rest h =
    let comma : Char = "," in
    ap (split_on b',') (cons-append comma String.[] rest ∙ ap (String.◌∷◌ comma) (nil-append rest))
split_on-comma (String.◌∷◌ c s) rest h =
    let split = split_on-comma s rest (ground arith) in
    rw (cons-append c s ",", cons-append c (s ++ ",") rest) (ground (arith, split))

-- What `parse_capabilities` keeps of names: all of them, as they are.
keep_stripped-names : (names : List String) → All IsName names → keep_stripped names ≡ names
unfolding keep_stripped
keep_stripped-names [] h = refl
keep_stripped-names (s ∷ rest) h =
    rw (h.0.trimmed, h.0.filled) (ap (s ∷◌) (keep_stripped-names rest h.1))

split_on-join :
    (s : String) (rest : List String)
    → All IsName (s ∷ rest)
    → split_on b',' (join "," (s ∷ rest)) ≡ s ∷ rest
split_on-join s [] h = split_on-plain b',' s h.0.plain
split_on-join s (t ∷ rest) h =
    split_on-comma s (join "," (t ∷ rest)) h.0.plain ∙ ap (s ∷◌) (split_on-join t rest h.1)

-- A list of names that is sent as one text with commas between them, as the queue's messages carry
-- it, is parsed back to the same list. A name is not empty and has no comma and no space at its ends.
parse_capabilities-join :
    (names : List String) → All IsName names → parse_capabilities (join "," names) ≡ names
unfolding parse_capabilities
parse_capabilities-join [] h = refl
parse_capabilities-join (s ∷ rest) h = elim (Bool-cases (join "," (s ∷ rest) == "")) [
  | inl e ↦
      let split : s ∷ rest ≡ "" ∷ [] =
        sym (split_on-join s rest h) ∙ ap (split_on b',') ((string_eq.beq_iff _ "").0 e) in
      let empty : s ≡ "" = cc in
      absurd (true_not_false ((string_eq.beq_iff s "").1 empty) h.0.filled)
  | inr e ↦ rw e (ap keep_stripped (split_on-join s rest h) ∙ keep_stripped-names (s ∷ rest) h)
]

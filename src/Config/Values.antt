-- ===== src/Config/Values.antt =====
-- packages/config/src/schema.ts: the texts that the schemas turn into paths and labels.
use Prim.Native.Char.{Char, code}
use samdi.Common.{String, Option, none, some, List, [], ◌∷◌, if◌then◌else◌, ◌==◌}
use samdi.Common.Maps.{same_number}
use samdi.Common.Texts.{trim}

-- `p.slice(2)` of a text that starts with `~/`
abbrev after_home : String → Option String
after_home String.[] = none
after_home (String.◌∷◌ c String.[]) = none
after_home (String.◌∷◌ c (String.◌∷◌ d s)) =
    if same_number (code c) 126 then (if same_number (code d) 47 then some s else none) else none

-- `expandHome`, with the home directory and `path.join` as arguments
unfoldable pub expand_home : String → (String → String → String) → String → String
expand_home home path_join p =
    if p == "~" then home else (elim (after_home p) [ none ↦ p | some rest ↦ path_join home rest ])

abbrev in_first : Char → List String → List String
in_first c [] = String.◌∷◌ c "" ∷ []
in_first c (s ∷ ss) = String.◌∷◌ c s ∷ ss

-- `s.split(',')`
unfoldable pub split_commas : String → List String
split_commas String.[] = "" ∷ []
split_commas (String.◌∷◌ c s) =
    let rest = split_commas s in if same_number (code c) 44 then "" ∷ rest else in_first c rest

abbrev trimmed : List String → List String
trimmed [] = []
trimmed (s ∷ ss) = let rest = trimmed ss in if trim s == "" then rest else trim s ∷ rest

abbrev unless_empty : List String → Option (List String)
unless_empty [] = none
unless_empty (l ∷ ls) = some (l ∷ ls)

-- `labelsSchema` on a text; `none` where it is refused.
unfoldable pub labels_from_text : String → Option (List String)
unfolding split_commas
labels_from_text s = if s == "" then none else unless_empty (trimmed (split_commas s))

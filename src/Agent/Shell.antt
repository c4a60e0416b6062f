-- ===== src/Agent/Shell.antt =====
-- How the shell reads a word: single quotes hold every character but themselves, a backslash outside
-- them holds the next one, blanks and line ends finish the word. A character that the shell would
-- expand or take for an operator, and a quote that is not closed, are no literal word.
use Prim.Native.Char.{Char, code}
use samdi.Common.{
  ℕ, zero, suc, String, Bool, false, ◌||◌, Option, none, some, List, [], ◌∷◌, if◌then◌else◌,
}
use samdi.Common.Maps.{same_number}

pub data Mode : Type 0 where
  plain quoted escaped : Mode

abbrev pub in_codes : List ℕ → ℕ → Bool
in_codes [] n = false
in_codes (m ∷ ms) n = same_number n m || in_codes ms n

-- Space, tab and line feed.
abbrev pub is_blank : ℕ → Bool
is_blank n = in_codes (32 ∷ 9 ∷ 10 ∷ []) n

-- " $ & ( ) * ; < > ? [ ] ` { | } ~ ! #
abbrev pub is_special : ℕ → Bool
is_special n =
    in_codes
      (34 ∷ 36 ∷ 38 ∷ 40 ∷ 41 ∷ 42 ∷ 59 ∷ 60 ∷ 62 ∷ 63 ∷ 91 ∷ 93 ∷ 96 ∷ 123 ∷ 124 ∷ 125 ∷ 126 ∷ 33
        ∷ 35 ∷ [])
      n

pub data Kind : Type 0 where
  opening escape blank special literal : Kind

unfoldable pub kind_of : ℕ → Kind
kind_of n =
    if same_number n 39
    then opening
    else if same_number n 92
    then escape
    else if is_blank n
    then blank
    else if is_special n
    then special
    else literal

abbrev pub with_char : Char → Option (String × String) → Option (String × String)
with_char c none = none
with_char c (some (word, rest)) = some (String.◌∷◌ c word, rest)

-- The word that a text begins with, and what follows it.
unfoldable pub word_of : Mode → String → Option (String × String)
word_of plain String.[] = some ("", "")
word_of quoted String.[] = none
word_of escaped String.[] = none
word_of quoted (String.◌∷◌ c s) =
    let after = word_of plain s in
    let within = word_of quoted s in if same_number (code c) 39 then after else with_char c within
word_of escaped (String.◌∷◌ c s) = with_char c (word_of plain s)
word_of plain (String.◌∷◌ c s) = elim (kind_of (code c)) [
  | opening ↦ word_of quoted s
  | escape ↦ word_of escaped s
  | blank ↦ some ("", String.◌∷◌ c s)
  | special ↦ none
  | literal ↦ with_char c (word_of plain s)
]

-- The first words of a line that one space separates.
abbrev pub after_space : String → Option String
after_space String.[] = none
after_space (String.◌∷◌ c s) = if same_number (code c) 32 then some s else none

-- A word and then, after a space, what `next` reads.
abbrev pub cons_words : String → Option (List String × String) → Option (List String × String)
cons_words word none = none
cons_words word (some (ws, rest)) = some (word ∷ ws, rest)

abbrev pub then_words :
    (String → Option (List String × String))
    → Option (String × String)
    → Option (List String × String)
then_words next none = none
then_words next (some (word, rest)) = elim (after_space rest) [
  | none ↦ none
  | some s ↦ cons_words word (next s)
]

-- The first `n` words, with a space after each.
unfoldable pub words : ℕ → String → Option (List String × String)
unfolding word_of
words zero s = some ([], s)
words (suc n) s = then_words (words n) (word_of plain s)

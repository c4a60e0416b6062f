-- ===== src/Common/Texts.antt =====
-- The text methods of JavaScript that the program calls: `trim`, `length` and `slice`.
pub mod Lengths
pub mod Trimming
use Prim.Native.Char.{Char, code}
use Prim.Native.String.{String}
use Prim.Native.Nat.{ℕ, ◌+◌, ◌-◌}
use mathlib.Core.Bool.{Bool, ◌&&◌, ◌||◌}
use text.Mathlib.Text.{◌==◌}
use samdi.Common.Tests.{ltb, leb, if◌then◌else◌}

-- The white space and line ends that `trim` removes.
abbrev between : ℕ → ℕ → ℕ → Bool
between lo hi c = leb lo c && leb c hi

is_space : ℕ → Bool
is_space c =
    between 9 13 c
    || (between 32 32 c
        || (between 160 160 c
            || (between 0x1680 0x1680 c
                || (between 0x2000 0x200a c
                    || (between 0x2028 0x2029 c
                        || (between 0x202f 0x202f c
                            || (between 0x205f 0x205f c
                                || (between 0x3000 0x3000 c || between 0xfeff 0xfeff c))))))))

unfoldable pub trim_start : String → String
unfolding is_space
trim_start String.[] = ""
trim_start (String.◌∷◌ c s) =
    let rest = trim_start s in if is_space (code c) then rest else String.◌∷◌ c s

unfoldable pub trim_end : String → String
unfolding is_space
trim_end String.[] = ""
trim_end (String.◌∷◌ c s) =
    let rest = trim_end s in if is_space (code c) && (rest == "") then "" else String.◌∷◌ c rest

unfoldable pub trim : String → String
unfolding trim_start trim_end
trim s = trim_end (trim_start s)

-- `!text.trim()`
unfoldable pub is_blank : String → Bool
unfolding trim
is_blank s = trim s == ""

-- The length of a text counts UTF-16 units: two for a character past U+FFFF.
abbrev pub units : Char → ℕ
units c = if ltb 0xffff (code c) then 2 else 1

unfoldable pub text_length : String → ℕ
text_length String.[] = 0
text_length (String.◌∷◌ c s) = units c + text_length s

-- `text.slice(0, n)`; a character of which only the first unit is within `n` is left out.
unfoldable pub slice_to : ℕ → String → String
slice_to n String.[] = ""
slice_to n (String.◌∷◌ c s) =
    let rest = slice_to (n - units c) s in if leb (units c) n then String.◌∷◌ c rest else ""

-- `text.slice(n)`; a character that begins before `n` is left out.
unfoldable pub slice_from : ℕ → String → String
slice_from n String.[] = ""
slice_from n (String.◌∷◌ c s) =
    let rest = slice_from (n - units c) s in if ltb 0 n then rest else String.◌∷◌ c s

-- ===== src/Common/Texts/Trimming.antt =====
-- Blank texts and `trim`.
use Prim.Native.Char.{Char, code}
use Prim.Native.String.{String}
use mathlib.Core.Path.{◌≡◌, refl, sym, ◌∙◌, ap}
use mathlib.Core.Bool.{false}
use mathlib.Core.Logic.{◌⊎◌, inl, inr}
use native.Mathlib.Omega.{arith}
use text.Mathlib.Text.{◌==◌}
use text.Mathlib.TextEquality.{eq_iff}
use text.Mathlib.TextLemmas.{cons≢nil}
use samdi.Common.Tests.{Bool-cases, ==-ne}
use samdi.Common.Texts.{is_space, trim_start, trim_end, trim, is_blank}

-- A text that begins with a character that is no space.
StartsFull : String → Type 0
StartsFull s = (c : Char) × (r : String) × (s ≡ String.◌∷◌ c r) × (is_space (code c) ≡ false)

trim_start-cases : (s : String) → (trim_start s ≡ "") ⊎ StartsFull (trim_start s)
unfolding trim_start StartsFull
trim_start-cases String.[] = inl refl
trim_start-cases (String.◌∷◌ c s) = elim (Bool-cases (is_space (code c))) [
  | inl space ↦ rw space (trim_start-cases s)
  | inr full ↦ rw full (inr (c, s, refl, full))
]

trim_end-full :
    (c : Char) (r : String)
    → is_space (code c) ≡ false
    → trim_end (String.◌∷◌ c r) ≡ String.◌∷◌ c (trim_end r)
unfolding trim_end
trim_end-full c r full = rw full refl

trim_start-full :
    (c : Char) (r : String)
    → is_space (code c) ≡ false
    → trim_start (String.◌∷◌ c r) ≡ String.◌∷◌ c r
unfolding trim_start
trim_start-full c r full = rw full refl

trim-empty : (s : String) → trim_start s ≡ "" → trim s ≡ ""
unfolding trim trim_end
trim-empty s e = ap trim_end e

trim-full :
    (s : String) (c : Char) (r : String)
    → trim_start s ≡ String.◌∷◌ c r
    → is_space (code c) ≡ false
    → trim s ≡ String.◌∷◌ c (trim_end r)
unfolding trim
trim-full s c r starts full = ap trim_end starts ∙ trim_end-full c r full

pub is_blank-trim : (s : String) → (trim s == "") ≡ false → is_blank (trim s) ≡ false
unfolding is_blank StartsFull
is_blank-trim s h = elim (trim_start-cases s) [
  | inl empty ↦ ground (arith, trim-empty s empty, eq_iff (trim s) "")
  | inr (c, r, starts, full) ↦
      let once = trim-full s c r starts full in
      let again =
        trim-full (trim s) c (trim_end r) (ap trim_start once ∙ trim_start-full c (trim_end r) full)
          full in
      ==-ne (trim (trim s)) "" (λ e. cons≢nil (sym again ∙ e))
]

-- ===== src/Common/Texts/Lengths.antt =====
-- How long the texts are that the methods give.
use Prim.Native.Nat.{ℕ, ◌+◌, ◌-◌, ◌≤◌}
use Prim.Native.String.{String, ◌++◌ as text_append}
use mathlib.Core.Path.{◌≡◌}
use mathlib.Core.Logic.{inl, inr}
use native.Mathlib.Omega.{arith}
use text.Mathlib.TextLemmas.{nil-append, cons-append}
use samdi.Common.Tests.{leb, ltb, Bool-cases, leb→le}
use samdi.Common.Texts.{units, text_length, slice_to, slice_from}

pub slice_to-length : (n : ℕ) (s : String) → text_length (slice_to n s) ≤ n
unfolding text_length slice_to
slice_to-length n String.[] = omega arith
slice_to-length n (String.◌∷◌ c s) = elim (Bool-cases (leb (units c) n)) [
  | inl e ↦
      let fits : units c ≤ n = leb→le (units c) n e in
      rw e (omega (arith, slice_to-length (n - units c) s))
  | inr e ↦ rw e (omega arith)
]

pub text_length-append :
    (s t : String) → text_length (text_append s t) ≡ text_length s + text_length t
unfolding text_length
text_length-append String.[] t = rw (nil-append t) (omega arith)
text_length-append (String.◌∷◌ c s) t =
    rw (cons-append c s t) (omega (arith, text_length-append s t))

pub slice_from-length : (n : ℕ) (s : String) → text_length (slice_from n s) ≤ text_length s - n
unfolding text_length slice_from
slice_from-length n String.[] = omega arith
slice_from-length n (String.◌∷◌ c s) = elim (Bool-cases (ltb 0 n)) [
  | inl e ↦ rw e (omega (arith, slice_from-length (n - units c) s))
  | inr e ↦ let start : n ≡ 0 = ground arith in rw e (omega arith)
]

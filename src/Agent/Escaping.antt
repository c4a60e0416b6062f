-- ===== src/Agent/Escaping.antt =====
-- packages/agent-adapter/src/claude-code.ts: a text in single quotes (`shq`), for a shell.
use Prim.Native.Char.{Char, code}
use Prim.Native.String.{◌++◌ as text_append}
use text.Mathlib.TextLemmas.{nil-append, cons-append, append_assoc}
use samdi.Common.{
  ◌≡◌, refl, sym, ap, subst, ◌∙◌, String, false, Option, none, some, Bool-cases, inl, inr,
}
use text.Mathlib.TextEquality.{Char-path}
use samdi.Common.Maps.{same_number, same_number→eq}
use samdi.Agent.{escape_quotes, shq}
use samdi.Agent.Shell.{kind_of}
use samdi.Agent.Shell.{plain, quoted, word_of, with_char}

abbrev pub prefixed : String → Option (String × String) → Option (String × String)
prefixed s none = none
prefixed s (some (word, rest)) = some (text_append s word, rest)

abbrev quote : Char
quote = "'"

abbrev backslash : Char
backslash = "\\"

quote-append : (t : String) → text_append "'" t ≡ String.◌∷◌ quote t
quote-append t = cons-append quote "" t ∙ ap (λ x. String.◌∷◌ quote x) (nil-append t)

-- The four characters that stand for a quote.
four-append :
    (t : String)
    → text_append "'\\''" t
      ≡ String.◌∷◌ quote (String.◌∷◌ backslash (String.◌∷◌ quote (String.◌∷◌ quote t)))
four-append t =
    cons-append quote "\\''" t
    ∙ ap (λ x. String.◌∷◌ quote x)
        (cons-append backslash "''" t
          ∙ ap (λ x. String.◌∷◌ backslash x)
              (cons-append quote "'" t ∙ ap (λ x. String.◌∷◌ quote x) (quote-append t)))

pub with_char-prefixed :
    (c : Char) (s : String) (o : Option (String × String))
    → with_char c (prefixed s o) ≡ prefixed (String.◌∷◌ c s) o
with_char-prefixed c s none = refl
with_char-prefixed c s (some (word, rest)) = ap (λ x. some (x, rest)) (sym (cons-append c s word))

pub prefixed-nil : (o : Option (String × String)) → prefixed "" o ≡ o
prefixed-nil none = refl
prefixed-nil (some (word, rest)) = ap (λ x. some (x, rest)) (nil-append word)

word_of-four :
    (x : String)
    → word_of quoted
        (String.◌∷◌ quote (String.◌∷◌ backslash (String.◌∷◌ quote (String.◌∷◌ quote x))))
      ≡ with_char quote (word_of quoted x)
unfolding word_of kind_of
word_of-four x = refl

word_of-opening : (t : String) → word_of plain (String.◌∷◌ quote t) ≡ word_of quoted t
unfolding word_of kind_of
word_of-opening t = refl

word_of-closing : (t : String) → word_of quoted (String.◌∷◌ quote t) ≡ word_of plain t
unfolding word_of
word_of-closing t = refl

word_of-within :
    (c : Char) (t : String)
    → same_number (code c) 39 ≡ false
    → word_of quoted (String.◌∷◌ c t) ≡ with_char c (word_of quoted t)
unfolding word_of
word_of-within c t e = rw e refl

escape_quotes-other :
    (c : Char) (s : String)
    → same_number (code c) 39 ≡ false
    → escape_quotes (String.◌∷◌ c s) ≡ String.◌∷◌ c (escape_quotes s)
unfolding escape_quotes
escape_quotes-other c s e = rw e refl

escape_quotes-quote :
    (s : String) → escape_quotes (String.◌∷◌ quote s) ≡ text_append "'\\''" (escape_quotes s)
unfolding escape_quotes
escape_quotes-quote s = refl

word_of-escape_quotes :
    (s t : String)
    → word_of quoted (text_append (escape_quotes s) (text_append "'" t))
      ≡ prefixed s (word_of plain t)
unfolding escape_quotes
word_of-escape_quotes String.[] t =
    ap (word_of quoted) (nil-append (text_append "'" t) ∙ quote-append t)
    ∙ (word_of-closing t ∙ sym (prefixed-nil (word_of plain t)))
word_of-escape_quotes (String.◌∷◌ c s) t =
    let ih = word_of-escape_quotes s t in
    let closed = text_append "'" t in
    let within = text_append (escape_quotes s) closed in
    elim (Bool-cases (same_number (code c) 39)) [
      | inl e ↦
          let is_quote : quote ≡ c = Char-path quote c (sym (same_number→eq (code c) 39 e)) in
          subst
            (λ d.
              word_of quoted (text_append (escape_quotes (String.◌∷◌ d s)) closed)
              ≡ prefixed (String.◌∷◌ d s) (word_of plain t))
            is_quote
            (ap (λ x. word_of quoted (text_append x closed)) (escape_quotes-quote s)
              ∙ (ap (word_of quoted)
                    (append_assoc "'\\''" (escape_quotes s) closed ∙ four-append within)
                  ∙ (word_of-four within
                      ∙ (ap (with_char quote) ih ∙ with_char-prefixed quote s (word_of plain t)))))
      | inr e ↦
          ap (λ x. word_of quoted (text_append x closed)) (escape_quotes-other c s e)
          ∙ (ap (word_of quoted) (cons-append c (escape_quotes s) closed)
              ∙ (word_of-within c within e
                  ∙ (ap (with_char c) ih ∙ with_char-prefixed c s (word_of plain t))))
    ]

-- A quoted text, and what follows it up to the end of the word.
pub word_of-shq :
    (s t : String) → word_of plain (text_append (shq s) t) ≡ prefixed s (word_of plain t)
unfolding shq
word_of-shq s t =
    let closed = text_append (escape_quotes s) "'" in
    ap (word_of plain) (append_assoc "'" closed t ∙ quote-append (text_append closed t))
    ∙ (word_of-opening (text_append closed t)
        ∙ (ap (word_of quoted) (append_assoc (escape_quotes s) "'" t) ∙ word_of-escape_quotes s t))

-- ===== src/Agent/Quoting.antt =====
-- packages/agent-adapter/src/claude-code.ts: the line that starts the agent, as a shell reads it.
use Prim.Native.Char.{Char, code}
use Prim.Native.String.{◌++◌ as text_append}
use text.Mathlib.TextLemmas.{nil-append, cons-append, append-nil, append_assoc}
use samdi.Common.{
  ℕ, suc, ◌≡◌, refl, sym, ap, ◌∙◌, String, Bool, true, false, ◌&&◌, Option, none, some, List, [],
  ◌∷◌, ◌++◌, length, length-append, if◌then◌else◌, Bool-cases, inl, inr, arith, ◌==◌,
}
use samdi.Agent.{shq, exec_line, flags, RunnerOptions, join_with, mode_flags}
use samdi.Agent.Shell.{kind_of, Kind, literal}
use samdi.Agent.Shell.{plain, word_of, with_char, words, cons_words, then_words}
use samdi.Agent.Escaping.{word_of-shq, prefixed, prefixed-nil, with_char-prefixed}

-- A text of characters that mean nothing to the shell.
abbrev is_literal : Kind → Bool
is_literal literal = true
is_literal _ = false

is_literal-eq : (k : Kind) → is_literal k ≡ true → k ≡ literal
is_literal-eq literal h = refl
is_literal-eq _ h = cc

abbrev is_word : String → Bool
is_word String.[] = true
is_word (String.◌∷◌ c s) = is_literal (kind_of (code c)) && is_word s

word_of-char :
    (c : Char) (t : String)
    → kind_of (code c) ≡ literal
    → word_of plain (String.◌∷◌ c t) ≡ with_char c (word_of plain t)
unfolding word_of
word_of-char c t h = rw (h, word_of) refl

word_of-is_word :
    (s t : String)
    → is_word s ≡ true
    → word_of plain (text_append s t) ≡ prefixed s (word_of plain t)
word_of-is_word String.[] t h =
    ap (word_of plain) (nil-append t) ∙ sym (prefixed-nil (word_of plain t))
word_of-is_word (String.◌∷◌ c s) t h = elim (Bool-cases (is_literal (kind_of (code c)))) [
  | inl l ↦
      let rest : is_word s ≡ true = rw l at h in
      ap (word_of plain) (cons-append c s t)
      ∙ (word_of-char c (text_append s t) (is_literal-eq _ l)
          ∙ (ap (with_char c) (word_of-is_word s t rest)
              ∙ with_char-prefixed c s (word_of plain t)))
  | inr l ↦ let no_word : false ≡ true = rw l at h in cc
]

-- A text that the shell reads as a word, whatever follows.
abbrev pub ReadsAs : String → String → Type 0
ReadsAs s word = (t : String) → word_of plain (text_append s t) ≡ prefixed word (word_of plain t)

abbrev space : Char
space = " "

space-append : (t : String) → text_append " " t ≡ String.◌∷◌ space t
space-append t = cons-append space "" t ∙ ap (λ x. String.◌∷◌ space x) (nil-append t)

word_of-space : (t : String) → word_of plain (String.◌∷◌ space t) ≡ some ("", String.◌∷◌ space t)
unfolding word_of kind_of
word_of-space t = refl

words-suc : (n : ℕ) (s : String) → words (suc n) s ≡ then_words (words n) (word_of plain s)
unfolding words
words-suc n s = refl

words-step :
    (n : ℕ) (s word rest : String)
    → ReadsAs s word
    → words (suc n) (text_append s (text_append " " rest)) ≡ cons_words word (words n rest)
words-step n s word rest reads =
    ap (λ t. words (suc n) (text_append s t)) (space-append rest)
    ∙ (words-suc n (text_append s (String.◌∷◌ space rest))
        ∙ ap (then_words (words n)) (
            reads (String.◌∷◌ space rest)
            ∙ (ap (prefixed word) (word_of-space rest)
                ∙ ap (λ w. some (w, String.◌∷◌ space rest)) (append-nil word))))

-- The parts of a line, each read as one word.
abbrev AllRead : List String → List String → Type 0
AllRead [] [] = Unit {0}
AllRead [] (w ∷ ws) = ⊥
AllRead (s ∷ ss) [] = ⊥
AllRead (s ∷ ss) (w ∷ ws) = ReadsAs s w × AllRead ss ws

abbrev pub prompt_word : String
prompt_word = "\"$prompt\""

abbrev ending : String
ending = text_append " " (text_append "--" (text_append " " prompt_word))

plain_word : (s : String) → is_word s ≡ true → ReadsAs s s
plain_word s h t = word_of-is_word s t h

words-ending :
    words 1 (text_append "--" (text_append " " prompt_word)) ≡ some ("--" ∷ [], prompt_word)
unfolding words kind_of
words-ending = words-step 0 "--" "--" prompt_word (plain_word "--" refl)

words-joined :
    (s word : String) (ss ws : List String)
    → ReadsAs s word
    → AllRead ss ws
    → words (suc (suc (length ws))) (text_append (join_with " " (s ∷ ss)) ending)
      ≡ some (word ∷ (ws ++ "--" ∷ []), prompt_word)
words-joined s word [] [] reads all =
    words-step 1 s word (text_append "--" (text_append " " prompt_word)) reads
    ∙ ap (cons_words word) words-ending
words-joined s word [] (w ∷ ws) reads all = elim all [ ]
words-joined s word (t ∷ ss) [] reads all = elim all [ ]
words-joined s word (t ∷ ss) (w ∷ ws) reads all =
    let rest = join_with " " (t ∷ ss) in
    ap (words (suc (suc (suc (length ws))))) (
      append_assoc s (text_append " " rest) ending
      ∙ ap (text_append s) (append_assoc " " rest ending))
    ∙ (words-step (suc (suc (length ws))) s word (text_append rest ending) reads
        ∙ ap (cons_words word) (words-joined t w ss ws all.0 all.1))

-- The words that the runner starts the agent with.
abbrev mode_words : Option String → List String
mode_words none = []
mode_words (some mode) = if mode == "" then [] else "--permission-mode" ∷ mode ∷ []

abbrev pub exec_words : RunnerOptions → List String
exec_words o =
    "exec"
    ∷ o.bin
    ∷ "--allowedTools"
    ∷ o.allowed_tools
    ∷ (mode_words o.permission_mode ++ "--" ∷ [])

mode_words-AllRead : (mode : Option String) → AllRead (mode_flags mode) (mode_words mode)
unfolding kind_of
mode_words-AllRead none = tt
mode_words-AllRead (some mode) = elim (Bool-cases (mode == "")) [
  | inl e ↦ rw e tt
  | inr e ↦ rw e (plain_word "--permission-mode" refl, (word_of-shq mode, tt))
]

exec_line-join :
    (o : RunnerOptions)
    → exec_line o ≡ text_append (join_with " " ("exec" ∷ shq o.bin ∷ flags o)) ending
exec_line-join o =
    let rest = join_with " " (flags o) in
    let tail = text_append (shq o.bin) (text_append " " (text_append rest ending)) in
    append_assoc "exec" " " tail
    ∙ ap (λ x. text_append "exec" (text_append " " x))
        (ap (text_append (shq o.bin)) (sym (append_assoc " " rest ending))
          ∙ sym (append_assoc (shq o.bin) (text_append " " rest) ending))
    ∙ (ap (text_append "exec")
          (sym (append_assoc " " (text_append (shq o.bin) (text_append " " rest)) ending))
        ∙ sym (
            append_assoc "exec" (text_append " " (text_append (shq o.bin) (text_append " " rest)))
              ending))

-- For all options, the first words that a shell reads from the line that starts the agent are
-- `exec`, the program, the flags with their values, and `--`, whatever characters the program, the
-- tools and the mode have, and after them stands `"$prompt"`.
pub exec_line-words :
    (o : RunnerOptions)
    → words (length (exec_words o)) (exec_line o) ≡ some (exec_words o, prompt_word)
unfolding kind_of
exec_line-words o =
    let mode = mode_words o.permission_mode in
    let size : length (mode ++ "--" ∷ []) ≡ suc (length mode) =
      length-append mode ("--" ∷ []) ∙ omega arith in
    ap (λ n. words (suc (suc (suc (suc n)))) (exec_line o)) size
    ∙ (ap (words (suc (suc (suc (suc (suc (length mode))))))) (exec_line-join o)
        ∙ words-joined "exec" "exec" (shq o.bin ∷ flags o)
            (o.bin ∷ "--allowedTools" ∷ o.allowed_tools ∷ mode) (plain_word "exec" refl)
            (
              word_of-shq o.bin,
              (
                plain_word "--allowedTools" refl,
                (word_of-shq o.allowed_tools, mode_words-AllRead o.permission_mode),
              ),
            ))

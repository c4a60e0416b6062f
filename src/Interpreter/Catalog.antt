-- ===== src/Interpreter/Catalog.antt =====
-- packages/interpreter/src: the labels that an interpreter asks for.
use samdi.Common.{
  ◌≡◌, refl, String, Bool, true, Option, none, some, List, [], ◌∷◌, includes, if◌then◌else◌, arith,
  eq_refl, Bool-cases, inl, inr,
}
use samdi.ControlPlane.Db.{InterpreterMode, passthrough, claude, http, Thread}
use samdi.ControlPlane.Memory.{Runtime, Server}
use samdi.ControlPlane.Pipeline.{
  InterpretVerdict, fast_pass, needs_context, complete, noise, InterpretInput, labels_for, input_of,
}
use samdi.ControlPlane.Pipeline.Settling.{task_asked}
use samdi.Interpreter.{
  first_label, interpret_passthrough, interpret_http, interpret_claude, interpret_with, HttpReply,
  no_reply, reply_with, ModelReply, no_output, output_of, RawOutput, to_verdict,
}

abbrev pub label_within : List String → Option (String × String) → Bool
label_within catalog none = true
label_within catalog (some asked) = includes catalog asked.0

-- The answer, if there is one, asks for a label of the catalog or for no task.
abbrev pub within : List String → Option InterpretVerdict → Bool
within catalog none = true
within catalog (some verdict) = label_within catalog (task_asked verdict)

first-within :
    (labels : List String) (channel_id : String)
    → includes (labels_for labels channel_id) (first_label labels channel_id) ≡ true
first-within [] channel_id = ground (arith, eq_refl channel_id)
first-within (l ∷ ls) channel_id = ground (arith, eq_refl l)

relabelled_label :
    (labels : List String) (channel_id label : String)
    → includes
        (labels_for labels channel_id)
        (if includes labels label then label else first_label labels channel_id)
      ≡ true
relabelled_label [] channel_id label = first-within [] channel_id
relabelled_label (l ∷ ls) channel_id label = elim (Bool-cases (includes (l ∷ ls) label)) [
  | inl old ↦ ground arith
  | inr new ↦ rw new (first-within (l ∷ ls) channel_id)
]

http-within :
    (h : HttpReply) (input : InterpretInput)
    → within (labels_for input.labels input.channel_id) (interpret_http h input) ≡ true
unfolding interpret_http
http-within no_reply input = refl
http-within (reply_with none) input = refl
http-within (reply_with (some (fast_pass label instruction))) input =
    relabelled_label input.labels input.channel_id label
http-within (reply_with (some (complete label instruction))) input =
    relabelled_label input.labels input.channel_id label
http-within (reply_with (some (needs_context reason))) input = refl
http-within (reply_with (some (noise reason))) input = refl

verdict-within :
    (labels : List String) (raw : RawOutput)
    → includes labels raw.label ≡ true
    → label_within labels (task_asked (to_verdict raw)) ≡ true
verdict-within labels raw h = ground arith

claude-within :
    (m : ModelReply) (input : InterpretInput)
    → within (labels_for input.labels input.channel_id) (interpret_claude m input) ≡ true
unfolding interpret_claude
claude-within no_output input = refl
claude-within (output_of none) input = refl
claude-within (output_of (some raw)) input =
    elim (Bool-cases (includes (labels_for input.labels input.channel_id) raw.label)) [
      | inl good ↦ rw good (verdict-within (labels_for input.labels input.channel_id) raw good)
      | inr bad ↦ rw bad refl
    ]

interpret-within :
    (mode : InterpreterMode) (h : HttpReply) (m : ModelReply) (input : InterpretInput)
    → within (labels_for input.labels input.channel_id) (interpret_with mode h m input) ≡ true
unfolding interpret_with interpret_passthrough
interpret-within passthrough h m input = first-within input.labels input.channel_id
interpret-within http h m input = http-within h input
interpret-within claude h m input = claude-within m input

labels_for-labels_for :
    (labels : List String) (label other : String)
    → labels_for (labels_for labels label) other ≡ labels_for labels label
labels_for-labels_for [] label other = refl
labels_for-labels_for (l ∷ ls) label other = refl

-- Whatever the endpoint or the model answers, an interpreter of the pipeline asks for a task only
-- with a label of the catalog of its channel, or with the label of the channel where the catalog
-- is empty.
pub labels_stay_within :
    (r : Runtime) (thread : Thread) (s : Server) (h : HttpReply) (m : ModelReply)
    → within
        (labels_for r.interpreter.labels r.label)
        (interpret_with r.interpreter.mode h m (input_of r thread s))
      ≡ true
labels_stay_within r thread s h m =
    rw (labels_for-labels_for r.interpreter.labels r.label r.id) at
      (interpret-within r.interpreter.mode h m (input_of r thread s))

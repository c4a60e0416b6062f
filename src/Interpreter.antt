-- ===== src/Interpreter.antt =====
-- packages/interpreter/src: the built-in interpreters. What the model and the endpoint answer is
-- outside the source: an argument, `none` where a zod schema refuses its shape.
pub mod Catalog
use Prim.Native.String.{◌++◌ as text_append}
use samdi.Common.{String, Bool, Option, none, some, List, [], ◌∷◌, ◌==◌, includes, if◌then◌else◌}
use samdi.Common.Texts.{is_blank}
use samdi.ControlPlane.Db.{InterpreterMode, passthrough, claude, http}
use samdi.ControlPlane.Pipeline.{
  InterpretVerdict, fast_pass, needs_context, complete, noise, InterpretInput, labels_for,
}

-- `input.labels[0] ?? input.channelId`
abbrev pub first_label : List String → String → String
first_label [] channel_id = channel_id
first_label (l ∷ ls) channel_id = l

-- `payloads.join('\n\n')`
abbrev pub join_payloads {ℓ} : {A : Type ℓ} → List (A × String) → String
join_payloads [] = ""
join_payloads (e ∷ []) = e.1
join_payloads (e ∷ d ∷ es) = text_append e.1 (text_append "\n\n" (join_payloads (d ∷ es)))

abbrev or_if_empty : String → String → String
or_if_empty text d = if text == "" then d else text

unfoldable pub interpret_passthrough : InterpretInput → InterpretVerdict
interpret_passthrough input =
    fast_pass (first_label input.labels input.channel_id)
      (or_if_empty (join_payloads input.events) "(빈 이벤트)")

-- The endpoint cannot be reached, or answers with an error or no JSON; or it answers, and
-- `interpretVerdictSchema` takes the answer or not.
pub data HttpReply : Type 0 where
  no_reply : HttpReply
  reply_with : Option InterpretVerdict → HttpReply

-- A label outside the catalog becomes its first.
abbrev pub relabelled : List String → String → InterpretVerdict → InterpretVerdict
relabelled labels channel_id (fast_pass label instruction) =
    fast_pass (if includes labels label then label else first_label labels channel_id) instruction
relabelled labels channel_id (complete label instruction) =
    complete (if includes labels label then label else first_label labels channel_id) instruction
relabelled labels channel_id (needs_context reason) = needs_context reason
relabelled labels channel_id (noise reason) = noise reason

unfoldable pub interpret_http : HttpReply → InterpretInput → Option InterpretVerdict
interpret_http no_reply input = none
interpret_http (reply_with none) input = some (needs_context "해석기 응답이 규약과 맞지 않는다")
interpret_http (reply_with (some verdict)) input =
    some (relabelled input.labels input.channel_id verdict)

pub data RawVerdict : Type 0 where
  raw_fast_pass raw_needs_context raw_complete raw_noise : RawVerdict

-- The fields of `buildSchema`, but for the enumeration of the labels.
pub record RawOutput : Type 0 where
  pub verdict : RawVerdict
  pub label : String
  pub instruction : String
  pub reason : String

pub data ModelReply : Type 0 where
  no_output : ModelReply
  output_of : Option RawOutput → ModelReply

abbrev asked : RawOutput → InterpretVerdict → InterpretVerdict
asked raw verdict = if is_blank raw.instruction then needs_context "지시문이 비어 있다" else verdict

abbrev pub to_verdict : RawOutput → InterpretVerdict
to_verdict raw = elim raw.verdict [
  | raw_fast_pass ↦ asked raw (fast_pass raw.label raw.instruction)
  | raw_complete ↦ asked raw (complete raw.label raw.instruction)
  | raw_noise ↦ noise raw.reason
  | raw_needs_context ↦ needs_context raw.reason
]

-- `schema.safeParse`, with `z.enum(labels)`
abbrev pub parsed_output : List String → Option RawOutput → Option RawOutput
parsed_output labels none = none
parsed_output labels (some raw) = if includes labels raw.label then some raw else none

abbrev verdict_of : Option RawOutput → InterpretVerdict
verdict_of none = needs_context "해석기 응답을 파싱하지 못했다"
verdict_of (some raw) = to_verdict raw

unfoldable pub interpret_claude : ModelReply → InterpretInput → Option InterpretVerdict
interpret_claude no_output input = none
interpret_claude (output_of output) input =
    some (verdict_of (parsed_output (labels_for input.labels input.channel_id) output))

-- `createInterpreter(config).interpret(input)`, on a configuration that can be built
unfoldable pub interpret_with :
    InterpreterMode → HttpReply → ModelReply → InterpretInput → Option InterpretVerdict
interpret_with passthrough h m input = some (interpret_passthrough input)
interpret_with http h m input = interpret_http h input
interpret_with claude h m input = interpret_claude m input

-- ===== src/Agent.antt =====
-- packages/agent-adapter/src: the adapters that start an agent on a task.
pub mod Shell
pub mod Escaping
pub mod Quoting
use Prim.Native.Char.{Char, code}
use Prim.Native.String.{◌++◌ as text_append}
use samdi.Common.{
  ℕ, String, Bool, true, false, ◌&&◌, ◌||◌, Option, none, some, List, [], ◌∷◌, if◌then◌else◌, ◌==◌,
}
use samdi.Common.Maps.{same_number}
use samdi.Common.Texts.{slice_to}
use samdi.ControlPlane.Db.{Task}
use samdi.Worker.Process.{LocalReport, AskDecision}

pub record AgentRunRequest : Type 0 where
  pub task : Task
  pub instruction : String
  pub report_url : String

-- `parts.join(separator)`
abbrev pub join_with : String → List String → String
join_with separator [] = ""
join_with separator (s ∷ []) = s
join_with separator (s ∷ t ∷ ss) =
    text_append s (text_append separator (join_with separator (t ∷ ss)))

unfoldable pub build_report_instruction : String → String
build_report_instruction url = join_with "\n" (
    "---"
    ∷ "[samdi 보고 규약] 작업을 마치면 반드시 아래 형식으로 보고하라."
    ∷ text_append "성공: curl -s -X POST " (
        text_append url
          " -H 'content-type: application/json' -d '{\"type\":\"completed\",\"summary\":\"<한 줄 요약>\"}'")
    ∷ text_append "실패: curl -s -X POST " (
        text_append url
          " -H 'content-type: application/json' -d '{\"type\":\"failed\",\"reason\":\"<사유>\"}'")
    ∷ "민감한 작업 전 승인 요청: 같은 주소로 '{\"type\":\"ask\",\"question\":\"<질문>\"}'을 보내면 응답으로 {\"decision\":\"approve\"|\"deny\"}가 온다. approve일 때만 진행하라."
    ∷ [])

-- `s.replace(/'/g, …)`
unfoldable pub escape_quotes : String → String
escape_quotes String.[] = ""
escape_quotes (String.◌∷◌ c s) =
    let rest = escape_quotes s in
    if same_number (code c) 39 then text_append "'\\''" rest else String.◌∷◌ c rest

unfoldable pub shq : String → String
shq s = text_append "'" (text_append (escape_quotes s) "'")

pub record RunnerOptions : Type 0 where
  pub bin : String
  pub cwd : String
  pub prompt_file : String
  pub allowed_tools : String
  pub permission_mode : Option String

abbrev pub mode_flags : Option String → List String
mode_flags none = []
mode_flags (some mode) = if mode == "" then [] else "--permission-mode" ∷ shq mode ∷ []

abbrev pub flags : RunnerOptions → List String
flags o = "--allowedTools" ∷ shq o.allowed_tools ∷ mode_flags o.permission_mode

-- The line that starts the agent.
abbrev pub exec_line : RunnerOptions → String
exec_line o = text_append "exec " (
    text_append (shq o.bin)
      (text_append " " (text_append (join_with " " (flags o)) " -- \"$prompt\"")))

unfoldable pub build_runner_script : RunnerOptions → String
build_runner_script o = join_with "\n" (
    "#!/bin/bash"
    ∷ "# samdi가 만든 실행 스크립트. Claude Code에 작업 지시를 넘긴다."
    ∷ text_append "cd " (text_append (shq o.cwd) " || exit 1")
    ∷ text_append "prompt=$(cat " (text_append (shq o.prompt_file) ")")
    ∷ exec_line o
    ∷ ""
    ∷ [])

pub record ClaudeCodeOptions : Type 0 where
  pub bin : Option String
  pub permission_mode : Option String
  pub allowed_tools : Option String
  pub cwd : Option String

-- What `start` writes before it opens the terminal on the runner.
pub record Launch : Type 0 where
  pub prompt_file : String
  pub prompt : String
  pub runner_file : String
  pub script : String

abbrev or_text : Option String → String → String
or_text none d = d
or_text (some s) d = s

-- `ClaudeCodeAdapter.start` up to `osascript`; `none` off macOS, where it throws. The directories of
-- the system, and `path.join` of a directory and a name, are arguments.
unfoldable pub start_claude :
    Bool
    → String
    → String
    → (String → String → String)
    → ClaudeCodeOptions
    → AgentRunRequest
    → Option Launch
start_claude false workspace dir path_join o request = none
start_claude true workspace dir path_join o request =
    let prompt_file = path_join dir (text_append "prompt-" (text_append request.task.id ".txt")) in
    some (record {
      prompt_file = prompt_file;
      prompt =
          text_append request.instruction
            (text_append "\n\n" (build_report_instruction request.report_url));
      runner_file = path_join dir (text_append "run-" (text_append request.task.id ".sh"));
      script = build_runner_script (record {
        bin = or_text o.bin "claude";
        cwd = or_text o.cwd workspace;
        prompt_file = prompt_file;
        allowed_tools = or_text o.allowed_tools "Bash(curl *)";
        permission_mode = o.permission_mode;
      });
    })

-- `text.includes(part)`
abbrev has_prefix : String → String → Bool
has_prefix String.[] s = true
has_prefix (String.◌∷◌ c p) String.[] = false
has_prefix (String.◌∷◌ c p) (String.◌∷◌ d s) = same_number (code c) (code d) && has_prefix p s

abbrev contains : String → String → Bool
contains p String.[] = has_prefix p ""
contains p (String.◌∷◌ c s) = has_prefix p (String.◌∷◌ c s) || contains p s

abbrev mock_done : String → LocalReport
mock_done instruction =
    LocalReport.completed
      (some (text_append "mock: \"" (text_append (slice_to 80 instruction) "\" 처리 완료")))

abbrev mock_ask : String → LocalReport
mock_ask instruction =
    LocalReport.ask (text_append "\"" (text_append (slice_to 60 instruction) "\" — 실행해도 될까요?"))

-- What `MockAgentAdapter.start` posts, given the decision that its question gets.
unfoldable pub mock_posts : String → AskDecision → List LocalReport
mock_posts instruction decision =
    if contains "승인" instruction
    then (elim decision [
      | AskDecision.approve ↦ mock_ask instruction ∷ mock_done instruction ∷ []
      | AskDecision.deny ↦ mock_ask instruction ∷ []
    ])
    else mock_done instruction ∷ []

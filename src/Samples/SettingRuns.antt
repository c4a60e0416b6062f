-- ===== src/Samples/SettingRuns.antt =====
-- The settings of a server, and the script of an agent, on small inputs.
use samdi.Common.{◌≡◌, refl, false, none, some, [], ◌∷◌, length, ◌==◌, if◌then◌else◌}
use samdi.Config.{leaf, object, Fields, end, field}
use samdi.Config.Merging.{leaf_at, first_of}
use samdi.Config.Loading.{
  Environment, worker, overrides, worker_overrides, merged_settings, failed, missing_file, nothing,
  resolve_source,
}
use samdi.Common.Texts.{trim, trim_start, trim_end}
use samdi.Config.Values.{labels_from_text, split_commas, expand_home}
use samdi.Config.Loading.Precedence.{setting_from_environment_or_file}
use samdi.Agent.{RunnerOptions, exec_line, shq, escape_quotes}
use samdi.Agent.Shell.{words}
use samdi.Agent.Quoting.{exec_words, prompt_word, exec_line-words}

abbrev env : Environment
env name = if name == "SAMDI_WORKER_ID" then some "w1" else none

abbrev file : Fields
file = field "worker" (object (field "id" (leaf "w2") (field "labels" (leaf "ops") end))) end

setting_from_environment_or_file_example :
    leaf_at ("worker" ∷ "id" ∷ []) (object (merged_settings worker env file))
    ≡ first_of
        (leaf_at ("worker" ∷ "id" ∷ []) (object (overrides worker env)))
        (leaf_at ("worker" ∷ "id" ∷ []) (object file))
unfolding worker_overrides
setting_from_environment_or_file_example =
    setting_from_environment_or_file worker env file ("worker" ∷ "id" ∷ []) refl

abbrev runner : RunnerOptions
runner = record {
  bin = "claude";
  cwd = "/home/u/it's here";
  prompt_file = "/tmp/prompt.txt";
  allowed_tools = "Bash(curl '*'); rm -rf /";
  permission_mode = some "plan";
}

exec_line-words_example :
    words (length (exec_words runner)) (exec_line runner) ≡ some (exec_words runner, prompt_word)
exec_line-words_example = exec_line-words runner

-- A path that the command line names must be there.
no_such_file :
    resolve_source (λ f. false) (λ t. none) (λ t. nothing) (λ f. f) (some "a.yaml") none []
    ≡ failed (missing_file "a.yaml")
unfolding resolve_source
no_such_file = refl

quoted : shq "it's" ≡ "'it'\\''s'"
unfolding shq escape_quotes
quoted = refl

-- The labels of an environment variable.
labels_of_text : labels_from_text " ops, demo ,," ≡ some ("ops" ∷ "demo" ∷ [])
unfolding labels_from_text split_commas trim trim_start trim_end
labels_of_text = refl

no_labels : labels_from_text " , " ≡ none
unfolding labels_from_text split_commas trim trim_start trim_end
no_labels = refl

at_home : expand_home "/home/u" (λ d f. "joined") "~/.samdi" ≡ "joined"
unfolding expand_home
at_home = refl

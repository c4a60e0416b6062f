-- ===== src/Config/Loading.antt =====
-- packages/config/src/load.ts: where the settings of the two programs come from. The file system, the
-- reading of YAML and the schemas are arguments.
pub mod Precedence
use samdi.Common.{
  String, Bool, true, false, not, ◌&&◌, Option, none, some, List, [], ◌∷◌, map, ◌==◌, if◌then◌else◌,
}
use samdi.Config.{
  Value, missing, leaf, object, Fields, end, field, deep_merge, compact, compact_value,
}
use samdi.ControlPlane.Db.{Channel}

pub data ConfigError : Type 0 where
  missing_file : String → ConfigError
  unreadable_file : String → ConfigError
  syntax_error : String → ConfigError
  not_a_mapping : String → ConfigError
  invalid_settings : Option String → ConfigError

pub data Result {ℓ} (A : Type ℓ) : Type ℓ where
  ok : A → Result A
  failed : ConfigError → Result A

infixl 5 ◌>>=◌
abbrev pub ◌>>=◌ {ℓ κ} : {A : Type ℓ} {B : Type κ} → Result A → (A → Result B) → Result B
ok a >>= f = f a
failed e >>= f = failed e

-- What a YAML text holds.
pub data Parsed : Type 0 where
  no_yaml : Parsed
  nothing : Parsed
  mapping : Fields → Parsed
  another : Parsed

abbrev pub parsed_fields : String → Parsed → Result Fields
parsed_fields file no_yaml = failed (syntax_error file)
parsed_fields file nothing = ok end
parsed_fields file (mapping f) = ok f
parsed_fields file another = failed (not_a_mapping file)

abbrev pub Environment : Type 0
Environment = String → Option String

-- `a ?? b`
abbrev or_else : Option String → Option String → Option String
or_else none b = b
or_else (some a) b = some a

-- A value that is `undefined` where the variable is not set.
abbrev pub variable : Option String → Value
variable none = missing
variable (some t) = leaf t

-- `c ? f(c) : undefined`, on a text
abbrev pub if_set : Option String → (String → Value) → Value
if_set none f = missing
if_set (some t) f = if t == "" then missing else f t

unfoldable pub server_overrides : Environment → Fields
server_overrides env = field "port" (variable (env "PORT")) (
    field "host" (variable (env "SAMDI_HOST")) (
      field "dbPath" (variable (env "SAMDI_DB_PATH")) (
        field "workerKey" (variable (env "SAMDI_WORKER_KEY")) (
          field "adminKey" (variable (env "SAMDI_ADMIN_KEY")) (
            field "sweepIntervalMs" (variable (env "SAMDI_SWEEP_INTERVAL_MS"))
              (field "uiDist" (variable (env "SAMDI_UI_DIST")) end))))))

abbrev pub claude_fields : Environment → Fields
claude_fields env = field "bin" (variable (env "SAMDI_CLAUDE_BIN")) (
    field "permissionMode" (variable (env "SAMDI_CLAUDE_PERMISSION_MODE")) (
      field "allowedTools" (variable (env "SAMDI_CLAUDE_ALLOWED_TOOLS")) (
        field "cwd" (variable (env "SAMDI_CLAUDE_CWD"))
          (field "timeoutMs" (variable (env "SAMDI_CLAUDE_TIMEOUT_MS")) end))))

-- `claudeOverride ? { 'claude-code': claudeOverride } : undefined`
abbrev pub agents_value : Value → Value
agents_value missing = missing
agents_value (leaf t) = object (field "claude-code" (leaf t) end)
agents_value (object f) = object (field "claude-code" (object f) end)

abbrev pub approval_text : String → Value
approval_text t = leaf (if t == "false" then "false" else "true")

unfoldable pub worker_overrides : Environment → Fields
unfolding compact
worker_overrides env =
    field "controlPlane"
      (object (
        field "url" (variable (env "SAMDI_CONTROL_PLANE_URL"))
          (field "workerKey" (variable (env "SAMDI_WORKER_KEY")) end)))
      (field "worker"
        (object (
          field "id" (variable (env "SAMDI_WORKER_ID")) (
            field "labels" (variable (env "SAMDI_LABELS")) (
              field "pollIntervalMs" (variable (env "SAMDI_POLL_INTERVAL_MS")) (
                field "leaseSeconds" (variable (env "SAMDI_LEASE_SECONDS")) (
                  field "reportPort" (variable (env "SAMDI_REPORT_PORT")) (
                    field "reportHost" (variable (env "SAMDI_REPORT_HOST"))
                      (field "concurrency" (variable (env "SAMDI_CONCURRENCY")) end))))))))
        (field "startGate"
          (object
            (field "requireApproval" (if_set (env "SAMDI_REQUIRE_APPROVAL") approval_text) end))
          (field "uiDist" (variable (env "SAMDI_UI_DIST")) (
            field "defaultAgent" (variable (env "SAMDI_AGENT"))
              (field "agents" (agents_value (compact_value (object (claude_fields env)))) end)))))

-- The two programs that read settings.
pub data Program : Type 0 where
  server worker : Program

abbrev pub overrides : Program → Environment → Fields
overrides server env = server_overrides env
overrides worker env = worker_overrides env

abbrev config_variable : Program → String
config_variable server = "SAMDI_SERVER_CONFIG"
config_variable worker = "SAMDI_WORKER_CONFIG"

abbrev file_name : Program → String
file_name server = "samdi.server.yaml"
file_name worker = "samdi.worker.yaml"

abbrev home_name : Program → String
home_name server = "server.yaml"
home_name worker = "worker.yaml"

-- `deepMerge(fromFile, compact(…) ?? {})`
unfoldable pub merged_settings : Program → Environment → Fields → Fields
merged_settings program env file = deep_merge (compact (overrides program env)) file

module _ (exists : String → Bool) (read_file : String → Option String)
    (parse_yaml : String → Parsed) (resolve : String → String) where
  abbrev first_existing : List String → Option String
  first_existing [] = none
  first_existing (c ∷ cs) = let later = first_existing cs in if exists c then some c else later

  abbrev from_candidates : Option String → List String → Result (Option String)
  from_candidates none candidates = ok (first_existing candidates)
  from_candidates (some explicit) candidates =
      if explicit == ""
      then ok (first_existing candidates)
      else (if exists (resolve explicit)
          then ok (some (resolve explicit))
          else failed (missing_file (resolve explicit)))

  unfoldable pub resolve_source :
      Option String → Option String → List String → Result (Option String)
  resolve_source path variable candidates = from_candidates (or_else path variable) candidates

  abbrev parsed_file : String → Option String → Result Fields
  parsed_file file none = failed (unreadable_file file)
  parsed_file file (some text) = parsed_fields file (parse_yaml text)

  unfoldable pub read_source : Option String → Result Fields
  read_source none = ok end
  read_source (some file) = parsed_file file (read_file file)

  module _ {C : Type 0} (schema : Fields → Option C) where
    abbrev checked : Option String → Option C → Result C
    checked source none = failed (invalid_settings source)
    checked source (some c) = ok c

    -- `load`, with the overrides of the program, and its source
    unfoldable pub load_settings :
        Program → Environment → Option String → List String → Result (C × Option String)
    unfolding resolve_source read_source
    load_settings program env path candidates = do
      source ← resolve_source path (env (config_variable program)) candidates
      file ← read_source source
      config ← checked source (schema (merged_settings program env file))
      ok (config, source)

-- `SAMDI_CHANNEL_KEY` is the key of the channel `demo`.
abbrev rekeyed : String → Channel → Channel
rekeyed key c = if c.id == "demo" then record c { key = key } else c

unfoldable pub with_demo_key : Environment → List Channel → List Channel
with_demo_key env channels = elim (env "SAMDI_CHANNEL_KEY") [
  | none ↦ channels
  | some key ↦ if key == "" then channels else map (rekeyed key) channels
]

-- ===== src/Samples/Start.antt =====
-- A source of identifiers and a database with one channel of each kind.
use text.Mathlib.TextLemmas.{tail-eq_of_cons-eq, nil≢cons, cons≢nil}
use samdi.Common.{ℕ, zero, suc, refl, ap, String, none, [], ◌∷◌}
use samdi.ControlPlane.Db.{
  Db, Channel, InterpreterMode, InterpreterConfig, passthrough, claude, config, api,
}
use samdi.ControlPlane.Identifiers.{IsInjective}
use samdi.ControlPlane.Tasks.Invariant.{IsValid}

-- The n-th identifier: n letters.
abbrev pub uuid : ℕ → String
uuid zero = ""
uuid (suc n) = String.◌∷◌ "x" (uuid n)

pub uuid-IsInjective : IsInjective uuid
uuid-IsInjective zero zero e = refl
uuid-IsInjective zero (suc n) e = absurd (nil≢cons e)
uuid-IsInjective (suc m) zero e = absurd (cons≢nil e)
uuid-IsInjective (suc m) (suc n) e = ap suc (uuid-IsInjective m n (tail-eq_of_cons-eq e))

abbrev pub interpreter_with : InterpreterMode → InterpreterConfig
interpreter_with mode = record {
  mode = mode;
  ttl_seconds = 3600;
  debounce_ms = 2000;
  labels = [];
  claude_settings = record { model = "claude-opus-5"; effort = "low" };
  http_settings = none;
  guidance = none;
  system_prompt = none;
}

abbrev pub demo : Channel
demo = record {
  id = "demo";
  label = "ops";
  key = "demo-channel-key";
  interpreter = interpreter_with passthrough;
  source = config;
  created_at = 0;
  disabled_at = none;
}

abbrev pub mail : Channel
mail = record {
  id = "mail";
  label = "ops";
  key = "ch_mail";
  interpreter = interpreter_with claude;
  source = api;
  created_at = 0;
  disabled_at = none;
}

abbrev pub start : Db
start = record {
  channels = demo ∷ mail ∷ [];
  workers = [];
  payloads = [];
  threads = [];
  thread_events = [];
  tasks = [];
  task_events = [];
  clock = 1000;
  drawn = 1;
}

pub start-IsValid : IsValid uuid start
start-IsValid = record {
  unique = tt;
  new_tasks = λ m le. refl;
  new_events = λ m le. refl;
  new_payloads = λ m le. refl;
  held = λ id. refl;
  audited = λ id. refl;
}

-- ===== src/Worker/State.antt =====
-- apps/worker/src/worker-state.ts: `WorkerState`, the settings that the user changed on the device.
-- A call of the file system works, or it throws and leaves the file as `fails` says; the removal of
-- a file that throws leaves it as it was.
pub mod Setters
pub mod Restart
use samdi.Common.{
  ℕ, String, Bool, true, false, ◌&&◌, ◌||◌, not, Option, none, some, List, [], ◌∷◌, ◌++◌, map, ◌==◌,
  includes, length, if◌then◌else◌, ltb, leb,
}
use samdi.Common.Texts.{trim, is_blank}

pub record WorkerDefaults : Type 0 where
  pub labels : List String
  pub concurrency : ℕ
  pub default_agent : String

pub record Overrides : Type 0 where
  pub labels : Option (List String)
  pub concurrency : Option ℕ
  pub default_agent : Option String

-- A file that is there holds a JSON object, or what is no such text.
pub data StateFile : Type 0 where
  absent unreadable : StateFile
  holds : Overrides → StateFile

pub data Disk : Type 0 where
  works : Disk
  fails : StateFile → Disk

pub record WorkerState : Type 0 where
  pub configured : WorkerDefaults
  pub overrides : Overrides
  pub file : StateFile

pub data StateError : Type 0 where
  no_labels bad_concurrency : StateError
  unknown_agent : String → StateError

-- A setter throws before it changes anything, or it gives the state that it leaves, where `unsaved`
-- is an error of the file system.
pub data Change : Type 0 where
  refused : StateError → Change
  changed unsaved : WorkerState → Change

abbrev pub or_default {ℓ} : {A : Type ℓ} → Option A → A → A
or_default none d = d
or_default (some a) d = a

abbrev pub labels_of : WorkerState → List String
labels_of w = or_default w.overrides.labels w.configured.labels

abbrev pub concurrency_of : WorkerState → ℕ
concurrency_of w = or_default w.overrides.concurrency w.configured.concurrency

abbrev pub default_agent_of : WorkerState → String
default_agent_of w = or_default w.overrides.default_agent w.configured.default_agent

abbrev pub nothing_changed : Overrides
nothing_changed = record { labels = none; concurrency = none; default_agent = none }

abbrev is_none {ℓ} : {A : Type ℓ} → Option A → Bool
is_none none = true
is_none (some a) = false

abbrev pub is_empty : Overrides → Bool
is_empty o = is_none o.labels && (is_none o.concurrency && is_none o.default_agent)

-- `if (existsSync(this.file)) rmSync(this.file, …)`
abbrev pub removed : StateFile → Disk → WorkerState → Change
removed absent disk w = changed w
removed _ works w = changed (record w { file = absent })
removed _ (fails _) w = unsaved w

unfoldable pub reset : Disk → WorkerState → Change
reset disk w = removed w.file disk (record w { overrides = nothing_changed })

-- `mkdirSync(…); writeFileSync(…)`
abbrev pub written : Disk → WorkerState → Change
written works w = changed (record w { file = holds w.overrides })
written (fails left) w = unsaved (record w { file = left })

-- `patch`, given the overrides with the patch laid over them
unfoldable pub patch : Disk → Overrides → WorkerState → Change
unfolding reset
patch disk o w =
    if is_empty o
    then reset disk (record w { overrides = o })
    else written disk (record w { overrides = o })

-- `labels.map((l) => l.trim()).filter(Boolean)`
abbrev pub trimmed : List String → List String
trimmed [] = []
trimmed (l ∷ ls) = let rest = trimmed ls in if trim l == "" then rest else trim l ∷ rest

-- `[...new Set(xs)]`
abbrev pub distinct_onto : List String → List String → List String
distinct_onto set [] = set
distinct_onto set (x ∷ xs) = distinct_onto (if includes set x then set else set ++ x ∷ []) xs

abbrev pub cleaned : List String → List String
cleaned labels = distinct_onto [] (trimmed labels)

abbrev every_in : List String → List String → Bool
every_in b [] = true
every_in b (x ∷ xs) = includes b x && every_in b xs

abbrev pub same_length : ℕ → ℕ → Bool
same_length m n = leb m n && leb n m

abbrev pub same_set : List String → List String → Bool
same_set a b = same_length (length a) (length b) && every_in b a

abbrev pub unless_same {ℓ} : {A : Type ℓ} → Bool → A → Option A
unless_same true a = none
unless_same false a = some a

abbrev pub patched_labels : Disk → List String → WorkerState → Change
patched_labels disk [] w = refused no_labels
patched_labels disk (l ∷ ls) w =
    patch disk
      (record w.overrides { labels = unless_same (same_set (l ∷ ls) w.configured.labels) (l ∷ ls) })
      w

unfoldable pub set_labels : Disk → List String → WorkerState → Change
set_labels disk labels w = patched_labels disk (cleaned labels) w

unfoldable pub set_concurrency : Disk → ℕ → WorkerState → Change
set_concurrency disk n w =
    if ltb n 1 || ltb 32 n
    then refused bad_concurrency
    else patch disk
        (record w.overrides {
          concurrency = unless_same (same_length n w.configured.concurrency) n;
        })
        w

unfoldable pub set_default_agent : Disk → String → List String → WorkerState → Change
set_default_agent disk agent known w =
    if includes known agent
    then patch disk
        (record w.overrides {
          default_agent = unless_same (agent == w.configured.default_agent) agent;
        })
        w
    else refused (unknown_agent agent)

-- `raw.labels.filter((v) => v.trim() !== '')`
abbrev pub not_blank : List String → List String
not_blank [] = []
not_blank (l ∷ ls) = let rest = not_blank ls in if is_blank l then rest else l ∷ rest

abbrev pub read_labels : List String → Option (List String)
read_labels [] = none
read_labels (l ∷ ls) = some (l ∷ ls)

abbrev pub kept_labels : Option (List String) → Option (List String)
kept_labels none = none
kept_labels (some labels) = read_labels (not_blank labels)

abbrev pub kept_concurrency : Option ℕ → Option ℕ
kept_concurrency none = none
kept_concurrency (some n) = if leb 1 n && leb n 32 then some n else none

abbrev pub kept_agent : Option String → Option String
kept_agent none = none
kept_agent (some agent) = if is_blank agent then none else some agent

unfoldable pub read : StateFile → Overrides
read absent = nothing_changed
read unreadable = nothing_changed
read (holds raw) = record {
  labels = kept_labels raw.labels;
  concurrency = kept_concurrency raw.concurrency;
  default_agent = kept_agent raw.default_agent;
}

-- The constructor
unfoldable pub start_worker : WorkerDefaults → StateFile → WorkerState
unfolding read
start_worker configured file = record {
  configured = configured;
  overrides = read file;
  file = file;
}

-- ===== src/ControlPlane/Db.antt =====
-- apps/control-plane/src/db.ts: the tables with their keys and references, as a record; and what a
-- SQL statement does to it. A statement that breaks a key or a reference throws. Beside the tables
-- stand the clock, in milliseconds, and how many identifiers `randomUUID` has given out.
--
-- An ISO instant is its number of milliseconds: the texts of `toISOString` have one width and sort
-- as the instants do. A JSON column holds its value.
use samdi.Common.{
  ℕ, ◌+◌, String, Bool, true, false, ◌&&◌, ◌||◌, not, Option, List, [], ◌∷◌, ◌++◌, ◌==◌, Outcome,
  returned, threw, Exec,
}
use samdi.Common.Table.{has}
use samdi.Domain.{TaskStatus}

pub data Failure : Type 0 where
  task_not_found : String → Failure
  task_not_pending : String → TaskStatus → Failure
  invalid_transition : TaskStatus → TaskStatus → Failure
  channel_exists channel_not_found channel_not_editable : String → Failure
  channel_in_use : String → ℕ → ℕ → Failure
  unknown_channel : String → Failure
  http_url_required : Failure  -- by `createInterpreter`
  type_error : Failure  -- a property of null
  invalid_request : Failure  -- by a zod schema
  constraint_violation : Failure  -- thrown by SQLite

pub data InterpreterMode : Type 0 where
  passthrough claude http : InterpreterMode

pub record ClaudeSettings : Type 0 where
  pub model : String
  pub effort : String

pub record HttpSettings : Type 0 where
  pub url : String
  pub headers : List (String × String)
  pub timeout_ms : ℕ

pub record InterpreterConfig : Type 0 where
  pub mode : InterpreterMode
  pub ttl_seconds : ℕ
  pub debounce_ms : ℕ
  pub labels : List String
  pub claude_settings : ClaudeSettings
  pub http_settings : Option HttpSettings
  pub guidance : Option String
  pub system_prompt : Option String

pub data ChannelSource : Type 0 where
  config api : ChannelSource

pub record Channel : Type 0 where
  pub id : String
  pub label : String
  pub key : String
  pub interpreter : InterpreterConfig
  pub source : ChannelSource
  pub created_at : ℕ
  pub disabled_at : Option ℕ

pub record WorkerRow : Type 0 where
  pub id : String
  pub labels : List String
  pub first_seen_at : ℕ
  pub last_seen_at : ℕ

pub record Payload : Type 0 where
  pub ref : String
  pub body : String
  pub created_at : ℕ

pub data ThreadStatus : Type 0 where
  open_thread dispatched discarded expired : ThreadStatus

pub record Thread : Type 0 where
  pub id : String
  pub channel_id : String
  pub context_key : String
  pub status : ThreadStatus
  pub agent : Option String
  pub event_seq : ℕ
  pub interpreted_seq : ℕ
  pub last_event_at : ℕ
  pub last_interpreted_at : Option ℕ
  pub created_at : ℕ
  pub updated_at : ℕ

pub record ThreadEvent : Type 0 where
  pub id : String
  pub thread_id : String
  pub payload : String
  pub received_at : ℕ

-- A row of `tasks`; `toTask` gives each column its name in camel case and changes nothing.
pub record Task : Type 0 where
  pub id : String
  pub channel_id : String
  pub label : String
  pub payload_ref : String
  pub status : TaskStatus
  pub agent : Option String
  pub thread_id : Option String
  pub worker_id : Option String
  pub lease_expires_at : Option ℕ
  pub created_at : ℕ
  pub updated_at : ℕ

-- The `data` of an audit event is a flat object of texts and instants.
pub data Field : Type 0 where
  text : String → Field
  instant : ℕ → Field

pub record TaskEvent : Type 0 where
  pub id : String
  pub task_id : String
  pub at : ℕ
  pub type : String
  pub fields : List (String × Field)

pub record Db : Type 0 where
  pub channels : List Channel
  pub workers : List WorkerRow
  pub payloads : List Payload
  pub threads : List Thread
  pub thread_events : List ThreadEvent
  pub tasks : List Task
  pub task_events : List TaskEvent
  pub clock : ℕ
  pub drawn : ℕ

abbrev pub Query : Type 0 → Type 0
Query = Exec Failure Db

-- The primary keys.
abbrev pub channel_key : Channel → String
channel_key c = c.id

abbrev pub payload_key : Payload → String
payload_key p = p.ref

abbrev pub thread_key : Thread → String
thread_key t = t.id

abbrev pub thread_event_key : ThreadEvent → String
thread_event_key e = e.id

abbrev pub task_key : Task → String
task_key t = t.id

abbrev pub task_event_key : TaskEvent → String
task_event_key e = e.id

-- `status = 'open'`
abbrev pub is_open : ThreadStatus → Bool
is_open open_thread = true
is_open _ = false

-- The test of the partial index `idx_threads_open_key`.
abbrev pub is_open_for : String → String → Thread → Bool
is_open_for channel_id context_key t =
    t.channel_id == channel_id && (t.context_key == context_key && is_open t.status)

abbrev pub any_open : String → String → List Thread → Bool
any_open channel_id context_key [] = false
any_open channel_id context_key (t ∷ ts) =
    is_open_for channel_id context_key t || any_open channel_id context_key ts

-- A constraint that fails throws, and nothing is written.
abbrev check : Bool → Db → Query (Unit {0})
check true next db = returned tt next
check false next db = threw constraint_violation db

abbrev pub insert_payload : Payload → Query (Unit {0})
insert_payload p db =
    check (not (has payload_key p.ref db.payloads)) (record db { payloads = db.payloads ++ p ∷ [] })
      db

abbrev pub insert_task : Task → Query (Unit {0})
insert_task t db =
    check
      (not (has task_key t.id db.tasks)
        && (has channel_key t.channel_id db.channels && has payload_key t.payload_ref db.payloads))
      (record db { tasks = db.tasks ++ t ∷ [] }) db

abbrev pub insert_task_event : TaskEvent → Query (Unit {0})
insert_task_event e db =
    check (not (has task_event_key e.id db.task_events) && has task_key e.task_id db.tasks)
      (record db { task_events = db.task_events ++ e ∷ [] }) db

abbrev pub insert_thread : Thread → Query (Unit {0})
insert_thread t db =
    check
      (not (has thread_key t.id db.threads)
        && (has channel_key t.channel_id db.channels
            && not (is_open t.status && any_open t.channel_id t.context_key db.threads)))
      (record db { threads = db.threads ++ t ∷ [] }) db

abbrev pub insert_thread_event : ThreadEvent → Query (Unit {0})
insert_thread_event e db =
    check
      (not (has thread_event_key e.id db.thread_events) && has thread_key e.thread_id db.threads)
      (record db { thread_events = db.thread_events ++ e ∷ [] }) db

abbrev pub now : Query ℕ
now db = returned db.clock db

-- `randomUUID()`, over the sequence of the identifiers that it gives.
abbrev pub random_uuid : (ℕ → String) → Query String
random_uuid uuid db = returned (uuid db.drawn) (record db { drawn = db.drawn + 1 })

-- `db.transaction(f)()`: a throw undoes what `f` wrote to the tables.
abbrev rollback : {A : Type 0} → Db → Outcome Failure Db A → Outcome Failure Db A
rollback before (returned a db) = returned a db
rollback before (threw e db) = threw e (record before { drawn = db.drawn })

abbrev pub transaction : {A : Type 0} → Query A → Query A
transaction m db = rollback db (m db)

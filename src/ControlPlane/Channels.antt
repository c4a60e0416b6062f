-- ===== src/ControlPlane/Channels.antt =====
-- apps/control-plane/src/channel-registry.ts: `ChannelRegistry`, the channels and their keys.
-- `random_bytes n` is the text of the n-th draw of `randomBytes(24).toString('base64url')`. The zod
-- schema of an interpreter is the function `parse`, of a JSON value or of `{}`; what it stores, it
-- reads back as it was.
pub mod Removal
pub mod Entries
pub mod Calls
pub mod Keys
pub mod Loading
pub mod Purge
pub mod Effects
pub mod Sync
use Prim.Native.String.{◌++◌ as text_append}
use samdi.Common.{
  ℕ, zero, suc, ◌+◌, ◌-◌, String, Bool, true, false, ◌&&◌, ◌||◌, not, Option, none, some, List, [],
  ◌∷◌, ◌++◌, map, ◌==◌, includes, length, if◌then◌else◌, ◌>>=◌, ◌>>◌, pure, throw, gets, modify,
  ltb, leb,
}
use samdi.Common.Table.{find, has, select, delete, update}
use samdi.Common.Texts.{trim, text_length, slice_to, slice_from}
use samdi.ControlPlane.Db.{
  Db, Query, Failure, InterpreterMode, passthrough, claude, http, HttpSettings, InterpreterConfig,
  ChannelSource, config, api, Channel, Task, Thread, channel_key, channel_exists, channel_not_found,
  channel_not_editable, channel_in_use, http_url_required, invalid_request, now, transaction,
}
use samdi.ControlPlane.Deletion.{
  delete_task_events, delete_tasks, delete_payload, delete_thread_events, delete_threads,
  delete_channel,
}
use samdi.ControlPlane.Memory.{Runtime, Server, Serve, on_db, entry_key}

pub record ChannelRecord : Type 0 where
  pub id : String
  pub label : String
  pub source : ChannelSource
  pub created_at : ℕ
  pub disabled_at : Option ℕ
  pub interpreter : InterpreterConfig

-- `'•'.repeat(n)`
abbrev pub dots : ℕ → String
dots zero = ""
dots (suc n) = String.◌∷◌ "•" (dots n)

unfoldable pub mask_key : String → String
mask_key key =
    if leb (text_length key) 8
    then dots (text_length key)
    else text_append (slice_to 5 key) (text_append "…" (slice_from (text_length key - 4) key))

-- `createInterpreter` throws on `http` without an address.
abbrev pub is_buildable : InterpreterMode → Option HttpSettings → Bool
is_buildable http none = false
is_buildable _ _ = true

abbrev pub buildable : InterpreterConfig → Bool
buildable c = is_buildable c.mode c.http_settings

abbrev pub runtime_of : Channel → Runtime
runtime_of row = record {
  id = row.id;
  label = row.label;
  key = row.key;
  interpreter = row.interpreter;
}

abbrev pub to_runtime : Channel → Serve Runtime
to_runtime row =
    if buildable row.interpreter then pure (runtime_of row) else throw http_url_required

-- `runtimes.set(id, runtime)`: a key that is there keeps its place.
abbrev pub put_runtime : String → Runtime → List (String × Runtime) → List (String × Runtime)
put_runtime id r runtimes =
    if has entry_key id runtimes
    then update entry_key id (λ e. (e.0, r)) runtimes
    else runtimes ++ (id, r) ∷ []

abbrev pub set_runtime : String → Runtime → Serve (Unit {0})
set_runtime id r = modify (λ s. record s { runtimes = put_runtime id r s.runtimes })

abbrev pub delete_runtime : String → Serve (Unit {0})
delete_runtime id = modify (λ s. record s { runtimes = delete (λ e. e.0 == id) s.runtimes })

-- `ON CONFLICT(id) DO UPDATE SET label, key, interpreter, source, disabled_at = NULL`
abbrev pub revived : Channel → Channel → Channel
revived c r = record r {
  label = c.label;
  key = c.key;
  interpreter = c.interpreter;
  source = c.source;
  disabled_at = none;
}

abbrev pub upserted : Channel → List Channel → List Channel
upserted c channels =
    if has channel_key c.id channels
    then update channel_key c.id (revived c) channels
    else channels ++ c ∷ []

abbrev pub upsert_channel : Channel → Query (Unit {0})
upsert_channel c = modify (λ db. record db { channels = upserted c db.channels })

-- The loop of `syncFromConfig`, over the channels of the file with `label ?? id` filled in.
unfoldable pub sync_from_config : List Channel → Query (Unit {0})
sync_from_config [] = pure tt
sync_from_config (c ∷ channels) = do
  t ← now
  upsert_channel (record c { source = config; created_at = t; disabled_at = none })
  sync_from_config channels

-- The loop of `load`.
unfoldable pub load_rows : List Channel → Serve (Unit {0})
load_rows [] = pure tt
load_rows (row ∷ rows) = do r ← to_runtime row; set_runtime row.id r; load_rows rows

abbrev pub is_enabled : Channel → Bool
is_enabled row = elim row.disabled_at [ none ↦ true | some _ ↦ false ]

unfoldable pub load : Serve (Unit {0})
unfolding load_rows
load = do
  modify (λ s. record s { runtimes = [] })
  rows ← gets (λ s. select is_enabled s.db.channels)
  load_rows rows

-- `get`
abbrev pub get_runtime : String → Server → Option (String × Runtime)
get_runtime channel_id s = find entry_key channel_id s.runtimes

-- `runtime.config.key === key ? runtime : null`, where there is a key
abbrev pub accepts : Option String → String × Runtime → Option Runtime
accepts none e = none
accepts (some key) e = if key == "" then none else if e.1.key == key then some e.1 else none

unfoldable pub authenticate : String → Option String → Server → Option Runtime
authenticate channel_id key s = elim (get_runtime channel_id s) [
  | none ↦ none
  | some e ↦ accepts key e
]

unfoldable pub masked_key : String → Db → Option String
masked_key channel_id db = elim (find channel_key channel_id db.channels) [
  | none ↦ none
  | some row ↦ some (mask_key row.key)
]

abbrev pub generate_channel_key : (ℕ → String) → Query String
generate_channel_key random_bytes = do
  n ← gets (λ db. db.drawn)
  modify (λ db. record db { drawn = db.drawn + 1 })
  pure (text_append "ch_" (random_bytes n))

abbrev pub parsed : Option InterpreterConfig → Serve InterpreterConfig
parsed none = throw invalid_request
parsed (some c) = pure c

abbrev pub or_text : Option String → String → String
or_text none d = d
or_text (some text) d = text

-- `text || d`
abbrev pub unless_empty : String → String → String
unless_empty text d = if text == "" then d else text

-- `patch.label?.trim() || row.label`
abbrev pub new_label : Option String → String → String
new_label none d = d
new_label (some label) d = unless_empty (trim label) d

-- The row, which must come from the API.
abbrev pub editable_row : String → Serve Channel
editable_row channel_id s = elim (find channel_key channel_id s.db.channels) [
  | none ↦ throw (channel_not_found channel_id) s
  | some row ↦ elim row.source [
    | config ↦ throw (channel_not_editable channel_id) s
    | api ↦ pure row s
  ]
]

abbrev pub update_channel : String → (Channel → Channel) → Query (Unit {0})
update_channel channel_id f =
    modify (λ db. record db { channels = update channel_key channel_id f db.channels })

abbrev pub record_of : Channel → ChannelRecord
record_of row = record {
  id = row.id;
  label = row.label;
  source = row.source;
  created_at = row.created_at;
  disabled_at = row.disabled_at;
  interpreter = row.interpreter;
}

abbrev pub if_enabled : Channel → Serve (Unit {0}) → Serve (Unit {0})
if_enabled row m = if is_enabled row then m else pure tt

module _ (random_bytes : ℕ → String) {Json : Type 0}
    (parse : Option Json → Option InterpreterConfig) where
  -- `interpreter` is `none` where the input has none and where it has null: `input.interpreter ?? {}`.
  unfoldable pub create : String → Option String → Option Json → Serve (ChannelRecord × String)
  create id label interpreter = do
    known ← gets (λ s. has entry_key id s.runtimes)
    (if known then throw (channel_exists id) else pure tt)
    c ← parsed (parse interpreter)
    key ← on_db (generate_channel_key random_bytes)
    t ← on_db now
    let row : Channel = record {
      id = id;
      label = or_text label id;
      key = key;
      interpreter = c;
      source = api;
      created_at = t;
      disabled_at = none;
    }
    on_db (upsert_channel row)
    r ← to_runtime row
    set_runtime id r
    pure (record_of row, key)

  abbrev patched_interpreter : Option Json → Channel → Serve InterpreterConfig
  patched_interpreter none row = pure row.interpreter
  patched_interpreter (some json) row = parsed (parse (some json))

  unfoldable pub update_channel_settings :
      String → Option String → Option Json → Serve ChannelRecord
  update_channel_settings channel_id label interpreter = do
    row ← editable_row channel_id
    c ← patched_interpreter interpreter row
    on_db (
        update_channel channel_id
          (λ r. record r { label = new_label label row.label; interpreter = c }))
    let next : Channel = record row { label = new_label label row.label; interpreter = c }
    if_enabled row (do r ← to_runtime next; set_runtime channel_id r)
    pure (record_of next)

unfoldable pub rotate_key : (ℕ → String) → String → Serve String
rotate_key random_bytes channel_id = do
  row ← editable_row channel_id
  key ← on_db (generate_channel_key random_bytes)
  on_db (update_channel channel_id (λ r. record r { key = key }))
  r ← to_runtime (record row { key = key })
  set_runtime channel_id r
  pure key

unfoldable pub disable : String → Serve (Unit {0})
disable channel_id = do
  row ← editable_row channel_id
  t ← on_db now
  on_db (update_channel channel_id (λ r. record r { disabled_at = some t }))
  delete_runtime channel_id

-- ===== src/ControlPlane/Channels/Effects.antt =====
-- apps/control-plane/src/channel-registry.ts: the branches of the methods.
use Prim.Native.String.{◌++◌ as text_append}
use samdi.Common.{
  ℕ, ◌+◌, ◌≡◌, String, Option, none, some, List, ◌==◌, if◌then◌else◌, arith, returned, threw,
  Outcome,
}
use samdi.Common.Table.{find, has, update, delete}
use samdi.ControlPlane.Db.{
  Channel, config, api, InterpreterConfig, Failure, channel_key, channel_exists, channel_not_found,
  channel_not_editable, http_url_required, invalid_request,
}
use samdi.ControlPlane.Memory.{Runtime, Server, entry_key}
use samdi.ControlPlane.Channels.{
  ChannelRecord, record_of, buildable, runtime_of, is_enabled, create, update_channel_settings,
  rotate_key, disable, upserted, put_runtime, new_label, or_text,
}

-- The branches of a method that works on a row from the API.
abbrev pub on_editable :
    {A : Type 0} → String → (Channel → Outcome Failure Server A) → Server → Outcome Failure Server A
on_editable channel_id k s = elim (find channel_key channel_id s.db.channels) [
  | none ↦ threw (channel_not_found channel_id) s
  | some row ↦ elim row.source [ config ↦ threw (channel_not_editable channel_id) s | api ↦ k row ]
]

abbrev pub with_channels : List Channel → Server → Server
with_channels channels s = record s { db = record s.db { channels = channels } }

abbrev pub with_draw : Server → Server
with_draw s = record s { db = record s.db { drawn = s.db.drawn + 1 } }

abbrev pub with_runtime : String → Runtime → Server → Server
with_runtime id r s = record s { runtimes = put_runtime id r s.runtimes }

abbrev pub next_key : (ℕ → String) → Server → String
next_key random_bytes s = text_append "ch_" (random_bytes s.db.drawn)

-- The tables after a row is changed; the runtime follows if its interpreter can be built.
abbrev pub written_row : (Channel → Channel) → String → Server → Server
written_row f id s = with_channels (update channel_key id f s.db.channels) s

pub rotate_key_lem :
    (random_bytes : ℕ → String) (id : String) (s : Server)
    → rotate_key random_bytes id s
      ≡ on_editable id
          (λ row.
            if buildable row.interpreter
            then returned (next_key random_bytes s) (
                with_runtime id
                  (runtime_of (record row { key = next_key random_bytes s }))
                  (written_row (λ r. record r { key = next_key random_bytes s }) id (with_draw s)))
            else threw http_url_required
                (written_row (λ r. record r { key = next_key random_bytes s }) id (with_draw s)))
          s
unfolding rotate_key
rotate_key_lem random_bytes id s = ground arith

pub disable_lem :
    (id : String) (s : Server)
    → disable id s
      ≡ on_editable id
          (λ row.
            returned tt
              (record (written_row (λ r. record r { disabled_at = some s.db.clock }) id s) {
                runtimes = delete (λ e. e.0 == id) s.runtimes;
              }))
          s
unfolding disable
disable_lem id s = ground arith

module _ (random_bytes : ℕ → String) {Json : Type 0}
    (parse : Option Json → Option InterpreterConfig) where
  abbrev pub created_row : String → Option String → InterpreterConfig → Server → Channel
  created_row id label c s = record {
    id = id;
    label = or_text label id;
    key = next_key random_bytes s;
    interpreter = c;
    source = api;
    created_at = s.db.clock;
    disabled_at = none;
  }

  abbrev pub with_created : Channel → Server → Server
  with_created row s = with_channels (upserted row s.db.channels) (with_draw s)

  pub create_lem :
      (id : String) (label : Option String) (interpreter : Option Json) (s : Server)
      → create random_bytes parse id label interpreter s ≡ (
          if has entry_key id s.runtimes
          then threw (channel_exists id) s
          else elim (parse interpreter) [
            | none ↦ threw invalid_request s
            | some c ↦
                if buildable c
                then returned
                    (record_of (created_row id label c s), next_key random_bytes s)
                    (with_runtime id
                      (runtime_of (created_row id label c s))
                      (with_created (created_row id label c s) s))
                else threw http_url_required (with_created (created_row id label c s) s)
          ])
  unfolding create
  create_lem id label interpreter s = ground arith

  -- The interpreter that an update stores: the row's own if the patch has none.
  abbrev pub patched : Option Json → Channel → Option InterpreterConfig
  patched none row = some row.interpreter
  patched (some json) row = parse (some json)

  abbrev pub next_row : Option String → InterpreterConfig → Channel → Channel
  next_row label c row = record row { label = new_label label row.label; interpreter = c }

  abbrev pub with_settings : String → Option String → InterpreterConfig → Channel → Server → Server
  with_settings id label c row s =
      written_row (λ r. record r { label = new_label label row.label; interpreter = c }) id s

  -- What an update of the row does.
  abbrev pub edited :
      String → Option String → Option Json → Server → Channel → Outcome Failure Server ChannelRecord
  edited id label interpreter s row = elim (patched interpreter row) [
    | none ↦ threw invalid_request s
    | some c ↦
        if is_enabled row
        then (if buildable c
            then returned (record_of (next_row label c row)) (
                with_runtime id (runtime_of (next_row label c row))
                  (with_settings id label c row s))
            else threw http_url_required (with_settings id label c row s))
        else returned (record_of (next_row label c row)) (with_settings id label c row s)
  ]

  pub update_channel_settings_lem :
      (id : String) (label : Option String) (interpreter : Option Json) (s : Server)
      → update_channel_settings random_bytes parse id label interpreter s
        ≡ on_editable id (edited id label interpreter s) s
  unfolding update_channel_settings
  update_channel_settings_lem id label none s = ground arith
  update_channel_settings_lem id label (some json) s = ground arith

-- ===== src/ControlPlane/Channels/Calls.antt =====
-- apps/control-plane/src/channel-registry.ts: the calls of the registry, one after the other, and
-- the runtimes and rows that they leave.
use samdi.Common.{ℕ, ◌≡◌, String, Bool, true, false, Option, none, some, final}
use samdi.Common.Table.{find}
use samdi.ControlPlane.Db.{Channel, InterpreterConfig, channel_key}
use samdi.ControlPlane.Memory.{Server}
use samdi.ControlPlane.Channels.{
  buildable, is_enabled, create, update_channel_settings, rotate_key, disable,
}
use samdi.ControlPlane.Channels.Removal.{remove}
use samdi.ControlPlane.Channels.Purge.{shares_payload}

module _ (random_bytes : ℕ → String) {Json : Type 0}
    (parse : Option Json → Option InterpreterConfig) where
  pub data ChannelCall : Type 0 where
    create_channel : String → Option String → Option Json → ChannelCall
    edit_channel : String → Option String → Option Json → ChannelCall
    rotate_channel : String → ChannelCall
    disable_channel : String → ChannelCall
    remove_channel : String → Bool → ChannelCall

  unfoldable pub after_channel_call : ChannelCall → Server → Server
  after_channel_call (create_channel id label i) s = final (create random_bytes parse id label i s)
  after_channel_call (edit_channel id label i) s =
      final (update_channel_settings random_bytes parse id label i s)
  after_channel_call (rotate_channel id) s = final (rotate_key random_bytes id s)
  after_channel_call (disable_channel id) s = final (disable id s)
  after_channel_call (remove_channel id purge) s = final (remove id purge s)

  abbrev pub parses_buildable : Option InterpreterConfig → Bool
  parses_buildable none = true
  parses_buildable (some c) = buildable c

  abbrev pub row_enabled : Option Channel → Bool
  row_enabled none = true
  row_enabled (some row) = is_enabled row

  -- What is asked of a call: an interpreter that can be built, no new key for a disabled channel,
  -- and no removal of a payload that another channel's task has.
  abbrev pub Fits : ChannelCall → Server → Type 0
  Fits (create_channel id label i) s = parses_buildable (parse i) ≡ true
  Fits (edit_channel id label none) s = Unit
  Fits (edit_channel id label (some json)) s = parses_buildable (parse (some json)) ≡ true
  Fits (rotate_channel id) s = row_enabled (find channel_key id s.db.channels) ≡ true
  Fits (disable_channel id) s = Unit
  Fits (remove_channel id purge) s = shares_payload id s.db ≡ false

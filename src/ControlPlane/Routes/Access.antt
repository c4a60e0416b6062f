-- ===== src/ControlPlane/Routes/Access.antt =====
-- What the keys of a request allow.
use samdi.Common.{ℕ, ◌≡◌, refl, String, Bool, true, false, Option, none, ◌>>=◌}
use samdi.ControlPlane.Db.{InterpreterConfig}
use samdi.ControlPlane.Memory.{Server}
use samdi.ControlPlane.Channels.{authenticate}
use samdi.ControlPlane.Routes.{
  IngestBody, Route, health, overview, channel_list, post_event, admin_event, channel_threads,
  thread_detail, recover, task_detail, claim, report, heartbeat, assign_agent, resolve, task_list,
  register_channel, patch_channel, new_channel_key, disable_channel, delete_channel, Response,
  Headers, Keys, need, may, is_key,
}
use samdi.ControlPlane.Routes.Handling.{handle, serve}

-- The answer is 401, and nothing was changed.
abbrev pub IsRefused : Response × Server → Server → Type 0
IsRefused result s = (result.0.code ≡ 401) × (result.1 ≡ s)

abbrev pub is_health : {Json : Type 0} → Route Json → Bool
is_health health = true
is_health _ = false

module _ (uuid random_bytes : ℕ → String) {Json : Type 0}
    (parse : Option Json → Option InterpreterConfig) (keys : Keys) (h : Headers) (s : Server) where
  not_allowed-IsRefused :
      (route : Route Json)
      → may keys h (need route) ≡ false
      → IsRefused (serve uuid random_bytes parse keys h route s) s
  unfolding serve
  not_allowed-IsRefused route denied = rw denied (refl, refl)

  event-IsRefused :
      (id : String) (body : Option IngestBody)
      → authenticate id h.channel_key s ≡ none
      → IsRefused (serve uuid random_bytes parse keys h (post_event id body) s) s
  unfolding serve handle
  event-IsRefused id body unknown = rw (unknown, ◌>>=◌) (refl, refl)

  abbrev pub NoChannelKey : Route Json → Type 0
  NoChannelKey (post_event id body) = authenticate id h.channel_key s ≡ none
  NoChannelKey _ = Unit

  -- A request whose worker key and admin key are both wrong, and whose channel key does not open
  -- the channel if it is an event, is answered with 401 and changes nothing, on every route but
  -- the health check.
  pub without_keys :
      (route : Route Json)
      → is_key keys.worker_key h.worker_key ≡ false
      → is_key keys.admin_key h.admin_key ≡ false
      → NoChannelKey route
      → is_health route ≡ false
      → IsRefused (serve uuid random_bytes parse keys h route s) s
  without_keys health w a c n = cc
  without_keys (post_event id body) w a c n = event-IsRefused id body c
  without_keys (claim body) w a c n = not_allowed-IsRefused (claim body) w
  without_keys (report id body) w a c n = not_allowed-IsRefused (report id body) w
  without_keys (recover id) w a c n = not_allowed-IsRefused (recover id) w
  without_keys (heartbeat id body) w a c n = not_allowed-IsRefused (heartbeat id body) w
  without_keys (channel_threads id) w a c n =
      not_allowed-IsRefused (channel_threads id) (rw (w, a) refl)
  without_keys (thread_detail id) w a c n =
      not_allowed-IsRefused (thread_detail id) (rw (w, a) refl)
  without_keys (assign_agent id body) w a c n =
      not_allowed-IsRefused (assign_agent id body) (rw (w, a) refl)
  without_keys (resolve id body) w a c n = not_allowed-IsRefused (resolve id body) (rw (w, a) refl)
  without_keys (task_list opts) w a c n = not_allowed-IsRefused (task_list opts) (rw (w, a) refl)
  without_keys (task_detail id) w a c n = not_allowed-IsRefused (task_detail id) (rw (w, a) refl)
  without_keys overview w a c n = not_allowed-IsRefused overview a
  without_keys channel_list w a c n = not_allowed-IsRefused channel_list a
  without_keys (register_channel body) w a c n = not_allowed-IsRefused (register_channel body) a
  without_keys (patch_channel id body) w a c n = not_allowed-IsRefused (patch_channel id body) a
  without_keys (new_channel_key id) w a c n = not_allowed-IsRefused (new_channel_key id) a
  without_keys (disable_channel id) w a c n = not_allowed-IsRefused (disable_channel id) a
  without_keys (delete_channel id purge) w a c n = not_allowed-IsRefused (delete_channel id purge) a
  without_keys (admin_event id body) w a c n = not_allowed-IsRefused (admin_event id body) a

  -- What reads or writes the channels.
  abbrev pub administers : Route Json → Bool
  administers overview = true
  administers channel_list = true
  administers (register_channel body) = true
  administers (patch_channel id body) = true
  administers (new_channel_key id) = true
  administers (disable_channel id) = true
  administers (delete_channel id purge) = true
  administers (admin_event id body) = true
  administers _ = false

  -- A request without the admin key is answered with 401 and changes nothing on every route that
  -- reads or writes the channels or the overview, whatever its other keys.
  pub worker_cannot_administer :
      (route : Route Json)
      → administers route ≡ true
      → is_key keys.admin_key h.admin_key ≡ false
      → IsRefused (serve uuid random_bytes parse keys h route s) s
  worker_cannot_administer overview r a = not_allowed-IsRefused overview a
  worker_cannot_administer channel_list r a = not_allowed-IsRefused channel_list a
  worker_cannot_administer (register_channel body) r a =
      not_allowed-IsRefused (register_channel body) a
  worker_cannot_administer (patch_channel id body) r a =
      not_allowed-IsRefused (patch_channel id body) a
  worker_cannot_administer (new_channel_key id) r a = not_allowed-IsRefused (new_channel_key id) a
  worker_cannot_administer (disable_channel id) r a = not_allowed-IsRefused (disable_channel id) a
  worker_cannot_administer (delete_channel id purge) r a =
      not_allowed-IsRefused (delete_channel id purge) a
  worker_cannot_administer (admin_event id body) r a = not_allowed-IsRefused (admin_event id body) a
  worker_cannot_administer _ r a = cc

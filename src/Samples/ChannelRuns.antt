-- ===== src/Samples/ChannelRuns.antt =====
-- Runs of the channel registry: loading, new keys, disabling and removing.
use samdi.Common.{◌≡◌, refl, String, true, false, Option, none, some, [], ◌∷◌, final, threw}
use samdi.Common.Table.{find, has}
use samdi.ControlPlane.Db.{
  Channel, Payload, Thread, ThreadStatus, ThreadEvent, Task, TaskEvent, InterpreterConfig,
  passthrough, http, channel_key, task_key, thread_key, http_url_required,
}
use samdi.Domain.{TaskStatus}
use samdi.ControlPlane.Memory.{Server, entry_key}
use samdi.ControlPlane.Channels.{runtime_of, authenticate, create, rotate_key, load, load_rows}
use samdi.ControlPlane.Channels.Removal.{remove}
use samdi.ControlPlane.Channels.Effects.{next_key}
use samdi.ControlPlane.Channels.Sync.{IsSynced}
use samdi.ControlPlane.Channels.Keys.{
  admitted, is_some, authenticate_iff, opens_only_with, rotate_key-authenticate, rotate_key-revives,
}
use samdi.ControlPlane.Channels.Loading.{load-IsSynced, create-breaks_load}
use samdi.ControlPlane.Channels.Purge.{purge_exact}
use samdi.Samples.Start.{uuid, demo, mail, start, interpreter_with}

-- The schema of the samples: no JSON gives `passthrough`, any gives `http` without an address.
abbrev parse : Option (Unit {0}) → Option InterpreterConfig
parse none = some (interpreter_with passthrough)
parse (some _) = some (interpreter_with http)

abbrev cold : Server
cold = record { db = start; runtimes = []; in_flight = []; timers = [] }

abbrev pub server : Server
server = final (load cold)

server-IsSynced : IsSynced server
server-IsSynced = let (s, ran, v) = load-IsSynced cold (refl, (refl, tt)) refl in rw (final, ran) v

server_channels : server.db.channels ≡ demo ∷ mail ∷ []
unfolding load load_rows
server_channels = refl

server_mail : find channel_key "mail" server.db.channels ≡ some mail
server_mail = rw server_channels refl

no_shop : has entry_key "shop" server.runtimes ≡ false
unfolding load load_rows
no_shop = refl

authenticate_iff_example :
    is_some (authenticate "mail" (some "ch_mail") server)
    ≡ admitted "ch_mail" (find channel_key "mail" server.db.channels)
authenticate_iff_example = authenticate_iff server "mail" "ch_mail" server-IsSynced

rotate_key-authenticate_example :
    authenticate "mail" (some "ch_mail") (final (rotate_key uuid "mail" server))
    ≡ opens_only_with
        (next_key uuid server)
        (record (runtime_of mail) { key = next_key uuid server })
        "ch_mail"
rotate_key-authenticate_example =
    rotate_key-authenticate uuid server "mail" "ch_mail" mail server_mail refl refl

-- The server started with the mail channel disabled.
abbrev mail_off : Channel
mail_off = record mail { disabled_at = some 10 }

abbrev cold_off : Server
cold_off = record cold { db = record start { channels = demo ∷ mail_off ∷ [] } }

abbrev server_off : Server
server_off = final (load cold_off)

server_off-IsSynced : IsSynced server_off
server_off-IsSynced =
    let (s, ran, v) = load-IsSynced cold_off (refl, (refl, tt)) refl in rw (final, ran) v

server_off_mail : find channel_key "mail" server_off.db.channels ≡ some mail_off
unfolding load load_rows
server_off_mail = refl

rotate_key-revives_example :
    ((key : String) → is_some (authenticate "mail" (some key) server_off) ≡ false)
    × (is_some (
          authenticate "mail"
            (some (next_key uuid server_off))
            (final (rotate_key uuid "mail" server_off)))
        ≡ true)
rotate_key-revives_example =
    rotate_key-revives uuid server_off "mail" mail_off server_off-IsSynced server_off_mail refl refl

create-breaks_load_example :
    (after : Server) × (create uuid parse "shop" none (some tt) server
      ≡ threw http_url_required after)
    × ((left : Server) × (load after ≡ threw http_url_required left))
create-breaks_load_example =
    create-breaks_load uuid parse server "shop" none (some tt) (interpreter_with http) no_shop refl
      refl

-- Two channels, each with a thread, its event, and a task with its payload and event.
abbrev thread_in : String → String → Thread
thread_in channel id = record {
  id = id;
  channel_id = channel;
  context_key = "key";
  status = ThreadStatus.dispatched;
  agent = none;
  event_seq = 1;
  interpreted_seq = 1;
  last_event_at = 0;
  last_interpreted_at = some 0;
  created_at = 0;
  updated_at = 0;
}

abbrev task_in : String → String → String → Task
task_in channel id ref = record {
  id = id;
  channel_id = channel;
  label = "ops";
  payload_ref = ref;
  status = TaskStatus.pending;
  agent = none;
  thread_id = none;
  worker_id = none;
  lease_expires_at = none;
  created_at = 0;
  updated_at = 0;
}

abbrev payload_under : String → Payload
payload_under ref = record { ref = ref; body = "do it"; created_at = 0 }

abbrev event_of : String → TaskEvent
event_of task = record { id = "e"; task_id = task; at = 0; type = "created"; fields = [] }

abbrev thread_event_of : String → ThreadEvent
thread_event_of thread = record { id = "e"; thread_id = thread; payload = "hi"; received_at = 0 }

abbrev busy : Server
busy = record cold {
  db = record start {
    payloads = payload_under "p1" ∷ payload_under "p2" ∷ [];
    threads = thread_in "mail" "th1" ∷ thread_in "demo" "th2" ∷ [];
    thread_events = thread_event_of "th1" ∷ thread_event_of "th2" ∷ [];
    tasks = task_in "mail" "t1" "p1" ∷ task_in "demo" "t2" "p2" ∷ [];
    task_events = event_of "t1" ∷ event_of "t2" ∷ [];
  };
}

purge_exact_example :
    (find task_key "t1" (final (remove "mail" true busy)).db.tasks ≡ none)
    × (find thread_key "t1" (final (remove "mail" true busy)).db.threads ≡ none)
    × (find channel_key "t1" (final (remove "mail" true busy)).db.channels ≡ none)
    × ((final (remove "mail" true busy)).db.payloads ≡ payload_under "p2" ∷ [])
    × ((final (remove "mail" true busy)).db.task_events ≡ event_of "t2" ∷ [])
    × ((final (remove "mail" true busy)).db.thread_events ≡ thread_event_of "th2" ∷ [])
    × ((final (remove "mail" true busy)).db.workers ≡ [])
purge_exact_example =
    purge_exact "mail" busy mail (refl, (refl, tt)) (refl, (refl, tt)) refl refl refl "t1"

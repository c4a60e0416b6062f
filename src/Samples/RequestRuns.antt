-- ===== src/Samples/RequestRuns.antt =====
-- Requests to the server, and settings of the worker.
use samdi.Common.{ℕ, ◌≡◌, refl, Option, none, some, List, [], ◌∷◌, true, false}
use samdi.Common.Texts.{is_blank, trim}
use samdi.ControlPlane.Db.{InterpreterConfig, passthrough, http, Thread, open_thread}
use samdi.ControlPlane.Pipeline.{complete, labels_for, input_of}
use samdi.ControlPlane.Channels.{runtime_of}
use samdi.ControlPlane.Memory.{Runtime}
use samdi.Interpreter.{interpret_with, reply_with, no_output}
use samdi.Interpreter.Catalog.{within, labels_stay_within}
use samdi.ControlPlane.Channels.{authenticate}
use samdi.ControlPlane.Routes.{Route, post_event, delete_channel, Headers, Keys}
use samdi.ControlPlane.Routes.Handling.{serve}
use samdi.ControlPlane.Routes.Access.{IsRefused, without_keys, worker_cannot_administer}
use samdi.Worker.Activity.{ActivityEntry}
use samdi.Worker.State.{
  WorkerDefaults, Disk, works, fails, absent, unreadable, start_worker, read, labels_of, set_labels,
  set_concurrency, patch,
}
use samdi.Worker.State.Restart.{
  Setting, choose_labels, choose_concurrency, choose, choose_all, is_saved, restart_remembers,
}
use samdi.Samples.Start.{uuid, interpreter_with, demo}
use samdi.Samples.PipelineRuns.{quiet}

abbrev parse : Option (Unit {0}) → Option InterpreterConfig
parse json = some (interpreter_with passthrough)

abbrev a_thread : Thread
a_thread = record {
  id = "t";
  channel_id = "demo";
  context_key = "c1";
  status = open_thread;
  agent = none;
  event_seq = 1;
  interpreted_seq = 0;
  last_event_at = 1000;
  last_interpreted_at = none;
  created_at = 1000;
  updated_at = 1000;
}

abbrev remote : Runtime
remote = record (runtime_of demo) { interpreter = interpreter_with http }

abbrev keys : Keys
keys = record { worker_key = "worker"; admin_key = "admin" }

abbrev no_headers : Headers
no_headers = record { channel_key = none; worker_key = none; admin_key = none }

abbrev worker_headers : Headers
worker_headers = record no_headers { worker_key = some "worker" }

abbrev event : Route (Unit {0})
event = post_event "mail" (some (record { payload = "hi"; agent = none; context_key = none }))

no_channel_key : authenticate "mail" none quiet ≡ none
unfolding authenticate
no_channel_key = refl

without_keys_example : IsRefused (serve uuid uuid parse keys no_headers event quiet) quiet
without_keys_example =
    without_keys uuid uuid parse keys no_headers quiet event refl refl no_channel_key refl

worker_cannot_administer_example :
    IsRefused (serve uuid uuid parse keys worker_headers (delete_channel "mail" true) quiet) quiet
worker_cannot_administer_example =
    worker_cannot_administer uuid uuid parse keys worker_headers quiet (delete_channel "mail" true)
      refl refl

abbrev entry : ℕ → ActivityEntry
entry n = record { at = n; type = "claimed"; task_id = none; detail = none }

abbrev defaults : WorkerDefaults
defaults = record { labels = "demo" ∷ []; concurrency = 1; default_agent = "mock" }

-- The first choice cannot be written, and the file is cut off; the second is written.
abbrev chosen : List (Disk × Setting)
chosen =
    (fails unreadable, choose_labels (" ops " ∷ "" ∷ "ops" ∷ []))
    ∷ (works, choose_concurrency 4)
    ∷ []

chosen_labels : labels_of (choose_all [] chosen (start_worker defaults absent)) ≡ "ops" ∷ []
unfolding choose_all choose set_labels set_concurrency start_worker patch trim
chosen_labels = refl

chosen_saved : is_saved ("mock" ∷ []) chosen true (start_worker defaults absent) ≡ true
unfolding is_saved choose set_labels set_concurrency start_worker patch trim
chosen_saved = refl

mock_full : is_blank "mock" ≡ false
unfolding is_blank
mock_full = refl

restart_remembers_example :
    read (choose_all ("mock" ∷ []) chosen (start_worker defaults absent)).file
    ≡ (choose_all ("mock" ∷ []) chosen (start_worker defaults absent)).overrides
restart_remembers_example =
    restart_remembers ("mock" ∷ []) (mock_full, tt) defaults absent chosen chosen_saved

-- An endpoint that answers with a label of its own.
labels_stay_within_example :
    within (labels_for [] "ops") (
      interpret_with http
        (reply_with (some (complete "other" "do it")))
        no_output
        (input_of remote a_thread quiet))
    ≡ true
labels_stay_within_example =
    labels_stay_within remote a_thread quiet (reply_with (some (complete "other" "do it")))
      no_output

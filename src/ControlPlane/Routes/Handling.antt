-- ===== src/ControlPlane/Routes/Handling.antt =====
-- The handlers of apps/control-plane/src/server.ts, and the answer to a request.
use samdi.Common.{
  ℕ, Bool, String, Option, none, some, List, map, if◌then◌else◌, Outcome, returned, threw, ◌>>=◌,
  ◌>>◌, pure, throw, gets, modify,
}
use samdi.ControlPlane.Db.{Db, Failure, InterpreterConfig, Task, Thread, invalid_request}
use samdi.ControlPlane.Memory.{Server, Serve, on_db, Runtime}
use samdi.ControlPlane.Tasks.{
  get_payload, claim_next, apply_report, set_agent, resolve_stalled, recover_worker_tasks,
  extend_waiting_leases,
}
use samdi.ControlPlane.Tasks.Listing.{list_tasks, get_task_detail}
use samdi.ControlPlane.Threads.{get_thread, events, list_by_channel}
use samdi.ControlPlane.Workers.{seen}
use samdi.ControlPlane.Channels.{
  authenticate, get_runtime, masked_key, create, update_channel_settings, rotate_key, disable,
}
use samdi.ControlPlane.Channels.Removal.{remove}
use samdi.ControlPlane.Pipeline.{ingest}
use samdi.ControlPlane.Routes.{
  Route, health, overview, channel_list, post_event, admin_event, channel_threads, thread_detail,
  recover, task_detail, claim, report, heartbeat, assign_agent, resolve, task_list,
  register_channel, patch_channel, new_channel_key, disable_channel, delete_channel, IngestBody,
  CreateBody, PatchBody, Answer, done, invalid_key, invalid_channel_key, absent, failure, ingested,
  thread_list, thread_found, claim_result, task_row, id_list, task_page, task_found, summary,
  channel_records, registered, channel_record, issued_key, removed_rows, Response, Headers, Keys,
  failure_code, need, may,
}
use samdi.ControlPlane.Routes.Totals.{overview_of, list_channels}

abbrev ok : Answer → Serve Response
ok answer = pure (record { code = 200; answer = answer })

abbrev reply : ℕ → Answer → Serve Response
reply code answer = pure (record { code = code; answer = answer })

-- `schema.parse(req.body)`
abbrev body_of : {B : Type 0} → Option B → Serve B
body_of none = throw invalid_request
body_of (some b) = pure b

-- `workers.seen(id, labels)`, at the time of the call
abbrev saw : String → List String → Serve (Unit {0})
saw worker_id labels = on_db (modify (λ db. seen worker_id labels db.clock db))

abbrev payload_for : Option Task → Db → Option String
payload_for none db = none
payload_for (some task) db = get_payload task.payload_ref db

abbrev thread_answer : String → Option Thread → Serve Response
thread_answer id none = reply 404 absent
thread_answer id (some thread) = do es ← gets (λ s. events id s.db); ok (thread_found thread es)

module _ (uuid random_bytes : ℕ → String) {Json : Type 0}
    (parse : Option Json → Option InterpreterConfig) where
  ingest_body : String → Option IngestBody → Serve Response
  ingest_body channel_id body = do
    b ← body_of body
    result ← ingest uuid channel_id b.payload b.agent b.context_key
    ok (ingested result.0 result.1)

  event_from : Option Runtime → Option IngestBody → Serve Response
  unfolding ingest_body
  event_from none body = reply 401 invalid_channel_key
  event_from (some r) body = ingest_body r.id body

  known_event : Option (String × Runtime) → String → Option IngestBody → Serve Response
  unfolding ingest_body
  known_event none id body = reply 404 absent
  known_event (some e) id body = ingest_body id body

  -- The routes under `/admin/channels`.
  abbrev all_channels : Serve Response
  all_channels = do
    records ← gets (λ s. map (λ c. (c, masked_key c.id s.db)) (list_channels s.db))
    ok (channel_records records)

  abbrev register : Option (CreateBody Json) → Serve Response
  register body = do
    b ← body_of body
    created ← create random_bytes parse b.id b.label b.interpreter
    reply 201 (registered created.0 created.1)

  abbrev relabel_channel : String → Option (PatchBody Json) → Serve Response
  relabel_channel id body = do
    b ← body_of body
    updated ← update_channel_settings random_bytes parse id b.label b.interpreter
    ok (channel_record updated)

  abbrev reissue : String → Serve Response
  reissue id = do k ← rotate_key random_bytes id; ok (issued_key k)

  abbrev switch_off : String → Serve Response
  switch_off id = do disable id; ok done

  abbrev erase : String → Bool → Serve Response
  erase id purge = do counts ← remove id purge; ok (removed_rows counts.0 counts.1)

  unfoldable pub handle : Headers → Route Json → Serve Response
  unfolding event_from known_event
  handle h health = ok done
  handle h (post_event id body) = do r ← gets (authenticate id h.channel_key); event_from r body
  handle h (admin_event id body) = do e ← gets (get_runtime id); known_event e id body
  handle h (channel_threads id) = do
    rows ← gets (λ s. list_by_channel id s.db)
    ok (thread_list rows)
  handle h (thread_detail id) = do thread ← gets (λ s. get_thread id s.db); thread_answer id thread
  handle h (claim body) = do
    b ← body_of body
    saw b.worker_id b.labels
    task ← on_db (claim_next uuid b.worker_id b.labels b.lease_seconds)
    payload ← gets (λ s. payload_for task s.db)
    ok (claim_result task payload)
  handle h (report id body) = do
    b ← body_of body
    task ← on_db (apply_report uuid id b)
    ok (task_row task)
  handle h (recover id) = do
    recovered ← on_db (recover_worker_tasks uuid id)
    ok (id_list recovered)
  handle h (heartbeat id body) = do
    b ← body_of body
    saw id b.labels
    extended ← on_db (extend_waiting_leases id b.task_ids b.lease_seconds)
    ok (id_list extended)
  handle h (assign_agent id body) = do
    agent ← body_of body
    task ← on_db (set_agent uuid id agent)
    ok (task_row task)
  handle h (resolve id body) = do
    action ← body_of body
    task ← on_db (resolve_stalled uuid id action)
    ok (task_row task)
  handle h (task_list opts) = do
    result ← gets (λ s. list_tasks opts s.db)
    ok (task_page result.0 result.1)
  handle h (task_detail id) = do
    result ← on_db (get_task_detail id)
    ok (task_found result.0 result.1 result.2)
  handle h overview = do view ← gets (λ s. overview_of s.db); ok (summary view)
  handle h channel_list = all_channels
  handle h (register_channel body) = register body
  handle h (patch_channel id body) = relabel_channel id body
  handle h (new_channel_key id) = reissue id
  handle h (disable_channel id) = switch_off id
  handle h (delete_channel id purge) = erase id purge

  -- A failure becomes an answer, and what was written stays.
  abbrev pub caught : Outcome Failure Server Response → Response × Server
  caught (returned response s) = (response, s)
  caught (threw e s) = (record { code = failure_code e; answer = failure e }, s)

  unfoldable pub serve : Keys → Headers → Route Json → Server → Response × Server
  serve keys h route s =
      if may keys h (need route)
      then caught (handle h route s)
      else (record { code = 401; answer = invalid_key }, s)

-- ===== src/Worker/Daemon/Errors.antt =====
-- apps/worker/src/index.ts: the errors of the local API.
use samdi.Common.{
  ◌≡◌, ◌⊎◌, inl, inr, refl, String, Bool, true, false, ◌||◌, not, Option, none, some, List, ◌==◌,
  Bool-cases, ℕ, [], ◌∷◌, includes, ltb,
}
use samdi.Worker.State.{
  Overrides, StateFile, absent, unreadable, holds, Disk, works, fails, nothing_changed, is_empty,
  Change, refused, changed, unsaved, removed, reset, written, patch, cleaned, patched_labels,
  set_labels, set_concurrency, set_default_agent, WorkerState,
}
use samdi.Worker.Process.{
  Worker, LocalAnswer, no_task, accepted, deferred, AskDecision, handle_local_report, choose_agent,
  decide,
}
use samdi.Worker.Process.Steps.{in_registry}
use samdi.Worker.Daemon.{Daemon}
use samdi.Worker.Daemon.Requests.{
  Request, report, set_labels_to, set_concurrency_to, finish_task, state, approve_task, agents,
  set_default, task_list, assign_agent, task_detail, resolve_task, Call, set_agent, resolve_stalled,
  list_tasks, get_task, Response, not_saved, with_settings, is_waiting, approvals,
}
use samdi.Worker.Daemon.Requests.Serving.{
  serve, on_change, reported, finished, decided, relay, chosen_or_set,
}

-- The file system threw, and what is left differs from `w` in the overrides and the file at most.
abbrev pub IsUnsaved : Disk → WorkerState → WorkerState → Type 0
IsUnsaved disk w s = ((left : StateFile) × (disk ≡ fails left)) × (s.configured ≡ w.configured)

abbrev Unsaves : Disk → WorkerState → Change → Type 0
Unsaves disk w (refused e) = Unit
Unsaves disk w (changed s) = Unit
Unsaves disk w (unsaved s) = IsUnsaved disk w s

reset-Unsaves : (disk : Disk) (w : WorkerState) → Unsaves disk w (reset disk w)
unfolding reset
reset-Unsaves disk w = removal w.file disk
  where
    removal :
        (file : StateFile) (disk : Disk)
        → Unsaves disk w (removed file disk (record w { overrides = nothing_changed }))
    removal absent disk = tt
    removal unreadable works = tt
    removal unreadable (fails left) = ((left, refl), refl)
    removal (holds o) works = tt
    removal (holds o) (fails left) = ((left, refl), refl)

written-Unsaves :
    (disk : Disk) (o : Overrides) (w : WorkerState)
    → Unsaves disk w (written disk (record w { overrides = o }))
written-Unsaves works o w = tt
written-Unsaves (fails left) o w = ((left, refl), refl)

patch-Unsaves : (disk : Disk) (o : Overrides) (w : WorkerState) → Unsaves disk w (patch disk o w)
unfolding patch reset
patch-Unsaves disk o w = elim (Bool-cases (is_empty o)) [
  | inl e ↦ rw e (reset-Unsaves disk w)
  | inr e ↦ rw e (written-Unsaves disk o w)
]

labels-Unsaves :
    (disk : Disk) (ls : List String) (w : WorkerState) → Unsaves disk w (patched_labels disk ls w)
labels-Unsaves disk [] w = tt
labels-Unsaves disk (l ∷ ls) w = patch-Unsaves disk _ w

set_labels-Unsaves :
    (disk : Disk) (labels : List String) (w : WorkerState)
    → Unsaves disk w (set_labels disk labels w)
unfolding set_labels
set_labels-Unsaves disk labels w = labels-Unsaves disk (cleaned labels) w

concurrency-Unsaves :
    (disk : Disk) (n : ℕ) (w : WorkerState) → Unsaves disk w (set_concurrency disk n w)
unfolding set_concurrency
concurrency-Unsaves disk n w = elim (Bool-cases (ltb n 1 || ltb 32 n)) [
  | inl bad ↦ rw bad tt
  | inr good ↦ rw good (patch-Unsaves disk _ w)
]

agent-Unsaves :
    (disk : Disk) (agent : String) (known : List String) (w : WorkerState)
    → Unsaves disk w (set_default_agent disk agent known w)
unfolding set_default_agent
agent-Unsaves disk agent known w = elim (Bool-cases (includes known agent)) [
  | inr unknown ↦ rw unknown tt
  | inl is_known ↦ rw is_known (patch-Unsaves disk _ w)
]

module _ {Reply : Type 0} (adapters : List String) (upstream : Call → Option Reply)
    (disk : Disk) where
  -- Success, the process as it was, or the settings changed and not saved.
  abbrev pub Atomic : Response Reply × Daemon → Daemon → Type 0
  Atomic answered d =
      (answered.0.code ≡ 200)
      ⊎ ((answered.1 ≡ d)
          ⊎ ((answered.0 ≡ record { code = 400; answer = not_saved })
              × ((s : WorkerState) × (answered.1 ≡ with_settings s d)
                  × IsUnsaved disk d.worker.settings s)))

  on_change-Atomic :
      (c : Change) (next : WorkerState → Response Reply × Daemon) (d : Daemon)
      → Unsaves disk d.worker.settings c
      → ((s : WorkerState) → Atomic (next s) d)
      → Atomic (on_change adapters upstream disk c next d) d
  on_change-Atomic (refused e) next d u h = inr (inl refl)
  on_change-Atomic (changed s) next d u h = h s
  on_change-Atomic (unsaved s) next d u h = inr (inr (refl, (s, refl, u)))

  reported-Atomic :
      (id : String) (a : LocalAnswer) (w : Worker) (d : Daemon)
      → Atomic (reported adapters upstream disk id a w d) d
  reported-Atomic id no_task w d = inr (inl refl)
  reported-Atomic id accepted w d = inl refl
  reported-Atomic id (deferred _) w d = inl refl

  finished-Atomic :
      (id : String) (outcome : Bool) (detail : Option String) (a : LocalAnswer) (w : Worker)
      (d : Daemon)
      → Atomic (finished adapters upstream disk id outcome detail a w d) d
  finished-Atomic id outcome detail no_task w d =
      elim (Bool-cases (is_waiting id (approvals d.worker))) [
        | inl e ↦ rw e (inr (inl refl))
        | inr e ↦ rw e (inr (inl refl))
      ]
  finished-Atomic id outcome detail accepted w d = inl refl
  finished-Atomic id outcome detail (deferred _) w d = inl refl

  decided-Atomic :
      (id : String) (decision : AskDecision) (a : Bool × Worker) (d : Daemon)
      → Atomic (decided adapters upstream disk id decision a d) d
  decided-Atomic id decision (false, w) d = inr (inl refl)
  decided-Atomic id decision (true, w) d = inl refl

  relay-Atomic :
      (a : Option Reply) (next : Daemon → Daemon) (d : Daemon)
      → Atomic (relay adapters upstream disk a next d) d
  relay-Atomic none next d = inr (inl refl)
  relay-Atomic (some _) next d = inl refl

  chosen_or_set-Atomic :
      (id agent : String) (a : Bool × Worker) (d : Daemon)
      → Atomic (chosen_or_set adapters upstream disk id agent a d) d
  chosen_or_set-Atomic id agent (true, w) d = inl refl
  chosen_or_set-Atomic id agent (false, w) d = relay-Atomic (upstream (set_agent id agent)) _ d

  -- Every request to the local API, whatever the control plane answers to the calls that it makes,
  -- is answered with 200, or leaves the process as it was, or the file system threw: it is then
  -- answered with 400 and changes nothing of the process but the overrides of the settings and
  -- what their file holds.
  pub errors_leave_process :
      (req : Request) (d : Daemon) → Atomic (serve adapters upstream disk req d) d
  unfolding serve
  errors_leave_process (report id none) d = inr (inl refl)
  errors_leave_process (report id (some r)) d =
      let a = handle_local_report id r d.worker in reported-Atomic id a.0 a.1 d
  errors_leave_process (set_labels_to true labels) d =
      on_change-Atomic (reset disk d.worker.settings) _ d (reset-Unsaves disk d.worker.settings)
        (λ s. inl refl)
  errors_leave_process (set_labels_to false none) d = inr (inl refl)
  errors_leave_process (set_labels_to false (some labels)) d =
      on_change-Atomic (set_labels disk labels d.worker.settings) _ d
        (set_labels-Unsaves disk labels d.worker.settings) (λ s. inl refl)
  errors_leave_process (set_concurrency_to none) d = inr (inl refl)
  errors_leave_process (set_concurrency_to (some n)) d =
      on_change-Atomic (set_concurrency disk n d.worker.settings) _ d
        (concurrency-Unsaves disk n d.worker.settings) (λ s. inl refl)
  errors_leave_process (finish_task id none text) d = inr (inl refl)
  errors_leave_process (finish_task id (some outcome) text) d = finished-Atomic id outcome _ _ _ d
  errors_leave_process state d = inr (inl refl)
  errors_leave_process (approve_task id none) d = inr (inl refl)
  errors_leave_process (approve_task id (some decision)) d =
      decided-Atomic id decision (decide id decision d.worker) d
  errors_leave_process agents d = inr (inl refl)
  errors_leave_process (set_default agent) d =
      on_change-Atomic _ _ d (agent-Unsaves disk _ adapters d.worker.settings) (λ s. inl refl)
  errors_leave_process task_list d = relay-Atomic (upstream list_tasks) _ d
  errors_leave_process (assign_agent id none) d = inr (inl refl)
  errors_leave_process (assign_agent id (some agent)) d =
      elim (Bool-cases (agent == "" || not (in_registry adapters agent))) [
        | inl e ↦ rw e (inr (inl refl))
        | inr e ↦ rw e (chosen_or_set-Atomic id agent (choose_agent id agent d.worker) d)
      ]
  errors_leave_process (task_detail id) d = relay-Atomic (upstream (get_task id)) _ d
  errors_leave_process (resolve_task id none) d = inr (inl refl)
  errors_leave_process (resolve_task id (some action)) d =
      relay-Atomic (upstream (resolve_stalled id action)) _ d

-- ===== src/Worker/Process/Current.antt =====
-- apps/worker/src/worker.ts: the entries of `currentTasks` beside the calls that have not ended.
use samdi.Common.{
  ℕ, ◌≡◌, refl, sym, ap, ◌∙◌, String, true, false, Option, none, some, List, [], ◌∷◌, inl, inr,
  Bool-cases, Option-cases, if◌then◌else◌, ◌==◌, eq_iff, includes,
}
use samdi.Common.Maps.{
  get, set, remove, is_some, update_at, same_number, same_number→eq, get-set, get-remove,
}
use samdi.ControlPlane.Db.{Task}
use samdi.Gateway.{Verdict, StartGateDecision}
use samdi.Worker.State.{default_agent_of}
use samdi.Worker.Process.{
  LocalReport, AskDecision, WorkerPhase, CurrentTask, QueueItem, Next, Ending, returned_true,
  denied_by_gate, waits_for_start, not_approved, starts_agent, completes, fails, waits_for_user,
  resumes, denied_by_user, Stage, evaluating, sending, awaiting_start, awaiting_report,
  awaiting_user, ended, heard, Run, Worker, approval_over, phase_set, next_of, next_report, put_run,
  note,
}
use samdi.Worker.Process.Steps.{
  agent_name, or_else, in_registry, prepare, judged, judge, launch, go_on, start_decided,
  next_arrived, consume, user_decided, finish, resume, taken, refuse,
}
use samdi.Worker.Process.Registered.{live}

abbrev pub HasCall : String → (ℕ → Option Run) → Type 0
HasCall id runs =
    (r : ℕ) × (run : Run) × (runs r ≡ some run) × (run.task.id ≡ id) × (live run.stage ≡ true)

abbrev pub Current : (ℕ → Option Run) → List (String × CurrentTask) → Type 0
Current runs tasks = (id : String) → is_some (get id tasks) ≡ true → HasCall id runs

abbrev pub IsCurrent : Worker → Type 0
IsCurrent w = Current w.runs w.current_tasks

-- No entry is new.
abbrev pub Within : List (String × CurrentTask) → List (String × CurrentTask) → Type 0
Within new old = (id : String) → is_some (get id new) ≡ true → is_some (get id old) ≡ true

phase_set-Within :
    (id : String) (phase : WorkerPhase) (tasks : List (String × CurrentTask))
    → Within (phase_set id phase (get id tasks) tasks) tasks
phase_set-Within id phase tasks j h = elim (Option-cases (get id tasks)) [
  | inl absent ↦ let kept : is_some (get j tasks) ≡ true = rw absent at h in kept
  | inr (c, found) ↦ elim (Bool-cases (id == j)) [
    | inl same ↦ let eq : id ≡ j = (eq_iff id j).0 same in rw (← eq, found) refl
    | inr other ↦
        let h' : is_some (get j (set id (record c { phase = phase }) tasks)) ≡ true =
          rw found at h in
        ap is_some (sym (get-set id j (record c { phase = phase }) tasks ∙ rw other refl)) ∙ h'
  ]
]

-- What a step of the call `r` does: it goes on, or it ends and takes the entry of its task along.
pub data Moved (r : ℕ) (before : Run) (runs : ℕ → Option Run) (tasks : List (String × CurrentTask))
    (runs' : ℕ → Option Run) (tasks' : List (String × CurrentTask)) : Type 0 where
  goes_on :
      (run : Run)
      → runs' ≡ update_at runs r (some run)
      → run.task.id ≡ before.task.id
      → (live before.stage ≡ true → live run.stage ≡ true)
      → Within tasks' tasks
      → Moved r before runs tasks runs' tasks'
  ends :
      (run : Run) (old : List (String × CurrentTask))
      → runs' ≡ update_at runs r (some run)
      → tasks' ≡ remove before.task.id old
      → Within old tasks
      → Moved r before runs tasks runs' tasks'

abbrev pub MovedFrom : ℕ → Run → Worker → Worker → Type 0
MovedFrom r before w w' = Moved r before w.runs w.current_tasks w'.runs w'.current_tasks

pub Moved-IsCurrent :
    (r : ℕ) (before : Run) (runs : ℕ → Option Run) (tasks : List (String × CurrentTask))
    (runs' : ℕ → Option Run) (tasks' : List (String × CurrentTask))
    → runs r ≡ some before
    → Moved r before runs tasks runs' tasks'
    → Current runs tasks
    → Current runs' tasks'
Moved-IsCurrent r before runs tasks runs' tasks' found (goes_on run become same lives within) cur id
      h =
    let (j, x, ex, tx, lx) = cur id (within id h) in
    elim (Bool-cases (same_number r j)) [
      | inl here ↦
          let there : r ≡ j = same_number→eq r j here in
          let both : some before ≡ some x = sym found ∙ (ap runs there ∙ ex) in
          let eq : before ≡ x = cc in
          (
            j,
            run,
            rw (become, here) refl,
            same ∙ (ap (λ (y : Run). y.task.id) eq ∙ tx),
            lives (ap (λ (y : Run). live y.stage) eq ∙ lx),
          )
      | inr other ↦ (j, x, rw (become, other) ex, tx, lx)
    ]
Moved-IsCurrent r before runs tasks runs' tasks' found (ends run old become gone within) cur id h =
    let there : is_some (get id (remove before.task.id old)) ≡ true = rw gone at h in
    let left : is_some (if before.task.id == id then none else get id old) ≡ true =
      ap is_some (sym (get-remove before.task.id id old)) ∙ there in
    elim (Bool-cases (before.task.id == id)) [
      | inl own ↦ let absurd : false ≡ true = rw own at left in cc
      | inr kept ↦
          let (j, x, ex, tx, lx) = cur id (within id (rw kept at left)) in
          elim (Bool-cases (same_number r j)) [
            | inl here ↦
                let there : r ≡ j = same_number→eq r j here in
                let both : some before ≡ some x = sym found ∙ (ap runs there ∙ ex) in
                let eq : before ≡ x = cc in
                let own : before.task.id ≡ id = ap (λ (y : Run). y.task.id) eq ∙ tx in
                let yes_id : (before.task.id == id) ≡ true = (eq_iff before.task.id id).1 own in cc
            | inr other ↦ (j, x, rw (become, other) ex, tx, lx)
          ]
    ]

pub all : (tasks : List (String × CurrentTask)) → Within tasks tasks
all tasks id h = h

-- `before` is what the run `r` was; `run` has its task.
module _ (gate : Task → String → StartGateDecision) (adapters : List String) (r : ℕ)
    (before run : Run) (w : Worker) (same : run.task.id ≡ before.task.id) where
  finish-Moved : (ending : Ending) → MovedFrom r before w (finish r run ending w)
  finish-Moved ending =
      ends (record run { stage = ended ending }) w.current_tasks refl
        (ap (λ k. remove k w.current_tasks) same) (all w.current_tasks)

  prepare-Moved : MovedFrom r before w (prepare gate adapters r run w)
  unfolding prepare
  prepare-Moved =
      let name =
        agent_name adapters (or_else (get run.task.id w.agent_overrides) run.task.agent)
          (default_agent_of w.settings) in
      elim (Bool-cases (in_registry adapters name)) [
        | inl known ↦ rw known (goes_on _ refl same (λ _. refl) (all w.current_tasks))
        | inr unknown ↦ rw unknown (finish-Moved _)
      ]

module _ (gate : Task → String → StartGateDecision) (adapters : List String) (r : ℕ)
    (before run : Run) (w : Worker) (same : run.task.id ≡ before.task.id) where
  listen-Moved :
      (items : List QueueItem) (tasks : List (String × CurrentTask))
      → Within tasks w.current_tasks
      → MovedFrom r before w (put_run r (next_of items run) (record w { current_tasks = tasks }))
  listen-Moved [] tasks within = goes_on _ refl same (λ _. refl) within
  listen-Moved (item ∷ items) tasks within = goes_on _ refl same (λ _. refl) within

  launch-Moved : (name : String) → MovedFrom r before w (launch gate adapters r run name w)
  unfolding launch next_report
  launch-Moved name =
      let within = phase_set-Within run.task.id WorkerPhase.agent_running w.current_tasks in
      elim (Bool-cases (includes adapters name)) [
        | inl known ↦ rw known (goes_on _ refl same (λ _. refl) within)
        | inr unknown ↦
            let tasks =
              phase_set run.task.id WorkerPhase.agent_running (get run.task.id w.current_tasks)
                w.current_tasks in
            rw unknown (ends _ tasks refl (ap (λ k. remove k tasks) same) within)
      ]

  go_on-Moved : (next : Next) → MovedFrom r before w (go_on gate adapters next r run w)
  unfolding go_on next_report
  go_on-Moved (starts_agent name) = launch-Moved name
  go_on-Moved (waits_for_start question) = goes_on _ refl same (λ _. refl) (all w.current_tasks)
  go_on-Moved (waits_for_user item question) = goes_on _ refl same (λ _. refl) (all w.current_tasks)
  go_on-Moved resumes =
      listen-Moved run.queue.items _
        (phase_set-Within run.task.id WorkerPhase.agent_running w.current_tasks)
  go_on-Moved (denied_by_gate _) = finish-Moved gate adapters r before run w same returned_true
  go_on-Moved not_approved = finish-Moved gate adapters r before run w same returned_true
  go_on-Moved (completes _) = finish-Moved gate adapters r before run w same returned_true
  go_on-Moved (fails _) = finish-Moved gate adapters r before run w same returned_true
  go_on-Moved denied_by_user = finish-Moved gate adapters r before run w same returned_true

  judged-Moved :
      (d : StartGateDecision) (v : Verdict)
      → MovedFrom r before w (judged gate adapters d v r run w)
  judged-Moved d Verdict.deny = goes_on _ refl same (λ _. refl) (all w.current_tasks)
  judged-Moved d Verdict.ask =
      goes_on _ refl same (λ _. refl)
        (phase_set-Within run.task.id WorkerPhase.awaiting_approval w.current_tasks)
  judged-Moved d Verdict.allow =
      prepare-Moved gate adapters r before run (note "gate:allow" (some run.task.id) d.reason w)
        same

  consume-Moved :
      (report : LocalReport) (item : QueueItem) → MovedFrom r before w (consume report item r run w)
  consume-Moved (LocalReport.completed _) item =
      goes_on _ refl same (λ _. refl)
        (phase_set-Within run.task.id WorkerPhase.reporting w.current_tasks)
  consume-Moved (LocalReport.failed _) item =
      goes_on _ refl same (λ _. refl)
        (phase_set-Within run.task.id WorkerPhase.reporting w.current_tasks)
  consume-Moved (LocalReport.ask _) item =
      goes_on _ refl same (λ _. refl)
        (phase_set-Within run.task.id WorkerPhase.awaiting_approval w.current_tasks)

  next_arrived-Moved : (next : Option QueueItem) → MovedFrom r before w (next_arrived next r run w)
  next_arrived-Moved none = finish-Moved gate adapters r before run w same returned_true
  next_arrived-Moved (some item) = consume-Moved item.report item

  start_decided-Moved :
      (d : AskDecision) → MovedFrom r before w (start_decided gate adapters d r run w)
  unfolding start_decided
  start_decided-Moved AskDecision.deny = goes_on _ refl same (λ _. refl) (all w.current_tasks)
  start_decided-Moved AskDecision.approve =
      prepare-Moved gate adapters r before
        (record run { log = heard AskDecision.approve ∷ run.log })
        (note "gate:approved" (some run.task.id) none (approval_over run.task.id w)) same

  user_decided-Moved :
      (d : AskDecision) (item : QueueItem) → MovedFrom r before w (user_decided d item r run w)
  unfolding user_decided
  user_decided-Moved AskDecision.approve item =
      goes_on _ refl same (λ _. refl) (all w.current_tasks)
  user_decided-Moved AskDecision.deny item = goes_on _ refl same (λ _. refl) (all w.current_tasks)

module _ (gate : Task → String → StartGateDecision) (adapters : List String) (r : ℕ) (run : Run)
    (w : Worker) (found : w.runs r ≡ some run) (cur : IsCurrent w) where
  moved :
      {runs' : ℕ → Option Run} {tasks' : List (String × CurrentTask)}
      → Moved r run w.runs w.current_tasks runs' tasks'
      → Current runs' tasks'
  moved m = Moved-IsCurrent r run w.runs w.current_tasks _ _ found m cur

  pub resume-IsCurrent : (stage : Stage) → IsCurrent (resume gate adapters stage r run w)
  unfolding judge
  resume-IsCurrent evaluating =
      moved (judged-Moved gate adapters r run run w refl (gate run.task run.instruction) _)
  resume-IsCurrent (awaiting_start (some d)) =
      moved (start_decided-Moved gate adapters r run run w refl d)
  resume-IsCurrent (awaiting_report (some next)) =
      moved (next_arrived-Moved gate adapters r run run w refl next)
  resume-IsCurrent (awaiting_user item (some d)) =
      moved (user_decided-Moved gate adapters r run run w refl d item)
  resume-IsCurrent _ = cur

  pub taken-IsCurrent : (stage : Stage) → IsCurrent (taken gate adapters stage r run w)
  taken-IsCurrent (sending report next) = moved (go_on-Moved gate adapters r run run w refl next)
  taken-IsCurrent _ = cur

  pub refuse-IsCurrent : (stage : Stage) → IsCurrent (refuse stage r run w)
  refuse-IsCurrent (sending report next) = moved (finish-Moved gate adapters r run run w refl _)
  refuse-IsCurrent _ = cur

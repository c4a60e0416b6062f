-- ===== src/Worker/Process/Entries.antt =====
-- What a change of a run and of the maps may be, for the maps to name runs that are there.
use samdi.Common.{
  ℕ, ◌≤◌, ◌≡◌, refl, sym, ap, ◌∙◌, subst, String, true, none, some, arith, inl, inr, ◌⊎◌,
  Bool-cases,
}
use samdi.Common.Maps.{get, set, remove, update_at, same_number, same_number→eq}
use samdi.Worker.Process.{PendingApproval, ended, Run, Worker, Ending, approval_over}
use samdi.Worker.Process.Steps.{finish}
use samdi.Worker.Process.Registered.{
  waiting, live, Names, IsRegistered, Names-same, Names-kept, Names-remove, Names-set, Names-forget,
  both-remove, both-set,
}

pub approval_over-IsRegistered :
    (id : String) (w : Worker) → IsRegistered w → IsRegistered (approval_over id w)
approval_over-IsRegistered id w reg = record {
  queued = reg.queued;
  resolvable = Names-forget waiting w.approval_resolvers w.runs id reg.resolvable;
  asked = λ j. both-remove id j w.pending_approvals w.approval_resolvers (reg.asked j);
  unused = reg.unused;
}

module _ (r : ℕ) (run run' : Run) (w w' : Worker) (found : w.runs r ≡ some run)
    (reg : IsRegistered w) (same_task : run'.task.id ≡ run.task.id)
    (runs : w'.runs ≡ update_at w.runs r (some run')) (numbered : w'.next_run ≡ w.next_run) where
  unused' : (j : ℕ) → w'.next_run ≤ j → w'.runs j ≡ none
  unused' j h =
      let free : w.runs j ≡ none = reg.unused j (omega (arith, numbered, h)) in
      elim (Bool-cases (same_number r j)) [
        | inl same ↦
            let there : r ≡ j = same_number→eq r j same in
            let both : some run ≡ none = sym found ∙ (ap w.runs there ∙ free) in cc
        | inr other ↦ rw runs (rw other free)
      ]

-- What a change of the maps may be, where the run `r` has become `run'`.
module _ (r : ℕ) (run run' : Run) (w w' : Worker) (found : w.runs r ≡ some run)
    (reg : IsRegistered w) (same_task : run'.task.id ≡ run.task.id)
    (runs : w'.runs ≡ update_at w.runs r (some run')) (numbered : w'.next_run ≡ w.next_run)
    (lives : live run.stage ≡ true → live run'.stage ≡ true) where
  -- Nothing changes in the maps.
  pub quiet :
      w'.queues ≡ w.queues
      → w'.approval_resolvers ≡ w.approval_resolvers
      → w'.pending_approvals ≡ w.pending_approvals
      → (get run.task.id w.approval_resolvers ≡ none)
        ⊎ (waiting run.stage ≡ true → waiting run'.stage ≡ true)
      → IsRegistered w'
  quiet q a p k = record {
    queued =
        rw (q, runs) (Names-same live w.queues w.runs r run run' found reg.queued same_task lives);
    resolvable =
        rw (a, runs)
          (Names-kept waiting w.approval_resolvers w.runs r run run' found reg.resolvable same_task
            k);
    asked = λ id. rw (a, p) (reg.asked id);
    unused = unused' r run run' w w' found reg same_task runs numbered;
  }

  -- The call begins to wait for the user.
  pub begins_to_wait :
      (b : PendingApproval)
      → w'.queues ≡ w.queues
      → w'.approval_resolvers ≡ set run.task.id r w.approval_resolvers
      → w'.pending_approvals ≡ set run.task.id b w.pending_approvals
      → waiting run'.stage ≡ true
      → IsRegistered w'
  begins_to_wait b q a p k = record {
    queued =
        rw (q, runs) (Names-same live w.queues w.runs r run run' found reg.queued same_task lives);
    resolvable =
        rw (a, runs)
          (Names-set waiting w.approval_resolvers w.runs r run run' found reg.resolvable same_task
            (λ _. k) k);
    asked = λ id.
        rw (a, p)
          (both-set run.task.id id w.pending_approvals w.approval_resolvers (reg.asked id) b r);
    unused = unused' r run run' w w' found reg same_task runs numbered;
  }

  -- The call gets a queue.
  pub gets_queue :
      w'.queues ≡ set run.task.id r w.queues
      → w'.approval_resolvers ≡ w.approval_resolvers
      → w'.pending_approvals ≡ w.pending_approvals
      → (get run.task.id w.approval_resolvers ≡ none)
        ⊎ (waiting run.stage ≡ true → waiting run'.stage ≡ true)
      → live run'.stage ≡ true
      → IsRegistered w'
  gets_queue q a p k l = record {
    queued =
        rw (q, runs) (Names-set live w.queues w.runs r run run' found reg.queued same_task lives l);
    resolvable =
        rw (a, runs)
          (Names-kept waiting w.approval_resolvers w.runs r run run' found reg.resolvable same_task
            k);
    asked = λ id. rw (a, p) (reg.asked id);
    unused = unused' r run run' w w' found reg same_task runs numbered;
  }

-- The call ends.
pub finish-IsRegistered :
    (r : ℕ) (run : Run) (ending : Ending) (w : Worker)
    → (before : Run) → w.runs r ≡ some before
    → before.task.id ≡ run.task.id
    → IsRegistered w
    → IsRegistered (finish r run ending w)
finish-IsRegistered r run ending w before found same reg = record {
  queued =
      subst (λ x. Names live (remove x w.queues) (update_at w.runs r (some run'))) same
        (Names-remove live w.queues w.runs r before run' found reg.queued (sym same));
  resolvable =
      subst (λ x. Names waiting (remove x w.approval_resolvers) (update_at w.runs r (some run')))
        same
        (Names-remove waiting w.approval_resolvers w.runs r before run' found reg.resolvable
          (sym same));
  asked = λ id. both-remove run.task.id id w.pending_approvals w.approval_resolvers (reg.asked id);
  unused = unused' r before run' w (finish r run ending w) found reg (sym same) refl refl;
}
  where
    run' : Run
    run' = record run { stage = ended ending }

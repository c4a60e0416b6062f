-- ===== src/Worker/Process/Registered.antt =====
-- apps/worker/src/worker.ts: what it is for the maps of the class `Worker` to name the runs that they
-- should name.
use samdi.Common.{
  ℕ, ◌≤◌, ◌≡◌, sym, ap, ◌∙◌, String, Bool, true, false, Option, none, some, List, arith, inl, inr,
  ◌⊎◌, Bool-cases, if◌then◌else◌, ◌==◌, eq_iff, eq_refl,
}
use samdi.Common.Maps.{
  get, set, remove, is_some, update_at, same_number, same_number→eq, get-set, get-remove,
  same_number_refl,
}
use samdi.Worker.Process.{PendingApproval, Stage, awaiting_start, awaiting_user, ended, Run, Worker}

abbrev pub waiting : Stage → Bool
waiting (awaiting_start _) = true
waiting (awaiting_user _ _) = true
waiting _ = false

abbrev pub live : Stage → Bool
live (ended _) = false
live _ = true

-- Every entry of an index names a run of the task that it stands under, at such a stage.
abbrev pub Names : (Stage → Bool) → List (String × ℕ) → (ℕ → Option Run) → Type 0
Names at index runs =
    (id : String) (r : ℕ)
    → get id index ≡ some r
    → (run : Run) × (runs r ≡ some run) × (run.task.id ≡ id) × (at run.stage ≡ true)

pub record Registry (queues : List (String × ℕ)) (approvals : List (String × PendingApproval))
    (resolvers : List (String × ℕ)) (runs : ℕ → Option Run) (next_run : ℕ) : Type 0 where
  pub queued : Names live queues runs
  pub resolvable : Names waiting resolvers runs
  pub asked : (id : String) → is_some (get id approvals) ≡ is_some (get id resolvers)
  pub unused : (r : ℕ) → next_run ≤ r → runs r ≡ none

abbrev pub IsRegistered : Worker → Type 0
IsRegistered w = Registry w.queues w.pending_approvals w.approval_resolvers w.runs w.next_run

-- The run `r`, of the task `id`, has become `run'`.
module _ (at : Stage → Bool) (index : List (String × ℕ)) (runs : ℕ → Option Run) (r : ℕ)
    (run run' : Run) (found : runs r ≡ some run) (names : Names at index runs)
    (same_task : run'.task.id ≡ run.task.id) where
  pub is_run : (j : ℕ) (x : Run) → runs j ≡ some x → same_number r j ≡ true → run ≡ x
  is_run j x e same =
      let there : r ≡ j = same_number→eq r j same in
      let both : some run ≡ some x = sym found ∙ (ap runs there ∙ e) in cc

  pub Names-same :
      (at run.stage ≡ true → at run'.stage ≡ true) → Names at index (update_at runs r (some run'))
  Names-same keep id j e =
      let (x, ex, tx, ax) = names id j e in
      elim (Bool-cases (same_number r j)) [
        | inl same ↦
            let eq : run ≡ x = is_run j x ex same in
            (
              run',
              rw same,
              same_task ∙ (ap (λ (y : Run). y.task.id) eq ∙ tx),
              keep (ap (λ (y : Run). at y.stage) eq ∙ ax),
            )
        | inr other ↦ (x, rw other ex, tx, ax)
      ]

  -- With no entry under the task the run may become anything.
  pub Names-free : get run.task.id index ≡ none → Names at index (update_at runs r (some run'))
  Names-free free id j e =
      let (x, ex, tx, ax) = names id j e in
      elim (Bool-cases (same_number r j)) [
        | inl same ↦
            let eq : run ≡ x = is_run j x ex same in
            let there : run.task.id ≡ id = ap (λ (y : Run). y.task.id) eq ∙ tx in
            let no : none ≡ some j = sym free ∙ (ap (λ k. get k index) there ∙ e) in cc
        | inr other ↦ (x, rw other ex, tx, ax)
      ]

  pub Names-kept :
      (get run.task.id index ≡ none) ⊎ (at run.stage ≡ true → at run'.stage ≡ true)
      → Names at index (update_at runs r (some run'))
  Names-kept (inl free) = Names-free free
  Names-kept (inr keep) = Names-same keep

  pub Names-remove : Names at (remove run.task.id index) (update_at runs r (some run'))
  Names-remove id j e =
      let left : (if run.task.id == id then none else get id index) ≡ some j =
        sym (get-remove run.task.id id index) ∙ e in
      elim (Bool-cases (run.task.id == id)) [
        | inl gone ↦ let no : none ≡ some j = rw gone at left in cc
        | inr kept ↦
            let (x, ex, tx, ax) = names id j (rw kept at left) in
            elim (Bool-cases (same_number r j)) [
              | inl same ↦
                  let eq : run ≡ x = is_run j x ex same in
                  let there : run.task.id ≡ id = ap (λ (y : Run). y.task.id) eq ∙ tx in
                  let yes_id : (run.task.id == id) ≡ true = (eq_iff run.task.id id).1 there in cc
              | inr other ↦ (x, rw other ex, tx, ax)
            ]
      ]

  pub Names-set :
      (at run.stage ≡ true → at run'.stage ≡ true)
      → at run'.stage ≡ true
      → Names at (set run.task.id r index) (update_at runs r (some run'))
  Names-set keep here id j e =
      let left : (if run.task.id == id then some r else get id index) ≡ some j =
        sym (get-set run.task.id id r index) ∙ e in
      elim (Bool-cases (run.task.id == id)) [
        | inl own ↦
            let r_is_j : some r ≡ some j = rw own at left in
            let there : r ≡ j = cc in
            let same : same_number r j ≡ true = rw there (same_number_refl j) in
            (run', rw same, same_task ∙ (eq_iff run.task.id id).0 own, here)
        | inr kept ↦ Names-same keep id j (rw kept at left)
      ]

pub Names-forget :
    (at : Stage → Bool) (index : List (String × ℕ)) (runs : ℕ → Option Run) (k : String)
    → Names at index runs
    → Names at (remove k index) runs
Names-forget at index runs k names id j e =
    let left : (if k == id then none else get id index) ≡ some j =
      sym (get-remove k id index) ∙ e in
    elim (Bool-cases (k == id)) [
      | inl gone ↦ let no : none ≡ some j = rw gone at left in cc
      | inr kept ↦ names id j (rw kept at left)
    ]

module _ {A B : Type 0} (k id : String) (xs : List (String × A)) (ys : List (String × B))
    (same : is_some (get id xs) ≡ is_some (get id ys)) where
  pub both-remove : is_some (get id (remove k xs)) ≡ is_some (get id (remove k ys))
  both-remove = ground (arith, get-remove k id xs, get-remove k id ys)

  pub both-set : (a : A) (b : B) → is_some (get id (set k a xs)) ≡ is_some (get id (set k b ys))
  both-set a b = ground (arith, get-set k id a xs, get-set k id b ys)

pub get-remove_self : {A : Type 0} (k : String) (m : List (String × A)) → get k (remove k m) ≡ none
get-remove_self k m = get-remove k k m ∙ rw (eq_refl k)

pub Names-add :
    (at : Stage → Bool) (index : List (String × ℕ)) (runs : ℕ → Option Run) (r : ℕ) (run : Run)
    (k : String)
    → runs r ≡ some run
    → run.task.id ≡ k
    → at run.stage ≡ true
    → Names at index runs
    → Names at (set k r index) runs
Names-add at index runs r run k found there here names id j e =
    let left : (if k == id then some r else get id index) ≡ some j =
      sym (get-set k id r index) ∙ e in
    elim (Bool-cases (k == id)) [
      | inl own ↦
          let r_is_j : some r ≡ some j = rw own at left in
          let eq : j ≡ r = cc in (run, ap runs eq ∙ found, there ∙ (eq_iff k id).0 own, here)
      | inr kept ↦ names id j (rw kept at left)
    ]

-- A run that is new.
pub Names-new :
    (at : Stage → Bool) (index : List (String × ℕ)) (runs : ℕ → Option Run) (n : ℕ) (run : Run)
    → runs n ≡ none
    → Names at index runs
    → Names at index (update_at runs n (some run))
Names-new at index runs n run new names id j e =
    let (x, ex, tx, ax) = names id j e in
    elim (Bool-cases (same_number n j)) [
      | inl same ↦
          let there : n ≡ j = same_number→eq n j same in
          let both : none ≡ some x = sym new ∙ (ap runs there ∙ ex) in cc
      | inr other ↦ (x, rw other ex, tx, ax)
    ]

-- ===== src/ControlPlane/Pipeline/Overlap.antt =====
-- Two runs of `runDue` that overlap, and the set of threads in flight.
use samdi.Common.{
  ℕ, ◌≤◌, ◌≡◌, refl, ◌∙◌, ap, String, true, some, List, [], ◌∷◌, ◌++◌, final, ◌>>=◌, ◌>>◌,
}
use samdi.Common.Table.{find, has}
use samdi.ControlPlane.Db.{Task, Thread, thread_key, channel_key}
use samdi.ControlPlane.Identifiers.{IsInjective}
use samdi.ControlPlane.Memory.{Runtime, Server}
use samdi.ControlPlane.Tasks.Creation.{new_task}
use samdi.ControlPlane.Pipeline.{InterpretVerdict, settle}
use samdi.ControlPlane.Pipeline.Frames.{IsSound}
use samdi.ControlPlane.Pipeline.Running.{settle-IsSound}
use samdi.ControlPlane.Pipeline.Settling.{settle_lem, settled, task_asked, TasksAfter}

append-two : {A : Type 0} (xs : List A) (x y : A) → (xs ++ x ∷ []) ++ y ∷ [] ≡ xs ++ x ∷ y ∷ []
append-two [] x y = refl
append-two (z ∷ xs) x y = ap (λ ys. z ∷ ys) (append-two xs x y)

module _ (uuid : ℕ → String) (injective : IsInjective uuid) (r : Runtime) (t : Thread) where
  -- With identifiers that never repeat and on valid tables, following two answers for the same
  -- snapshot of a thread, each `fast_pass` or `complete`, makes two tasks that name the thread:
  -- nothing checks that the first has closed it.
  pub settle_twice :
      (seqs : String → ℕ) (s : Server) (row : Thread) (first second : InterpretVerdict)
      (a b : String × String)
      → IsSound uuid seqs s.db
      → has channel_key r.id s.db.channels ≡ true
      → find thread_key t.id s.db.threads ≡ some row
      → t.event_seq ≤ seqs t.id
      → task_asked first ≡ some a
      → task_asked second ≡ some b
      → (x y : Task) × ((final ((settle uuid r t first >> settle uuid r t second) s)).db.tasks
          ≡ s.db.tasks ++ x ∷ y ∷ [])
        × (x.thread_id ≡ some t.id)
        × (y.thread_id ≡ some t.id)
        × (x.label ≡ a.0)
        × (y.label ≡ b.0)
  settle_twice seqs s row first second a b v known found le asks asks' =
      let (db₁, ran₁, there₁, tasks₁, channels₁) =
        settle_lem uuid r t s v.valid known row found first in
      let s₁ = record s { db = db₁ } in
      let v₁ : IsSound uuid seqs db₁ =
        rw (ran₁, final) at (settle-IsSound uuid injective seqs r t first s le v) in
      let (db₂, ran₂, there₂, tasks₂, channels₂) =
        settle_lem uuid r t s₁ v₁.valid (rw channels₁ known)
          (settled first t.event_seq s.db.clock row) there₁ second in
      let grown₁ : TasksAfter uuid r t (some a) s.db db₁ = rw asks at tasks₁ in
      let grown₂ : TasksAfter uuid r t (some b) db₁ db₂ = rw asks' at tasks₂ in
      let x = new_task uuid r.id a.0 a.1 t.agent (some t.id) s.db in
      let y = new_task uuid r.id b.0 b.1 t.agent (some t.id) db₁ in
      (
        x,
        y,
        rw (◌>>=◌, ran₁, ran₂, final)
            (grown₂.0 ∙ ap (λ ts. ts ++ y ∷ []) grown₁.0 ∙ append-two s.db.tasks x y),
        refl,
        refl,
        refl,
        refl,
      )

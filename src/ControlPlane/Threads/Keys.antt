-- ===== src/ControlPlane/Threads/Keys.antt =====
-- apps/control-plane/src/thread-store.ts: changes of a row of `context_threads` that keep its channel
-- and context key.
use samdi.Common.{
  ◌≡◌, String, true, none, some, List, ◌==◌, arith, Option-cases, Bool-cases, inl, inr, sym, ◌∙◌,
}
use samdi.Common.Table.{find, update, find-update}
use samdi.ControlPlane.Db.{Thread, thread_key, is_open}
use samdi.ControlPlane.Threads.Append.{OneOpen}

-- A change of a thread that keeps its key, and opens none that was closed.
pub record KeepsKey (f : Thread → Thread) : Type 0 where
  pub id : (t : Thread) → (f t).id ≡ t.id
  pub channel_id : (t : Thread) → (f t).channel_id ≡ t.channel_id
  pub context_key : (t : Thread) → (f t).context_key ≡ t.context_key
  pub opens_none : (t : Thread) → is_open (f t).status ≡ true → is_open t.status ≡ true

-- The row before the change.
before :
    (f : Thread → Thread) (k j : String) (threads : List Thread) (t : Thread)
    → KeepsKey f
    → find thread_key j (update thread_key k f threads) ≡ some t
    → is_open t.status ≡ true
    → (r : Thread) × (find thread_key j threads ≡ some r)
      × (is_open r.status ≡ true)
      × (t.channel_id ≡ r.channel_id)
      × (t.context_key ≡ r.context_key)
before f k j threads t keeps h o = elim (Option-cases (find thread_key j threads)) [
  | inl absent ↦ absurd (not_found (ground (arith, find-update thread_key f keeps.id k j threads)))
  | inr (r, there) ↦ elim (Bool-cases (k == j)) [
    | inl e ↦
        let same : t ≡ f r = ground (arith, find-update thread_key f keeps.id k j threads) in
        (
          r,
          there,
          keeps.opens_none r (rw same at o),
          rw same (keeps.channel_id r),
          rw same (keeps.context_key r),
        )
    | inr e ↦
        let same : t ≡ r = ground (arith, find-update thread_key f keeps.id k j threads) in
        (r, there, rw same at o, rw same, rw same)
  ]
]
  where
    not_found : none ≡ some t → ⊥
    not_found e = cc

pub OneOpen-update :
    (f : Thread → Thread) (k : String) (threads : List Thread)
    → KeepsKey f
    → OneOpen threads
    → OneOpen (update thread_key k f threads)
OneOpen-update f k threads keeps one i j t u ft fu ot ou ec ek =
    let (a, fa, oa, ca, ka) = before f k i threads t keeps ft ot in
    let (b, fb, ob, cb, kb) = before f k j threads u keeps fu ou in
    one i j a b fa fb oa ob (sym ca ∙ ec ∙ cb) (sym ka ∙ ek ∙ kb)

-- ===== src/ControlPlane/Workers/Coverage.antt =====
-- Which labels some live worker takes, and what a claim or a heartbeat records.
use samdi.Common.{
  ℕ, ◌+◌, ◌*◌, ◌≡◌, refl, String, Bool, false, ◌||◌, ◌&&◌, Option, none, some, List, [], ◌∷◌, ◌++◌,
  ◌==◌, includes, if◌then◌else◌, leb, arith, eq_iff, Bool-cases, inl, inr, ◌∙◌, ap,
}
use samdi.Common.Table.{find, find-update, find-append, has-find}
use samdi.Common.Order.{order_by_descending, insert_descending}
use samdi.ControlPlane.Db.{Db, WorkerRow}
use samdi.ControlPlane.Workers.{
  worker_key, seen, list_workers, add_label, add_labels, collect, text_le, insert_text, sort_texts,
  covered_labels,
}

-- The worker was seen in the window, and takes the label.
abbrev pub covers : ℕ → ℕ → String → WorkerRow → Bool
covers within_seconds now label w =
    leb now (w.last_seen_at + within_seconds * 1000) && includes w.labels label

abbrev pub any_covers : ℕ → ℕ → String → List WorkerRow → Bool
any_covers within_seconds now label [] = false
any_covers within_seconds now label (w ∷ ws) =
    covers within_seconds now label w || any_covers within_seconds now label ws

swap : (a b c : Bool) → (a || (b || c)) ≡ (b || (a || c))
swap a b c = ground arith

includes-append :
    (xs ys : List String) (l : String) → includes (xs ++ ys) l ≡ (includes xs l || includes ys l)
includes-append [] ys l = refl
includes-append (x ∷ xs) ys l = ground (arith, includes-append xs ys l)

includes-add_labels :
    (set labels : List String) (l : String)
    → includes (add_labels set labels) l ≡ (includes set l || includes labels l)
includes-add_labels set [] l = ground arith
includes-add_labels set (x ∷ labels) l = ground (
  arith,
  includes-add_labels (add_label set x) labels l,
  includes-append set (x ∷ []) l,
  eq_iff x l,
)

includes-collect :
    (within_seconds now : ℕ) (set : List String) (ws : List WorkerRow) (l : String)
    → includes (collect within_seconds now set ws) l
      ≡ (includes set l || any_covers within_seconds now l ws)
unfolding collect
includes-collect within_seconds now set [] l = ground arith
includes-collect within_seconds now set (w ∷ ws) l =
    elim (Bool-cases (leb now (w.last_seen_at + within_seconds * 1000))) [
      | inl e ↦ rw e (
          ground (
            arith,
            includes-collect within_seconds now (add_labels set w.labels) ws l,
            includes-add_labels set w.labels l,
          ))
      | inr e ↦ rw e (includes-collect within_seconds now set ws l)
    ]

includes-insert_text :
    (x : String) (ys : List String) (l : String)
    → includes (insert_text x ys) l ≡ (x == l || includes ys l)
includes-insert_text x [] l = refl
includes-insert_text x (y ∷ ys) l = elim (Bool-cases (text_le x y)) [
  | inl e ↦ rw e refl
  | inr e ↦ rw e (ground (arith, includes-insert_text x ys l))
]

includes-sort_texts : (xs : List String) (l : String) → includes (sort_texts xs) l ≡ includes xs l
includes-sort_texts [] l = refl
includes-sort_texts (x ∷ xs) l =
    ground (arith, includes-insert_text x (sort_texts xs) l, includes-sort_texts xs l)

module _ (within_seconds now : ℕ) (l : String) where
  any_covers-insert_descending :
      (x : WorkerRow) (ys : List WorkerRow)
      → any_covers within_seconds now l (insert_descending (λ w. w.last_seen_at) x ys)
        ≡ (covers within_seconds now l x || any_covers within_seconds now l ys)
  any_covers-insert_descending x [] = refl
  any_covers-insert_descending x (y ∷ ys) = elim (Bool-cases (leb y.last_seen_at x.last_seen_at)) [
    | inl e ↦ rw e refl
    | inr e ↦
        rw (e, any_covers-insert_descending x ys)
          (swap (covers within_seconds now l y) (covers within_seconds now l x)
            (any_covers within_seconds now l ys))
  ]

  any_covers-order :
      (ws : List WorkerRow)
      → any_covers within_seconds now l (order_by_descending (λ w. w.last_seen_at) ws)
        ≡ any_covers within_seconds now l ws
  any_covers-order [] = refl
  any_covers-order (w ∷ ws) =
      any_covers-insert_descending w (order_by_descending (λ v. v.last_seen_at) ws)
      ∙ ap (λ b. covers within_seconds now l w || b) (any_covers-order ws)

-- A label is in the list of `coveredLabels` if and only if some worker of the table was seen at
-- most `within_seconds` ago and has it.
pub covered_labels_iff :
    (within_seconds now : ℕ) (db : Db) (l : String)
    → includes (covered_labels within_seconds now db) l ≡ any_covers within_seconds now l db.workers
unfolding covered_labels
covered_labels_iff within_seconds now db l =
    includes-sort_texts (collect within_seconds now [] (list_workers db)) l
    ∙ includes-collect within_seconds now [] (list_workers db) l
    ∙ any_covers-order within_seconds now l db.workers

-- What a claim or a heartbeat records of a worker.
abbrev pub seen_row : String → List String → ℕ → Option WorkerRow → WorkerRow
seen_row worker_id labels now none = record {
  id = worker_id;
  labels = labels;
  first_seen_at = now;
  last_seen_at = now;
}
seen_row worker_id labels now (some w) = record w { labels = labels; last_seen_at = now }

-- After `seen` the row of the worker has the labels and the time of that call, and the time of its
-- first call if it had a row; the rows of all other workers are as they were.
pub find-seen :
    (worker_id : String) (labels : List String) (now : ℕ) (db : Db) (k : String)
    → find worker_key k (seen worker_id labels now db).workers ≡ (
        if worker_id == k
        then some (seen_row worker_id labels now (find worker_key worker_id db.workers))
        else find worker_key k db.workers)
unfolding seen
find-seen worker_id labels now db k = ground (
  arith,
  has-find worker_key worker_id db.workers,
  find-update worker_key (λ w. record w { labels = labels; last_seen_at = now }) (λ w. refl)
      worker_id k db.workers,
  find-append worker_key k db.workers (seen_row worker_id labels now none ∷ []),
  eq_iff worker_id k,
)

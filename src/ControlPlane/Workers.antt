-- ===== src/ControlPlane/Workers.antt =====
-- apps/control-plane/src/worker-registry.ts: `WorkerRegistry`, the workers that the server has heard
-- of. `now` is an argument, as in the source; `lastSeenAt >= now - w` is written `now <= lastSeenAt + w`.
pub mod Coverage
use Prim.Native.String.{compare}
use Prim.Native.Nat.{Ordering}
use samdi.Common.{
  ℕ, ◌+◌, ◌*◌, String, Bool, true, false, List, [], ◌∷◌, ◌++◌, ◌==◌, includes, if◌then◌else◌, leb,
}
use samdi.Common.Table.{has, update}
use samdi.Common.Order.{order_by_descending}
use samdi.ControlPlane.Db.{Db, WorkerRow}

abbrev pub worker_key : WorkerRow → String
worker_key w = w.id

-- `INSERT … ON CONFLICT(id) DO UPDATE SET labels, last_seen_at`
unfoldable pub seen : String → List String → ℕ → Db → Db
seen worker_id labels now db =
    if has worker_key worker_id db.workers
    then record db {
      workers =
          update worker_key worker_id (λ w. record w { labels = labels; last_seen_at = now })
            db.workers;
    }
    else record db {
      workers =
          db.workers
          ++ record { id = worker_id; labels = labels; first_seen_at = now; last_seen_at = now }
            ∷ [];
    }

-- `list()`, the last seen first
abbrev pub list_workers : Db → List WorkerRow
list_workers db = order_by_descending (λ w. w.last_seen_at) db.workers

-- `labels.add(label)`, for each label
abbrev pub add_label : List String → String → List String
add_label set label = if includes set label then set else set ++ label ∷ []

abbrev pub add_labels : List String → List String → List String
add_labels set [] = set
add_labels set (label ∷ labels) = add_labels (add_label set label) labels

-- The loop of `coveredLabels`.
unfoldable pub collect : ℕ → ℕ → List String → List WorkerRow → List String
collect within_seconds now set [] = set
collect within_seconds now set (w ∷ workers) =
    collect within_seconds now
      (if leb now (w.last_seen_at + within_seconds * 1000) then add_labels set w.labels else set)
      workers

-- `[...labels].sort()`, by the code of the characters
abbrev pub text_le : String → String → Bool
text_le a b = elim (compare a b) [ Ordering.gt ↦ false | _ ↦ true ]

abbrev pub insert_text : String → List String → List String
insert_text x [] = x ∷ []
insert_text x (y ∷ ys) = let rest = insert_text x ys in if text_le x y then x ∷ y ∷ ys else y ∷ rest

abbrev pub sort_texts : List String → List String
sort_texts [] = []
sort_texts (x ∷ xs) = insert_text x (sort_texts xs)

unfoldable pub covered_labels : ℕ → ℕ → Db → List String
unfolding collect
covered_labels within_seconds now db = sort_texts (collect within_seconds now [] (list_workers db))

-- ===== src/ControlPlane/Tasks/Pages.antt =====
-- The pages of `listTasks` (apps/control-plane/src/task-store.ts), one after the other.
use samdi.Common.{
  ℕ, zero, suc, ◌+◌, ◌*◌, ◌≤◌, ◌≡◌, refl, sym, ap, ◌∙◌, String, Option, none, some, List, [], ◌∷◌,
  ◌++◌, map, length, take_all, length-map, take, drop, arith,
}
use samdi.Common.Table.{select}
use samdi.Common.Order.{insert_descending, order_by_descending}
use samdi.ControlPlane.Db.{Db, Task}
use samdi.ControlPlane.Tasks.Listing.{
  ListOptions, page_size, page_start, listed, with_preview, list_tasks,
}

module _ {A : Type 0} where
  drop_none : (n : ℕ) → drop {A = A} n [] ≡ []
  drop_none zero = refl
  drop_none (suc n) = refl

  take_none : (n : ℕ) → take {A = A} n [] ≡ []
  take_none zero = refl
  take_none (suc n) = refl

  take-plus : (m n : ℕ) (xs : List A) → take (m + n) xs ≡ take m xs ++ take n (drop m xs)
  take-plus zero n xs = let e : 0 + n ≡ n = omega arith in ap (λ k. take k xs) e
  take-plus (suc m) n [] = take_none (suc m + n) ∙ sym (take_none n)
  take-plus (suc m) n (x ∷ xs) =
      let e : suc m + n ≡ suc (m + n) = omega arith in
      ap (λ k. take k (x ∷ xs)) e ∙ ap (λ l. x ∷ l) (take-plus m n xs)

  drop-plus : (m n : ℕ) (xs : List A) → drop (m + n) xs ≡ drop n (drop m xs)
  drop-plus zero n xs = let e : 0 + n ≡ n = omega arith in ap (λ k. drop k xs) e
  drop-plus (suc m) n [] = drop_none (suc m + n) ∙ sym (drop_none n)
  drop-plus (suc m) n (x ∷ xs) =
      let e : suc m + n ≡ suc (m + n) = omega arith in
      ap (λ k. drop k (x ∷ xs)) e ∙ drop-plus m n xs

  length-take-le : (n : ℕ) (xs : List A) → length (take n xs) ≤ n
  length-take-le zero xs = omega arith
  length-take-le (suc n) [] = omega arith
  length-take-le (suc n) (x ∷ xs) = omega (arith, length-take-le n xs)

  module _ {B : Type 0} (f : A → B) where
    map-append : (xs ys : List A) → map f (xs ++ ys) ≡ map f xs ++ map f ys
    map-append [] ys = refl
    map-append (x ∷ xs) ys = ap (λ l. f x ∷ l) (map-append xs ys)

  module _ (by : A → ℕ) where
    length-insert_descending :
        (x : A) (xs : List A) → length (insert_descending by x xs) ≡ suc (length xs)
    length-insert_descending x [] = refl
    length-insert_descending x (y ∷ ys) = ground (arith, length-insert_descending x ys)

    length-order_by_descending : (xs : List A) → length (order_by_descending by xs) ≡ length xs
    length-order_by_descending [] = refl
    length-order_by_descending (x ∷ xs) =
        length-insert_descending x (order_by_descending by xs)
        ∙ ap suc (length-order_by_descending xs)

-- The tasks that the options ask for, the latest first.
abbrev pub all_listed : ListOptions → Db → List (Task × String)
all_listed opts db =
    map (with_preview db.payloads)
      (order_by_descending (λ t. t.created_at) (select (listed opts) db.tasks))

-- The first `k` pages from an offset on.
unfoldable pub pages : ℕ → ℕ → ListOptions → Db → List (Task × String)
pages zero offset opts db = []
pages (suc k) offset opts db =
    let later = pages k (offset + page_size opts.limit) opts db in
    (list_tasks (record opts { offset = some offset }) db).0 ++ later

pages-take :
    (k offset : ℕ) (opts : ListOptions) (db : Db)
    → pages k offset opts db
      ≡ map (with_preview db.payloads) (
          take
            (k * page_size opts.limit)
            (drop offset (order_by_descending (λ t. t.created_at) (select (listed opts) db.tasks))))
unfolding pages list_tasks
pages-take zero offset opts db =
    let rows = order_by_descending (λ t. t.created_at) (select (listed opts) db.tasks) in
    let e : 0 * page_size opts.limit ≡ 0 = omega arith in
    sym (ap (λ n. map (with_preview db.payloads) (take n (drop offset rows))) e)
pages-take (suc k) offset opts db =
    let size = page_size opts.limit in
    let rows = order_by_descending (λ t. t.created_at) (select (listed opts) db.tasks) in
    let f = with_preview db.payloads in
    let step : suc k * size ≡ size + k * size = omega arith in
    ap (λ l. map f (take size (drop offset rows)) ++ l) (pages-take k (offset + size) opts db)
    ∙ (ap (λ l. map f (take size (drop offset rows)) ++ map f (take (k * size) l))
          (drop-plus offset size rows)
        ∙ (sym (
              map-append f (take size (drop offset rows))
                (take (k * size) (drop size (drop offset rows))))
            ∙ ap (map f) (
                sym (take-plus size (k * size) (drop offset rows))
                ∙ ap (λ n. take n (drop offset rows)) (sym step))))

page_size_bounds : (limit : Option ℕ) → (1 ≤ page_size limit) × (page_size limit ≤ 200)
page_size_bounds none = (omega arith, omega arith)
page_size_bounds (some n) = (ground arith, ground arith)

page_bounds :
    (opts : ListOptions) (db : Db)
    → (length (list_tasks opts db).0 ≤ 200) × ((list_tasks opts db).1 ≡ length (all_listed opts db))
unfolding list_tasks
page_bounds opts db =
    let rows = order_by_descending (λ t. t.created_at) (select (listed opts) db.tasks) in
    let f = with_preview db.payloads in
    let size = page_size opts.limit in
    (
      omega (
        arith,
        length-map f (take size (drop (page_start opts.offset) rows)),
        length-take-le size (drop (page_start opts.offset) rows),
        (page_size_bounds opts.limit).1,
      ),
      sym (
          length-map f rows
          ∙ length-order_by_descending (λ (t : Task). t.created_at)
              (select (listed opts) db.tasks)),
    )

pages-all_listed :
    (k : ℕ) (opts : ListOptions) (db : Db)
    → (list_tasks opts db).1 ≤ k * page_size opts.limit
    → pages k 0 opts db ≡ all_listed opts db
unfolding list_tasks
pages-all_listed k opts db enough =
    let rows = order_by_descending (λ t. t.created_at) (select (listed opts) db.tasks) in
    let same =
      length-order_by_descending (λ (t : Task). t.created_at) (select (listed opts) db.tasks) in
    pages-take k 0 opts db
    ∙ ap (map (with_preview db.payloads))
        (take_all (k * page_size opts.limit) rows (omega (arith, same)))

-- For all options and tables: the pages from the first on, each taken at the offset where the one
-- before it ends, put together are the whole sorted list of the tasks that the options ask for, if
-- there are enough pages for the total; a page has at most 200 tasks; and the total that comes
-- with it is the length of that list.
pub pages_show_all :
    (k : ℕ) (opts : ListOptions) (db : Db)
    → (list_tasks opts db).1 ≤ k * page_size opts.limit
    → (pages k 0 opts db ≡ all_listed opts db)
      × (length (list_tasks opts db).0 ≤ 200)
      × ((list_tasks opts db).1 ≡ length (all_listed opts db))
pages_show_all k opts db enough =
    let bounds = page_bounds opts db in (pages-all_listed k opts db enough, bounds.0, bounds.1)

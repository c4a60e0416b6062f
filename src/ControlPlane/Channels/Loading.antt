-- ===== src/ControlPlane/Channels/Loading.antt =====
-- The start of the server: the runtimes are built from the rows.
use samdi.Common.{
  ℕ, ◌≡◌, refl, String, Bool, true, false, not, Option, none, some, List, [], ◌∷◌, if◌then◌else◌,
  arith, Bool-cases, inl, inr, eq_iff, eq_refl, text-cases, returned, threw,
}
use samdi.Common.Table.{find, has, select, HasUniqueKeys, find-select, HasUniqueKeys-select}
use samdi.ControlPlane.Db.{Channel, channel_key, InterpreterConfig, http_url_required}
use samdi.ControlPlane.Deletion.{any}
use samdi.ControlPlane.Memory.{Server, Runtime, entry_key}
use samdi.ControlPlane.Channels.{
  buildable, is_enabled, put_runtime, runtime_of, load, load_rows, create,
}
use samdi.ControlPlane.Channels.Entries.{find-put_runtime, find-upserted, upserted_row}
use samdi.ControlPlane.Channels.Effects.{create_lem, created_row, with_created}
use samdi.ControlPlane.Channels.Sync.{IsSynced, Agrees, row_buildable}

-- The map after the rows are loaded into it.
abbrev pub loaded : List Channel → List (String × Runtime) → List (String × Runtime)
loaded [] runtimes = runtimes
loaded (row ∷ rows) runtimes = loaded rows (put_runtime row.id (runtime_of row) runtimes)

abbrev pub any_unbuildable : List Channel → Bool
any_unbuildable rows = any (λ row. not (buildable row.interpreter)) rows

load_rows_lem :
    (rows : List Channel) (s : Server)
    → any_unbuildable rows ≡ false
    → load_rows rows s ≡ returned tt (record s { runtimes = loaded rows s.runtimes })
unfolding load_rows
load_rows_lem [] s ok = refl
load_rows_lem (row ∷ rows) s ok = ground (
  arith,
  load_rows_lem rows (record s { runtimes = put_runtime row.id (runtime_of row) s.runtimes }),
)

find-loaded :
    (rows : List Channel) (runtimes : List (String × Runtime)) (j : String)
    → HasUniqueKeys channel_key rows
    → find entry_key j (loaded rows runtimes) ≡ elim (find channel_key j rows) [
      | none ↦ find entry_key j runtimes
      | some row ↦ some (j, runtime_of row)
    ]
find-loaded [] runtimes j u = refl
find-loaded (row ∷ rows) runtimes j u = elim (text-cases row.id j) [
  | inl e ↦ ground (
    arith,
    eq_iff row.id j,
    find-loaded rows (put_runtime row.id (runtime_of row) runtimes) j u.1,
    find-put_runtime row.id (runtime_of row) runtimes j,
  )
  | inr n ↦ ground (
    arith,
    n,
    find-loaded rows (put_runtime row.id (runtime_of row) runtimes) j u.1,
    find-put_runtime row.id (runtime_of row) runtimes j,
  )
]

-- What the rows give the map: nothing for a disabled channel.
load_lem :
    (s : Server)
    → any_unbuildable (select is_enabled s.db.channels) ≡ false
    → load s ≡ returned tt (record s { runtimes = loaded (select is_enabled s.db.channels) [] })
unfolding load
load_lem s ok = load_rows_lem (select is_enabled s.db.channels) (record s { runtimes = [] }) ok

select_buildable :
    (rows : List Channel)
    → any_unbuildable rows ≡ false
    → any_unbuildable (select is_enabled rows) ≡ false
select_buildable [] h = refl
select_buildable (row ∷ rows) h = ground (arith, select_buildable rows)

find-buildable :
    (rows : List Channel) (j : String)
    → any_unbuildable rows ≡ false
    → row_buildable (find channel_key j rows) ≡ true
find-buildable [] j h = refl
find-buildable (row ∷ rows) j h = ground (arith, find-buildable rows j)

-- If the keys of the channels are unique and every interpreter can be built, `load` returns, and
-- the runtimes then agree with the rows.
pub load-IsSynced :
    (s : Server)
    → HasUniqueKeys channel_key s.db.channels
    → any_unbuildable s.db.channels ≡ false
    → (loaded_server : Server) × (load s ≡ returned tt loaded_server) × IsSynced loaded_server
load-IsSynced s u ok = (
  record s { runtimes = loaded (select is_enabled s.db.channels) [] },
  load_lem s (select_buildable s.db.channels ok),
  record {
    unique = u;
    agreeing = λ j.
        rw
          (
            find-loaded (select is_enabled s.db.channels) [] j
                (HasUniqueKeys-select channel_key is_enabled s.db.channels u),
            find-select channel_key j is_enabled s.db.channels u,
          )
          (agreed j (find channel_key j s.db.channels));
    built = λ j. find-buildable s.db.channels j ok;
  },
)
  where
    agreed :
        (j : String) (o : Option Channel)
        → Agrees
            (elim (elim o as (λ x. Option Channel) [
              | none ↦ none
              | some row ↦ if is_enabled row then some row else none
            ])
              as (λ x. Option (String × Runtime)) [
                | none ↦ none
                | some row ↦ some (j, runtime_of row)
              ])
            o
    agreed j none = tt
    agreed j (some row) = elim (Bool-cases (is_enabled row)) [
      | inl on ↦ rw on (refl, on)
      | inr off ↦ rw off off
    ]

load_rows_fail :
    (rows : List Channel) (s : Server)
    → any_unbuildable rows ≡ true
    → (left : Server) × (load_rows rows s ≡ threw http_url_required left)
unfolding load_rows
load_rows_fail [] s h = cc
load_rows_fail (row ∷ rows) s h = elim (Bool-cases (buildable row.interpreter)) [
  | inl b ↦
      let (left, fails) =
        load_rows_fail rows (record s { runtimes = put_runtime row.id (runtime_of row) s.runtimes })
          (ground arith) in
      (left, ground arith)
  | inr b ↦ (s, ground arith)
]

pub load-fails :
    (s : Server)
    → any_unbuildable (select is_enabled s.db.channels) ≡ true
    → (left : Server) × (load s ≡ threw http_url_required left)
unfolding load
load-fails s h = load_rows_fail (select is_enabled s.db.channels) (record s { runtimes = [] }) h

any_unbuildable-find :
    (rows : List Channel) (k : String) (row : Channel)
    → find channel_key k rows ≡ some row
    → is_enabled row ≡ true
    → buildable row.interpreter ≡ false
    → any_unbuildable (select is_enabled rows) ≡ true
any_unbuildable-find [] k row found on bad = cc
any_unbuildable-find (r ∷ rows) k row found on bad = elim (text-cases r.id k) [
  | inl e ↦
      let same : r ≡ row = ground (arith, eq_iff r.id k) in
      let on' : is_enabled r ≡ true = rw same on in
      let bad' : buildable r.interpreter ≡ false = rw same bad in rw (on', bad') refl
  | inr n ↦ ground (arith, any_unbuildable-find rows k row (ground arith) on bad)
]

-- Registering a new channel with an interpreter that parses but cannot be built throws after its
-- row is written, and `load` on the tables that are left throws.
pub create-breaks_load :
    (random_bytes : ℕ → String) {Json : Type 0} (parse : Option Json → Option InterpreterConfig)
    (s : Server) (id : String) (label : Option String) (i : Option Json) (c : InterpreterConfig)
    → has entry_key id s.runtimes ≡ false
    → parse i ≡ some c
    → buildable c ≡ false
    → (after : Server) × (create random_bytes parse id label i s ≡ threw http_url_required after)
      × ((left : Server) × (load after ≡ threw http_url_required left))
create-breaks_load random_bytes parse s id label i c new good bad =
    let row = created_row random_bytes parse id label c s in
    let after = with_created random_bytes parse row s in
    (
      after,
      rw (create_lem random_bytes parse id label i s, new, good, bad) refl,
      load-fails after (
          any_unbuildable-find after.db.channels id
            (upserted_row row (find channel_key id s.db.channels))
            (rw (find-upserted row s.db.channels id, eq_refl id) refl)
            (enabled row (find channel_key id s.db.channels) refl)
            (unbuildable row (find channel_key id s.db.channels) bad)),
    )
  where
    enabled :
        (c : Channel) (o : Option Channel)
        → is_enabled c ≡ true
        → is_enabled (upserted_row c o) ≡ true
    enabled c none h = h
    enabled c (some r) h = refl

    unbuildable :
        (c : Channel) (o : Option Channel)
        → buildable c.interpreter ≡ false
        → buildable (upserted_row c o).interpreter ≡ false
    unbuildable c none h = h
    unbuildable c (some r) h = h

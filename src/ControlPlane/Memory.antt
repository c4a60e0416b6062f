-- ===== src/ControlPlane/Memory.antt =====
-- What the control plane keeps in memory beside the tables: `ChannelRegistry.runtimes`, and
-- `Pipeline.inFlight` and `Pipeline.timers` of apps/control-plane/src/pipeline.ts.
use samdi.Common.{ℕ, String, List, Outcome, returned, threw, Exec}
use samdi.ControlPlane.Db.{Failure, InterpreterConfig, Db, Query}

-- `ChannelRuntime`: its `config`, where the label is a second time. The interpreter is given by
-- its configuration.
pub record Runtime : Type 0 where
  pub id : String
  pub label : String
  pub key : String
  pub interpreter : InterpreterConfig

pub record Server : Type 0 where
  pub db : Db
  pub runtimes : List (String × Runtime)
  pub in_flight : List String
  pub timers : List (String × ℕ)  -- when each fires

abbrev pub Serve : Type 0 → Type 0
Serve = Exec Failure Server

abbrev pub with_tables : {A : Type 0} → Server → Outcome Failure Db A → Outcome Failure Server A
with_tables s (returned a db) = returned a (record s { db = db })
with_tables s (threw e db) = threw e (record s { db = db })

-- A method of a store, called by the server.
abbrev pub on_db : {A : Type 0} → Query A → Serve A
on_db m s = with_tables s (m s.db)

-- The key of an entry of a `Map`.
abbrev pub entry_key : {A : Type 0} → String × A → String
entry_key e = e.0

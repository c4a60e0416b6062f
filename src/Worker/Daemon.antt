-- ===== src/Worker/Daemon.antt =====
-- apps/worker/src/index.ts: the polling loops of the worker's process, whose number is how many
-- tasks it processes at the same time.
pub mod Loops
pub mod Requests
pub mod Errors
pub mod Heartbeats
pub mod Rounds
use samdi.Common.{
  ℕ, zero, suc, ◌+◌, ◌-◌, Bool, true, false, ◌||◌, Option, none, some, List, [], ◌∷◌, ◌++◌,
  if◌then◌else◌, length, take, drop, map,
}
use samdi.Common.Maps.{same_number}
use samdi.Worker.State.{concurrency_of}
use samdi.Worker.Process.{Worker}

-- `{ stop }`, with a number that tells the loops apart
pub record Loop : Type 0 where
  pub number : ℕ
  pub stop : Bool

pub record Daemon : Type 0 where
  pub worker : Worker
  pub loops : List Loop
  pub started : ℕ
  pub stopping : Bool

-- `n` new loops
abbrev pub new_loops : ℕ → ℕ → List Loop
new_loops zero number = []
new_loops (suc n) number = record { number = number; stop = false } ∷ new_loops n (suc number)

abbrev pub marked : Loop → Loop
marked l = record l { stop = true }

-- `applyConcurrency`, on the loops: the missing ones are added, and those past the target marked.
abbrev pub grown : ℕ → ℕ → List Loop → List Loop
grown target number loops = loops ++ new_loops (target - length loops) number

abbrev pub cut : ℕ → List Loop → List Loop
cut target loops = take target loops ++ map marked (drop target loops)

unfoldable pub adjust : ℕ → ℕ → List Loop → List Loop
adjust target number loops = cut target (grown target number loops)

unfoldable pub apply_concurrency : Daemon → Daemon
unfolding adjust
apply_concurrency d =
    let target = concurrency_of d.worker.settings in
    record d {
      loops = adjust target d.started d.loops;
      started = d.started + (target - length d.loops);
    }

-- The test of `pollLoop` before each round, which is made only between two tasks: a loop that is to
-- stop is removed.
abbrev pub remove_loop : ℕ → List Loop → List Loop
remove_loop n [] = []
remove_loop n (l ∷ ls) =
    let rest = remove_loop n ls in if same_number l.number n then ls else l ∷ rest

abbrev pub is_over : ℕ → Bool → List Loop → Bool
is_over n stopping [] = true
is_over n stopping (l ∷ ls) =
    if same_number l.number n then stopping || l.stop else is_over n stopping ls

unfoldable pub next_round : ℕ → Daemon → Daemon
next_round n d =
    if is_over n d.stopping d.loops then record d { loops = remove_loop n d.loops } else d

-- The loops that go on to another task.
abbrev pub staying : List Loop → ℕ
staying [] = 0
staying (l ∷ ls) = if l.stop then staying ls else suc (staying ls)

-- ===== src/Worker/Daemon/Rounds.antt =====
-- What is left of the loops when each of them has come to its next round.
use samdi.Common.{
  ℕ, suc, zero, ◌-◌, ◌<◌, ◌≡◌, refl, sym, ap, subst, ◌∙◌, Bool, true, false, ◌||◌, List, [], ◌∷◌,
  ◌++◌, map, arith, if◌then◌else◌, length, Bool-cases, inl, inr,
}
use samdi.Common.Maps.{same_number, same_number_refl}
use samdi.Worker.State.{concurrency_of}
use samdi.Worker.Daemon.{
  Loop, Daemon, new_loops, marked, grown, cut, adjust, staying, next_round, remove_loop, is_over,
  apply_concurrency,
}
use samdi.Worker.Daemon.Loops.{adjust_reaches}

abbrev pub numbers : List Loop → List ℕ
numbers = map (λ l. l.number)

-- Each of the loops comes to its next round.
unfoldable pub rounds : List ℕ → Daemon → Daemon
rounds [] d = d
rounds (n ∷ ns) d = rounds ns (next_round n d)

-- A number that is not in a list, and a list of different numbers.
abbrev pub IsFree : ℕ → List ℕ → Type 0
IsFree n [] = Unit {0}
IsFree n (m ∷ ms) = (same_number m n ≡ false) × IsFree n ms

abbrev pub AreDifferent : List ℕ → Type 0
AreDifferent [] = Unit {0}
AreDifferent (m ∷ ms) = IsFree m ms × AreDifferent ms

-- The loops that go on, when the process stops or not.
abbrev pub kept : Bool → List Loop → List Loop
kept stopping [] = []
kept stopping (l ∷ ls) =
    let rest = kept stopping ls in if stopping || l.stop then rest else l ∷ rest

-- A round, on the loops.
abbrev round_of : Bool → ℕ → List Loop → List Loop
round_of stopping n ls = if is_over n stopping ls then remove_loop n ls else ls

abbrev rounds_of : Bool → List ℕ → List Loop → List Loop
rounds_of stopping [] ls = ls
rounds_of stopping (n ∷ ns) ls = rounds_of stopping ns (round_of stopping n ls)

round-own :
    (stopping : Bool) (l : Loop) (ls : List Loop)
    → round_of stopping l.number (l ∷ ls) ≡ (if stopping || l.stop then ls else l ∷ ls)
round-own stopping l ls = ground (arith, same_number_refl l.number)

round-other :
    (stopping : Bool) (n : ℕ) (l : Loop) (ls : List Loop)
    → same_number l.number n ≡ false
    → round_of stopping n (l ∷ ls) ≡ l ∷ round_of stopping n ls
round-other stopping n l ls other = ground arith

same_number-swapped : (m n : ℕ) → same_number m n ≡ false → same_number n m ≡ false
same_number-swapped m n h = ground arith

rounds-other :
    (stopping : Bool) (l : Loop) (ns : List ℕ) (ls : List Loop)
    → IsFree l.number ns
    → rounds_of stopping ns (l ∷ ls) ≡ l ∷ rounds_of stopping ns ls
rounds-other stopping l [] ls free = refl
rounds-other stopping l (n ∷ ns) ls free =
    ap (rounds_of stopping ns) (round-other stopping n l ls (same_number-swapped n l.number free.0))
    ∙ rounds-other stopping l ns (round_of stopping n ls) free.1

rounds-kept :
    (stopping : Bool) (ls : List Loop)
    → AreDifferent (numbers ls)
    → rounds_of stopping (numbers ls) ls ≡ kept stopping ls
rounds-kept stopping [] h = refl
rounds-kept stopping (l ∷ ls) h =
    let ih = rounds-kept stopping ls h.1 in
    ap (rounds_of stopping (numbers ls)) (round-own stopping l ls)
    ∙ elim (Bool-cases (stopping || l.stop)) [
      | inl over ↦ rw over ih
      | inr on ↦ rw on (rounds-other stopping l (numbers ls) ls h.0 ∙ ap (λ x. l ∷ x) ih)
    ]

next_round-loops :
    (n : ℕ) (d : Daemon) → next_round n d ≡ record d { loops = round_of d.stopping n d.loops }
unfolding next_round
next_round-loops n d = elim (Bool-cases (is_over n d.stopping d.loops)) [
  | inl e ↦ rw e refl
  | inr e ↦ rw e refl
]

rounds-loops :
    (ns : List ℕ) (d : Daemon) → rounds ns d ≡ record d { loops = rounds_of d.stopping ns d.loops }
unfolding rounds
rounds-loops [] d = refl
rounds-loops (n ∷ ns) d =
    ap (rounds ns) (next_round-loops n d)
    ∙ rounds-loops ns (record d { loops = round_of d.stopping n d.loops })

none_kept : (ls : List Loop) → kept true ls ≡ []
none_kept [] = refl
none_kept (l ∷ ls) = none_kept ls

length-kept : (ls : List Loop) → length (kept false ls) ≡ staying ls
length-kept [] = refl
length-kept (l ∷ ls) = ground (arith, length-kept ls)

-- The numbers of the loops stay different when some are added.
abbrev pub AreBelow : ℕ → List ℕ → Type 0
AreBelow bound [] = Unit {0}
AreBelow bound (m ∷ ms) = (m < bound) × AreBelow bound ms

IsFree-new_loops : (k m n : ℕ) → m < n → IsFree m (numbers (new_loops k n))
IsFree-new_loops zero m n h = tt
IsFree-new_loops (suc k) m n h = (ground arith, IsFree-new_loops k m (suc n) (omega arith))

AreDifferent-new_loops : (k n : ℕ) → AreDifferent (numbers (new_loops k n))
AreDifferent-new_loops zero n = tt
AreDifferent-new_loops (suc k) n =
    (IsFree-new_loops k n (suc n) (omega arith), AreDifferent-new_loops k (suc n))

IsFree-append : (m : ℕ) (ms ns : List ℕ) → IsFree m ms → IsFree m ns → IsFree m (ms ++ ns)
IsFree-append m [] ns h k = k
IsFree-append m (x ∷ ms) ns h k = (h.0, IsFree-append m ms ns h.1 k)

AreDifferent-append :
    (ms : List ℕ) (k n : ℕ)
    → AreDifferent ms
    → AreBelow n ms
    → AreDifferent (ms ++ numbers (new_loops k n))
AreDifferent-append [] k n d b = AreDifferent-new_loops k n
AreDifferent-append (m ∷ ms) k n d b = (
  IsFree-append m ms (numbers (new_loops k n)) d.0 (IsFree-new_loops k m n b.0),
  AreDifferent-append ms k n d.1 b.1,
)

numbers-append : (xs ys : List Loop) → numbers (xs ++ ys) ≡ numbers xs ++ numbers ys
numbers-append [] ys = refl
numbers-append (x ∷ xs) ys = ap (λ l. x.number ∷ l) (numbers-append xs ys)

numbers-marked : (xs : List Loop) → numbers (map marked xs) ≡ numbers xs
numbers-marked [] = refl
numbers-marked (x ∷ xs) = ap (λ l. x.number ∷ l) (numbers-marked xs)

numbers-cut : (target : ℕ) (xs : List Loop) → numbers (cut target xs) ≡ numbers xs
numbers-cut zero xs = numbers-marked xs
numbers-cut (suc n) [] = refl
numbers-cut (suc n) (x ∷ xs) = ap (λ l. x.number ∷ l) (numbers-cut n xs)

AreDifferent-adjust :
    (target number : ℕ) (loops : List Loop)
    → AreDifferent (numbers loops)
    → AreBelow number (numbers loops)
    → AreDifferent (numbers (adjust target number loops))
unfolding adjust
AreDifferent-adjust target number loops d b =
    let added = new_loops (target - length loops) number in
    subst AreDifferent
      (sym (numbers-cut target (grown target number loops) ∙ numbers-append loops added))
      (AreDifferent-append (numbers loops) (target - length loops) number d b)

module _ (d : Daemon) (different : AreDifferent (numbers d.loops)) where
  left_by_rounds : (rounds (numbers d.loops) d).loops ≡ kept d.stopping d.loops
  left_by_rounds =
      ap (λ (x : Daemon). x.loops) (rounds-loops (numbers d.loops) d)
      ∙ rounds-kept d.stopping d.loops different

  -- If the process is stopping and its loops have different numbers, then after one more round of
  -- each loop no loop is left.
  pub stopped_ends : d.stopping ≡ true → (rounds (numbers d.loops) d).loops ≡ []
  stopped_ends stops = left_by_rounds ∙ (ap (λ b. kept b d.loops) stops ∙ none_kept d.loops)

-- If the process is not stopping, its loops have different numbers below the next one and none is
-- marked to stop, then after `applyConcurrency` and one more round of each loop exactly as many
-- loops are left as the settings say, whether the concurrency went up or down.
pub concurrency_settles :
    (d : Daemon)
    → AreDifferent (numbers d.loops)
    → AreBelow d.started (numbers d.loops)
    → staying d.loops ≡ length d.loops
    → d.stopping ≡ false
    → length (rounds (numbers (apply_concurrency d).loops) (apply_concurrency d)).loops
      ≡ concurrency_of d.worker.settings
unfolding apply_concurrency
concurrency_settles d different below unmarked on =
    let target = concurrency_of d.worker.settings in
    let all = adjust target d.started d.loops in
    ap length (
      left_by_rounds (apply_concurrency d)
        (AreDifferent-adjust target d.started d.loops different below))
    ∙ (ap (λ b. length (kept b all)) on
        ∙ (length-kept all ∙ (adjust_reaches target d.started d.loops unmarked).0))

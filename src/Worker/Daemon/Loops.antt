-- ===== src/Worker/Daemon/Loops.antt =====
-- How many loops go on after a change of the concurrency.
use samdi.Common.{
  ℕ, zero, suc, ◌+◌, ◌-◌, ◌≤◌, ◌≡◌, refl, ap, ◌∙◌, List, [], ◌∷◌, ◌++◌, map, arith, length,
  take_all, length-map, take, drop, length-append,
}
use samdi.Worker.Daemon.{Loop, new_loops, marked, grown, adjust, staying}

staying-append : (xs ys : List Loop) → staying (xs ++ ys) ≡ staying xs + staying ys
staying-append [] ys = omega arith
staying-append (x ∷ xs) ys = ground (arith, staying-append xs ys)

staying-marked : (xs : List Loop) → staying (map marked xs) ≡ 0
staying-marked [] = refl
staying-marked (x ∷ xs) = staying-marked xs

staying-new_loops : (n number : ℕ) → staying (new_loops n number) ≡ n
staying-new_loops zero number = refl
staying-new_loops (suc n) number = ap suc (staying-new_loops n (suc number))

length-new_loops : (n number : ℕ) → length (new_loops n number) ≡ n
length-new_loops zero number = refl
length-new_loops (suc n) number = ap suc (length-new_loops n (suc number))

staying-take-le : (n : ℕ) (xs : List Loop) → staying (take n xs) ≤ n
staying-take-le zero xs = omega arith
staying-take-le (suc n) [] = omega arith
staying-take-le (suc n) (x ∷ xs) = ground (arith, staying-take-le n xs)

staying-le : (xs : List Loop) → staying xs ≤ length xs
staying-le [] = omega arith
staying-le (x ∷ xs) = ground (arith, staying-le xs)

-- With no loop marked all of the first `n` go on.
staying-take :
    (n : ℕ) (xs : List Loop) → staying xs ≡ length xs → n ≤ length xs → staying (take n xs) ≡ n
staying-take zero xs h k = refl
staying-take (suc n) [] h k = absurd (omega arith)
staying-take (suc n) (x ∷ xs) h k = ground (arith, staying-le xs, staying-take n xs)

length-take-drop : (n : ℕ) (xs : List Loop) → length (take n xs) + length (drop n xs) ≡ length xs
length-take-drop zero xs = omega arith
length-take-drop (suc n) [] = omega arith
length-take-drop (suc n) (x ∷ xs) = omega (arith, length-take-drop n xs)

length-grown :
    (target number : ℕ) (loops : List Loop)
    → length (grown target number loops) ≡ length loops + (target - length loops)
length-grown target number loops =
    length-append loops (new_loops (target - length loops) number)
    ∙ ap (λ k. length loops + k) (length-new_loops (target - length loops) number)

staying-grown :
    (target number : ℕ) (loops : List Loop)
    → staying (grown target number loops) ≡ staying loops + (target - length loops)
staying-grown target number loops =
    staying-append loops (new_loops (target - length loops) number)
    ∙ ap (λ k. staying loops + k) (staying-new_loops (target - length loops) number)

-- The loops that go on are those below the target, and the new ones.
staying-adjust :
    (target number : ℕ) (loops : List Loop)
    → staying (adjust target number loops) ≡ staying (take target (grown target number loops))
unfolding adjust
staying-adjust target number loops =
    staying-append (take target (grown target number loops))
      (map marked (drop target (grown target number loops)))
    ∙ (ap (λ k. staying (take target (grown target number loops)) + k)
          (staying-marked (drop target (grown target number loops)))
        ∙ omega arith)

length-adjust :
    (target number : ℕ) (loops : List Loop)
    → length (adjust target number loops) ≡ length loops + (target - length loops)
unfolding adjust
length-adjust target number loops =
    let all = grown target number loops in
    omega (
      arith,
      length-append (take target all) (map marked (drop target all)),
      length-map marked (drop target all),
      length-take-drop target all,
      length-grown target number loops,
    )

-- If no loop is marked to stop, after a change of the concurrency as many loops go on as the
-- target says, and the list has grown by those that were missing and lost none.
pub adjust_reaches :
    (target number : ℕ) (loops : List Loop)
    → staying loops ≡ length loops
    → (staying (adjust target number loops) ≡ target)
      × (length (adjust target number loops) ≡ length loops + (target - length loops))
adjust_reaches target number loops h =
    let all = grown target number loops in
    (
      staying-adjust target number loops
          ∙ staying-take target all
              (omega
                (arith, h, length-grown target number loops, staying-grown target number loops))
              (omega (arith, length-grown target number loops)),
      length-adjust target number loops,
    )

pub adjust_bounds :
    (target number : ℕ) (loops : List Loop)
    → (staying (adjust target number loops) ≤ target)
      × (length loops ≤ length (adjust target number loops))
adjust_bounds target number loops =
    let all = grown target number loops in
    let same = staying-adjust target number loops in
    let grows = length-adjust target number loops in
    (omega (arith, same, staying-take-le target all), omega (arith, grows))

-- If no loop is marked to stop and the concurrency is lowered and, before any loop has ended, set
-- back to the number of the loops, only the lower number of loops goes on.
pub lowered_then_raised :
    (m first second : ℕ) (loops : List Loop)
    → staying loops ≡ length loops
    → m ≤ length loops
    → staying (adjust (length loops) second (adjust m first loops)) ≡ m
lowered_then_raised m first second loops h k =
    let lowered = adjust m first loops in
    let size = length-adjust m first loops in
    let sum = staying-grown (length loops) second lowered in
    let fits = length-grown (length loops) second lowered in
    let goes = (adjust_reaches m first loops h).0 in
    staying-adjust (length loops) second lowered
    ∙ (ap staying (
          take_all (length loops) (grown (length loops) second lowered)
            (omega (arith, fits, size, k)))
        ∙ omega (arith, sum, size, goes, k))

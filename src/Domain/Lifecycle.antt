-- ===== src/Domain/Lifecycle.antt =====
-- packages/task-domain/src/state-machine.ts: the moves of the transition table, and the state
-- diagram of README.md.
use mathlib.Core.Logic.{◌↔◌}
use mathlib.Core.Bool.{false≢true}
use samdi.Common.{◌≡◌, refl, sym, true, false, arith, ◌⊎◌, inl, inr}
use samdi.Domain.{
  TaskStatus, pending, claimed, running, waiting, stalled, rejected, completed, failed, same_status,
  can_transition, is_terminal, in_flight,
}

pub same_status_iff : (s t : TaskStatus) → (same_status s t ≡ true) ↔ (s ≡ t)
same_status_iff s t = ground arith

-- The moves of the table, each once.
infix 40 ◌⟶◌ ◌⟶*◌
pub data ◌⟶◌ : TaskStatus → TaskStatus → Type 0 where
  claim : pending ⟶ claimed
  start : claimed ⟶ running
  ask_first : claimed ⟶ waiting
  refuse : claimed ⟶ rejected
  ask : running ⟶ waiting
  complete : running ⟶ completed
  fail : running ⟶ failed
  approve : waiting ⟶ running
  refuse_start : waiting ⟶ rejected
  deny : waiting ⟶ failed
  expire : {s : TaskStatus} → in_flight s ≡ true → s ⟶ stalled
  retry : stalled ⟶ pending
  abandon : stalled ⟶ failed

pub data ◌⟶*◌ : TaskStatus → TaskStatus → Type 0 where
  here : {s : TaskStatus} → s ⟶* s
  next : {s t u : TaskStatus} → s ⟶ t → t ⟶* u → s ⟶* u

ruleset edges = (
  claim, start, ask_first, refuse, ask, complete, fail, approve, refuse_start, deny, expire, retry,
  abandon,
)

pub ⟶-allowed : {s t : TaskStatus} → s ⟶ t → can_transition s t ≡ true
⟶-allowed claim = refl
⟶-allowed start = refl
⟶-allowed ask_first = refl
⟶-allowed refuse = refl
⟶-allowed ask = refl
⟶-allowed complete = refl
⟶-allowed fail = refl
⟶-allowed approve = refl
⟶-allowed refuse_start = refl
⟶-allowed deny = refl
⟶-allowed (expire {s = s} h) = expire_allowed s h
  where
    expire_allowed : (s : TaskStatus) → in_flight s ≡ true → can_transition s stalled ≡ true
    expire_allowed s h = ground arith
⟶-allowed retry = refl
⟶-allowed abandon = refl

allowed-⟶ : (s t : TaskStatus) → can_transition s t ≡ true → s ⟶ t
allowed-⟶ s t h = grind (arith, edges)

pub allowed_iff : (s t : TaskStatus) → (can_transition s t ≡ true) ↔ (s ⟶ t)
allowed_iff s t = (allowed-⟶ s t, ⟶-allowed)

-- The edges of the `stateDiagram` in README.md.
pub data IsDrawn : TaskStatus → TaskStatus → Type 0 where
  drawn_claim : IsDrawn pending claimed
  drawn_ask_first : IsDrawn claimed waiting
  drawn_start : IsDrawn claimed running
  drawn_refuse : IsDrawn claimed rejected
  drawn_approve : IsDrawn waiting running
  drawn_refuse_start : IsDrawn waiting rejected
  drawn_ask : IsDrawn running waiting
  drawn_deny : IsDrawn waiting failed
  drawn_complete : IsDrawn running completed
  drawn_fail : IsDrawn running failed
  drawn_expire : IsDrawn running stalled
  drawn_retry : IsDrawn stalled pending
  drawn_abandon : IsDrawn stalled failed

-- The moves that the diagram does not have.
abbrev pub IsUndrawn : TaskStatus → TaskStatus → Type 0
IsUndrawn s t = (t ≡ stalled) × ((s ≡ claimed) ⊎ (s ≡ waiting))

drawn : {s t : TaskStatus} → s ⟶ t → IsDrawn s t ⊎ IsUndrawn s t
drawn claim = inl drawn_claim
drawn start = inl drawn_start
drawn ask_first = inl drawn_ask_first
drawn refuse = inl drawn_refuse
drawn ask = inl drawn_ask
drawn complete = inl drawn_complete
drawn fail = inl drawn_fail
drawn approve = inl drawn_approve
drawn refuse_start = inl drawn_refuse_start
drawn deny = inl drawn_deny
drawn (expire {s = s} h) = expiry s h
  where
    expiry : (s : TaskStatus) → in_flight s ≡ true → IsDrawn s stalled ⊎ IsUndrawn s stalled
    expiry claimed h = inr (refl, inl refl)
    expiry running h = inl drawn_expire
    expiry waiting h = inr (refl, inr refl)
    expiry _ h = cc
drawn retry = inl drawn_retry
drawn abandon = inl drawn_abandon

drawn_allowed : {s t : TaskStatus} → IsDrawn s t → can_transition s t ≡ true
drawn_allowed drawn_claim = refl
drawn_allowed drawn_ask_first = refl
drawn_allowed drawn_start = refl
drawn_allowed drawn_refuse = refl
drawn_allowed drawn_approve = refl
drawn_allowed drawn_refuse_start = refl
drawn_allowed drawn_ask = refl
drawn_allowed drawn_deny = refl
drawn_allowed drawn_complete = refl
drawn_allowed drawn_fail = refl
drawn_allowed drawn_expire = refl
drawn_allowed drawn_retry = refl
drawn_allowed drawn_abandon = refl

-- `canTransition` accepts a move exactly when the state diagram of README.md has that edge, or the
-- move is the expiry of the lease of a claimed or waiting task, from `claimed` or `waiting` to
-- `stalled`.
pub can_transition_iff :
    (s t : TaskStatus) → (can_transition s t ≡ true) ↔ (IsDrawn s t ⊎ IsUndrawn s t)
can_transition_iff s t = (λ h. drawn (allowed-⟶ s t h), allowed)
  where
    allowed : IsDrawn s t ⊎ IsUndrawn s t → can_transition s t ≡ true
    allowed (inl d) = drawn_allowed d
    allowed (inr (to, inl from)) = rw (to, from) refl
    allowed (inr (to, inr from)) = rw (to, from) refl

-- A status is terminal exactly when `canTransition` accepts no move from it.
pub is_terminal_iff :
    (s : TaskStatus) → (is_terminal s ≡ true) ↔ ((t : TaskStatus) → can_transition s t ≡ false)
is_terminal_iff s = (λ h t. no_exit s t h, closed s)
  where
    no_exit : (s t : TaskStatus) → is_terminal s ≡ true → can_transition s t ≡ false
    no_exit s t h = ground arith

    closed :
        (s : TaskStatus) → ((t : TaskStatus) → can_transition s t ≡ false) → is_terminal s ≡ true
    closed pending h = cc (h claimed)
    closed claimed h = cc (h running)
    closed running h = cc (h waiting)
    closed waiting h = cc (h running)
    closed stalled h = cc (h pending)
    closed _ h = refl

-- From every status that is not terminal some path of allowed moves leads to `completed`.
pub ⟶*-completed : (s : TaskStatus) → is_terminal s ≡ false → s ⟶* completed
⟶*-completed pending h = search (here, next, edges)
⟶*-completed claimed h = search (here, next, edges)
⟶*-completed running h = search (here, next, edges)
⟶*-completed waiting h = search (here, next, edges)
⟶*-completed stalled h = search (here, next, edges)
⟶*-completed _ h = absurd (false≢true (sym h))

pub ⟶*-trans : {s t u : TaskStatus} → s ⟶* t → t ⟶* u → s ⟶* u
⟶*-trans here q = q
⟶*-trans (next e p) q = next e (⟶*-trans p q)

-- A terminal state leads nowhere.
pub terminal-⟶* : {s t : TaskStatus} → is_terminal s ≡ true → s ⟶* t → t ≡ s
terminal-⟶* h here = refl
terminal-⟶* {s} h (next {t = t} e p) = cc ((is_terminal_iff s).0 h t, ⟶-allowed e)

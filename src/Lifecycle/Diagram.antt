-- ===== src/Lifecycle/Diagram.antt =====
-- The diagram of the statuses of an extract. `none` is an extract that does not exist yet. A run
-- that was cancelled after its last look at the cancellation set overwrites the status, so the
-- diagram has edges from CANCELLED to the ends of a run.
use data_nexus.Prelude.{ℕ, ◌≤◌, ◌<◌, Option, none, some, arith}
use data_nexus.Models.Enums.{ExtractStatus}

-- How a run ends that was not cancelled in time.
pub data IsEnd : ExtractStatus → Type 0 where
  completed_end : IsEnd ExtractStatus.completed
  partial_end : IsEnd ExtractStatus.partial
  failed_end : IsEnd ExtractStatus.failed

infix 40 ◌⟶◌ ◌⟶*◌
pub data ◌⟶◌ : Option ExtractStatus → Option ExtractStatus → Type 0 where
  create : none ⟶ some ExtractStatus.accepted
  start : some ExtractStatus.accepted ⟶ some ExtractStatus.running
  withdraw : some ExtractStatus.accepted ⟶ some ExtractStatus.cancelled
  cancel : some ExtractStatus.running ⟶ some ExtractStatus.cancelled
  finish : {st : ExtractStatus} → IsEnd st → some ExtractStatus.running ⟶ some st
  overrule : {st : ExtractStatus} → IsEnd st → some ExtractStatus.cancelled ⟶ some st
  expire_completed : some ExtractStatus.completed ⟶ some ExtractStatus.expired
  expire_partial : some ExtractStatus.partial ⟶ some ExtractStatus.expired

pub data ◌⟶*◌ : Option ExtractStatus → Option ExtractStatus → Type 0 where
  here : {a : Option ExtractStatus} → a ⟶* a
  then : {a b c : Option ExtractStatus} → a ⟶ b → b ⟶* c → a ⟶* c

pub one : {a b : Option ExtractStatus} → a ⟶ b → a ⟶* b
one e = ◌⟶*◌.then e ◌⟶*◌.here

pub ⟶*-trans : {a b c : Option ExtractStatus} → a ⟶* b → b ⟶* c → a ⟶* c
⟶*-trans ◌⟶*◌.here more = more
⟶*-trans (◌⟶*◌.then e rest) more = ◌⟶*◌.then e (⟶*-trans rest more)

-- How far an extract has come.
unfoldable pub rank : Option ExtractStatus → ℕ
rank none = 0
rank (some ExtractStatus.accepted) = 1
rank (some ExtractStatus.running) = 2
rank (some ExtractStatus.cancelled) = 3
rank (some ExtractStatus.completed) = 4
rank (some ExtractStatus.partial) = 4
rank (some ExtractStatus.failed) = 4
rank (some ExtractStatus.expired) = 5

pub ⟶-rank : {a b : Option ExtractStatus} → a ⟶ b → rank a < rank b
unfolding rank
⟶-rank ◌⟶◌.create = omega arith
⟶-rank ◌⟶◌.start = omega arith
⟶-rank ◌⟶◌.withdraw = omega arith
⟶-rank ◌⟶◌.cancel = omega arith
⟶-rank (◌⟶◌.finish IsEnd.completed_end) = omega arith
⟶-rank (◌⟶◌.finish IsEnd.partial_end) = omega arith
⟶-rank (◌⟶◌.finish IsEnd.failed_end) = omega arith
⟶-rank (◌⟶◌.overrule IsEnd.completed_end) = omega arith
⟶-rank (◌⟶◌.overrule IsEnd.partial_end) = omega arith
⟶-rank (◌⟶◌.overrule IsEnd.failed_end) = omega arith
⟶-rank ◌⟶◌.expire_completed = omega arith
⟶-rank ◌⟶◌.expire_partial = omega arith

-- Along the diagram an extract never comes back to where it was.
pub ⟶*-rank : {a b : Option ExtractStatus} → a ⟶* b → rank a ≤ rank b
⟶*-rank ◌⟶*◌.here = omega arith
⟶*-rank (◌⟶*◌.then e rest) = omega (arith, ⟶-rank e, ⟶*-rank rest)

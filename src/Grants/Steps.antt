-- ===== src/Grants/Steps.antt =====
-- Sequences of the steps that requests take on the grant registry, in any order. A step that
-- claims a unit names the record that its request holds, which need not be in the registry.
use serctl.Common.{Bytes, ok, err, [], Result, ℕ, List, if◌then◌else◌, Bool, ◌∷◌, ◌==◌, ◌+◌}
use serctl.Grants.Registry.{GrantRegistryState, GrantRecord, prune_locked}
use serctl.Grants.Issue.{Authority, IssueRequest, issue_grant}
use serctl.Grants.Defs.{V6RequestPrelude, GrantError, Signatures}
use serctl.Grants.Requests.{admit, claim_unit}

pub data GrantStep : Type 0 where
  issue_step : Authority → V6RequestPrelude → IssueRequest → Bytes → ℕ → ℕ → GrantStep
  prune_step : ℕ → GrantStep
  admit_step : Bytes → V6RequestPrelude → Bool → ℕ → ℕ → ℕ → GrantStep
  claim_step : Bytes → GrantRecord → Bool → ℕ → GrantStep

unfoldable pub succeeded : {T : Type 0} → Result GrantError T → ℕ
succeeded (ok t) = 1
succeeded (err e) = 0

module _ (instant_limit : ℕ) (S : Signatures) where
  unfoldable pub step : GrantStep → GrantRegistryState → GrantRegistryState
  step (issue_step A p q id now_ms now) s = (issue_grant instant_limit A p q id now_ms now s).1
  step (prune_step now) s = prune_locked instant_limit now s
  step (admit_step id p bound l c n) s = (admit instant_limit S id p bound l c n s).1
  step (claim_step id r recorded now) s = (claim_unit instant_limit id r recorded now s).1

  unfoldable pub run_steps : List GrantStep → GrantRegistryState → GrantRegistryState
  run_steps [] s = s
  run_steps (e ∷ es) s = run_steps es (step e s)

  -- The units that a step takes from the counter of a record.
  unfoldable pub spent_by : ℕ → GrantStep → GrantRegistryState → ℕ
  unfolding succeeded
  spent_by c (issue_step A p q id now_ms now) s = 0
  spent_by c (prune_step now) s = 0
  spent_by c (admit_step id p bound l ch n) s = 0
  spent_by c (claim_step id r recorded now) s =
      if r.cell == c then succeeded (claim_unit instant_limit id r recorded now s).0 else 0

  unfoldable pub spends : ℕ → List GrantStep → GrantRegistryState → ℕ
  unfolding spent_by step
  spends c [] s = 0
  spends c (e ∷ es) s = spent_by c e s + spends c es (step e s)

-- ===== src/Grants/Budget.antt =====
-- The counters of the grants over any sequence of steps.
use serctl.Common.{
  Bytes, ok, inl, inr, [], ℕ, ◌≡◌, arith, ◌<◌, Bool, List, ◌≤◌, Result-cases, if◌then◌else◌, ◌+◌,
  ◌==◌, ◌∷◌, suc,
}
use serctl.Grants.Registry.{
  GrantRegistryState, GrantRecord, insert_grant, mark_terminal_if_same, insert_pruned,
  GrantTerminalKind, spend_budget, ProfileEntry, lookup, expired_kind, exhausted_kind, prune_locked,
  new_record,
}
use serctl.Grants.Issue.{issue_grant, Authority, IssueRequest, issue_grant_unregistered}
use serctl.Grants.Requests.{admit, claim_unit, admit_record, lookup_error}
use serctl.Grants.Defs.{Signatures, OperationGrant, V6RequestPrelude}
use serctl.Grants.Steps.{
  step, spends, succeeded, spent_by, run_steps, GrantStep, issue_step, prune_step, admit_step,
  claim_step,
}
use serctl.Grants.Prune.{prune-counters}

module _ (instant_limit : ℕ) where
  mark-counters :
      (id : Bytes) (r : GrantRecord) (kind : GrantTerminalKind) (now : ℕ) (s : GrantRegistryState)
      → ((mark_terminal_if_same instant_limit id r kind now s).remaining ≡ s.remaining)
        × ((mark_terminal_if_same instant_limit id r kind now s).next_cell ≡ s.next_cell)
  unfolding mark_terminal_if_same
  mark-counters id r kind now s = ground (arith, prune-counters instant_limit now s)

  insert-counters :
      (g : OperationGrant) (entry : ProfileEntry) (now : ℕ) (s : GrantRegistryState) (c : ℕ)
      → c < s.next_cell
      → ((insert_grant instant_limit g entry now s).1.remaining c ≡ s.remaining c)
        × (s.next_cell ≤ (insert_grant instant_limit g entry now s).1.next_cell)
  unfolding insert_grant insert_pruned
  insert-counters g entry now s c h = ground (arith, prune-counters instant_limit now s)

  issue-counters :
      (A : Authority) (p : V6RequestPrelude) (q : IssueRequest) (id : Bytes) (now_ms now : ℕ)
      (s : GrantRegistryState) (c : ℕ)
      → c < s.next_cell
      → ((issue_grant instant_limit A p q id now_ms now s).1.remaining c ≡ s.remaining c)
        × (s.next_cell ≤ (issue_grant instant_limit A p q id now_ms now s).1.next_cell)
  unfolding issue_grant
  issue-counters A p q id now_ms now s c h =
      elim (Result-cases (issue_grant_unregistered A p q id now_ms)) [
        | inl (e, k) ↦ ground arith
        | inr ((g, entry), k) ↦ ground (arith, insert-counters g entry now s c h)
      ]

  admit-counters :
      (S : Signatures) (id : Bytes) (p : V6RequestPrelude) (bound : Bool) (l c n : ℕ)
      (s : GrantRegistryState)
      → ((admit instant_limit S id p bound l c n s).1.remaining ≡ s.remaining)
        × ((admit instant_limit S id p bound l c n s).1.next_cell ≡ s.next_cell)
  unfolding admit admit_record lookup
  admit-counters S id p bound l c n s =
      elim (Result-cases (lookup_error (lookup instant_limit id l s).0)) [
        | inl (e, k) ↦ ground (arith, prune-counters instant_limit l s)
        | inr (r, k) ↦ ground (
          arith,
          prune-counters instant_limit l s,
          mark-counters id r expired_kind c (prune_locked instant_limit l s),
        )
      ]

  claim-counters :
      (id : Bytes) (r : GrantRecord) (recorded : Bool) (now : ℕ) (s : GrantRegistryState) (c : ℕ)
      → (((if r.cell == c then succeeded (claim_unit instant_limit id r recorded now s).0 else 0)
            + (claim_unit instant_limit id r recorded now s).1.remaining c)
          ≡ s.remaining c)
        × ((claim_unit instant_limit id r recorded now s).1.next_cell ≡ s.next_cell)
  unfolding claim_unit spend_budget succeeded
  claim-counters id r recorded now s c =
      ground (arith, mark-counters id r exhausted_kind now (spend_budget r s).1)

module _ (instant_limit : ℕ) (S : Signatures) where
  step-counters :
      (e : GrantStep) (s : GrantRegistryState) (c : ℕ)
      → c < s.next_cell
      → ((spent_by instant_limit S c e s + (step instant_limit S e s).remaining c) ≡ s.remaining c)
        × (s.next_cell ≤ (step instant_limit S e s).next_cell)
  unfolding step spent_by
  step-counters (issue_step A p q id now_ms now) s c h =
      ground (arith, issue-counters instant_limit A p q id now_ms now s c h)
  step-counters (prune_step now) s c h = ground (arith, prune-counters instant_limit now s)
  step-counters (admit_step id p bound l ch n) s c h =
      ground (arith, admit-counters instant_limit S id p bound l ch n s)
  step-counters (claim_step id r recorded now) s c h =
      ground (arith, claim-counters instant_limit id r recorded now s c)

  -- The units that any sequence of steps takes from the counter of an allocated record, together
  -- with those that remain, are the units that remained before.
  pub spends-conserved :
      (es : List GrantStep) (s : GrantRegistryState) (c : ℕ)
      → c < s.next_cell
      → spends instant_limit S c es s + (run_steps instant_limit S es s).remaining c ≡ s.remaining c
  unfolding spends run_steps
  spends-conserved [] s c h = omega arith
  spends-conserved (e ∷ es) s c h = omega (
    arith,
    step-counters e s c h,
    spends-conserved es (step instant_limit S e s) c (omega (arith, h, step-counters e s c h)),
  )

  insert-allocates :
      (g : OperationGrant) (entry : ProfileEntry) (now : ℕ) (s : GrantRegistryState)
      → (insert_grant instant_limit g entry now s).0 ≡ ok tt
      → ((insert_grant instant_limit g entry now s).1.remaining s.next_cell ≡ g.budget)
        × ((insert_grant instant_limit g entry now s).1.next_cell ≡ suc s.next_cell)
  unfolding insert_grant insert_pruned new_record
  insert-allocates g entry now s h = ground (arith, prune-counters instant_limit now s)

  -- When a grant has been registered, the requests of any sequence of steps spend at most its
  -- budget on it, whether or not the registry still holds the record.
  pub spends-budget :
      (g : OperationGrant) (entry : ProfileEntry) (now : ℕ) (s : GrantRegistryState)
      (es : List GrantStep)
      → (insert_grant instant_limit g entry now s).0 ≡ ok tt
      → spends instant_limit S s.next_cell es (insert_grant instant_limit g entry now s).1
        ≤ g.budget
  spends-budget g entry now s es h =
      let t = (insert_grant instant_limit g entry now s).1 in
      let made = insert-allocates g entry now s h in
      omega (arith, made, spends-conserved es t s.next_cell (omega (arith, made)))

-- ===== src/Registries/Caps.antt =====
-- crates/serctl_daemon/src/daemon.rs: what the two registries do alike with their records. Finished
-- records are counted, and the oldest of them removed, in the order in which they finished.
use serctl.Common.{
  Bytes, Map, zero, suc, none, some, true, false, [], Option, Bool, remove, ℕ, if◌then◌else◌,
  bytes_ltb, ◌∷◌, ◌==◌, ◌+◌, ltb,
}

-- `cmp` of two `Option<usize>` is less, or equal and the rest decides.
unfoldable pub order_before : Option ℕ → Option ℕ → Bool → Bool
order_before none none rest = rest
order_before none (some b) rest = true
order_before (some a) none rest = false
order_before (some a) (some b) rest = if a == b then rest else ltb a b

module _ {R : Type 0} where
  -- `values().filter(…).count()`
  unfoldable pub count : (R → Bool) → Map R → ℕ
  count p [] = 0
  count p ((k, r) ∷ m) = (if p r then 1 else 0) + count p m

  module _ (finished_order : R → Option ℕ) where
    -- The order of `Option<usize>`, then that of the id.
    unfoldable pub is_before : Bytes × R → Bytes × R → Bool
    unfolding order_before bytes_ltb
    is_before a b = order_before (finished_order a.1) (finished_order b.1) (bytes_ltb a.0 b.0)

    -- `iter().filter(…).min_by(…)`
    unfoldable pub oldest : (R → Bool) → Map R → Option (Bytes × R)
    unfolding is_before
    oldest p [] = none
    oldest p (e ∷ m) =
        let best = oldest p m in
        if p e.1
        then elim best [ none ↦ some e | some b ↦ if is_before b e then some b else some e ]
        else best

    -- `remove_oldest_finished_locked` on the records that pass, and the map after it.
    unfoldable pub remove_oldest : (R → Bool) → Map R → Option (Map R)
    unfolding oldest remove
    remove_oldest p m = elim (oldest p m) [ none ↦ none | some e ↦ some (remove e.0 m) ]

    -- One `while` loop of `enforce_finished_caps_locked`. Each round removes a record, so the
    -- number of records is enough fuel.
    unfoldable pub enforce_cap : ℕ → (R → Bool) → ℕ → Map R → Map R
    unfolding count remove_oldest
    enforce_cap limit p zero m = m
    enforce_cap limit p (suc fuel) m =
        let next : Map R = elim (remove_oldest p m) [
          | none ↦ m
          | some shorter ↦ enforce_cap limit p fuel shorter
        ] in
        if ltb limit (count p m) then next else m

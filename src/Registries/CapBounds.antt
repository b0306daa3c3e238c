-- ===== src/Registries/CapBounds.antt =====
-- The `while` loops that remove finished records end within their cap and leave other records.
use serctl.Common.{
  [], ◌∷◌, Bytes, Map, suc, some, true, inl, inr, [], Option, remove, Bool, ℕ, ◌≤◌, get, ◌≡◌, arith,
  length, IsMap, Bool-cases, Option-cases, subst, bytes_eq, bytes_eq_refl, ap, bytes_eq_iff, zero,
  false, sym, IsMap-remove, get-remove, ◌+◌, ◌⊎◌, ltb,
}
use serctl.Registries.Caps.{count, oldest, is_before, enforce_cap, remove_oldest}

module _ {R : Type 0} where
  pub count-remove : (p : R → Bool) (k : Bytes) (m : Map R) → count p (remove k m) ≤ count p m
  unfolding count remove
  count-remove p k [] = omega arith
  count-remove p k ((j, r) ∷ m) = ground (arith, count-remove p k m)

  pub count-remove_present :
      (p : R → Bool) (k : Bytes) (r : R) (m : Map R)
      → get k m ≡ some r
      → p r ≡ true
      → suc (count p (remove k m)) ≤ count p m
  unfolding count remove get
  count-remove_present p k r [] h e = ground arith
  count-remove_present p k r ((j, s) ∷ m) h e = elim (Bool-cases (bytes_eq j k)) [
    | inl i ↦ let same : s ≡ r = ground arith in ground (arith, count-remove p k m, ap p same)
    | inr i ↦ ground (arith, count-remove_present p k r m)
  ]

  pub count-length : (p : R → Bool) (m : Map R) → count p m ≤ length m
  unfolding count
  count-length p [] = omega arith
  count-length p ((k, r) ∷ m) = ground (arith, count-length p m)

  -- The other passes only where the one does.
  pub count_mono :
      (p q : R → Bool) (m : Map R) → ((r : R) → p r ≡ true → q r ≡ true) → count p m ≤ count q m
  unfolding count
  count_mono p q [] h = omega arith
  count_mono p q ((k, r) ∷ m) h = ground (arith, h r, count_mono p q m h)

  module _ (finished_order : R → Option ℕ) where
    oldest-some :
        (p : R → Bool) (m : Map R)
        → 1 ≤ count p m
        → (e : Bytes × R) × (oldest finished_order p m ≡ some e)
    unfolding oldest count
    oldest-some p [] h = ground arith
    oldest-some p ((k, r) ∷ m) h = elim (Option-cases (oldest finished_order p m)) [
      | inl n ↦ elim (Bool-cases (p r)) [
        | inl i ↦ ((k, r), ground arith)
        | inr i ↦ let (e, found) = oldest-some p m (ground arith) in ground arith
      ]
      | inr (b, n) ↦ elim (Bool-cases (p r)) [
        | inl i ↦ elim (Bool-cases (is_before finished_order b (k, r))) [
          | inl j ↦ (b, ground arith)
          | inr j ↦ ((k, r), ground arith)
        ]
        | inr i ↦ (b, ground arith)
      ]
    ]

    oldest-get :
        (p : R → Bool) (m : Map R) (e : Bytes × R)
        → IsMap m
        → oldest finished_order p m ≡ some e
        → (get e.0 m ≡ some e.1) × (p e.1 ≡ true)
    unfolding oldest get
    oldest-get p [] e im h = ground arith
    oldest-get p ((k, r) ∷ m) e im h = elim (Bool-cases (p r)) [
      | inr i ↦ kept e (oldest-get p m e im.1 (ground arith))
      | inl i ↦ elim (Option-cases (oldest finished_order p m)) [
        | inl n ↦ first e (ground arith) i
        | inr (b, n) ↦ elim (Bool-cases (is_before finished_order b (k, r))) [
          | inl j ↦ let same : b ≡ e = ground arith in kept e (oldest-get p m e im.1 (cc (n, same)))
          | inr j ↦ first e (ground arith) i
        ]
      ]
    ]
      where
        first :
            (e : Bytes × R)
            → (k, r) ≡ e
            → p r ≡ true
            → (get e.0 ((k, r) ∷ m) ≡ some e.1) × (p e.1 ≡ true)
        first e same i =
            subst (λ x. (get x.0 ((k, r) ∷ m) ≡ some x.1) × (p x.1 ≡ true)) same
              (ground (arith, bytes_eq_refl k), i)

        kept :
            (e : Bytes × R)
            → (get e.0 m ≡ some e.1) × (p e.1 ≡ true)
            → (get e.0 ((k, r) ∷ m) ≡ some e.1) × (p e.1 ≡ true)
        kept e (found, passes) =
            (ground (arith, bytes_eq_iff k e.0, ap (λ (j : Bytes). get j m)), passes)

    enforce_cap-step :
        (limit : ℕ) (p : R → Bool) (fuel : ℕ) (m : Map R)
        → ((enforce_cap finished_order limit p (suc fuel) m ≡ m) × (count p m ≤ limit))
          ⊎ ((e : Bytes × R) × (oldest finished_order p m ≡ some e)
              × (enforce_cap finished_order limit p (suc fuel) m
                  ≡ enforce_cap finished_order limit p fuel (remove e.0 m)))
    unfolding enforce_cap remove_oldest
    enforce_cap-step limit p fuel m = elim (Bool-cases (ltb limit (count p m))) [
      | inr i ↦ inl (ground arith, ground arith)
      | inl i ↦
          let (e, found) = oldest-some p m (ground arith) in inr (e, found, ground (arith, found))
    ]

    -- What every removal of a record that passes keeps, the loop keeps.
    pub enforce_cap-keeps {κ} :
        (Q : Map R → Type κ) (limit : ℕ) (p : R → Bool) (fuel : ℕ) (m : Map R)
        → ((n : Map R) (e : Bytes × R)
            → IsMap n
            → Q n
            → get e.0 n ≡ some e.1
            → p e.1 ≡ true
            → Q (remove e.0 n))
        → IsMap m
        → Q m
        → Q (enforce_cap finished_order limit p fuel m)
    unfolding enforce_cap
    enforce_cap-keeps Q limit p zero m step im q = q
    enforce_cap-keeps Q limit p (suc fuel) m step im q = elim (enforce_cap-step limit p fuel m) [
      | inl (same, small) ↦ subst Q (sym same) q
      | inr (e, found, shorter) ↦
          let (at, passes) = oldest-get p m e im found in
          subst Q (sym shorter) (
            enforce_cap-keeps Q limit p fuel (remove e.0 m) step (IsMap-remove e.0 m im)
              (step m e im q at passes))
    ]

    pub enforce_cap-IsMap :
        (limit : ℕ) (p : R → Bool) (fuel : ℕ) (m : Map R)
        → IsMap m
        → IsMap (enforce_cap finished_order limit p fuel m)
    enforce_cap-IsMap limit p fuel m im =
        enforce_cap-keeps (λ n. IsMap n) limit p fuel m (λ n e i q at passes. IsMap-remove e.0 n i)
          im im

    pub count-enforce_cap :
        (q : R → Bool) (limit : ℕ) (p : R → Bool) (fuel : ℕ) (m : Map R)
        → IsMap m
        → count q (enforce_cap finished_order limit p fuel m) ≤ count q m
    count-enforce_cap q limit p fuel m im =
        enforce_cap-keeps (λ n. count q n ≤ count q m) limit p fuel m
          (λ n e i h at passes. omega (arith, h, count-remove q e.0 n)) im (omega arith)

    pub get-enforce_cap :
        (limit : ℕ) (p : R → Bool) (fuel : ℕ) (m : Map R) (k : Bytes) (r : R)
        → IsMap m
        → get k m ≡ some r
        → p r ≡ false
        → get k (enforce_cap finished_order limit p fuel m) ≡ some r
    get-enforce_cap limit p fuel m k r im h out =
        enforce_cap-keeps (λ n. get k n ≡ some r) limit p fuel m
          (λ n e i q at passes. keep n e q at passes) im h
      where
        keep :
            (n : Map R) (e : Bytes × R)
            → get k n ≡ some r
            → get e.0 n ≡ some e.1
            → p e.1 ≡ true
            → get k (remove e.0 n) ≡ some r
        keep n e q at passes = elim (Bool-cases (bytes_eq e.0 k)) [
          | inr i ↦ ground (arith, get-remove e.0 k n)
          | inl i ↦
              let same = (bytes_eq_iff e.0 k).0 i in
              let one : e.1 ≡ r = cc (ap (λ (j : Bytes). get j n) same, q, at) in
              cc (ap p one, passes, out)
        ]

    pub enforce_cap-get :
        (limit : ℕ) (p : R → Bool) (fuel : ℕ) (m : Map R) (k : Bytes) (r : R)
        → IsMap m
        → get k (enforce_cap finished_order limit p fuel m) ≡ some r
        → get k m ≡ some r
    enforce_cap-get limit p fuel m k r im =
        enforce_cap-keeps (λ n. get k n ≡ some r → get k m ≡ some r) limit p fuel m
          (λ n e i h at passes after. h (ground (arith, get-remove e.0 k n))) im (λ h. h)

    -- With fuel for each record above the limit, the loop ends within it.
    pub enforce_cap-count :
        (limit : ℕ) (p : R → Bool) (fuel : ℕ) (m : Map R)
        → IsMap m
        → count p m ≤ limit + fuel
        → count p (enforce_cap finished_order limit p fuel m) ≤ limit
    unfolding enforce_cap
    enforce_cap-count limit p zero m im h = omega (arith, h)
    enforce_cap-count limit p (suc fuel) m im h = elim (enforce_cap-step limit p fuel m) [
      | inl (same, small) ↦ subst (λ n. count p n ≤ limit) (sym same) small
      | inr (e, found, shorter) ↦
          let (at, passes) = oldest-get p m e im found in
          subst (λ n. count p n ≤ limit) (sym shorter)
            (enforce_cap-count limit p fuel (remove e.0 m) (IsMap-remove e.0 m im)
              (omega (arith, h, count-remove_present p e.0 e.1 m at passes)))
    ]

-- ===== src/Common/Sets.antt =====
-- A `BTreeSet` as the ascending list of its elements, ordered by a key of bytes.
use mathlib.Core.Path.{◌≡◌, refl, sym, ap, subst, ◌∙◌}
use mathlib.Core.Bool.{Bool, true, false, ◌||◌}
use mathlib.Core.Logic.{inl, inr}
use mathlib.Core.List.{List, [], ◌∷◌}
use native.Mathlib.Omega.{arith}
use serctl.Common.Tests.{◌==◌, ltb, if◌then◌else◌, Bool-cases}
use serctl.Common.Lists.{all}
use serctl.Common.Encoding.{Bytes, bytes_eq, bytes_eq_iff, bytes_eq_refl}

-- The derived order of byte strings: the first difference decides.
unfoldable pub bytes_ltb : Bytes → Bytes → Bool
bytes_ltb [] [] = false
bytes_ltb [] (_ ∷ _) = true
bytes_ltb (_ ∷ _) [] = false
bytes_ltb (x ∷ a) (y ∷ b) = let rest = bytes_ltb a b in if x == y then rest else ltb x y

bytes_ltb_irreflexive : (a : Bytes) → bytes_ltb a a ≡ false
unfolding bytes_ltb
bytes_ltb_irreflexive [] = refl
bytes_ltb_irreflexive (x ∷ a) = ground (arith, bytes_ltb_irreflexive a)

pub bytes_ltb_trans :
    (a b c : Bytes) → bytes_ltb a b ≡ true → bytes_ltb b c ≡ true → bytes_ltb a c ≡ true
unfolding bytes_ltb
bytes_ltb_trans [] [] c h k = ground arith
bytes_ltb_trans [] (y ∷ b) [] h k = ground arith
bytes_ltb_trans [] (y ∷ b) (z ∷ c) h k = refl
bytes_ltb_trans (x ∷ a) [] c h k = ground arith
bytes_ltb_trans (x ∷ a) (y ∷ b) [] h k = ground arith
bytes_ltb_trans (x ∷ a) (y ∷ b) (z ∷ c) h k = ground (arith, bytes_ltb_trans a b c)

bytes_ltb_total :
    (a b : Bytes) → bytes_ltb a b ≡ false → bytes_ltb b a ≡ false → bytes_eq a b ≡ true
unfolding bytes_ltb bytes_eq
bytes_ltb_total [] [] h k = refl
bytes_ltb_total [] (y ∷ b) h k = ground arith
bytes_ltb_total (x ∷ a) [] h k = ground arith
bytes_ltb_total (x ∷ a) (y ∷ b) h k = ground (arith, bytes_ltb_total a b)

module _ {ℓ} {A : Type ℓ} (key : A → Bytes) where
  unfoldable pub set_contains : A → List A → Bool
  set_contains a [] = false
  set_contains a (b ∷ s) = bytes_eq (key b) (key a) || set_contains a s

  -- An element that is there already stays.
  unfoldable pub set_insert : A → List A → List A
  unfolding bytes_ltb
  set_insert a [] = a ∷ []
  set_insert a (b ∷ s) =
      let rest = set_insert a s in
      if bytes_ltb (key a) (key b)
      then a ∷ b ∷ s
      else if bytes_ltb (key b) (key a)
      then b ∷ rest
      else b ∷ s

  unfoldable pub set_remove : A → List A → List A
  set_remove a [] = []
  set_remove a (b ∷ s) =
      let rest = set_remove a s in if bytes_eq (key b) (key a) then rest else b ∷ rest

  -- `collect` of an iterator
  unfoldable pub set_collect : List A → List A
  unfolding set_insert
  set_collect [] = []
  set_collect (a ∷ l) = set_insert a (set_collect l)

  unfoldable pub is_subset : List A → List A → Bool
  unfolding set_contains
  is_subset s t = all (λ a. set_contains a t) s

  pub contains-set_insert :
      (a b : A) (s : List A)
      → set_contains a (set_insert b s) ≡ (bytes_eq (key b) (key a) || set_contains a s)
  unfolding set_contains set_insert
  contains-set_insert a b [] = ground arith
  contains-set_insert a b (c ∷ s) = ground (
    arith,
    contains-set_insert a b s,
    bytes_ltb_total (key b) (key c),
    bytes_eq_iff (key b) (key c),
    bytes_eq_iff (key c) (key a),
  )

  pub contains-set_remove :
      (a b : A) (s : List A)
      → set_contains a (set_remove b s)
        ≡ (if bytes_eq (key b) (key a) then false else set_contains a s)
  unfolding set_contains set_remove
  contains-set_remove a b [] = ground arith
  contains-set_remove a b (c ∷ s) = ground (
    arith,
    contains-set_remove a b s,
    bytes_eq_iff (key c) (key b),
    bytes_eq_iff (key c) (key a),
    bytes_eq_iff (key b) (key a),
  )

  pub contains-set_collect :
      (a : A) (l : List A) → set_contains a (set_collect l) ≡ set_contains a l
  unfolding set_contains set_collect
  contains-set_collect a [] = refl
  contains-set_collect a (b ∷ l) =
      ground (arith, contains-set_insert a b (set_collect l), contains-set_collect a l)

  pub is_subset-contains :
      (s t : List A) (a : A)
      → is_subset s t ≡ true
      → set_contains a s ≡ true
      → (b : A) × (key b ≡ key a) × (set_contains b t ≡ true)
  unfolding is_subset set_contains
  is_subset-contains [] t a h k = ground arith
  is_subset-contains (b ∷ s) t a h k = elim (Bool-cases (bytes_eq (key b) (key a))) [
    | inl e ↦ (b, (bytes_eq_iff (key b) (key a)).0 (ground arith), ground arith)
    | inr e ↦ is_subset-contains s t a (ground arith) (ground arith)
  ]

  -- Every element of the list is above `k`, and they ascend.
  abbrev pub Above : Bytes → List A → Type 0
  Above k [] = Unit
  Above k (a ∷ s) = (bytes_ltb k (key a) ≡ true) × Above (key a) s

  abbrev pub IsAscending : List A → Type 0
  IsAscending [] = Unit
  IsAscending (a ∷ s) = Above (key a) s

  Above-set_insert :
      (k : Bytes) (a : A) (s : List A)
      → bytes_ltb k (key a) ≡ true
      → Above k s
      → Above k (set_insert a s)
  unfolding set_insert
  Above-set_insert k a [] h p = (h, tt)
  Above-set_insert k a (b ∷ s) h p = elim (Bool-cases (bytes_ltb (key a) (key b))) [
    | inl e ↦ ground arith
    | inr e ↦ elim (Bool-cases (bytes_ltb (key b) (key a))) [
      | inl i ↦ ground (arith, Above-set_insert (key b) a s)
      | inr i ↦ ground arith
    ]
  ]

  pub set_insert-IsAscending : (a : A) (s : List A) → IsAscending s → IsAscending (set_insert a s)
  unfolding set_insert
  set_insert-IsAscending a [] p = tt
  set_insert-IsAscending a (b ∷ s) p = elim (Bool-cases (bytes_ltb (key a) (key b))) [
    | inl e ↦ ground arith
    | inr e ↦ elim (Bool-cases (bytes_ltb (key b) (key a))) [
      | inl i ↦ ground (arith, Above-set_insert (key b) a s)
      | inr i ↦ ground arith
    ]
  ]

  pub set_collect-IsAscending : (l : List A) → IsAscending (set_collect l)
  unfolding set_collect
  set_collect-IsAscending [] = tt
  set_collect-IsAscending (a ∷ l) =
      set_insert-IsAscending a (set_collect l) (set_collect-IsAscending l)

  Above-contains :
      (k : Bytes) (s : List A) (a : A)
      → Above k s
      → set_contains a s ≡ true
      → bytes_ltb k (key a) ≡ true
  unfolding set_contains
  Above-contains k [] a p h = ground arith
  Above-contains k (b ∷ s) a p h = ground (
    arith,
    Above-contains (key b) s a,
    bytes_eq_iff (key b) (key a),
    bytes_ltb_trans k (key b) (key a),
  )

  not-contains-Above :
      (s : List A) (a : A) (k : Bytes) → Above k s → key a ≡ k → set_contains a s ≡ false
  not-contains-Above s a k p e =
      ground (
        arith,
        Above-contains k s a p,
        bytes_ltb_irreflexive k,
        ap (λ (j : Bytes). bytes_ltb k j) e,
      )

  -- Two lists have the same elements.
  abbrev pub SameElements : List A → List A → Type ℓ
  SameElements s t = (a : A) → set_contains a s ≡ set_contains a t

  heads-agree :
      (a b : A) (s t : List A)
      → Above (key a) s
      → Above (key b) t
      → SameElements (a ∷ s) (b ∷ t)
      → key a ≡ key b
  unfolding set_contains
  heads-agree a b s t p q h = elim (Bool-cases (bytes_eq (key b) (key a))) [
    | inl e ↦ ground (arith, bytes_eq_iff (key b) (key a))
    | inr e ↦ ground (
      arith,
      h a,
      h b,
      bytes_eq_refl (key a),
      bytes_eq_refl (key b),
      bytes_eq_iff (key a) (key b),
      bytes_eq_iff (key b) (key a),
      Above-contains (key a) s b p,
      Above-contains (key b) t a q,
      bytes_ltb_trans (key a) (key b) (key a),
      bytes_ltb_irreflexive (key a),
    )
  ]

  tails-agree :
      (a b : A) (s t : List A)
      → Above (key a) s
      → Above (key b) t
      → key a ≡ key b
      → SameElements (a ∷ s) (b ∷ t)
      → SameElements s t
  unfolding set_contains
  tails-agree a b s t p q e h c = elim (Bool-cases (bytes_eq (key a) (key c))) [
    | inl i ↦
        let same = (bytes_eq_iff (key a) (key c)).0 i in
        not-contains-Above s c (key a) p (sym same)
        ∙ sym (not-contains-Above t c (key b) q (sym same ∙ e))
    | inr i ↦ ground (arith, h c, ap (λ (j : Bytes). bytes_eq j (key c)) e)
  ]

  Above-IsAscending : (k : Bytes) (s : List A) → Above k s → IsAscending s
  Above-IsAscending k [] p = tt
  Above-IsAscending k (a ∷ s) p = p.1

  -- An ascending list is determined by its elements.
  pub IsAscending-ext :
      ((a b : A) → key a ≡ key b → a ≡ b)
      → (s t : List A) → IsAscending s
      → IsAscending t
      → SameElements s t
      → s ≡ t
  unfolding set_contains
  IsAscending-ext inj [] [] p q h = refl
  IsAscending-ext inj [] (b ∷ t) p q h = ground (arith, h b, bytes_eq_refl (key b))
  IsAscending-ext inj (a ∷ s) [] p q h = ground (arith, h a, bytes_eq_refl (key a))
  IsAscending-ext inj (a ∷ s) (b ∷ t) p q h =
      let e : key a ≡ key b = heads-agree a b s t p q h in
      let rest : s ≡ t =
        IsAscending-ext inj s t (Above-IsAscending (key a) s p) (Above-IsAscending (key b) t q)
          (tails-agree a b s t p q e h) in
      cc (inj a b e, rest)

  -- Every element of the one is an element of the other.
  abbrev pub Within : List A → List A → Type ℓ
  Within s t = (a : A) → set_contains a s ≡ true → set_contains a t ≡ true

  pub contains-same_key :
      (a b : A) (s : List A) → key a ≡ key b → set_contains a s ≡ set_contains b s
  unfolding set_contains
  contains-same_key a b [] e = refl
  contains-same_key a b (c ∷ s) e =
      cc (contains-same_key a b s e, ap (λ (k : Bytes). bytes_eq (key c) k) e)

  pub is_subset-Within : (s t : List A) → is_subset s t ≡ true → Within s t
  is_subset-Within s t h a k =
      let (b, e, m) = is_subset-contains s t a h k in cc (contains-same_key b a t e, m)

  pub set_remove-Within : (a : A) (s : List A) → Within (set_remove a s) s
  set_remove-Within a s b h = ground (arith, contains-set_remove b a s)

  pub all-contains :
      ((a b : A) → key a ≡ key b → a ≡ b)
      → (p : A → Bool) (s : List A) (a : A) → all p s ≡ true
      → set_contains a s ≡ true
      → p a ≡ true
  unfolding set_contains
  all-contains inj p [] a h k = ground arith
  all-contains inj p (b ∷ s) a h k = elim (Bool-cases (bytes_eq (key b) (key a))) [
    | inl e ↦
        let same = inj b a ((bytes_eq_iff (key b) (key a)).0 e) in
        subst (λ c. p c ≡ true) same (ground arith)
    | inr e ↦ all-contains inj p s a (ground arith) (ground arith)
  ]

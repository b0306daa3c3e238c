-- ===== src/Policy/NormalForm.antt =====
-- The normal form of a path, and that normalizing it changes nothing.
use serctl.Policy.Defs.{posix, PathFlavor, max_path_bytes}
use serctl.Common.{
  refl, false, ok, inl, inr, [], Bytes, List, is_empty, ◌≡◌, length, ◌∷◌, starts_with, Result-cases,
  All, ◌≤◌, strip_prefix, arith, contains_byte, subst, has_control, List-cases, suc, true, Bool, ap,
  lit, sym, ◌∙◌,
}
use serctl.Policy.Paths.{
  posix_components, normalize_path, normalize_posix_path, nonempty, is_dots, join_slash, split,
  has_ambiguous_separator,
}
use serctl.Policy.Names.{validate_plain_text}
use serctl.Policy.Slashes.{
  NoSlash, nonempty-NoSlash, IsLocal, length-nonempty, split-NoSlash, components-IsLocal,
  nonempty_idem, join_slash-split, split-join_slash,
}
use serctl.Policy.Local.{
  contains_byte-IsLocal, has_control-IsLocal, has_ambiguous_separator-IsLocal,
}

-- A component that is not empty, is no dot component and has no slash.
abbrev pub IsComponent : Bytes → Type 0
IsComponent c = (is_empty c ≡ false) × (is_dots c ≡ false) × NoSlash c

posix_components-same : (cs out : List Bytes) → posix_components cs ≡ ok out → out ≡ cs
unfolding posix_components
posix_components-same [] out h = cc
posix_components-same (c ∷ cs) out h = elim (Result-cases (posix_components cs)) [
  | inl (e, k) ↦ ground arith
  | inr (l, k) ↦ ground (arith, posix_components-same cs l k)
]

posix_components-All :
    (cs out : List Bytes)
    → posix_components (nonempty cs) ≡ ok out
    → All NoSlash cs
    → All IsComponent out
unfolding posix_components nonempty
posix_components-All [] out h s =
    let made : ◌≡◌ {A = List Bytes} [] out = ground arith in subst (λ l. All IsComponent l) made tt
posix_components-All ([] ∷ cs) out h s = posix_components-All cs out h s.1
posix_components-All ((b ∷ c) ∷ cs) out h s = elim (Result-cases (posix_components (nonempty cs))) [
  | inl (e, k) ↦ ground arith
  | inr (l, k) ↦
      let made : ((b ∷ c) ∷ l) ≡ out = ground arith in
      subst (λ o. All IsComponent o) made
        ((refl, ground arith, s.0), posix_components-All cs l k s.1)
]

-- The text passes the checks that come before the flavor is looked at.
abbrev IsPlain : Bytes → Type 0
IsPlain v =
    (length v ≤ max_path_bytes) × (has_control v ≡ false) × (has_ambiguous_separator v ≡ false)

normalize_path-IsPlain :
    (flavor : PathFlavor) (v n : Bytes) → normalize_path flavor v ≡ ok n → IsPlain v
unfolding normalize_path validate_plain_text
normalize_path-IsPlain flavor v n h = ground arith

-- The text of an absolute path of the components.
abbrev pub posix_form : List Bytes → Bytes
posix_form [] = 47 ∷ []
posix_form (c ∷ cs) = 47 ∷ join_slash (c ∷ cs)

posix-form :
    (v n : Bytes)
    → normalize_posix_path v ≡ ok n
    → (w : Bytes) × (v ≡ (47 ∷ w))
      × (contains_byte 92 v ≡ false)
      × (posix_components (nonempty (split 47 v)) ≡ ok (nonempty (split 47 v)))
      × (n ≡ posix_form (nonempty (split 47 v)))
unfolding normalize_posix_path starts_with strip_prefix
posix-form [] n h = ground arith
posix-form (b ∷ w) n h = elim (Result-cases (posix_components (nonempty (split 47 (b ∷ w))))) [
  | inl (e, k) ↦ ground arith
  | inr (cs, k) ↦
      let same : cs ≡ nonempty (split 47 (b ∷ w)) =
        posix_components-same (nonempty (split 47 (b ∷ w))) cs k in
      elim (List-cases cs) [
        | inl i ↦ (w, ground arith, ground arith, cc (same, k), ground (arith, same))
        | inr (d, ds, i) ↦ (w, ground arith, ground arith, cc (same, k), ground (arith, same))
      ]
]

form-IsLocal :
    (p : Bytes → Bool) (cs : List Bytes) → IsLocal p → p (posix_form cs) ≡ p (join_slash cs)
unfolding join_slash
form-IsLocal p [] h = ground (arith, h.1 [] [], h.0)
form-IsLocal p (c ∷ cs) h = ground (arith, h.1 [] (join_slash (c ∷ cs)), h.0)

-- A local test says of the normal form what it says of the path.
same-test :
    (p : Bytes → Bool) (v : Bytes) → IsLocal p → p (posix_form (nonempty (split 47 v))) ≡ p v
same-test p v h = form-IsLocal p (nonempty (split 47 v)) h ∙ components-IsLocal p v h

split-posix_form :
    (cs : List Bytes)
    → All NoSlash cs
    → nonempty (split 47 (posix_form (nonempty cs))) ≡ nonempty cs
unfolding split nonempty
split-posix_form cs h = elim (List-cases (nonempty cs)) [
  | inl e ↦ rw e refl
  | inr (c, ds, e) ↦
      let clean : All NoSlash (c ∷ ds) = subst (λ l. All NoSlash l) e (nonempty-NoSlash cs h) in
      let kept : nonempty (c ∷ ds) ≡ (c ∷ ds) = sym (ap nonempty e) ∙ nonempty_idem cs ∙ e in
      rw e (ap nonempty (split-join_slash c ds clean) ∙ kept)
]

length-form : (cs : List Bytes) → length (posix_form cs) ≡ suc (length (join_slash cs))
unfolding join_slash
length-form [] = refl
length-form (c ∷ cs) = refl

shorter : (v w : Bytes) → v ≡ (47 ∷ w) → length (posix_form (nonempty (split 47 v))) ≤ length v
unfolding split nonempty
shorter v w e =
    let pieces : nonempty (split 47 v) ≡ nonempty (split 47 w) =
      ap (λ (s : Bytes). nonempty (split 47 s)) e in
    let one = length-nonempty (split 47 w) in
    let two = join_slash-split w in
    rw pieces (omega (arith, length-form (nonempty (split 47 w)), one, ap length two, ap length e))

starts_with-form : (cs : List Bytes) → starts_with (lit "/") (posix_form cs) ≡ true
unfolding starts_with strip_prefix
starts_with-form [] = refl
starts_with-form (c ∷ cs) = refl

posix-normal : (v n : Bytes) → normalize_posix_path v ≡ ok n → normalize_posix_path n ≡ ok n
unfolding normalize_posix_path
posix-normal v n h =
    let (w, e, plain, components, made) = posix-form v n h in
    let cs = nonempty (split 47 v) in
    let again : nonempty (split 47 (posix_form cs)) ≡ cs =
      split-posix_form (split 47 v) (split-NoSlash v) in
    let slash = starts_with-form cs in
    let plain' : contains_byte 92 (posix_form cs) ≡ false =
      same-test (contains_byte 92) v (contains_byte-IsLocal 92 refl) ∙ plain in
    let loop : posix_components (nonempty (split 47 (posix_form cs))) ≡ ok cs =
      ap posix_components again ∙ components in
    rw made (result cs slash plain' loop)
  where
    result :
        (cs : List Bytes)
        → starts_with (lit "/") (posix_form cs) ≡ true
        → contains_byte 92 (posix_form cs) ≡ false
        → posix_components (nonempty (split 47 (posix_form cs))) ≡ ok cs
        → normalize_posix_path (posix_form cs) ≡ ok (posix_form cs)
    result [] a b c = ground arith
    result (x ∷ cs) a b c = ground arith

-- A POSIX path that is accepted has the normal form of a slash and components joined by single
-- slashes, none of them empty, a dot or two dots. Normalizing the normal form accepts it and gives
-- it back.
pub normalize_path-posix_idem :
    (v n : Bytes)
    → normalize_path posix v ≡ ok n
    → (normalize_path posix n ≡ ok n)
      × ((cs : List Bytes) × (n ≡ posix_form cs) × All IsComponent cs)
unfolding normalize_path validate_plain_text
normalize_path-posix_idem v n h =
    let inner : normalize_posix_path v ≡ ok n = ground arith in
    let (small, plain, separators) = normalize_path-IsPlain posix v n h in
    let (w, e, slashes, components, made) = posix-form v n inner in
    let cs = nonempty (split 47 v) in
    let twice = posix-normal v n inner in
    let control : has_control n ≡ false =
      ap has_control made ∙ same-test has_control v has_control-IsLocal ∙ plain in
    let separate : has_ambiguous_separator n ≡ false =
      ap has_ambiguous_separator made
      ∙ same-test has_ambiguous_separator v has_ambiguous_separator-IsLocal
      ∙ separators in
    (
      ground (arith, shorter v w e, ap (λ (s : Bytes). length s) made),
      (cs, made, posix_components-All (split 47 v) cs components (split-NoSlash v)),
    )

-- ===== src/Policy/Slashes.antt =====
-- Texts taken apart at their slashes and joined again.
use serctl.Common.{
  refl, false, inl, inr, [], Bytes, contains_byte, ℕ, is_empty, ◌≡◌, List, Bool, ◌∷◌, ◌==◌, All,
  ◌++◌, any, ◌∙◌, length, Bool-cases, arith, ap, ◌||◌, sym, ◌≤◌, List-cases, length-append,
}
use serctl.Policy.Paths.{onto_first, split, join_slash, nonempty}

-- The piece has no slash.
abbrev pub NoSlash : Bytes → Type 0
NoSlash c = contains_byte 47 c ≡ false

onto_first-join :
    (b : ℕ) (cs : List Bytes)
    → is_empty cs ≡ false
    → join_slash (onto_first b cs) ≡ (b ∷ join_slash cs)
unfolding onto_first join_slash
onto_first-join b [] h = cc
onto_first-join b (c ∷ []) h = refl
onto_first-join b (c ∷ d ∷ cs) h = refl

split-nonempty : (s : Bytes) → is_empty (split 47 s) ≡ false
unfolding split onto_first
split-nonempty [] = refl
split-nonempty (b ∷ s) = elim (Bool-cases (b == 47)) [
  | inl e ↦ ground arith
  | inr e ↦ elim (List-cases (split 47 s)) [ inl k ↦ ground arith | inr (c, cs, k) ↦ ground arith ]
]

-- Splitting a text and joining the pieces gives it back.
pub join_slash-split : (s : Bytes) → join_slash (split 47 s) ≡ s
unfolding split join_slash
join_slash-split [] = refl
join_slash-split (b ∷ s) = elim (Bool-cases (b == 47)) [
  | inl e ↦ elim (List-cases (split 47 s)) [
    | inl k ↦ ground (arith, split-nonempty s)
    | inr (c, cs, k) ↦ ground (arith, join_slash-split s)
  ]
  | inr e ↦ ground (arith, onto_first-join b (split 47 s) (split-nonempty s), join_slash-split s)
]

onto_first-NoSlash :
    (b : ℕ) (cs : List Bytes) → (b == 47) ≡ false → All NoSlash cs → All NoSlash (onto_first b cs)
unfolding onto_first contains_byte
onto_first-NoSlash b [] e h = ground arith
onto_first-NoSlash b (c ∷ cs) e h = ground arith

pub split-NoSlash : (s : Bytes) → All NoSlash (split 47 s)
unfolding split contains_byte
split-NoSlash [] = ground arith
split-NoSlash (b ∷ s) = ground (arith, split-NoSlash s, onto_first-NoSlash b (split 47 s))

split-piece : (c : Bytes) → NoSlash c → split 47 c ≡ (c ∷ [])
unfolding split onto_first contains_byte
split-piece [] h = refl
split-piece (b ∷ c) h = ground (arith, split-piece c)

split-append : (c s : Bytes) → NoSlash c → split 47 (c ++ (47 ∷ s)) ≡ (c ∷ split 47 s)
unfolding split onto_first contains_byte
split-append [] s h = ground arith
split-append (b ∷ c) s h = ground (arith, split-append c s)

-- Joining pieces without slashes and splitting gives them back.
pub split-join_slash :
    (c : Bytes) (cs : List Bytes) → All NoSlash (c ∷ cs) → split 47 (join_slash (c ∷ cs)) ≡ (c ∷ cs)
unfolding join_slash
split-join_slash c [] h = split-piece c h.0
split-join_slash c (d ∷ cs) h =
    split-append c (join_slash (d ∷ cs)) h.0 ∙ ap (λ l. c ∷ l) (split-join_slash d cs h.1)

-- The test of a text looks at each piece between slashes by itself.
abbrev pub IsLocal : (Bytes → Bool) → Type 0
IsLocal p = (p [] ≡ false) × ((c s : Bytes) → p (c ++ (47 ∷ s)) ≡ (p c || p s))

pub join_slash-IsLocal :
    (p : Bytes → Bool) (cs : List Bytes) → IsLocal p → p (join_slash cs) ≡ any p cs
unfolding join_slash
join_slash-IsLocal p [] h = h.0
join_slash-IsLocal p (c ∷ []) h = ground arith
join_slash-IsLocal p (c ∷ d ∷ cs) h =
    ground (arith, h.1 c (join_slash (d ∷ cs)), join_slash-IsLocal p (d ∷ cs) h)

pub split-IsLocal : (p : Bytes → Bool) (s : Bytes) → IsLocal p → any p (split 47 s) ≡ p s
split-IsLocal p s h = sym (join_slash-IsLocal p (split 47 s) h) ∙ ap p (join_slash-split s)

pub any-nonempty : (p : Bytes → Bool) (cs : List Bytes) → IsLocal p → any p (nonempty cs) ≡ any p cs
unfolding nonempty
any-nonempty p [] h = refl
any-nonempty p ([] ∷ cs) h = ground (arith, any-nonempty p cs h, h.0)
any-nonempty p ((b ∷ c) ∷ cs) h = ground (arith, any-nonempty p cs h)

-- A local test of what is left after the empty pieces are dropped is that of the text.
pub components-IsLocal :
    (p : Bytes → Bool) (s : Bytes) → IsLocal p → p (join_slash (nonempty (split 47 s))) ≡ p s
components-IsLocal p s h =
    join_slash-IsLocal p (nonempty (split 47 s)) h
    ∙ any-nonempty p (split 47 s) h
    ∙ split-IsLocal p s h

pub nonempty-NoSlash : (cs : List Bytes) → All NoSlash cs → All NoSlash (nonempty cs)
unfolding nonempty
nonempty-NoSlash [] h = tt
nonempty-NoSlash ([] ∷ cs) h = nonempty-NoSlash cs h.1
nonempty-NoSlash ((b ∷ c) ∷ cs) h = (h.0, nonempty-NoSlash cs h.1)

pub nonempty_idem : (cs : List Bytes) → nonempty (nonempty cs) ≡ nonempty cs
unfolding nonempty
nonempty_idem [] = refl
nonempty_idem ([] ∷ cs) = nonempty_idem cs
nonempty_idem ((b ∷ c) ∷ cs) = ap (λ l. (b ∷ c) ∷ l) (nonempty_idem cs)

pub length-nonempty : (cs : List Bytes) → length (join_slash (nonempty cs)) ≤ length (join_slash cs)
unfolding nonempty join_slash
length-nonempty [] = omega arith
length-nonempty ([] ∷ []) = omega arith
length-nonempty ([] ∷ d ∷ cs) = ground (arith, length-nonempty (d ∷ cs))
length-nonempty ((b ∷ c) ∷ []) = omega arith
length-nonempty ((b ∷ c) ∷ d ∷ cs) =
    let tail = length-nonempty (d ∷ cs) in
    elim (List-cases (nonempty (d ∷ cs))) [
      | inl k ↦ ground (arith, length-append (b ∷ c) (47 ∷ join_slash (d ∷ cs)))
      | inr (e, es, k) ↦ ground (
        arith,
        tail,
        length-append (b ∷ c) (47 ∷ join_slash (d ∷ cs)),
        length-append (b ∷ c) (47 ∷ join_slash (e ∷ es)),
      )
    ]

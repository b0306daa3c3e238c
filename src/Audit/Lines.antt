-- ===== src/Audit/Lines.antt =====
-- The lines of a log, and of a log with a record more.
use serctl.Common.{
  Bytes, refl, true, ok, [], all, ◌++◌, not, ◌≡◌, ◌∷◌, List, ◌==◌, arith, >>=-eq-ok, inl, inr, ◌⊎◌,
}
use serctl.Audit.Ledger.{split_lines, ends_with_newline, verify_lines, verify_line, Ledger}
use serctl.Audit.Defs.{VerifiedLog}

list_cases : {A : Type 0} (l : List A) → (l ≡ []) ⊎ ((x : A) × (xs : List A) × (l ≡ x ∷ xs))
list_cases [] = inl refl
list_cases (x ∷ xs) = inr (x, xs, refl)

-- A closed log splits apart from what follows it.
pub split_lines-append :
    (a c : Bytes)
    → all ends_with_newline (split_lines a) ≡ true
    → split_lines (a ++ c) ≡ split_lines a ++ split_lines c
unfolding split_lines ends_with_newline
split_lines-append [] c h = refl
split_lines-append (b ∷ r) c h = elim (list_cases (split_lines r)) [
  | inl e ↦ ground (arith, e, split_lines-append r c)
  | inr (line, lines, e) ↦ elim (list_cases line) [
    | inl k ↦ ground (arith, e, k, split_lines-append r c)
    | inr (x, xs, k) ↦ ground (arith, e, k, split_lines-append r c)
  ]
]

pub split_lines-line :
    (a : Bytes)
    → all (λ c. not (c == 10)) a ≡ true
    → split_lines (a ++ (10 ∷ [])) ≡ (a ++ (10 ∷ [])) ∷ []
unfolding split_lines
split_lines-line [] h = refl
split_lines-line (b ∷ r) h = ground (arith, split_lines-line r)

pub ends_with_newline-line : (a : Bytes) → ends_with_newline (a ++ (10 ∷ [])) ≡ true
unfolding ends_with_newline
ends_with_newline-line [] = refl
ends_with_newline-line (b ∷ []) = refl
ends_with_newline-line (b ∷ c ∷ r) = ends_with_newline-line (c ∷ r)

module _ (L : Ledger) where
  pub verify_lines-closed :
      (lines : List Bytes) (v w : VerifiedLog)
      → verify_lines L lines v ≡ ok w
      → all ends_with_newline lines ≡ true
  unfolding verify_lines verify_line
  verify_lines-closed [] v w h = refl
  verify_lines-closed (line ∷ lines) v w h =
      let (next, p, q) = >>=-eq-ok (verify_line L line v) (λ u. verify_lines L lines u) h in
      ground (arith, p, verify_lines-closed lines next w q)

  pub verify_lines-append :
      (a c : List Bytes) (v w : VerifiedLog)
      → verify_lines L a v ≡ ok w
      → verify_lines L (a ++ c) v ≡ verify_lines L c w
  unfolding verify_lines
  verify_lines-append [] c v w h = ground arith
  verify_lines-append (line ∷ a) c v w h =
      let (next, p, q) = >>=-eq-ok (verify_line L line v) (λ u. verify_lines L a u) h in
      ground (arith, p, verify_lines-append a c next w q)

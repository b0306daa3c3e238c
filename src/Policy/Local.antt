-- ===== src/Policy/Local.antt =====
-- The refused characters of a path lie between its slashes.
use serctl.Common.{
  refl, false, [], control_after, has_control, contains_byte, starts_with, Bytes, ◌≡◌, ℕ,
  strip_prefix, ◌∷◌, ◌++◌, ◌==◌, ◌||◌, arith,
}
use serctl.Policy.Paths.{contains_text, has_ambiguous_separator}
use serctl.Policy.Slashes.{IsLocal, NoSlash}

control_after-slash : (s : Bytes) → control_after 47 s ≡ control_after 0 s
unfolding control_after
control_after-slash [] = refl
control_after-slash (b ∷ s) = ground arith

control_after-append :
    (prev : ℕ) (c s : Bytes)
    → control_after prev (c ++ (47 ∷ s)) ≡ (control_after prev c || control_after 0 s)
unfolding control_after
control_after-append prev [] s = ground (arith, control_after-slash s)
control_after-append prev (b ∷ c) s = ground (arith, control_after-append b c s)

pub has_control-IsLocal : IsLocal has_control
unfolding has_control control_after
has_control-IsLocal = (refl, λ c s. control_after-append 0 c s)

contains_byte-append :
    (k : ℕ) (c s : Bytes)
    → (47 == k) ≡ false
    → contains_byte k (c ++ (47 ∷ s)) ≡ (contains_byte k c || contains_byte k s)
unfolding contains_byte
contains_byte-append k [] s h = ground arith
contains_byte-append k (b ∷ c) s h = ground (arith, contains_byte-append k c s)

pub contains_byte-IsLocal : (k : ℕ) → (47 == k) ≡ false → IsLocal (contains_byte k)
unfolding contains_byte
contains_byte-IsLocal k h = (refl, λ c s. contains_byte-append k c s h)

starts_with-append : (p c s : Bytes) → NoSlash p → starts_with p (c ++ (47 ∷ s)) ≡ starts_with p c
unfolding starts_with strip_prefix contains_byte
starts_with-append [] [] s h = refl
starts_with-append [] (b ∷ c) s h = refl
starts_with-append (a ∷ p) [] s h = ground arith
starts_with-append (a ∷ p) (b ∷ c) s h = ground (arith, starts_with-append p c s)

starts_with-nil : (a : ℕ) (p : Bytes) → starts_with (a ∷ p) [] ≡ false
unfolding starts_with strip_prefix
starts_with-nil a p = refl

contains_text-append :
    (a : ℕ) (p c s : Bytes)
    → NoSlash (a ∷ p)
    → contains_text (a ∷ p) (c ++ (47 ∷ s)) ≡ (contains_text (a ∷ p) c || contains_text (a ∷ p) s)
unfolding contains_text
contains_text-append a p [] s h =
    ground (arith, starts_with-append (a ∷ p) [] s h, starts_with-nil a p)
contains_text-append a p (b ∷ c) s h =
    ground (arith, starts_with-append (a ∷ p) (b ∷ c) s h, contains_text-append a p c s h)

contains_text-IsLocal : (a : ℕ) (p : Bytes) → NoSlash (a ∷ p) → IsLocal (contains_text (a ∷ p))
unfolding contains_text
contains_text-IsLocal a p h = (starts_with-nil a p, λ c s. contains_text-append a p c s h)

pub has_ambiguous_separator-IsLocal : IsLocal has_ambiguous_separator
unfolding has_ambiguous_separator contains_byte contains_text starts_with strip_prefix
has_ambiguous_separator-IsLocal =
    let bar : IsLocal (contains_text (0xef ∷ 0xbc ∷ 0x8f ∷ [])) =
      contains_text-IsLocal 0xef (0xbc ∷ 0x8f ∷ []) refl in
    let back : IsLocal (contains_text (0xef ∷ 0xbc ∷ 0xbc ∷ [])) =
      contains_text-IsLocal 0xef (0xbc ∷ 0xbc ∷ []) refl in
    let fraction : IsLocal (contains_text (0xe2 ∷ 0x81 ∷ 0x84 ∷ [])) =
      contains_text-IsLocal 0xe2 (0x81 ∷ 0x84 ∷ []) refl in
    let division : IsLocal (contains_text (0xe2 ∷ 0x88 ∷ 0x95 ∷ [])) =
      contains_text-IsLocal 0xe2 (0x88 ∷ 0x95 ∷ []) refl in
    let percent : IsLocal (contains_byte 37) = contains_byte-IsLocal 37 refl in
    (
      refl,
      λ c s. ground (arith, percent.1 c s, fraction.1 c s, division.1 c s, bar.1 c s, back.1 c s),
    )

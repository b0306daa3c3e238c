-- ===== src/Common/Encoding.antt =====
-- Byte strings as lists of numbers, big-endian integers in them, and Rust's text as UTF-8 bytes.
use Prim.Native.Nat.{ℕ, zero, suc, ◌+◌, ◌*◌, ◌/◌, ◌%◌, ◌^◌, ◌<◌}
use mathlib.Core.Path.{◌≡◌, refl, ap, ◌∙◌}
use mathlib.Core.Bool.{Bool, true, false, ◌&&◌}
use mathlib.Core.Logic.{◌↔◌}
use mathlib.Core.List.{List, [], ◌∷◌}
use native.Mathlib.Omega.{arith}
use serctl.Common.Tests.{◌==◌}
use serctl.Common.Lists.{length}

abbrev pub Bytes : Type 0
Bytes = List ℕ

-- `==` on byte strings
unfoldable pub bytes_eq : Bytes → Bytes → Bool
bytes_eq [] [] = true
bytes_eq [] (_ ∷ _) = false
bytes_eq (_ ∷ _) [] = false
bytes_eq (a ∷ x) (b ∷ y) = a == b && bytes_eq x y

pub bytes_eq_iff : (x y : Bytes) → (bytes_eq x y ≡ true) ↔ (x ≡ y)
unfolding bytes_eq
bytes_eq_iff [] [] = ground arith
bytes_eq_iff [] (_ ∷ _) = ground arith
bytes_eq_iff (_ ∷ _) [] = ground arith
bytes_eq_iff (a ∷ x) (b ∷ y) = ground (arith, bytes_eq_iff x y)

pub bytes_eq_refl : (x : Bytes) → bytes_eq x x ≡ true
bytes_eq_refl x = (bytes_eq_iff x x).1 refl

-- The `k` low bytes of `v`, most significant first, before `out`.
unfoldable pub be_onto : ℕ → ℕ → Bytes → Bytes
be_onto zero v out = out
be_onto (suc k) v out = be_onto k (v / 256) ((v % 256) ∷ out)

-- `to_be_bytes` of an integer of `k` bytes
unfoldable pub to_be_bytes : ℕ → ℕ → Bytes
unfolding be_onto
to_be_bytes k v = be_onto k v []

unfoldable pub be_from : ℕ → Bytes → ℕ
be_from acc [] = acc
be_from acc (b ∷ bs) = be_from (acc * 256 + b) bs

-- `from_be_bytes`
unfoldable pub from_be_bytes : Bytes → ℕ
unfolding be_from
from_be_bytes bs = be_from 0 bs

lt_div : (k v : ℕ) → v < 256 ^ suc k → v / 256 < 256 ^ k
lt_div k v h = omega arith

be_from-be_onto :
    (k v : ℕ) (out : Bytes) → v < 256 ^ k → be_from 0 (be_onto k v out) ≡ be_from v out
unfolding be_onto be_from
be_from-be_onto zero v out h = rw (let e : v ≡ 0 = omega arith in e)
be_from-be_onto (suc k) v out h =
    be_from-be_onto k (v / 256) ((v % 256) ∷ out) (lt_div k v h)
    ∙ ap (λ (a : ℕ). be_from a out) (omega arith)

pub from_be-to_be : (k v : ℕ) → v < 256 ^ k → from_be_bytes (to_be_bytes k v) ≡ v
unfolding from_be_bytes to_be_bytes
from_be-to_be k v h = be_from-be_onto k v [] h

length-be_onto : (k v : ℕ) (out : Bytes) → length (be_onto k v out) ≡ k + length out
unfolding be_onto
length-be_onto zero v out = omega arith
length-be_onto (suc k) v out = omega (arith, length-be_onto k (v / 256) ((v % 256) ∷ out))

pub length-to_be_bytes : (k v : ℕ) → length (to_be_bytes k v) ≡ k
unfolding to_be_bytes
length-to_be_bytes k v = omega (arith, length-be_onto k v [])

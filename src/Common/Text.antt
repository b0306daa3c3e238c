-- ===== src/Common/Text.antt =====
-- Rust's `str` as its UTF-8 bytes, with the character tests of the standard library.
use Prim.Native.Nat.{ℕ, ◌-◌, ◌+◌}
use Prim.Native.Char.{code}
use Prim.Native.String.{String}
use mathlib.Core.Bool.{Bool, true, false, ◌&&◌, ◌||◌}
use mathlib.Core.Option.{Option, none, some}
use mathlib.Core.List.{List, [], ◌∷◌}
use serctl.Common.Tests.{◌==◌, ltb, leb, if◌then◌else◌}
use serctl.Common.Encoding.{Bytes, bytes_eq}

-- A literal of the source, all of them ASCII.
abbrev pub lit : String → Bytes
lit String.[] = []
lit (String.◌∷◌ c s) = code c ∷ lit s

abbrev pub in_range : ℕ → ℕ → ℕ → Bool
in_range lo hi b = leb lo b && leb b hi

abbrev pub is_ascii_digit : ℕ → Bool
is_ascii_digit = in_range 48 57

abbrev pub is_ascii_lowercase : ℕ → Bool
is_ascii_lowercase = in_range 97 122

abbrev pub is_ascii_uppercase : ℕ → Bool
is_ascii_uppercase = in_range 65 90

abbrev pub is_ascii_alphabetic : ℕ → Bool
is_ascii_alphabetic b = is_ascii_lowercase b || is_ascii_uppercase b

abbrev pub is_ascii_alphanumeric : ℕ → Bool
is_ascii_alphanumeric b = is_ascii_digit b || is_ascii_alphabetic b

-- `is_ascii_digit() || matches!(byte, b'a'..=b'f')`
abbrev pub is_lower_hex_digit : ℕ → Bool
is_lower_hex_digit b = is_ascii_digit b || in_range 97 102 b

-- `chars().any(char::is_control)`: below 32, 127, and 128 to 159, which UTF-8 writes as 0xC2 and a
-- second byte from 128 to 159. The first argument is the byte before.
unfoldable pub control_after : ℕ → Bytes → Bool
control_after prev [] = false
control_after prev (b ∷ r) =
    ltb b 32 || b == 127 || (prev == 0xc2 && in_range 128 159 b) || control_after b r

unfoldable pub has_control : Bytes → Bool
unfolding control_after
has_control s = control_after 0 s

-- What a UTF-8 decoder waits for: a first byte, or the next continuation byte, its range and how
-- many continuation it.
pub data Utf8State : Type 0 where
  lead_byte : Utf8State
  continuation : ℕ → ℕ → ℕ → Utf8State

utf8_lead : ℕ → Option Utf8State
utf8_lead b =
    if ltb b 0x80
    then some lead_byte
    else if in_range 0xc2 0xdf b
    then some (continuation 0x80 0xbf 0)
    else if b == 0xe0
    then some (continuation 0xa0 0xbf 1)
    else if b == 0xed
    then some (continuation 0x80 0x9f 1)
    else if in_range 0xe1 0xef b
    then some (continuation 0x80 0xbf 1)
    else if b == 0xf0
    then some (continuation 0x90 0xbf 2)
    else if in_range 0xf1 0xf3 b
    then some (continuation 0x80 0xbf 2)
    else if b == 0xf4
    then some (continuation 0x80 0x8f 2)
    else none

utf8_step : Utf8State → ℕ → Option Utf8State
unfolding utf8_lead
utf8_step lead_byte b = utf8_lead b
utf8_step (continuation lo hi more) b =
    if in_range lo hi b
    then (if more == 0 then some lead_byte else some (continuation 0x80 0xbf (more - 1)))
    else none

utf8_from : Utf8State → Bytes → Bool
utf8_from lead_byte [] = true
utf8_from (continuation _ _ _) [] = false
utf8_from st (b ∷ r) = elim (utf8_step st b) [ none ↦ false | some st' ↦ utf8_from st' r ]

-- whether `std::str::from_utf8` accepts the bytes
unfoldable pub is_utf8 : Bytes → Bool
unfolding utf8_from utf8_step
is_utf8 s = utf8_from lead_byte s

-- `starts_with`, and `strip_prefix`
unfoldable pub strip_prefix : Bytes → Bytes → Option Bytes
strip_prefix [] s = some s
strip_prefix (p ∷ ps) [] = none
strip_prefix (p ∷ ps) (c ∷ s) = let rest = strip_prefix ps s in if p == c then rest else none

unfoldable pub starts_with : Bytes → Bytes → Bool
unfolding strip_prefix
starts_with p s = elim (strip_prefix p s) [ none ↦ false | some _ ↦ true ]

-- `contains` of one byte
unfoldable pub contains_byte : ℕ → Bytes → Bool
contains_byte c [] = false
contains_byte c (b ∷ s) = b == c || contains_byte c s

-- `to_ascii_lowercase`, and `to_ascii_uppercase`
unfoldable pub ascii_lower : Bytes → Bytes
ascii_lower [] = []
ascii_lower (b ∷ s) = (if is_ascii_uppercase b then b + 32 else b) ∷ ascii_lower s

unfoldable pub ascii_upper : Bytes → Bytes
ascii_upper [] = []
ascii_upper (b ∷ s) = (if is_ascii_lowercase b then b - 32 else b) ∷ ascii_upper s

-- `matches!(text, "a" | "b" | …)`, and `contains` of a slice or a set of texts
unfoldable pub one_of : Bytes → List Bytes → Bool
one_of s [] = false
one_of s (t ∷ ts) = bytes_eq s t || one_of s ts

-- `strip_suffix`
unfoldable pub strip_suffix : Bytes → Bytes → Option Bytes
strip_suffix suffix [] = if bytes_eq [] suffix then some [] else none
strip_suffix suffix (b ∷ s) =
    let rest = strip_suffix suffix s in
    if bytes_eq (b ∷ s) suffix
    then some []
    else elim rest [ none ↦ none | some before ↦ some (b ∷ before) ]

-- `split_once` at a text: what stands before its first place and after it.
unfoldable pub split_once : Bytes → Bytes → Option (Bytes × Bytes)
unfolding strip_prefix
split_once p [] = elim (strip_prefix p []) [ none ↦ none | some rest ↦ some ([], rest) ]
split_once p (b ∷ s) =
    let later = split_once p s in
    elim (strip_prefix p (b ∷ s)) [
      | none ↦ elim later [ none ↦ none | some found ↦ some (b ∷ found.0, found.1) ]
      | some rest ↦ some ([], rest)
    ]

-- ===== src/Policy/Paths.antt =====
-- crates/serctl_policy/src/lib.rs: `normalize_path`, and the test of a path against a prefix.
use serctl.Common.{
  Bytes, Result, lit, one_of, starts_with, ascii_lower, none, some, true, false, ok, err, [], Bool,
  ℕ, List, ◌∷◌, ◌>>◌, Option, strip_prefix, ◌||◌, if◌then◌else◌, ◌++◌, bytes_eq, ensure, in_range,
  ascii_upper, contains_byte, ◌==◌, is_empty, is_ascii_lowercase, is_ascii_alphabetic, not, ◌>>=◌,
  ◌-◌, ◌&&◌, context, strip_suffix,
}
use serctl.Policy.Defs.{
  posix, windows, ReasonCode, PathFlavor, NormalizedPath, flavor_rank, max_path_bytes,
  invariant_path_traversal, invariant_path_not_absolute, invariant_ambiguous_path,
}
use serctl.Policy.Names.{validate_plain_text}

-- `str::contains` of a text
unfoldable pub contains_text : Bytes → Bytes → Bool
contains_text p [] = starts_with p []
contains_text p (b ∷ s) = starts_with p (b ∷ s) || contains_text p s

-- The byte before the first piece.
unfoldable pub onto_first : ℕ → List Bytes → List Bytes
onto_first b [] = (b ∷ []) ∷ []
onto_first b (piece ∷ pieces) = (b ∷ piece) ∷ pieces

-- `str::split` at a byte
unfoldable pub split : ℕ → Bytes → List Bytes
unfolding onto_first
split sep [] = [] ∷ []
split sep (b ∷ s) = let rest = split sep s in if b == sep then [] ∷ rest else onto_first b rest

-- `join("/")`
unfoldable pub join_slash : List Bytes → Bytes
join_slash [] = []
join_slash (c ∷ []) = c
join_slash (c ∷ d ∷ cs) = c ++ (47 ∷ join_slash (d ∷ cs))

-- `replace('\\', "/")`
unfoldable pub slashes : Bytes → Bytes
slashes [] = []
slashes (b ∷ s) = (if b == 92 then 47 else b) ∷ slashes s

-- `split('/').filter(|component| !component.is_empty())`
unfoldable pub nonempty : List Bytes → List Bytes
nonempty [] = []
nonempty (c ∷ cs) = let rest = nonempty cs in if is_empty c then rest else c ∷ rest

unfoldable pub is_dots : Bytes → Bool
is_dots c = bytes_eq c (lit ".") || bytes_eq c (lit "..")

-- the loop over the components of a POSIX path
unfoldable pub posix_components : List Bytes → Result ReasonCode (List Bytes)
unfolding is_dots
posix_components [] = ok []
posix_components (c ∷ cs) =
    let rest = posix_components cs in
    if is_dots c then err invariant_path_traversal else (rest >>= λ l. ok (c ∷ l))

unfoldable pub normalize_posix_path : Bytes → Result ReasonCode Bytes
unfolding nonempty split posix_components join_slash
normalize_posix_path value = do
  ensure (starts_with (lit "/") value) invariant_path_not_absolute
  ensure (not (contains_byte 92 value)) invariant_ambiguous_path
  components ← posix_components (nonempty (split 47 value))
  ok (if is_empty components then lit "/" else 47 ∷ join_slash components)

-- the last byte, or 0
unfoldable pub last_byte : Bytes → ℕ
last_byte [] = 0
last_byte (b ∷ []) = b
last_byte (b ∷ c ∷ s) = last_byte (c ∷ s)

-- `split('.').next()`
unfoldable pub first_piece : List Bytes → Bytes
first_piece [] = []
first_piece (c ∷ cs) = c

unfoldable pub is_port_digit : Option Bytes → Bool
is_port_digit none = false
is_port_digit (some []) = false
is_port_digit (some (b ∷ [])) = in_range 49 57 b
is_port_digit (some (b ∷ c ∷ s)) = false

unfoldable pub is_windows_reserved_component : Bytes → Bool
unfolding first_piece split is_port_digit strip_prefix one_of
is_windows_reserved_component component =
    let stem = ascii_upper (first_piece (split 46 component)) in
    one_of stem (lit "CON" ∷ lit "PRN" ∷ lit "AUX" ∷ lit "NUL" ∷ [])
    || is_port_digit (elim (strip_prefix (lit "COM") stem) [
      | none ↦ strip_prefix (lit "LPT") stem
      | some suffix ↦ some suffix
    ])

unfoldable pub is_ambiguous_component : Bytes → Bool
unfolding is_windows_reserved_component last_byte
is_ambiguous_component c =
    contains_byte 58 c || last_byte c == 46 || last_byte c == 32 || is_windows_reserved_component c

-- the loop over the components of a Windows path
unfoldable pub windows_components : List Bytes → Result ReasonCode (List Bytes)
unfolding is_dots is_ambiguous_component
windows_components [] = ok []
windows_components (c ∷ cs) =
    let rest = windows_components cs in
    if is_dots c
    then err invariant_path_traversal
    else if is_ambiguous_component c
    then err invariant_ambiguous_path
    else (rest >>= λ l. ok (c ∷ l))

unfoldable pub upper_byte : ℕ → ℕ
upper_byte b = if is_ascii_lowercase b then b - 32 else b

-- the drive, and what follows its colon and slash
unfoldable pub windows_drive : Bytes → Option (ℕ × Bytes)
windows_drive [] = none
windows_drive (d ∷ []) = none
windows_drive (d ∷ c ∷ []) = none
windows_drive (d ∷ c ∷ s ∷ rest) =
    if is_ascii_alphabetic d && c == 58 && s == 47 then some (d, rest) else none

-- Both refusals of the source before the components are the same reason.
unfoldable pub normalize_windows_path : Bytes → Result ReasonCode Bytes
unfolding slashes windows_drive windows_components nonempty split join_slash upper_byte
normalize_windows_path value = do
  ensure (not (starts_with (lit "//") (slashes value))) invariant_path_not_absolute
  found ← context (windows_drive (slashes value)) invariant_path_not_absolute
  components ← windows_components (nonempty (split 47 found.1))
  ok (upper_byte found.0 ∷ 58 ∷ 47 ∷ join_slash components)

-- the division slashes U+2044 and U+2215, and the full-width slash and backslash
unfoldable pub has_ambiguous_separator : Bytes → Bool
unfolding contains_text
has_ambiguous_separator value =
    contains_byte 37 value
    || contains_text (0xe2 ∷ 0x81 ∷ 0x84 ∷ []) value
    || contains_text (0xe2 ∷ 0x88 ∷ 0x95 ∷ []) value
    || contains_text (0xef ∷ 0xbc ∷ 0x8f ∷ []) value
    || contains_text (0xef ∷ 0xbc ∷ 0xbc ∷ []) value

unfoldable pub normalize_path : PathFlavor → Bytes → Result ReasonCode Bytes
unfolding validate_plain_text has_ambiguous_separator normalize_posix_path normalize_windows_path
normalize_path flavor value = do
  validate_plain_text value max_path_bytes
  ensure (not (has_ambiguous_separator value)) invariant_ambiguous_path
  elim flavor [ posix ↦ normalize_posix_path value | windows ↦ normalize_windows_path value ]

-- `ends_with(":/")`
unfoldable pub ends_with_root : Bytes → Bool
unfolding strip_suffix
ends_with_root s = elim (strip_suffix (lit ":/") s) [ none ↦ false | some _ ↦ true ]

-- the value that prefixes are compared by
unfoldable pub folded : NormalizedPath → Bytes
folded p = elim p.flavor [ posix ↦ p.value | windows ↦ ascii_lower p.value ]

unfoldable pub path_prefix_matches : NormalizedPath → NormalizedPath → Bool
unfolding folded ends_with_root flavor_rank
path_prefix_matches prefix path =
    if flavor_rank prefix.flavor == flavor_rank path.flavor
    then (if bytes_eq (folded prefix) (lit "/") || ends_with_root (folded prefix)
        then starts_with (folded prefix) (folded path)
        else (bytes_eq (folded path) (folded prefix)
            || elim (strip_prefix (folded prefix) (folded path)) [
              | none ↦ false
              | some suffix ↦ starts_with (lit "/") suffix
            ]))
    else false

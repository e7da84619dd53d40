-- ===== src/Conf/Patterns.antt =====
-- internal/config and internal/prp: the two readings of a multicast pattern.
use prp_sim.Base.{
  is_found, ℕ, suc, ◌+◌, ◌*◌, ◌%◌, ◌≤◌, ◌<◌, ◌≡◌, refl, sym, ap, ◌∙◌, ◌⊎◌, inl, inr, false, ◌&&◌,
  ◌||◌, not, Option, none, some, [], ◌∷◌, arith, ltb, ◌==◌, if◌then◌else◌, Bool-cases, Option-cases,
  length, All, Bytes, Text, text_eq,
}
use mathlib.Core.Option.{some-injective}
use prp_sim.Prp.Multicast.{
  to_lower, map_lower, trim_0x, remove_all, normalize_hex, hex_value, parse_pairs,
  parse_multicast_pattern,
}
use prp_sim.Conf.{is_lower_hex, all_lower_hex, valid_multicast_pattern}

-- No capital letter from A to F.
abbrev IsLowered : ℕ → Type 0
IsLowered c = (c < b'A') ⊎ (b'Z' < c)

to_lower-IsLowered : (c : ℕ) → IsLowered (to_lower c)
unfolding to_lower
to_lower-IsLowered c = ground arith

map_lower-IsLowered : (s : Text) → All IsLowered (map_lower s)
unfolding map_lower
map_lower-IsLowered [] = tt
map_lower-IsLowered (c ∷ s) = (to_lower-IsLowered c, map_lower-IsLowered s)

trim_0x-IsLowered : (s : Text) → All IsLowered s → All IsLowered (trim_0x s)
unfolding trim_0x
trim_0x-IsLowered [] h = tt
trim_0x-IsLowered (c ∷ []) h = h
trim_0x-IsLowered (c ∷ d ∷ s) (hc, (hd, h)) = elim (Bool-cases (c == b'0' && d == b'x')) [
  | inl prefix ↦ rw prefix h
  | inr other ↦ rw other (hc, (hd, h))
]

remove_all-IsLowered : (b : ℕ) (s : Text) → All IsLowered s → All IsLowered (remove_all b s)
unfolding remove_all
remove_all-IsLowered b [] h = tt
remove_all-IsLowered b (d ∷ s) (hd, h) = elim (Bool-cases (d == b)) [
  | inl same ↦ rw same (remove_all-IsLowered b s h)
  | inr other ↦ rw other (hd, remove_all-IsLowered b s h)
]

normalize_hex-IsLowered : (s : Text) → All IsLowered (normalize_hex s)
unfolding normalize_hex
normalize_hex-IsLowered s =
    remove_all-IsLowered b':' _
      (remove_all-IsLowered b'-' _ (trim_0x-IsLowered (map_lower s) (map_lower-IsLowered s)))

-- On lowered characters both tests are the same.
hex_value-lower : (c : ℕ) → IsLowered c → is_found (hex_value c) ≡ is_lower_hex c
unfolding hex_value is_lower_hex
hex_value-lower c h = ground arith

-- The pair in front is read where both digits and the rest are.
abbrev add_pair : Option ℕ → Option ℕ → Option Bytes → Option Bytes
add_pair x y z = elim x as (λ _. Option Bytes) [
  | none ↦ none
  | some hi ↦ elim y as (λ _. Option Bytes) [
    | none ↦ none
    | some lo ↦ elim z as (λ _. Option Bytes) [
      | none ↦ none
      | some bytes ↦ some ((hi * 16 + lo) ∷ bytes)
    ]
  ]
]

is_found-add_pair :
    (x y : Option ℕ) (z : Option Bytes)
    → is_found (add_pair x y z) ≡ (is_found x && (is_found y && is_found z))
is_found-add_pair none y z = refl
is_found-add_pair (some hi) none z = refl
is_found-add_pair (some hi) (some lo) none = refl
is_found-add_pair (some hi) (some lo) (some bytes) = refl

parse_pairs-lower :
    (s : Text) → All IsLowered s → length s % 2 ≡ 0 → is_found (parse_pairs s) ≡ all_lower_hex s
unfolding parse_pairs all_lower_hex
parse_pairs-lower [] h even = refl
parse_pairs-lower (c ∷ []) h even = absurd (omega arith)
parse_pairs-lower (c ∷ d ∷ s) (hc, (hd, h)) even =
    is_found-add_pair (hex_value c) (hex_value d) (parse_pairs s)
    ∙ rw (hex_value-lower c hc, hex_value-lower d hd, parse_pairs-lower s h (omega arith))

-- Every pair of digits is one byte.
length-add_pair :
    (x y : Option ℕ) (z : Option Bytes) (bytes : Bytes)
    → add_pair x y z ≡ some bytes
    → (rest : Bytes) × (z ≡ some rest) × (length bytes ≡ suc (length rest))
length-add_pair none y z bytes e = cc
length-add_pair (some hi) none z bytes e = cc
length-add_pair (some hi) (some lo) none bytes e = cc
length-add_pair (some hi) (some lo) (some rest) bytes e =
    (rest, refl, sym (ap length (some-injective ((hi * 16 + lo) ∷ rest) bytes e)))

length-parse_pairs :
    (s : Text) (bytes : Bytes) → parse_pairs s ≡ some bytes → length bytes * 2 ≡ length s
unfolding parse_pairs
length-parse_pairs [] bytes e = ground arith
length-parse_pairs (c ∷ []) bytes e = cc
length-parse_pairs (c ∷ d ∷ s) bytes e =
    let (rest, at, len) = length-add_pair (hex_value c) (hex_value d) (parse_pairs s) bytes e in
    omega (arith, len, length-parse_pairs s rest at)

-- Load accepts a multicast pattern exactly when the node will read a prefix from it, and the
-- prefix has six bytes at most: no pattern that passes the load disables the filter.
pub valid_multicast_pattern_lem :
    (s : Text)
    → (valid_multicast_pattern s ≡ ltb 0 (length (parse_multicast_pattern s)))
      × (length (parse_multicast_pattern s) ≤ 6)
unfolding valid_multicast_pattern parse_multicast_pattern text_eq
valid_multicast_pattern_lem s = go (normalize_hex s) (normalize_hex-IsLowered s)
  where
    go :
        (hex : Text)
        → All IsLowered hex
        → ((if text_eq hex [] || ltb 12 (length hex) || not (length hex % 2 == 0)
              then false
              else all_lower_hex hex)
            ≡ ltb 0 (
                length (
                  if text_eq hex [] || not (length hex % 2 == 0) || ltb 12 (length hex)
                  then []
                  else elim (parse_pairs hex) as (λ _. Bytes) [ none ↦ [] | some bytes ↦ bytes ])))
          × (length (
                if text_eq hex [] || not (length hex % 2 == 0) || ltb 12 (length hex)
                then []
                else elim (parse_pairs hex) as (λ _. Bytes) [ none ↦ [] | some bytes ↦ bytes ])
              ≤ 6)
    go [] h = (refl, omega arith)
    go (c ∷ s) h = elim (Option-cases (parse_pairs (c ∷ s))) [
      | inl refused ↦ rw refused (ground (arith, lowered), ground arith)
      | inr (bytes, e) ↦ rw e (
        ground (arith, lowered, length-parse_pairs (c ∷ s) bytes e),
        ground (arith, length-parse_pairs (c ∷ s) bytes e),
      )
    ]
      where
        lowered : length (c ∷ s) % 2 ≡ 0 → is_found (parse_pairs (c ∷ s)) ≡ all_lower_hex (c ∷ s)
        lowered even = parse_pairs-lower (c ∷ s) h even

-- ===== src/Prp/Multicast.antt =====
-- internal/prp/prp.go: which frames from the LANs go on to the interlink.
use prp_sim.Base.{
  ℕ, ◌+◌, ◌-◌, ◌*◌, ◌%◌, Bool, true, false, ◌&&◌, ◌||◌, not, Option, none, some, [], ◌∷◌, ltb, leb,
  ◌==◌, if◌then◌else◌, length, Bytes, slice, Text, text_eq, lookup,
}
use prp_sim.Engine.Ether.{is_multicast_mac, get_dst_mac}
use prp_sim.Prp.Node.{Node, Env}

-- The strings are ASCII.
unfoldable pub to_lower : ℕ → ℕ
to_lower c = if leb b'A' c && leb c b'Z' then c + 32 else c

unfoldable pub map_lower : Text → Text
map_lower [] = []
map_lower (c ∷ s) = to_lower c ∷ map_lower s

-- `strings.TrimPrefix(s, "0x")`
unfoldable pub trim_0x : Text → Text
trim_0x [] = []
trim_0x (c ∷ []) = c ∷ []
trim_0x (c ∷ d ∷ s) = if c == b'0' && d == b'x' then s else c ∷ d ∷ s

-- `strings.ReplaceAll(s, c, "")` for a one-byte `c`.
unfoldable pub remove_all : ℕ → Text → Text
remove_all c [] = []
remove_all c (d ∷ s) = let rest = remove_all c s in if d == c then rest else d ∷ rest

unfoldable pub normalize_hex : Text → Text
unfolding map_lower trim_0x remove_all
normalize_hex s = remove_all b':' (remove_all b'-' (trim_0x (map_lower s)))

-- A hexadecimal digit as `strconv.ParseUint` takes it.
unfoldable pub hex_value : ℕ → Option ℕ
hex_value c =
    if leb b'0' c && leb c b'9'
    then some (c - b'0')
    else if leb b'a' c && leb c b'f'
    then some (c - b'a' + 10)
    else if leb b'A' c && leb c b'F'
    then some (c - b'A' + 10)
    else none

-- The loop over pairs of digits. A single digit at the end, which the even length excludes, would
-- be sliced past the end.
unfoldable pub parse_pairs : Text → Option Bytes
parse_pairs [] = some []
parse_pairs (c ∷ []) = none
parse_pairs (c ∷ d ∷ s) = elim (hex_value c) [
  | none ↦ none
  | some hi ↦ elim (hex_value d) [
    | none ↦ none
    | some lo ↦ elim (parse_pairs s) [ none ↦ none | some bytes ↦ some ((hi * 16 + lo) ∷ bytes) ]
  ]
]

-- `nil` is the empty list: the caller asks for the length only.
unfoldable pub parse_multicast_pattern : Text → Bytes
parse_multicast_pattern pattern =
    let hex = normalize_hex pattern in
    if text_eq hex [] || not (length hex % 2 == 0) || ltb 12 (length hex)
    then []
    else elim (parse_pairs hex) [ none ↦ [] | some bytes ↦ bytes ]

unfoldable pub all_ff : Bytes → Bool
all_ff [] = true
all_ff (b ∷ bs) = b == 0xff && all_ff bs

-- `frame[i] == b` for every byte of the prefix, behind the test on the lengths.
unfoldable pub has_prefix : Bytes → Bytes → Bool
has_prefix frame [] = true
has_prefix [] (p ∷ ps) = false
has_prefix (b ∷ bs) (p ∷ ps) = b == p && has_prefix bs ps

unfoldable pub multicast_allowed : Node → Bytes → Bool
multicast_allowed n frame =
    let prefix = parse_multicast_pattern n.config.multicast_first_octet in
    if leb 6 (length frame) && all_ff (slice frame 0 6)
    then true
    else if length prefix == 0
    then true
    else if ltb (length frame) (length prefix)
    then false
    else has_prefix frame prefix

-- `n.nowf().Sub(seen) <= n.proxyTableForget`
unfoldable pub is_known_san : Env → Node → Text → Bool
is_known_san env n dst = elim (lookup dst n.proxy_table) [
  | none ↦ false
  | some seen ↦ leb env.now (seen + n.proxy_table_forget)
]

unfoldable pub should_forward_to_interlink : Env → Node → Bytes → Bool
should_forward_to_interlink env n frame =
    if n.config.forward_all
    then true
    else if is_multicast_mac frame
    then multicast_allowed n frame
    else is_known_san env n (get_dst_mac frame)

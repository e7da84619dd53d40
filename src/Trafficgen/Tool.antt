-- ===== src/Trafficgen/Tool.antt =====
-- cmd/trafficgen/main.go: the flags that say which frames are sent, from where and to where.
pub mod Macs
use prp_sim.Base.{
  ℕ, zero, suc, not, Option, none, some, [], ◌∷◌, ◌==◌, if◌then◌else◌, length, take, drop, Bytes,
  Text, codes, text_eq,
}
use prp_sim.Prp.Multicast.{map_lower}
use prp_sim.Conf.Load.{is_empty}
use prp_sim.Trafficgen.{Addresses, et_goose, et_sv}

-- The loop over the bytes, of which n are left. `scan_hex` is the byte that fmt.Sscanf reads of two
-- characters under `%x`. The characters between the bytes are not looked at.
unfoldable pub parse_mac_bytes : (Text → Option ℕ) → ℕ → Text → Option Bytes
parse_mac_bytes scan_hex zero s = some []
parse_mac_bytes scan_hex (suc n) s =
    let rest = parse_mac_bytes scan_hex n (drop 3 s) in
    elim (scan_hex (take 2 s)) as (λ _. Option Bytes) [
      | none ↦ none
      | some b ↦ elim rest as (λ _. Option Bytes) [ none ↦ none | some bs ↦ some (b ∷ bs) ]
    ]

unfoldable pub parse_mac : (Text → Option ℕ) → Text → Option Bytes
unfolding parse_mac_bytes
parse_mac scan_hex s = if not (length s == 17) then none else parse_mac_bytes scan_hex 6 s

pub record Flags : Type 0 where
  pub et : Text
  pub mcast : Text
  pub src_mac : Text

-- The EtherType, and the destination where none is given.
unfoldable pub choose_et : Text → Option (ℕ × Text)
choose_et et =
    let lower = map_lower et in
    if text_eq lower (codes "goose")
    then some (et_goose, codes "01:0c:cd:01:00:01")
    else if text_eq lower (codes "sv")
    then some (et_sv, codes "01:0c:cd:04:00:00")
    else none

unfoldable pub choose_addresses : (Text → Option ℕ) → Text → Text → Option Addresses
choose_addresses scan_hex dst src = elim (parse_mac scan_hex dst) as (λ _. Option Addresses) [
  | none ↦ none
  | some d ↦ elim (parse_mac scan_hex src) as (λ _. Option Addresses) [
    | none ↦ none
    | some s ↦ some (record { dst_mac = d; src_mac = s })
  ]
]

abbrev pub with_et : ℕ → Option Addresses → Option (ℕ × Addresses)
with_et et none = none
with_et et (some a) = some (et, a)

abbrev pub with_group : (Text → Option ℕ) → Flags → Option (ℕ × Text) → Option (ℕ × Addresses)
with_group scan_hex flags none = none
with_group scan_hex flags (some (et, group)) =
    let dst = if is_empty flags.mcast then group else flags.mcast in
    with_et et (choose_addresses scan_hex dst flags.src_mac)

-- `none` is an exit with a message.
unfoldable pub read_flags : (Text → Option ℕ) → Flags → Option (ℕ × Addresses)
read_flags scan_hex flags = with_group scan_hex flags (choose_et flags.et)

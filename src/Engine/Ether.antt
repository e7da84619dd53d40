-- ===== src/Engine/Ether.antt =====
-- internal/engine/engine.go: reading the Ethernet header of a frame.
pub mod Macs
pub mod Types
use prp_sim.Base.{
  panics, ℕ, zero, suc, ◌+◌, ◌-◌, ◌/◌, ◌%◌, Bool, true, false, ◌&&◌, ◌||◌, [], ◌∷◌, ◌++◌, ltb, ◌==◌,
  if◌then◌else◌, length, Bytes, byte_at, u16_at, Text, low_bits, Outcome, done,
}

-- The EtherTypes of 802.1Q and 802.1ad.
unfoldable pub is_vlan_type : ℕ → Bool
is_vlan_type et = et == 0x8100 || et == 0x88a8

unfoldable pub is_vlan_frame : Bytes → Bool
unfolding is_vlan_type
is_vlan_frame frame = if ltb (length frame) 14 then false else is_vlan_type (u16_at frame 12)

-- The VLAN ID and whether a tag is there. A tagged frame of 14 or 15 bytes is sliced past its end.
unfoldable pub get_vlan_id : Bytes → Outcome (ℕ × Bool)
get_vlan_id frame =
    if is_vlan_frame frame
    then (if ltb (length frame) 16 then panics else done (low_bits (u16_at frame 14) 12, true))
    else done (0, false)

unfoldable pub is_multicast_mac : Bytes → Bool
is_multicast_mac frame = ltb 0 (length frame) && low_bits (byte_at frame 0) 1 == 1

-- `%02x` of a byte.
unfoldable pub hex_digit : ℕ → ℕ
hex_digit d = if ltb d 10 then b'0' + d else b'a' + (d - 10)

unfoldable pub hex2 : ℕ → Text
hex2 b = hex_digit (b / 16 % 16) ∷ hex_digit (b % 16) ∷ []

-- `%02x:%02x:%02x:%02x:%02x:%02x` of the six bytes from `i` on.
unfoldable pub mac_text : Bytes → ℕ → Text
unfolding hex2
mac_text frame i =
    hex2 (byte_at frame i)
    ++ (b':' ∷ hex2 (byte_at frame (i + 1)))
    ++ (b':' ∷ hex2 (byte_at frame (i + 2)))
    ++ (b':' ∷ hex2 (byte_at frame (i + 3)))
    ++ (b':' ∷ hex2 (byte_at frame (i + 4)))
    ++ (b':' ∷ hex2 (byte_at frame (i + 5)))

unfoldable pub get_src_mac : Bytes → Text
get_src_mac frame = if ltb (length frame) 12 then [] else mac_text frame 6

unfoldable pub get_dst_mac : Bytes → Text
get_dst_mac frame = if ltb (length frame) 6 then [] else mac_text frame 0

-- The loop of `GetEtherType`, which starts at offset 12. Each round skips four bytes, so a fuel of
-- the frame's length is never used up.
unfoldable pub ether_type_loop : ℕ → Bytes → ℕ → ℕ
ether_type_loop zero frame off = 0
ether_type_loop (suc fuel) frame off =
    let et = u16_at frame off in
    let next = ether_type_loop fuel frame (off + 4) in
    if ltb (length frame) (off + 2)
    then 0
    else if is_vlan_type et
    then (if ltb (length frame) (off + 4 + 2) then 0 else next)
    else et

unfoldable pub get_ether_type : Bytes → ℕ
get_ether_type frame = ether_type_loop (length frame) frame 12

unfoldable pub is_supervision_frame : Bytes → Bool
is_supervision_frame frame = get_ether_type frame == 0x88fb

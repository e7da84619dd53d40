-- ===== src/Engine/Rct.antt =====
-- internal/engine/engine.go: EncodeRCT, DecodeRCT and IsPRPFrame, the six-byte PRP trailer.
pub mod RoundTrip
pub mod Sound
use prp_sim.Base.{
  ℕ, ◌+◌, ◌-◌, max, bit_or, Bool, false, ◌||◌, Option, none, some, ◌++◌, ltb, ◌==◌, if◌then◌else◌,
  length, take, replicate, Bytes, u16_at, put_u16, low_bits, shr, shl16, to_u16, join_bits,
}
use prp_sim.Engine.Ether.{is_vlan_frame}

abbrev pub rct_len : ℕ
rct_len = 6

abbrev pub prp_suffix : ℕ
prp_suffix = 0x88fb

abbrev pub eth_min_len : ℕ
eth_min_len = 60

abbrev pub vlan_eth_min_len : ℕ
vlan_eth_min_len = 64

-- `padded := make([]byte, max(len(frame), minSize)); copy(padded, frame)`
unfoldable pub pad_frame : Bytes → Bytes
pad_frame frame =
    let min_size = if is_vlan_frame frame then vlan_eth_min_len else eth_min_len in
    frame ++ replicate (max (length frame) min_size - length frame) 0

unfoldable pub rct_lsdu : Bytes → ℕ
rct_lsdu frame =
    let lsdu = length (pad_frame frame) + rct_len - 14 in
    if is_vlan_frame frame then lsdu - 4 else lsdu

-- `uint16(lanID&0x0F) | 0xA`
unfoldable pub wire_lan_id : ℕ → ℕ
wire_lan_id lan_id = bit_or (low_bits lan_id 4) 0xa

unfoldable pub encode_rct : Bytes → ℕ → ℕ → Bytes
encode_rct frame seq lan_id =
    let packed =
      join_bits (shl16 (wire_lan_id lan_id) 12) (low_bits (to_u16 (rct_lsdu frame)) 12) in
    pad_frame frame ++ (put_u16 seq ++ put_u16 packed ++ put_u16 prp_suffix)

-- The results of `DecodeRCT` when its error is nil.
pub record Decoded : Type 0 where
  pub lan_id : ℕ
  pub seq : ℕ
  pub payload : Bytes

unfoldable pub expected_lsdu : Bytes → ℕ
expected_lsdu frame = if is_vlan_frame frame then length frame - 14 - 4 else length frame - 14

-- `none` is a non-nil error. Behind the first test every index lies in the frame.
unfoldable pub decode_rct : Bytes → Option Decoded
decode_rct frame =
    let off = length frame - rct_len in
    let packed = u16_at frame (off + 2) in
    if ltb (length frame) (14 + rct_len)
    then none
    else if u16_at frame (off + 4) == prp_suffix
    then (if low_bits packed 12 == expected_lsdu frame
        then some (record {
          lan_id = low_bits (low_bits (shr packed 12) 4) 1;
          seq = u16_at frame off;
          payload = take off frame;
        })
        else none)
    else none

unfoldable pub is_prp_frame : Bytes → Bool
is_prp_frame frame = elim (decode_rct frame) [
  | none ↦ false
  | some d ↦ d.lan_id == 0 || d.lan_id == 1
]

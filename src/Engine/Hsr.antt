-- ===== src/Engine/Hsr.antt =====
-- internal/engine/hsr.go: the six-byte HSR tag.
pub mod Fields
pub mod RoundTrip
pub mod Rewrite
use prp_sim.Base.{
  ℕ, ◌+◌, ◌-◌, ◌*◌, ◌^◌, Bool, ◌||◌, Option, none, some, [], ◌++◌, ltb, ◌==◌, if◌then◌else◌, length,
  take, drop, Bytes, slice, u16_at, put_u16, low_bits, shr, shl16, to_u16, join_bits,
}
use prp_sim.Engine.Ether.{is_vlan_type, get_ether_type}

abbrev pub hsr_ether_type : ℕ
hsr_ether_type = 0x892f

abbrev pub hsr_tag_len : ℕ
hsr_tag_len = 6

unfoldable pub encode_hsr : Bytes → ℕ → ℕ → ℕ → Bytes
encode_hsr payload path seq encap_proto =
    let lsdu = hsr_tag_len + length payload in
    let word = join_bits (shl16 (low_bits path 4) 12) (low_bits (to_u16 lsdu) 12) in
    put_u16 hsr_ether_type ++ (put_u16 word ++ put_u16 seq ++ put_u16 encap_proto) ++ payload

-- `none` is a non-nil error, here and below.
unfoldable pub hsr_tag_offset : Bytes → Option ℕ
hsr_tag_offset frame =
    if ltb (length frame) 14
    then none
    else if is_vlan_type (u16_at frame 12)
    then (if ltb (length frame) 18
        then none
        else if u16_at frame 16 == hsr_ether_type
        then some 18
        else none)
    else if u16_at frame 12 == hsr_ether_type
    then some 14
    else none

-- The results of `DecodeHSR` when its error is nil.
pub record Tag : Type 0 where
  pub path : ℕ
  pub seq : ℕ
  pub encap_proto : ℕ
  pub payload : Bytes

unfoldable pub decode_hsr_at : Bytes → ℕ → Option Tag
decode_hsr_at frame off =
    let word = u16_at frame off in
    let lsdu = low_bits word 12 in
    if ltb (length frame) (off + hsr_tag_len)
    then none
    else if ltb lsdu hsr_tag_len || ltb (length frame) (off + lsdu)
    then none
    else some (record {
      path = shr word 12;
      seq = u16_at frame (off + 2);
      encap_proto = u16_at frame (off + 4);
      payload = slice frame (off + hsr_tag_len) (off + lsdu);
    })

unfoldable pub decode_hsr : Bytes → Option Tag
unfolding decode_hsr_at
decode_hsr frame = elim (hsr_tag_offset frame) [ none ↦ none | some off ↦ decode_hsr_at frame off ]

unfoldable pub is_hsr_frame : Bytes → Bool
is_hsr_frame frame = get_ether_type frame == hsr_ether_type

-- `out := append([]byte(nil), frame...); PutUint16(out[off:off+2], word)`
unfoldable pub put_word : Bytes → ℕ → ℕ → Bytes
put_word frame off word = take off frame ++ (put_u16 word ++ drop (off + 2) frame)

unfoldable pub rewrite_at : (ℕ → ℕ) → Bytes → Option ℕ → Option Bytes
rewrite_at change frame none = none
rewrite_at change frame (some off) =
    if ltb (length frame) (off + hsr_tag_len)
    then none
    else some (put_word frame off (change (u16_at frame off)))

-- `(word & 0x0FFF) | (uint16(path&0x0F) << 12)`
unfoldable pub set_path : ℕ → ℕ → ℕ
set_path path word = join_bits (shl16 (low_bits path 4) 12) (low_bits word 12)

unfoldable pub rewrite_hsr_path : Bytes → ℕ → Option Bytes
unfolding rewrite_at set_path
rewrite_hsr_path frame path = rewrite_at (set_path path) frame (hsr_tag_offset frame)

-- `(word & 0xEFFF) | (lane << 12)`: bits 13 to 15 and 0 to 11 stay.
unfoldable pub set_lane : Bool → ℕ → ℕ
set_lane lane_a word =
    let lane = if lane_a then 0 else 1 in
    join_bits (join_bits (shr word 13 * 2 ^ 13) (low_bits word 12)) (shl16 lane 12)

unfoldable pub rewrite_hsr_path_lane : Bytes → Bool → Option Bytes
unfolding rewrite_at set_lane
rewrite_hsr_path_lane frame lane_a = rewrite_at (set_lane lane_a) frame (hsr_tag_offset frame)

unfoldable pub strip_at : Bytes → ℕ → Tag → Bytes
strip_at frame off t =
    take 12 frame
    ++ ((if ltb 14 off then slice frame 12 (off - 2) else [])
        ++ (put_u16 t.encap_proto ++ t.payload))

unfoldable pub strip_hsr : Bytes → Option Bytes
unfolding strip_at
strip_hsr frame = elim (hsr_tag_offset frame) [
  | none ↦ none
  | some off ↦ elim (decode_hsr frame) [ none ↦ none | some t ↦ some (strip_at frame off t) ]
]

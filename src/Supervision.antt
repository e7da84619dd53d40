-- ===== src/Supervision.antt =====
-- internal/supervision/supervision.go: supervision frames, built and parsed.
pub mod RoundTrip
use prp_sim.Base.{
  ℕ, ◌-◌, Bool, ◌&&◌, Option, none, some, [], ◌∷◌, ◌++◌, ltb, leb, ◌==◌, if◌then◌else◌, length,
  replicate, Bytes, byte_at, slice, u16_at, put_u16, Text, shr, low_bits, shl16, join_bits, Outcome,
  done, panics,
}
use prp_sim.Engine.Ether.{get_src_mac}
use prp_sim.Engine.Rct.{prp_suffix, wire_lan_id}

abbrev pub eth_min_len : ℕ
eth_min_len = 60

abbrev pub life_check_dd : ℕ
life_check_dd = 20

abbrev pub hsr_life_check : ℕ
hsr_life_check = 23

abbrev pub red_box_mac_tlv : ℕ
red_box_mac_tlv = 30

abbrev pub sup_lsdu_size : ℕ
sup_lsdu_size = 52

abbrev pub sup_version : ℕ
sup_version = 1

-- A MAC address field is six bytes.
pub record Frame : Type 0 where
  pub src_mac : Text
  pub seq : ℕ
  pub path : ℕ
  pub tlv_type : ℕ
  pub mac_addr_a : Bytes
  pub is_red_box : Bool
  pub red_box_mac : Bytes

-- 01-15-4E-00-01-00.
abbrev pub super_multicast : Bytes
super_multicast = 0x01 ∷ 0x15 ∷ 0x4e ∷ 0x00 ∷ 0x01 ∷ 0x00 ∷ []

-- `append(payload, make([]byte, ethMinLen-len(payload))...)` if it is shorter.
unfoldable pub pad_to_min : Bytes → Bytes
pad_to_min payload = payload ++ replicate (eth_min_len - length payload) 0

-- Both builders: the first word of the tag and the type of the TLV differ.
unfoldable pub sup_payload : Bytes → ℕ → ℕ → ℕ → Bytes
sup_payload src_mac word seq tlv_type =
    super_multicast
    ++ (src_mac
        ++ (0x88 ∷ 0xfb ∷ [])
        ++ (put_u16 word ++ put_u16 seq)
        ++ (tlv_type ∷ 6 ∷ [])
        ++ src_mac)

unfoldable pub build : Bytes → ℕ → Bytes
unfolding pad_to_min sup_payload
build src_mac seq = pad_to_min (sup_payload src_mac sup_version seq life_check_dd)

unfoldable pub build_rcted : Bytes → ℕ → ℕ → Bytes
build_rcted src_mac seq lan_id =
    let packed = join_bits (shl16 (wire_lan_id lan_id) 12) sup_lsdu_size in
    build src_mac seq ++ (put_u16 seq ++ put_u16 packed ++ put_u16 prp_suffix)

unfoldable pub build_hsr : Bytes → ℕ → ℕ → Bytes
unfolding pad_to_min sup_payload
build_hsr src_mac seq path =
    let word = join_bits (shl16 (low_bits path 4) 12) sup_version in
    pad_to_min (sup_payload src_mac word seq hsr_life_check)

-- The destination and EtherType tests of `Parse`.
unfoldable pub is_sup_header : Bytes → Bool
is_sup_header frame =
    byte_at frame 0 == 0x01
    && byte_at frame 1 == 0x15
    && byte_at frame 2 == 0x4e
    && byte_at frame 3 == 0x00
    && byte_at frame 4 == 0x01
    && byte_at frame 5 == 0x00
    && byte_at frame 12 == 0x88
    && byte_at frame 13 == 0xfb

unfoldable pub parse_fields : Bytes → Frame
parse_fields frame =
    let red_box = byte_at frame 18 == 30 && leb 32 (length frame) in
    record {
      src_mac = get_src_mac frame;
      seq = u16_at frame 16;
      path = shr (u16_at frame 14) 12;
      tlv_type = byte_at frame 18;
      mac_addr_a = slice frame 20 26;
      is_red_box = red_box;
      red_box_mac = if red_box then slice frame 26 32 else replicate 6 0;
    }

-- `nil` is `none`. A frame of 20 to 25 bytes passes the length test and is then sliced up to byte
-- 26; the frames of readLoop have no spare capacity.
unfoldable pub parse : Bytes → Outcome (Option Frame)
parse frame =
    if ltb (length frame) 20
    then done none
    else if is_sup_header frame
    then (if ltb (length frame) 26 then panics else done (some (parse_fields frame)))
    else done none

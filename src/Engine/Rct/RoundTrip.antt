-- ===== src/Engine/Rct/RoundTrip.antt =====
-- What DecodeRCT makes of the frames that EncodeRCT builds.
use prp_sim.Base.{
  ℕ, zero, suc, ◌+◌, ◌-◌, ◌/◌, ◌%◌, ◌≤◌, ◌<◌, max, ◌≡◌, refl, ◌∙◌, false, none, some, ◌++◌, arith,
  ltb, ◌==◌, if◌then◌else◌, le→ltb, length, replicate, length-append, take-append, Bytes, u16_at,
  put_u16, u16_at-append_left, u16_at-append_at, low_bits, to_u16, shl16, IsU16, join_bits,
}
use prp_sim.Engine.Ether.{is_vlan_frame}
use prp_sim.Engine.Rct.{
  prp_suffix, pad_frame, rct_lsdu, wire_lan_id, encode_rct, expected_lsdu, decode_rct,
}

-- A frame with six bytes behind it.
abbrev pub trailer : ℕ → ℕ → Bytes
trailer seq packed = put_u16 seq ++ put_u16 packed ++ put_u16 prp_suffix

pub is_vlan_frame-append :
    (xs ys : Bytes) → 14 ≤ length xs → is_vlan_frame (xs ++ ys) ≡ is_vlan_frame xs
unfolding is_vlan_frame
is_vlan_frame-append xs ys h = rw (
  u16_at-append_left xs ys 12 (omega arith),
  le→ltb (length (xs ++ ys)) 14 (omega (arith, length-append xs ys)),
  le→ltb (length xs) 14 h,
)

length-trailer : (p : Bytes) (seq packed : ℕ) → length (p ++ trailer seq packed) ≡ length p + 6
length-trailer p seq packed = length-append p (trailer seq packed)

trailer-u16 :
    (p : Bytes) (seq packed : ℕ)
    → IsU16 seq
    → IsU16 packed
    → let f = p ++ trailer seq packed in
      (u16_at f (length p) ≡ seq)
      × (u16_at f (length p + 2) ≡ packed)
      × (u16_at f (length p + 4) ≡ prp_suffix)
trailer-u16 p seq packed hs hp = (
  u16_at-append_at p _ (length p) 0 (omega arith) ∙ unfold u16_at in omega arith,
  u16_at-append_at p _ (length p + 2) 2 refl ∙ unfold u16_at in omega arith,
  u16_at-append_at p _ (length p + 4) 4 refl ∙ unfold u16_at in omega arith,
)

-- `DecodeRCT` on any payload with a trailer: only the stored size is in question.
pub decode_rct-trailer :
    (p : Bytes) (seq packed : ℕ)
    → 14 ≤ length p
    → IsU16 seq
    → IsU16 packed
    → decode_rct (p ++ trailer seq packed) ≡ (
        if packed % 4096 == expected_lsdu (p ++ trailer seq packed)
        then some (record { lan_id = packed / 4096 % 16 % 2; seq = seq; payload = p })
        else none)
unfolding decode_rct
decode_rct-trailer p seq packed h hs hp =
    let (at_seq, at_packed, at_suffix) = trailer-u16 p seq packed hs hp in
    rw (off, at_seq, at_packed, at_suffix, long, take-append p (trailer seq packed))
  where
    off : length (p ++ trailer seq packed) - 6 ≡ length p
    off = omega (arith, length-trailer p seq packed)

    long : ltb (length (p ++ trailer seq packed)) 20 ≡ false
    long = le→ltb _ 20 (omega (arith, length-trailer p seq packed))

pub length-pad_frame : (frame : Bytes) → length frame ≤ length (pad_frame frame)
unfolding pad_frame
length-pad_frame frame = omega (arith, length-append frame (replicate (padding frame) 0))
  where
    padding : Bytes → ℕ
    padding f = max (length f) (if is_vlan_frame f then 64 else 60) - length f

pub is_vlan_frame-pad_frame :
    (frame : Bytes) → 14 ≤ length frame → is_vlan_frame (pad_frame frame) ≡ is_vlan_frame frame
unfolding pad_frame
is_vlan_frame-pad_frame frame h = is_vlan_frame-append frame _ h

expected_lsdu-trailer :
    (frame : Bytes) (seq packed : ℕ)
    → 14 ≤ length frame
    → expected_lsdu (pad_frame frame ++ trailer seq packed) ≡ rct_lsdu frame
unfolding expected_lsdu rct_lsdu
expected_lsdu-trailer frame seq packed h =
    rw
      (
        is_vlan_frame-append (pad_frame frame) (trailer seq packed)
            (omega (arith, length-pad_frame frame)),
        is_vlan_frame-pad_frame frame h,
        length-trailer (pad_frame frame) seq packed,
      )
      (ground arith)

packed_fields :
    (wire lsdu : ℕ)
    → wire < 16
    → let packed = join_bits (shl16 wire 12) (low_bits (to_u16 lsdu) 12) in
      IsU16 packed × (packed % 4096 ≡ lsdu % 4096) × (packed / 4096 ≡ wire)
packed_fields wire lsdu h = omega arith

pub lan_bit : (lan : ℕ) → lan < 2 → (wire_lan_id lan < 16) × (wire_lan_id lan % 16 % 2 ≡ lan)
unfolding wire_lan_id
lan_bit zero h = omega arith
lan_bit (suc zero) h = omega arith
lan_bit (suc (suc lan)) h = absurd (omega arith)

-- A frame with a whole Ethernet header comes back from its trailer, padded, with its LAN and its
-- sequence number, exactly when its LSDU size fits the 12 bits of the field. A larger frame, for
-- which the field wraps, is refused. The number is a 16-bit one and the LAN 0 or 1.
pub decode_rct-encode_rct :
    (frame : Bytes) (seq lan : ℕ)
    → 14 ≤ length frame
    → IsU16 seq
    → lan < 2
    → decode_rct (encode_rct frame seq lan) ≡ (
        if ltb (rct_lsdu frame) 4096
        then some (record { lan_id = lan; seq = seq; payload = pad_frame frame })
        else none)
unfolding encode_rct
decode_rct-encode_rct frame seq lan h hs hl =
    let (narrow, bit) = lan_bit lan hl in
    let (word, low, high) = packed_fields (wire_lan_id lan) (rct_lsdu frame) narrow in
    rw
      (
        decode_rct-trailer (pad_frame frame) seq _ (omega (arith, length-pad_frame frame)) hs word,
        expected_lsdu-trailer frame seq _ h,
        low,
        high,
        bit,
      )
      (ground arith)

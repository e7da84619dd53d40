-- ===== src/Supervision/RoundTrip.antt =====
-- Parse on the frames that the builders make.
use prp_sim.Base.{
  ℕ, ◌/◌, ◌<◌, ◌≡◌, refl, sym, ap, ◌∙◌, false, some, [], ◌∷◌, ◌++◌, append-nil, arith, length,
  replicate, length-append, Bytes, u16_at, low_bits, shl16, IsU16, join_bits, done,
}
use prp_sim.Engine.Ether.{mac_text, get_src_mac, is_vlan_frame}
use prp_sim.Engine.Rct.{decode_rct, expected_lsdu, wire_lan_id}
use prp_sim.Engine.Rct.RoundTrip.{decode_rct-trailer, trailer, lan_bit, is_vlan_frame-append}
use prp_sim.Supervision.{
  Frame, pad_to_min, sup_payload, build, build_rcted, build_hsr, parse, is_sup_header, parse_fields,
}

six_elements : (xs : Bytes) → length xs ≡ 6 → (a b c d e f : ℕ) × (xs ≡ a ∷ b ∷ c ∷ d ∷ e ∷ f ∷ [])
six_elements [] h = absurd (omega arith)
six_elements (a ∷ []) h = absurd (omega arith)
six_elements (a ∷ b ∷ []) h = absurd (omega arith)
six_elements (a ∷ b ∷ c ∷ []) h = absurd (omega arith)
six_elements (a ∷ b ∷ c ∷ d ∷ []) h = absurd (omega arith)
six_elements (a ∷ b ∷ c ∷ d ∷ e ∷ []) h = absurd (omega arith)
six_elements (a ∷ b ∷ c ∷ d ∷ e ∷ f ∷ []) h = (a, b, c, d, e, f, refl)
six_elements (a ∷ b ∷ c ∷ d ∷ e ∷ f ∷ g ∷ r) h = absurd (omega arith)

-- What a receiver should read off a supervision frame of the node `mac`.
abbrev pub announced : Bytes → ℕ → ℕ → ℕ → Frame
announced mac seq path tlv_type = record {
  src_mac = mac_text mac 0;
  seq = seq;
  path = path;
  tlv_type = tlv_type;
  mac_addr_a = mac;
  is_red_box = false;
  red_box_mac = replicate 6 0;
}

parse-sup_payload :
    (mac : Bytes) (word seq tlv_type : ℕ) (more : Bytes)
    → length mac ≡ 6
    → IsU16 word
    → IsU16 seq
    → tlv_type < 30
    → parse (pad_to_min (sup_payload mac word seq tlv_type) ++ more)
      ≡ done (some (announced mac seq (word / 4096) tlv_type))
unfolding parse is_sup_header parse_fields pad_to_min sup_payload get_src_mac mac_text u16_at
parse-sup_payload mac word seq tlv_type more size hw hs ht =
    let (a, b, c, d, e, f, shape) = six_elements mac size in rw shape (ground arith)

length-build : (mac : Bytes) (seq : ℕ) → length mac ≡ 6 → length (build mac seq) ≡ 60
unfolding build
length-build mac seq size = let (a, b, c, d, e, f, shape) = six_elements mac size in rw shape

build-EtherType : (mac : Bytes) (seq : ℕ) → length mac ≡ 6 → is_vlan_frame (build mac seq) ≡ false
unfolding build is_vlan_frame u16_at
build-EtherType mac seq size = let (a, b, c, d, e, f, shape) = six_elements mac size in rw shape

-- The PRP dialect, for an address of six bytes and a 16-bit number: what SendSupervisionFrame puts
-- on a LAN is accepted by DecodeRCT, with that LAN and sequence number, and Parse reads from it
-- the node's address, the sequence number, path 0 and the TLV type LIFE_CHECK_DD.
pub build_rcted_lem :
    (mac : Bytes) (seq lan : ℕ)
    → length mac ≡ 6
    → IsU16 seq
    → lan < 2
    → (decode_rct (build_rcted mac seq lan)
        ≡ some (record { lan_id = lan; seq = seq; payload = build mac seq }))
      × (parse (build_rcted mac seq lan) ≡ done (some (announced mac seq 0 20)))
unfolding build_rcted expected_lsdu
build_rcted_lem mac seq lan size hs hl = (
  decode_rct-trailer (build mac seq) seq _ (omega (arith, length-build mac seq size)) hs
        (omega (arith, lan_bit lan hl))
      ∙ rw (expected) (ground (arith, lan_bit lan hl)),
  (unfold build in parse-sup_payload mac 1 seq 20 _ size (omega arith) hs (omega arith)),
)
  where
    expected :
        expected_lsdu (build mac seq ++ trailer seq (join_bits (shl16 (wire_lan_id lan) 12) 52))
        ≡ 52
    expected = rw (
      is_vlan_frame-append (build mac seq) _ (omega (arith, length-build mac seq size)),
      build-EtherType mac seq size,
      length-append (build mac seq) (trailer seq _),
      length-build mac seq size,
    )

-- The HSR dialect, for an address of six bytes, a 16-bit number and a path of four bits: Parse
-- reads back the address, the sequence number and the path.
pub parse-build_hsr :
    (mac : Bytes) (seq path : ℕ)
    → length mac ≡ 6
    → IsU16 seq
    → path < 16
    → parse (build_hsr mac seq path) ≡ done (some (announced mac seq path 23))
unfolding build_hsr
parse-build_hsr mac seq path size hs hp =
    ap parse (sym (append-nil _))
    ∙ parse-sup_payload mac _ seq 23 [] size (omega arith) hs (omega arith)
    ∙ rw top
  where
    top : join_bits (shl16 (low_bits path 4) 12) 1 / 4096 ≡ path
    top = omega arith

-- ===== src/Examples/Codecs.antt =====
-- The codecs' properties at concrete frames.
use prp_sim.Base.{
  panics, ℕ, ◌+◌, ◌*◌, ◌/◌, ◌%◌, ◌<◌, ◌≡◌, refl, inl, inr, false, none, some, [], ◌∷◌, ◌++◌, arith,
  ltb, if◌then◌else◌, length, take, Bytes, u16_at, put_u16, done, panics,
}
use prp_sim.Engine.Ether.{is_vlan_type, get_ether_type}
use prp_sim.Engine.Ether.Types.{last, tag, get_ether_type_lem}
use prp_sim.Engine.Rct.{encode_rct, decode_rct, pad_frame, rct_lsdu, Decoded, expected_lsdu}
use prp_sim.Engine.Rct.RoundTrip.{decode_rct-encode_rct, trailer}
use prp_sim.Engine.Rct.Sound.{decode_rct_sound}
use prp_sim.Engine.Hsr.{
  Tag, encode_hsr, decode_hsr, strip_hsr, rewrite_hsr_path, rewrite_hsr_path_lane,
}
use prp_sim.Engine.Hsr.RoundTrip.{decode_hsr-encode_hsr}
use prp_sim.Engine.Hsr.Rewrite.{Rewritten, rewrite_hsr_path_lane_lem}
use prp_sim.Prp.Ring.Inject.{hsr_body}
use prp_sim.Prp.Ring.Inject.Tagged.{whole, hsr_body_lem}
use prp_sim.Supervision.{build, build_rcted, build_hsr, parse}
use prp_sim.Supervision.RoundTrip.{announced, build_rcted_lem, parse-build_hsr}
use prp_sim.Examples.Data.{addresses, box_mac, san_frame, san_payload, ring_frame, ring_tag}

decode_rct-encode_rct_example : decode_rct (encode_rct san_frame 7 1) ≡ (
    if ltb (rct_lsdu san_frame) 4096
    then some (record { lan_id = 1; seq = 7; payload = pad_frame san_frame })
    else none)
decode_rct-encode_rct_example =
    decode_rct-encode_rct san_frame 7 1 (omega arith) (omega arith) (omega arith)

abbrev got : Decoded
got = record { lan_id = 1; seq = 7; payload = pad_frame san_frame }

decode_rct_sound_example :
    (packed : ℕ) × (encode_rct san_frame 7 1 ≡ got.payload ++ trailer got.seq packed)
    × (packed % 4096 ≡ expected_lsdu (encode_rct san_frame 7 1))
    × (got.lan_id ≡ packed / 4096 % 16 % 2)
    × (got.lan_id < 2)
    × (length got.payload + 6 ≡ length (encode_rct san_frame 7 1))
unfolding encode_rct pad_frame decode_rct prp_sim.Engine.Ether.is_vlan_frame u16_at
    prp_sim.Engine.Rct.wire_lan_id rct_lsdu expected_lsdu
decode_rct_sound_example = decode_rct_sound (encode_rct san_frame 7 1) got (ground arith) refl

decode_hsr-encode_hsr_example :
    decode_hsr (addresses ++ (encode_hsr san_payload 3 9 0x0800 ++ (0 ∷ 0 ∷ [])))
    ≡ some (record { path = 3; seq = 9; encap_proto = 0x0800; payload = san_payload })
decode_hsr-encode_hsr_example =
    decode_hsr-encode_hsr addresses san_payload 3 9 0x0800 (0 ∷ 0 ∷ []) (inl refl) (omega arith)
      (omega arith) (omega arith) (omega arith)

-- The same behind a VLAN tag.
abbrev vlan_addresses : Bytes
vlan_addresses = addresses ++ (put_u16 0x8100 ++ put_u16 5)

rewrite_hsr_path_lane_lem_example :
    Rewritten
      (ring_frame 6 9)
      (ring_tag 6 9)
      ((ring_tag 6 9).path / 2 * 2 + (if false then 0 else 1))
      (rewrite_hsr_path_lane (ring_frame 6 9) false)
unfolding encode_hsr decode_hsr prp_sim.Engine.Hsr.hsr_tag_offset is_vlan_type u16_at
rewrite_hsr_path_lane_lem_example =
    rewrite_hsr_path_lane_lem (ring_frame 6 9) (ring_tag 6 9) false (omega arith) refl

hsr_body_lem_example :
    (body : Bytes) × (hsr_body (whole vlan_addresses 0x0800 san_payload) 6 9 ≡ done body)
    × (decode_hsr body
        ≡ some (record { path = 6; seq = 9; encap_proto = 0x0800; payload = san_payload }))
    × (strip_hsr body ≡ some (whole vlan_addresses 0x0800 san_payload))
unfolding is_vlan_type u16_at
hsr_body_lem_example =
    hsr_body_lem vlan_addresses san_payload 0x0800 6 9 (inr (refl, refl)) (omega arith) refl
      (omega arith) (omega arith) (omega arith)

-- Two VLAN tags.
abbrev double_tagged : Bytes
double_tagged = vlan_addresses ++ (put_u16 0x88a8 ++ put_u16 6 ++ put_u16 0x0800 ++ san_payload)

get_ether_type_lem_example : get_ether_type double_tagged ≡ u16_at double_tagged 20
unfolding is_vlan_type u16_at
get_ether_type_lem_example =
    get_ether_type_lem double_tagged 20 (tag refl (tag refl (last refl))) (omega arith)

build_rcted_lem_example :
    (decode_rct (build_rcted box_mac 5 1)
      ≡ some (record { lan_id = 1; seq = 5; payload = build box_mac 5 }))
    × (parse (build_rcted box_mac 5 1) ≡ done (some (announced box_mac 5 0 20)))
build_rcted_lem_example = build_rcted_lem box_mac 5 1 refl (omega arith) (omega arith)

parse-build_hsr_example : parse (build_hsr box_mac 5 3) ≡ done (some (announced box_mac 5 3 23))
parse-build_hsr_example = parse-build_hsr box_mac 5 3 refl (omega arith) (omega arith)

abbrev short_sup : Bytes
short_sup = take 22 (build box_mac 5)

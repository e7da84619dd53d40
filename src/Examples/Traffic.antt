-- ===== src/Examples/Traffic.antt =====
-- The traffic generator's properties at a concrete publisher.
use prp_sim.Base.{
  panics, ℕ, ◌+◌, ◌*◌, ◌/◌, ◌%◌, ◌≤◌, ◌<◌, ◌≡◌, refl, ap, ◌∙◌, inl, inr, true, false, Option, none,
  some, List, [], ◌∷◌, arith, length, Bytes, u16_at, Text, codes, text_eq, Outcome, done, panics,
}
use prp_sim.Engine.Ether.{hex_digit, hex2, mac_text, get_src_mac, get_dst_mac}
use prp_sim.Prp.Multicast.{hex_value, map_lower, to_lower}
use prp_sim.Trafficgen.Tool.{Flags, choose_et, read_flags}
use prp_sim.Trafficgen.Tool.Macs.{ReadsHex, read_flags_lem}
use prp_sim.Trafficgen.Ping.{Echo, ping_recv}
use prp_sim.Trafficgen.{Addresses, et_goose, et_sv, build_frame_et, parse_frame}
use prp_sim.Trafficgen.Frames.{parse_frame-build_frame_et, parse_frame-build_frame_et_sv}
use prp_sim.Trafficgen.Stats.{Stats, no_stats}
use prp_sim.Trafficgen.Stats.Counts.{IsCounted}
use prp_sim.Trafficgen.Run.{Publisher, send, recv, Arrival}
use prp_sim.Trafficgen.Run.Stream.{read_keys, recv_lem}
use prp_sim.Trafficgen.Run.Stream.Whole.{IsPublisher, arrive, send_is_received}

abbrev tool : Addresses
tool = record {
  dst_mac = 0x01 ∷ 0x0c ∷ 0xcd ∷ 0x01 ∷ 0x00 ∷ 0x01 ∷ [];
  src_mac = 0x02 ∷ 0x00 ∷ 0x00 ∷ 0x00 ∷ 0x00 ∷ 0x01 ∷ [];
}

abbrev noon : ℕ × ℕ
noon = (1700000000, 123456789)

parse_frame-build_frame_et_example :
    (ns : ℕ) × (ns ≤ noon.1)
    × (noon.1 ≤ ns + 60)
    × (parse_frame (build_frame_et tool 0x3fff 5 1 noon (some 7) 4 et_goose) [] 0x3fff
        ≡ done (
            some (record {
              appid = 0x3fff;
              st_num = 5;
              sq_num = 1;
              smp_cnt = 0;
              sent_at = some (noon.0, ns);
              all_data = false;
              vid = some 7;
              pcp = 4;
            })))
parse_frame-build_frame_et_example =
    parse_frame-build_frame_et tool 0x3fff 5 1 noon (some 7) 4 0x3fff [] (omega arith) (omega arith)
      (omega arith) (omega arith) (omega arith) (omega arith, omega arith) (inr refl)

parse_frame-build_frame_et_sv_example :
    parse_frame (build_frame_et tool 0x4000 5 1 noon none 4 et_sv) (7 ∷ []) 0
    ≡ done (
        some (record {
          appid = 0x4000;
          st_num = 0;
          sq_num = 0;
          smp_cnt = 5;
          sent_at = none;
          all_data = false;
          vid = none;
          pcp = 0;
        }))
parse_frame-build_frame_et_sv_example =
    parse_frame-build_frame_et_sv tool 0x4000 5 1 noon none 4 0 (7 ∷ []) (omega arith) (omega arith)
      tt (inl refl)

abbrev publisher : Publisher
publisher = record {
  addresses = tool;
  appid = 0x3fff;
  vid = none;
  pcp = 0;
  et = et_goose;
  burst = true;
  clock = λ i. noon;
}

publisher-IsPublisher : IsPublisher publisher
publisher-IsPublisher = record {
  et = refl;
  appid = omega arith;
  tag = tt;
  since = λ i. omega arith;
  small = λ i. omega arith;
}

abbrev quiet : ℕ → Bytes × ℕ
quiet i = ([], 1700000000123500000)

send_is_received_example :
    (m : Stats) × (recv 0 (arrive quiet 0 (send publisher 2)) no_stats ≡ done m)
    × (m.total ≡ length (send publisher 2))
    × (m.unique ≡ length (send publisher 2))
    × (m.dupes ≡ 0)
send_is_received_example =
    send_is_received publisher 2 0 quiet publisher-IsPublisher (inl refl) (omega arith)

-- A frame that comes twice, one of another APPID, and a short one.
abbrev mixed : List Arrival
mixed = arrive quiet 0 (
    build_frame_et tool 0x3fff 5 1 noon none 0 et_goose
    ∷ build_frame_et tool 0x3fff 5 1 noon none 0 et_goose
    ∷ build_frame_et tool 0x4000 5 1 noon none 0 et_goose
    ∷ (1 ∷ [])
    ∷ [])

abbrev stats_or : Outcome Stats → Stats
stats_or (done s) = s
stats_or panics = no_stats

recv_lem_example : IsCounted (read_keys 0x3fff mixed) (stats_or (recv 0x3fff mixed no_stats))
unfolding recv parse_frame build_frame_et prp_sim.Trafficgen.assemble_frame
    prp_sim.Iec.Goose.build_goose_apdu prp_sim.Iec.Ber.encode_length prp_sim.Iec.Walk.concat_tlvs
    prp_sim.Iec.Ber.encode_tlv prp_sim.Trafficgen.event prp_sim.Iec.encode_utc_time u16_at
    prp_sim.Iec.Goose.parse_goose_apdu prp_sim.Iec.Walk.read_header prp_sim.Iec.Ber.parse_length
    prp_sim.Iec.Walk.walk prp_sim.Iec.Ber.parse_tlv
recv_lem_example = recv_lem 0x3fff mixed (stats_or (recv 0x3fff mixed no_stats)) refl

-- Two hexadecimal digits.
abbrev scan_digits : Text → Option ℕ
scan_digits [] = none
scan_digits (c ∷ []) = none
scan_digits (c ∷ d ∷ s) = elim (hex_value c) as (λ _. Option ℕ) [
  | none ↦ none
  | some hi ↦ elim (hex_value d) as (λ _. Option ℕ) [ none ↦ none | some lo ↦ some (hi * 16 + lo) ]
]

hex_value-hex_digit : (d : ℕ) → d < 16 → hex_value (hex_digit d) ≡ some d
unfolding hex_value hex_digit
hex_value-hex_digit d h = ground arith

scan_digits-ReadsHex : ReadsHex scan_digits
unfolding hex2
scan_digits-ReadsHex b h =
    ap
      (λ o. elim o as (λ _. Option ℕ) [
        | none ↦ none
        | some hi ↦ elim (hex_value (hex_digit (b % 16))) as (λ _. Option ℕ) [
          | none ↦ none
          | some lo ↦ some (hi * 16 + lo)
        ]
      ])
      (hex_value-hex_digit (b / 16 % 16) (omega arith))
    ∙ ap (λ o. elim o as (λ _. Option ℕ) [ none ↦ none | some lo ↦ some (b / 16 % 16 * 16 + lo) ])
        (hex_value-hex_digit (b % 16) (omega arith))
    ∙ ap some (omega arith)

abbrev flags : Flags
flags = record {
  et = codes "SV";
  mcast = mac_text tool.dst_mac 0;
  src_mac = mac_text tool.src_mac 0;
}

read_flags_lem_example :
    (a : Addresses) × (read_flags scan_digits flags ≡ some (et_sv, a))
    × ((appid st_num sq_num : ℕ) (now : ℕ × ℕ) (vid : Option ℕ) (pcp : ℕ)
        → let frame = build_frame_et a appid st_num sq_num now vid pcp et_sv in
          (get_dst_mac frame ≡ flags.mcast) × (get_src_mac frame ≡ flags.src_mac))
unfolding choose_et text_eq map_lower to_lower
read_flags_lem_example =
    read_flags_lem scan_digits flags tool.dst_mac tool.src_mac et_sv (codes "01:0c:cd:04:00:00")
      scan_digits-ReadsHex (omega arith) (omega arith) refl refl refl

-- Two echoes.
abbrev echo : ℕ → Echo
echo st_num = record {
  frame = build_frame_et tool 0x3fff st_num 1 noon none 0 et_goose;
  spare = [];
  came = (1700000000, 123500000);
  later = 1700000000123500010;
}

abbrev pinged : Stats
pinged = stats_or (ping_recv 0x3fff (echo 1 ∷ echo 2 ∷ []) no_stats)

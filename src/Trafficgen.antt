-- ===== src/Trafficgen.antt =====
-- cmd/trafficgen/main.go: the frames of the traffic generator, assembled and parsed.
pub mod Stats
pub mod Run
pub mod Frames
pub mod Tool
pub mod Ping
use prp_sim.Base.{
  ℕ, ◌+◌, Bool, false, ◌&&◌, ◌||◌, not, Option, none, some, [], ◌∷◌, ◌++◌, ltb, ◌==◌, if◌then◌else◌,
  length, drop, Bytes, byte_at, u16_at, put_u16, codes, shr, low_bits, shl16, join_bits, Outcome,
  done, ◌>>=◌,
}
use prp_sim.Iec.Goose.{Event, build_goose_apdu, Found, parse_goose_apdu}
use prp_sim.Iec.Sv.{build_sv_apdu, parse_sv_apdu}

abbrev pub et_goose : ℕ
et_goose = 0x88b8

abbrev pub et_sv : ℕ
et_sv = 0x88ba

-- `copy(frame[0:6], mac)` into zeroed bytes.
abbrev pub copy_mac : Bytes → Bytes
copy_mac mac =
    byte_at mac 0
    ∷ byte_at mac 1
    ∷ byte_at mac 2
    ∷ byte_at mac 3
    ∷ byte_at mac 4
    ∷ byte_at mac 5
    ∷ []

-- The two addresses, which the command line sets.
pub record Addresses : Type 0 where
  pub dst_mac : Bytes
  pub src_mac : Bytes

abbrev pub payload_header : ℕ → Bytes → Bytes
payload_header appid apdu = put_u16 appid ++ (put_u16 (length apdu + 8) ++ (put_u16 0 ++ put_u16 0))

-- A VLAN ID of `none` is a negative one, untagged. A negative PCP is left out.
unfoldable pub assemble_frame : Addresses → ℕ → Bytes → Option ℕ → ℕ → ℕ → Bytes
assemble_frame a appid apdu vid pcp et =
    let header = payload_header appid apdu in
    let macs = copy_mac a.dst_mac ++ copy_mac a.src_mac in
    elim vid as (λ _. Bytes) [
      | none ↦ macs ++ (put_u16 et ++ (header ++ apdu))
      | some v ↦
          let tci = join_bits (shl16 (low_bits pcp 3) 13) (low_bits v 12) in
          macs ++ (0x81 ∷ 0x00 ∷ (put_u16 tci ++ (put_u16 et ++ (header ++ apdu))))
    ]

-- The APDU of a GOOSE frame, of the time that the clock shows.
unfoldable pub event : ℕ → ℕ → ℕ × ℕ → Event
event st_num sq_num now = record {
  st_num = st_num;
  sq_num = sq_num;
  epoch = now.0;
  ns = now.1;
  test = false;
  conf_rev = 1;
  gcb_ref = codes "LLN0$GO$gcb0";
  dat_set = codes "LLN0$dataset";
  go_id = codes "LLN0$GO$gcb0";
}

unfoldable pub build_frame : Addresses → ℕ → ℕ → ℕ → ℕ × ℕ → Option ℕ → ℕ → Bytes
build_frame a appid st_num sq_num now vid pcp =
    assemble_frame a appid (build_goose_apdu (event st_num sq_num now)) vid pcp et_goose

-- The destination that the code passes as well is not read: the frame takes the one of the tool.
unfoldable pub build_frame_et : Addresses → ℕ → ℕ → ℕ → ℕ × ℕ → Option ℕ → ℕ → ℕ → Bytes
build_frame_et a appid st_num sq_num now vid pcp et =
    if et == et_goose
    then assemble_frame a appid (build_goose_apdu (event st_num sq_num now)) vid pcp et
    else assemble_frame a appid (build_sv_apdu st_num 1 (codes "MU01")) vid pcp et

pub record Parsed : Type 0 where
  pub appid : ℕ
  pub st_num : ℕ
  pub sq_num : ℕ
  pub smp_cnt : ℕ
  pub sent_at : Option (ℕ × ℕ)
  pub all_data : Bool
  pub vid : Option ℕ
  pub pcp : ℕ

abbrev pub parsed_goose : ℕ → Option ℕ → ℕ → Option Found → Option Parsed
parsed_goose appid vid pcp none = none
parsed_goose appid vid pcp (some f) = some (record {
  appid = appid;
  st_num = f.st_num;
  sq_num = f.sq_num;
  smp_cnt = 0;
  sent_at = f.time;
  all_data = f.all_data;
  vid = vid;
  pcp = pcp;
})

abbrev pub parsed_sv : ℕ → Option ℕ → ℕ → Option ℕ → Option Parsed
parsed_sv appid vid pcp none = none
parsed_sv appid vid pcp (some c) = some (record {
  appid = appid;
  st_num = 0;
  sq_num = 0;
  smp_cnt = c;
  sent_at = none;
  all_data = false;
  vid = vid;
  pcp = pcp;
})

-- From the EtherType on. `none` is `ok` false, with which the callers read nothing else.
unfoldable pub parse_payload : Bytes → Bytes → ℕ → Option ℕ → ℕ → ℕ → ℕ → Outcome (Option Parsed)
parse_payload frame spare want vid pcp et off =
    let appid = u16_at frame off in
    let apdu = drop (off + 8) frame in
    if not (et == et_goose) && not (et == et_sv)
    then done none
    else if ltb (length frame) (off + 8)
    then done none
    else if not (want == 0) && not (appid == want)
    then done none
    else if et == et_goose
    then (parse_goose_apdu apdu >>= λ f. done (parsed_goose appid vid pcp f))
    else (parse_sv_apdu apdu spare >>= λ c. done (parsed_sv appid vid pcp c))

-- `spare` is what lies behind the frame in the receive buffer.
unfoldable pub parse_frame : Bytes → Bytes → ℕ → Outcome (Option Parsed)
unfolding parse_payload
parse_frame frame spare want =
    let et = u16_at frame 12 in
    let tci = u16_at frame 14 in
    if ltb (length frame) 22
    then done none
    else if et == 0x8100 || et == 0x88a8
    then (if ltb (length frame) 26
        then done none
        else parse_payload frame spare want (some (low_bits tci 12)) (low_bits (shr tci 13) 3)
            (u16_at frame 16) 18)
    else parse_payload frame spare want none 0 et 14

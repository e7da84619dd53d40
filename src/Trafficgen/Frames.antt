-- ===== src/Trafficgen/Frames.antt =====
-- cmd/trafficgen/main.go: parseFrame gives back what buildFrameEt put into a frame.
pub mod Assembled
use prp_sim.Base.{
  ℕ, ◌+◌, ◌^◌, ◌≤◌, ◌<◌, ◌≡◌, ap, ◌∙◌, ◌⊎◌, false, Option, none, some, arith, Bytes, codes, IsU16,
  done, ◌>>=◌,
}
use prp_sim.Iec.Goose.RoundTrip.{parse_goose_apdu-build_goose_apdu}
use prp_sim.Iec.Sv.RoundTrip.{parse_sv_apdu-build_sv_apdu}
use prp_sim.Iec.Goose.{build_goose_apdu}
use prp_sim.Iec.Sv.{build_sv_apdu}
use prp_sim.Trafficgen.{
  Addresses, et_goose, et_sv, event, build_frame_et, parsed_goose, parsed_sv, parse_frame,
}
use prp_sim.Trafficgen.Frames.Assembled.{goose, sv, IsTag, read_pcp, parse_frame-assemble_frame}

-- A GOOSE frame, tagged or not, whose APPID and numbers have 16 bits and whose clock shows a time
-- of the years 1970 to 2106, read by a subscriber to its APPID or to all: parseFrame does not
-- crash and gives back the APPID, both numbers, the tag, and the second, with the nanoseconds
-- early by at most 60.
pub parse_frame-build_frame_et :
    (a : Addresses) (appid st_num sq_num : ℕ) (now : ℕ × ℕ) (vid : Option ℕ) (pcp want : ℕ)
    (spare : Bytes)
    → IsU16 appid
    → IsU16 st_num
    → IsU16 sq_num
    → now.0 < 2 ^ 32
    → now.1 < 1_000_000_000
    → IsTag vid pcp
    → (want ≡ 0) ⊎ (want ≡ appid)
    → (ns : ℕ) × (ns ≤ now.1)
      × (now.1 ≤ ns + 60)
      × (parse_frame (build_frame_et a appid st_num sq_num now vid pcp et_goose) spare want
          ≡ done (
              some (record {
                appid = appid;
                st_num = st_num;
                sq_num = sq_num;
                smp_cnt = 0;
                sent_at = some (now.0, ns);
                all_data = false;
                vid = vid;
                pcp = read_pcp vid pcp;
              })))
unfolding build_frame_et event
parse_frame-build_frame_et a appid st_num sq_num now vid pcp want spare h st sq since small t
      wanted =
    let e = event st_num sq_num now in
    let (ns, early, close, read) =
      parse_goose_apdu-build_goose_apdu e (omega arith) st sq since small in
    (
      ns,
      early,
      close,
      parse_frame-assemble_frame a appid et_goose (build_goose_apdu e) spare want h goose wanted vid
            pcp t
          ∙ ap (λ o. o >>= λ f. done (parsed_goose appid vid (read_pcp vid pcp) f)) read,
    )

-- A Sampled Values frame, tagged or not, whose APPID and count have 16 bits, read by a subscriber
-- to its APPID or to all, whatever lies behind it in the buffer: parseFrame does not crash and
-- gives back the APPID, the tag and the sample count, no time, and 0 for both numbers of the key.
pub parse_frame-build_frame_et_sv :
    (a : Addresses) (appid st_num sq_num : ℕ) (now : ℕ × ℕ) (vid : Option ℕ) (pcp want : ℕ)
    (spare : Bytes)
    → IsU16 appid
    → IsU16 st_num
    → IsTag vid pcp
    → (want ≡ 0) ⊎ (want ≡ appid)
    → parse_frame (build_frame_et a appid st_num sq_num now vid pcp et_sv) spare want
      ≡ done (
          some (record {
            appid = appid;
            st_num = 0;
            sq_num = 0;
            smp_cnt = st_num;
            sent_at = none;
            all_data = false;
            vid = vid;
            pcp = read_pcp vid pcp;
          }))
unfolding build_frame_et
parse_frame-build_frame_et_sv a appid st_num sq_num now vid pcp want spare h st t wanted =
    parse_frame-assemble_frame a appid et_sv (build_sv_apdu st_num 1 (codes "MU01")) spare want h sv
      wanted vid pcp t
    ∙ ap (λ o. o >>= λ c. done (parsed_sv appid vid (read_pcp vid pcp) c))
        (parse_sv_apdu-build_sv_apdu st_num 1 (codes "MU01") spare st (omega arith))

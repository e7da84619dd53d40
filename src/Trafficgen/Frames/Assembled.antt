-- ===== src/Trafficgen/Frames/Assembled.antt =====
-- cmd/trafficgen/main.go: parseFrame reads what assembleFrame put in front of a payload.
use prp_sim.Base.{
  if-false, ℕ, ◌+◌, ◌*◌, ◌/◌, ◌%◌, ◌<◌, ◌≡◌, refl, ap, ◌∙◌, ◌⊎◌, inl, inr, false, ◌&&◌, ◌||◌, not,
  Option, none, some, ◌∷◌, ◌++◌, arith, ltb, ◌==◌, if◌then◌else◌, le→ltb, length, drop,
  length-append, Bytes, u16_at, put_u16, u16_at-append_at, shr, low_bits, shl16, IsU16, join_bits,
  Outcome, done, ◌>>=◌,
}
use prp_sim.Engine.Hsr.Fields.{drop-append_at}
use prp_sim.Iec.Goose.{parse_goose_apdu}
use prp_sim.Iec.Sv.{parse_sv_apdu}
use prp_sim.Trafficgen.{
  Addresses, et_goose, et_sv, copy_mac, payload_header, assemble_frame, Parsed, parsed_goose,
  parsed_sv, parse_payload, parse_frame,
}

-- The two types of frames.
pub data IsTool : ℕ → Type 0 where
  goose : IsTool et_goose
  sv : IsTool et_sv

-- A VLAN ID has 12 bits and a PCP three.
abbrev pub IsTag : Option ℕ → ℕ → Type 0
IsTag none pcp = Unit {0}
IsTag (some v) pcp = (v < 4096) × (pcp < 8)

-- The PCP that is read of an untagged frame is 0.
abbrev pub read_pcp : Option ℕ → ℕ → ℕ
read_pcp none pcp = 0
read_pcp (some v) pcp = pcp

-- What is read of a payload, by its type.
abbrev pub read_payload : ℕ → ℕ → Option ℕ → ℕ → Bytes → Bytes → Outcome (Option Parsed)
read_payload et appid vid pcp apdu spare =
    if et == et_goose
    then (parse_goose_apdu apdu >>= λ f. done (parsed_goose appid vid pcp f))
    else (parse_sv_apdu apdu spare >>= λ c. done (parsed_sv appid vid pcp c))

word : (v : ℕ) → IsU16 v → (v / 256 % 256) * 256 + v % 256 ≡ v
word v h = omega arith

tci_word :
    (v pcp : ℕ)
    → v < 4096
    → pcp < 8
    → let tci = join_bits (shl16 (low_bits pcp 3) 13) (low_bits v 12) in
      let read = (tci / 256 % 256) * 256 + tci % 256 in
      (low_bits read 12 ≡ v) × (low_bits (shr read 13) 3 ≡ pcp)
tci_word v pcp h k = (omega arith, omega arith)

is_tool : (et : ℕ) → IsTool et → (not (et == et_goose) && not (et == et_sv)) ≡ false
is_tool et goose = refl
is_tool et sv = refl

is_wanted :
    (want appid : ℕ)
    → (want ≡ 0) ⊎ (want ≡ appid)
    → (not (want == 0) && not (appid == want)) ≡ false
is_wanted want appid (inl all) = ground arith
is_wanted want appid (inr same) = ground arith

parse_payload-header :
    (front : Bytes) (appid et : ℕ) (apdu spare : Bytes) (want : ℕ) (vid : Option ℕ) (pcp : ℕ)
    → IsU16 appid
    → IsTool et
    → (want ≡ 0) ⊎ (want ≡ appid)
    → parse_payload
        (front ++ (payload_header appid apdu ++ apdu))
        spare
        want
        vid
        pcp
        et
        (length front)
      ≡ read_payload et appid vid pcp apdu spare
unfolding parse_payload
parse_payload-header front appid et apdu spare want vid pcp h tool wanted =
    if-false (not (et == et_goose) && not (et == et_sv)) (done none) _ (is_tool et tool)
    ∙ if-false (ltb (length frame) (length front + 8)) (done none) _ (
        le→ltb (length frame) (length front + 8)
          (omega (arith, length-append front (payload_header appid apdu ++ apdu))))
    ∙ if-false (not (want == 0) && not (u16_at frame (length front) == want)) (done none) _
        (rw at (is_wanted want appid wanted))
    ∙ ap (λ (x : ℕ × Bytes). read_payload et x.0 vid pcp x.1 spare) both
  where
    frame : Bytes
    frame = front ++ (payload_header appid apdu ++ apdu)

    at : u16_at frame (length front) ≡ appid
    at =
        u16_at-append_at front (payload_header appid apdu ++ apdu) (length front) 0 (omega arith)
        ∙ unfold u16_at in word appid h

    both :
        ◌≡◌ {A = ℕ × Bytes}
          (u16_at frame (length front), drop (length front + 8) frame)
          (appid, apdu)
    both =
        ap {B = ℕ × Bytes} (λ v. (v, drop (length front + 8) frame)) at
        ∙ ap (λ xs. (appid, xs)) (drop-append_at front (payload_header appid apdu ++ apdu) 8)

module _ (a : Addresses) (appid et : ℕ) (apdu spare : Bytes) (want : ℕ) (h : IsU16 appid)
    (tool : IsTool et) (wanted : (want ≡ 0) ⊎ (want ≡ appid)) where
  et_word : (et / 256 % 256) * 256 + et % 256 ≡ et
  et_word = go et tool
    where
      go : (et : ℕ) → IsTool et → (et / 256 % 256) * 256 + et % 256 ≡ et
      go et goose = refl
      go et sv = refl

  is_untagged : (et == 0x8100 || et == 0x88a8) ≡ false
  is_untagged = go et tool
    where
      go : (et : ℕ) → IsTool et → (et == 0x8100 || et == 0x88a8) ≡ false
      go et goose = refl
      go et sv = refl

  abbrev macs : Bytes
  macs = copy_mac a.dst_mac ++ copy_mac a.src_mac

  parse_frame-untagged :
      (pcp : ℕ)
      → parse_frame (assemble_frame a appid apdu none pcp et) spare want
        ≡ read_payload et appid none 0 apdu spare
  unfolding parse_frame assemble_frame u16_at
  parse_frame-untagged pcp =
      let frame = macs ++ (put_u16 et ++ (payload_header appid apdu ++ apdu)) in
      if-false (ltb (length frame) 22) (done none) _ (le→ltb (length frame) 22 (omega arith))
      ∙ ap
          (λ v.
            if v == 0x8100 || v == 0x88a8
            then (if ltb (length frame) 26
                then done none
                else parse_payload frame spare want (some (low_bits (u16_at frame 14) 12))
                    (low_bits (shr (u16_at frame 14) 13) 3) (u16_at frame 16) 18)
            else parse_payload frame spare want none 0 v 14)
          et_word
      ∙ if-false (et == 0x8100 || et == 0x88a8) _ _ is_untagged
      ∙ parse_payload-header (macs ++ put_u16 et) appid et apdu spare want none 0 h tool wanted

  parse_frame-tagged :
      (v pcp : ℕ)
      → v < 4096
      → pcp < 8
      → parse_frame (assemble_frame a appid apdu (some v) pcp et) spare want
        ≡ read_payload et appid (some v) pcp apdu spare
  unfolding parse_frame assemble_frame u16_at
  parse_frame-tagged v pcp hv hp =
      let tci = join_bits (shl16 (low_bits pcp 3) 13) (low_bits v 12) in
      let front = macs ++ (0x81 ∷ 0x00 ∷ (put_u16 tci ++ put_u16 et)) in
      let frame = front ++ (payload_header appid apdu ++ apdu) in
      let (vid_read, pcp_read) = tci_word v pcp hv hp in
      if-false (ltb (length frame) 22) (done none) _ (le→ltb (length frame) 22 (omega arith))
      ∙ if-false (ltb (length frame) 26) (done none) _ (le→ltb (length frame) 26 (omega arith))
      ∙ ap
          (λ w.
            parse_payload frame spare want (some w) (low_bits (shr (u16_at frame 14) 13) 3)
              (u16_at frame 16) 18)
          vid_read
      ∙ ap (λ w. parse_payload frame spare want (some v) w (u16_at frame 16) 18) pcp_read
      ∙ ap (λ w. parse_payload frame spare want (some v) pcp w 18) et_word
      ∙ parse_payload-header front appid et apdu spare want (some v) pcp h tool wanted

  -- Of either type, with or without a tag.
  pub parse_frame-assemble_frame :
      (vid : Option ℕ) (pcp : ℕ)
      → IsTag vid pcp
      → parse_frame (assemble_frame a appid apdu vid pcp et) spare want
        ≡ read_payload et appid vid (read_pcp vid pcp) apdu spare
  parse_frame-assemble_frame none pcp t = parse_frame-untagged pcp
  parse_frame-assemble_frame (some v) pcp (hv, hp) = parse_frame-tagged v pcp hv hp

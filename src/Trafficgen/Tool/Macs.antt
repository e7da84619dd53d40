-- ===== src/Trafficgen/Tool/Macs.antt =====
-- The addresses that are given on the command line are those of the frames.
use prp_sim.Base.{
  ℕ, suc, ◌<◌, ◌≡◌, refl, sym, ap, ◌∙◌, inl, inr, false, Option, none, some, [], ◌∷◌, ◌++◌, arith,
  ◌==◌, if◌then◌else◌, Bool-cases, drop, All, Bytes, IsByte, byte_at, byte_at-IsByte, Text,
}
use prp_sim.Engine.Ether.{hex2, mac_text, get_src_mac, get_dst_mac}
use prp_sim.Trafficgen.{Addresses, et_goose, copy_mac, assemble_frame, build_frame_et}
use prp_sim.Conf.Load.{is_empty}
use prp_sim.Trafficgen.Tool.{
  parse_mac_bytes, parse_mac, Flags, choose_et, choose_addresses, read_flags, with_et, with_group,
}

-- Two digits are read as the byte that they print.
abbrev pub ReadsHex : (Text → Option ℕ) → Type 0
ReadsHex scan_hex = (b : ℕ) → b < 256 → scan_hex (hex2 b) ≡ some b

abbrev cons_to : ℕ → Option Bytes → Option Bytes
cons_to b o = elim o as (λ _. Option Bytes) [ none ↦ none | some bs ↦ some (b ∷ bs) ]

parse_mac_bytes-hex2 :
    (scan_hex : Text → Option ℕ) (n b : ℕ) (s : Text)
    → ReadsHex scan_hex
    → b < 256
    → parse_mac_bytes scan_hex (suc n) (hex2 b ++ s)
      ≡ cons_to b (parse_mac_bytes scan_hex n (drop 1 s))
unfolding parse_mac_bytes hex2
parse_mac_bytes-hex2 scan_hex n b s reads h =
    ap
      (λ o. elim o as (λ _. Option Bytes) [
        | none ↦ none
        | some x ↦ cons_to x (parse_mac_bytes scan_hex n (drop 1 s))
      ])
      (reads b h)

parse_mac-mac_text :
    (scan_hex : Text → Option ℕ) (mac : Bytes)
    → ReadsHex scan_hex
    → All IsByte mac
    → parse_mac scan_hex (mac_text mac 0) ≡ some (copy_mac mac)
unfolding parse_mac mac_text hex2 parse_mac_bytes
parse_mac-mac_text scan_hex mac reads bytes =
    let step : (n i : ℕ) (s : Text)
        → parse_mac_bytes scan_hex (suc n) (hex2 (byte_at mac i) ++ s)
          ≡ cons_to (byte_at mac i) (parse_mac_bytes scan_hex n (drop 1 s)) =
      λ n i s.
        parse_mac_bytes-hex2 scan_hex n (byte_at mac i) s reads (byte_at-IsByte mac i bytes) in
    step 5 0 from_1
    ∙ ap (cons_to (byte_at mac 0)) (
        step 4 1 from_2
        ∙ ap (cons_to (byte_at mac 1)) (
            step 3 2 from_3
            ∙ ap (cons_to (byte_at mac 2)) (
                step 2 3 from_4
                ∙ ap (cons_to (byte_at mac 3))
                    (step 1 4 (group 5) ∙ ap (cons_to (byte_at mac 4)) (step 0 5 [])))))
  where
    group : ℕ → Text
    group i = b':' ∷ hex2 (byte_at mac i)

    from_4 : Text
    from_4 = group 4 ++ group 5

    from_3 : Text
    from_3 = group 3 ++ from_4

    from_2 : Text
    from_2 = group 2 ++ from_3

    from_1 : Text
    from_1 = group 1 ++ from_2

-- The frame's addresses are those of the tool.
assemble_frame-macs :
    (dst src : Bytes) (appid : ℕ) (apdu : Bytes) (vid : Option ℕ) (pcp et : ℕ)
    → let frame =
        assemble_frame
          (record { dst_mac = copy_mac dst; src_mac = copy_mac src })
          appid
          apdu
          vid
          pcp
          et in
      (get_dst_mac frame ≡ mac_text dst 0) × (get_src_mac frame ≡ mac_text src 0)
unfolding assemble_frame get_dst_mac get_src_mac mac_text
assemble_frame-macs dst src appid apdu none pcp et = (ground arith, ground arith)
assemble_frame-macs dst src appid apdu (some v) pcp et = (ground arith, ground arith)

build_frame_et-macs :
    (dst src : Bytes) (appid st_num sq_num : ℕ) (now : ℕ × ℕ) (vid : Option ℕ) (pcp et : ℕ)
    → let a : Addresses = record { dst_mac = copy_mac dst; src_mac = copy_mac src } in
      let frame = build_frame_et a appid st_num sq_num now vid pcp et in
      (get_dst_mac frame ≡ mac_text dst 0) × (get_src_mac frame ≡ mac_text src 0)
unfolding build_frame_et
build_frame_et-macs dst src appid st_num sq_num now vid pcp et =
    elim (Bool-cases (et == et_goose)) [
      | inl goose ↦ rw goose (assemble_frame-macs dst src appid _ vid pcp et)
      | inr other ↦ rw other (assemble_frame-macs dst src appid _ vid pcp et)
    ]

is_empty-mac_text : (mac : Bytes) → is_empty (mac_text mac 0) ≡ false
unfolding mac_text hex2
is_empty-mac_text mac = refl

choose_addresses_lem :
    (scan_hex : Text → Option ℕ) (dst src : Bytes)
    → ReadsHex scan_hex
    → All IsByte dst
    → All IsByte src
    → choose_addresses scan_hex (mac_text dst 0) (mac_text src 0)
      ≡ some (record { dst_mac = copy_mac dst; src_mac = copy_mac src })
unfolding choose_addresses
choose_addresses_lem scan_hex dst src reads dst_bytes src_bytes =
    ap
      (λ o. elim o as (λ _. Option Addresses) [
        | none ↦ none
        | some d ↦ elim (parse_mac scan_hex (mac_text src 0)) as (λ _. Option Addresses) [
          | none ↦ none
          | some s ↦ some (record { dst_mac = d; src_mac = s })
        ]
      ])
      (parse_mac-mac_text scan_hex dst reads dst_bytes)
    ∙ ap
        (λ o. elim o as (λ _. Option Addresses) [
          | none ↦ none
          | some s ↦ some (record { dst_mac = copy_mac dst; src_mac = s })
        ])
        (parse_mac-mac_text scan_hex src reads src_bytes)

-- A traffic generator whose flags name a known type of frames and give both addresses in the usual
-- form, where two hexadecimal digits are read as their byte: it starts, and every frame that it
-- builds carries these addresses, as the node reads them.
pub read_flags_lem :
    (scan_hex : Text → Option ℕ) (flags : Flags) (dst src : Bytes) (et : ℕ) (group : Text)
    → ReadsHex scan_hex
    → All IsByte dst
    → All IsByte src
    → flags.mcast ≡ mac_text dst 0
    → flags.src_mac ≡ mac_text src 0
    → choose_et flags.et ≡ some (et, group)
    → (a : Addresses) × (read_flags scan_hex flags ≡ some (et, a))
      × ((appid st_num sq_num : ℕ) (now : ℕ × ℕ) (vid : Option ℕ) (pcp : ℕ)
          → let frame = build_frame_et a appid st_num sq_num now vid pcp et in
            (get_dst_mac frame ≡ flags.mcast) × (get_src_mac frame ≡ flags.src_mac))
unfolding read_flags
read_flags_lem scan_hex flags dst src et group reads dst_bytes src_bytes to_dst from_src chosen = (
  record { dst_mac = copy_mac dst; src_mac = copy_mac src },
  ap (with_group scan_hex flags) chosen
      ∙ ap
          (λ v.
            with_et et (choose_addresses scan_hex (if is_empty v then group else v) flags.src_mac))
          to_dst
      ∙ ap
          (λ b.
            with_et et
              (choose_addresses scan_hex (if b then group else mac_text dst 0) flags.src_mac))
          (is_empty-mac_text dst)
      ∙ ap (λ v. with_et et (choose_addresses scan_hex (mac_text dst 0) v)) from_src
      ∙ ap (with_et et) (choose_addresses_lem scan_hex dst src reads dst_bytes src_bytes),
  λ appid st_num sq_num now vid pcp.
      let (to, from) = build_frame_et-macs dst src appid st_num sq_num now vid pcp et in
      (to ∙ sym to_dst, from ∙ sym from_src),
)

-- ===== src/Iec/Sv/RoundTrip.antt =====
-- internal/iec/sv.go: a subscriber reads the sample count that the publisher wrote.
use prp_sim.Base.{
  panics, if-false, ℕ, suc, ◌+◌, ◌*◌, ◌/◌, ◌%◌, ◌^◌, ◌<◌, ◌≡◌, ap, ◌∙◌, ◌||◌, not, Option, none,
  some, ◌∷◌, ◌++◌, arith, ltb, leb, ◌==◌, if◌then◌else◌, length, length-append, Bytes, byte_at,
  slice, u16_at, Text, IsU16, done, panics, ◌>>=◌,
}
use prp_sim.Iec.Ber.{integer16, encode_length}
use prp_sim.Iec.Walk.{concat_tlvs, walk}
use prp_sim.Iec.Walk.Fields.{
  AllShort, each_field, walk-concat_tlvs, length-concat_tlvs, read_header_lem,
  length-concat_tlvs-le,
}
use prp_sim.Iec.Sv.{
  asdu_fields, sv_fields, build_sv_apdu, smp_cnt_of, asdu_field, sv_field, parse_sv_apdu,
}

module _ (smp_cnt conf_rev : ℕ) (sv_id : Text) (short : length sv_id < 2 ^ 29) where
  asdu_fields-AllShort : AllShort (asdu_fields smp_cnt conf_rev sv_id)
  unfolding asdu_fields integer16
  asdu_fields-AllShort = omega arith

  asdu-lt : length (concat_tlvs (asdu_fields smp_cnt conf_rev sv_id)) < 2 ^ 30
  unfolding asdu_fields integer16
  asdu-lt =
      omega (arith, length-concat_tlvs-le (asdu_fields smp_cnt conf_rev sv_id) asdu_fields-AllShort)

  sv_fields-AllShort : AllShort (sv_fields smp_cnt conf_rev sv_id)
  unfolding sv_fields
  sv_fields-AllShort = omega (arith, asdu-lt)

  sv-lt : length (concat_tlvs (sv_fields smp_cnt conf_rev sv_id)) < 2 ^ 32
  unfolding sv_fields
  sv-lt =
      omega (
        arith,
        asdu-lt,
        length-concat_tlvs-le (sv_fields smp_cnt conf_rev sv_id) sv_fields-AllShort,
      )

  word : IsU16 smp_cnt → (smp_cnt / 256 % 256) * 256 + smp_cnt % 256 ≡ smp_cnt
  word h = omega arith

  each_asdu_field :
      (s : Option ℕ)
      → IsU16 smp_cnt
      → each_field asdu_field (asdu_fields smp_cnt conf_rev sv_id) s ≡ done (some smp_cnt)
  unfolding asdu_fields asdu_field smp_cnt_of integer16 u16_at
  each_asdu_field s h = ap (λ v. done (some v)) (word h)

  each_sv_field :
      IsU16 smp_cnt
      → each_field sv_field (sv_fields smp_cnt conf_rev sv_id) none ≡ done (some smp_cnt)
  unfolding sv_fields sv_field smp_cnt_of u16_at
  each_sv_field h =
      let l = asdu_fields smp_cnt conf_rev sv_id in
      ap (λ o. o >>= λ s. done s)
        (walk-concat_tlvs asdu_field l (length (concat_tlvs l)) (some 0) asdu_fields-AllShort
            (length-concat_tlvs l)
          ∙ each_asdu_field (some 0) h)

-- A sample count of 16 bits comes back from its PDU, if the name of the stream is short, whatever
-- lies behind the PDU.
pub parse_sv_apdu-build_sv_apdu :
    (smp_cnt conf_rev : ℕ) (sv_id : Text) (spare : Bytes)
    → IsU16 smp_cnt
    → length sv_id < 2 ^ 29
    → parse_sv_apdu (build_sv_apdu smp_cnt conf_rev sv_id) spare ≡ done (some smp_cnt)
unfolding parse_sv_apdu build_sv_apdu
parse_sv_apdu-build_sv_apdu smp_cnt conf_rev sv_id spare h short =
    let fields = sv_fields smp_cnt conf_rev sv_id in
    let payload = concat_tlvs fields in
    let apdu = 0x60 ∷ (encode_length (length payload) ++ payload) in
    let off = suc (length (encode_length (length payload))) in
    let r = read_header_lem 0x60 payload spare (sv-lt smp_cnt conf_rev sv_id short) in
    if-false (ltb (length apdu) 2 || not (byte_at apdu 0 == 0x60)) (done none) _
      (ground (arith, r.whole, r.at_least))
    ∙ ap
        (λ o. o >>= λ (n, end).
          if leb (2 ^ 63) (end + n) || ltb (length (apdu ++ spare)) (end + n)
          then panics
          else walk sv_field n (slice (apdu ++ spare) end (end + n)) none)
        r.header
    ∙ if-false
        (leb (2 ^ 63) (off + length payload) || ltb (length (apdu ++ spare)) (off + length payload))
        panics _
        (ground
          (arith, r.whole, r.at_most, length-append apdu spare, sv-lt smp_cnt conf_rev sv_id short))
    ∙ ap (λ xs. walk sv_field (length payload) xs none) r.content
    ∙ walk-concat_tlvs sv_field fields _ none (sv_fields-AllShort smp_cnt conf_rev sv_id short)
        (length-concat_tlvs fields)
    ∙ each_sv_field smp_cnt conf_rev sv_id short h

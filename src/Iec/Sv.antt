-- ===== src/Iec/Sv.antt =====
-- internal/iec/sv.go: the PDU of a Sampled Values frame, built and parsed.
pub mod RoundTrip
use prp_sim.Base.{
  panics, ℕ, ◌+◌, ◌^◌, ◌||◌, not, Option, none, some, List, [], ◌∷◌, ◌++◌, ltb, leb, ◌==◌,
  if◌then◌else◌, length, Bytes, byte_at, slice, u16_at, Text, Outcome, done, ◌>>=◌,
}
use prp_sim.Iec.Ber.{integer16, encode_length}
use prp_sim.Iec.Walk.{concat_tlvs, read_header, walk}

unfoldable pub asdu_fields : ℕ → ℕ → Text → List (ℕ × Bytes)
unfolding integer16
asdu_fields smp_cnt conf_rev sv_id =
    (0x80, sv_id)
    ∷ (0x81, integer16 smp_cnt)
    ∷ (0x82, integer16 conf_rev)
    ∷ (0x83, 0x00 ∷ [])
    ∷ (0x84, integer16 4800)
    ∷ (0x85, integer16 0)
    ∷ []

unfoldable pub sv_fields : ℕ → ℕ → Text → List (ℕ × Bytes)
unfolding asdu_fields concat_tlvs
sv_fields smp_cnt conf_rev sv_id =
    (0x80, 0x01 ∷ 0x01 ∷ 0x01 ∷ [])
    ∷ (0x81, 0x00 ∷ 0x00 ∷ [])
    ∷ (0xa2, concat_tlvs (asdu_fields smp_cnt conf_rev sv_id))
    ∷ []

unfoldable pub build_sv_apdu : ℕ → ℕ → Text → Bytes
unfolding sv_fields
build_sv_apdu smp_cnt conf_rev sv_id =
    let payload = concat_tlvs (sv_fields smp_cnt conf_rev sv_id) in
    0x60 ∷ (encode_length (length payload) ++ payload)

-- `smpCnt` where it is set. A value of two bytes sets it.
unfoldable pub smp_cnt_of : Option ℕ → Bytes → Option ℕ
smp_cnt_of s payload = if length payload == 2 then some (u16_at payload 0) else s

-- A field of the ASDU.
unfoldable pub asdu_field : Option ℕ → ℕ → Bytes → Outcome (Option ℕ)
unfolding smp_cnt_of
asdu_field s tag payload = done (if tag == 0x81 then smp_cnt_of s payload else s)

-- The cases of the switch. The fields of an ASDU are walked in turn.
unfoldable pub sv_field : Option ℕ → ℕ → Bytes → Outcome (Option ℕ)
unfolding smp_cnt_of asdu_field
sv_field s tag payload =
    if tag == 0x81
    then done (smp_cnt_of s payload)
    else if tag == 0xa2
    then walk asdu_field (length payload) payload s
    else done s

-- `spare` is what lies behind the PDU in the buffer that it is a slice of: Go's slice expression
-- takes it where the length says so. `none` is `ok` false.
unfoldable pub parse_sv_apdu : Bytes → Bytes → Outcome (Option ℕ)
parse_sv_apdu apdu spare =
    if ltb (length apdu) 2 || not (byte_at apdu 0 == 0x60)
    then done none
    else (read_header apdu >>= λ (n, off).
        if leb (2 ^ 63) (off + n) || ltb (length (apdu ++ spare)) (off + n)
        then panics
        else walk sv_field n (slice (apdu ++ spare) off (off + n)) none)

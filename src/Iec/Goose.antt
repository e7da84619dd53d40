-- ===== src/Iec/Goose.antt =====
-- internal/iec/goose.go: the PDU of a GOOSE frame, built and parsed.
pub mod RoundTrip
use prp_sim.Base.{
  panics, ℕ, ◌+◌, ◌^◌, Bool, true, false, ◌&&◌, ◌||◌, not, Option, none, some, List, [], ◌∷◌, ◌++◌,
  ltb, leb, ◌==◌, if◌then◌else◌, length, Bytes, byte_at, slice, u16_at, Text, Outcome, done, ◌>>=◌,
}
use prp_sim.Iec.{encode_utc_time, decode_utc_time}
use prp_sim.Iec.Ber.{boolean, integer16, encode_length}
use prp_sim.Iec.Walk.{concat_tlvs, read_header, walk}

-- What a publisher puts into one PDU. The time is its seconds and nanoseconds.
pub record Event : Type 0 where
  pub st_num : ℕ
  pub sq_num : ℕ
  pub epoch : ℕ
  pub ns : ℕ
  pub test : Bool
  pub conf_rev : ℕ
  pub gcb_ref : Text
  pub dat_set : Text
  pub go_id : Text

unfoldable pub goose_fields : Event → List (ℕ × Bytes)
unfolding boolean integer16
goose_fields e =
    (0x80, e.gcb_ref)
    ∷ (0x81, integer16 2000)
    ∷ (0x82, e.dat_set)
    ∷ (0x83, e.go_id)
    ∷ (0x84, encode_utc_time e.epoch e.ns)
    ∷ (0x85, integer16 e.st_num)
    ∷ (0x86, integer16 e.sq_num)
    ∷ (0x87, boolean e.test)
    ∷ (0x88, integer16 e.conf_rev)
    ∷ (0x89, boolean false)
    ∷ (0x8a, 0x01 ∷ [])
    ∷ (0xab, boolean e.test)
    ∷ []

unfoldable pub build_goose_apdu : Event → Bytes
unfolding goose_fields
build_goose_apdu e =
    let payload = concat_tlvs (goose_fields e) in 0x61 ∷ (encode_length (length payload) ++ payload)

-- What the walk has found. The flags are those of the code, and `time` is `none` for a zero time.
pub record Found : Type 0 where
  pub st_num : ℕ
  pub sq_num : ℕ
  pub time : Option (ℕ × ℕ)
  pub all_data : Bool
  pub st_num_set : Bool
  pub sq_num_set : Bool
  pub all_data_set : Bool

abbrev pub nothing_found : Found
nothing_found = record {
  st_num = 0;
  sq_num = 0;
  time = none;
  all_data = false;
  st_num_set = false;
  sq_num_set = false;
  all_data_set = false;
}

-- The cases of the switch.
unfoldable pub goose_field : Found → ℕ → Bytes → Found
goose_field f tag payload =
    if tag == 0x85
    then (if length payload == 2
        then record f { st_num = u16_at payload 0; st_num_set = true }
        else f)
    else if tag == 0x86
    then (if length payload == 2
        then record f { sq_num = u16_at payload 0; sq_num_set = true }
        else f)
    else if tag == 0x84
    then (if length payload == 8 then record f { time = decode_utc_time payload } else f)
    else if tag == 0xab
    then (if length payload == 3 && byte_at payload 0 == 0x01 && byte_at payload 1 == 0x01
        then record f { all_data = not (byte_at payload 2 == 0x00); all_data_set = true }
        else f)
    else f

unfoldable pub finish_goose : Found → Option Found
finish_goose f = if f.st_num_set && (f.sq_num_set && f.all_data_set) then some f else none

-- The fields of a PDU whose length and offset are known. `none` is `ok` false.
unfoldable pub parse_goose_data : Bytes → ℕ → ℕ → Outcome (Option Found)
unfolding finish_goose
parse_goose_data apdu n off =
    if leb (2 ^ 63) (off + n)
    then panics
    else if ltb (length apdu) (off + n)
    then done none
    else (walk (λ f tag payload. done (goose_field f tag payload)) n (slice apdu off (off + n))
          nothing_found
        >>= λ f. done (finish_goose f))

unfoldable pub parse_goose_apdu : Bytes → Outcome (Option Found)
unfolding parse_goose_data
parse_goose_apdu apdu =
    if ltb (length apdu) 2 || not (byte_at apdu 0 == 0x61)
    then done none
    else (read_header apdu >>= λ (n, off). parse_goose_data apdu n off)

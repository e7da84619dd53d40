-- ===== src/Iec/Goose/RoundTrip.antt =====
-- internal/iec/goose.go: a subscriber reads what the publisher wrote.
use prp_sim.Base.{
  panics, if-false, ℕ, suc, ◌+◌, ◌*◌, ◌/◌, ◌%◌, ◌^◌, ◌≤◌, ◌<◌, ◌≡◌, refl, sym, ap, ◌∙◌, Bool, true,
  false, ◌||◌, not, none, some, [], append-nil, arith, ltb, leb, ◌==◌, if◌then◌else◌, le→ltb,
  length, Bytes, byte_at, slice, u16_at, IsU16, done, panics, ◌>>=◌,
}
use prp_sim.Iec.{encode_utc_time, decode_utc_time}
use prp_sim.Iec.Stamps.{decode_utc_time-encode_utc_time}
use prp_sim.Iec.Ber.{boolean, integer16, encode_length}
use prp_sim.Iec.Walk.{concat_tlvs, walk}
use prp_sim.Iec.Walk.Fields.{
  AllShort, each_field, walk-concat_tlvs, length-concat_tlvs, IsRead, read_header_lem, sizes,
  length-concat_tlvs-le,
}
use prp_sim.Iec.Goose.{
  Event, goose_fields, build_goose_apdu, Found, nothing_found, goose_field, finish_goose,
  parse_goose_apdu, parse_goose_data,
}

-- The names of an event are short enough for lengths of four bytes.
pub record IsShort (e : Event) : Type 0 where
  pub gcb_ref : length e.gcb_ref < 2 ^ 29
  pub dat_set : length e.dat_set < 2 ^ 29
  pub go_id : length e.go_id < 2 ^ 29

goose_fields-AllShort : (e : Event) → IsShort e → AllShort (goose_fields e)
unfolding goose_fields encode_utc_time
goose_fields-AllShort e short = omega arith

sizes-goose_fields : (e : Event) → IsShort e → sizes (goose_fields e) < 2 ^ 31
unfolding goose_fields encode_utc_time
sizes-goose_fields e short = omega arith

payload-lt : (e : Event) → IsShort e → length (concat_tlvs (goose_fields e)) < 2 ^ 32
payload-lt e short = omega (
  arith,
  length-concat_tlvs-le (goose_fields e) (goose_fields-AllShort e short),
  sizes-goose_fields e short,
)

-- What a subscriber finds in the PDU of an event.
abbrev found_as : Event → ℕ → ℕ → Bool → Found
found_as e st_num sq_num test = record {
  st_num = st_num;
  sq_num = sq_num;
  time = decode_utc_time (encode_utc_time e.epoch e.ns);
  all_data = test;
  st_num_set = true;
  sq_num_set = true;
  all_data_set = true;
}

abbrev pub found : Event → Found
found e = found_as e e.st_num e.sq_num e.test

word : (v : ℕ) → IsU16 v → (v / 256 % 256) * 256 + v % 256 ≡ v
word v h = omega arith

flag : (b : Bool) → not ((if b then 0xff else 0x00) == 0x00) ≡ b
flag true = refl
flag false = refl

each_goose_field :
    (e : Event)
    → IsU16 e.st_num
    → IsU16 e.sq_num
    → each_field (λ f tag payload. done (goose_field f tag payload)) (goose_fields e) nothing_found
      ≡ done (found e)
unfolding goose_fields goose_field boolean integer16 u16_at encode_utc_time
each_goose_field e st sq =
    ap
      (λ v. done (
        found_as e v ((e.sq_num / 256 % 256) * 256 + e.sq_num % 256)
          (not ((if e.test then 0xff else 0x00) == 0x00))))
      (word e.st_num st)
    ∙ ap (λ v. done (found_as e e.st_num v (not ((if e.test then 0xff else 0x00) == 0x00))))
        (word e.sq_num sq)
    ∙ ap (λ b. done (found_as e e.st_num e.sq_num b)) (flag e.test)

walk-goose_fields :
    (e : Event)
    → IsShort e
    → IsU16 e.st_num
    → IsU16 e.sq_num
    → let payload = concat_tlvs (goose_fields e) in
      walk (λ f tag p. done (goose_field f tag p)) (length payload) payload nothing_found
      ≡ done (found e)
walk-goose_fields e short st sq =
    walk-concat_tlvs (λ f tag p. done (goose_field f tag p)) (goose_fields e) _ nothing_found
      (goose_fields-AllShort e short) (length-concat_tlvs (goose_fields e))
    ∙ each_goose_field e st sq

parse_goose_data-read :
    (apdu payload : Bytes) (off : ℕ) (f : Found)
    → IsRead apdu payload [] off
    → length payload < 2 ^ 32
    → walk (λ f tag p. done (goose_field f tag p)) (length payload) payload nothing_found ≡ done f
    → parse_goose_data apdu (length payload) off ≡ done (finish_goose f)
unfolding parse_goose_data
parse_goose_data-read apdu payload off f r h walked =
    if-false (leb (2 ^ 63) (off + length payload)) panics _ (ground (arith, r.at_most))
    ∙ if-false (ltb (length apdu) (off + length payload)) (done none) _
        (le→ltb (length apdu) (off + length payload) (omega (arith, r.whole)))
    ∙ ap
        (λ xs.
          walk (λ f tag p. done (goose_field f tag p)) (length payload) xs nothing_found >>= λ g.
          done (finish_goose g))
        (ap (λ xs. slice xs off (off + length payload)) (sym (append-nil apdu)) ∙ r.content)
    ∙ ap (λ o. o >>= λ g. done (finish_goose g)) walked

build_goose_apdu-IsRead :
    (e : Event)
    → IsShort e
    → let payload = concat_tlvs (goose_fields e) in
      IsRead (build_goose_apdu e) payload [] (suc (length (encode_length (length payload))))
unfolding build_goose_apdu
build_goose_apdu-IsRead e short =
    read_header_lem 0x61 (concat_tlvs (goose_fields e)) [] (payload-lt e short)

passes :
    (e : Event) {payload : Bytes} {off : ℕ}
    → IsRead (build_goose_apdu e) payload [] off
    → (ltb (length (build_goose_apdu e)) 2 || not (byte_at (build_goose_apdu e) 0 == 0x61)) ≡ false
unfolding build_goose_apdu
passes e r = ground (arith, r.whole, r.at_least)

-- An event whose names are short, whose numbers have 16 bits and whose time is of the years 1970 to
-- 2106 comes back from its PDU, with the nanoseconds early by at most 60.
pub parse_goose_apdu-build_goose_apdu :
    (e : Event)
    → IsShort e
    → IsU16 e.st_num
    → IsU16 e.sq_num
    → e.epoch < 2 ^ 32
    → e.ns < 1_000_000_000
    → (ns : ℕ) × (ns ≤ e.ns)
      × (e.ns ≤ ns + 60)
      × (parse_goose_apdu (build_goose_apdu e)
          ≡ done (
              some (record {
                st_num = e.st_num;
                sq_num = e.sq_num;
                time = some (e.epoch, ns);
                all_data = e.test;
                st_num_set = true;
                sq_num_set = true;
                all_data_set = true;
              })))
unfolding parse_goose_apdu finish_goose
parse_goose_apdu-build_goose_apdu e short st sq since ns =
    let payload = concat_tlvs (goose_fields e) in
    let apdu = build_goose_apdu e in
    let (ns', at, early, close) = decode_utc_time-encode_utc_time e.epoch e.ns since ns in
    let r = build_goose_apdu-IsRead e short in
    (
      ns',
      early,
      close,
      if-false (ltb (length apdu) 2 || not (byte_at apdu 0 == 0x61)) (done none) _ (passes e r)
          ∙ ap (λ o. o >>= λ (n, off). parse_goose_data apdu n off) r.header
          ∙ parse_goose_data-read apdu payload _ (found e) r (payload-lt e short)
              (walk-goose_fields e short st sq)
          ∙ ap
              (λ t. done (
                some (record {
                  st_num = e.st_num;
                  sq_num = e.sq_num;
                  time = t;
                  all_data = e.test;
                  st_num_set = true;
                  sq_num_set = true;
                  all_data_set = true;
                })))
              at,
    )

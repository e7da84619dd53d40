-- ===== src/Iec/Ber.antt =====
-- internal/iec/ber.go: tag, length and value.
pub mod RoundTrip
use prp_sim.Base.{
  panics, ℕ, zero, suc, ◌+◌, ◌*◌, ◌/◌, ◌%◌, ◌^◌, Bool, Option, none, some, [], ◌∷◌, ◌++◌, ltb, leb,
  ◌==◌, if◌then◌else◌, length, drop, Bytes, byte_at, slice, Outcome, done,
}

-- The bytes of a length, of which a 64-bit one has eight at most.
unfoldable pub count_bytes : ℕ → ℕ → ℕ
count_bytes zero v = 0
count_bytes (suc fuel) v = let rest = count_bytes fuel (v / 256) in if v == 0 then 0 else suc rest

unfoldable pub big_endian : ℕ → ℕ → Bytes
big_endian zero v = []
big_endian (suc k) v = (v / 256 ^ k % 256) ∷ big_endian k v

-- A negative length, which no caller passes, panics.
unfoldable pub encode_length : ℕ → Bytes
unfolding count_bytes big_endian
encode_length n =
    if ltb n 128 then n ∷ [] else (let k = count_bytes 8 n in (0x80 + k) ∷ big_endian k n)

unfoldable pub encode_tlv : ℕ → Bytes → Bytes
encode_tlv tag payload = tag ∷ (encode_length (length payload) ++ payload)

-- `(length << 8) | b` on a 64-bit int, by its 64 bits.
unfoldable pub read_length : ℕ → Bytes → ℕ
read_length n [] = n
read_length n (b ∷ bs) = read_length (n * 256 % 2 ^ 64 + b) bs

-- The length that follows the tag, and where it ends.
unfoldable pub parse_length : Bytes → Option (ℕ × ℕ)
parse_length bytes =
    let byte = byte_at bytes 1 in
    let count = byte % 128 in
    if byte / 128 % 2 == 0
    then some (byte, 2)
    else if ltb (length bytes) (2 + count)
    then none
    else some (read_length 0 (slice bytes 2 (2 + count)), 2 + count)

pub record Tlv : Type 0 where
  pub tag : ℕ
  pub payload : Bytes
  pub rest : Bytes

-- `none` is `ok` false. Where the length is negative, or its end is past the largest int, the test
-- on the end lets it pass and the slice panics.
unfoldable pub parse_value : Bytes → ℕ → ℕ → Outcome (Option Tlv)
parse_value bytes n off =
    if leb (2 ^ 63) (off + n)
    then panics
    else if ltb (length bytes) (off + n)
    then done none
    else done (
        some (record {
          tag = byte_at bytes 0;
          payload = slice bytes off (off + n);
          rest = drop (off + n) bytes;
        }))

unfoldable pub parse_tlv : Bytes → Outcome (Option Tlv)
unfolding parse_value
parse_tlv bytes =
    if ltb (length bytes) 2
    then done none
    else elim (parse_length bytes) as (λ _. Outcome (Option Tlv)) [
      | none ↦ done none
      | some (n, off) ↦ parse_value bytes n off
    ]

unfoldable pub boolean : Bool → Bytes
boolean b = 0x01 ∷ 0x01 ∷ (if b then 0xff else 0x00) ∷ []

unfoldable pub integer16 : ℕ → Bytes
integer16 v = (v / 256 % 256) ∷ (v % 256) ∷ []

-- ===== src/Iec/Walk.antt =====
-- internal/iec/goose.go and sv.go: how a PDU is put together of fields, and how its fields are read.
pub mod Fields
pub mod Fuel
use prp_sim.Base.{
  panics, ℕ, zero, suc, none, some, List, [], ◌∷◌, ◌++◌, Bytes, Outcome, done, ◌>>=◌,
}
use prp_sim.Iec.Ber.{encode_tlv, parse_length, parse_tlv}

-- The list of encoded fields, one behind the other.
unfoldable pub concat_tlvs : List (ℕ × Bytes) → Bytes
concat_tlvs [] = []
concat_tlvs ((tag, payload) ∷ rest) = encode_tlv tag payload ++ concat_tlvs rest

-- The length behind the first byte and where it ends. The bytes of the length are read without a
-- test that they are there.
unfoldable pub read_header : Bytes → Outcome (ℕ × ℕ)
read_header apdu = elim (parse_length apdu) as (λ _. Outcome (ℕ × ℕ)) [
  | none ↦ panics
  | some header ↦ done header
]

-- The walk over the fields, which the length bounds: every field takes two bytes at least. A field
-- that does not parse ends it.
unfoldable pub walk : {S : Type 0} → (S → ℕ → Bytes → Outcome S) → ℕ → Bytes → S → Outcome S
walk field zero rest s = done s
walk field (suc fuel) [] s = done s
walk {S} field (suc fuel) (b ∷ rest) s = parse_tlv (b ∷ rest) >>= λ o. elim o as (λ _. Outcome S) [
  | none ↦ done s
  | some t ↦ field s t.tag t.payload >>= walk field fuel t.rest
]

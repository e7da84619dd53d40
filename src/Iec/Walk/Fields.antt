-- ===== src/Iec/Walk/Fields.antt =====
-- internal/iec: the walk over encoded fields meets each of them, in order.
use prp_sim.Base.{
  panics, ℕ, zero, suc, ◌+◌, ◌-◌, ◌^◌, ◌≤◌, ◌<◌, ◌≡◌, refl, ap, ◌∙◌, none, some, List, [], ◌∷◌,
  ◌++◌, append_assoc, arith, length, take, All, length-append, take-append, drop-append, Bytes,
  slice, Outcome, done, panics, ◌>>=◌,
}
use prp_sim.Iec.Ber.{encode_length, encode_tlv}
use prp_sim.Iec.Ber.RoundTrip.{
  parse_tlv-encode_tlv, parse_length-front, encode_length-IsLength, length-IsLength,
}
use prp_sim.Iec.Walk.{concat_tlvs, read_header, walk}

-- No payload is longer than a length of four bytes can say.
abbrev pub AllShort : List (ℕ × Bytes) → Type 0
AllShort = All (λ (f : ℕ × Bytes). length f.1 < 2 ^ 32)

-- The fields, handled one after the other.
abbrev pub each_field :
    {S : Type 0} → (S → ℕ → Bytes → Outcome S) → List (ℕ × Bytes) → S → Outcome S
each_field field [] s = done s
each_field field ((tag, payload) ∷ l) s = field s tag payload >>= each_field field l

bind_ext :
    {A B : Type 0} (m : Outcome A) (f g : A → Outcome B)
    → ((a : A) → f a ≡ g a)
    → (m >>= f) ≡ (m >>= g)
bind_ext (done a) f g h = h a
bind_ext panics f g h = refl

pub walk-concat_tlvs :
    {S : Type 0} (field : S → ℕ → Bytes → Outcome S) (l : List (ℕ × Bytes)) (fuel : ℕ) (s : S)
    → AllShort l
    → length l ≤ fuel
    → walk field fuel (concat_tlvs l) s ≡ each_field field l s
unfolding walk concat_tlvs encode_tlv
walk-concat_tlvs field [] zero s short enough = refl
walk-concat_tlvs field [] (suc fuel) s short enough = refl
walk-concat_tlvs field ((tag, payload) ∷ l) zero s short enough = absurd (omega arith)
walk-concat_tlvs {S} field ((tag, payload) ∷ l) (suc fuel) s short enough =
    ap
      (λ o. o >>= λ t. elim t as (λ _. Outcome S) [
        | none ↦ done s
        | some t ↦ field s t.tag t.payload >>= walk field fuel t.rest
      ])
      (unfold encode_tlv in parse_tlv-encode_tlv tag payload (concat_tlvs l) short.0)
    ∙ bind_ext (field s tag payload) _ _
        (λ a. walk-concat_tlvs field l fuel a short.1 (omega arith))

pub length-concat_tlvs : (l : List (ℕ × Bytes)) → length l ≤ length (concat_tlvs l)
unfolding concat_tlvs encode_tlv
length-concat_tlvs [] = omega arith
length-concat_tlvs ((tag, payload) ∷ l) = omega (
  arith,
  length-append (encode_length (length payload) ++ payload) (concat_tlvs l),
  length-concat_tlvs l,
)

-- What the header of a PDU says, with anything behind the PDU in its buffer.
pub record IsRead (apdu payload spare : Bytes) (off : ℕ) : Type 0 where
  pub header : read_header apdu ≡ done (length payload, off)
  pub content : slice (apdu ++ spare) off (off + length payload) ≡ payload
  pub whole : length apdu ≡ off + length payload
  pub at_least : 2 ≤ off
  pub at_most : off < 201

slice-append :
    (xs ys zs : Bytes) → slice (xs ++ (ys ++ zs)) (length xs) (length xs + length ys) ≡ ys
slice-append xs ys zs =
    let cancel : length xs + length ys - length xs ≡ length ys = omega arith in
    ap (take (length xs + length ys - length xs)) (drop-append xs (ys ++ zs))
    ∙ ap (λ j. take j (ys ++ zs)) cancel
    ∙ take-append ys zs

pub read_header_lem :
    (first : ℕ) (payload spare : Bytes)
    → length payload < 2 ^ 32
    → let l = encode_length (length payload) in
      IsRead (first ∷ (l ++ payload)) payload spare (suc (length l))
unfolding read_header
read_header_lem first payload spare h =
    let l = encode_length (length payload) in
    let written = encode_length-IsLength (length payload) h in
    let (pos, few) = length-IsLength (length payload) l written in
    record {
      header = rw (parse_length-front first (length payload) l payload written, read_header);
      content =
          ap (λ xs. slice xs (suc (length l)) (suc (length l) + length payload))
            (append_assoc (first ∷ l) payload spare)
          ∙ slice-append (first ∷ l) payload spare;
      whole = omega (arith, length-append l payload);
      at_least = omega arith;
      at_most = omega arith;
    }

-- A bound on what encoded fields take: 201 bytes more than their payloads each.
abbrev pub sizes : List (ℕ × Bytes) → ℕ
sizes [] = 0
sizes ((tag, payload) ∷ l) = 201 + length payload + sizes l

pub length-concat_tlvs-le : (l : List (ℕ × Bytes)) → AllShort l → length (concat_tlvs l) ≤ sizes l
unfolding concat_tlvs encode_tlv
length-concat_tlvs-le [] short = omega arith
length-concat_tlvs-le ((tag, payload) ∷ l) short = omega (
  arith,
  length-append (encode_length (length payload) ++ payload) (concat_tlvs l),
  length-append (encode_length (length payload)) payload,
  length-IsLength (length payload) (encode_length (length payload))
      (encode_length-IsLength (length payload) short.0),
  length-concat_tlvs-le l short.1,
)

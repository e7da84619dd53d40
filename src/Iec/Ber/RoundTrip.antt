-- ===== src/Iec/Ber/RoundTrip.antt =====
-- internal/iec/ber.go: what parseTLV makes of the output of encodeTLV.
use prp_sim.Base.{
  if-false, ℕ, zero, suc, ◌+◌, ◌-◌, ◌/◌, ◌%◌, ◌^◌, ◌≤◌, ◌<◌, ◌≡◌, refl, sym, ap, ◌∙◌, ◌⊎◌, inl, inr,
  false, none, some, [], ◌∷◌, ◌++◌, append_assoc, arith, ltb, leb, ◌==◌, ltb→lt, le→ltb, Bool-cases,
  length, take, length-append, take-append, drop-append, Bytes, slice, done,
}
use prp_sim.Engine.Hsr.Fields.{drop-append_at}
use prp_sim.Iec.Ber.{
  parse_value, parse_length, parse_tlv, encode_tlv, count_bytes, big_endian, encode_length,
  encode_tlv, read_length, parse_length, parse_value, parse_tlv,
}

-- What a length is written as, behind the tag: in one byte, or behind a byte that counts.
pub data IsLength (n : ℕ) : Bytes → Type 0 where
  short : n < 128 → IsLength n (n ∷ [])
  long :
      (k : ℕ) (bs : Bytes)
      → length bs ≡ k
      → 0 < k
      → k < 128
      → read_length 0 bs ≡ n
      → IsLength n ((0x80 + k) ∷ bs)

ltb-cases : (a b : ℕ) → (a < b) ⊎ (b ≤ a)
ltb-cases a b = elim (Bool-cases (ltb a b)) [
  | inl yes' ↦ inl (ltb→lt a b yes')
  | inr other ↦ inr (ground arith)
]

count_bytes-zero : (fuel : ℕ) → count_bytes fuel 0 ≡ 0
unfolding count_bytes
count_bytes-zero zero = refl
count_bytes-zero (suc fuel) = refl

count_bytes-next :
    (fuel v : ℕ) → 0 < v → count_bytes (suc fuel) v ≡ suc (count_bytes fuel (v / 256))
unfolding count_bytes
count_bytes-next fuel v h = ground arith

count_bytes-last : (fuel v : ℕ) → 0 < v → v < 256 → count_bytes (suc fuel) v ≡ 1
count_bytes-last fuel v pos h =
    let none_left : v / 256 ≡ 0 = omega arith in
    count_bytes-next fuel v pos
    ∙ ap (λ w. suc (count_bytes fuel w)) none_left
    ∙ ap suc (count_bytes-zero fuel)

long_length : (k n : ℕ) → 0 < k → k < 5 → n < 256 ^ k → read_length 0 (big_endian k n) ≡ n
unfolding big_endian read_length
long_length (suc zero) n pos le h = omega arith
long_length (suc (suc zero)) n pos le h = omega arith
long_length (suc (suc (suc zero))) n pos le h = omega arith
long_length (suc (suc (suc (suc zero)))) n pos le h = omega arith
long_length zero n pos le h = absurd (omega arith)
long_length (suc (suc (suc (suc (suc k))))) n pos le h = absurd (omega arith)

length-big_endian : (k n : ℕ) → length (big_endian k n) ≡ k
unfolding big_endian
length-big_endian zero n = refl
length-big_endian (suc k) n = ap suc (length-big_endian k n)

-- How many bytes a length takes.
count_bytes-fits :
    (n : ℕ)
    → 0 < n
    → n < 2 ^ 32
    → (0 < count_bytes 8 n) × (count_bytes 8 n < 5) × (n < 256 ^ count_bytes 8 n)
count_bytes-fits n pos h = elim (ltb-cases n 256) [
  | inl one ↦ fits 1 (count_bytes-last 7 n pos one) (omega arith) (omega arith) (omega arith)
  | inr more ↦ elim (ltb-cases n 65536) [
    | inl two ↦
        fits 2
          (count_bytes-next 7 n pos
            ∙ ap suc (count_bytes-last 6 (n / 256) (omega arith) (omega arith)))
          (omega arith) (omega arith) (omega arith)
    | inr more ↦ elim (ltb-cases n 16777216) [
      | inl three ↦
          fits 3
            (count_bytes-next 7 n pos
              ∙ ap suc (
                  count_bytes-next 6 (n / 256) (omega arith)
                  ∙ ap suc (count_bytes-last 5 (n / 256 / 256) (omega arith) (omega arith))))
            (omega arith) (omega arith) (omega arith)
      | inr more ↦
          fits 4
            (count_bytes-next 7 n pos
              ∙ ap suc (
                  count_bytes-next 6 (n / 256) (omega arith)
                  ∙ ap suc (
                      count_bytes-next 5 (n / 256 / 256) (omega arith)
                      ∙ ap suc
                          (count_bytes-last 4 (n / 256 / 256 / 256) (omega arith) (omega arith)))))
            (omega arith) (omega arith) (omega arith)
    ]
  ]
]
  where
    fits :
        (k : ℕ)
        → count_bytes 8 n ≡ k
        → 0 < k
        → k < 5
        → n < 256 ^ k
        → (0 < count_bytes 8 n) × (count_bytes 8 n < 5) × (n < 256 ^ count_bytes 8 n)
    fits k e a b c = rw e (a, b, c)

pub encode_length-IsLength : (n : ℕ) → n < 2 ^ 32 → IsLength n (encode_length n)
unfolding encode_length
encode_length-IsLength n h = elim (Bool-cases (ltb n 128)) [
  | inl small ↦ rw small (short (ltb→lt n 128 small))
  | inr large ↦ rw large (
      let (pos, few, fits) = count_bytes-fits n (ground arith) h in
      long (count_bytes 8 n) (big_endian (count_bytes 8 n) n) (length-big_endian _ n) pos
        (omega arith) (long_length (count_bytes 8 n) n pos few fits))
]

-- The value that stands behind a front of known length.
parse_value-front :
    (tag : ℕ) (front payload rest : Bytes)
    → length front + length payload < 2 ^ 40
    → parse_value ((tag ∷ front) ++ (payload ++ rest)) (length payload) (length (tag ∷ front))
      ≡ done (some (record { tag = tag; payload = payload; rest = rest }))
unfolding parse_value
parse_value-front tag front payload rest h =
    rw
      (
        le→ltb (length ((tag ∷ front) ++ (payload ++ rest))) (length (tag ∷ front) + length payload)
            (omega
              (arith, length-append (tag ∷ front) (payload ++ rest), length-append payload rest)),
        drop-append_at (tag ∷ front) (payload ++ rest) (length payload),
        drop-append payload rest,
        small,
      )
      (ap (λ xs. done (some (record { tag = tag; payload = xs; rest = rest }))) taken)
  where
    small : leb (2 ^ 63) (length (tag ∷ front) + length payload) ≡ false
    small = ground arith

    taken :
        slice
          ((tag ∷ front) ++ (payload ++ rest))
          (length (tag ∷ front))
          (length (tag ∷ front) + length payload)
        ≡ payload
    taken =
        let cancel : length (tag ∷ front) + length payload - length (tag ∷ front) ≡ length payload =
          omega arith in
        ap (take (length (tag ∷ front) + length payload - length (tag ∷ front)))
          (drop-append (tag ∷ front) (payload ++ rest))
        ∙ ap (λ j. take j (payload ++ rest)) cancel
        ∙ take-append payload rest

pub parse_length-front :
    (tag n : ℕ) (l q : Bytes)
    → IsLength n l
    → parse_length ((tag ∷ l) ++ q) ≡ some (n, length (tag ∷ l))
unfolding parse_length
parse_length-front tag n l q (short h) = ground arith
parse_length-front tag n l q (long k bs len pos few value) =
    if-false ((128 + k) / 128 % 2 == 0) (some (128 + k, 2)) _ (ground arith)
    ∙ rw (count, fits, cancel, sym len, take-append bs q, value)
        (ap (λ j. some (n, j)) (omega arith))
  where
    count : (128 + k) % 128 ≡ k
    count = omega arith

    cancel : 2 + k - 2 ≡ k
    cancel = omega arith

    fits : ltb (length (tag ∷ (128 + k) ∷ (bs ++ q))) (2 + k) ≡ false
    fits =
        le→ltb (length (tag ∷ (128 + k) ∷ (bs ++ q))) (2 + k)
          (omega (arith, len, length-append bs q))

pub length-IsLength : (n : ℕ) (l : Bytes) → IsLength n l → (0 < length l) × (length l < 200)
length-IsLength n l (short h) = (omega arith, omega arith)
length-IsLength n l (long k bs len pos few value) = (omega arith, omega arith)

parse_tlv-front :
    (tag : ℕ) (l payload rest : Bytes)
    → length payload < 2 ^ 32
    → IsLength (length payload) l
    → parse_tlv ((tag ∷ l) ++ (payload ++ rest))
      ≡ done (some (record { tag = tag; payload = payload; rest = rest }))
unfolding parse_tlv
parse_tlv-front tag l payload rest h written =
    let (pos, few) = length-IsLength (length payload) l written in
    if-false (ltb (length ((tag ∷ l) ++ (payload ++ rest))) 2) (done none) _ (
      le→ltb (length ((tag ∷ l) ++ (payload ++ rest))) 2
        (omega (arith, length-append l (payload ++ rest))))
    ∙ rw (parse_length-front tag (length payload) l (payload ++ rest) written)
        (parse_value-front tag l payload rest (omega arith))

-- A tag and a payload of fewer than 2 ^ 32 bytes, encoded, with anything behind them: parseTLV
-- gives back the tag, the payload and the rest.
pub parse_tlv-encode_tlv :
    (tag : ℕ) (payload rest : Bytes)
    → length payload < 2 ^ 32
    → parse_tlv (encode_tlv tag payload ++ rest)
      ≡ done (some (record { tag = tag; payload = payload; rest = rest }))
unfolding parse_tlv encode_tlv
parse_tlv-encode_tlv tag payload rest h =
    let l = encode_length (length payload) in
    ap (λ xs. parse_tlv (tag ∷ xs)) (append_assoc l payload rest)
    ∙ parse_tlv-front tag l payload rest h (encode_length-IsLength (length payload) h)

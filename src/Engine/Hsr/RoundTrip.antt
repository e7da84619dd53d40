-- ===== src/Engine/Hsr/RoundTrip.antt =====
-- DecodeHSR and StripHSR on the frames that EncodeHSR builds.
use prp_sim.Base.{
  ℕ, ◌+◌, ◌-◌, ◌/◌, ◌%◌, ◌≤◌, ◌<◌, ◌≡◌, refl, sym, ap, ◌∙◌, ◌⊎◌, inl, inr, true, some, [], ◌∷◌,
  ◌++◌, append_assoc, arith, length, take, drop, length-append, length-drop, take-append-drop,
  take-append, get_or-append_left, get_or-append_at, Bytes, u16_at, put_u16, u16_at-append_left,
  low_bits, to_u16, shl16, IsU16, join_bits,
}
use prp_sim.Engine.Ether.{is_vlan_type}
use prp_sim.Engine.Hsr.{
  Tag, hsr_ether_type, encode_hsr, hsr_tag_offset, decode_hsr, strip_at, strip_hsr,
}
use prp_sim.Engine.Hsr.Fields.{
  at_tag, decode_word, decode_hsr_at-at_tag, strip_at-at_tag, decode_hsr-at, strip_hsr-at,
  take-append_le, drop-append_le,
}

-- What stands before the tag's EtherType: two addresses, and one VLAN tag perhaps.
abbrev pub IsHeader : Bytes → Type 0
IsHeader pre = (length pre ≡ 12) ⊎ ((length pre ≡ 16) × (is_vlan_type (u16_at pre 12) ≡ true))

abbrev front : Bytes → Bytes
front pre = pre ++ put_u16 hsr_ether_type

abbrev tag_word : Bytes → ℕ → ℕ
tag_word payload path =
    join_bits (shl16 (low_bits path 4) 12) (low_bits (to_u16 (6 + length payload)) 12)

abbrev tag_rest : Bytes → ℕ → ℕ → Bytes → Bytes
tag_rest payload seq et pad = put_u16 seq ++ (put_u16 et ++ (payload ++ pad))

encode_hsr-at_tag :
    (pre payload : Bytes) (path seq et : ℕ) (pad : Bytes)
    → pre ++ (encode_hsr payload path seq et ++ pad)
      ≡ at_tag (front pre) (tag_word payload path) (tag_rest payload seq et pad)
unfolding encode_hsr
encode_hsr-at_tag pre payload path seq et pad = sym (append_assoc pre (put_u16 hsr_ether_type) _)

length-front : (pre : Bytes) → length (front pre) ≡ length pre + 2
length-front pre = length-append pre (put_u16 hsr_ether_type)

length-tagged :
    (pre : Bytes) (word : ℕ) (r : Bytes)
    → length (at_tag (front pre) word r) ≡ length pre + 4 + length r
length-tagged pre word r =
    omega (arith, length-append (front pre) (put_u16 word ++ r), length-front pre)

-- The tag's EtherType stands behind the header.
u16_at-tagged :
    (pre : Bytes) (word : ℕ) (r : Bytes) (n : ℕ)
    → n ≡ length pre
    → u16_at (at_tag (front pre) word r) n ≡ hsr_ether_type
unfolding u16_at
u16_at-tagged pre word r n e = ground (
  arith,
  get_or-append_left (front pre) (put_u16 word ++ r) n 0 (omega (arith, length-front pre)),
  get_or-append_left (front pre) (put_u16 word ++ r) (n + 1) 0 (omega (arith, length-front pre)),
  get_or-append_at pre (put_u16 hsr_ether_type) n 0 0 (omega arith),
  get_or-append_at pre (put_u16 hsr_ether_type) (n + 1) 1 0 (omega arith),
)

u16_at-header :
    (pre : Bytes) (word : ℕ) (r : Bytes) (n : ℕ)
    → n + 1 < length pre
    → u16_at (at_tag (front pre) word r) n ≡ u16_at pre n
u16_at-header pre word r n h =
    u16_at-append_left (front pre) (put_u16 word ++ r) n (omega (arith, length-front pre))
    ∙ u16_at-append_left pre (put_u16 hsr_ether_type) n h

pub hsr_tag_offset-front :
    (pre : Bytes) (word : ℕ) (r : Bytes)
    → IsHeader pre
    → 4 ≤ length r
    → hsr_tag_offset (at_tag (front pre) word r) ≡ some (length (front pre))
unfolding hsr_tag_offset
hsr_tag_offset-front pre word r (inl e) long =
    rw (u16_at-tagged pre word r 12 (sym e), length-tagged pre word r, length-front pre, e)
      (unfold is_vlan_type in ground arith)
hsr_tag_offset-front pre word r (inr (e, v)) long =
    rw
      (
        u16_at-header pre word r 12 (omega arith),
        v,
        u16_at-tagged pre word r 16 (sym e),
        length-tagged pre word r,
        length-front pre,
        e,
      )
      (ground arith)

tag_word_fields :
    (payload : Bytes) (path : ℕ)
    → path < 16
    → length payload + 6 < 4096
    → IsU16 (tag_word payload path)
      × (tag_word payload path / 4096 ≡ path)
      × (tag_word payload path % 4096 ≡ 6 + length payload)
tag_word_fields payload path h k = omega arith

decode_word-rest :
    (payload : Bytes) (path seq et : ℕ) (pad : Bytes)
    → path < 16
    → IsU16 seq
    → IsU16 et
    → length payload + 6 < 4096
    → decode_word (tag_word payload path) (tag_rest payload seq et pad)
      ≡ some (record { path = path; seq = seq; encap_proto = et; payload = payload })
unfolding decode_word u16_at
decode_word-rest payload path seq et pad hp hs he hl =
    let (_, top, size) = tag_word_fields payload path hp hl in
    rw (size, top, again, take-append payload pad) (ground (arith, length-append payload pad))
  where
    again : 6 + length payload - 6 ≡ length payload
    again = omega arith

decode_hsr-tagged :
    (pre payload : Bytes) (path seq et : ℕ) (pad : Bytes)
    → IsHeader pre
    → path < 16
    → IsU16 seq
    → IsU16 et
    → length payload + 6 < 4096
    → decode_hsr (at_tag (front pre) (tag_word payload path) (tag_rest payload seq et pad))
      ≡ some (record { path = path; seq = seq; encap_proto = et; payload = payload })
decode_hsr-tagged pre payload path seq et pad h hp hs he hl =
    decode_hsr-at _ _ (hsr_tag_offset-front pre _ (tag_rest payload seq et pad) h (omega arith))
    ∙ decode_hsr_at-at_tag (front pre) _ _ (tag_word_fields payload path hp hl).0
    ∙ decode_word-rest payload path seq et pad hp hs he hl

-- DecodeHSR returns what EncodeHSR was given, behind a header with or without a VLAN tag, and cuts
-- off whatever the wire put behind the payload, if the payload fits the 12-bit LSDU field, the
-- path four bits, and the number and the type 16.
pub decode_hsr-encode_hsr :
    (pre payload : Bytes) (path seq et : ℕ) (pad : Bytes)
    → IsHeader pre
    → path < 16
    → IsU16 seq
    → IsU16 et
    → length payload + 6 < 4096
    → decode_hsr (pre ++ (encode_hsr payload path seq et ++ pad))
      ≡ some (record { path = path; seq = seq; encap_proto = et; payload = payload })
decode_hsr-encode_hsr pre payload path seq et pad h hp hs he hl =
    ap decode_hsr (encode_hsr-at_tag pre payload path seq et pad)
    ∙ decode_hsr-tagged pre payload path seq et pad h hp hs he hl

take-length_self : (xs : Bytes) → take (length xs) xs ≡ xs
take-length_self [] = refl
take-length_self (x ∷ xs) = ap (◌∷◌ x) (take-length_self xs)

take-length : (n : ℕ) (xs : Bytes) → n ≡ length xs → take n xs ≡ xs
take-length n xs e = rw e (take-length_self xs)

IsHeader-le : (pre : Bytes) → IsHeader pre → 14 ≤ length (front pre)
IsHeader-le pre h = omega (arith, length-front pre)

strip_at-front :
    (pre : Bytes) (t : Tag)
    → IsHeader pre
    → strip_at (front pre) (length (front pre)) t ≡ pre ++ (put_u16 t.encap_proto ++ t.payload)
unfolding strip_at
strip_at-front pre t (inl e) = rw (
  length-front pre,
  e,
  take-append_le 12 pre (put_u16 hsr_ether_type) (omega arith),
  take-length 12 pre (sym e),
)
strip_at-front pre t (inr (e, v)) =
    rw
      (
        length-front pre,
        e,
        take-append_le 12 pre (put_u16 hsr_ether_type) (omega arith),
        drop-append_le 12 pre (put_u16 hsr_ether_type) (omega arith),
        take-append_le 4 (drop 12 pre) (put_u16 hsr_ether_type) (omega (arith, length-drop 12 pre)),
        take-length 4 (drop 12 pre) (omega (arith, length-drop 12 pre)),
      )
      (sym (append_assoc (take 12 pre) (drop 12 pre) _) ∙ rw (take-append-drop 12 pre))

-- StripHSR gives back the frame from before the tag was put in, behind a header with or without a
-- VLAN tag and with whatever the wire put behind it cut off, under the same conditions: the
-- payload fits the LSDU field, the path four bits, and the number and the type 16.
pub strip_hsr-encode_hsr :
    (pre payload : Bytes) (path seq et : ℕ) (pad : Bytes)
    → IsHeader pre
    → path < 16
    → IsU16 seq
    → IsU16 et
    → length payload + 6 < 4096
    → strip_hsr (pre ++ (encode_hsr payload path seq et ++ pad))
      ≡ some (pre ++ (put_u16 et ++ payload))
strip_hsr-encode_hsr pre payload path seq et pad h hp hs he hl =
    ap strip_hsr (encode_hsr-at_tag pre payload path seq et pad)
    ∙ strip_hsr-at _ _ tag
        (hsr_tag_offset-front pre _ (tag_rest payload seq et pad) h (omega arith))
        (decode_hsr-tagged pre payload path seq et pad h hp hs he hl)
    ∙ ap some (
        strip_at-at_tag (front pre) _ (tag_rest payload seq et pad) tag (IsHeader-le pre h)
        ∙ strip_at-front pre tag h)
  where
    tag : Tag
    tag = record { path = path; seq = seq; encap_proto = et; payload = payload }

-- ===== src/Prp/Ring/Inject/Tagged.antt =====
-- internal/prp/hsr.go, handleHSRInterlinkFrame: the tagged copy of a frame, and back.
use prp_sim.Base.{
  ℕ, ◌+◌, ◌<◌, ◌≡◌, sym, ap, ◌∙◌, inl, inr, false, some, [], ◌++◌, append-nil, append_assoc, arith,
  le→ltb, length, take, drop, length-append, length-drop, take-append-drop, take-append, Bytes,
  slice, u16_at, put_u16, u16_at-append_left, u16_at-append_at, IsU16, done,
}
use prp_sim.Engine.Ether.{is_vlan_type, is_vlan_frame, get_ether_type}
use prp_sim.Engine.Ether.Types.{get_ether_type_lem, IsTagged, last, tag}
use prp_sim.Engine.Hsr.{encode_hsr, decode_hsr, strip_hsr}
use prp_sim.Engine.Hsr.Fields.{drop-append_at, take-append_le, drop-append_le}
use prp_sim.Engine.Hsr.RoundTrip.{IsHeader, decode_hsr-encode_hsr, strip_hsr-encode_hsr}
use prp_sim.Prp.Ring.Inject.{hsr_body}

-- A frame: what stands before its type, the type, and what stands behind it.
abbrev pub whole : Bytes → ℕ → Bytes → Bytes
whole pre et payload = pre ++ (put_u16 et ++ payload)

type_at :
    (pre payload : Bytes) (et : ℕ) → IsU16 et → u16_at (whole pre et payload) (length pre) ≡ et
type_at pre payload et h =
    u16_at-append_at pre (put_u16 et ++ payload) (length pre) 0 (omega arith)
    ∙ (unfold u16_at in omega arith)

length-whole :
    (pre payload : Bytes) (et : ℕ) → length (whole pre et payload) ≡ length pre + 2 + length payload
length-whole pre payload et = omega (arith, length-append pre (put_u16 et ++ payload))

take-whole : (pre payload : Bytes) (et k : ℕ) → length pre ≡ k → take k (whole pre et payload) ≡ pre
take-whole pre payload et k e = rw (sym e) (take-append pre _)

take-exact : (k : ℕ) (p q : Bytes) → length p ≡ k → take k (p ++ q) ≡ p
take-exact k p q e = rw (sym e) (take-append p q)

-- The addresses and the tag of a tagged frame are all that stands before its type.
header-whole :
    (pre payload xs : Bytes) (et : ℕ)
    → length pre ≡ 16
    → take 12 (whole pre et payload) ++ (slice (whole pre et payload) 12 16 ++ xs) ≡ pre ++ xs
header-whole pre payload xs et e =
    rw
      (
        take-append_le 12 pre (put_u16 et ++ payload) (omega arith),
        drop-append_le 12 pre (put_u16 et ++ payload) (omega arith),
        take-exact 4 (drop 12 pre) (put_u16 et ++ payload) (omega (arith, length-drop 12 pre)),
      )
      (sym (append_assoc (take 12 pre) (drop 12 pre) xs) ∙ rw (take-append-drop 12 pre))

drop-whole :
    (pre payload : Bytes) (et k : ℕ)
    → length pre ≡ k
    → drop (k + 2) (whole pre et payload) ≡ payload
drop-whole pre payload et k e = rw (sym e) (drop-append_at pre (put_u16 et ++ payload) 2)

whole-IsTagged :
    (pre payload : Bytes) (et : ℕ)
    → IsHeader pre
    → IsU16 et
    → is_vlan_type et ≡ false
    → IsTagged (whole pre et payload) 12 (length pre)
whole-IsTagged pre payload et (inl e) h v = rw e (last (rw (sym e, type_at pre payload et h) v))
whole-IsTagged pre payload et (inr (e, tagged)) h v = rw e (
    tag (rw (u16_at-append_left pre (put_u16 et ++ payload) 12 (omega arith)) tagged)
      (last (rw (sym e, type_at pre payload et h) v)))

type-whole :
    (pre payload : Bytes) (et : ℕ)
    → IsHeader pre
    → IsU16 et
    → is_vlan_type et ≡ false
    → get_ether_type (whole pre et payload) ≡ et
type-whole pre payload et header h v =
    get_ether_type_lem _ (length pre) (whole-IsTagged pre payload et header h v)
      (omega (arith, length-whole pre payload et))
    ∙ type_at pre payload et h

-- A frame that carries no VLAN tag, or one, is tagged without a crash, for whatever path and number.
hsr_body-whole :
    (pre payload : Bytes) (et path seq : ℕ)
    → IsHeader pre
    → IsU16 et
    → is_vlan_type et ≡ false
    → hsr_body (whole pre et payload) path seq ≡ done (pre ++ encode_hsr payload path seq et)
unfolding hsr_body is_vlan_frame
hsr_body-whole pre payload et path seq (inl e) h v = rw (
  type-whole pre payload et (inl e) h v,
  le→ltb (length (whole pre et payload)) 14 (omega (arith, length-whole pre payload et)),
  plain,
  take-whole pre payload et 12 e,
  drop-whole pre payload et 12 e,
)
  where
    plain : is_vlan_type (u16_at (whole pre et payload) 12) ≡ false
    plain =
        ap (λ k. is_vlan_type (u16_at (whole pre et payload) k)) (sym e)
        ∙ ap is_vlan_type (type_at pre payload et h)
        ∙ v
hsr_body-whole pre payload et path seq (inr (e, tagged)) h v =
    rw
      (
        type-whole pre payload et (inr (e, tagged)) h v,
        le→ltb (length (whole pre et payload)) 14 (omega (arith, length-whole pre payload et)),
        le→ltb (length (whole pre et payload)) 18 (omega (arith, length-whole pre payload et)),
        u16_at-append_left pre (put_u16 et ++ payload) 12 (omega arith),
        tagged,
        drop-whole pre payload et 16 e,
      )
      (ap done (header-whole pre payload (encode_hsr payload path seq et) et e))

-- A SAN's frame with no VLAN tag, or one, and up to 4089 bytes behind its type goes onto the ring
-- without a crash, with any path of four bits and any 16-bit number, its own type being a 16-bit
-- one and no VLAN tag's. Its tagged copy carries the path, the number and the type, and StripHSR
-- at the receiver gives the frame back as it was.
pub hsr_body_lem :
    (pre payload : Bytes) (et path seq : ℕ)
    → IsHeader pre
    → IsU16 et
    → is_vlan_type et ≡ false
    → path < 16
    → IsU16 seq
    → length payload + 6 < 4096
    → (body : Bytes) × (hsr_body (whole pre et payload) path seq ≡ done body)
      × (decode_hsr body
          ≡ some (record { path = path; seq = seq; encap_proto = et; payload = payload }))
      × (strip_hsr body ≡ some (whole pre et payload))
hsr_body_lem pre payload et path seq header h v small hs fits =
    let body = encode_hsr payload path seq et in
    let end : pre ++ (body ++ []) ≡ pre ++ body = ap (λ xs. pre ++ xs) (append-nil body) in
    (
      pre ++ body,
      hsr_body-whole pre payload et path seq header h v,
      ap decode_hsr (sym end)
          ∙ decode_hsr-encode_hsr pre payload path seq et [] header small hs h fits,
      ap strip_hsr (sym end)
          ∙ strip_hsr-encode_hsr pre payload path seq et [] header small hs h fits,
    )

-- ===== src/Engine/Rct/Sound.antt =====
-- What a successful DecodeRCT says of the frame, whoever sent it.
use prp_sim.Base.{
  ℕ, zero, suc, ◌+◌, ◌-◌, ◌*◌, ◌/◌, ◌%◌, ◌≤◌, ◌<◌, ◌≡◌, sym, ap, ◌∙◌, some, [], ◌∷◌, ◌++◌, arith,
  length, take, drop, All, length-take, length-drop, take-append-drop, get_or-drop, Bytes, IsByte,
  u16_at, put_u16,
}
use native.Mathlib.Nat.{add-zero}
use prp_sim.Engine.Rct.{Decoded, prp_suffix, expected_lsdu, decode_rct}
use prp_sim.Engine.Rct.RoundTrip.{trailer}

u16-put_u16 : (a b : ℕ) → a < 256 → b < 256 → put_u16 (a * 256 + b) ≡ a ∷ b ∷ []
u16-put_u16 a b ha hb = ground arith

six_bytes :
    (xs : Bytes)
    → length xs ≡ 6
    → All IsByte xs
    → u16_at xs 4 ≡ prp_suffix
    → xs ≡ trailer (u16_at xs 0) (u16_at xs 2)
unfolding u16_at
six_bytes [] e h s = absurd (omega arith)
six_bytes (a ∷ []) e h s = absurd (omega arith)
six_bytes (a ∷ b ∷ []) e h s = absurd (omega arith)
six_bytes (a ∷ b ∷ c ∷ []) e h s = absurd (omega arith)
six_bytes (a ∷ b ∷ c ∷ d ∷ []) e h s = absurd (omega arith)
six_bytes (a ∷ b ∷ c ∷ d ∷ x ∷ []) e h s = absurd (omega arith)
six_bytes (a ∷ b ∷ c ∷ d ∷ x ∷ y ∷ []) e h s = ground arith
six_bytes (a ∷ b ∷ c ∷ d ∷ x ∷ y ∷ z ∷ r) e h s = absurd (omega arith)

All-drop : (n : ℕ) (xs : Bytes) → All IsByte xs → All IsByte (drop n xs)
All-drop zero xs h = h
All-drop (suc n) [] h = tt
All-drop (suc n) (x ∷ xs) h = All-drop n xs h.1

u16_at-drop : (n i : ℕ) (xs : Bytes) → u16_at (drop n xs) i ≡ u16_at xs (n + i)
unfolding u16_at
u16_at-drop n i xs = ground (arith, get_or-drop n i xs 0, get_or-drop n (i + 1) xs 0)

-- The tests that a successful call has passed, and what it returns.
decode_rct-tests :
    (frame : Bytes) (d : Decoded)
    → decode_rct frame ≡ some d
    → let off = length frame - 6 in
      (20 ≤ length frame)
      × (u16_at frame (off + 4) ≡ prp_suffix)
      × (u16_at frame (off + 2) % 4096 ≡ expected_lsdu frame)
      × (d.lan_id ≡ u16_at frame (off + 2) / 4096 % 16 % 2)
      × (d.seq ≡ u16_at frame off)
      × (d.payload ≡ take off frame)
unfolding decode_rct
decode_rct-tests frame d e = ground arith

split_trailer :
    (frame : Bytes)
    → All IsByte frame
    → 20 ≤ length frame
    → u16_at frame (length frame - 6 + 4) ≡ prp_suffix
    → let off = length frame - 6 in
      frame ≡ take off frame ++ trailer (u16_at frame off) (u16_at frame (off + 2))
split_trailer frame bytes long suffix =
    sym (take-append-drop off frame)
    ∙ ap (◌++◌ (take off frame)) (
        rw (u16_at-drop off 0 frame, u16_at-drop off 2 frame, add-zero off) at
          (six_bytes (drop off frame) (omega (arith, length-drop off frame))
            (All-drop off frame bytes) (u16_at-drop off 4 frame ∙ suffix)))
  where
    off : ℕ
    off = length frame - 6

-- A frame of bytes that DecodeRCT takes is its payload with a PRP trailer behind it: the trailer
-- names the sequence number, the suffix and the true LSDU size, and the LAN is 0 or 1.
pub decode_rct_sound :
    (frame : Bytes) (d : Decoded)
    → All IsByte frame
    → decode_rct frame ≡ some d
    → (packed : ℕ) × (frame ≡ d.payload ++ trailer d.seq packed)
      × (packed % 4096 ≡ expected_lsdu frame)
      × (d.lan_id ≡ packed / 4096 % 16 % 2)
      × (d.lan_id < 2)
      × (length d.payload + 6 ≡ length frame)
decode_rct_sound frame d bytes e =
    let (long, suffix, lsdu, lan, seq, payload) = decode_rct-tests frame d e in
    let size = ap length payload ∙ length-take (length frame - 6) frame in
    (
      u16_at frame (length frame - 6 + 2),
      split_trailer frame bytes long suffix ∙ sym (rw (payload, seq)),
      lsdu,
      lan,
      omega arith,
      omega arith,
    )

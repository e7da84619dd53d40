-- ===== src/Engine/Ether/Macs.antt =====
-- The texts of MAC addresses.
use prp_sim.Base.{
  ℕ, ◌+◌, ◌≤◌, ◌<◌, ◌≡◌, ◌≢◌, inl, inr, ◌∷◌, ◌++◌, arith, ltb, le→ltb, Bool-cases, length, All,
  length-append, get_or-append_left, Bytes, Text,
}
use prp_sim.Engine.Ether.{hex_digit, hex2, mac_text, get_src_mac}

hex_digit-ne : (d : ℕ) → d < 16 → hex_digit d ≢ b'|'
unfolding hex_digit
hex_digit-ne d h e = ground arith

-- A list of bytes in hexadecimal, put in front of a text with no `|`.
hex2-append : (b : ℕ) (t : Text) → All (λ c. c ≢ b'|') t → All (λ c. c ≢ b'|') (hex2 b ++ t)
unfolding hex2
hex2-append b t h = (hex_digit-ne _ (omega arith), (hex_digit-ne _ (omega arith), h))

colon-cons : (t : Text) → All (λ c. c ≢ b'|') t → All (λ c. c ≢ b'|') (b':' ∷ t)
colon-cons t h = ((λ e. omega arith), h)

mac_text-ne : (frame : Bytes) (i : ℕ) → All (λ c. c ≢ b'|') (mac_text frame i)
unfolding mac_text hex2
mac_text-ne frame i = search (hex2-append, colon-cons, tt) depth 24

-- The text of an address holds no `|`, which parts it from the sequence number in a key.
pub get_src_mac-ne : (frame : Bytes) → All (λ c. c ≢ b'|') (get_src_mac frame)
unfolding get_src_mac
get_src_mac-ne frame = elim (Bool-cases (ltb (length frame) 12)) [
  | inl short ↦ rw short tt
  | inr long ↦ rw long (mac_text-ne frame 6)
]

mac_text-append :
    (xs ys : Bytes) (i : ℕ) → i + 5 < length xs → mac_text (xs ++ ys) i ≡ mac_text xs i
unfolding mac_text
mac_text-append xs ys i h = rw (
  get_or-append_left xs ys i 0 (omega arith),
  get_or-append_left xs ys (i + 1) 0 (omega arith),
  get_or-append_left xs ys (i + 2) 0 (omega arith),
  get_or-append_left xs ys (i + 3) 0 (omega arith),
  get_or-append_left xs ys (i + 4) 0 (omega arith),
  get_or-append_left xs ys (i + 5) 0 (omega arith),
)

-- What stands behind the two addresses is not read.
pub get_src_mac-append : (xs ys : Bytes) → 12 ≤ length xs → get_src_mac (xs ++ ys) ≡ get_src_mac xs
unfolding get_src_mac
get_src_mac-append xs ys h =
    rw (le→ltb (length xs) 12 h, le→ltb (length (xs ++ ys)) 12 (omega (arith, length-append xs ys)))
      (mac_text-append xs ys 6 (omega arith))

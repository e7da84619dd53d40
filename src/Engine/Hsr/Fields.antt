-- ===== src/Engine/Hsr/Fields.antt =====
-- A tagged frame taken apart: what stands before the tag, the two bytes of its first word, and the
-- rest of the tag with the payload.
use native.Mathlib.Nat.{zero-add, suc-add}
use prp_sim.Base.{
  ℕ, zero, suc, ◌+◌, ◌-◌, ◌≤◌, ◌≡◌, refl, ap, ◌∙◌, ◌⊎◌, ◌||◌, Option, none, some, [], ◌∷◌, ◌++◌,
  arith, ltb, if◌then◌else◌, length, take, drop, All, length-append, length-take, length-drop,
  Bytes, IsByte, u16_at, put_u16, u16_at-append_left, u16_at-append_at, shr, low_bits, IsU16,
}
use prp_sim.Engine.Hsr.{strip_hsr, decode_hsr, Tag, hsr_tag_offset, decode_hsr_at, strip_at}

abbrev pub at_tag : Bytes → ℕ → Bytes → Bytes
at_tag p word r = p ++ (put_u16 word ++ r)

-- The tag as its first word and what follows the word.
unfoldable pub decode_word : ℕ → Bytes → Option Tag
decode_word word r =
    if ltb (length r) 4
    then none
    else if ltb (low_bits word 12) 6 || ltb (length r + 2) (low_bits word 12)
    then none
    else some (record {
      path = shr word 12;
      seq = u16_at r 0;
      encap_proto = u16_at r 2;
      payload = take (low_bits word 12 - 6) (drop 4 r);
    })

pub length-at_tag :
    (p : Bytes) (word : ℕ) (r : Bytes) → length (at_tag p word r) ≡ length p + 2 + length r
length-at_tag p word r = omega (arith, length-append p (put_u16 word ++ r))

pub drop-append_at : (p q : Bytes) (k : ℕ) → drop (length p + k) (p ++ q) ≡ drop k q
drop-append_at [] q k = rw (zero-add k)
drop-append_at (x ∷ p) q k = rw (suc-add (length p) k) (drop-append_at p q k)

pub u16_at-at_tag :
    (p : Bytes) (word : ℕ) (r : Bytes)
    → IsU16 word
    → (u16_at (at_tag p word r) (length p) ≡ word)
      × (u16_at (at_tag p word r) (length p + 2) ≡ u16_at r 0)
      × (u16_at (at_tag p word r) (length p + 4) ≡ u16_at r 2)
u16_at-at_tag p word r h = (
  u16_at-append_at p _ (length p) 0 (omega arith) ∙ (unfold u16_at in omega arith),
  u16_at-append_at p _ (length p + 2) 2 refl ∙ (unfold u16_at in refl),
  u16_at-append_at p _ (length p + 4) 4 refl ∙ (unfold u16_at in refl),
)

cancel : (n l : ℕ) → n + l - (n + 6) ≡ l - 6
cancel n l = omega arith

pub decode_hsr_at-at_tag :
    (p : Bytes) (word : ℕ) (r : Bytes)
    → IsU16 word
    → decode_hsr_at (at_tag p word r) (length p) ≡ decode_word word r
unfolding decode_hsr_at decode_word
decode_hsr_at-at_tag p word r h =
    let (at_word, at_seq, at_encap) = u16_at-at_tag p word r h in
    rw
      (
        at_word,
        at_seq,
        at_encap,
        length-at_tag p word r,
        drop-append_at p (put_u16 word ++ r) 6,
        cancel (length p) (low_bits word 12),
      )
      (ground arith)

pub take-append_le : (n : ℕ) (p q : Bytes) → n ≤ length p → take n (p ++ q) ≡ take n p
take-append_le zero p q h = refl
take-append_le (suc n) [] q h = absurd (omega arith)
take-append_le (suc n) (x ∷ p) q h = ap (◌∷◌ x) (take-append_le n p q (omega arith))

pub drop-append_le : (n : ℕ) (p q : Bytes) → n ≤ length p → drop n (p ++ q) ≡ drop n p ++ q
drop-append_le zero p q h = refl
drop-append_le (suc n) [] q h = absurd (omega arith)
drop-append_le (suc n) (x ∷ p) q h = drop-append_le n p q (omega arith)

-- What is stripped lies before the tag.
pub strip_at-at_tag :
    (p : Bytes) (word : ℕ) (r : Bytes) (t : Tag)
    → 14 ≤ length p
    → strip_at (at_tag p word r) (length p) t ≡ strip_at p (length p) t
unfolding strip_at
strip_at-at_tag p word r t h = rw (
  take-append_le 12 p (put_u16 word ++ r) (omega arith),
  drop-append_le 12 p (put_u16 word ++ r) (omega arith),
  take-append_le (length p - 2 - 12) (drop 12 p) (put_u16 word ++ r)
      (omega (arith, length-drop 12 p)),
)

-- The offset is found without reading the tag's first word or anything behind it.
pub hsr_tag_offset-at_tag :
    (p : Bytes) (word word' : ℕ) (r : Bytes)
    → hsr_tag_offset (at_tag p word r) ≡ some (length p)
    → hsr_tag_offset (at_tag p word' r) ≡ some (length p)
unfolding hsr_tag_offset
hsr_tag_offset-at_tag p word word' r e = ground (
  arith,
  length-at_tag p word r,
  length-at_tag p word' r,
  u16_at-append_left p (put_u16 word ++ r) 12,
  u16_at-append_left p (put_u16 word' ++ r) 12,
  u16_at-append_left p (put_u16 word ++ r) 16,
  u16_at-append_left p (put_u16 word' ++ r) 16,
)

pub hsr_tag_offset-cases :
    (f : Bytes) (off : ℕ) → hsr_tag_offset f ≡ some off → (off ≡ 14) ⊎ (off ≡ 18)
unfolding hsr_tag_offset
hsr_tag_offset-cases f off e = ground arith

split_word :
    (xs : Bytes) (i : ℕ)
    → All IsByte xs
    → i + 2 ≤ length xs
    → xs ≡ at_tag (take i xs) (u16_at xs i) (drop (i + 2) xs)
unfolding u16_at
split_word [] i bytes h = absurd (omega arith)
split_word (x ∷ []) zero bytes h = absurd (omega arith)
split_word (x ∷ y ∷ r) zero bytes h = ground arith
split_word (x ∷ xs) (suc i) bytes h =
    rw (suc-add i 2, suc-add i 1) (ap (◌∷◌ x) (split_word xs i bytes.1 (omega arith)))

-- Every tagged frame has this shape.
pub split_tag :
    (f : Bytes) (off : ℕ)
    → All IsByte f
    → off + 2 ≤ length f
    → (f ≡ at_tag (take off f) (u16_at f off) (drop (off + 2) f)) × (length (take off f) ≡ off)
split_tag f off bytes h = (split_word f off bytes h, omega (arith, length-take off f))

pub decode_hsr-at :
    (f : Bytes) (off : ℕ) → hsr_tag_offset f ≡ some off → decode_hsr f ≡ decode_hsr_at f off
unfolding decode_hsr
decode_hsr-at f off e = rw (e, decode_hsr)

pub strip_hsr-at :
    (f : Bytes) (off : ℕ) (t : Tag)
    → hsr_tag_offset f ≡ some off
    → decode_hsr f ≡ some t
    → strip_hsr f ≡ some (strip_at f off t)
unfolding strip_hsr
strip_hsr-at f off t e d = rw (e, d, strip_hsr)

-- ===== src/Engine/Hsr/Rewrite.antt =====
-- RewriteHSRPath and RewriteHSRPathLane on any tagged frame.
use prp_sim.Base.{
  ℕ, ◌+◌, ◌*◌, ◌/◌, ◌%◌, ◌≤◌, ◌≡◌, refl, sym, ap, ◌∙◌, ◌≢◌, inl, inr, Bool, true, false, Option,
  none, some, ◌++◌, arith, if◌then◌else◌, Option-cases, length, take, drop, All, take-append, Bytes,
  IsByte, u16_at, put_u16, u16_at-lt, IsU16,
}
use prp_sim.Engine.Hsr.{
  rewrite_hsr_path, rewrite_hsr_path_lane, strip_at, strip_hsr, put_word, decode_hsr_at, decode_hsr,
  rewrite_at, Tag, hsr_tag_offset, set_path, set_lane,
}
use prp_sim.Engine.Hsr.Fields.{
  strip_at-at_tag, strip_hsr-at, length-at_tag, hsr_tag_offset-at_tag, hsr_tag_offset-cases,
  u16_at-at_tag, decode_hsr_at-at_tag, decode_hsr-at, split_tag, drop-append_at, at_tag,
  decode_word,
}

-- What a frame that decodes is made of.
record Parts (f : Bytes) (t : Tag) : Type 0 where
  p : Bytes
  word : ℕ
  r : Bytes
  is_u16 : IsU16 word
  shape : f ≡ at_tag p word r
  offset : hsr_tag_offset f ≡ some (length p)
  at_least : 14 ≤ length p
  decoded : decode_word word r ≡ some t
  whole : decode_hsr f ≡ some t

-- A change of the tag's first word that leaves the LSDU size alone and takes the path from `x` to
-- `path x`.
record IsPathChange (path change : ℕ → ℕ) : Type 0 where
  bounded : (w : ℕ) → IsU16 w → IsU16 (change w)
  lsdu : (w : ℕ) → IsU16 w → change w % 4096 ≡ w % 4096
  top : (w : ℕ) → IsU16 w → change w / 4096 ≡ path (w / 4096)

decode_word-change :
    (path change : ℕ → ℕ) (w : ℕ) (r : Bytes) (t : Tag)
    → IsPathChange path change
    → IsU16 w
    → decode_word w r ≡ some t
    → decode_word (change w) r ≡ some (record t { path = path t.path })
unfolding decode_word
decode_word-change path change w r t c h e = rw (c.lsdu w h, c.top w h) (ground arith)

lane_path : Bool → ℕ → ℕ
lane_path lane_a path = path / 2 * 2 + (if lane_a then 0 else 1)

set_lane-IsPathChange : (lane_a : Bool) → IsPathChange (lane_path lane_a) (set_lane lane_a)
unfolding set_lane lane_path
set_lane-IsPathChange true = record {
  bounded = λ w h. omega arith;
  lsdu = λ w h. omega arith;
  top = λ w h. omega arith;
}
set_lane-IsPathChange false = record {
  bounded = λ w h. omega arith;
  lsdu = λ w h. omega arith;
  top = λ w h. omega arith;
}

set_path-IsPathChange : (path : ℕ) → IsPathChange (λ _. path % 16) (set_path path)
unfolding set_path
set_path-IsPathChange path = record {
  bounded = λ w h. omega arith;
  lsdu = λ w h. omega arith;
  top = λ w h. omega arith;
}

put_word-at_tag :
    (p : Bytes) (word word' : ℕ) (r : Bytes)
    → put_word (at_tag p word r) (length p) word' ≡ at_tag p word' r
unfolding put_word
put_word-at_tag p word word' r =
    rw (take-append p (put_u16 word ++ r), drop-append_at p (put_u16 word ++ r) 2)

decode_hsr_at-long :
    (f : Bytes) (off : ℕ) (t : Tag) → decode_hsr_at f off ≡ some t → off + 6 ≤ length f
unfolding decode_hsr_at
decode_hsr_at-long f off t e = ground arith

Parts-at :
    (f : Bytes) (off : ℕ) (t : Tag)
    → All IsByte f
    → hsr_tag_offset f ≡ some off
    → decode_hsr_at f off ≡ some t
    → Parts f t
Parts-at f off t bytes e d =
    let (shape, size) = split_tag f off bytes (omega (arith, decode_hsr_at-long f off t d)) in
    let word-lt : IsU16 (u16_at f off) = u16_at-lt f off bytes in
    record {
      p = take off f;
      word = u16_at f off;
      r = drop (off + 2) f;
      is_u16 = word-lt;
      shape = shape;
      offset = rw size e;
      at_least = omega (arith, hsr_tag_offset-cases f off e);
      decoded =
          sym (decode_hsr_at-at_tag (take off f) (u16_at f off) (drop (off + 2) f) word-lt)
          ∙ (rw (size, ← shape) d);
      whole = decode_hsr-at f off e ∙ d;
    }

impossible : (f : Bytes) (t : Tag) → hsr_tag_offset f ≡ none → decode_hsr f ≢ some t
unfolding decode_hsr
impossible f t absent e = ground arith

parts : (f : Bytes) (t : Tag) → All IsByte f → decode_hsr f ≡ some t → Parts f t
unfolding decode_hsr
parts f t bytes e = elim (Option-cases (hsr_tag_offset f)) [
  | inl absent ↦ absurd (impossible f t absent e)
  | inr (off, at_off) ↦ Parts-at f off t bytes at_off (sym (decode_hsr-at f off at_off) ∙ e)
]

pub strip_hsr-some :
    (f : Bytes) (t : Tag)
    → All IsByte f
    → decode_hsr f ≡ some t
    → (original : Bytes) × (strip_hsr f ≡ some original)
strip_hsr-some f t bytes e =
    let pieces = parts f t bytes e in
    (strip_at f (length pieces.p) t, strip_hsr-at f (length pieces.p) t pieces.offset e)

-- What holds of a frame after its path was rewritten.
abbrev pub Rewritten : Bytes → Tag → ℕ → Option Bytes → Type 0
Rewritten f t path result =
    (g : Bytes) × (result ≡ some g)
    × (decode_hsr g ≡ some (record t { path = path }))
    × (strip_hsr g ≡ strip_hsr f)
    × (length g ≡ length f)

decode_word-long : (w : ℕ) (r : Bytes) (t : Tag) → decode_word w r ≡ some t → 4 ≤ length r
unfolding decode_word
decode_word-long w r t e = ground arith

strip_at-path :
    (p : Bytes) (off : ℕ) (t : Tag) (path : ℕ)
    → strip_at p off (record t { path = path }) ≡ strip_at p off t
unfolding strip_at
strip_at-path p off t path = refl

rewrite_at-Parts :
    (path change : ℕ → ℕ) (f : Bytes) (t : Tag)
    → IsPathChange path change
    → Parts f t
    → Rewritten f t (path t.path) (rewrite_at change f (hsr_tag_offset f))
unfolding rewrite_at
rewrite_at-Parts path change f t c pieces = (
  g,
  (rw (offset, shape, at_word, put_word-at_tag p word (change word) r)
      (ground (arith, length-at_tag p word r, decode_word-long word r t decoded))),
  decodes,
  strip_hsr-at g (length p) t' at_g decodes
      ∙ ap some (
          strip_at-at_tag p (change word) r t' at_least
          ∙ strip_at-path p (length p) t (path t.path)
          ∙ sym (strip_at-at_tag p word r t at_least)
          ∙ ap (λ x. strip_at x (length p) t) (sym shape))
      ∙ sym (strip_hsr-at f (length p) t offset whole),
  omega (arith, length-at_tag p word r, length-at_tag p (change word) r, ap length shape),
)
  where
    open pieces use {p, word, r, is_u16, shape, offset, at_least, decoded, whole}

    g : Bytes
    g = at_tag p (change word) r

    t' : Tag
    t' = record t { path = path t.path }

    at_word : u16_at (at_tag p word r) (length p) ≡ word
    at_word = (u16_at-at_tag p word r is_u16).0

    at_g : hsr_tag_offset g ≡ some (length p)
    at_g = hsr_tag_offset-at_tag p word (change word) r (rw shape at offset)

    decodes : decode_hsr g ≡ some t'
    decodes =
        decode_hsr-at g (length p) at_g
        ∙ decode_hsr_at-at_tag p (change word) r (c.bounded word is_u16)
        ∙ decode_word-change path change word r t c is_u16 decoded

-- For a frame of bytes that DecodeHSR takes: forwarding sets the lane bit of its path for the port
-- it leaves by and keeps the NetId bits; all else that a receiver decodes, the stripped frame and
-- the length stay.
pub rewrite_hsr_path_lane_lem :
    (f : Bytes) (t : Tag) (lane_a : Bool)
    → All IsByte f
    → decode_hsr f ≡ some t
    → Rewritten f t (t.path / 2 * 2 + (if lane_a then 0 else 1)) (rewrite_hsr_path_lane f lane_a)
unfolding rewrite_hsr_path_lane lane_path
rewrite_hsr_path_lane_lem f t lane_a bytes e =
    rewrite_at-Parts (lane_path lane_a) (set_lane lane_a) f t (set_lane-IsPathChange lane_a)
      (parts f t bytes e)

-- For a frame of bytes that DecodeHSR takes: RewriteHSRPath replaces the path by the low four bits
-- of its argument and changes nothing else that a receiver decodes.
pub rewrite_hsr_path_lem :
    (f : Bytes) (t : Tag) (path : ℕ)
    → All IsByte f
    → decode_hsr f ≡ some t
    → Rewritten f t (path % 16) (rewrite_hsr_path f path)
unfolding rewrite_hsr_path
rewrite_hsr_path_lem f t path bytes e =
    rewrite_at-Parts (λ _. path % 16) (set_path path) f t (set_path-IsPathChange path)
      (parts f t bytes e)

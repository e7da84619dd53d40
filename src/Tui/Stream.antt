-- ===== src/Tui/Stream.antt =====
-- What the buffer holds depends on the stream of bytes, not on how the writes cut it.
use prp_sim.Base.{
  if-true, if-false, ℕ, ◌≤◌, ◌≡◌, refl, sym, ap, ◌∙◌, subst, inl, inr, Bool, true, false, ◌&&◌, not,
  List, [], ◌∷◌, ◌++◌, append-nil, append_assoc, arith, ltb, ◌==◌, if◌then◌else◌, Bool-cases,
  length, Bytes, Text,
}
use prp_sim.Tui.{RingBuffer, new_ring_buffer, push, write_loop, write_bytes}
use prp_sim.Tui.Lines.{
  last_of, complete_lines, open_line, drop-nil, last_of-short, length-last_of, last_of-append,
  complete_lines-append, open_line-append, front-lines, open_line-HasNoBreak,
}

push-lines :
    (line : Text) (b : RingBuffer)
    → (push line b).lines ≡ last_of b.capacity (b.lines ++ (line ∷ []))
unfolding push
push-lines line b = elim (Bool-cases (ltb b.capacity (length (b.lines ++ (line ∷ []))))) [
  | inl full ↦ ap (λ (x : RingBuffer). x.lines) (if-true _ _ _ full)
  | inr room ↦
      ap (λ (x : RingBuffer). x.lines) (if-false _ _ _ room)
      ∙ sym (last_of-short b.capacity (b.lines ++ (line ∷ [])) (ground arith))
]

push-capacity : (line : Text) (b : RingBuffer) → (push line b).capacity ≡ b.capacity
unfolding push
push-capacity line b = ground arith

-- A round of the loop that ends a line, or does not.
abbrev ended : Bool → Text → List Text
ended t line = if t then line ∷ [] else []

round-lines :
    (t : Bool) (line : Text) (b : RingBuffer)
    → length b.lines ≤ b.capacity
    → ((if t then push line b else b).lines ≡ last_of b.capacity (b.lines ++ ended t line))
      × ((if t then push line b else b).capacity ≡ b.capacity)
round-lines true line b h = (push-lines line b, push-capacity line b)
round-lines false line b h =
    (sym (rw (append-nil b.lines) (last_of-short b.capacity b.lines h)), refl)

ended-append :
    (t : Bool) (line : Text) (rest : List Text)
    → ended t line ++ rest ≡ (if t then line ∷ rest else rest)
ended-append true line rest = refl
ended-append false line rest = refl

write_loop-lines :
    (line : Text) (s : Bytes) (b : RingBuffer)
    → length b.lines ≤ b.capacity
    → (write_loop line s b).lines ≡ last_of b.capacity (b.lines ++ complete_lines line s)
unfolding write_loop
write_loop-lines line [] b h = sym (rw (append-nil b.lines) (last_of-short b.capacity b.lines h))
write_loop-lines line (c ∷ s) b h =
    let t = c == 10 && not (length line == 0) in
    let b' : RingBuffer = if t then push line b else b in
    let line' : Text = if c == 10 then [] else line ++ (c ∷ []) in
    let rest = complete_lines line' s in
    let (lines, capacity) = round-lines t line b h in
    let fits : length b'.lines ≤ b'.capacity =
      omega
        (arith, ap length lines, capacity, length-last_of b.capacity (b.lines ++ ended t line)) in
    write_loop-lines line' s b' fits
    ∙ ap (λ k. last_of k (b'.lines ++ rest)) capacity
    ∙ ap (λ ls. last_of b.capacity (ls ++ rest)) lines
    ∙ last_of-append b.capacity (b.lines ++ ended t line) rest
    ∙ ap (last_of b.capacity) (
        append_assoc b.lines (ended t line) rest
        ∙ ap (λ ls. b.lines ++ ls) (ended-append t line rest))

write_loop-pending :
    (line : Text) (s : Bytes) (b : RingBuffer) → (write_loop line s b).pending ≡ open_line line s
unfolding write_loop
write_loop-pending line [] b = refl
write_loop-pending line (c ∷ s) b =
    write_loop-pending (if c == 10 then [] else line ++ (c ∷ [])) s _

-- The writes of a list, one after the other.
abbrev pub write_all : List Bytes → RingBuffer → RingBuffer
write_all [] b = b
write_all (p ∷ ps) b = write_all ps (write_bytes p b)

abbrev pub concat_all : List Bytes → Bytes
concat_all [] = []
concat_all (p ∷ ps) = p ++ concat_all ps

-- What a buffer holds once it was written a text.
record HasRead (capacity : ℕ) (has_tee : Bool) (text : Bytes) (b : RingBuffer) : Type 0 where
  cap : b.capacity ≡ capacity
  tee : b.has_tee ≡ has_tee
  kept : b.lines ≡ last_of capacity (complete_lines [] text)
  rest : b.pending ≡ open_line [] text
  output : b.teed ≡ (if has_tee then text else [])

-- Two buffers that differ in their lines and the open line at most.
abbrev SameFrame : RingBuffer → RingBuffer → Type 0
SameFrame b b' = (b'.capacity ≡ b.capacity) × (b'.has_tee ≡ b.has_tee) × (b'.teed ≡ b.teed)

round-SameFrame :
    (t : Bool) (line : Text) (b : RingBuffer) → SameFrame b (if t then push line b else b)
unfolding push
round-SameFrame true line b = (ground arith, ground arith, ground arith)
round-SameFrame false line b = (refl, refl, refl)

write_loop-SameFrame :
    (line : Text) (s : Bytes) (b : RingBuffer) → SameFrame b (write_loop line s b)
unfolding write_loop
write_loop-SameFrame line [] b = (refl, refl, refl)
write_loop-SameFrame line (c ∷ s) b =
    let t = c == 10 && not (length line == 0) in
    let (cap, tee, teed) = round-SameFrame t line b in
    let (cap', tee', teed') =
      write_loop-SameFrame (if c == 10 then [] else line ++ (c ∷ [])) s
        (if t then push line b else b) in
    (cap' ∙ cap, tee' ∙ tee, teed' ∙ teed)

teed-HasRead :
    (capacity : ℕ) (has_tee t : Bool) (text p : Bytes) (b : RingBuffer)
    → t ≡ has_tee
    → b.capacity ≡ capacity
    → b.has_tee ≡ has_tee
    → b.lines ≡ last_of capacity (complete_lines [] (text ++ p))
    → b.pending ≡ open_line [] (text ++ p)
    → b.teed ≡ (if has_tee then text else [])
    → HasRead capacity has_tee (text ++ p) (if t then record b { teed = b.teed ++ p } else b)
teed-HasRead capacity true true text p b e cap tee kept rest out = record {
  cap = cap;
  tee = tee;
  kept = kept;
  rest = rest;
  output = ap (λ z. z ++ p) out;
}
teed-HasRead capacity false false text p b e cap tee kept rest out = record {
  cap = cap;
  tee = tee;
  kept = kept;
  rest = rest;
  output = out;
}
teed-HasRead capacity true false text p b e cap tee kept rest out = cc
teed-HasRead capacity false true text p b e cap tee kept rest out = cc

write_bytes-HasRead :
    (capacity : ℕ) (has_tee : Bool) (text p : Bytes) (b : RingBuffer)
    → HasRead capacity has_tee text b
    → HasRead capacity has_tee (text ++ p) (write_bytes p b)
unfolding write_bytes
write_bytes-HasRead capacity has_tee text p b h =
    let tail = open_line [] text in
    let b0 : RingBuffer = record b { pending = [] } in
    let (cap, tee, teed) = write_loop-SameFrame [] (b.pending ++ p) b0 in
    let (lines, ends) = front-lines tail [] p (open_line-HasNoBreak [] text tt) in
    let fits : length b.lines ≤ b.capacity =
      omega (arith, ap length h.kept, h.cap, length-last_of capacity (complete_lines [] text)) in
    teed-HasRead capacity has_tee b.has_tee text p (write_loop [] (b.pending ++ p) b0) h.tee
      (cap ∙ h.cap) (tee ∙ h.tee)
      (write_loop-lines [] (b.pending ++ p) b0 fits
        ∙ ap (λ k. last_of k (b.lines ++ complete_lines [] (b.pending ++ p))) h.cap
        ∙ ap (λ q. last_of capacity (b.lines ++ complete_lines [] (q ++ p))) h.rest
        ∙ ap (λ ls. last_of capacity (b.lines ++ ls)) lines
        ∙ ap (λ ls. last_of capacity (ls ++ complete_lines tail p)) h.kept
        ∙ last_of-append capacity (complete_lines [] text) (complete_lines tail p)
        ∙ ap (last_of capacity) (sym (complete_lines-append [] text p)))
      (write_loop-pending [] (b.pending ++ p) b0
        ∙ ap (λ q. open_line [] (q ++ p)) h.rest
        ∙ ends
        ∙ sym (open_line-append [] text p))
      (teed ∙ h.output)

write_all-HasRead :
    (capacity : ℕ) (has_tee : Bool) (ps : List Bytes) (text : Bytes) (b : RingBuffer)
    → HasRead capacity has_tee text b
    → HasRead capacity has_tee (text ++ concat_all ps) (write_all ps b)
write_all-HasRead capacity has_tee [] text b h =
    subst (λ t. HasRead capacity has_tee t b) (sym (append-nil text)) h
write_all-HasRead capacity has_tee (p ∷ ps) text b h =
    subst (λ t. HasRead capacity has_tee t (write_all ps (write_bytes p b)))
      (append_assoc text p (concat_all ps))
      (write_all-HasRead capacity has_tee ps (text ++ p) (write_bytes p b)
        (write_bytes-HasRead capacity has_tee text p b h))

-- However a stream of bytes is cut into writes: a new buffer then holds the last of the stream's
-- complete lines that are not empty, as many as its capacity allows, 200 where it was given as 0.
-- The bytes behind the last line break wait for the rest of their line, and the tee, if there is
-- one, was given the stream unchanged.
pub write_bytes_lem :
    (capacity : ℕ) (has_tee : Bool) (ps : List Bytes)
    → let b = write_all ps (new_ring_buffer capacity has_tee) in
      (b.lines
        ≡ last_of (if capacity == 0 then 200 else capacity) (complete_lines [] (concat_all ps)))
      × (b.pending ≡ open_line [] (concat_all ps))
      × (b.teed ≡ (if has_tee then concat_all ps else []))
write_bytes_lem capacity has_tee ps =
    let h =
      write_all-HasRead (if capacity == 0 then 200 else capacity) has_tee ps []
        (new_ring_buffer capacity has_tee) start in
    (h.kept, h.rest, h.output)
  where
    start :
        HasRead
          (if capacity == 0 then 200 else capacity)
          has_tee
          []
          (new_ring_buffer capacity has_tee)
    start =
        unfold new_ring_buffer in
        record {
          cap = refl;
          tee = refl;
          kept = sym (drop-nil _);
          rest = refl;
          output = ground arith;
        }

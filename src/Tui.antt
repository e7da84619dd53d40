-- ===== src/Tui.antt =====
-- internal/tui/ringbuf.go: the bounded buffer of log lines.
pub mod Screen
pub mod Lines
pub mod Stream
use prp_sim.Base.{
  ℕ, ◌-◌, Bool, ◌&&◌, ◌||◌, not, List, [], ◌∷◌, ◌++◌, ltb, ◌==◌, if◌then◌else◌, length, drop, Bytes,
  Text,
}

-- `tee` is a function that takes the bytes and returns nothing: `teed` lists what it was given, one
-- write behind the other, and `has_tee` says whether there is one.
pub record RingBuffer : Type 0 where
  pub lines : List Text
  pub pending : Text
  pub capacity : ℕ
  pub has_tee : Bool
  pub teed : Bytes

-- A negative capacity does what 0 does.
unfoldable pub new_ring_buffer : ℕ → Bool → RingBuffer
new_ring_buffer capacity has_tee = record {
  lines = [];
  pending = [];
  capacity = if capacity == 0 then 200 else capacity;
  has_tee = has_tee;
  teed = [];
}

unfoldable pub push : Text → RingBuffer → RingBuffer
push line b =
    let lines = b.lines ++ (line ∷ []) in
    if ltb b.capacity (length lines)
    then record b { lines = drop (length lines - b.capacity) lines }
    else record b { lines = lines }

-- The loop over the bytes, with `s[start:i]` as its first argument.
unfoldable pub write_loop : Text → Bytes → RingBuffer → RingBuffer
unfolding push
write_loop line [] b = record b { pending = line }
write_loop line (c ∷ s) b =
    let ends = c == 10 in
    let b' = if ends && not (length line == 0) then push line b else b in
    write_loop (if ends then [] else line ++ (c ∷ [])) s b'

unfoldable pub write_bytes : Bytes → RingBuffer → RingBuffer
unfolding write_loop
write_bytes p b =
    let b' = write_loop [] (b.pending ++ p) (record b { pending = [] }) in
    if b.has_tee then record b' { teed = b'.teed ++ p } else b'

-- `Lines(n)`; a negative number does what 0 does.
unfoldable pub recent_lines : ℕ → RingBuffer → List Text
recent_lines n b =
    let k = if n == 0 || ltb (length b.lines) n then length b.lines else n in
    drop (length b.lines - k) b.lines

unfoldable pub line_count : RingBuffer → ℕ
line_count b = length b.lines

-- ===== src/Examples/Others.antt =====
-- The console's, the configuration's and the payloads' properties at concrete inputs.
use prp_sim.Base.{
  ◌≤◌, ◌≡◌, true, List, [], ◌∷◌, ◌++◌, ltb, ◌==◌, if◌then◌else◌, length, Bytes, Text, codes,
}
use prp_sim.Prp.Multicast.{parse_multicast_pattern}
use prp_sim.Conf.{valid_multicast_pattern}
use prp_sim.Conf.Patterns.{valid_multicast_pattern_lem}
use prp_sim.Tui.{RingBuffer, new_ring_buffer}
use prp_sim.Tui.Lines.{last_of, complete_lines, open_line}
use prp_sim.Tui.Stream.{write_all, concat_all, write_bytes_lem}

-- Two lines and a half, cut in the middle of a line.
abbrev cuts : List Bytes
cuts = codes "on" ∷ (codes "e" ++ (10 ∷ codes "two")) ∷ (10 ∷ codes "half") ∷ []

abbrev log_buffer : RingBuffer
log_buffer = write_all cuts (new_ring_buffer 1 true)

write_bytes_lem_example :
    (log_buffer.lines ≡ last_of (if 1 == 0 then 200 else 1) (complete_lines [] (concat_all cuts)))
    × (log_buffer.pending ≡ open_line [] (concat_all cuts))
    × (log_buffer.teed ≡ (if true then concat_all cuts else []))
write_bytes_lem_example = write_bytes_lem 1 true cuts

abbrev pattern_text : Text
pattern_text = codes "01-00-5E"

valid_multicast_pattern_lem_example :
    (valid_multicast_pattern pattern_text ≡ ltb 0 (length (parse_multicast_pattern pattern_text)))
    × (length (parse_multicast_pattern pattern_text) ≤ 6)
valid_multicast_pattern_lem_example = valid_multicast_pattern_lem pattern_text

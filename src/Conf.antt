-- ===== src/Conf.antt =====
-- internal/config/config.go: what Load makes of a file that was read.
pub mod Patterns
pub mod Results
pub mod Load
use prp_sim.Base.{
  ℕ, ◌%◌, Bool, true, false, ◌&&◌, ◌||◌, not, [], ◌∷◌, ltb, leb, ◌==◌, if◌then◌else◌, length, Text,
  text_eq,
}
use prp_sim.Prp.Multicast.{normalize_hex}

-- The test on one character of the normalized pattern.
unfoldable pub is_lower_hex : ℕ → Bool
is_lower_hex r = leb b'0' r && leb r b'9' || leb b'a' r && leb r b'f'

unfoldable pub all_lower_hex : Text → Bool
unfolding is_lower_hex
all_lower_hex [] = true
all_lower_hex (r ∷ s) = is_lower_hex r && all_lower_hex s

unfoldable pub valid_multicast_pattern : Text → Bool
unfolding all_lower_hex
valid_multicast_pattern s =
    let hex = normalize_hex s in
    if text_eq hex [] || ltb 12 (length hex) || not (length hex % 2 == 0)
    then false
    else all_lower_hex hex

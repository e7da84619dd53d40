-- ===== src/Trafficgen/Stats.antt =====
-- cmd/trafficgen/main.go: what the receiver counts.
pub mod Counts
use prp_sim.Base.{
  ℕ, ◌+◌, ◌-◌, ◌*◌, Bool, false, ◌||◌, Option, none, some, List, [], ◌∷◌, ◌++◌, ltb, ◌==◌,
  if◌then◌else◌, Text, text_eq,
}

-- `s.lastSeen[key]`. The map holds no other value than true, so it is the list of its keys.
unfoldable pub has_seen : Text → List Text → Bool
has_seen key [] = false
has_seen key (k ∷ keys) = text_eq k key || has_seen key keys

-- Latencies are nanoseconds. `tags` counts frames by VLAN ID and PCP.
pub record Stats : Type 0 where
  pub total : ℕ
  pub unique : ℕ
  pub dupes : ℕ
  pub latency : List ℕ
  pub last_key : Text
  pub last_seen : List Text
  pub tags : List (ℕ × List (ℕ × ℕ))

abbrev pub no_stats : Stats
no_stats = record {
  total = 0;
  unique = 0;
  dupes = 0;
  latency = [];
  last_key = [];
  last_seen = [];
  tags = [];
}

unfoldable pub bump_pcp : ℕ → List (ℕ × ℕ) → List (ℕ × ℕ)
bump_pcp pcp [] = (pcp, 1) ∷ []
bump_pcp pcp ((p, n) ∷ pcps) = if p == pcp then (p, n + 1) ∷ pcps else (p, n) ∷ bump_pcp pcp pcps

unfoldable pub bump_vid : ℕ → ℕ → List (ℕ × List (ℕ × ℕ)) → List (ℕ × List (ℕ × ℕ))
unfolding bump_pcp
bump_vid vid pcp [] = (vid, bump_pcp pcp []) ∷ []
bump_vid vid pcp ((v, pcps) ∷ tags) =
    if v == vid then (v, bump_pcp pcp pcps) ∷ tags else (v, pcps) ∷ bump_vid vid pcp tags

unfoldable pub note_tagged : Option ℕ → ℕ → Stats → Stats
note_tagged none pcp s = s
note_tagged (some vid) pcp s = record s { tags = bump_vid vid pcp s.tags }

-- A frame is a duplicate, or its key is new.
unfoldable pub note_key : Text → Stats → Stats
note_key key s =
    if has_seen key s.last_seen
    then record s { dupes = s.dupes + 1 }
    else record s { unique = s.unique + 1; last_seen = s.last_seen ++ (key ∷ []); last_key = key }

-- The latency of a frame that says when it was sent, if the clocks give a positive one. `now` is in
-- nanoseconds.
unfoldable pub note_latency : Option (ℕ × ℕ) → ℕ → Stats → Stats
note_latency none now s = s
note_latency (some (epoch, ns)) now s =
    let sent = epoch * 1_000_000_000 + ns in
    if ltb sent now then record s { latency = s.latency ++ ((now - sent) ∷ []) } else s

unfoldable pub note_frame : Text → Option (ℕ × ℕ) → ℕ → Stats → Stats
unfolding note_key note_latency
note_frame key sent_at now s =
    note_key key (note_latency sent_at now (record s { total = s.total + 1 }))

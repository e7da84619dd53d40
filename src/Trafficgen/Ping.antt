-- ===== src/Trafficgen/Ping.antt =====
-- cmd/trafficgen/main.go: pingMode.
pub mod Echoes
use prp_sim.Base.{
  ℕ, zero, suc, ◌+◌, Option, none, some, List, [], ◌∷◌, Bytes, codes, to_u16, Outcome, done, ◌>>=◌,
}
use prp_sim.Trafficgen.{build_frame, parse_frame, Parsed}
use prp_sim.Trafficgen.Stats.{Stats, note_frame}
use prp_sim.Trafficgen.Run.{Publisher}

-- The frames that go out, whether or not a signal comes: its `break` leaves the select only.
unfoldable pub ping_loop : Publisher → ℕ → ℕ → List Bytes
ping_loop p zero i = []
ping_loop p (suc count) i =
    build_frame p.addresses p.appid (to_u16 (i + 1)) 1 (p.clock i) p.vid p.pcp
    ∷ ping_loop p count (i + 1)

-- What the receiver counts of a frame. It is noted under one key, as sent when it came in, and the
-- clock is read once more, `later`.
unfoldable pub note_echo : ℕ × ℕ → ℕ → Option Parsed → Stats → Stats
note_echo came later none s = s
note_echo came later (some p) s = note_frame (codes "ping") (some came) later s

-- An echo: what came in, when, and the clock once more.
pub record Echo : Type 0 where
  pub frame : Bytes
  pub spare : Bytes
  pub came : ℕ × ℕ
  pub later : ℕ

unfoldable pub ping_recv : ℕ → List Echo → Stats → Outcome Stats
unfolding note_echo
ping_recv want [] s = done s
ping_recv want (e ∷ rest) s =
    parse_frame e.frame e.spare want >>= λ o. ping_recv want rest (note_echo e.came e.later o s)

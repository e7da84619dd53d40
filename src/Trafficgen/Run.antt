-- ===== src/Trafficgen/Run.antt =====
-- cmd/trafficgen/main.go: the frames that a publisher sends and the loop of a subscriber.
pub mod Stream
use prp_sim.Base.{
  ℕ, zero, suc, ◌+◌, Bool, Option, none, some, List, [], ◌∷◌, ◌++◌, if◌then◌else◌, Bytes, Text,
  to_u16, Outcome, done, ◌>>=◌,
}
use prp_sim.Nodetable.{decimal}
use prp_sim.Trafficgen.{Addresses, build_frame_et, Parsed, parse_frame}
use prp_sim.Trafficgen.Stats.{Stats, note_tagged, note_frame}

-- The arguments of `send`. `clock` is the time of day at which each frame was built, the first of
-- which has number 0.
pub record Publisher : Type 0 where
  pub addresses : Addresses
  pub appid : ℕ
  pub vid : Option ℕ
  pub pcp : ℕ
  pub et : ℕ
  pub burst : Bool
  pub clock : ℕ → ℕ × ℕ

unfoldable pub frame_of : Publisher → ℕ → ℕ → ℕ → Bytes
frame_of p st_num sq_num sent =
    build_frame_et p.addresses p.appid st_num sq_num (p.clock sent) p.vid p.pcp p.et

-- The frames of a burst that follow its first, `sent` of the run being out.
unfoldable pub retransmissions : Publisher → ℕ → ℕ → ℕ → ℕ → List Bytes
unfolding frame_of
retransmissions p zero st_num sq_num sent = []
retransmissions p (suc k) st_num sq_num sent =
    frame_of p st_num (to_u16 (sq_num + 1)) sent
    ∷ retransmissions p k st_num (to_u16 (sq_num + 1)) (sent + 1)

abbrev pub burst_len : Publisher → ℕ
burst_len p = if p.burst then 3 else 0

unfoldable pub send_loop : Publisher → ℕ → ℕ → ℕ → List Bytes
unfolding frame_of retransmissions
send_loop p zero st_num sent = []
send_loop p (suc count) st_num sent =
    let next = to_u16 (st_num + 1) in
    frame_of p next 1 sent
    ∷ (retransmissions p (burst_len p) next 1 (sent + 1)
        ++ send_loop p count next (sent + 1 + burst_len p))

-- The frames of a run that neither a signal nor a failing socket ends. One that ends early has sent
-- a prefix of them.
unfoldable pub send : Publisher → ℕ → List Bytes
unfolding send_loop
send p count = send_loop p count 1 0

-- `fmt.Sprintf("%d|%d", stNum, sqNum)`
unfoldable pub frame_key : ℕ → ℕ → Text
frame_key st_num sq_num = decimal st_num ++ (b'|' ∷ decimal sq_num)

-- A frame that came in, what lies behind it in the buffer, and when.
pub record Arrival : Type 0 where
  pub frame : Bytes
  pub spare : Bytes
  pub now : ℕ

abbrev pub note_parsed : ℕ → Option Parsed → Stats → Stats
note_parsed now none s = s
note_parsed now (some p) s =
    note_tagged p.vid p.pcp (note_frame (frame_key p.st_num p.sq_num) p.sent_at now s)

unfoldable pub recv_frame : ℕ → Arrival → Stats → Outcome Stats
recv_frame want a s = parse_frame a.frame a.spare want >>= λ o. done (note_parsed a.now o s)

unfoldable pub recv : ℕ → List Arrival → Stats → Outcome Stats
unfolding recv_frame
recv want [] s = done s
recv want (a ∷ rest) s = recv_frame want a s >>= recv want rest

-- ===== src/Trafficgen/Run/Stream.antt =====
-- cmd/trafficgen/main.go: what a subscriber counts of what came in.
pub mod Pairs
pub mod Whole
use prp_sim.Base.{
  panics, done-injective, ℕ, ◌≡◌, sym, subst, Option, none, some, List, [], ◌∷◌, ◌++◌, append-nil,
  append_assoc, Text, Outcome, done, ◌>>=◌,
}
use prp_sim.Nodetable.{decimal, key}
use prp_sim.Nodetable.Keys.{key-injective, decimal-injective, decimal-HasNoBar}
use prp_sim.Trafficgen.{Parsed, parse_frame}
use prp_sim.Trafficgen.Stats.{Stats, no_stats}
use prp_sim.Trafficgen.Stats.Counts.{
  IsCounted, note_frame-IsCounted, note_tagged-IsCounted, no_stats-IsCounted,
}
use prp_sim.Trafficgen.Run.{frame_key, Arrival, note_parsed, recv_frame, recv}

pub frame_key-injective :
    (st sq st' sq' : ℕ) → frame_key st sq ≡ frame_key st' sq' → (st ≡ st') × (sq ≡ sq')
unfolding frame_key
frame_key-injective st sq st' sq' e =
    let (same, sqs) =
      key-injective (decimal st) (decimal st') sq sq' (decimal-HasNoBar st) (decimal-HasNoBar st')
        (unfold key in e) in
    (decimal-injective st st' same, sqs)

-- The keys of the frames that parseFrame takes.
abbrev pub key_of : Outcome (Option Parsed) → List Text
key_of (done (some p)) = frame_key p.st_num p.sq_num ∷ []
key_of (done none) = []
key_of panics = []

abbrev pub read_keys : ℕ → List Arrival → List Text
read_keys want [] = []
read_keys want (a ∷ rest) = key_of (parse_frame a.frame a.spare want) ++ read_keys want rest

note_parsed-IsCounted :
    (now : ℕ) (o : Option Parsed) (keys : List Text) (s : Stats)
    → IsCounted keys s
    → IsCounted (keys ++ key_of (done o)) (note_parsed now o s)
note_parsed-IsCounted now none keys s h = rw (append-nil keys) h
note_parsed-IsCounted now (some p) keys s h =
    note_tagged-IsCounted p.vid p.pcp _ _
      (note_frame-IsCounted (frame_key p.st_num p.sq_num) p.sent_at now keys s h)

recv-IsCounted :
    (want : ℕ) (arrivals : List Arrival) (keys : List Text) (s m : Stats)
    → IsCounted keys s
    → recv want arrivals s ≡ done m
    → IsCounted (keys ++ read_keys want arrivals) m
unfolding recv recv_frame
recv-IsCounted want [] keys s m h e =
    rw (append-nil keys) (subst (IsCounted keys) (done-injective s m e) h)
recv-IsCounted want (a ∷ rest) keys s m h e =
    go (parse_frame a.frame a.spare want) (λ keys s. recv-IsCounted want rest keys s m) e
  where
    go :
        (o : Outcome (Option Parsed))
        → ((keys : List Text) (s : Stats)
            → IsCounted keys s
            → recv want rest s ≡ done m
            → IsCounted (keys ++ read_keys want rest) m)
        → ((o >>= λ p. done (note_parsed a.now p s)) >>= recv want rest) ≡ done m
        → IsCounted (keys ++ (key_of o ++ read_keys want rest)) m
    go (done p) ih e = rw (sym (append_assoc keys (key_of (done p)) (read_keys want rest))) (
        ih (keys ++ key_of (done p)) (note_parsed a.now p s)
          (note_parsed-IsCounted a.now p keys s h) e)
    go panics ih e = cc

-- The counts of a subscriber that did not crash, whatever came in: the total is the number of
-- frames that parseFrame takes, the unique ones and the duplicates add up to it, and the unique
-- ones are as many as the different keys among those frames, each of which is remembered.
pub recv_lem :
    (want : ℕ) (arrivals : List Arrival) (m : Stats)
    → recv want arrivals no_stats ≡ done m
    → IsCounted (read_keys want arrivals) m
recv_lem want arrivals m e = recv-IsCounted want arrivals [] no_stats m no_stats-IsCounted e

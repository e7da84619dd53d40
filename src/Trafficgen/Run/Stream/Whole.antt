-- ===== src/Trafficgen/Run/Stream/Whole.antt =====
-- cmd/trafficgen/main.go: a publisher's run, as a subscriber on a network without loss counts it.
use prp_sim.Base.{
  ℕ, zero, suc, ◌+◌, ◌^◌, ◌≤◌, ◌<◌, ◌≡◌, refl, sym, ap, ◌∙◌, subst, ◌⊎◌, false, some, List, [], ◌∷◌,
  ◌++◌, append-nil, append_assoc, arith, length, Bytes, Text, text_eq_iff, to_u16, IsU16, done,
  ◌>>=◌,
}
use prp_sim.Trafficgen.{et_goose, build_frame_et, Parsed, parse_frame}
use prp_sim.Trafficgen.Frames.Assembled.{IsTag}
use prp_sim.Trafficgen.Frames.{parse_frame-build_frame_et}
use prp_sim.Trafficgen.Stats.{has_seen, Stats, no_stats}
use prp_sim.Trafficgen.Stats.Counts.{
  note_frame-new, IsCounted, no_stats-IsCounted, Different, has_seen-append,
}
use prp_sim.Trafficgen.Run.{
  Publisher, frame_of, retransmissions, burst_len, send_loop, send, frame_key, Arrival, note_parsed,
  recv_frame, recv,
}
use prp_sim.Trafficgen.Run.Stream.{note_parsed-IsCounted}
use prp_sim.Trafficgen.Run.Stream.Pairs.{
  Pairs, burst_pairs, send_pairs, pair_keys, send_pairs-Different,
}

-- A publisher of GOOSE frames whose arguments fit their fields and whose clock shows a time of the
-- years 1970 to 2106.
pub record IsPublisher (p : Publisher) : Type 0 where
  pub et : p.et ≡ et_goose
  pub appid : IsU16 p.appid
  pub tag : IsTag p.vid p.pcp
  pub since : (i : ℕ) → (p.clock i).0 < 2 ^ 32
  pub small : (i : ℕ) → (p.clock i).1 < 1_000_000_000

-- Frames that come in one by one, with what the world says of each: what lies behind it in the
-- buffer, and when it comes.
abbrev pub arrive : (ℕ → Bytes × ℕ) → ℕ → List Bytes → List Arrival
arrive world i [] = []
arrive world i (f ∷ fs) =
    record { frame = f; spare = (world i).0; now = (world i).1 } ∷ arrive world (i + 1) fs

-- A subscriber reads the numbers of a frame, whatever lies behind it.
abbrev ReadsAs : ℕ → Bytes → ℕ × ℕ → Type 0
ReadsAs want f p =
    (spare : Bytes)
    → (q : Parsed) × (parse_frame f spare want ≡ done (some q))
      × (frame_key q.st_num q.sq_num ≡ frame_key p.0 p.1)

data Reads (want : ℕ) : List Bytes → Pairs → Type 0 where
  read_all : Reads want [] []
  read_next :
      {f : Bytes} {fs : List Bytes} {p : ℕ × ℕ} {ps : Pairs}
      → ReadsAs want f p
      → Reads want fs ps
      → Reads want (f ∷ fs) (p ∷ ps)

Reads-append :
    {want : ℕ} {fs gs : List Bytes} {ps qs : Pairs}
    → Reads want fs ps
    → Reads want gs qs
    → Reads want (fs ++ gs) (ps ++ qs)
Reads-append read_all s = s
Reads-append (read_next h r) s = read_next h (Reads-append r s)

Different-middle :
    (k : Text) (xs ys : List Text) → Different (xs ++ (k ∷ ys)) → has_seen k xs ≡ false
unfolding has_seen
Different-middle k [] ys d = refl
Different-middle k (x ∷ xs) ys (out, d) = ground (
  arith,
  Different-middle k xs ys d,
  has_seen-append x xs (k ∷ ys),
  text_eq_iff x k,
  text_eq_iff k x,
)

recv-Reads :
    (want : ℕ) (world : ℕ → Bytes × ℕ) (i : ℕ) (fs : List Bytes) (ps : Pairs) (keys : List Text)
    (s : Stats)
    → Reads want fs ps
    → IsCounted keys s
    → s.last_seen ≡ keys
    → Different (keys ++ pair_keys ps)
    → (m : Stats) × (recv want (arrive world i fs) s ≡ done m)
      × IsCounted (keys ++ pair_keys ps) m
      × (m.last_seen ≡ keys ++ pair_keys ps)
unfolding recv recv_frame
recv-Reads want world i [] [] keys s read_all h seen d =
    (s, refl, rw (append-nil keys) h, seen ∙ sym (append-nil keys))
recv-Reads want world i [] (p ∷ ps) keys s r h seen d = elim r [ ]
recv-Reads want world i (f ∷ fs) [] keys s r h seen d = elim r [ ]
recv-Reads want world i (f ∷ fs) (p ∷ ps) keys s (read_next reads r) h seen d =
    let (q, at, same) = reads (world i).0 in
    let k = frame_key p.0 p.1 in
    let now = (world i).1 in
    let s' = note_parsed now (some q) s in
    let assoc = append_assoc keys (k ∷ []) (pair_keys ps) in
    let new : has_seen (frame_key q.st_num q.sq_num) s.last_seen ≡ false =
      rw (same, seen) (Different-middle k keys (pair_keys ps) d) in
    let (m, e, counted, last) =
      recv-Reads want world (i + 1) fs ps (keys ++ (k ∷ [])) s' r
        (subst (λ j. IsCounted (keys ++ (j ∷ [])) s') same
          (note_parsed-IsCounted now (some q) keys s h))
        (note_frame-new (frame_key q.st_num q.sq_num) q.sent_at now q.vid q.pcp s new
          ∙ rw (same, seen))
        (subst Different (sym assoc) d) in
    (
      m,
      ap (λ o. (o >>= λ x. done (note_parsed now x s)) >>= recv want (arrive world (i + 1) fs)) at
          ∙ e,
      subst (λ ks. IsCounted ks m) assoc counted,
      last ∙ assoc,
    )

module _ (p : Publisher) (valid : IsPublisher p) (want : ℕ)
    (wanted : (want ≡ 0) ⊎ (want ≡ p.appid)) where
  frame_of-ReadsAs :
      (st sq sent : ℕ) → IsU16 st → IsU16 sq → ReadsAs want (frame_of p st sq sent) (st, sq)
  unfolding frame_of
  frame_of-ReadsAs st sq sent hst hsq spare =
      let (ns, early, close, read) =
        parse_frame-build_frame_et p.addresses p.appid st sq (p.clock sent) p.vid p.pcp want spare
          valid.appid hst hsq (valid.since sent) (valid.small sent) valid.tag wanted in
      (
        _,
        ap
              (λ et.
                parse_frame (build_frame_et p.addresses p.appid st sq (p.clock sent) p.vid p.pcp et)
                  spare want)
              valid.et
            ∙ read,
        refl,
      )

  retransmissions-Reads :
      (k st sq sent : ℕ)
      → IsU16 st
      → Reads want (retransmissions p k st sq sent) (burst_pairs k st sq)
  unfolding retransmissions
  retransmissions-Reads zero st sq sent h = read_all
  retransmissions-Reads (suc k) st sq sent h =
      read_next (frame_of-ReadsAs st (to_u16 (sq + 1)) sent h (omega arith))
        (retransmissions-Reads k st (to_u16 (sq + 1)) (sent + 1) h)

  send_loop-Reads :
      (count st sent : ℕ)
      → Reads want (send_loop p count st sent) (send_pairs (burst_len p) count st)
  unfolding send_loop
  send_loop-Reads zero st sent = read_all
  send_loop-Reads (suc count) st sent =
      let next = to_u16 (st + 1) in
      read_next (frame_of-ReadsAs next 1 sent (omega arith) (omega arith)) (
        Reads-append (retransmissions-Reads (burst_len p) next 1 (sent + 1) (omega arith))
          (send_loop-Reads count next (sent + 1 + burst_len p)))

length-pair_keys :
    {want : ℕ} {fs : List Bytes} {ps : Pairs} → Reads want fs ps → length (pair_keys ps) ≡ length fs
length-pair_keys read_all = refl
length-pair_keys (read_next h r) = ap suc (length-pair_keys r)

-- A publisher of GOOSE frames, with or without bursts and with or without a tag, whose arguments
-- fit their fields, and a subscriber to its APPID or to all, on a network that loses and doubles
-- nothing: up to 2 ^ 16 events, and whatever lies behind a frame in the buffer, the subscriber
-- does not crash and counts every frame, as unique, and no duplicate.
pub send_is_received :
    (p : Publisher) (count want : ℕ) (world : ℕ → Bytes × ℕ)
    → IsPublisher p
    → (want ≡ 0) ⊎ (want ≡ p.appid)
    → count ≤ 2 ^ 16
    → let frames = send p count in
      (m : Stats) × (recv want (arrive world 0 frames) no_stats ≡ done m)
      × (m.total ≡ length frames)
      × (m.unique ≡ length frames)
      × (m.dupes ≡ 0)
unfolding send
send_is_received p count want world valid wanted h =
    let reads = send_loop-Reads p valid want wanted count 1 0 in
    let ps = send_pairs (burst_len p) count 1 in
    let few : burst_len p ≤ 3 = ground arith in
    let (m, e, counted, last) =
      recv-Reads want world 0 (send_loop p count 1 0) ps [] no_stats reads no_stats-IsCounted refl
        (send_pairs-Different (burst_len p) count few h) in
    let size = length-pair_keys reads in
    let total : m.total ≡ length (send_loop p count 1 0) = counted.total ∙ size in
    let unique : m.unique ≡ length (send_loop p count 1 0) =
      counted.unique ∙ ap length last ∙ size in
    (m, e, total, unique, omega (arith, counted.split, total, unique))

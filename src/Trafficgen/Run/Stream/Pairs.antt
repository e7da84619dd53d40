-- ===== src/Trafficgen/Run/Stream/Pairs.antt =====
-- cmd/trafficgen/main.go: the numbers that a publisher gives its frames do not repeat.
use prp_sim.Base.{
  ℕ, zero, suc, ◌+◌, ◌%◌, ◌^◌, ◌≤◌, ◌<◌, ◌≡◌, refl, sym, ap, subst, ◌≢◌, inl, inr, false, List, [],
  ◌∷◌, ◌++◌, arith, Bool-cases, All, All-append, Text, text_eq, text_eq_iff, to_u16,
}
use prp_sim.Trafficgen.Stats.{has_seen}
use prp_sim.Trafficgen.Stats.Counts.{Different}
use prp_sim.Trafficgen.Run.{frame_key}
use prp_sim.Trafficgen.Run.Stream.{frame_key-injective}

abbrev pub Pairs : Type 0
Pairs = List (ℕ × ℕ)

-- The pairs of numbers of one burst behind its first frame, and those of a run.
abbrev pub burst_pairs : ℕ → ℕ → ℕ → Pairs
burst_pairs zero st sq = []
burst_pairs (suc k) st sq = (st, to_u16 (sq + 1)) ∷ burst_pairs k st (to_u16 (sq + 1))

abbrev pub send_pairs : ℕ → ℕ → ℕ → Pairs
send_pairs len zero st = []
send_pairs len (suc count) st =
    let next = to_u16 (st + 1) in (next, 1) ∷ (burst_pairs len next 1 ++ send_pairs len count next)

abbrev Misses : ℕ × ℕ → Pairs → Type 0
Misses p = All (λ (q : ℕ × ℕ). q ≢ p)

abbrev NoRepeat : Pairs → Type 0
NoRepeat [] = Unit {0}
NoRepeat (p ∷ ps) = Misses p ps × NoRepeat ps

NoRepeat-append :
    (xs ys : Pairs)
    → NoRepeat xs
    → NoRepeat ys
    → All (λ (x : ℕ × ℕ). Misses x ys) xs
    → NoRepeat (xs ++ ys)
NoRepeat-append [] ys hx hy apart = hy
NoRepeat-append (x ∷ xs) ys (out, hx) hy (here, apart) =
    (All-append (λ q. q ≢ x) xs ys out here, NoRepeat-append xs ys hx hy apart)

All-map : (P Q : ℕ × ℕ → Type 0) (xs : Pairs) → ((x : ℕ × ℕ) → P x → Q x) → All P xs → All Q xs
All-map P Q [] f h = tt
All-map P Q (x ∷ xs) f (hx, h) = (f x hx, All-map P Q xs f h)

-- In a burst the event stays and the second number grows.
abbrev Later : ℕ → ℕ → ℕ × ℕ → Type 0
Later st sq p = (p.0 ≡ st) × (sq < p.1)

burst-Later : (k st sq : ℕ) → sq + k < 2 ^ 16 → All (Later st sq) (burst_pairs k st sq)
burst-Later zero st sq h = tt
burst-Later (suc k) st sq h = (
  (refl, omega arith),
  All-map (Later st (to_u16 (sq + 1))) (Later st sq) (burst_pairs k st (to_u16 (sq + 1)))
      (λ p l. (l.0, omega arith)) (burst-Later k st (to_u16 (sq + 1)) (omega arith)),
)

burst-NoRepeat : (k st sq : ℕ) → sq + k < 2 ^ 16 → NoRepeat (burst_pairs k st sq)
burst-NoRepeat zero st sq h = tt
burst-NoRepeat (suc k) st sq h = (
  All-map (Later st (to_u16 (sq + 1))) (λ q. q ≢ (st, to_u16 (sq + 1)))
      (burst_pairs k st (to_u16 (sq + 1))) (λ q l e. omega (arith, l, ap (λ (x : ℕ × ℕ). x.1) e))
      (burst-Later k st (to_u16 (sq + 1)) (omega arith)),
  burst-NoRepeat k st (to_u16 (sq + 1)) (omega arith),
)

-- The event number of a frame, counted without wrap-around.
abbrev Within : ℕ → ℕ → ℕ × ℕ → Type 0
Within lo hi p = (m : ℕ) × (lo < m) × (m ≤ hi) × (p.0 ≡ m % 2 ^ 16)

send_pairs-next :
    (len count base : ℕ)
    → let next = (base + 1) % 2 ^ 16 in
      send_pairs len (suc count) (base % 2 ^ 16)
      ≡ (next, 1) ∷ (burst_pairs len next 1 ++ send_pairs len count next)
send_pairs-next len count base =
    ap {B = Pairs} (λ n. (n, 1) ∷ (burst_pairs len n 1 ++ send_pairs len count n)) (next_event base)
  where
    next_event : (base : ℕ) → to_u16 (base % 2 ^ 16 + 1) ≡ (base + 1) % 2 ^ 16
    next_event base = omega arith

wider :
    (lo hi lo' hi' : ℕ) (ps : Pairs)
    → lo' ≤ lo
    → hi ≤ hi'
    → All (Within lo hi) ps
    → All (Within lo' hi') ps
wider lo hi lo' hi' ps down up h =
    All-map (Within lo hi) (Within lo' hi') ps (λ p (m, a, b, e). (m, omega arith, omega arith, e))
      h

send-Within :
    (len count base : ℕ)
    → len ≤ 3
    → All (Within base (base + count)) (send_pairs len count (base % 2 ^ 16))
send-Within len zero base few = tt
send-Within len (suc count) base few =
    let next = (base + 1) % 2 ^ 16 in
    subst (All (Within base (base + suc count))) (sym (send_pairs-next len count base)) (
      (base + 1, omega arith, omega arith, refl),
      All-append (Within base (base + suc count)) (burst_pairs len next 1)
          (send_pairs len count next)
          (All-map (Later next 1) (Within base (base + suc count)) (burst_pairs len next 1)
            (λ p l. (base + 1, omega arith, omega arith, l.0))
            (burst-Later len next 1 (omega arith)))
          (wider (base + 1) (base + 1 + count) base (base + suc count) (send_pairs len count next)
            (omega arith) (omega arith) (send-Within len count (base + 1) few)),
    )

-- Frames of one event, and of the next ones.
apart :
    (base count : ℕ) (p : ℕ × ℕ) (ps : Pairs)
    → base + count < 2 ^ 16 + base
    → p.0 ≡ base % 2 ^ 16
    → All (Within base (base + count)) ps
    → Misses p ps
apart base count p ps few at h =
    All-map (Within base (base + count)) (λ q. q ≢ p) ps
      (λ q (m, a, b, e) same. omega (arith, at, e, ap (λ (x : ℕ × ℕ). x.0) same)) h

send-NoRepeat :
    (len count base : ℕ)
    → len ≤ 3
    → count ≤ 2 ^ 16
    → NoRepeat (send_pairs len count (base % 2 ^ 16))
send-NoRepeat len zero base few h = tt
send-NoRepeat len (suc count) base few h =
    let next = (base + 1) % 2 ^ 16 in
    let rest = send_pairs len count next in
    let later = burst-Later len next 1 (omega arith) in
    let within = send-Within len count (base + 1) few in
    subst NoRepeat (sym (send_pairs-next len count base)) (
      All-append (λ q. q ≢ (next, 1)) (burst_pairs len next 1) rest
          (All-map (Later next 1) (λ q. q ≢ (next, 1)) (burst_pairs len next 1)
            (λ q l e. omega (arith, l, ap (λ (x : ℕ × ℕ). x.1) e)) later)
          (apart (base + 1) count (next, 1) rest (omega arith) refl within),
      NoRepeat-append (burst_pairs len next 1) rest (burst-NoRepeat len next 1 (omega arith))
          (send-NoRepeat len count (base + 1) few (omega arith))
          (All-map (Later next 1) (λ p. Misses p rest) (burst_pairs len next 1)
            (λ p l. apart (base + 1) count p rest (omega arith) l.0 within) later),
    )

-- The keys of pairs that do not repeat are different.
abbrev pub pair_keys : Pairs → List Text
pair_keys [] = []
pair_keys (p ∷ ps) = frame_key p.0 p.1 ∷ pair_keys ps

has_seen-missed :
    (p : ℕ × ℕ) (ps : Pairs) → Misses p ps → has_seen (frame_key p.0 p.1) (pair_keys ps) ≡ false
unfolding has_seen
has_seen-missed p [] h = refl
has_seen-missed p (q ∷ ps) (hq, h) =
    elim (Bool-cases (text_eq (frame_key q.0 q.1) (frame_key p.0 p.1))) [
      | inl same ↦
          let (a, b) =
            frame_key-injective q.0 q.1 p.0 p.1
              ((text_eq_iff (frame_key q.0 q.1) (frame_key p.0 p.1)).0 same) in
          absurd (hq (ground (arith, a, b)))
      | inr other ↦ rw (other, has_seen-missed p ps h)
    ]

pair_keys-Different : (ps : Pairs) → NoRepeat ps → Different (pair_keys ps)
pair_keys-Different [] h = tt
pair_keys-Different (p ∷ ps) (out, h) = (has_seen-missed p ps out, pair_keys-Different ps h)

-- The first event of a run has number 2, and the numbers come back after 65536 events.
pub send_pairs-Different :
    (len count : ℕ) → len ≤ 3 → count ≤ 2 ^ 16 → Different (pair_keys (send_pairs len count 1))
send_pairs-Different len count few h =
    pair_keys-Different (send_pairs len count 1) (send-NoRepeat len count 1 few h)

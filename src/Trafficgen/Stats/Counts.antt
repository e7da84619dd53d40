-- ===== src/Trafficgen/Stats/Counts.antt =====
-- cmd/trafficgen/main.go: the counts are those of the keys that came in.
use prp_sim.Base.{
  ℕ, ◌+◌, ◌*◌, ◌≡◌, refl, sym, ap, ◌∙◌, subst, inl, inr, false, ◌||◌, Option, none, some, List, [],
  ◌∷◌, ◌++◌, arith, ltb, Bool-cases, length, length-append, Text, text_eq, text_eq_iff,
}
use prp_sim.Trafficgen.Stats.{
  has_seen, Stats, no_stats, note_tagged, note_key, note_latency, note_frame,
}

pub has_seen-append :
    (k : Text) (xs ys : List Text) → has_seen k (xs ++ ys) ≡ (has_seen k xs || has_seen k ys)
unfolding has_seen
has_seen-append k [] ys = refl
has_seen-append k (x ∷ xs) ys = ground (arith, has_seen-append k xs ys)

-- No key stands twice.
abbrev pub Different : List Text → Type 0
Different [] = Unit {0}
Different (k ∷ ks) = (has_seen k ks ≡ false) × Different ks

Different-append :
    (xs : List Text) (key : Text)
    → Different xs
    → has_seen key xs ≡ false
    → Different (xs ++ (key ∷ []))
unfolding has_seen
Different-append [] key d new = (refl, tt)
Different-append (x ∷ xs) key (out, d) new = (
  ground (arith, has_seen-append x xs (key ∷ []), text_eq_iff key x, text_eq_iff x key),
  Different-append xs key d (ground arith),
)

-- What the counts say once frames with the given keys were noted.
pub record IsCounted (keys : List Text) (s : Stats) : Type 0 where
  pub total : s.total ≡ length keys
  pub split : s.unique + s.dupes ≡ s.total
  pub unique : s.unique ≡ length s.last_seen
  pub different : Different s.last_seen
  pub same : (k : Text) → has_seen k s.last_seen ≡ has_seen k keys

pub no_stats-IsCounted : IsCounted [] no_stats
no_stats-IsCounted = record {
  total = refl;
  split = refl;
  unique = refl;
  different = tt;
  same = λ k. refl;
}

-- Only the counts matter.
abbrev SameCounts : Stats → Stats → Type 0
SameCounts s t =
    (t.total ≡ s.total) × (t.unique ≡ s.unique) × (t.dupes ≡ s.dupes) × (t.last_seen ≡ s.last_seen)

note_latency-SameCounts :
    (sent_at : Option (ℕ × ℕ)) (now : ℕ) (s : Stats) → SameCounts s (note_latency sent_at now s)
unfolding note_latency
note_latency-SameCounts none now s = (refl, refl, refl, refl)
note_latency-SameCounts (some (epoch, ns)) now s =
    (ground arith, ground arith, ground arith, ground arith)

note_tagged-SameCounts :
    (vid : Option ℕ) (pcp : ℕ) (s : Stats) → SameCounts s (note_tagged vid pcp s)
unfolding note_tagged
note_tagged-SameCounts none pcp s = (refl, refl, refl, refl)
note_tagged-SameCounts (some vid) pcp s = (refl, refl, refl, refl)

SameCounts-IsCounted :
    (keys : List Text) (s t : Stats) → SameCounts s t → IsCounted keys s → IsCounted keys t
SameCounts-IsCounted keys s t (a, b, c, d) h = record {
  total = a ∙ h.total;
  split = rw (a, b, c) h.split;
  unique = rw (b, d) h.unique;
  different = rw d h.different;
  same = λ k. rw d (h.same k);
}

one_key : (key k : Text) → has_seen k (key ∷ []) ≡ text_eq key k
unfolding has_seen
one_key key k = ground arith

note_key-IsCounted :
    (key : Text) (keys : List Text) (s : Stats)
    → IsCounted keys s
    → IsCounted (keys ++ (key ∷ [])) (note_key key (record s { total = s.total + 1 }))
unfolding note_key
note_key-IsCounted key keys s h = elim (Bool-cases (has_seen key s.last_seen)) [
  | inl old ↦ rw old (record {
    total = omega (arith, h.total, length-append keys (key ∷ []));
    split = omega (arith, h.split);
    unique = h.unique;
    different = h.different;
    same = λ k. ground (
      arith,
      h.same k,
      h.same key,
      has_seen-append k keys (key ∷ []),
      one_key key k,
      text_eq_iff key k,
    );
  })
  | inr new ↦ rw new (record {
    total = omega (arith, h.total, length-append keys (key ∷ []));
    split = omega (arith, h.split);
    unique = omega (arith, h.unique, length-append s.last_seen (key ∷ []));
    different = Different-append s.last_seen key h.different new;
    same = λ k.
        has_seen-append k s.last_seen (key ∷ [])
        ∙ ap (λ b. b || has_seen k (key ∷ [])) (h.same k)
        ∙ sym (has_seen-append k keys (key ∷ []));
  })
]

note_latency-total :
    (sent_at : Option (ℕ × ℕ)) (now : ℕ) (s : Stats)
    → note_latency sent_at now (record s { total = s.total + 1 })
      ≡ record (note_latency sent_at now s) { total = (note_latency sent_at now s).total + 1 }
unfolding note_latency
note_latency-total none now s = refl
note_latency-total (some (epoch, ns)) now s =
    elim (Bool-cases (ltb (epoch * 1_000_000_000 + ns) now)) [
      | inl later ↦ rw later
      | inr earlier ↦ rw earlier
    ]

pub note_frame-IsCounted :
    (key : Text) (sent_at : Option (ℕ × ℕ)) (now : ℕ) (keys : List Text) (s : Stats)
    → IsCounted keys s
    → IsCounted (keys ++ (key ∷ [])) (note_frame key sent_at now s)
unfolding note_frame
note_frame-IsCounted key sent_at now keys s h =
    subst (λ t. IsCounted (keys ++ (key ∷ [])) (note_key key t))
      (sym (note_latency-total sent_at now s))
      (note_key-IsCounted key keys (note_latency sent_at now s) (
        SameCounts-IsCounted keys s (note_latency sent_at now s)
          (note_latency-SameCounts sent_at now s) h))

pub note_tagged-IsCounted :
    (vid : Option ℕ) (pcp : ℕ) (keys : List Text) (s : Stats)
    → IsCounted keys s
    → IsCounted keys (note_tagged vid pcp s)
note_tagged-IsCounted vid pcp keys s h =
    SameCounts-IsCounted keys s (note_tagged vid pcp s) (note_tagged-SameCounts vid pcp s) h

note_key-new :
    (key : Text) (s : Stats)
    → has_seen key s.last_seen ≡ false
    → (note_key key s).last_seen ≡ s.last_seen ++ (key ∷ [])
unfolding note_key
note_key-new key s new = rw new

-- A new key goes behind the others.
pub note_frame-new :
    (key : Text) (sent_at : Option (ℕ × ℕ)) (now : ℕ) (vid : Option ℕ) (pcp : ℕ) (s : Stats)
    → has_seen key s.last_seen ≡ false
    → (note_tagged vid pcp (note_frame key sent_at now s)).last_seen ≡ s.last_seen ++ (key ∷ [])
unfolding note_frame
note_frame-new key sent_at now vid pcp s new =
    let t = note_latency sent_at now (record s { total = s.total + 1 }) in
    let same : t.last_seen ≡ s.last_seen =
      (note_latency-SameCounts sent_at now (record s { total = s.total + 1 })).3 in
    (note_tagged-SameCounts vid pcp (note_key key t)).3
    ∙ note_key-new key t (ap (has_seen key) same ∙ new)
    ∙ ap (λ xs. xs ++ (key ∷ [])) same

-- ===== src/Nodetable/Oldest.antt =====
-- The search for the oldest entry, in whatever order `range` visits the map.
use prp_sim.Base.{
  Distinct, ℕ, ◌≤◌, ◌<◌, ◌≡◌, refl, sym, ◌∙◌, subst, ◌≢◌, ◌⊎◌, inl, inr, true, false, none, some,
  [], ◌∷◌, arith, ltb, if◌then◌else◌, ltb→lt, Bool-cases, Text, text_eq, text_eq_iff, text_eq_refl,
  lookup,
}
use prp_sim.Nodetable.{Entry, Entries, oldest_loop}

-- An order of iteration visits each entry of a map once.
abbrev pub IsOrder : (Entries → Entries) → Type 0
IsOrder order =
    (es : Entries)
    → Distinct es
    → Distinct (order es) × ((k : Text) → lookup k (order es) ≡ lookup k es)

-- No entry of the list was last seen before `o`.
abbrev pub NotBefore : ℕ → Entries → Type 0
NotBefore o es = (k : Text) (e : Entry) → lookup k es ≡ some e → o ≤ e.last_seen

abbrev Picked : Entries → Text → ℕ → Text → Type 0
Picked es k0 o0 r =
    (o : ℕ) × (((r ≡ k0) × (o ≡ o0)) ⊎ ((e : Entry) × (lookup r es ≡ some e) × (e.last_seen ≡ o)))
    × (o ≤ o0)
    × NotBefore o es

lookup-cons :
    (k j : Text) (v : Entry) (es : Entries)
    → lookup k ((j, v) ∷ es) ≡ (if text_eq j k then some v else lookup k es)
unfolding lookup
lookup-cons k j v es = refl

cons-NotBefore :
    (o : ℕ) (k : Text) (v : Entry) (es : Entries)
    → o ≤ v.last_seen
    → NotBefore o es
    → NotBefore o ((k, v) ∷ es)
cons-NotBefore o k v es h rest j e at = ground (arith, lookup-cons j k v es, rest j e)

still_found :
    (r k : Text) (v e : Entry) (es : Entries)
    → lookup k es ≡ none
    → lookup r es ≡ some e
    → lookup r ((k, v) ∷ es) ≡ some e
still_found r k v e es fresh at = ground (arith, lookup-cons r k v es, text_eq_iff k r)

pick_head :
    (k : Text) (v : Entry) (es : Entries) (o0 : ℕ) (r k0 : Text)
    → lookup k es ≡ none
    → v.last_seen < o0
    → Picked es k v.last_seen r
    → Picked ((k, v) ∷ es) k0 o0 r
pick_head k v es o0 r k0 fresh older (o, inl (same, time), le, all) = (
  o,
  inr (v, rw (same, lookup-cons k k v es, text_eq_refl k), sym time),
  omega arith,
  cons-NotBefore o k v es le all,
)
pick_head k v es o0 r k0 fresh older (o, inr (e, at, time), le, all) =
    (o, inr (e, still_found r k v e es fresh at, time), omega arith, cons-NotBefore o k v es le all)

skip_head :
    (k : Text) (v : Entry) (es : Entries) (o0 : ℕ) (r k0 : Text)
    → lookup k es ≡ none
    → o0 ≤ v.last_seen
    → Picked es k0 o0 r
    → Picked ((k, v) ∷ es) k0 o0 r
skip_head k v es o0 r k0 fresh newer (o, inl same, le, all) =
    (o, inl same, le, cons-NotBefore o k v es (omega arith) all)
skip_head k v es o0 r k0 fresh newer (o, inr (e, at, time), le, all) = (
  o,
  inr (e, still_found r k v e es fresh at, time),
  le,
  cons-NotBefore o k v es (omega arith) all,
)

head_key :
    (k : Text) (v : Entry) (es : Entries)
    → lookup [] ((k, v) ∷ es) ≡ none
    → (text_eq k [] ≡ false) × (lookup [] es ≡ none)
unfolding lookup
head_key k v es e = (ground arith, ground arith)

not_in_nil : (j : Text) (w : Entry) → lookup j [] ≢ some w
unfolding lookup
not_in_nil j w e = cc

step_take :
    (k : Text) (v : Entry) (es : Entries) (k0 : Text) (o0 : ℕ)
    → ltb v.last_seen o0 ≡ true
    → oldest_loop ((k, v) ∷ es) k0 o0 ≡ oldest_loop es k v.last_seen
unfolding oldest_loop
step_take k v es k0 o0 h = ground arith

step_skip :
    (k : Text) (v : Entry) (es : Entries) (k0 : Text) (o0 : ℕ)
    → text_eq k0 [] ≡ false
    → ltb v.last_seen o0 ≡ false
    → oldest_loop ((k, v) ∷ es) k0 o0 ≡ oldest_loop es k0 o0
unfolding oldest_loop
step_skip k v es k0 o0 h h' = ground arith

oldest_loop-Picked :
    (es : Entries) (k0 : Text) (o0 : ℕ)
    → text_eq k0 [] ≡ false
    → lookup [] es ≡ none
    → Distinct es
    → Picked es k0 o0 (oldest_loop es k0 o0)
oldest_loop-Picked [] k0 o0 key absent d =
    (o0, inl (unfold oldest_loop in refl, refl), omega arith, λ k e at. absurd (not_in_nil k e at))
oldest_loop-Picked ((k, v) ∷ es) k0 o0 key absent d = elim (Bool-cases (ltb v.last_seen o0)) [
  | inl older ↦ subst (Picked _ k0 o0) (sym (step_take k v es k0 o0 older)) (
      pick_head k v es o0 _ k0 d.0 (ltb→lt _ _ older) (
        oldest_loop-Picked es k v.last_seen (head_key k v es absent).0 (head_key k v es absent).1
          d.1))
  | inr newer ↦ subst (Picked _ k0 o0) (sym (step_skip k v es k0 o0 key newer)) (
      skip_head k v es o0 _ k0 d.0 (ground arith)
        (oldest_loop-Picked es k0 o0 key (head_key k v es absent).1 d.1))
]

pick_first :
    (k : Text) (v : Entry) (es : Entries) (r : Text)
    → lookup k es ≡ none
    → Picked es k v.last_seen r
    → (e : Entry) × (lookup r ((k, v) ∷ es) ≡ some e) × NotBefore e.last_seen ((k, v) ∷ es)
pick_first k v es r fresh (o, inl (same, time), le, all) = (
  v,
  rw (same, lookup-cons k k v es, text_eq_refl k),
  cons-NotBefore v.last_seen k v es (omega arith) (rw time at all),
)
pick_first k v es r fresh (o, inr (e, at, time), le, all) = (
  e,
  still_found r k v e es fresh at,
  cons-NotBefore e.last_seen k v es (omega arith) (rw (← time) at all),
)

oldest_in_list :
    (es : Entries) (j : Text) (w : Entry)
    → lookup [] es ≡ none
    → Distinct es
    → lookup j es ≡ some w
    → (e : Entry) × (lookup (oldest_loop es [] 0) es ≡ some e) × NotBefore e.last_seen es
unfolding oldest_loop text_eq
oldest_in_list [] j w absent d at = absurd (not_in_nil j w at)
oldest_in_list ((k, v) ∷ es) j w absent d at =
    pick_first k v es _ d.0 (
      oldest_loop-Picked es k v.last_seen (head_key k v es absent).0 (head_key k v es absent).1 d.1)

-- In a map with distinct keys, none of them empty, that is not empty itself, the search ends on an
-- entry that none was last seen before, whatever the order of the iteration.
pub oldest_loop_lem :
    (order : Entries → Entries) (es : Entries) (j : Text) (w : Entry)
    → IsOrder order
    → lookup [] es ≡ none
    → Distinct es
    → lookup j es ≡ some w
    → (e : Entry) × (lookup (oldest_loop (order es) [] 0) es ≡ some e) × NotBefore e.last_seen es
oldest_loop_lem order es j w is_order absent d at =
    let (d', same) = is_order es d in
    let (e, picked, all) = oldest_in_list (order es) j w (same [] ∙ absent) d' (same j ∙ at) in
    (e, sym (same _) ∙ picked, λ k v found. all k v (same k ∙ found))

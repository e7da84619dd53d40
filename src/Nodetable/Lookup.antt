-- ===== src/Nodetable/Lookup.antt =====
-- What Find answers after each of the other operations.
use prp_sim.Base.{
  keep_unless, remove_where, insert-Distinct, lookup-delete, lookup-remove_where, ℕ, ◌+◌, ◌*◌, ◌≤◌,
  ◌<◌, ◌≡◌, ap, ◌∙◌, ◌≢◌, ◌⊎◌, inl, inr, true, false, none, some, arith, if◌then◌else◌,
  Option-cases, length, Text, text_eq, text_eq_iff, text_eq_refl, lookup, delete, lookup-insert,
}
use prp_sim.Nodetable.{
  Entry, Entries, Table, millisecond, key, is_expired, is_live, insert_with_expiry, find, flush_for,
  cleanup,
}
use prp_sim.Nodetable.Keys.{HasNoBar, key-injective}
use prp_sim.Nodetable.Oldest.{NotBefore, IsOrder}
use prp_sim.Nodetable.Size.{length-insert-le, IsValid, with_entry, insert_with_expiry-cases}

module _ (order : Entries → Entries) (now : ℕ) (t : Table) (mac : Text) (seq lan_id expiry_ms : ℕ)
    (is_order : IsOrder order) (bar : HasNoBar mac) (v : IsValid t) where
  abbrev new : Entry
  new = record {
    src_mac = mac;
    seq_no = seq;
    lan_id = lan_id;
    last_seen = now;
    expiry_ms = expiry_ms;
  }

  abbrev es : Entries
  es = with_entry now t mac seq lan_id expiry_ms

  abbrev t' : Table
  t' = insert_with_expiry order now t mac seq lan_id expiry_ms

  lookup-es :
      (k : Text) → lookup k es ≡ (if text_eq (key mac seq) k then some new else lookup k t.entries)
  lookup-es k = lookup-insert (key mac seq) k _ t.entries

  lookup-delete-es :
      (j k : Text) → lookup k (delete j es) ≡ (if text_eq j k then none else lookup k es)
  lookup-delete-es j k = lookup-delete j k es (insert-Distinct (key mac seq) _ t.entries v.distinct)

  -- Something in the table is older than the new entry.
  abbrev HasOlder : Type 0
  HasOlder =
      (k : Text) × (e : Entry) × (lookup k t.entries ≡ some e)
      × (e.last_seen < now)
      × (key mac seq ≢ k)

  not_evicted :
      (k : Text) (e : Entry)
      → HasOlder
      → lookup k es ≡ some e
      → NotBefore e.last_seen es
      → text_eq k (key mac seq) ≡ false
  not_evicted k e (j, w, at_j, older, ne) at oldest = ground (
    arith,
    text_eq_iff k (key mac seq),
    text_eq_iff (key mac seq) k,
    text_eq_iff (key mac seq) j,
    lookup-es k,
    lookup-es j,
    oldest j w,
  )

  lookup-new :
      (length t.entries < t.max_size) ⊎ HasOlder → lookup (key mac seq) t'.entries ≡ some new
  lookup-new room =
      elim (insert_with_expiry-cases order now t mac seq lan_id expiry_ms is_order bar v) [
        | inl (same, _) ↦ rw same (lookup-es (key mac seq) ∙ rw (text_eq_refl (key mac seq)))
        | inr (k, e, same, at, oldest, full) ↦ rw same (kept k e room at oldest full)
      ]
    where
      kept :
          (k : Text) (e : Entry)
          → (length t.entries < t.max_size) ⊎ HasOlder
          → lookup k es ≡ some e
          → NotBefore e.last_seen es
          → t.max_size < length es
          → lookup (key mac seq) (delete k es) ≡ some new
      kept k e (inl small) at oldest full =
          absurd (omega (arith, length-insert-le (key mac seq) new t.entries))
      kept k e (inr older) at oldest full = ground (
        arith,
        lookup-delete-es k (key mac seq),
        not_evicted k e older at oldest,
        lookup-es (key mac seq),
        text_eq_refl (key mac seq),
      )

  lookup_other :
      (j : Text) (w : Entry)
      → key mac seq ≢ j
      → lookup j t'.entries ≡ some w
      → lookup j t.entries ≡ some w
  lookup_other j w ne e =
      elim (insert_with_expiry-cases order now t mac seq lan_id expiry_ms is_order bar v) [
        | inl (same, _) ↦ ground (
          arith,
          ap (λ (x : Table). lookup j x.entries) same,
          lookup-es j,
          text_eq_iff (key mac seq) j,
        )
        | inr (k, _, same, _, _, _) ↦ ground (
          arith,
          ap (λ (x : Table). lookup j x.entries) same,
          lookup-es j,
          text_eq_iff (key mac seq) j,
          lookup-delete-es k j,
        )
      ]

  -- In a valid table, under any order of iteration and for a source without the key's separator,
  -- an inserted pair is found until its lifetime is over, if the table had room or some other
  -- entry in it was older than the new one.
  pub find-insert_with_expiry :
      (later : ℕ)
      → (length t.entries < t.max_size) ⊎ HasOlder
      → later ≤ now + expiry_ms * millisecond
      → find later (insert_with_expiry order now t mac seq lan_id expiry_ms) mac seq ≡ true
  unfolding find is_live is_expired
  find-insert_with_expiry later room soon = rw (lookup-new room) (ground arith)

  -- In a valid table, an insertion brings no other pair into the table: what is found afterwards,
  -- under another source or number, was found before. No source holds the key's separator.
  pub find-insert_with_expiry_other :
      (later : ℕ) (mac' : Text) (seq' : ℕ)
      → HasNoBar mac'
      → (mac' ≢ mac) ⊎ (seq' ≢ seq)
      → find later (insert_with_expiry order now t mac seq lan_id expiry_ms) mac' seq' ≡ true
      → find later t mac' seq' ≡ true
  unfolding find is_live
  find-insert_with_expiry_other later mac' seq' bar' ne e =
      elim (Option-cases (lookup (key mac' seq') t'.entries)) [
        | inl gone ↦ ground arith
        | inr (w, at) ↦ ground (arith, lookup_other (key mac' seq') w other at)
      ]
    where
      other : key mac seq ≢ key mac' seq'
      other same = ground (arith, key-injective mac mac' seq seq' bar bar' same)

-- In a valid table FlushFor forgets every pair of the one source MAC, so that a restarted peer's
-- first frames are accepted, and no pair of any other source, none of which holds the key's
-- separator.
pub find-flush_for :
    (now : ℕ) (t : Table) (mac mac' : Text) (seq : ℕ)
    → HasNoBar mac'
    → IsValid t
    → find now (flush_for t mac).0 mac' seq
      ≡ (if text_eq mac' mac then false else find now t mac' seq)
unfolding find flush_for is_live
find-flush_for now t mac mac' seq bar v = elim (Option-cases (lookup (key mac' seq) t.entries)) [
  | inl gone ↦ ground (arith, removed)
  | inr (e, at) ↦ ground (arith, removed, owner e at)
]
  where
    removed :
        lookup (key mac' seq) (remove_where (λ (e : Entry). text_eq e.src_mac mac) t.entries).0
        ≡ keep_unless (λ (e : Entry). text_eq e.src_mac mac) (lookup (key mac' seq) t.entries)
    removed = lookup-remove_where _ (key mac' seq) t.entries v.distinct

    owner : (e : Entry) → lookup (key mac' seq) t.entries ≡ some e → mac' ≡ e.src_mac
    owner e at =
        let (own, bar') = v.owned (key mac' seq) e at in
        (key-injective mac' e.src_mac seq e.seq_no bar bar' own).0

-- In a valid table Cleanup is not to be seen: at its own time and later Find answers as it would
-- have without it.
pub find-cleanup :
    (now later : ℕ) (t : Table) (mac : Text) (seq : ℕ)
    → IsValid t
    → now ≤ later
    → find later (cleanup now t).0 mac seq ≡ find later t mac seq
unfolding find cleanup is_live is_expired
find-cleanup now later t mac seq v h =
    ground (arith, lookup-remove_where (is_expired now) (key mac seq) t.entries v.distinct)

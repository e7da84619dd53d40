-- ===== src/Nodetable/Size.antt =====
-- The table's invariant: distinct keys, each entry under its own key, at most `max_size` entries.
use prp_sim.Base.{
  remove_where, Distinct, insert-Distinct, lookup-delete, delete-Distinct, length-insert,
  length-delete, lookup-remove_where, remove_where-Distinct, length-remove_where, ℕ, suc, ◌≤◌, ◌<◌,
  ◌≡◌, sym, ◌∙◌, ◌≢◌, ◌⊎◌, inl, inr, Bool, ◌&&◌, none, some, [], arith, ltb, Bool-cases,
  Option-cases, length, Text, text_eq, text_eq_iff, text_eq_refl, lookup, insert, delete,
  lookup-insert,
}
use prp_sim.Nodetable.{
  new_table, Entry, Entries, Table, key, oldest_loop, insert_with_expiry, flush_for, cleanup,
  is_expired,
}
use prp_sim.Nodetable.Keys.{HasNoBar, key-ne-nil}
use prp_sim.Nodetable.Oldest.{IsOrder, NotBefore, oldest_loop_lem}

abbrev pub OwnKeys : Entries → Type 0
OwnKeys es =
    (k : Text) (e : Entry)
    → lookup k es ≡ some e
    → (k ≡ key e.src_mac e.seq_no) × HasNoBar e.src_mac

pub record IsValid (t : Table) : Type 0 where
  pub distinct : Distinct t.entries
  pub owned : OwnKeys t.entries
  pub bounded : 0 < t.max_size → length t.entries ≤ t.max_size

-- The empty text is no key of a valid table.
lookup-nil : (es : Entries) → OwnKeys es → lookup [] es ≡ none
lookup-nil es own = elim (Option-cases (lookup [] es)) [
  | inl e ↦ e
  | inr (v, at) ↦ absurd (key-ne-nil _ _ (sym (own [] v at).0))
]

lookup-nil-ne : (k : Text) (e : Entry) → lookup k [] ≢ some e
unfolding lookup
lookup-nil-ne k e at = cc

pub new_table-IsValid : (max_size : ℕ) → IsValid (new_table max_size)
unfolding new_table
new_table-IsValid max_size = record {
  distinct = tt;
  owned = λ k e at. absurd (lookup-nil-ne k e at);
  bounded = λ h. omega arith;
}

insert-OwnKeys :
    (v : Entry) (es : Entries)
    → HasNoBar v.src_mac
    → OwnKeys es
    → OwnKeys (insert (key v.src_mac v.seq_no) v es)
insert-OwnKeys v es bar own j e at = ground (
  arith,
  lookup-insert (key v.src_mac v.seq_no) j v es,
  text_eq_iff (key v.src_mac v.seq_no) j,
  own j e,
)

delete-OwnKeys : (k : Text) (es : Entries) → Distinct es → OwnKeys es → OwnKeys (delete k es)
delete-OwnKeys k es d own j e at = ground (arith, lookup-delete k j es d, own j e)

remove_where-OwnKeys :
    (test : Entry → Bool) (es : Entries)
    → Distinct es
    → OwnKeys es
    → OwnKeys (remove_where test es).0
remove_where-OwnKeys test es d own j e at = ground (arith, lookup-remove_where test j es d, own j e)

remove_where-IsValid :
    (test : Entry → Bool) (t : Table)
    → IsValid t
    → IsValid (record t { entries = (remove_where test t.entries).0 })
remove_where-IsValid test t v = record {
  distinct = remove_where-Distinct test t.entries v.distinct;
  owned = remove_where-OwnKeys test t.entries v.distinct v.owned;
  bounded = λ h. omega (arith, length-remove_where test t.entries, v.bounded h);
}

pub flush_for-IsValid : (t : Table) (mac : Text) → IsValid t → IsValid (flush_for t mac).0
unfolding flush_for
flush_for-IsValid t mac v = remove_where-IsValid (λ e. text_eq e.src_mac mac) t v

pub cleanup-IsValid : (now : ℕ) (t : Table) → IsValid t → IsValid (cleanup now t).0
unfolding cleanup
cleanup-IsValid now t v = remove_where-IsValid (is_expired now) t v

pub length-insert-le :
    (k : Text) (v : Entry) (es : Entries) → length (insert k v es) ≤ suc (length es)
length-insert-le k v es = ground (arith, length-insert k v es)

-- The map with the new entry, before the eviction.
abbrev pub with_entry : ℕ → Table → Text → ℕ → ℕ → ℕ → Entries
with_entry now t mac seq lan_id expiry_ms =
    insert (key mac seq)
      (record {
        src_mac = mac;
        seq_no = seq;
        lan_id = lan_id;
        last_seen = now;
        expiry_ms = expiry_ms;
      })
      t.entries

lookup-with_entry :
    (now : ℕ) (t : Table) (mac : Text) (seq lan_id expiry_ms : ℕ)
    → (e : Entry) × (lookup (key mac seq) (with_entry now t mac seq lan_id expiry_ms) ≡ some e)
lookup-with_entry now t mac seq lan_id expiry_ms = (
  record { src_mac = mac; seq_no = seq; lan_id = lan_id; last_seen = now; expiry_ms = expiry_ms },
  (lookup-insert (key mac seq) (key mac seq) _ t.entries ∙ rw (text_eq_refl (key mac seq))),
)

-- What an insertion into a valid table comes to: the entry is put in; if the table was full and the
-- key is new, one entry that no other is older than goes.
pub insert_with_expiry-cases :
    (order : Entries → Entries) (now : ℕ) (t : Table) (mac : Text) (seq lan_id expiry_ms : ℕ)
    → IsOrder order
    → HasNoBar mac
    → IsValid t
    → let es = with_entry now t mac seq lan_id expiry_ms in
      let t' = insert_with_expiry order now t mac seq lan_id expiry_ms in
      ((t' ≡ record t { entries = es }) × (0 < t.max_size → length es ≤ t.max_size))
      ⊎ ((k : Text) × (e : Entry) × (t' ≡ record t { entries = delete k es })
          × (lookup k es ≡ some e)
          × NotBefore e.last_seen es
          × (t.max_size < length es))
unfolding insert_with_expiry
insert_with_expiry-cases order now t mac seq lan_id expiry_ms is_order bar v =
    elim (Bool-cases (ltb 0 t.max_size && ltb t.max_size (length es))) [
      | inl full ↦
          let (e, at, all) =
            oldest_loop_lem order es (key mac seq) _ is_order absent distinct
              (lookup-with_entry now t mac seq lan_id expiry_ms).1 in
          inr (oldest_loop (order es) [] 0, e, rw full, at, all, ground arith)
      | inr room ↦ inl (rw room, λ h. ground arith)
    ]
  where
    es : Entries
    es = with_entry now t mac seq lan_id expiry_ms

    distinct : Distinct es
    distinct = insert-Distinct (key mac seq) _ t.entries v.distinct

    absent : lookup [] es ≡ none
    absent = lookup-nil es (insert-OwnKeys _ t.entries bar v.owned)

-- An insertion, under any order of iteration and of a source without the key's separator, keeps
-- the table valid: its keys stay distinct, every entry stays under its own key, and a table with a
-- positive cap never outgrows it.
pub insert_with_expiry-IsValid :
    (order : Entries → Entries) (now : ℕ) (t : Table) (mac : Text) (seq lan_id expiry_ms : ℕ)
    → IsOrder order
    → HasNoBar mac
    → IsValid t
    → IsValid (insert_with_expiry order now t mac seq lan_id expiry_ms)
insert_with_expiry-IsValid order now t mac seq lan_id expiry_ms is_order bar v =
    elim (insert_with_expiry-cases order now t mac seq lan_id expiry_ms is_order bar v) [
      | inl (same, room) ↦ rw same (record { distinct = distinct; owned = owned; bounded = room })
      | inr (k, e, same, at, _, _) ↦ rw same (record {
        distinct = delete-Distinct k es distinct;
        owned = delete-OwnKeys k es distinct owned;
        bounded = λ h. omega (
          arith,
          length-delete k e es at,
          v.bounded h,
          length-insert-le (key mac seq) _ t.entries,
        );
      })
    ]
  where
    es : Entries
    es = with_entry now t mac seq lan_id expiry_ms

    distinct : Distinct es
    distinct = insert-Distinct (key mac seq) _ t.entries v.distinct

    owned : OwnKeys es
    owned = insert-OwnKeys _ t.entries bar v.owned

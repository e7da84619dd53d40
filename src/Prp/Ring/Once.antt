-- ===== src/Prp/Ring/Once.antt =====
-- internal/prp/hsr.go, handleIncomingHSRFrame: of the copies of one frame on the ring, one is handled.
use prp_sim.Base.{
  panics, if-true, if-false, done-injective, ℕ, ◌+◌, ◌*◌, ◌≤◌, ◌<◌, ◌≡◌, refl, sym, ap, ◌∙◌, subst,
  inl, inr, true, false, some, Bool-cases, length, Bytes, codes, Outcome, done, panics,
}
use prp_sim.Engine.Ether.{get_src_mac}
use prp_sim.Engine.Ether.Macs.{get_src_mac-ne}
use prp_sim.Engine.Hsr.{Tag, decode_hsr}
use prp_sim.Nodetable.{Table, find, millisecond, insert_with_expiry}
use prp_sim.Nodetable.Lookup.{find-insert_with_expiry}
use prp_sim.Nodetable.Oldest.{IsOrder}
use prp_sim.Nodetable.Size
use prp_sim.Prp.Node.{
  Port, Node, Env, note_drop, count_in, register, learn_ring_member, is_own, entry_forget_ms,
}
use prp_sim.Prp.Effects.{Alike, Alike-trans, count_in-Alike, note_drop-Alike}
use prp_sim.Prp.Ring.Kept.{
  HasTable, has_table, HasTableIf, returned, forward_ring-HasTable, forward_quad-HasTable,
  deliver_hsr-HasTableIf,
}
use prp_sim.Prp.Effects.{is_own-Alike}
use prp_sim.Prp.Ring.{handle_incoming_hsr_frame, accept_hsr}

table_result :
    (t : Table) (n : Node) (o : Outcome Node) → HasTableIf t o → o ≡ done n → n.dup_table ≡ t
table_result t n (done m) (returned (has_table h)) e =
    sym (ap (λ (x : Node). x.dup_table) (done-injective m n e)) ∙ h
table_result t n panics c e = cc

accept_hsr-known :
    (env : Env) (port : Port) (frame : Bytes) (tag : Tag) (n : Node)
    → find env.now n.dup_table (get_src_mac frame) tag.seq ≡ true
    → (m : Node) × (accept_hsr env port frame tag n ≡ done m) × Alike n m
unfolding accept_hsr
accept_hsr-known env port frame tag n known = elim (Bool-cases (is_own n frame)) [
  | inl own ↦ (note_drop (codes "own") n, if-true _ _ _ own, note_drop-Alike (codes "own") n)
  | inr other ↦ (
    note_drop (codes "dup") n,
    if-false (is_own n frame) (done (note_drop (codes "own") n)) _ other ∙ if-true _ _ _ known,
    note_drop-Alike (codes "dup") n,
  )
]

pub handled :
    (env : Env) (port : Port) (frame : Bytes) (tag : Tag) (n : Node)
    → decode_hsr frame ≡ some tag
    → handle_incoming_hsr_frame env port frame n ≡ accept_hsr env port frame tag (count_in port n)
unfolding handle_incoming_hsr_frame
handled env port frame tag n at = rw (at, handle_incoming_hsr_frame)

-- A frame whose source and number the table knows is dropped, whatever else is true of it.
pub known_frame :
    (env : Env) (port : Port) (frame : Bytes) (tag : Tag) (n : Node)
    → decode_hsr frame ≡ some tag
    → find env.now n.dup_table (get_src_mac frame) tag.seq ≡ true
    → (m : Node) × (handle_incoming_hsr_frame env port frame n ≡ done m) × Alike n m
known_frame env port frame tag n at known =
    let k = count_in-Alike port n in
    let (m, e, a) =
      accept_hsr-known env port frame tag (count_in port n)
        (ap (λ (x : Node). find env.now x.dup_table (get_src_mac frame) tag.seq) k ∙ known) in
    (m, handled env port frame tag n at ∙ e, Alike-trans n (count_in port n) m k a)

-- The table once a frame that is new was handled.
abbrev pub registered : Env → Bytes → ℕ → Node → Table
registered env frame seq n =
    insert_with_expiry env.order env.now n.dup_table (get_src_mac frame) seq 0 (entry_forget_ms n)

accept_hsr-registers :
    (env : Env) (port : Port) (frame : Bytes) (tag : Tag) (n : Node)
    → is_own n frame ≡ false
    → find env.now n.dup_table (get_src_mac frame) tag.seq ≡ false
    → HasTableIf (registered env frame tag.seq n) (accept_hsr env port frame tag n)
unfolding accept_hsr
accept_hsr-registers env port frame tag n other fresh =
    subst (HasTableIf (registered env frame tag.seq n))
      (sym (
        if-false (is_own n frame) (done (note_drop (codes "own") n)) _ other
        ∙ if-false (find env.now n.dup_table (get_src_mac frame) tag.seq)
            (done (note_drop (codes "dup") n)) _ fresh))
      (deliver_hsr-HasTableIf _ env frame tag _
        (forward_quad-HasTable _ env frame _ (forward_ring-HasTable _ env port frame _ learned)))
  where
    learned :
        HasTable
          (registered env frame tag.seq n)
          (learn_ring_member env (get_src_mac frame) (register env (get_src_mac frame) tag.seq 0 n))
    learned = unfold register learn_ring_member in has_table refl

-- An HSR node of any role handles a frame that is new to it and not its own, and its handler
-- returns. Then any frame with the same source and number that comes in within the lifetime of an
-- entry, over either ring port, is dropped without a crash: nothing is sent and the duplicate
-- table stays. The table is valid and has room.
pub ring_once :
    (env env' : Env) (port port' : Port) (frame again : Bytes) (tag tag' : Tag) (n m : Node)
    → IsOrder env.order
    → Size.IsValid n.dup_table
    → length n.dup_table.entries < n.dup_table.max_size
    → decode_hsr frame ≡ some tag
    → is_own n frame ≡ false
    → find env.now n.dup_table (get_src_mac frame) tag.seq ≡ false
    → handle_incoming_hsr_frame env port frame n ≡ done m
    → decode_hsr again ≡ some tag'
    → get_src_mac again ≡ get_src_mac frame
    → tag'.seq ≡ tag.seq
    → env'.now ≤ env.now + entry_forget_ms n * millisecond
    → (k : Node) × (handle_incoming_hsr_frame env' port' again m ≡ done k)
      × (k.sent ≡ m.sent)
      × (k.dup_table ≡ m.dup_table)
ring_once env env' port port' frame again tag tag' n m o v room at own fresh e at' src seq soon =
    let (k, e', a) = known_frame env' port' again tag' m at' known in
    (k, e', ap (λ (x : Node). x.sent) a, ap (λ (x : Node). x.dup_table) a)
  where
    n' : Node
    n' = count_in port n

    same : registered env frame tag.seq n' ≡ registered env frame tag.seq n
    same = unfold entry_forget_ms in ap (registered env frame tag.seq) (count_in-Alike port n)

    table : m.dup_table ≡ registered env frame tag.seq n'
    table =
        table_result (registered env frame tag.seq n') m (accept_hsr env port frame tag n')
          (accept_hsr-registers env port frame tag n'
            (is_own-Alike frame n n' (count_in-Alike port n) ∙ own)
            (ap (λ (x : Node). find env.now x.dup_table (get_src_mac frame) tag.seq)
                (count_in-Alike port n)
              ∙ fresh))
          (sym (handled env port frame tag n at) ∙ e)

    known : find env'.now m.dup_table (get_src_mac again) tag'.seq ≡ true
    known =
        ap (λ t. find env'.now t (get_src_mac again) tag'.seq) (table ∙ same)
        ∙ rw (src, seq)
            (find-insert_with_expiry env.order env.now n.dup_table (get_src_mac frame) tag.seq 0
              (entry_forget_ms n) o (get_src_mac-ne frame) v env'.now (inl room) soon)

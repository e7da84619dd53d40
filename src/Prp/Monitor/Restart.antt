-- ===== src/Prp/Monitor/Restart.antt =====
-- internal/prp/prp.go, handleSupervisionFrame: a peer that starts again with low numbers.
use prp_sim.Base.{
  ℕ, ◌+◌, ◌-◌, ◌%◌, ◌^◌, ◌<◌, ◌≡◌, refl, ap, ◌∙◌, inl, inr, Bool, true, false, ◌&&◌, none, some,
  arith, leb, if◌then◌else◌, Bool-cases, Option-cases, Text, text_eq, lookup, to_u16, IsU16,
}
use prp_sim.Supervision
use prp_sim.Nodetable.{Table, find, flush_for}
use prp_sim.Nodetable.Keys.{HasNoBar}
use prp_sim.Nodetable.Lookup.{find-flush_for}
use prp_sim.Nodetable.Size
use prp_sim.Prp.Node.{Port, Node, Env, is_hsr_node}
use prp_sim.Prp.Monitor.{note_supervision, flush_if_restarted, has_regressed, is_ring_port}

-- The announced number is behind the last one of the same source, if there was one.
abbrev pub is_restart : Node → Supervision.Frame → Bool
is_restart n sup = elim (lookup sup.src_mac n.supervision_seqs) as (λ _. Bool) [
  | none ↦ false
  | some last ↦ has_regressed sup.seq last
]

-- A peer whose last number was a 16-bit one and that announces itself with any of the next 2 ^ 15
-- - 1 numbers, the wrap included, or with the same one again, has not started again. With any
-- other 16-bit number it has.
pub has_regressed_lem :
    (last ahead : ℕ)
    → IsU16 last
    → ahead < 2 ^ 16
    → has_regressed (to_u16 (last + ahead)) last ≡ leb (2 ^ 15) ahead
unfolding has_regressed
has_regressed_lem last ahead h k = ap (leb (2 ^ 15)) (wrap last ahead h k)
  where
    wrap :
        (last ahead : ℕ)
        → IsU16 last
        → ahead < 2 ^ 16
        → (to_u16 (last + ahead) + 2 ^ 16 - last) % 2 ^ 16 ≡ ahead
    wrap last ahead h k = omega arith

-- The table once a supervision frame was read.
abbrev pub table_after : Supervision.Frame → Node → Table
table_after sup n = if is_restart n sup then (flush_for n.dup_table sup.src_mac).0 else n.dup_table

if-table_after :
    (b : Bool) (sup : Supervision.Frame) (x y n : Node)
    → table_after sup x ≡ table_after sup n
    → table_after sup y ≡ table_after sup n
    → table_after sup (if b then x else y) ≡ table_after sup n
if-table_after true sup x y n hx hy = hx
if-table_after false sup x y n hx hy = hy

flush_if_restarted-dup_table :
    (sup : Supervision.Frame) (n : Node)
    → (flush_if_restarted sup.src_mac sup.seq n).dup_table ≡ table_after sup n
unfolding flush_if_restarted
flush_if_restarted-dup_table sup n = elim (Option-cases (lookup sup.src_mac n.supervision_seqs)) [
  | inl fresh ↦ rw (fresh, flush_if_restarted, is_restart)
  | inr (last, e) ↦ rw (e, flush_if_restarted, is_restart) (ground arith)
]

note_supervision-dup_table :
    (env : Env) (port : Port) (sup : Supervision.Frame) (n : Node)
    → (note_supervision env port sup n).dup_table ≡ table_after sup n
unfolding note_supervision
note_supervision-dup_table env port sup n =
    flush_if_restarted-dup_table sup _
    ∙ if-table_after (is_hsr_node n && is_ring_port port) sup _ _ n refl refl

-- In a node whose table is valid, a supervision frame whose number is behind the last one of its
-- source makes the node forget every number of that source, and of no other. Any other supervision
-- frame makes it forget none.
pub find-note_supervision :
    (env : Env) (port : Port) (sup : Supervision.Frame) (n : Node) (now : ℕ) (mac : Text) (seq : ℕ)
    → HasNoBar mac
    → Size.IsValid n.dup_table
    → find now (note_supervision env port sup n).dup_table mac seq ≡ (
        if is_restart n sup && text_eq mac sup.src_mac then false else find now n.dup_table mac seq)
find-note_supervision env port sup n now mac seq bar v = elim (Bool-cases (is_restart n sup)) [
  | inl restarted ↦
      ap (λ t. find now t mac seq) (note_supervision-dup_table env port sup n)
      ∙ rw restarted (find-flush_for now n.dup_table sup.src_mac mac seq bar v)
  | inr same ↦ ap (λ t. find now t mac seq) (note_supervision-dup_table env port sup n) ∙ rw same
]

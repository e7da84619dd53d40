-- ===== src/Prp/Monitor.antt =====
-- internal/prp/prp.go: supervision frames received and sent, and the periodic cleanup.
pub mod Restart
use prp_sim.Base.{
  remove_where, ℕ, ◌+◌, ◌-◌, ◌/◌, ◌%◌, ◌^◌, Bool, true, false, ◌&&◌, Option, none, some, [], ◌∷◌,
  ltb, leb, ◌==◌, if◌then◌else◌, length, Bytes, Text, lookup, insert, to_u16, inc_u64, Outcome,
  done, ◌>>=◌,
}
use prp_sim.Supervision.{parse, build_rcted, build_hsr}
use prp_sim.Supervision
use prp_sim.Nodetable.{flush_for, cleanup}
use prp_sim.Prp.Node.{
  Port, lan_a, lan_b, interlink, Node, Env, is_hsr_node, is_hsr_hsr, is_hsr_prp_coupling, lan_id,
  write,
}
use prp_sim.Prp.Ring.Inject.{injection_path}

abbrev pub is_ring_port : Port → Bool
is_ring_port interlink = false
is_ring_port _ = true

-- `int16(seq - last) < 0`: the 16-bit difference has its top bit set.
unfoldable pub has_regressed : ℕ → ℕ → Bool
has_regressed seq last = leb (2 ^ 15) ((seq + 2 ^ 16 - last) % 2 ^ 16)

-- The flush of a restarted peer's entries.
unfoldable pub flush_if_restarted : Text → ℕ → Node → Node
flush_if_restarted mac seq n = elim (lookup mac n.supervision_seqs) as (λ _. Node) [
  | none ↦ n
  | some last ↦
      if has_regressed seq last then record n { dup_table = (flush_for n.dup_table mac).0 } else n
]

unfoldable pub note_supervision : Env → Port → Supervision.Frame → Node → Node
unfolding flush_if_restarted
note_supervision env port sup n =
    let n1 : Node = record n { supervision_seen = insert sup.src_mac env.now n.supervision_seen } in
    let n2 : Node =
      if is_hsr_node n && is_ring_port port
      then record n1 { ring_members = insert sup.src_mac env.now n1.ring_members }
      else n1 in
    let n3 = flush_if_restarted sup.src_mac sup.seq n2 in
    record n3 { supervision_seqs = insert sup.src_mac sup.seq n3.supervision_seqs }

unfoldable pub handle_supervision_frame : Env → Port → Bytes → Node → Outcome Node
handle_supervision_frame env port frame n = do
  sup ← parse frame
  done (elim sup as (λ _. Node) [ none ↦ n | some s ↦ note_supervision env port s n ])

-- `last.Before(cutoff)` with `cutoff` the time less the forget time.
unfoldable pub is_forgotten : ℕ → ℕ → ℕ → Bool
is_forgotten now forget last = ltb (last + forget) now

unfoldable pub cleanup_supervision_seen : ℕ → Node → Node
unfolding is_forgotten
cleanup_supervision_seen now n = if length n.supervision_seen == 0 then n else record n {
  supervision_seen = (remove_where (is_forgotten now n.supervision_forget) n.supervision_seen).0;
  ring_members = (remove_where (is_forgotten now n.supervision_forget) n.ring_members).0;
}

-- The timer is set again at the end.
unfoldable pub periodic_cleanup : ℕ → Node → Node
periodic_cleanup now n =
    cleanup_supervision_seen now (record n { dup_table = (cleanup now n.dup_table).0 })

-- The address that was set, else that of the LAN A interface, else one made of the PRP ID.
-- The address of a real LAN A interface, where there is one, is `interface_mac`.
unfoldable pub node_mac : Option Bytes → Node → Bytes
node_mac interface_mac n = elim n.mac as (λ _. Bytes) [
  | some mac ↦ mac
  | none ↦ elim interface_mac as (λ _. Bytes) [
    | some mac ↦ mac
    | none ↦
        0x02 ∷ 0x50 ∷ 0x50 ∷ (n.config.prp_id / 256 % 256) ∷ (n.config.prp_id % 256) ∷ 0x00 ∷ []
  ]
]

unfoldable pub set_node_mac : Bytes → Node → Node
set_node_mac mac n = record n { mac = some mac }

unfoldable pub count_sup_sent : Node → Node
count_sup_sent n = record n {
  counters = record (n.counters) { sup_sent = inc_u64 n.counters.sup_sent };
}

-- prp-san: the PRP dialect on both LANs.
unfoldable pub announce_lans : Env → Bytes → Node → Node
announce_lans env mac n = count_sup_sent (
    write env lan_b (build_rcted mac n.sup_seq 1) (write env lan_a (build_rcted mac n.sup_seq 0) n))

-- HSR nodes: the HSR dialect on the ring, and on the interlink what the other side speaks.
unfoldable pub announce_ring : Env → Bytes → Node → Node
announce_ring env mac n =
    let sup = build_hsr mac n.sup_seq (injection_path n) in
    let n1 = count_sup_sent (write env lan_b sup (write env lan_a sup n)) in
    let n2 = if is_hsr_hsr n && n.has_interlink then write env interlink sup n1 else n1 in
    if is_hsr_prp_coupling n && n.has_interlink
    then write env interlink (build_rcted mac n.sup_seq (lan_id n)) n2
    else n2

unfoldable pub send_supervision_frame : Env → Option Bytes → Node → Node
unfolding announce_lans announce_ring
send_supervision_frame env interface_mac n =
    let n1 : Node = record n { sup_seq = to_u16 (n.sup_seq + 1) } in
    let mac = node_mac interface_mac n in
    if is_hsr_node n then announce_ring env mac n1 else announce_lans env mac n1

-- What a successful `Start` makes of a new node: its address, and whether an interlink is bound.
unfoldable pub start : Option Bytes → Bool → Node → Node
unfolding node_mac
start interface_mac bound n = record n {
  mac = some (node_mac interface_mac n);
  has_interlink = bound;
}

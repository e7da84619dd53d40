-- ===== src/Prp/Ring.antt =====
-- internal/prp/hsr.go: the handlers of an HSR node, from the ring and from the interlink.
pub mod Inject
pub mod Coupling
pub mod Kept
pub mod Once
pub mod Forward
pub mod San
pub mod Coupled
pub mod Quad
use prp_sim.Base.{
  ℕ, Bool, true, false, ◌&&◌, not, none, some, ◌==◌, if◌then◌else◌, Bytes, slice, codes, shr,
  low_bits, to_u16, Outcome, done,
}
use prp_sim.Engine.Ether.{get_src_mac}
use prp_sim.Engine.Rct.{encode_rct}
use prp_sim.Engine.Hsr.{Tag, decode_hsr, rewrite_hsr_path_lane, strip_hsr}
use prp_sim.Nodetable.{find}
use prp_sim.Prp.Node.{
  Port, lan_a, lan_b, interlink, Node, Env, is_hsr_hsr, is_hsr_prp_coupling, lan_id, net_id,
  note_drop, count_in, write_counted, write_interlink, register, is_own, learn_ring_member,
  unicast_to_ring_member,
}
use prp_sim.Prp.Multicast.{should_forward_to_interlink}

unfoldable pub other_port : Port → Port
other_port lan_b = lan_a
other_port _ = lan_b

unfoldable pub is_lan_a : Port → Bool
is_lan_a lan_a = true
is_lan_a _ = false

-- The frame goes on around the ring, out of the other port.
unfoldable pub forward_ring : Env → Port → Bytes → Node → Node
unfolding other_port is_lan_a
forward_ring env port frame n =
    let other = other_port port in
    elim (rewrite_hsr_path_lane frame (is_lan_a other)) as (λ _. Node) [
      | none ↦ n
      | some fwd ↦ write_counted env other fwd n
    ]

-- hsr-hsr: the frame also goes onto the interlink, to the other ring.
unfoldable pub forward_quad : Env → Bytes → Node → Node
forward_quad env frame n =
    if is_hsr_hsr n && n.has_interlink
    then (if unicast_to_ring_member n (slice frame 0 6)
        then note_drop (codes "filter") n
        else write_counted env interlink frame n)
    else n

unfoldable pub coupling_to_prp : Env → Bytes → ℕ → Node → Outcome Node
coupling_to_prp env original seq n =
    write_interlink env (encode_rct original (to_u16 seq) (lan_id n)) n

-- hsr-prp: the PathId rule.
unfoldable pub deliver_coupled : Env → Bytes → Tag → Node → Outcome Node
deliver_coupled env frame t n =
    if not (shr t.path 1 == net_id n)
    then elim (strip_hsr frame) as (λ _. Outcome Node) [
      | none ↦ done (note_drop (codes "malformed") n)
      | some original ↦ coupling_to_prp env original t.seq n
    ]
    else if low_bits t.path 1 == lan_id n
    then done (note_drop (codes "own") n)
    else done (note_drop (codes "path") n)

-- hsr-san: the filters are asked about the payload behind the tag.
unfoldable pub deliver_san : Env → Bytes → Tag → Node → Outcome Node
deliver_san env frame t n =
    if unicast_to_ring_member n (slice frame 0 6)
    then done (note_drop (codes "filter") n)
    else if not (should_forward_to_interlink env n t.payload)
    then done (note_drop (codes "filter") n)
    else elim (strip_hsr frame) as (λ _. Outcome Node) [
      | none ↦ done (note_drop (codes "malformed") n)
      | some original ↦ write_interlink env original n
    ]

unfoldable pub deliver_hsr : Env → Bytes → Tag → Node → Outcome Node
deliver_hsr env frame t n =
    if is_hsr_prp_coupling n
    then deliver_coupled env frame t n
    else if is_hsr_hsr n
    then done n
    else deliver_san env frame t n

-- From the test for an own frame on.
unfoldable pub accept_hsr : Env → Port → Bytes → Tag → Node → Outcome Node
accept_hsr env port frame t n =
    let src_mac = get_src_mac frame in
    if is_own n frame
    then done (note_drop (codes "own") n)
    else if find env.now n.dup_table src_mac t.seq
    then done (note_drop (codes "dup") n)
    else (let n1 = learn_ring_member env src_mac (register env src_mac t.seq 0 n) in
        deliver_hsr env frame t (forward_quad env frame (forward_ring env port frame n1)))

unfoldable pub handle_incoming_hsr_frame : Env → Port → Bytes → Node → Outcome Node
handle_incoming_hsr_frame env port frame n =
    let n' = count_in port n in
    elim (decode_hsr frame) as (λ _. Outcome Node) [
      | none ↦ done (note_drop (codes "malformed") n')
      | some t ↦ accept_hsr env port frame t n'
    ]

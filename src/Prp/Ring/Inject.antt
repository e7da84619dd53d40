-- ===== src/Prp/Ring/Inject.antt =====
-- internal/prp/hsr.go: handleHSRInterlinkFrame, from the interlink onto the ring.
pub mod Tagged
pub mod Returns
use prp_sim.Base.{
  panics, ℕ, ◌*◌, none, some, ◌++◌, ltb, if◌then◌else◌, length, take, drop, Bytes, slice, codes,
  to_u16, join_bits, Outcome, done, ◌>>=◌,
}
use prp_sim.Engine.Ether.{get_src_mac, is_vlan_frame, get_ether_type}
use prp_sim.Engine.Sequence.{next}
use prp_sim.Engine.Rct.{decode_rct}
use prp_sim.Engine.Hsr.{Tag, encode_hsr, decode_hsr, rewrite_hsr_path}
use prp_sim.Nodetable.{find}
use prp_sim.Prp.Node.{
  lan_a, lan_b, interlink, Node, Env, is_hsr_hsr, is_hsr_prp_coupling, lan_id, net_id, note_drop,
  count_in, write_counted, register, is_own, learn_proxy,
}

unfoldable pub write_ring : Env → Bytes → Node → Node
write_ring env body n = write_counted env lan_b body (write_counted env lan_a body n)

-- hsr-hsr: a frame of the other ring, from the test for an own frame on.
unfoldable pub accept_quad : Env → Bytes → Tag → Node → Node
accept_quad env frame t n =
    let src_mac = get_src_mac frame in
    if is_own n frame
    then note_drop (codes "own") n
    else if find env.now n.dup_table src_mac t.seq
    then note_drop (codes "dup") n
    else (let n1 = register env src_mac t.seq 0 n in
        elim (rewrite_hsr_path frame 0) as (λ _. Node) [
          | none ↦ note_drop (codes "malformed") n1
          | some fwd ↦ write_ring env fwd n1
        ])

unfoldable pub handle_quad_frame : Env → Bytes → Node → Node
handle_quad_frame env frame n = elim (decode_hsr frame) as (λ _. Node) [
  | none ↦ note_drop (codes "malformed") n
  | some t ↦ accept_quad env frame t n
]

-- `(n.NetID() << 1) | n.LanID()` for hsr-prp, else 0.
unfoldable pub injection_path : Node → ℕ
injection_path n = if is_hsr_prp_coupling n then join_bits (net_id n * 2) (lan_id n) else 0

-- The tagged copy of a frame. `event.frame[18:]` panics on a VLAN frame of fewer than 18 bytes, and
-- `event.frame[14:]` on a frame of fewer than 14.
unfoldable pub hsr_body : Bytes → ℕ → ℕ → Outcome Bytes
hsr_body frame path seq =
    let et = get_ether_type frame in
    if is_vlan_frame frame
    then (if ltb (length frame) 18
        then panics
        else done (take 12 frame ++ (slice frame 12 16 ++ encode_hsr (drop 18 frame) path seq et)))
    else if ltb (length frame) 14
    then panics
    else done (take 12 frame ++ encode_hsr (drop 14 frame) path seq et)

-- From the registration of the frame on.
unfoldable pub inject : Env → Bytes → ℕ → Node → Outcome Node
inject env frame seq n = do
  let n1 = register env (get_src_mac frame) seq 0 n
  body ← hsr_body frame (injection_path n) seq
  done (write_ring env body n1)

unfoldable pub handle_hsr_interlink_frame : Env → Bytes → Node → Outcome Node
handle_hsr_interlink_frame env frame n =
    let n' = count_in interlink n in
    let n1 = learn_proxy env frame n' in
    if is_hsr_hsr n
    then done (handle_quad_frame env frame n')
    else if is_hsr_prp_coupling n
    then elim (decode_rct frame) as (λ _. Outcome Node) [
      | none ↦ done (note_drop (codes "malformed") n1)
      | some d ↦ inject env frame (to_u16 d.seq) n1
    ]
    else (let (seq, mgr) = next n1.seq_mgr (get_src_mac frame) in
        inject env frame seq (record n1 { seq_mgr = mgr }))

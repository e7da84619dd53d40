-- ===== src/Prp/Lan.antt =====
-- internal/prp/prp.go: the handlers of a prp-san node, from the LANs and from the interlink.
pub mod Copies
pub mod Duplicates
pub mod Frames
pub mod EndToEnd
use prp_sim.Base.{
  ℕ, Bool, true, false, ◌&&◌, ◌||◌, not, none, some, List, [], ◌∷◌, ◌==◌, if◌then◌else◌, Bytes,
  codes, Outcome, done, ◌>>=◌,
}
use prp_sim.Engine.Ether.{get_src_mac, get_vlan_id}
use prp_sim.Engine.Sequence.{next}
use prp_sim.Engine.Rct.{Decoded, encode_rct, decode_rct, is_prp_frame}
use prp_sim.Nodetable.{find}
use prp_sim.Prp.Node.{
  Port, lan_a, lan_b, interlink, Node, Env, is_hsr_node, note_drop, count_in, count_out, write,
  write_counted, register, is_own, learn_proxy,
}
use prp_sim.Prp.Multicast.{should_forward_to_interlink}

unfoldable pub contains_int : List ℕ → ℕ → Bool
contains_int [] v = false
contains_int (x ∷ xs) v = x == v || contains_int xs v

-- LAN A carries lan_id 0, LAN B carries 1.
unfoldable pub expected_lan : Port → ℕ
expected_lan lan_b = 1
expected_lan _ = 0

-- The forwarding of an accepted frame.
unfoldable pub deliver_to_san : Env → Bytes → Node → Node
deliver_to_san env payload n =
    if not (is_hsr_node n) && n.has_interlink
    then (if should_forward_to_interlink env n payload
        then write_counted env interlink payload n
        else note_drop (codes "filter") n)
    else n

-- From the test on the LAN id on.
unfoldable pub accept_prp : Env → Port → Bytes → Decoded → Node → Node
unfolding deliver_to_san
accept_prp env port frame d n =
    let src_mac = get_src_mac frame in
    if not (d.lan_id == expected_lan port)
    then note_drop (codes "path") n
    else if is_own n frame
    then n
    else if find env.now n.dup_table src_mac d.seq
    then note_drop (codes "dup") n
    else deliver_to_san env d.payload (register env src_mac d.seq d.lan_id n)

unfoldable pub handle_incoming_prp_frame : Env → Port → Bytes → Node → Node
handle_incoming_prp_frame env port frame n =
    let n' = count_in port n in
    if is_prp_frame frame
    then elim (decode_rct frame) as (λ _. Node) [
      | none ↦ n'
      | some d ↦ accept_prp env port frame d n'
    ]
    else note_drop (codes "malformed") n'

-- From the learning of the SAN's address on.
unfoldable pub send_to_lans : Env → Bytes → Node → Node
send_to_lans env frame n =
    let n1 = learn_proxy env frame n in
    if n.config.trailer_enabled
    then (let (seq, mgr) = next n1.seq_mgr (get_src_mac frame) in
        let n2 : Node = record n1 { seq_mgr = mgr } in
        write_counted env lan_b (encode_rct frame seq 1)
          (write_counted env lan_a (encode_rct frame seq 0) n2))
    else count_out lan_b (count_out lan_a (write env lan_b frame (write env lan_a frame n1)))

-- The VLAN filter, where one is set.
unfoldable pub passes_vlan_filter : List ℕ → Bytes → Outcome Bool
passes_vlan_filter [] frame = done true
passes_vlan_filter (v ∷ vs) frame = do
  (vlan_id, tagged) ← get_vlan_id frame
  done (tagged && contains_int (v ∷ vs) vlan_id)

unfoldable pub handle_interlink_frame : Env → Bytes → Node → Outcome Node
handle_interlink_frame env frame n = do
  let n' = count_in interlink n
  passed ← passes_vlan_filter n.config.vlan_filter frame
  done (if passed then send_to_lans env frame n' else note_drop (codes "filter") n')

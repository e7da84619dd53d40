-- ===== src/Examples/Nodes.antt =====
-- The node's properties at concrete frames.
use prp_sim.Base.{
  Distinct, ◌+◌, ◌^◌, ◌≤◌, ◌≡◌, refl, ◌≢◌, true, false, ◌&&◌, none, some, List, [], ◌∷◌, ◌++◌,
  arith, leb, if◌then◌else◌, length, All, Bytes, slice, u16_at, codes, text_eq, lookup, insert,
  to_u16, Outcome, done,
}
use prp_sim.Engine.Ether.{get_src_mac}
use prp_sim.Engine.Rct.{encode_rct, pad_frame}
use prp_sim.Nodetable.{find}
use prp_sim.Nodetable.Size.{new_table-IsValid}
use prp_sim.Prp.Node.{Port, lan_a, lan_b, interlink, Node, role_info, is_own, new_node}
use prp_sim.Prp.Role.{parse_role, info_for}
use prp_sim.Prp.Multicast.{should_forward_to_interlink}
use prp_sim.Prp.Monitor.{start}
use prp_sim.Engine.Ether.{is_vlan_frame}
use prp_sim.Engine.Ether.Macs.{get_src_mac-ne}
use prp_sim.Engine.Hsr.{encode_hsr, Tag, encode_hsr, decode_hsr}
use prp_sim.Engine.Sequence.{next}
use prp_sim.Nodetable.Size
use prp_sim.Supervision.{build_rcted}
use prp_sim.Supervision
use prp_sim.Prp.Node.{entry_forget_ms, Env, or_default, net_id}
use prp_sim.Prp.Ring.{handle_incoming_hsr_frame, other_port}
use prp_sim.Prp.Ring.Inject.{inject}
use prp_sim.Engine.Ether.{mac_text}
use prp_sim.Prp.Ring.Once.{ring_once}
use prp_sim.Prp.Ring.Coupling.{no_reinjection}
use prp_sim.Prp.Lan.{send_to_lans}
use prp_sim.Prp.Monitor.{note_supervision, has_regressed}
use prp_sim.Prp.Monitor.Restart.{is_restart, find-note_supervision, has_regressed_lem}
use prp_sim.Prp.Dispatch.{FrameEvent, Action, announce, receive, clean, run, handle_frame}
use prp_sim.Prp.Dispatch.Runs.{run_lem, run-IsValid}
use prp_sim.Prp.Dispatch.NoEcho.{no_echo}
use prp_sim.Prp.Dispatch.{act, is_supervision, handle_data}
use prp_sim.Engine.Ether.{get_ether_type, ether_type_loop, is_vlan_type}
use prp_sim.Prp.Monitor.{send_supervision_frame}
use prp_sim.Prp.Lan.{handle_interlink_frame, passes_vlan_filter}
use prp_sim.Examples.Data.{returns, ring_frame, ring_tag, result_or, config_of, box_mac}
use prp_sim.Prp.Dispatch.{act, is_supervision, handle_data}
use prp_sim.Engine.Ether.{get_ether_type, ether_type_loop, is_vlan_type}
use prp_sim.Prp.Monitor.{send_supervision_frame}
use prp_sim.Prp.Lan.{handle_interlink_frame, passes_vlan_filter}
use prp_sim.Examples.Data.{returns, san_frame, node_of, at, at-IsOrder}

abbrev prp_node : Node
prp_node = node_of (codes "prp-san")

abbrev ring_node : Node
ring_node = node_of (codes "hsr-san")

abbrev ring_heard : Outcome Node
ring_heard = handle_incoming_hsr_frame (at 0) lan_a (ring_frame 0 9) ring_node

ring_once_example :
    (k : Node) × (handle_incoming_hsr_frame
        (at 3)
        lan_b
        (ring_frame 1 9)
        (result_or ring_node ring_heard)
      ≡ done k)
    × (k.sent ≡ (result_or ring_node ring_heard).sent)
    × (k.dup_table ≡ (result_or ring_node ring_heard).dup_table)
unfolding handle_incoming_hsr_frame start new_node role_info find decode_hsr
    prp_sim.Engine.Hsr.hsr_tag_offset encode_hsr is_vlan_type u16_at is_own text_eq lookup
    parse_role info_for prp_sim.Prp.Ring.accept_hsr prp_sim.Prp.Node.count_in
    prp_sim.Prp.Ring.deliver_hsr prp_sim.Prp.Ring.forward_quad prp_sim.Prp.Ring.forward_ring
    prp_sim.Prp.Ring.deliver_san prp_sim.Prp.Ring.other_port prp_sim.Prp.Ring.is_lan_a
    prp_sim.Engine.Hsr.strip_hsr should_forward_to_interlink prp_sim.Prp.Node.write_interlink
    prp_sim.Prp.Node.write_counted prp_sim.Prp.Node.write prp_sim.Prp.Node.count_out
    prp_sim.Prp.Node.unicast_to_ring_member prp_sim.Prp.Node.register
    prp_sim.Prp.Node.learn_ring_member prp_sim.Engine.Hsr.rewrite_hsr_path_lane get_src_mac
    prp_sim.Engine.Ether.mac_text insert prp_sim.Engine.Ether.get_dst_mac prp_sim.Engine.Ether.hex2
    prp_sim.Engine.Ether.hex_digit prp_sim.Engine.Hsr.strip_at entry_forget_ms
ring_once_example =
    ring_once (at 0) (at 3) lan_a lan_b (ring_frame 0 9) (ring_frame 1 9) (ring_tag 0 9)
      (ring_tag 1 9) ring_node (result_or ring_node ring_heard) (at-IsOrder 0)
      (new_table-IsValid 256) (omega arith) refl refl refl (returns ring_node _ refl) refl refl refl
      (omega arith)

abbrev life : List (Env × Action)
life =
    (at 0, announce none)
    ∷ (at 1, receive (record { iface = interlink; frame = san_frame }))
    ∷ (at 2, receive (record { iface = lan_a; frame = encode_rct san_frame 7 0 }))
    ∷ (at 3, clean)
    ∷ []

abbrev lived : Node
lived = result_or prp_node (run life prp_node)

run-IsValid_example :
    (length lived.dup_table.entries ≤ or_default lived.config.max_node_table_size 256)
    × Distinct lived.dup_table.entries
    × Size.OwnKeys lived.dup_table.entries
unfolding run start new_node act handle_frame is_supervision get_ether_type ether_type_loop
    is_vlan_type u16_at handle_data role_info parse_role text_eq send_supervision_frame info_for
    handle_interlink_frame passes_vlan_filter prp_sim.Prp.Monitor.announce_lans
    prp_sim.Prp.Monitor.count_sup_sent prp_sim.Prp.Node.write prp_sim.Prp.Node.count_in send_to_lans
    prp_sim.Prp.Node.learn_proxy prp_sim.Prp.Node.write_counted prp_sim.Prp.Node.count_out next
    encode_rct pad_frame is_vlan_frame prp_sim.Prp.Monitor.node_mac
run-IsValid_example =
    run-IsValid (config_of (codes "prp-san")) 100 (some box_mac) true life lived
      (at-IsOrder 0, (at-IsOrder 1, (at-IsOrder 2, (at-IsOrder 3, tt)))) (returns prp_node _ refl)

abbrev padded_life : List (Env × Action)
padded_life =
    (at 0, announce none)
    ∷ (at 1, receive (record { iface = interlink; frame = pad_frame san_frame }))
    ∷ (at 2, receive (record { iface = lan_a; frame = encode_rct san_frame 7 0 }))
    ∷ (at 3, clean)
    ∷ []

run_lem_example :
    (n : Node) × (run padded_life
        (start (some box_mac) true (new_node (config_of (codes "prp-san")) 100))
      ≡ done n)
    × (length n.dup_table.entries ≤ or_default n.config.max_node_table_size 256)
    × Distinct n.dup_table.entries
    × Size.OwnKeys n.dup_table.entries
unfolding encode_rct pad_frame is_vlan_frame u16_at
run_lem_example =
    run_lem (config_of (codes "prp-san")) 100 (some box_mac) padded_life
      (at-IsOrder 0, (at-IsOrder 1, (at-IsOrder 2, (at-IsOrder 3, tt))))
      (omega arith, (omega arith, tt))

no_echo_example :
    let event : FrameEvent = record { iface = interlink; frame = san_frame } in
    let m = result_or prp_node (handle_frame (at 1) event prp_node) in
    (out : List (Port × Bytes)) × (m.sent ≡ prp_node.sent ++ out)
    × All (λ (e : Port × Bytes). e.0 ≢ interlink) out
unfolding handle_frame is_supervision get_ether_type ether_type_loop is_vlan_type u16_at handle_data
    role_info parse_role text_eq start new_node info_for handle_interlink_frame passes_vlan_filter
no_echo_example =
    no_echo (at 1) (record { iface = interlink; frame = san_frame }) prp_node
      (result_or prp_node
        (handle_frame (at 1) (record { iface = interlink; frame = san_frame }) prp_node))
      refl

abbrev coupling : Node
coupling = node_of (codes "hsr-prp")

abbrev coupled_heard : Node
coupled_heard =
    result_or coupling (handle_incoming_hsr_frame (at 0) lan_a (ring_frame 7 9) coupling)

no_reinjection_example :
    (out : List (Port × Bytes)) × (coupled_heard.sent ≡ coupling.sent ++ out)
    × All (λ (e : Port × Bytes). e.0 ≡ other_port lan_a) out
unfolding handle_incoming_hsr_frame start new_node role_info net_id parse_role text_eq info_for
    decode_hsr prp_sim.Engine.Hsr.hsr_tag_offset encode_hsr is_vlan_type u16_at
    prp_sim.Prp.Ring.accept_hsr is_own prp_sim.Prp.Node.count_in find lookup
    prp_sim.Prp.Ring.deliver_hsr prp_sim.Prp.Ring.forward_quad prp_sim.Prp.Ring.forward_ring
    prp_sim.Engine.Hsr.rewrite_hsr_path_lane prp_sim.Prp.Node.write_counted
    prp_sim.Prp.Node.learn_ring_member prp_sim.Prp.Node.register prp_sim.Prp.Ring.deliver_coupled
    prp_sim.Prp.Node.lan_id
no_reinjection_example =
    no_reinjection (at 0) lan_a (ring_frame 7 9) (ring_tag 7 9) coupling coupled_heard refl refl
      refl refl

find-note_supervision_example :
    let sup : Supervision.Frame = record {
      src_mac = get_src_mac san_frame;
      seq = 3;
      path = 0;
      tlv_type = 20;
      mac_addr_a = [];
      is_red_box = false;
      red_box_mac = [];
    } in
    find 9 (note_supervision (at 9) lan_a sup prp_node).dup_table (get_src_mac san_frame) 7 ≡ (
      if is_restart prp_node sup && text_eq (get_src_mac san_frame) sup.src_mac
      then false
      else find 9 prp_node.dup_table (get_src_mac san_frame) 7)
unfolding start new_node note_supervision
find-note_supervision_example =
    find-note_supervision (at 9) lan_a
      (record {
        src_mac = get_src_mac san_frame;
        seq = 3;
        path = 0;
        tlv_type = 20;
        mac_addr_a = slice san_frame 6 12;
        is_red_box = false;
        red_box_mac = [];
      })
      prp_node 9 (get_src_mac san_frame) 7 (get_src_mac-ne san_frame) (new_table-IsValid 256)

has_regressed_lem_example : has_regressed (to_u16 (65535 + 2)) 65535 ≡ leb (2 ^ 15) 2
has_regressed_lem_example = has_regressed_lem 65535 2 (omega arith) (omega arith)

abbrev sup_event : FrameEvent
sup_event = record { iface = lan_b; frame = build_rcted box_mac 4 1 }

abbrev injecting : Node
injecting = result_or ring_node (inject (at 0) san_frame 9 ring_node)

-- ===== src/Examples/Rings.antt =====
-- Runs of a node of an HSR ring at concrete frames.
use prp_sim.Base.{
  ◌≡◌, refl, some, [], ◌∷◌, ◌++◌, arith, Bytes, u16_at, codes, text_eq, lookup, done,
}
use prp_sim.Engine.Ether.{is_vlan_type}
use prp_sim.Engine.Hsr.{decode_hsr, encode_hsr, hsr_tag_offset, strip_hsr}
use prp_sim.Nodetable.{find}
use prp_sim.Prp.Role.{parse_role, info_for}
use prp_sim.Prp.Monitor.{start}
use prp_sim.Prp.Node.{Node, lan_a, lan_b, is_own, new_node, role_info}
use prp_sim.Prp.Ring.{handle_incoming_hsr_frame, is_lan_a, other_port}
use prp_sim.Prp.Ring.Forward.{learned}
use prp_sim.Prp.Ring.Quad.{handle_incoming_hsr_frame-to_ring, to_ring}
use prp_sim.Prp.Ring.San.{handle_incoming_hsr_frame-to_san, to_san}
use prp_sim.Prp.Ring.Coupled.{handle_incoming_hsr_frame-to_prp, to_prp}
use prp_sim.Examples.Data.{ring_frame, ring_tag, node_of, at}

abbrev ring_node : Node
ring_node = node_of (codes "hsr-san")

handle_incoming_hsr_frame-to_san_example :
    (original : Bytes) × (g : Bytes) × (m : Node) × (strip_hsr (ring_frame 6 9) ≡ some original)
    × (decode_hsr g ≡ some (ring_tag 7 9))
    × (strip_hsr g ≡ some original)
    × (handle_incoming_hsr_frame (at 0) lan_a (ring_frame 6 9) ring_node ≡ done m)
    × (m.sent
        ≡ (ring_node.sent ++ ((lan_b, g) ∷ []))
          ++ to_san
              (at 0)
              (ring_frame 6 9)
              (ring_tag 6 9)
              original
              (learned (at 0) (ring_frame 6 9) (ring_tag 6 9) ring_node))
unfolding decode_hsr encode_hsr hsr_tag_offset is_vlan_type u16_at is_own start text_eq new_node
    find lookup role_info parse_role info_for is_lan_a other_port
handle_incoming_hsr_frame-to_san_example =
    handle_incoming_hsr_frame-to_san (at 0) lan_a (ring_frame 6 9) (ring_tag 6 9) ring_node
      (omega arith) refl refl refl refl refl refl refl refl

abbrev coupling : Node
coupling = node_of (codes "hsr-prp")

handle_incoming_hsr_frame-to_prp_example :
    (original : Bytes) × (g : Bytes) × (m : Node) × (strip_hsr (ring_frame 6 9) ≡ some original)
    × (decode_hsr g ≡ some (ring_tag 7 9))
    × (strip_hsr g ≡ some original)
    × (handle_incoming_hsr_frame (at 0) lan_a (ring_frame 6 9) coupling ≡ done m)
    × (m.sent ≡ (coupling.sent ++ ((lan_b, g) ∷ [])) ++ to_prp (ring_tag 6 9) original coupling)
unfolding decode_hsr encode_hsr hsr_tag_offset is_vlan_type u16_at is_own start text_eq new_node
    find lookup role_info parse_role info_for is_lan_a other_port
handle_incoming_hsr_frame-to_prp_example =
    handle_incoming_hsr_frame-to_prp (at 0) lan_a (ring_frame 6 9) (ring_tag 6 9) coupling
      (omega arith) refl refl refl refl refl refl refl refl

abbrev quad_node : Node
quad_node = node_of (codes "hsr-hsr")

handle_incoming_hsr_frame-to_ring_example :
    (original : Bytes) × (g : Bytes) × (m : Node) × (strip_hsr (ring_frame 6 9) ≡ some original)
    × (decode_hsr g ≡ some (ring_tag 7 9))
    × (strip_hsr g ≡ some original)
    × (handle_incoming_hsr_frame (at 0) lan_a (ring_frame 6 9) quad_node ≡ done m)
    × (m.sent
        ≡ (quad_node.sent ++ ((lan_b, g) ∷ []))
          ++ to_ring (ring_frame 6 9) (learned (at 0) (ring_frame 6 9) (ring_tag 6 9) quad_node))
unfolding decode_hsr encode_hsr hsr_tag_offset is_vlan_type u16_at is_own start text_eq new_node
    find lookup role_info parse_role info_for is_lan_a other_port
handle_incoming_hsr_frame-to_ring_example =
    handle_incoming_hsr_frame-to_ring (at 0) lan_a (ring_frame 6 9) (ring_tag 6 9) quad_node
      (omega arith) refl refl refl refl refl refl refl refl

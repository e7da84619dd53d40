-- ===== src/Examples/Lans.antt =====
-- A frame between two SANs, at a concrete pair of nodes.
use prp_sim.Base.{
  ℕ, ◌≡◌, refl, inl, inr, true, some, List, [], ◌∷◌, arith, if◌then◌else◌, Bytes, u16_at, codes,
  text_eq, lookup,
}
use prp_sim.Engine.Ether.{get_src_mac}
use prp_sim.Engine.Rct.{encode_rct, pad_frame}
use prp_sim.Engine.Sequence.{current}
use prp_sim.Nodetable.Size.{new_table-IsValid}
use prp_sim.Prp.Node.{Port, Node, Env, lan_a, lan_b, interlink, new_node}
use prp_sim.Prp.Monitor.{start}
use prp_sim.Prp.Multicast.{should_forward_to_interlink}
use prp_sim.Prp.Lan.{handle_interlink_frame}
use prp_sim.Prp.Lan.EndToEnd.{Carried, receive_all, sent_between, end_to_end}
use prp_sim.Examples.Data.{san_frame, node_of, config_of, at, at-IsOrder, result_or, returns}

abbrev near : Node
near = node_of (codes "prp-san")

abbrev near_sent : Node
near_sent = result_or near (handle_interlink_frame (at 0) san_frame near)

abbrev far : Node
far =
    start (some (0x02 ∷ 0x50 ∷ 0x50 ∷ 0x00 ∷ 0x00 ∷ 0x02 ∷ [])) true
      (new_node (config_of (codes "prp-san")) 7)

-- LAN B is faster, and a switch doubles the copy on LAN A.
abbrev copy_on : Port → ℕ → Port × Bytes
copy_on port lan = (port, encode_rct san_frame (current near.seq_mgr (get_src_mac san_frame)) lan)

abbrev later_copies : List Carried
later_copies = (at 15, copy_on lan_a 0) ∷ (at 19, copy_on lan_a 0) ∷ []

end_to_end_example :
    sent_between far (receive_all ((at 10, copy_on lan_b 1) ∷ later_copies) far) ≡ (
      if should_forward_to_interlink (at 10) far (pad_frame san_frame)
      then (interlink, pad_frame san_frame) ∷ []
      else [])
unfolding start new_node prp_sim.Prp.Node.role_info prp_sim.Prp.Role.parse_role
    prp_sim.Prp.Role.info_for prp_sim.Engine.Rct.rct_lsdu pad_frame prp_sim.Prp.Node.is_own
    prp_sim.Nodetable.find get_src_mac text_eq prp_sim.Engine.Ether.is_vlan_frame u16_at lookup
    prp_sim.Prp.Node.entry_forget_ms handle_interlink_frame prp_sim.Prp.Lan.passes_vlan_filter
    prp_sim.Prp.Lan.send_to_lans prp_sim.Prp.Node.count_in prp_sim.Prp.Node.write_counted
    prp_sim.Prp.Node.learn_proxy prp_sim.Engine.Sequence.next current
end_to_end_example =
    end_to_end (at 0) (at 10) san_frame near near_sent far (copy_on lan_b 1) later_copies refl refl
      refl refl (returns near _ refl) (inr (inl refl), (inl refl, (inl refl, tt))) (omega arith)
      (omega arith) (omega arith) refl refl refl (at-IsOrder 0) (new_table-IsValid 256)
      (omega arith) refl refl (omega arith, (omega arith, tt))

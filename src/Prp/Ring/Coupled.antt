-- ===== src/Prp/Ring/Coupled.antt =====
-- internal/prp/hsr.go, handleIncomingHSRFrame: what becomes of a new frame at an hsr-prp node.
use prp_sim.Base.{
  ◌+◌, ◌*◌, ◌/◌, ◌≡◌, refl, sym, ap, ◌∙◌, inl, inr, Bool, true, false, some, List, [], ◌∷◌, ◌++◌,
  append-nil, ◌==◌, if◌then◌else◌, Bool-cases, All, Bytes, IsByte, codes, shr, low_bits, to_u16,
  done,
}
use prp_sim.Engine.Ether.{get_src_mac}
use prp_sim.Engine.Rct.{encode_rct}
use prp_sim.Engine.Hsr.{Tag, decode_hsr, strip_hsr}
use prp_sim.Nodetable.{find}
use prp_sim.Prp.Node.{
  Port, interlink, Node, Env, is_hsr_hsr, is_hsr_prp_coupling, lan_id, net_id, note_drop,
  write_counted, write_interlink, register, is_own, learn_ring_member,
}
use prp_sim.Prp.Effects.{write_counted-sent}
use prp_sim.Prp.Ring.Forward.{goes_on}
use prp_sim.Prp.Ring.{
  handle_incoming_hsr_frame, deliver_hsr, deliver_coupled, coupling_to_prp, forward_quad,
  other_port, is_lan_a,
}

-- What the PRP LAN is given of a new frame: the frame without its tag, with a trailer of the node's
-- LAN and the tag's number, where the frame is of another network.
abbrev pub to_prp : Tag → Bytes → Node → List (Port × Bytes)
to_prp t original n =
    if shr t.path 1 == net_id n
    then []
    else (interlink, encode_rct original (to_u16 t.seq) (lan_id n)) ∷ []

dropped-sent :
    (b : Bool) (x : Node)
    → (m : Node) × ((if b
          then done (note_drop (codes "own") x)
          else done (note_drop (codes "path") x))
        ≡ done m)
      × (m.sent ≡ x.sent ++ [])
unfolding note_drop
dropped-sent true x = (_, refl, sym (append-nil x.sent))
dropped-sent false x = (_, refl, sym (append-nil x.sent))

deliver_coupled_lem :
    (env : Env) (frame : Bytes) (t : Tag) (original : Bytes) (n : Node)
    → strip_hsr frame ≡ some original
    → n.has_interlink ≡ true
    → env.write_ok interlink ≡ true
    → (m : Node) × (deliver_coupled env frame t n ≡ done m)
      × (m.sent ≡ n.sent ++ to_prp t original n)
unfolding deliver_coupled coupling_to_prp write_interlink
deliver_coupled_lem env frame t original n at bound ok =
    elim (Bool-cases (shr t.path 1 == net_id n)) [
      | inl home ↦ rw home (dropped-sent (low_bits t.path 1 == lan_id n) n)
      | inr away ↦ rw away (
        write_counted env interlink (encode_rct original (to_u16 t.seq) (lan_id n)) n,
        rw (at, bound),
        write_counted-sent env interlink (encode_rct original (to_u16 t.seq) (lan_id n)) n ok,
      )
    ]

deliver_hsr-coupled :
    (env : Env) (frame : Bytes) (t : Tag) (n : Node)
    → is_hsr_prp_coupling n ≡ true
    → is_hsr_hsr n ≡ false
    → deliver_hsr env frame t (forward_quad env frame n) ≡ deliver_coupled env frame t n
unfolding deliver_hsr forward_quad
deliver_hsr-coupled env frame t n coupled plain = rw (plain, coupled)

-- At a node that couples the ring to PRP, a new frame that DecodeHSR takes and that is not its own
-- is handled without a crash, and one or two things leave, in this order. A copy leaves by the
-- other ring port, from which a receiver decodes the same tag but for the lane bit of that port
-- and strips the same frame. The frame without its tag goes to the PRP LAN, with a trailer of the
-- node's LAN and the tag's number, exactly when the NetId of its path is not the node's. The frame
-- consists of bytes, the interlink is bound, and both ports take the write.
pub handle_incoming_hsr_frame-to_prp :
    (env : Env) (port : Port) (frame : Bytes) (t : Tag) (n : Node)
    → All IsByte frame
    → decode_hsr frame ≡ some t
    → is_own n frame ≡ false
    → find env.now n.dup_table (get_src_mac frame) t.seq ≡ false
    → is_hsr_prp_coupling n ≡ true
    → is_hsr_hsr n ≡ false
    → n.has_interlink ≡ true
    → env.write_ok (other_port port) ≡ true
    → env.write_ok interlink ≡ true
    → (original : Bytes) × (g : Bytes) × (m : Node) × (strip_hsr frame ≡ some original)
      × (decode_hsr g
          ≡ some
              (record t { path = t.path / 2 * 2 + (if is_lan_a (other_port port) then 0 else 1) }))
      × (strip_hsr g ≡ some original)
      × (handle_incoming_hsr_frame env port frame n ≡ done m)
      × (m.sent ≡ (n.sent ++ ((other_port port, g) ∷ [])) ++ to_prp t original n)
unfolding register learn_ring_member net_id lan_id
handle_incoming_hsr_frame-to_prp env port frame t n bytes at other fresh coupled plain bound ring_ok
      san_ok =
    goes_on env port frame t n (λ original. to_prp t original n) bytes at other fresh ring_ok
      (λ original x stripped a.
        let (m, e, sent) =
          deliver_coupled_lem env frame t original x stripped
            (ap (λ (y : Node). y.has_interlink) a ∙ bound) san_ok in
        (
          m,
          deliver_hsr-coupled env frame t x (ap (λ y. is_hsr_prp_coupling y) a ∙ coupled)
                (ap (λ y. is_hsr_hsr y) a ∙ plain)
              ∙ e,
          sent ∙ ap (λ (y : Node). x.sent ++ to_prp t original y) a,
        ))

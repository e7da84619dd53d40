-- ===== src/Prp/Ring/Quad.antt =====
-- internal/prp/hsr.go, handleIncomingHSRFrame: what becomes of a new frame at an hsr-hsr node.
use prp_sim.Base.{
  if-true, if-false, ◌+◌, ◌*◌, ◌/◌, ◌≡◌, sym, ap, ◌∙◌, inl, inr, true, false, ◌&&◌, some, List, [],
  ◌∷◌, ◌++◌, append-nil, arith, if◌then◌else◌, Bool-cases, All, Bytes, IsByte, slice, codes, done,
}
use prp_sim.Engine.Ether.{get_src_mac}
use prp_sim.Engine.Hsr.{Tag, decode_hsr, strip_hsr}
use prp_sim.Nodetable.{find}
use prp_sim.Prp.Node.{
  Port, interlink, Node, Env, is_hsr_hsr, is_hsr_prp_coupling, note_drop, write_counted, register,
  is_own, learn_ring_member, unicast_to_ring_member,
}
use prp_sim.Prp.Effects.{note_drop-Alike, write_counted-Alike, write_counted-sent}
use prp_sim.Prp.Ring.Forward.{goes_on, learned}
use prp_sim.Prp.Ring.{handle_incoming_hsr_frame, deliver_hsr, forward_quad, other_port, is_lan_a}

-- What the second ring is given of a new frame: the frame as it came, tag and all, unless it is
-- for a member of the first.
abbrev pub to_ring : Bytes → Node → List (Port × Bytes)
to_ring frame n = if unicast_to_ring_member n (slice frame 0 6) then [] else (interlink, frame) ∷ []

deliver_hsr-quad :
    (env : Env) (frame : Bytes) (t : Tag) (n : Node)
    → is_hsr_prp_coupling n ≡ false
    → is_hsr_hsr n ≡ true
    → deliver_hsr env frame t n ≡ done n
unfolding deliver_hsr
deliver_hsr-quad env frame t n single quad = rw (single, quad)

forward_quad-bound :
    (env : Env) (frame : Bytes) (n : Node)
    → is_hsr_hsr n ≡ true
    → n.has_interlink ≡ true
    → forward_quad env frame n ≡ (
        if unicast_to_ring_member n (slice frame 0 6)
        then note_drop (codes "filter") n
        else write_counted env interlink frame n)
unfolding forward_quad
forward_quad-bound env frame n quad bound =
    if-true (is_hsr_hsr n && n.has_interlink) _ n (ground arith)

forward_quad_lem :
    (env : Env) (frame : Bytes) (t : Tag) (n : Node)
    → is_hsr_prp_coupling n ≡ false
    → is_hsr_hsr n ≡ true
    → n.has_interlink ≡ true
    → env.write_ok interlink ≡ true
    → (m : Node) × (deliver_hsr env frame t (forward_quad env frame n) ≡ done m)
      × (m.sent ≡ n.sent ++ to_ring frame n)
forward_quad_lem env frame t n single quad bound ok =
    let e = ap (deliver_hsr env frame t) (forward_quad-bound env frame n quad bound) in
    elim (Bool-cases (unicast_to_ring_member n (slice frame 0 6))) [
      | inl member ↦
          let a = note_drop-Alike (codes "filter") n in
          (
            note_drop (codes "filter") n,
            e
                ∙ ap (deliver_hsr env frame t) (if-true _ _ _ member)
                ∙ deliver_hsr-quad env frame t _ (ap (λ x. is_hsr_prp_coupling x) a ∙ single)
                    (ap (λ x. is_hsr_hsr x) a ∙ quad),
            rw member (ap (λ (x : Node). x.sent) a ∙ sym (append-nil n.sent)),
          )
      | inr outside ↦
          let a = write_counted-Alike env interlink frame n in
          (
            write_counted env interlink frame n,
            e
                ∙ ap (deliver_hsr env frame t)
                    (if-false (unicast_to_ring_member n (slice frame 0 6)) _ _ outside)
                ∙ deliver_hsr-quad env frame t _ (ap (λ x. is_hsr_prp_coupling x) a ∙ single)
                    (ap (λ x. is_hsr_hsr x) a ∙ quad),
            rw outside (write_counted-sent env interlink frame n ok),
          )
    ]

-- At a node that couples two rings, and no PRP LAN, a new frame that DecodeHSR takes and that is
-- not its own is handled without a crash, and one or two things leave, in this order. A copy
-- leaves by the other ring port, from which a receiver decodes the same tag but for the lane bit
-- of that port and strips the same frame. The frame as it came, with its tag, goes to the second
-- ring, unless it is for a known member of the first, its source counted in. The frame consists of
-- bytes, the interlink is bound, and both ports take the write.
pub handle_incoming_hsr_frame-to_ring :
    (env : Env) (port : Port) (frame : Bytes) (t : Tag) (n : Node)
    → All IsByte frame
    → decode_hsr frame ≡ some t
    → is_own n frame ≡ false
    → find env.now n.dup_table (get_src_mac frame) t.seq ≡ false
    → is_hsr_prp_coupling n ≡ false
    → is_hsr_hsr n ≡ true
    → n.has_interlink ≡ true
    → env.write_ok (other_port port) ≡ true
    → env.write_ok interlink ≡ true
    → (original : Bytes) × (g : Bytes) × (m : Node) × (strip_hsr frame ≡ some original)
      × (decode_hsr g
          ≡ some
              (record t { path = t.path / 2 * 2 + (if is_lan_a (other_port port) then 0 else 1) }))
      × (strip_hsr g ≡ some original)
      × (handle_incoming_hsr_frame env port frame n ≡ done m)
      × (m.sent ≡ (n.sent ++ ((other_port port, g) ∷ [])) ++ to_ring frame (learned env frame t n))
unfolding register learn_ring_member unicast_to_ring_member
handle_incoming_hsr_frame-to_ring env port frame t n bytes at other fresh single quad bound ring_ok
      san_ok =
    goes_on env port frame t n (λ original. to_ring frame (learned env frame t n)) bytes at other
      fresh ring_ok
      (λ original x stripped a.
        let (m, e, sent) =
          forward_quad_lem env frame t x (ap (λ y. is_hsr_prp_coupling y) a ∙ single)
            (ap (λ y. is_hsr_hsr y) a ∙ quad) (ap (λ (y : Node). y.has_interlink) a ∙ bound)
            san_ok in
        (m, e, sent ∙ ap (λ (y : Node). x.sent ++ to_ring frame y) a))

-- ===== src/Prp/Ring/San.antt =====
-- internal/prp/hsr.go, handleIncomingHSRFrame: what becomes of a new frame at an hsr-san node.
use prp_sim.Base.{
  if-true, ◌+◌, ◌*◌, ◌/◌, ◌≡◌, sym, ap, ◌∙◌, inl, inr, true, false, some, List, [], ◌∷◌, ◌++◌,
  append-nil, if◌then◌else◌, Bool-cases, All, Bytes, IsByte, slice, codes, done,
}
use prp_sim.Engine.Ether.{get_src_mac}
use prp_sim.Engine.Hsr.{Tag, decode_hsr, strip_hsr}
use prp_sim.Nodetable.{find}
use prp_sim.Prp.Node.{
  Port, interlink, Node, Env, is_hsr_hsr, is_hsr_prp_coupling, note_drop, write_counted,
  write_interlink, register, is_own, learn_ring_member, unicast_to_ring_member,
}
use prp_sim.Prp.Multicast.{should_forward_to_interlink, multicast_allowed, is_known_san}
use prp_sim.Prp.Effects.{note_drop-Alike, write_counted-sent}
use prp_sim.Prp.Ring.Forward.{goes_on, learned}
use prp_sim.Prp.Ring.{
  handle_incoming_hsr_frame, deliver_hsr, deliver_san, forward_quad, other_port, is_lan_a,
}

-- What the SAN is given of a new frame: the frame without its tag, unless it is for a member of
-- the ring or the filters stop it.
abbrev pub to_san : Env → Bytes → Tag → Bytes → Node → List (Port × Bytes)
to_san env frame t original n =
    if unicast_to_ring_member n (slice frame 0 6)
    then []
    else (if should_forward_to_interlink env n t.payload then (interlink, original) ∷ [] else [])

deliver_san_lem :
    (env : Env) (frame : Bytes) (t : Tag) (original : Bytes) (n : Node)
    → strip_hsr frame ≡ some original
    → n.has_interlink ≡ true
    → env.write_ok interlink ≡ true
    → (m : Node) × (deliver_san env frame t n ≡ done m)
      × (m.sent ≡ n.sent ++ to_san env frame t original n)
unfolding deliver_san write_interlink
deliver_san_lem env frame t original n at bound ok =
    elim (Bool-cases (unicast_to_ring_member n (slice frame 0 6))) [
      | inl member ↦ (
        note_drop (codes "filter") n,
        if-true _ _ _ member,
        rw member (
            ap (λ (m : Node). m.sent) (note_drop-Alike (codes "filter") n)
            ∙ sym (append-nil n.sent)),
      )
      | inr outside ↦ elim (Bool-cases (should_forward_to_interlink env n t.payload)) [
        | inl passed ↦ (
          write_counted env interlink original n,
          rw (outside, passed, at, bound),
          rw (outside, passed) (write_counted-sent env interlink original n ok),
        )
        | inr stopped ↦ (
          note_drop (codes "filter") n,
          rw (outside, stopped),
          rw (outside, stopped)
              (ap (λ (m : Node). m.sent) (note_drop-Alike (codes "filter") n)
                ∙ sym (append-nil n.sent)),
        )
      ]
    ]

-- On an hsr-san node nothing goes to a second ring, and the rest is for the SAN.
deliver_hsr-san :
    (env : Env) (frame : Bytes) (t : Tag) (n : Node)
    → is_hsr_prp_coupling n ≡ false
    → is_hsr_hsr n ≡ false
    → deliver_hsr env frame t (forward_quad env frame n) ≡ deliver_san env frame t n
unfolding deliver_hsr forward_quad
deliver_hsr-san env frame t n single plain = rw (plain, single, plain)

-- At a node that is neither coupled to PRP nor to a second ring, a new frame that DecodeHSR takes
-- and that is not its own is handled without a crash, and two things leave, in this order. A copy
-- leaves by the other ring port, from which a receiver decodes the same tag but for the lane bit
-- of that port and strips the same frame. The frame without its tag goes to the SAN, unless it is
-- for a known member of the ring, its source counted in, or the filters, asked about the payload
-- behind the tag, stop it. The frame consists of bytes, the interlink is bound, and both ports
-- take the write.
pub handle_incoming_hsr_frame-to_san :
    (env : Env) (port : Port) (frame : Bytes) (t : Tag) (n : Node)
    → All IsByte frame
    → decode_hsr frame ≡ some t
    → is_own n frame ≡ false
    → find env.now n.dup_table (get_src_mac frame) t.seq ≡ false
    → is_hsr_prp_coupling n ≡ false
    → is_hsr_hsr n ≡ false
    → n.has_interlink ≡ true
    → env.write_ok (other_port port) ≡ true
    → env.write_ok interlink ≡ true
    → (original : Bytes) × (g : Bytes) × (m : Node) × (strip_hsr frame ≡ some original)
      × (decode_hsr g
          ≡ some
              (record t { path = t.path / 2 * 2 + (if is_lan_a (other_port port) then 0 else 1) }))
      × (strip_hsr g ≡ some original)
      × (handle_incoming_hsr_frame env port frame n ≡ done m)
      × (m.sent
          ≡ (n.sent ++ ((other_port port, g) ∷ []))
            ++ to_san env frame t original (learned env frame t n))
unfolding register learn_ring_member unicast_to_ring_member should_forward_to_interlink
    multicast_allowed is_known_san
handle_incoming_hsr_frame-to_san env port frame t n bytes at other fresh single plain bound ring_ok
      san_ok =
    goes_on env port frame t n (λ original. to_san env frame t original (learned env frame t n))
      bytes at other fresh ring_ok
      (λ original x stripped a.
        let (m, e, sent) =
          deliver_san_lem env frame t original x stripped
            (ap (λ (y : Node). y.has_interlink) a ∙ bound) san_ok in
        (
          m,
          deliver_hsr-san env frame t x (ap (λ y. is_hsr_prp_coupling y) a ∙ single)
                (ap (λ y. is_hsr_hsr y) a ∙ plain)
              ∙ e,
          sent ∙ ap (λ (y : Node). x.sent ++ to_san env frame t original y) a,
        ))

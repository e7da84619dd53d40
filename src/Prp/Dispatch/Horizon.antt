-- ===== src/Prp/Dispatch/Horizon.antt =====
-- internal/prp: no handler writes a frame to the port that it came from.
use prp_sim.Base.{
  inl, inr, Bool, if◌then◌else◌, Option-cases, Bytes, codes, Outcome, done, panics, ◌>>=◌,
}
use prp_sim.Engine.Rct.{Decoded, decode_rct}
use prp_sim.Prp.Node.{Port, lan_a, lan_b, interlink, Node, Env, note_drop, count_in}
use prp_sim.Prp.Lan.{
  handle_incoming_prp_frame, accept_prp, deliver_to_san, send_to_lans, handle_interlink_frame,
  passes_vlan_filter,
}
use prp_sim.Engine.Hsr.{Tag, decode_hsr, rewrite_hsr_path_lane, strip_hsr}
use prp_sim.Prp.Ring.{
  handle_incoming_hsr_frame, accept_hsr, deliver_hsr, deliver_coupled, deliver_san, coupling_to_prp,
  forward_ring, forward_quad, other_port, is_lan_a,
}
use prp_sim.Prp.Dispatch.Emits.{Emits, EmitsIf, crashed, emit_rules}

module _ (P : Port → Type 0) (to_san : P interlink) where
  accept_prp-Emits :
      (env : Env) (port : Port) (frame : Bytes) (d : Decoded) (n m : Node)
      → Emits P n m
      → Emits P n (accept_prp env port frame d m)
  unfolding accept_prp deliver_to_san
  accept_prp-Emits env port frame d n m e = search emit_rules depth 14

  pub handle_incoming_prp_frame-Emits :
      (env : Env) (port : Port) (frame : Bytes) (n : Node)
      → Emits P n (handle_incoming_prp_frame env port frame n)
  unfolding handle_incoming_prp_frame
  handle_incoming_prp_frame-Emits env port frame n = elim (Option-cases (decode_rct frame)) [
    | inl refused ↦ rw refused (search emit_rules depth 8)
    | inr (d, e) ↦ rw e (search (emit_rules, accept_prp-Emits) depth 8)
  ]

module _ (P : Port → Type 0) (to_a : P lan_a) (to_b : P lan_b) where
  send_to_lans-Emits :
      (env : Env) (frame : Bytes) (n m : Node) → Emits P n m → Emits P n (send_to_lans env frame m)
  unfolding send_to_lans
  send_to_lans-Emits env frame n m e = search emit_rules depth 14

  pub handle_interlink_frame-Emits :
      (env : Env) (frame : Bytes) (n : Node) → EmitsIf P n (handle_interlink_frame env frame n)
  unfolding handle_interlink_frame
  handle_interlink_frame-Emits env frame n = go (passes_vlan_filter n.config.vlan_filter frame)
    where
      go :
          (m : Outcome Bool)
          → EmitsIf P n (
              m >>= λ passed. done (
                if passed
                then send_to_lans env frame (count_in interlink n)
                else note_drop (codes "filter") (count_in interlink n)))
      go (done passed) = search (emit_rules, send_to_lans-Emits) depth 8
      go panics = crashed

module _ (P : Port → Type 0) (port : Port) (to_next : P (other_port port))
    (to_san : P interlink) where
  forward_ring-Emits :
      (env : Env) (frame : Bytes) (n m : Node)
      → Emits P n m
      → Emits P n (forward_ring env port frame m)
  unfolding forward_ring
  forward_ring-Emits env frame n m e =
      elim (Option-cases (rewrite_hsr_path_lane frame (is_lan_a (other_port port)))) [
        | inl refused ↦ rw (refused, forward_ring) e
        | inr (fwd, at) ↦ rw (at, forward_ring) (search emit_rules)
      ]

  forward_quad-Emits :
      (env : Env) (frame : Bytes) (n m : Node) → Emits P n m → Emits P n (forward_quad env frame m)
  unfolding forward_quad
  forward_quad-Emits env frame n m e = search emit_rules depth 8

  deliver_coupled-EmitsIf :
      (env : Env) (frame : Bytes) (t : Tag) (n m : Node)
      → Emits P n m
      → EmitsIf P n (deliver_coupled env frame t m)
  unfolding deliver_coupled coupling_to_prp
  deliver_coupled-EmitsIf env frame t n m e = elim (Option-cases (strip_hsr frame)) [
    | inl refused ↦ rw refused (search emit_rules depth 8)
    | inr (original, at) ↦ rw at (search emit_rules depth 8)
  ]

  deliver_san-EmitsIf :
      (env : Env) (frame : Bytes) (t : Tag) (n m : Node)
      → Emits P n m
      → EmitsIf P n (deliver_san env frame t m)
  unfolding deliver_san
  deliver_san-EmitsIf env frame t n m e = elim (Option-cases (strip_hsr frame)) [
    | inl refused ↦ rw refused (search emit_rules depth 8)
    | inr (original, at) ↦ rw at (search emit_rules depth 8)
  ]

  accept_hsr-EmitsIf :
      (env : Env) (frame : Bytes) (t : Tag) (n m : Node)
      → Emits P n m
      → EmitsIf P n (accept_hsr env port frame t m)
  unfolding accept_hsr deliver_hsr
  accept_hsr-EmitsIf env frame t n m e =
      search
        (
          emit_rules, deliver_coupled-EmitsIf, deliver_san-EmitsIf, forward_quad-Emits,
          forward_ring-Emits,
        )
        depth 14

  pub handle_incoming_hsr_frame-EmitsIf :
      (env : Env) (frame : Bytes) (n : Node)
      → EmitsIf P n (handle_incoming_hsr_frame env port frame n)
  unfolding handle_incoming_hsr_frame
  handle_incoming_hsr_frame-EmitsIf env frame n = elim (Option-cases (decode_hsr frame)) [
    | inl refused ↦ rw (refused, handle_incoming_hsr_frame) (search emit_rules)
    | inr (t, at) ↦ rw (at, handle_incoming_hsr_frame) (search (emit_rules, accept_hsr-EmitsIf))
  ]

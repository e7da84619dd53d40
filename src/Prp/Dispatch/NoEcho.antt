-- ===== src/Prp/Dispatch/NoEcho.antt =====
-- internal/prp: what comes from the interlink, and the whole of handleFrame.
use prp_sim.Base.{
  ℕ, ◌≡◌, refl, ◌∙◌, ◌≢◌, inl, inr, true, Option, none, some, List, ◌++◌, arith, ltb, Option-cases,
  length, All, Bytes, Text, lookup, Outcome, done, panics, ◌>>=◌,
}
use prp_sim.Engine.Ether.{get_src_mac}
use prp_sim.Engine.Hsr.{Tag, decode_hsr, rewrite_hsr_path}
use prp_sim.Supervision.{parse}
use prp_sim.Supervision
use prp_sim.Prp.Node.{register}
use prp_sim.Prp.Ring.{other_port}
use prp_sim.Prp.Ring.Inject.{
  handle_hsr_interlink_frame, inject, write_ring, handle_quad_frame, accept_quad, hsr_body,
  injection_path,
}
use prp_sim.Prp.Monitor.{
  handle_supervision_frame, note_supervision, flush_if_restarted, is_ring_port,
}
use prp_sim.Prp.Dispatch.{
  FrameEvent, relay_supervision, handle_data, consume_supervision, handle_frame,
}
use prp_sim.Engine.Rct.{decode_rct}
use prp_sim.Prp.Node.{Port, lan_a, lan_b, interlink, Node, Env, is_hsr_node}
use prp_sim.Prp.Dispatch.Emits.{
  emitted_result, Emits, emitted, EmitsIf, emits, crashed, emit_rules, sent-Emits, refl-Emits,
  if-EmitsIf,
}
use prp_sim.Prp.Dispatch.Horizon.{
  handle_incoming_prp_frame-Emits, handle_interlink_frame-Emits, handle_incoming_hsr_frame-EmitsIf,
}

module _ (P : Port → Type 0) (to_a : P lan_a) (to_b : P lan_b) where
  write_ring-Emits :
      (env : Env) (body : Bytes) (n m : Node) → Emits P n m → Emits P n (write_ring env body m)
  unfolding write_ring
  write_ring-Emits env body n m e = search emit_rules

  accept_quad-Emits :
      (env : Env) (frame : Bytes) (t : Tag) (n m : Node)
      → Emits P n m
      → Emits P n (accept_quad env frame t m)
  unfolding accept_quad
  accept_quad-Emits env frame t n m e = elim (Option-cases (rewrite_hsr_path frame 0)) [
    | inl refused ↦ rw refused (search emit_rules depth 8)
    | inr (fwd, at) ↦ rw at (search (emit_rules, write_ring-Emits) depth 8)
  ]

  handle_quad_frame-Emits :
      (env : Env) (frame : Bytes) (n m : Node)
      → Emits P n m
      → Emits P n (handle_quad_frame env frame m)
  unfolding handle_quad_frame
  handle_quad_frame-Emits env frame n m e = elim (Option-cases (decode_hsr frame)) [
    | inl refused ↦ rw (refused, handle_quad_frame) (search emit_rules)
    | inr (t, at) ↦ rw (at, handle_quad_frame) (search (emit_rules, accept_quad-Emits))
  ]

  inject-EmitsIf :
      (env : Env) (frame : Bytes) (seq : ℕ) (n m : Node)
      → Emits P n m
      → EmitsIf P n (inject env frame seq m)
  unfolding inject
  inject-EmitsIf env frame seq n m e = go (hsr_body frame (injection_path m) seq)
    where
      go :
          (b : Outcome Bytes)
          → EmitsIf P n
              (b >>= λ body. done (write_ring env body (register env (get_src_mac frame) seq 0 m)))
      go (done body) = search (emit_rules, write_ring-Emits) depth 8
      go panics = crashed

  handle_hsr_interlink_frame-EmitsIf :
      (env : Env) (frame : Bytes) (n : Node) → EmitsIf P n (handle_hsr_interlink_frame env frame n)
  unfolding handle_hsr_interlink_frame
  handle_hsr_interlink_frame-EmitsIf env frame n = elim (Option-cases (decode_rct frame)) [
    | inl refused ↦
        rw refused (search (emit_rules, handle_quad_frame-Emits, inject-EmitsIf) depth 8)
    | inr (d, at) ↦ rw at (search (emit_rules, handle_quad_frame-Emits, inject-EmitsIf) depth 8)
  ]

  relay_ring-Emits :
      (env : Env) (frame : Bytes) (n m : Node)
      → Emits P n m
      → Emits P n (relay_supervision env interlink frame m)
  unfolding relay_supervision
  relay_ring-Emits env frame n m e = search emit_rules depth 8

relay_interlink-Emits :
    (P : Port → Type 0) (env : Env) (port : Port) (frame : Bytes) (n m : Node)
    → P interlink
    → is_ring_port port ≡ true
    → Emits P n m
    → Emits P n (relay_supervision env port frame m)
unfolding relay_supervision
relay_interlink-Emits P env lan_a frame n m to_san h e = search emit_rules depth 8
relay_interlink-Emits P env lan_b frame n m to_san h e = search emit_rules depth 8
relay_interlink-Emits P env interlink frame n m to_san h e = cc

flush_if_restarted-sent :
    (mac : Text) (seq : ℕ) (n : Node) → (flush_if_restarted mac seq n).sent ≡ n.sent
unfolding flush_if_restarted
flush_if_restarted-sent mac seq n = elim (Option-cases (lookup mac n.supervision_seqs)) [
  | inl fresh ↦ rw (fresh, flush_if_restarted)
  | inr (last, e) ↦ rw (e, flush_if_restarted) (ground arith)
]

pub note_supervision-sent :
    (env : Env) (port : Port) (sup : Supervision.Frame) (n : Node)
    → (note_supervision env port sup n).sent ≡ n.sent
unfolding note_supervision
note_supervision-sent env port sup n = flush_if_restarted-sent sup.src_mac sup.seq _ ∙ ground arith

handle_supervision_frame-EmitsIf :
    (P : Port → Type 0) (env : Env) (port : Port) (frame : Bytes) (n : Node)
    → EmitsIf P n (handle_supervision_frame env port frame n)
unfolding handle_supervision_frame
handle_supervision_frame-EmitsIf P env port frame n = go (parse frame)
  where
    go :
        (m : Outcome (Option Supervision.Frame))
        → EmitsIf P n (
            m >>= λ sup.
            done (elim sup as (λ _. Node) [ none ↦ n | some s ↦ note_supervision env port s n ]))
    go (done none) = emits (refl-Emits P n)
    go (done (some s)) =
        emits (sent-Emits P n n _ (note_supervision-sent env port s n) (refl-Emits P n))
    go panics = crashed

bind-EmitsIf :
    (P : Port → Type 0) (n : Node) (m : Outcome Node) (f : Node → Outcome Node)
    → EmitsIf P n m
    → ((k : Node) → Emits P n k → EmitsIf P n (f k))
    → EmitsIf P n (m >>= f)
bind-EmitsIf P n (done k) f (emits e) h = h k e
bind-EmitsIf P n panics f c h = crashed

-- A ring port hands on what it does not consume, and so does the interlink.
handle_data-EmitsIf :
    (env : Env) (port : Port) (frame : Bytes) (n : Node)
    → EmitsIf (λ p. p ≢ port) n (handle_data env port frame n)
unfolding handle_data other_port
handle_data-EmitsIf env lan_a frame n =
    if-EmitsIf _ (is_hsr_node n) n _ _
      (handle_incoming_hsr_frame-EmitsIf _ lan_a (λ e. cc) (λ e. cc) env frame n)
      (emits (handle_incoming_prp_frame-Emits _ (λ e. cc) env lan_a frame n))
handle_data-EmitsIf env lan_b frame n =
    if-EmitsIf _ (is_hsr_node n) n _ _
      (handle_incoming_hsr_frame-EmitsIf _ lan_b (λ e. cc) (λ e. cc) env frame n)
      (emits (handle_incoming_prp_frame-Emits _ (λ e. cc) env lan_b frame n))
handle_data-EmitsIf env interlink frame n =
    if-EmitsIf _ (is_hsr_node n) n _ _
      (handle_hsr_interlink_frame-EmitsIf _ (λ e. cc) (λ e. cc) env frame n)
      (handle_interlink_frame-Emits _ (λ e. cc) (λ e. cc) env frame n)

relay_supervision-Emits :
    (env : Env) (port : Port) (frame : Bytes) (n m : Node)
    → Emits (λ p. p ≢ port) n m
    → Emits (λ p. p ≢ port) n (relay_supervision env port frame m)
relay_supervision-Emits env lan_a frame n m e =
    relay_interlink-Emits _ env lan_a frame n m (λ e. cc) refl e
relay_supervision-Emits env lan_b frame n m e =
    relay_interlink-Emits _ env lan_b frame n m (λ e. cc) refl e
relay_supervision-Emits env interlink frame n m e =
    relay_ring-Emits _ (λ e. cc) (λ e. cc) env frame n m e

handle_frame-EmitsIf :
    (env : Env) (event : FrameEvent) (n : Node)
    → EmitsIf (λ p. p ≢ event.iface) n (handle_frame env event n)
unfolding handle_frame consume_supervision
handle_frame-EmitsIf env event n =
    if-EmitsIf _ (ltb (length event.frame) 14) n _ _ (emits (refl-Emits _ n)) (
      if-EmitsIf _ _ n _ _
        (bind-EmitsIf _ n _ _ (handle_supervision_frame-EmitsIf _ env event.iface event.frame n)
          (λ k e. emits (relay_supervision-Emits env event.iface event.frame n k e)))
        (handle_data-EmitsIf env event.iface event.frame n))

-- Whatever a node does with a frame, in any role, data or supervision, if the handler returns: the
-- frames that it sends because of it leave by other ports than the one that the frame came in by.
pub no_echo :
    (env : Env) (event : FrameEvent) (n m : Node)
    → handle_frame env event n ≡ done m
    → (out : List (Port × Bytes)) × (m.sent ≡ n.sent ++ out)
      × All (λ (e : Port × Bytes). e.0 ≢ event.iface) out
no_echo env event n m at = conclude (emitted_result _ n m _ (handle_frame-EmitsIf env event n) at)
  where
    conclude :
        Emits (λ p. p ≢ event.iface) n m
        → (out : List (Port × Bytes)) × (m.sent ≡ n.sent ++ out)
          × All (λ (e : Port × Bytes). e.0 ≢ event.iface) out
    conclude (emitted out s a) = (out, s, a)

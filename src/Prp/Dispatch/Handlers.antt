-- ===== src/Prp/Dispatch/Handlers.antt =====
-- Every handler keeps the duplicate table well formed.
use prp_sim.Base.{
  ℕ, inl, inr, Bool, if◌then◌else◌, Option-cases, Bytes, codes, Outcome, done, panics, ◌>>=◌,
}
use prp_sim.Engine.Ether.{get_src_mac}
use prp_sim.Engine.Rct.{Decoded, decode_rct}
use prp_sim.Engine.Hsr.{Tag, decode_hsr, rewrite_hsr_path, rewrite_hsr_path_lane, strip_hsr}
use prp_sim.Nodetable.Oldest.{IsOrder}
use prp_sim.Prp.Node.{note_drop, register, Port, interlink, Node, Env, count_in}
use prp_sim.Prp.Lan.{
  handle_incoming_prp_frame, handle_interlink_frame, accept_prp, send_to_lans, passes_vlan_filter,
}
use prp_sim.Prp.Ring.{
  handle_incoming_hsr_frame, accept_hsr, deliver_hsr, deliver_coupled, deliver_san, coupling_to_prp,
  forward_ring, forward_quad, other_port, is_lan_a,
}
use prp_sim.Prp.Ring.Inject.{
  handle_hsr_interlink_frame, inject, write_ring, handle_quad_frame, accept_quad, hsr_body,
  injection_path,
}
use prp_sim.Prp.Dispatch.Invariant.{crashed, IsValid, IsSafe, table_rules}

accept_prp-IsValid :
    (env : Env) (port : Port) (frame : Bytes) (d : Decoded) (n : Node)
    → IsOrder env.order
    → IsValid n
    → IsValid (accept_prp env port frame d n)
unfolding accept_prp
accept_prp-IsValid env port frame d n o v = search table_rules depth 12

pub handle_incoming_prp_frame-IsValid :
    (env : Env) (port : Port) (frame : Bytes) (n : Node)
    → IsOrder env.order
    → IsValid n
    → IsValid (handle_incoming_prp_frame env port frame n)
unfolding handle_incoming_prp_frame
handle_incoming_prp_frame-IsValid env port frame n o v = elim (Option-cases (decode_rct frame)) [
  | inl refused ↦ rw refused (search table_rules)
  | inr (d, e) ↦ rw e (search (table_rules, accept_prp-IsValid))
]

send_to_lans-IsValid :
    (env : Env) (frame : Bytes) (n : Node) → IsValid n → IsValid (send_to_lans env frame n)
unfolding send_to_lans
send_to_lans-IsValid env frame n v = search table_rules depth 12

pub handle_interlink_frame-IsSafe :
    (env : Env) (frame : Bytes) (n : Node) → IsValid n → IsSafe (handle_interlink_frame env frame n)
unfolding handle_interlink_frame
handle_interlink_frame-IsSafe env frame n v = go (passes_vlan_filter n.config.vlan_filter frame)
  where
    go :
        (m : Outcome Bool)
        → IsSafe (
            m >>= λ passed. done (
              if passed
              then send_to_lans env frame (count_in interlink n)
              else note_drop (codes "filter") (count_in interlink n)))
    go (done passed) = search (table_rules, send_to_lans-IsValid) depth 8
    go panics = crashed

forward_ring-IsValid :
    (env : Env) (port : Port) (frame : Bytes) (n : Node)
    → IsValid n
    → IsValid (forward_ring env port frame n)
unfolding forward_ring
forward_ring-IsValid env port frame n v =
    elim (Option-cases (rewrite_hsr_path_lane frame (is_lan_a (other_port port)))) [
      | inl refused ↦ rw (refused, forward_ring) v
      | inr (fwd, e) ↦ rw (e, forward_ring) (search table_rules)
    ]

forward_quad-IsValid :
    (env : Env) (frame : Bytes) (n : Node) → IsValid n → IsValid (forward_quad env frame n)
unfolding forward_quad
forward_quad-IsValid env frame n v = search table_rules depth 8

deliver_coupled-IsSafe :
    (env : Env) (frame : Bytes) (t : Tag) (n : Node)
    → IsValid n
    → IsSafe (deliver_coupled env frame t n)
unfolding deliver_coupled coupling_to_prp
deliver_coupled-IsSafe env frame t n v = elim (Option-cases (strip_hsr frame)) [
  | inl refused ↦ rw refused (search table_rules depth 8)
  | inr (original, e) ↦ rw e (search table_rules depth 8)
]

deliver_san-IsSafe :
    (env : Env) (frame : Bytes) (t : Tag) (n : Node)
    → IsValid n
    → IsSafe (deliver_san env frame t n)
unfolding deliver_san
deliver_san-IsSafe env frame t n v = elim (Option-cases (strip_hsr frame)) [
  | inl refused ↦ rw refused (search table_rules depth 8)
  | inr (original, e) ↦ rw e (search table_rules depth 8)
]

deliver_hsr-IsSafe :
    (env : Env) (frame : Bytes) (t : Tag) (n : Node)
    → IsValid n
    → IsSafe (deliver_hsr env frame t n)
unfolding deliver_hsr
deliver_hsr-IsSafe env frame t n v =
    search (table_rules, deliver_coupled-IsSafe, deliver_san-IsSafe) depth 8

accept_hsr-IsSafe :
    (env : Env) (port : Port) (frame : Bytes) (t : Tag) (n : Node)
    → IsOrder env.order
    → IsValid n
    → IsSafe (accept_hsr env port frame t n)
unfolding accept_hsr
accept_hsr-IsSafe env port frame t n o v =
    search (table_rules, deliver_hsr-IsSafe, forward_quad-IsValid, forward_ring-IsValid) depth 12

pub handle_incoming_hsr_frame-IsSafe :
    (env : Env) (port : Port) (frame : Bytes) (n : Node)
    → IsOrder env.order
    → IsValid n
    → IsSafe (handle_incoming_hsr_frame env port frame n)
unfolding handle_incoming_hsr_frame
handle_incoming_hsr_frame-IsSafe env port frame n o v = elim (Option-cases (decode_hsr frame)) [
  | inl refused ↦ rw (refused, handle_incoming_hsr_frame) (search table_rules)
  | inr (t, e) ↦ rw (e, handle_incoming_hsr_frame) (search (table_rules, accept_hsr-IsSafe))
]

write_ring-IsValid :
    (env : Env) (body : Bytes) (n : Node) → IsValid n → IsValid (write_ring env body n)
unfolding write_ring
write_ring-IsValid env body n v = search table_rules

accept_quad-IsValid :
    (env : Env) (frame : Bytes) (t : Tag) (n : Node)
    → IsOrder env.order
    → IsValid n
    → IsValid (accept_quad env frame t n)
unfolding accept_quad
accept_quad-IsValid env frame t n o v = elim (Option-cases (rewrite_hsr_path frame 0)) [
  | inl refused ↦ rw refused (search table_rules depth 8)
  | inr (fwd, e) ↦ rw e (search (table_rules, write_ring-IsValid) depth 8)
]

handle_quad_frame-IsValid :
    (env : Env) (frame : Bytes) (n : Node)
    → IsOrder env.order
    → IsValid n
    → IsValid (handle_quad_frame env frame n)
unfolding handle_quad_frame
handle_quad_frame-IsValid env frame n o v = elim (Option-cases (decode_hsr frame)) [
  | inl refused ↦ rw (refused, handle_quad_frame) (search table_rules)
  | inr (t, e) ↦ rw (e, handle_quad_frame) (search (table_rules, accept_quad-IsValid))
]

inject-IsSafe :
    (env : Env) (frame : Bytes) (seq : ℕ) (n : Node)
    → IsOrder env.order
    → IsValid n
    → IsSafe (inject env frame seq n)
unfolding inject
inject-IsSafe env frame seq n o v = go (hsr_body frame (injection_path n) seq)
  where
    go :
        (m : Outcome Bytes)
        → IsSafe
            (m >>= λ body. done (write_ring env body (register env (get_src_mac frame) seq 0 n)))
    go (done body) = search (table_rules, write_ring-IsValid) depth 8
    go panics = crashed

pub handle_hsr_interlink_frame-IsSafe :
    (env : Env) (frame : Bytes) (n : Node)
    → IsOrder env.order
    → IsValid n
    → IsSafe (handle_hsr_interlink_frame env frame n)
unfolding handle_hsr_interlink_frame
handle_hsr_interlink_frame-IsSafe env frame n o v = elim (Option-cases (decode_rct frame)) [
  | inl refused ↦
      rw refused (search (table_rules, handle_quad_frame-IsValid, inject-IsSafe) depth 8)
  | inr (d, e) ↦ rw e (search (table_rules, handle_quad_frame-IsValid, inject-IsSafe) depth 8)
]

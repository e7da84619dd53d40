-- ===== src/Prp/Dispatch/Total.antt =====
-- internal/prp: on a node with an interlink, no handler crashes on a frame of 26 bytes or more.
use prp_sim.Base.{
  panics, if-true, if-false, ℕ, ◌≤◌, ◌≡◌, refl, ◌∙◌, inl, inr, Bool, true, false, ◌&&◌, List, [],
  ◌∷◌, arith, ltb, le→ltb, Bool-cases, Option-cases, length, Bytes, u16_at, low_bits, done, panics,
}
use prp_sim.Engine.Ether.{is_vlan_frame, get_vlan_id}
use prp_sim.Engine.Rct.{Decoded, decode_rct}
use prp_sim.Engine.Hsr.{Tag, decode_hsr, rewrite_hsr_path, rewrite_hsr_path_lane, strip_hsr}
use prp_sim.Prp.Node.{Port, Node, Env}
use prp_sim.Prp.Lan.{
  contains_int, handle_incoming_prp_frame, handle_interlink_frame, accept_prp, send_to_lans,
  passes_vlan_filter,
}
use prp_sim.Prp.Ring.{
  handle_incoming_hsr_frame, accept_hsr, deliver_hsr, deliver_coupled, deliver_san, coupling_to_prp,
  forward_ring, forward_quad, other_port, is_lan_a,
}
use prp_sim.Prp.Ring.Inject.{
  handle_hsr_interlink_frame, inject, write_ring, handle_quad_frame, accept_quad, hsr_body,
  injection_path,
}
use prp_sim.Prp.Dispatch.Links.{IsBound, Returns, link_rules}

get_vlan_id-done :
    (frame : Bytes) → 26 ≤ length frame → (result : ℕ × Bool) × (get_vlan_id frame ≡ done result)
unfolding get_vlan_id
get_vlan_id-done frame h = elim (Bool-cases (is_vlan_frame frame)) [
  | inl vlan ↦ (
    (low_bits (u16_at frame 14) 12, true),
    if-true (is_vlan_frame frame) _ (done (0, false)) vlan
        ∙ if-false (ltb (length frame) 16) panics _ (le→ltb (length frame) 16 (omega arith)),
  )
  | inr plain ↦ ((0, false), if-false (is_vlan_frame frame) _ (done (0, false)) plain)
]

accept_prp-IsBound :
    (env : Env) (port : Port) (frame : Bytes) (d : Decoded) (n : Node)
    → IsBound n
    → IsBound (accept_prp env port frame d n)
unfolding accept_prp
accept_prp-IsBound env port frame d n v = search link_rules depth 12

pub handle_incoming_prp_frame-IsBound :
    (env : Env) (port : Port) (frame : Bytes) (n : Node)
    → IsBound n
    → IsBound (handle_incoming_prp_frame env port frame n)
unfolding handle_incoming_prp_frame
handle_incoming_prp_frame-IsBound env port frame n v = elim (Option-cases (decode_rct frame)) [
  | inl refused ↦ rw refused (search link_rules)
  | inr (d, e) ↦ rw e (search (link_rules, accept_prp-IsBound))
]

send_to_lans-IsBound :
    (env : Env) (frame : Bytes) (n : Node) → IsBound n → IsBound (send_to_lans env frame n)
unfolding send_to_lans
send_to_lans-IsBound env frame n v = search link_rules depth 12

passes_vlan_filter-done :
    (filter : List ℕ) (frame : Bytes)
    → 26 ≤ length frame
    → (passed : Bool) × (passes_vlan_filter filter frame ≡ done passed)
unfolding passes_vlan_filter
passes_vlan_filter-done [] frame h = (true, refl)
passes_vlan_filter-done (v ∷ vs) frame h =
    let (result, e) = get_vlan_id-done frame h in (result.1 && contains_int (v ∷ vs) result.0, rw e)

pub handle_interlink_frame-Returns :
    (env : Env) (frame : Bytes) (n : Node)
    → 26 ≤ length frame
    → IsBound n
    → Returns (handle_interlink_frame env frame n)
unfolding handle_interlink_frame
handle_interlink_frame-Returns env frame n h v =
    let (passed, e) = passes_vlan_filter-done n.config.vlan_filter frame h in
    rw e (search (link_rules, send_to_lans-IsBound) depth 8)

forward_ring-IsBound :
    (env : Env) (port : Port) (frame : Bytes) (n : Node)
    → IsBound n
    → IsBound (forward_ring env port frame n)
unfolding forward_ring
forward_ring-IsBound env port frame n v =
    elim (Option-cases (rewrite_hsr_path_lane frame (is_lan_a (other_port port)))) [
      | inl refused ↦ rw (refused, forward_ring) v
      | inr (fwd, e) ↦ rw (e, forward_ring) (search link_rules)
    ]

forward_quad-IsBound :
    (env : Env) (frame : Bytes) (n : Node) → IsBound n → IsBound (forward_quad env frame n)
unfolding forward_quad
forward_quad-IsBound env frame n v = search link_rules depth 8

deliver_coupled-Returns :
    (env : Env) (frame : Bytes) (t : Tag) (n : Node)
    → IsBound n
    → Returns (deliver_coupled env frame t n)
unfolding deliver_coupled coupling_to_prp
deliver_coupled-Returns env frame t n v = elim (Option-cases (strip_hsr frame)) [
  | inl refused ↦ rw refused (search link_rules depth 8)
  | inr (original, e) ↦ rw e (search link_rules depth 8)
]

deliver_san-Returns :
    (env : Env) (frame : Bytes) (t : Tag) (n : Node)
    → IsBound n
    → Returns (deliver_san env frame t n)
unfolding deliver_san
deliver_san-Returns env frame t n v = elim (Option-cases (strip_hsr frame)) [
  | inl refused ↦ rw refused (search link_rules depth 8)
  | inr (original, e) ↦ rw e (search link_rules depth 8)
]

deliver_hsr-Returns :
    (env : Env) (frame : Bytes) (t : Tag) (n : Node)
    → IsBound n
    → Returns (deliver_hsr env frame t n)
unfolding deliver_hsr
deliver_hsr-Returns env frame t n v =
    search (link_rules, deliver_coupled-Returns, deliver_san-Returns) depth 8

accept_hsr-Returns :
    (env : Env) (port : Port) (frame : Bytes) (t : Tag) (n : Node)
    → IsBound n
    → Returns (accept_hsr env port frame t n)
unfolding accept_hsr
accept_hsr-Returns env port frame t n v =
    search (link_rules, deliver_hsr-Returns, forward_quad-IsBound, forward_ring-IsBound) depth 12

pub handle_incoming_hsr_frame-Returns :
    (env : Env) (port : Port) (frame : Bytes) (n : Node)
    → IsBound n
    → Returns (handle_incoming_hsr_frame env port frame n)
unfolding handle_incoming_hsr_frame
handle_incoming_hsr_frame-Returns env port frame n v = elim (Option-cases (decode_hsr frame)) [
  | inl refused ↦ rw (refused, handle_incoming_hsr_frame) (search link_rules)
  | inr (t, e) ↦ rw (e, handle_incoming_hsr_frame) (search (link_rules, accept_hsr-Returns))
]

write_ring-IsBound :
    (env : Env) (body : Bytes) (n : Node) → IsBound n → IsBound (write_ring env body n)
unfolding write_ring
write_ring-IsBound env body n v = search link_rules

accept_quad-IsBound :
    (env : Env) (frame : Bytes) (t : Tag) (n : Node)
    → IsBound n
    → IsBound (accept_quad env frame t n)
unfolding accept_quad
accept_quad-IsBound env frame t n v = elim (Option-cases (rewrite_hsr_path frame 0)) [
  | inl refused ↦ rw refused (search link_rules depth 8)
  | inr (fwd, e) ↦ rw e (search (link_rules, write_ring-IsBound) depth 8)
]

handle_quad_frame-IsBound :
    (env : Env) (frame : Bytes) (n : Node) → IsBound n → IsBound (handle_quad_frame env frame n)
unfolding handle_quad_frame
handle_quad_frame-IsBound env frame n v = elim (Option-cases (decode_hsr frame)) [
  | inl refused ↦ rw (refused, handle_quad_frame) (search link_rules)
  | inr (t, e) ↦ rw (e, handle_quad_frame) (search (link_rules, accept_quad-IsBound))
]

hsr_body-done :
    (frame : Bytes) (path seq : ℕ)
    → 26 ≤ length frame
    → (body : Bytes) × (hsr_body frame path seq ≡ done body)
unfolding hsr_body
hsr_body-done frame path seq h = elim (Bool-cases (is_vlan_frame frame)) [
  | inl vlan ↦ (
    _,
    if-true (is_vlan_frame frame) _ _ vlan
        ∙ if-false (ltb (length frame) 18) panics _ (le→ltb (length frame) 18 (omega arith)),
  )
  | inr plain ↦ (
    _,
    if-false (is_vlan_frame frame) _ _ plain
        ∙ if-false (ltb (length frame) 14) panics _ (le→ltb (length frame) 14 (omega arith)),
  )
]

inject-Returns :
    (env : Env) (frame : Bytes) (seq : ℕ) (n : Node)
    → 26 ≤ length frame
    → IsBound n
    → Returns (inject env frame seq n)
unfolding inject
inject-Returns env frame seq n h v =
    let (body, e) = hsr_body-done frame (injection_path n) seq h in
    rw e (search (link_rules, write_ring-IsBound) depth 8)

pub handle_hsr_interlink_frame-Returns :
    (env : Env) (frame : Bytes) (n : Node)
    → 26 ≤ length frame
    → IsBound n
    → Returns (handle_hsr_interlink_frame env frame n)
unfolding handle_hsr_interlink_frame
handle_hsr_interlink_frame-Returns env frame n h v = elim (Option-cases (decode_rct frame)) [
  | inl refused ↦
      rw refused (search (link_rules, handle_quad_frame-IsBound, inject-Returns) depth 8)
  | inr (d, e) ↦ rw e (search (link_rules, handle_quad_frame-IsBound, inject-Returns) depth 8)
]

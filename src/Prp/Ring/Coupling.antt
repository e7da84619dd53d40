-- ===== src/Prp/Ring/Coupling.antt =====
-- internal/prp/hsr.go: the PathId rule of an hsr-prp node.
use prp_sim.Base.{
  ◌≡◌, refl, sym, ap, ◌∙◌, inl, inr, true, false, ◌&&◌, Option, none, some, List, ◌++◌, ltb, ◌==◌,
  if◌then◌else◌, eq→==, Option-cases, All, Bytes, codes, shr, done,
}
use prp_sim.Engine.Ether.{get_src_mac}
use prp_sim.Engine.Hsr.{Tag, decode_hsr, rewrite_hsr_path_lane}
use prp_sim.Prp.Role.{Role, RoleInfo, hsr_san, hsr_prp, hsr_hsr, prp_san, info_for, parse_role}
use prp_sim.Nodetable.{find}
use prp_sim.Prp.Node.{
  Port, Node, Env, Config, role_info, is_hsr_prp_coupling, net_id, register, learn_ring_member,
  is_own, count_in,
}
use prp_sim.Prp.Effects.{count_in-Alike, write_counted-Alike}
use prp_sim.Prp.Ring.{
  handle_incoming_hsr_frame, accept_hsr, deliver_hsr, deliver_coupled, forward_ring, forward_quad,
  other_port, is_lan_a,
}
use prp_sim.Prp.Dispatch.Emits.{
  Emits, emitted, EmitsIf, emits, emit_rules, note_drop-Emits, count_in-Emits, register-Emits,
  learn_ring_member-Emits, emitted_result, refl-Emits, if-EmitsIf,
}

-- The node couples its ring to a PRP network, and the tag names that network as its origin.
abbrev pub IsSameNet : Node → Tag → Type 0
IsSameNet n t = (is_hsr_prp_coupling n ≡ true) × ((shr t.path 1 == net_id n) ≡ true)

coupled-not_quad :
    (c : Config) → (role_info c).coupled_to_prp ≡ true → (role_info c).interlink_is_hsr ≡ false
unfolding role_info info_for
coupled-not_quad c = go (parse_role c.role)
  where
    go :
        (r : Option Role)
        → (elim r as (λ _. RoleInfo) [
          | none ↦ info_for prp_san
          | some x ↦ info_for x
        ]).coupled_to_prp
          ≡ true
        → (elim r as (λ _. RoleInfo) [
          | none ↦ info_for prp_san
          | some x ↦ info_for x
        ]).interlink_is_hsr
          ≡ false
    go none e = refl
    go (some prp_san) e = refl
    go (some hsr_san) e = refl
    go (some hsr_prp) e = refl
    go (some hsr_hsr) e = cc

IsSameNet-config : (n m : Node) (t : Tag) → m.config ≡ n.config → IsSameNet n t → IsSameNet m t
unfolding net_id
IsSameNet-config n m t e (coupled, same) = (
  ap (λ c. (role_info c).coupled_to_prp) e ∙ coupled,
  ap
        (λ (c : Config).
          shr t.path 1 == (if (role_info c).coupled_to_prp && ltb 0 c.net_id then c.net_id else 1))
        e
      ∙ same,
)

forward_ring-config :
    (env : Env) (port : Port) (frame : Bytes) (n : Node)
    → (forward_ring env port frame n).config ≡ n.config
unfolding forward_ring
forward_ring-config env port frame n =
    elim (Option-cases (rewrite_hsr_path_lane frame (is_lan_a (other_port port)))) [
      | inl refused ↦ rw (refused, forward_ring)
      | inr (fwd, e) ↦
          rw (e, forward_ring)
            (ap (λ (m : Node). m.config) (write_counted-Alike env (other_port port) fwd n))
    ]

module _ (P : Port → Type 0) (port : Port) (to_next : P (other_port port)) where
  ring-Emits :
      (env : Env) (frame : Bytes) (n m : Node)
      → Emits P n m
      → Emits P n (forward_ring env port frame m)
  unfolding forward_ring
  ring-Emits env frame n m e =
      elim (Option-cases (rewrite_hsr_path_lane frame (is_lan_a (other_port port)))) [
        | inl refused ↦ rw (refused, forward_ring) e
        | inr (fwd, at) ↦ rw (at, forward_ring) (search emit_rules)
      ]

  deliver-EmitsIf :
      (env : Env) (frame : Bytes) (t : Tag) (n m : Node)
      → IsSameNet m t
      → Emits P n m
      → EmitsIf P n (deliver_hsr env frame t (forward_quad env frame m))
  unfolding deliver_hsr deliver_coupled forward_quad
  deliver-EmitsIf env frame t n m (coupled, same) e =
      rw (coupled-not_quad m.config coupled, coupled, same)
        (if-EmitsIf _ _ n _ _ (emits (note_drop-Emits P (codes "own") n m e))
          (emits (note_drop-Emits P (codes "path") n m e)))

  accept-EmitsIf :
      (env : Env) (frame : Bytes) (t : Tag) (n m : Node)
      → IsSameNet m t
      → Emits P n m
      → EmitsIf P n (accept_hsr env port frame t m)
  unfolding accept_hsr learn_ring_member
  accept-EmitsIf env frame t n m same e =
      let src = get_src_mac frame in
      let m1 = learn_ring_member env src (register env src t.seq 0 m) in
      if-EmitsIf P (is_own m frame) n _ _ (emits (note_drop-Emits P (codes "own") n m e)) (
        if-EmitsIf P (find env.now m.dup_table src t.seq) n _ _
          (emits (note_drop-Emits P (codes "dup") n m e))
          (deliver-EmitsIf env frame t n (forward_ring env port frame m1)
            (IsSameNet-config m _ t (forward_ring-config env port frame m1 ∙ learned) same)
            (ring-Emits env frame n m1
              (learn_ring_member-Emits P env src n _ (register-Emits P env src t.seq 0 n m e)))))
    where
      learned :
          (learn_ring_member env
            (get_src_mac frame)
            (register env (get_src_mac frame) t.seq 0 m)).config
          ≡ m.config
      learned = unfold register in refl

-- A frame on the ring whose tag DecodeHSR takes and names this network, and whose handling
-- returns: an hsr-prp node of the network hands it on to the other ring port at most. Nothing
-- reaches the PRP LAN that the frame came from.
pub no_reinjection :
    (env : Env) (port : Port) (frame : Bytes) (t : Tag) (n m : Node)
    → is_hsr_prp_coupling n ≡ true
    → decode_hsr frame ≡ some t
    → shr t.path 1 ≡ net_id n
    → handle_incoming_hsr_frame env port frame n ≡ done m
    → (out : List (Port × Bytes)) × (m.sent ≡ n.sent ++ out)
      × All (λ (e : Port × Bytes). e.0 ≡ other_port port) out
unfolding handle_incoming_hsr_frame
no_reinjection env port frame t n m coupled at same e = conclude (
    emitted_result P n m (accept_hsr env port frame t n')
      (accept-EmitsIf P port refl env frame t n n'
        (IsSameNet-config n n' t (ap (λ (x : Node). x.config) (count_in-Alike port n))
          (coupled, eq→== _ _ same))
        (count_in-Emits P port n n (refl-Emits P n)))
      (sym handled ∙ e))
  where
    P : Port → Type 0
    P p = p ≡ other_port port

    n' : Node
    n' = count_in port n

    handled : handle_incoming_hsr_frame env port frame n ≡ accept_hsr env port frame t n'
    handled = rw (at, handle_incoming_hsr_frame)

    conclude :
        Emits (λ p. p ≡ other_port port) n m
        → (out : List (Port × Bytes)) × (m.sent ≡ n.sent ++ out)
          × All (λ (e : Port × Bytes). e.0 ≡ other_port port) out
    conclude (emitted out s a) = (out, s, a)

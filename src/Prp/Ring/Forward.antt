-- ===== src/Prp/Ring/Forward.antt =====
-- internal/prp/hsr.go, handleIncomingHSRFrame: a new frame goes on around the ring.
use prp_sim.Base.{
  if-true, if-false, ◌+◌, ◌*◌, ◌/◌, ◌≡◌, sym, ap, ◌∙◌, subst, true, false, some, List, [], ◌∷◌,
  ◌++◌, if◌then◌else◌, All, Bytes, IsByte, codes, done,
}
use prp_sim.Engine.Ether.{get_src_mac}
use prp_sim.Engine.Hsr.{Tag, decode_hsr, rewrite_hsr_path_lane, strip_hsr}
use prp_sim.Engine.Hsr.Rewrite.{rewrite_hsr_path_lane_lem, strip_hsr-some}
use prp_sim.Nodetable.{find}
use prp_sim.Prp.Node.{
  Port, Node, Env, note_drop, count_in, write_counted, register, is_own, learn_ring_member,
  entry_forget_ms,
}
use prp_sim.Prp.Effects.{Alike, count_in-Alike, write_counted-Alike, is_own-Alike}
use prp_sim.Prp.Ring.Once.{handled}
use prp_sim.Prp.Ring.{
  handle_incoming_hsr_frame, accept_hsr, deliver_hsr, forward_ring, forward_quad, other_port,
  is_lan_a,
}

forward_ring-Alike :
    (env : Env) (port : Port) (frame g : Bytes) (n : Node)
    → rewrite_hsr_path_lane frame (is_lan_a (other_port port)) ≡ some g
    → env.write_ok (other_port port) ≡ true
    → Alike
        (record n { sent = n.sent ++ ((other_port port, g) ∷ []) })
        (forward_ring env port frame n)
unfolding forward_ring
forward_ring-Alike env port frame g n e ok =
    rw (e, forward_ring)
      (subst (λ x. Alike (record n { sent = x }) (write_counted env (other_port port) g n))
        (if-true _ _ _ ok) (write_counted-Alike env (other_port port) g n))

-- A node that has noted a new frame from the ring.
abbrev pub learned : Env → Bytes → Tag → Node → Node
learned env frame t n =
    learn_ring_member env (get_src_mac frame) (register env (get_src_mac frame) t.seq 0 n)

accept_hsr-fresh :
    (env : Env) (port : Port) (frame : Bytes) (t : Tag) (n : Node)
    → is_own n frame ≡ false
    → find env.now n.dup_table (get_src_mac frame) t.seq ≡ false
    → accept_hsr env port frame t n
      ≡ deliver_hsr env frame t
          (forward_quad env frame (forward_ring env port frame (learned env frame t n)))
unfolding accept_hsr
accept_hsr-fresh env port frame t n other fresh =
    if-false (is_own n frame) (done (note_drop (codes "own") n)) _ other
    ∙ if-false (find env.now n.dup_table (get_src_mac frame) t.seq)
        (done (note_drop (codes "dup") n)) _ fresh

-- What a role makes of a new frame behind the copy for the ring: what leaves, by the frame without
-- its tag.
abbrev pub Delivers : Env → Bytes → Tag → Node → (Bytes → List (Port × Bytes)) → Type 0
Delivers env frame t n out =
    (original : Bytes) (x : Node)
    → strip_hsr frame ≡ some original
    → Alike (record (learned env frame t n) { sent = x.sent }) x
    → (m : Node) × (deliver_hsr env frame t (forward_quad env frame x) ≡ done m)
      × (m.sent ≡ x.sent ++ out original)

forwarded-Alike :
    (env : Env) (port : Port) (frame g : Bytes) (t : Tag) (n : Node)
    → rewrite_hsr_path_lane frame (is_lan_a (other_port port)) ≡ some g
    → env.write_ok (other_port port) ≡ true
    → let x = forward_ring env port frame (learned env frame t (count_in port n)) in
      Alike (record (learned env frame t n) { sent = x.sent }) x
      × (x.sent ≡ n.sent ++ ((other_port port, g) ∷ []))
unfolding register learn_ring_member entry_forget_ms
forwarded-Alike env port frame g t n rewritten ok =
    let n1 = learned env frame t (count_in port n) in
    let x = forward_ring env port frame n1 in
    let a = forward_ring-Alike env port frame g n1 rewritten ok in
    let k = count_in-Alike port n in
    (
      a
          ∙ ap (λ s. record n1 { sent = s; counters = x.counters; drop_counters = x.drop_counters })
              (sym (ap (λ (y : Node). y.sent) a))
          ∙ ap
              (λ (y : Node). record (learned env frame t y) {
                sent = x.sent;
                counters = x.counters;
                drop_counters = x.drop_counters;
              })
              k,
      ap (λ (y : Node). y.sent) a ∙ ap (λ (y : Node). y.sent ++ ((other_port port, g) ∷ [])) k,
    )

-- A new frame leaves by the other ring port, and then as the role delivers it.
pub goes_on :
    (env : Env) (port : Port) (frame : Bytes) (t : Tag) (n : Node)
    (out : Bytes → List (Port × Bytes))
    → All IsByte frame
    → decode_hsr frame ≡ some t
    → is_own n frame ≡ false
    → find env.now n.dup_table (get_src_mac frame) t.seq ≡ false
    → env.write_ok (other_port port) ≡ true
    → Delivers env frame t n out
    → (original : Bytes) × (g : Bytes) × (m : Node) × (strip_hsr frame ≡ some original)
      × (decode_hsr g
          ≡ some
              (record t { path = t.path / 2 * 2 + (if is_lan_a (other_port port) then 0 else 1) }))
      × (strip_hsr g ≡ some original)
      × (handle_incoming_hsr_frame env port frame n ≡ done m)
      × (m.sent ≡ (n.sent ++ ((other_port port, g) ∷ [])) ++ out original)
goes_on env port frame t n out bytes at other fresh ring_ok deliver =
    let lane_a = is_lan_a (other_port port) in
    let (original, stripped) = strip_hsr-some frame t bytes at in
    let (g, rewritten, decoded, kept, size) = rewrite_hsr_path_lane_lem frame t lane_a bytes at in
    let (a, forwarded) = forwarded-Alike env port frame g t n rewritten ring_ok in
    let k = count_in-Alike port n in
    let (m, e, sent) = deliver original _ stripped a in
    (
      original,
      g,
      m,
      stripped,
      decoded,
      kept ∙ stripped,
      handled env port frame t n at
          ∙ accept_hsr-fresh env port frame t (count_in port n)
              (is_own-Alike frame n (count_in port n) k ∙ other)
              (ap (λ (y : Node). find env.now y.dup_table (get_src_mac frame) t.seq) k ∙ fresh)
          ∙ e,
      sent ∙ ap (λ s. s ++ out original) forwarded,
    )

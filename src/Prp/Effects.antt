-- ===== src/Prp/Effects.antt =====
-- What the steps of a handler change: counters aside, the frames sent and the tables they touch.
use prp_sim.Base.{
  ◌≡◌, refl, ap, ◌∙◌, inl, inr, Bool, true, false, [], ◌∷◌, ◌++◌, append_assoc, arith,
  if◌then◌else◌, Bool-cases, Bytes, Text,
}
use prp_sim.Prp.Node.{
  is_own, Port, lan_a, lan_b, interlink, Node, Env, count_in, count_out, note_drop, write,
  write_counted, learn_proxy,
}

-- Two nodes that differ at most in their counters.
abbrev pub Alike : Node → Node → Type 0
Alike n m = m ≡ record n { counters = m.counters; drop_counters = m.drop_counters }

pub Alike-trans : (n m k : Node) → Alike n m → Alike m k → Alike n k
Alike-trans n m k a b =
    b ∙ ap (λ (x : Node). record x { counters = k.counters; drop_counters = k.drop_counters }) a

pub if-Alike : (b : Bool) (n x y : Node) → Alike n x → Alike n y → Alike n (if b then x else y)
if-Alike true n x y a b = a
if-Alike false n x y a b = b

pub count_in-Alike : (port : Port) (n : Node) → Alike n (count_in port n)
unfolding count_in
count_in-Alike lan_a n = refl
count_in-Alike lan_b n = refl
count_in-Alike interlink n = refl

pub count_out-Alike : (port : Port) (n : Node) → Alike n (count_out port n)
unfolding count_out
count_out-Alike lan_a n = refl
count_out-Alike lan_b n = refl
count_out-Alike interlink n = refl

pub note_drop-Alike : (reason : Text) (n : Node) → Alike n (note_drop reason n)
unfolding note_drop
note_drop-Alike reason n = refl

-- A counted write puts the frame at the end of what was sent where the port takes it.
pub write_counted-Alike :
    (env : Env) (port : Port) (frame : Bytes) (n : Node)
    → Alike
        (record n { sent = if env.write_ok port then n.sent ++ ((port, frame) ∷ []) else n.sent })
        (write_counted env port frame n)
unfolding write_counted write
write_counted-Alike env port frame n = elim (Bool-cases (env.write_ok port)) [
  | inl taken ↦ rw taken (count_out-Alike port _)
  | inr refused ↦ rw refused refl
]

pub write_counted-sent :
    (env : Env) (port : Port) (frame : Bytes) (n : Node)
    → env.write_ok port ≡ true
    → (write_counted env port frame n).sent ≡ n.sent ++ ((port, frame) ∷ [])
write_counted-sent env port frame n ok =
    ap (λ (m : Node). m.sent) (write_counted-Alike env port frame n) ∙ rw ok

pub learn_proxy-sent :
    (env : Env) (frame : Bytes) (n : Node)
    → ((learn_proxy env frame n).sent ≡ n.sent) × ((learn_proxy env frame n).seq_mgr ≡ n.seq_mgr)
unfolding learn_proxy
learn_proxy-sent env frame n = (ground arith, ground arith)

pub write_counted-seq_mgr :
    (env : Env) (port : Port) (frame : Bytes) (n : Node)
    → (write_counted env port frame n).seq_mgr ≡ n.seq_mgr
write_counted-seq_mgr env port frame n =
    ap (λ (m : Node). m.seq_mgr) (write_counted-Alike env port frame n)

-- Both copies of a frame, A first.
pub write_both-sent :
    (env : Env) (a b : Bytes) (n : Node)
    → env.write_ok lan_a ≡ true
    → env.write_ok lan_b ≡ true
    → (write_counted env lan_b b (write_counted env lan_a a n)).sent
      ≡ n.sent ++ ((lan_a, a) ∷ (lan_b, b) ∷ [])
write_both-sent env a b n ok_a ok_b =
    write_counted-sent env lan_b b _ ok_b
    ∙ rw (write_counted-sent env lan_a a n ok_a)
        (append_assoc n.sent ((lan_a, a) ∷ []) ((lan_b, b) ∷ []))

pub is_own-Alike : (frame : Bytes) (n m : Node) → Alike n m → is_own m frame ≡ is_own n frame
unfolding is_own
is_own-Alike frame n m a = ap (λ x. is_own x frame) a

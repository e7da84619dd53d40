-- ===== src/Prp/Dispatch/Emits.antt =====
-- Where frames leave: of every handler, the ports that it writes to.
use prp_sim.Base.{
  done-injective, ℕ, ◌≡◌, refl, sym, ap, ◌∙◌, subst, Bool, true, false, List, [], ◌∷◌, ◌++◌,
  append-nil, append_assoc, arith, if◌then◌else◌, All, All-append, Bytes, Text, Outcome, done,
  panics,
}
use prp_sim.Engine.Sequence.{SequenceManager}
use prp_sim.Prp.Node.{
  Port, interlink, Node, Env, note_drop, count_in, count_out, write, write_counted, write_interlink,
  register, learn_proxy, learn_ring_member,
}
use prp_sim.Prp.Effects.{count_in-Alike, count_out-Alike}

module _ (P : Port → Type 0) where
  -- All that the second node has sent and the first has not went to ports of the one kind.
  pub data Emits (n m : Node) : Type 0 where
    emitted :
        (out : List (Port × Bytes))
        → m.sent ≡ n.sent ++ out
        → All (λ (e : Port × Bytes). P e.0) out
        → Emits n m

  -- The same of a handler that may crash.
  pub data EmitsIf (n : Node) : Outcome Node → Type 0 where
    emits : {m : Node} → Emits n m → EmitsIf n (done m)
    crashed : EmitsIf n panics

  pub sent-Emits : (n m k : Node) → k.sent ≡ m.sent → Emits n m → Emits n k
  sent-Emits n m k e (emitted out s a) = emitted out (e ∙ s) a

  pub refl-Emits : (n : Node) → Emits n n
  refl-Emits n = emitted [] (sym (append-nil n.sent)) tt

  pub if-Emits : (b : Bool) (n x y : Node) → Emits n x → Emits n y → Emits n (if b then x else y)
  if-Emits true n x y hx hy = hx
  if-Emits false n x y hx hy = hy

  pub if-EmitsIf :
      (b : Bool) (n : Node) (x y : Outcome Node)
      → EmitsIf n x
      → EmitsIf n y
      → EmitsIf n (if b then x else y)
  if-EmitsIf true n x y hx hy = hx
  if-EmitsIf false n x y hx hy = hy

  pub note_drop-Emits : (reason : Text) (n m : Node) → Emits n m → Emits n (note_drop reason m)
  unfolding note_drop
  note_drop-Emits reason n m e = sent-Emits n m _ refl e

  pub count_in-Emits : (port : Port) (n m : Node) → Emits n m → Emits n (count_in port m)
  count_in-Emits port n m e = sent-Emits n m _ (ap (λ (x : Node). x.sent) (count_in-Alike port m)) e

  pub register-Emits :
      (env : Env) (mac : Text) (seq lan : ℕ) (n m : Node)
      → Emits n m
      → Emits n (register env mac seq lan m)
  unfolding register
  register-Emits env mac seq lan n m e = sent-Emits n m _ refl e

  pub learn_ring_member-Emits :
      (env : Env) (mac : Text) (n m : Node) → Emits n m → Emits n (learn_ring_member env mac m)
  unfolding learn_ring_member
  learn_ring_member-Emits env mac n m e = sent-Emits n m _ refl e

  pub learn_proxy-Emits :
      (env : Env) (frame : Bytes) (n m : Node) → Emits n m → Emits n (learn_proxy env frame m)
  unfolding learn_proxy
  learn_proxy-Emits env frame n m e = sent-Emits n m _ (ground arith) e

  pub sequence-Emits :
      (n m : Node) (mgr : SequenceManager) → Emits n m → Emits n (record m { seq_mgr = mgr })
  sequence-Emits n m mgr e = sent-Emits n m _ refl e

  pub write-Emits :
      (env : Env) (port : Port) (frame : Bytes) (n m : Node)
      → P port
      → Emits n m
      → Emits n (write env port frame m)
  unfolding write
  write-Emits env port frame n m ok (emitted out s a) =
      if-Emits (env.write_ok port) n _ m
        (emitted (out ++ ((port, frame) ∷ []))
          (ap (λ xs. xs ++ ((port, frame) ∷ [])) s ∙ append_assoc n.sent out ((port, frame) ∷ []))
          (All-append _ out ((port, frame) ∷ []) a (ok, tt)))
        (emitted out s a)

  pub count_out-Emits : (port : Port) (n m : Node) → Emits n m → Emits n (count_out port m)
  count_out-Emits port n m e =
      sent-Emits n m _ (ap (λ (x : Node). x.sent) (count_out-Alike port m)) e

  pub write_counted-Emits :
      (env : Env) (port : Port) (frame : Bytes) (n m : Node)
      → P port
      → Emits n m
      → Emits n (write_counted env port frame m)
  unfolding write_counted
  write_counted-Emits env port frame n m ok e =
      if-Emits (env.write_ok port) n _ _
        (count_out-Emits port n _ (write-Emits env port frame n m ok e)) e

  pub write_interlink-EmitsIf :
      (env : Env) (frame : Bytes) (n m : Node)
      → P interlink
      → Emits n m
      → EmitsIf n (write_interlink env frame m)
  unfolding write_interlink
  write_interlink-EmitsIf env frame n m ok e =
      if-EmitsIf m.has_interlink n _ _ (emits (write_counted-Emits env interlink frame n m ok e))
        crashed

  pub ruleset emit_rules = (
    if-Emits, if-EmitsIf, emits, crashed, refl-Emits, note_drop-Emits, count_in-Emits,
    register-Emits, learn_ring_member-Emits, learn_proxy-Emits, sequence-Emits, write-Emits,
    count_out-Emits, write_counted-Emits, write_interlink-EmitsIf,
  )

pub emitted_result :
    (P : Port → Type 0) (n m : Node) (o : Outcome Node) → EmitsIf P n o → o ≡ done m → Emits P n m
emitted_result P n m (done k) (emits e) at = subst (Emits P n) (done-injective k m at) e
emitted_result P n m panics c at = cc

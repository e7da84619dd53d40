-- ===== src/Prp/Dispatch/Links.antt =====
-- The interlink stays bound, whatever the steps of a handler do.
use prp_sim.Base.{
  if-true, ℕ, ◌≡◌, refl, sym, ap, ◌∙◌, subst, Bool, true, false, arith, if◌then◌else◌, Bytes, Text,
  Outcome, done,
}
use prp_sim.Engine.Sequence.{SequenceManager}
use prp_sim.Prp.Node.{
  Port, interlink, Node, Env, note_drop, count_in, count_out, write, write_counted, write_interlink,
  register, learn_proxy, learn_ring_member,
}
use prp_sim.Prp.Effects.{count_in-Alike, count_out-Alike, write_counted-Alike}

-- A node whose interlink is bound.
pub data IsBound (n : Node) : Type 0 where
  is_bound : n.has_interlink ≡ true → IsBound n

-- A handler that returns such a node.
pub data Returns : Outcome Node → Type 0 where
  returned : {n : Node} → IsBound n → Returns (done n)

pub link-IsBound : (n m : Node) → m.has_interlink ≡ n.has_interlink → IsBound n → IsBound m
link-IsBound n m e (is_bound h) = is_bound (e ∙ h)

pub if-IsBound : (b : Bool) (x y : Node) → IsBound x → IsBound y → IsBound (if b then x else y)
if-IsBound true x y hx hy = hx
if-IsBound false x y hx hy = hy

pub if-Returns :
    (b : Bool) (x y : Outcome Node) → Returns x → Returns y → Returns (if b then x else y)
if-Returns true x y hx hy = hx
if-Returns false x y hx hy = hy

pub note_drop-IsBound : (reason : Text) (n : Node) → IsBound n → IsBound (note_drop reason n)
unfolding note_drop
note_drop-IsBound reason n h = link-IsBound n _ refl h

pub count_in-IsBound : (port : Port) (n : Node) → IsBound n → IsBound (count_in port n)
count_in-IsBound port n h =
    link-IsBound n _ (ap (λ (x : Node). x.has_interlink) (count_in-Alike port n)) h

pub count_out-IsBound : (port : Port) (n : Node) → IsBound n → IsBound (count_out port n)
count_out-IsBound port n h =
    link-IsBound n _ (ap (λ (x : Node). x.has_interlink) (count_out-Alike port n)) h

pub register-IsBound :
    (env : Env) (mac : Text) (seq lan : ℕ) (n : Node)
    → IsBound n
    → IsBound (register env mac seq lan n)
unfolding register
register-IsBound env mac seq lan n h = link-IsBound n _ refl h

pub learn_ring_member-IsBound :
    (env : Env) (mac : Text) (n : Node) → IsBound n → IsBound (learn_ring_member env mac n)
unfolding learn_ring_member
learn_ring_member-IsBound env mac n h = link-IsBound n _ refl h

pub learn_proxy-IsBound :
    (env : Env) (frame : Bytes) (n : Node) → IsBound n → IsBound (learn_proxy env frame n)
unfolding learn_proxy
learn_proxy-IsBound env frame n h = link-IsBound n _ (ground arith) h

pub sequence-IsBound :
    (n : Node) (mgr : SequenceManager) → IsBound n → IsBound (record n { seq_mgr = mgr })
sequence-IsBound n mgr h = link-IsBound n _ refl h

pub write-IsBound :
    (env : Env) (port : Port) (frame : Bytes) (n : Node)
    → IsBound n
    → IsBound (write env port frame n)
unfolding write
write-IsBound env port frame n h = link-IsBound n _ (ground arith) h

pub write_counted-IsBound :
    (env : Env) (port : Port) (frame : Bytes) (n : Node)
    → IsBound n
    → IsBound (write_counted env port frame n)
write_counted-IsBound env port frame n h =
    link-IsBound n _ (ap (λ (x : Node). x.has_interlink) (write_counted-Alike env port frame n)) h

pub write_interlink-Returns :
    (env : Env) (frame : Bytes) (n : Node) → IsBound n → Returns (write_interlink env frame n)
unfolding write_interlink
write_interlink-Returns env frame n (is_bound h) =
    subst Returns (sym (if-true n.has_interlink _ _ h))
      (returned (write_counted-IsBound env interlink frame n (is_bound h)))

pub ruleset link_rules = (
  if-IsBound, if-Returns, returned, note_drop-IsBound, count_in-IsBound, count_out-IsBound,
  register-IsBound, learn_ring_member-IsBound, learn_proxy-IsBound, sequence-IsBound, write-IsBound,
  write_counted-IsBound, write_interlink-Returns,
)

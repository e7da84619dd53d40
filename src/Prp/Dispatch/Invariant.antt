-- ===== src/Prp/Dispatch/Invariant.antt =====
-- What holds of a node whatever it does: its duplicate table is well formed and within its cap.
use prp_sim.Base.{
  ℕ, ◌≡◌, refl, ◌∙◌, Bool, true, false, arith, if◌then◌else◌, Bytes, Text, Outcome, done, panics,
  ◌>>=◌,
}
use prp_sim.Engine.Ether.{get_src_mac}
use prp_sim.Engine.Ether.Macs.{get_src_mac-ne}
use prp_sim.Engine.Sequence.{SequenceManager}
use prp_sim.Nodetable.{Entries, Table, insert_with_expiry}
use prp_sim.Nodetable.Size.{insert_with_expiry-IsValid}
use prp_sim.Nodetable.Size
use prp_sim.Nodetable.Oldest.{IsOrder}
use prp_sim.Prp.Node.{
  or_default, Port, lan_a, lan_b, interlink, Node, Env, note_drop, count_in, count_out, write,
  write_counted, write_interlink, register, learn_proxy, learn_ring_member, entry_forget_ms,
}

-- The table is well formed, and its cap is the configured one, or 256 where none is set.
pub data IsValid (n : Node) : Type 0 where
  valid :
      Size.IsValid n.dup_table
      → n.dup_table.max_size ≡ or_default n.config.max_node_table_size 256
      → IsValid n

-- The result of a handler that did not crash is valid.
pub data IsSafe : Outcome Node → Type 0 where
  safe : {n : Node} → IsValid n → IsSafe (done n)
  crashed : IsSafe panics

pub if-IsValid : (b : Bool) (x y : Node) → IsValid x → IsValid y → IsValid (if b then x else y)
if-IsValid true x y hx hy = hx
if-IsValid false x y hx hy = hy

pub if-IsSafe : (b : Bool) (x y : Outcome Node) → IsSafe x → IsSafe y → IsSafe (if b then x else y)
if-IsSafe true x y hx hy = hx
if-IsSafe false x y hx hy = hy

pub bind-IsSafe :
    (m : Outcome Node) (f : Node → Outcome Node)
    → IsSafe m
    → ((n : Node) → IsValid n → IsSafe (f n))
    → IsSafe (m >>= f)
bind-IsSafe (done n) f (safe v) h = h n v
bind-IsSafe panics f c h = crashed

-- A step that leaves the table and the configuration alone.
abbrev pub Same : Node → Node → Type 0
Same n m = (m.dup_table ≡ n.dup_table) × (m.config ≡ n.config)

pub keep-IsValid : (n m : Node) → Same n m → IsValid n → IsValid m
keep-IsValid n m (e, c) (valid v cap) = valid (rw e v) (rw (e, c) cap)

pub note_drop-IsValid : (reason : Text) (n : Node) → IsValid n → IsValid (note_drop reason n)
unfolding note_drop
note_drop-IsValid reason n v = keep-IsValid n _ (refl, refl) v

count_in-table : (port : Port) (n : Node) → Same n (count_in port n)
unfolding count_in
count_in-table lan_a n = (refl, refl)
count_in-table lan_b n = (refl, refl)
count_in-table interlink n = (refl, refl)

pub count_in-IsValid : (port : Port) (n : Node) → IsValid n → IsValid (count_in port n)
count_in-IsValid port n v = keep-IsValid n _ (count_in-table port n) v

count_out-table : (port : Port) (n : Node) → Same n (count_out port n)
unfolding count_out
count_out-table lan_a n = (refl, refl)
count_out-table lan_b n = (refl, refl)
count_out-table interlink n = (refl, refl)

pub count_out-IsValid : (port : Port) (n : Node) → IsValid n → IsValid (count_out port n)
count_out-IsValid port n v = keep-IsValid n _ (count_out-table port n) v

write-table : (env : Env) (port : Port) (frame : Bytes) (n : Node) → Same n (write env port frame n)
unfolding write
write-table env port frame n = (ground arith, ground arith)

pub write-IsValid :
    (env : Env) (port : Port) (frame : Bytes) (n : Node)
    → IsValid n
    → IsValid (write env port frame n)
write-IsValid env port frame n v = keep-IsValid n _ (write-table env port frame n) v

pub write_counted-IsValid :
    (env : Env) (port : Port) (frame : Bytes) (n : Node)
    → IsValid n
    → IsValid (write_counted env port frame n)
unfolding write_counted
write_counted-IsValid env port frame n v = search (if-IsValid, count_out-IsValid, write-IsValid)

pub write_interlink-IsSafe :
    (env : Env) (frame : Bytes) (n : Node) → IsValid n → IsSafe (write_interlink env frame n)
unfolding write_interlink
write_interlink-IsSafe env frame n v = search (if-IsSafe, safe, crashed, write_counted-IsValid)

learn_proxy-table : (env : Env) (frame : Bytes) (n : Node) → Same n (learn_proxy env frame n)
unfolding learn_proxy
learn_proxy-table env frame n = (ground arith, ground arith)

pub learn_proxy-IsValid :
    (env : Env) (frame : Bytes) (n : Node) → IsValid n → IsValid (learn_proxy env frame n)
learn_proxy-IsValid env frame n v = keep-IsValid n _ (learn_proxy-table env frame n) v

pub learn_ring_member-IsValid :
    (env : Env) (mac : Text) (n : Node) → IsValid n → IsValid (learn_ring_member env mac n)
unfolding learn_ring_member
learn_ring_member-IsValid env mac n v = keep-IsValid n _ (refl, refl) v

pub sequence-IsValid :
    (n : Node) (mgr : SequenceManager) → IsValid n → IsValid (record n { seq_mgr = mgr })
sequence-IsValid n mgr v = keep-IsValid n _ (refl, refl) v

insert_with_expiry-max_size :
    (order : Entries → Entries) (now : ℕ) (t : Table) (mac : Text) (seq lan expiry : ℕ)
    → (insert_with_expiry order now t mac seq lan expiry).max_size ≡ t.max_size
unfolding insert_with_expiry
insert_with_expiry-max_size order now t mac seq lan expiry = ground arith

pub register-IsValid :
    (env : Env) (frame : Bytes) (seq lan : ℕ) (n : Node)
    → IsOrder env.order
    → IsValid n
    → IsValid (register env (get_src_mac frame) seq lan n)
unfolding register
register-IsValid env frame seq lan n o (valid v cap) =
    valid
      (insert_with_expiry-IsValid env.order env.now n.dup_table _ seq lan _ o (get_src_mac-ne frame)
        v)
      (insert_with_expiry-max_size env.order env.now n.dup_table (get_src_mac frame) seq lan
          (entry_forget_ms n)
        ∙ cap)

pub ruleset table_rules = (
  if-IsValid, if-IsSafe, safe, crashed, note_drop-IsValid, count_in-IsValid, count_out-IsValid,
  write-IsValid, write_counted-IsValid, write_interlink-IsSafe, learn_proxy-IsValid,
  learn_ring_member-IsValid, sequence-IsValid, register-IsValid,
)

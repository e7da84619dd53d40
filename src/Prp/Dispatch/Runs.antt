-- ===== src/Prp/Dispatch/Runs.antt =====
-- The invariant over whole runs of a node.
use prp_sim.Base.{
  panics, done-injective, Distinct, ℕ, ◌+◌, ◌≤◌, ◌<◌, ◌≡◌, refl, sym, subst, inl, inr, Bool, true,
  ◌&&◌, Option, none, some, List, [], ◌∷◌, arith, ltb, Option-cases, length, Bytes, Text, lookup,
  to_u16, Outcome, done, panics, ◌>>=◌,
}
use prp_sim.Supervision.{parse}
use prp_sim.Supervision
use prp_sim.Nodetable.{new_table, flush_for, cleanup}
use prp_sim.Nodetable.Size.{new_table-IsValid, flush_for-IsValid, cleanup-IsValid}
use prp_sim.Nodetable.Size
use prp_sim.Nodetable.Oldest.{IsOrder}
use prp_sim.Prp.Node.{Port, interlink, Node, Env, Config, new_node, or_default, is_hsr_node, write}
use prp_sim.Prp.Monitor.{
  handle_supervision_frame, note_supervision, flush_if_restarted, periodic_cleanup,
  cleanup_supervision_seen, is_ring_port, announce_lans, announce_ring, send_supervision_frame,
  count_sup_sent, start,
}
use prp_sim.Prp.Dispatch.{
  FrameEvent, relay_supervision, handle_data, consume_supervision, handle_frame, Action, receive,
  clean, announce, act, run,
}
use prp_sim.Prp.Dispatch.Invariant.{
  IsValid, valid, IsSafe, safe, crashed, table_rules, bind-IsSafe, Same, keep-IsValid, if-IsValid,
  if-IsSafe,
}
use prp_sim.Prp.Dispatch.Links.{IsBound, is_bound, Returns, returned}
use prp_sim.Prp.Dispatch.Alive.{AllLong, run-Returns}
use prp_sim.Prp.Dispatch.Handlers.{
  handle_incoming_prp_frame-IsValid, handle_interlink_frame-IsSafe,
  handle_incoming_hsr_frame-IsSafe, handle_hsr_interlink_frame-IsSafe,
}

flushed-IsValid :
    (n : Node) (mac : Text)
    → IsValid n
    → IsValid (record n { dup_table = (flush_for n.dup_table mac).0 })
flushed-IsValid n mac (valid v cap) =
    valid (flush_for-IsValid n.dup_table mac v) (unfold flush_for in cap)

flush_if_restarted-IsValid :
    (mac : Text) (seq : ℕ) (n : Node) → IsValid n → IsValid (flush_if_restarted mac seq n)
unfolding flush_if_restarted
flush_if_restarted-IsValid mac seq n v = elim (Option-cases (lookup mac n.supervision_seqs)) [
  | inl fresh ↦ rw (fresh, flush_if_restarted) v
  | inr (last, e) ↦ rw (e, flush_if_restarted) (search (if-IsValid, flushed-IsValid))
]

note_supervision-IsValid :
    (env : Env) (port : Port) (sup : Supervision.Frame) (n : Node)
    → IsValid n
    → IsValid (note_supervision env port sup n)
unfolding note_supervision
note_supervision-IsValid env port sup n v =
    keep-IsValid (flush_if_restarted sup.src_mac sup.seq _) _ (refl, refl)
      (flush_if_restarted-IsValid sup.src_mac sup.seq _ (
        if-IsValid (is_hsr_node n && is_ring_port port) _ _ (keep-IsValid n _ (refl, refl) v)
          (keep-IsValid n _ (refl, refl) v)))

relay_supervision-IsValid :
    (env : Env) (port : Port) (frame : Bytes) (n : Node)
    → IsValid n
    → IsValid (relay_supervision env port frame n)
unfolding relay_supervision
relay_supervision-IsValid env interlink frame n v = search table_rules
relay_supervision-IsValid env _ frame n v = search table_rules

handle_supervision_frame-IsSafe :
    (env : Env) (port : Port) (frame : Bytes) (n : Node)
    → IsValid n
    → IsSafe (handle_supervision_frame env port frame n)
unfolding handle_supervision_frame
handle_supervision_frame-IsSafe env port frame n v = go (parse frame)
  where
    go :
        (m : Outcome (Option Supervision.Frame))
        → IsSafe (
            m >>= λ sup.
            done (elim sup as (λ _. Node) [ none ↦ n | some s ↦ note_supervision env port s n ]))
    go (done none) = safe v
    go (done (some s)) = safe (note_supervision-IsValid env port s n v)
    go panics = crashed

handle_data-IsSafe :
    (env : Env) (port : Port) (frame : Bytes) (n : Node)
    → IsOrder env.order
    → IsValid n
    → IsSafe (handle_data env port frame n)
unfolding handle_data
handle_data-IsSafe env interlink frame n o v =
    search (if-IsSafe, handle_hsr_interlink_frame-IsSafe, handle_interlink_frame-IsSafe)
handle_data-IsSafe env _ frame n o v =
    search (if-IsSafe, safe, handle_incoming_hsr_frame-IsSafe, handle_incoming_prp_frame-IsValid)

handle_frame-IsSafe :
    (env : Env) (event : FrameEvent) (n : Node)
    → IsOrder env.order
    → IsValid n
    → IsSafe (handle_frame env event n)
unfolding handle_frame consume_supervision
handle_frame-IsSafe env event n o v = if-IsSafe (ltb (length event.frame) 14) _ _ (safe v) (
    if-IsSafe _ _ _
      (bind-IsSafe _ _ (handle_supervision_frame-IsSafe env event.iface event.frame n v)
        (λ m w. safe (relay_supervision-IsValid env event.iface event.frame m w)))
      (handle_data-IsSafe env event.iface event.frame n o v))

periodic_cleanup-IsValid : (now : ℕ) (n : Node) → IsValid n → IsValid (periodic_cleanup now n)
unfolding periodic_cleanup cleanup_supervision_seen
periodic_cleanup-IsValid now n (valid v cap) =
    let cleaned : Node = record n { dup_table = (cleanup now n.dup_table).0 } in
    let w : IsValid cleaned = valid (cleanup-IsValid now n.dup_table v) (unfold cleanup in cap) in
    if-IsValid _ _ _ w (keep-IsValid cleaned _ (refl, refl) w)

announce_lans-Same : (env : Env) (mac : Bytes) (n : Node) → Same n (announce_lans env mac n)
unfolding announce_lans count_sup_sent write
announce_lans-Same env mac n = (ground arith, ground arith)

announce_ring-Same : (env : Env) (mac : Bytes) (n : Node) → Same n (announce_ring env mac n)
unfolding announce_ring count_sup_sent write
announce_ring-Same env mac n = (ground arith, ground arith)

send_supervision_frame-IsValid :
    (env : Env) (interface_mac : Option Bytes) (n : Node)
    → IsValid n
    → IsValid (send_supervision_frame env interface_mac n)
unfolding send_supervision_frame
send_supervision_frame-IsValid env mac n v =
    let m : Node = record n { sup_seq = to_u16 (n.sup_seq + 1) } in
    let w : IsValid m = keep-IsValid n m (refl, refl) v in
    if-IsValid _ _ _ (keep-IsValid m _ (announce_ring-Same env _ m) w)
      (keep-IsValid m _ (announce_lans-Same env _ m) w)

act-IsSafe :
    (env : Env) (action : Action) (n : Node)
    → IsOrder env.order
    → IsValid n
    → IsSafe (act env action n)
unfolding act
act-IsSafe env (receive event) n o v = handle_frame-IsSafe env event n o v
act-IsSafe env clean n o v = safe (periodic_cleanup-IsValid env.now n v)
act-IsSafe env (announce mac) n o v = safe (send_supervision_frame-IsValid env mac n v)

-- Every action of a run comes with an order of iteration.
abbrev pub AllOrders : List (Env × Action) → Type 0
AllOrders [] = Unit {0}
AllOrders ((env, action) ∷ rest) = IsOrder env.order × AllOrders rest

run-IsSafe :
    (actions : List (Env × Action)) (n : Node)
    → AllOrders actions
    → IsValid n
    → IsSafe (run actions n)
unfolding run
run-IsSafe [] n o v = safe v
run-IsSafe ((env, action) ∷ rest) n (o, os) v =
    bind-IsSafe (act env action n) _ (act-IsSafe env action n o v) (λ m w. run-IsSafe rest m os w)

started-IsValid :
    (cfg : Config) (seq : ℕ) (mac : Option Bytes) (bound : Bool)
    → IsValid (start mac bound (new_node cfg seq))
unfolding start new_node
started-IsValid cfg seq mac bound =
    valid (new_table-IsValid (or_default cfg.max_node_table_size 256)) (unfold new_table in refl)

safe_result : (m : Outcome Node) (n : Node) → IsSafe m → m ≡ done n → IsValid n
safe_result (done m) n (safe v) e = subst IsValid (done-injective m n e) v
safe_result panics n c e = cc

or_default-pos : (v d : ℕ) → 0 < d → 0 < or_default v d
unfolding or_default
or_default-pos v d h = ground arith

-- From a started node on, whatever frames come, from whatever ports and at whatever times, and
-- whenever it cleans up and announces itself: as long as the node has not crashed, its duplicate
-- table holds at most as many entries as the configured cap, 256 where none is set, under distinct
-- keys, each entry under the key of its own source MAC and sequence number.
pub run-IsValid :
    (cfg : Config) (seq : ℕ) (mac : Option Bytes) (bound : Bool) (actions : List (Env × Action))
    (n : Node)
    → AllOrders actions
    → run actions (start mac bound (new_node cfg seq)) ≡ done n
    → (length n.dup_table.entries ≤ or_default n.config.max_node_table_size 256)
      × Distinct n.dup_table.entries
      × Size.OwnKeys n.dup_table.entries
unfolding or_default
run-IsValid cfg seq mac bound actions n os e =
    conclude (safe_result _ n (run-IsSafe actions _ os (started-IsValid cfg seq mac bound)) e)
  where
    conclude :
        IsValid n
        → (length n.dup_table.entries ≤ or_default n.config.max_node_table_size 256)
          × Distinct n.dup_table.entries
          × Size.OwnKeys n.dup_table.entries
    conclude (valid v cap) = (
      rw (sym cap)
          (v.bounded (rw cap (or_default-pos n.config.max_node_table_size 256 (omega arith)))),
      v.distinct,
      v.owned,
    )

finished : (o : Outcome Node) → Returns o → (n : Node) × (o ≡ done n)
finished (done n) (returned h) = (n, refl)
finished panics r = elim r [ ]

-- A started node with a bound interlink, in any role: a run of frames of 26 bytes or more, clean-
-- ups and announcements, each under an order of iteration, ends without a crash, and the duplicate
-- table then holds at most as many entries as the configured cap, 256 where none is set, under
-- distinct keys, each entry under the key of its own source MAC and sequence number.
pub run_lem :
    (cfg : Config) (seq : ℕ) (mac : Option Bytes) (actions : List (Env × Action))
    → AllOrders actions
    → AllLong actions
    → (n : Node) × (run actions (start mac true (new_node cfg seq)) ≡ done n)
      × (length n.dup_table.entries ≤ or_default n.config.max_node_table_size 256)
      × Distinct n.dup_table.entries
      × Size.OwnKeys n.dup_table.entries
run_lem cfg seq mac actions orders long =
    let (n, e) = finished _ (run-Returns actions _ long bound) in
    let (few, distinct, own) = run-IsValid cfg seq mac true actions n orders e in
    (n, e, few, distinct, own)
  where
    bound : IsBound (start mac true (new_node cfg seq))
    bound = unfold start in is_bound refl

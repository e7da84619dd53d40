-- ===== src/Prp/Dispatch/Alive.antt =====
-- internal/prp: a node with an interlink goes on, whatever frames of 26 bytes or more come.
use prp_sim.Base.{
  panics, if-true, if-false, ℕ, ◌+◌, ◌≤◌, ◌≡◌, refl, ◌∙◌, inl, inr, ◌&&◌, Option, none, some, List,
  [], ◌∷◌, arith, ltb, le→ltb, Bool-cases, Option-cases, length, Bytes, Text, lookup, to_u16,
  Outcome, done, panics, ◌>>=◌,
}
use prp_sim.Supervision.{parse, is_sup_header}
use prp_sim.Supervision
use prp_sim.Nodetable.{cleanup, flush_for}
use prp_sim.Prp.Node.{Port, lan_a, lan_b, interlink, Node, Env, is_hsr_node, write}
use prp_sim.Prp.Monitor.{
  has_regressed, handle_supervision_frame, note_supervision, flush_if_restarted, periodic_cleanup,
  cleanup_supervision_seen, is_ring_port, announce_lans, announce_ring, send_supervision_frame,
  count_sup_sent,
}
use prp_sim.Prp.Dispatch.{
  FrameEvent, relay_supervision, handle_data, consume_supervision, handle_frame, Action, receive,
  clean, announce, act, run,
}
use prp_sim.Prp.Dispatch.Links.{
  IsBound, Returns, returned, link-IsBound, link_rules, if-Returns, if-IsBound,
}
use prp_sim.Prp.Dispatch.Total.{
  handle_incoming_prp_frame-IsBound, handle_interlink_frame-Returns,
  handle_incoming_hsr_frame-Returns, handle_hsr_interlink_frame-Returns,
}

parse-done :
    (frame : Bytes)
    → 26 ≤ length frame
    → (sup : Option Supervision.Frame) × (parse frame ≡ done sup)
unfolding parse
parse-done frame h = elim (Bool-cases (is_sup_header frame)) [
  | inl header ↦ (
    _,
    if-false (ltb (length frame) 20) (done none) _ (le→ltb (length frame) 20 (omega arith))
        ∙ if-true (is_sup_header frame) _ _ header
        ∙ if-false (ltb (length frame) 26) panics _ (le→ltb (length frame) 26 h),
  )
  | inr other ↦ (
    none,
    if-false (ltb (length frame) 20) (done none) _ (le→ltb (length frame) 20 (omega arith))
        ∙ if-false (is_sup_header frame) _ (done none) other,
  )
]

flush_if_restarted-IsBound :
    (mac : Text) (seq : ℕ) (n : Node) → IsBound n → IsBound (flush_if_restarted mac seq n)
unfolding flush_if_restarted
flush_if_restarted-IsBound mac seq n h = elim (Option-cases (lookup mac n.supervision_seqs)) [
  | inl fresh ↦ rw (fresh, flush_if_restarted) h
  | inr (last, e) ↦
      rw (e, flush_if_restarted)
        (if-IsBound (has_regressed seq last)
          (record n { dup_table = (flush_for n.dup_table mac).0 }) n (link-IsBound n _ refl h) h)
]

note_supervision-IsBound :
    (env : Env) (port : Port) (sup : Supervision.Frame) (n : Node)
    → IsBound n
    → IsBound (note_supervision env port sup n)
unfolding note_supervision
note_supervision-IsBound env port sup n h =
    link-IsBound (flush_if_restarted sup.src_mac sup.seq _) _ refl (
      flush_if_restarted-IsBound sup.src_mac sup.seq _ (
        if-IsBound (is_hsr_node n && is_ring_port port) _ _ (link-IsBound n _ refl h)
          (link-IsBound n _ refl h)))

relay_supervision-IsBound :
    (env : Env) (port : Port) (frame : Bytes) (n : Node)
    → IsBound n
    → IsBound (relay_supervision env port frame n)
unfolding relay_supervision
relay_supervision-IsBound env interlink frame n h = search link_rules
relay_supervision-IsBound env _ frame n h = search link_rules

consume_supervision-Returns :
    (env : Env) (port : Port) (frame : Bytes) (n : Node)
    → 26 ≤ length frame
    → IsBound n
    → Returns (consume_supervision env port frame n)
unfolding consume_supervision handle_supervision_frame
consume_supervision-Returns env port frame n long h =
    let (sup, e) = parse-done frame long in
    rw e (returned (relay_supervision-IsBound env port frame _ (noted sup)))
  where
    noted :
        (sup : Option Supervision.Frame)
        → IsBound (elim sup as (λ _. Node) [ none ↦ n | some s ↦ note_supervision env port s n ])
    noted none = h
    noted (some s) = note_supervision-IsBound env port s n h

handle_data-Returns :
    (env : Env) (port : Port) (frame : Bytes) (n : Node)
    → 26 ≤ length frame
    → IsBound n
    → Returns (handle_data env port frame n)
unfolding handle_data
handle_data-Returns env interlink frame n long h =
    if-Returns (is_hsr_node n) _ _ (handle_hsr_interlink_frame-Returns env frame n long h)
      (handle_interlink_frame-Returns env frame n long h)
handle_data-Returns env lan_a frame n long h =
    if-Returns (is_hsr_node n) _ _ (handle_incoming_hsr_frame-Returns env lan_a frame n h)
      (returned (handle_incoming_prp_frame-IsBound env lan_a frame n h))
handle_data-Returns env lan_b frame n long h =
    if-Returns (is_hsr_node n) _ _ (handle_incoming_hsr_frame-Returns env lan_b frame n h)
      (returned (handle_incoming_prp_frame-IsBound env lan_b frame n h))

pub handle_frame-Returns :
    (env : Env) (event : FrameEvent) (n : Node)
    → 26 ≤ length event.frame
    → IsBound n
    → Returns (handle_frame env event n)
unfolding handle_frame
handle_frame-Returns env event n long h =
    if-Returns (ltb (length event.frame) 14) _ _ (returned h) (
      if-Returns _ _ _ (consume_supervision-Returns env event.iface event.frame n long h)
        (handle_data-Returns env event.iface event.frame n long h))

cleanup_supervision_seen-IsBound :
    (now : ℕ) (n : Node) → IsBound n → IsBound (cleanup_supervision_seen now n)
unfolding cleanup_supervision_seen
cleanup_supervision_seen-IsBound now n h = link-IsBound n _ (ground arith) h

periodic_cleanup-IsBound : (now : ℕ) (n : Node) → IsBound n → IsBound (periodic_cleanup now n)
unfolding periodic_cleanup
periodic_cleanup-IsBound now n h =
    let m : Node = record n { dup_table = (cleanup now n.dup_table).0 } in
    cleanup_supervision_seen-IsBound now m (link-IsBound n m refl h)

announced-IsBound :
    (env : Env) (mac : Bytes) (n : Node)
    → IsBound n
    → IsBound (announce_lans env mac n) × IsBound (announce_ring env mac n)
unfolding announce_lans announce_ring count_sup_sent write
announced-IsBound env mac n h =
    (link-IsBound n _ (ground arith) h, link-IsBound n _ (ground arith) h)

send_supervision_frame-IsBound :
    (env : Env) (interface_mac : Option Bytes) (n : Node)
    → IsBound n
    → IsBound (send_supervision_frame env interface_mac n)
unfolding send_supervision_frame
send_supervision_frame-IsBound env mac n h =
    let m : Node = record n { sup_seq = to_u16 (n.sup_seq + 1) } in
    let w : IsBound m = link-IsBound n m refl h in
    if-IsBound _ _ _ (announced-IsBound env _ m w).1 (announced-IsBound env _ m w).0

-- Every frame of a run has 26 bytes or more.
abbrev pub AllLong : List (Env × Action) → Type 0
AllLong [] = Unit {0}
AllLong ((env, receive event) ∷ rest) = (26 ≤ length event.frame) × AllLong rest
AllLong ((env, clean) ∷ rest) = AllLong rest
AllLong ((env, announce mac) ∷ rest) = AllLong rest

bind-Returns :
    (m : Outcome Node) (f : Node → Outcome Node)
    → Returns m
    → ((n : Node) → IsBound n → Returns (f n))
    → Returns (m >>= f)
bind-Returns (done n) f (returned h) k = k n h
bind-Returns panics f crashed k = elim crashed [ ]

pub run-Returns :
    (actions : List (Env × Action)) (n : Node)
    → AllLong actions
    → IsBound n
    → Returns (run actions n)
unfolding run act
run-Returns [] n long h = returned h
run-Returns ((env, receive event) ∷ rest) n (l, long) h =
    bind-Returns (handle_frame env event n) _ (handle_frame-Returns env event n l h)
      (λ m w. run-Returns rest m long w)
run-Returns ((env, clean) ∷ rest) n long h =
    run-Returns rest _ long (periodic_cleanup-IsBound env.now n h)
run-Returns ((env, announce mac) ∷ rest) n long h =
    run-Returns rest _ long (send_supervision_frame-IsBound env mac n h)

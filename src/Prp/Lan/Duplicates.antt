-- ===== src/Prp/Lan/Duplicates.antt =====
-- internal/prp/prp.go, handleIncomingPRPFrame: of the copies of one frame, one reaches the SAN.
use prp_sim.Base.{
  if-true, if-false, ℕ, ◌+◌, ◌*◌, ◌≤◌, ◌<◌, ◌≡◌, refl, sym, ap, ◌∙◌, subst, inl, inr, true, false,
  ◌&&◌, not, List, [], ◌∷◌, ◌++◌, append-nil, arith, ◌==◌, if◌then◌else◌, eq→==, Bool-cases, length,
  Bytes, codes, IsU16,
}
use prp_sim.Engine.Ether.{get_src_mac}
use prp_sim.Engine.Ether.Macs.{get_src_mac-ne}
use prp_sim.Engine.Rct.{Decoded, pad_frame, rct_lsdu}
use prp_sim.Nodetable.Lookup.{find-insert_with_expiry}
use prp_sim.Nodetable.Oldest.{IsOrder}
use prp_sim.Nodetable.Size
use prp_sim.Nodetable.{millisecond, find}
use prp_sim.Prp.Node.{
  Port, interlink, Node, Env, is_hsr_node, count_in, note_drop, write_counted, register,
  entry_forget_ms, is_own, entry_forget_ms,
}
use prp_sim.Prp.Effects.{
  is_own-Alike, Alike, Alike-trans, count_in-Alike, if-Alike, note_drop-Alike, write_counted-Alike,
}
use prp_sim.Prp.Multicast.{multicast_allowed, is_known_san, should_forward_to_interlink}
use prp_sim.Prp.Lan.Frames.{copy, get_src_mac-encode_rct, decode_copy, is_prp_copy, is_own-copy}
use prp_sim.Prp.Lan.{find, handle_incoming_prp_frame, accept_prp, deliver_to_san, expected_lan}

should_forward-Alike :
    (env : Env) (payload : Bytes) (n m : Node)
    → Alike n m
    → should_forward_to_interlink env m payload ≡ should_forward_to_interlink env n payload
unfolding should_forward_to_interlink multicast_allowed is_known_san
should_forward-Alike env payload n m a = ap (λ x. should_forward_to_interlink env x payload) a

-- What the SAN is given of an accepted frame: the frame where the filters pass it, else nothing.
abbrev pub delivered : Env → Node → Bytes → List (Port × Bytes)
delivered env n payload =
    if should_forward_to_interlink env n payload then (interlink, payload) ∷ [] else []

deliver_to_san-Alike :
    (env : Env) (payload : Bytes) (n : Node)
    → is_hsr_node n ≡ false
    → n.has_interlink ≡ true
    → env.write_ok interlink ≡ true
    → Alike (record n { sent = n.sent ++ delivered env n payload }) (deliver_to_san env payload n)
unfolding deliver_to_san
deliver_to_san-Alike env payload n prp bound ok =
    subst (Alike (record n { sent = n.sent ++ delivered env n payload }))
      (sym (if-true (not (is_hsr_node n) && n.has_interlink) _ _ (ground arith)))
      (elim (Bool-cases (should_forward_to_interlink env n payload)) [
        | inl passed ↦ rw passed (
            subst (λ x. Alike (record n { sent = x }) (write_counted env interlink payload n))
              (if-true _ _ _ ok) (write_counted-Alike env interlink payload n))
        | inr refused ↦ rw (refused, append-nil n.sent) (note_drop-Alike (codes "filter") n)
      ])

-- A node on which a new frame was accepted.
abbrev pub accepted : Env → Port → Bytes → ℕ → Node → Node
accepted env port frame seq n =
    record (register env (get_src_mac frame) seq (expected_lan port) n) {
      sent = n.sent ++ delivered env n (pad_frame frame);
    }

deliver_registered-Alike :
    (env : Env) (port : Port) (frame : Bytes) (seq : ℕ) (n : Node)
    → is_hsr_node n ≡ false
    → n.has_interlink ≡ true
    → env.write_ok interlink ≡ true
    → Alike (accepted env port frame seq n) (
        deliver_to_san env
          (pad_frame frame)
          (register env (get_src_mac frame) seq (expected_lan port) n))
unfolding register should_forward_to_interlink multicast_allowed is_known_san
deliver_registered-Alike env port frame seq n prp bound ok =
    deliver_to_san-Alike env (pad_frame frame)
      (register env (get_src_mac frame) seq (expected_lan port) n) prp bound ok

accept_prp-fresh :
    (env : Env) (port : Port) (frame : Bytes) (seq : ℕ) (n : Node)
    → 14 ≤ length frame
    → is_own n frame ≡ false
    → find env.now n.dup_table (get_src_mac frame) seq ≡ false
    → accept_prp env port
        (copy frame seq port)
        (record { lan_id = expected_lan port; seq = seq; payload = pad_frame frame })
        n
      ≡ deliver_to_san env
          (pad_frame frame)
          (register env (get_src_mac frame) seq (expected_lan port) n)
unfolding accept_prp
accept_prp-fresh env port frame seq n h own fresh =
    rw (is_own-copy frame seq port n h, get_src_mac-encode_rct frame seq (expected_lan port) h)
      (if-false (not (expected_lan port == expected_lan port)) (note_drop (codes "path") n) _
          (ground (arith, eq→== (expected_lan port) (expected_lan port) refl))
        ∙ if-false (is_own n frame) n _ own
        ∙ if-false (find env.now n.dup_table (get_src_mac frame) seq) (note_drop (codes "dup") n) _
            fresh)

-- The first copy of a frame, on whichever LAN.
handle_copy :
    (env : Env) (port : Port) (frame : Bytes) (seq : ℕ) (n : Node)
    → 14 ≤ length frame
    → rct_lsdu frame < 4096
    → IsU16 seq
    → handle_incoming_prp_frame env port (copy frame seq port) n
      ≡ accept_prp env port
          (copy frame seq port)
          (record { lan_id = expected_lan port; seq = seq; payload = pad_frame frame })
          (count_in port n)
unfolding handle_incoming_prp_frame
handle_copy env port frame seq n h small hs =
    if-true _ _ _ (is_prp_copy frame seq port h small hs)
    ∙ rw (decode_copy frame seq port h small hs)

-- A copy of which the table knows leaves all but the counters as it is.
accept_prp-duplicate :
    (env : Env) (port : Port) (frame : Bytes) (d : Decoded) (n : Node)
    → find env.now n.dup_table (get_src_mac frame) d.seq ≡ true
    → Alike n (accept_prp env port frame d n)
unfolding accept_prp
accept_prp-duplicate env port frame d n known =
    if-Alike _ n _ _ (note_drop-Alike (codes "path") n) (
      if-Alike _ n _ _ refl
        (subst (Alike n) (sym (if-true _ _ _ known)) (note_drop-Alike (codes "dup") n)))

accepted-count_in :
    (env : Env) (port : Port) (frame : Bytes) (seq : ℕ) (n : Node)
    → Alike (accepted env port frame seq n) (accepted env port frame seq (count_in port n))
unfolding register entry_forget_ms should_forward_to_interlink multicast_allowed is_known_san
accepted-count_in env port frame seq n =
    ap (λ (x : Node). accepted env port frame seq x) (count_in-Alike port n)

first_copy :
    (env : Env) (port : Port) (frame : Bytes) (seq : ℕ) (n : Node)
    → is_hsr_node n ≡ false
    → n.has_interlink ≡ true
    → env.write_ok interlink ≡ true
    → 14 ≤ length frame
    → rct_lsdu frame < 4096
    → IsU16 seq
    → is_own n frame ≡ false
    → find env.now n.dup_table (get_src_mac frame) seq ≡ false
    → Alike
        (accepted env port frame seq n)
        (handle_incoming_prp_frame env port (copy frame seq port) n)
first_copy env port frame seq n prp bound ok h small hs own fresh =
    let n' = count_in port n in
    let k = count_in-Alike port n in
    let a =
      deliver_registered-Alike env port frame seq n' (ap (λ m. is_hsr_node m) k ∙ prp)
        (ap (λ (m : Node). m.has_interlink) k ∙ bound) ok in
    subst (Alike (accepted env port frame seq n))
      (sym (
        handle_copy env port frame seq n h small hs
        ∙ accept_prp-fresh env port frame seq n' h (is_own-Alike frame n n' k ∙ own)
            (ap (λ (m : Node). find env.now m.dup_table (get_src_mac frame) seq) k ∙ fresh)))
      (Alike-trans (accepted env port frame seq n) (accepted env port frame seq n') _
        (accepted-count_in env port frame seq n) a)

next_copy :
    (env : Env) (port : Port) (frame : Bytes) (seq : ℕ) (n : Node)
    → 14 ≤ length frame
    → rct_lsdu frame < 4096
    → IsU16 seq
    → find env.now n.dup_table (get_src_mac frame) seq ≡ true
    → Alike n (handle_incoming_prp_frame env port (copy frame seq port) n)
next_copy env port frame seq n h small hs known =
    let n' = count_in port n in
    let k = count_in-Alike port n in
    subst (Alike n) (sym (handle_copy env port frame seq n h small hs)) (
      Alike-trans n n' _ k (
        accept_prp-duplicate env port (copy frame seq port) _ n' (
          rw (get_src_mac-encode_rct frame seq (expected_lan port) h)
            (ap (λ (m : Node). find env.now m.dup_table (get_src_mac frame) seq) k ∙ known))))

-- The copies of one frame that come in, each on its LAN, at its time.
abbrev pub receive_copies : List (Env × Port) → Bytes → ℕ → Node → Node
receive_copies [] frame seq n = n
receive_copies ((env, port) ∷ rest) frame seq n =
    receive_copies rest frame seq (handle_incoming_prp_frame env port (copy frame seq port) n)

-- None of the copies comes later than a given time.
abbrev pub AllBefore : ℕ → List (Env × Port) → Type 0
AllBefore time [] = Unit {0}
AllBefore time ((env, port) ∷ rest) = (env.now ≤ time) × AllBefore time rest

next_copies :
    (copies : List (Env × Port)) (time : ℕ) (frame : Bytes) (seq : ℕ) (n : Node)
    → AllBefore time copies
    → 14 ≤ length frame
    → rct_lsdu frame < 4096
    → IsU16 seq
    → ((now : ℕ) → now ≤ time → find now n.dup_table (get_src_mac frame) seq ≡ true)
    → Alike n (receive_copies copies frame seq n)
next_copies [] time frame seq n soon h small hs known = refl
next_copies ((env, port) ∷ rest) time frame seq n (now, soon) h small hs known =
    let a = next_copy env port frame seq n h small hs (known env.now now) in
    Alike-trans n _ _ a (
      next_copies rest time frame seq _ soon h small hs
        (λ t le. ap (λ (m : Node). find t m.dup_table (get_src_mac frame) seq) a ∙ known t le))

-- A frame that a PRP node has not seen, of which copies come in on either LAN, in any order and
-- any number, the first of them at the time of env and the others within the lifetime of an entry:
-- the SAN is given the padded frame once, where the filters pass it, and no frame leaves on a LAN.
-- The frame has an Ethernet header and is not the node's own, its LSDU size fits 12 bits, the
-- number is a 16-bit one, the interlink is bound and takes the write, the table is valid and has
-- room.
pub exactly_once :
    (env : Env) (port : Port) (copies : List (Env × Port)) (frame : Bytes) (seq : ℕ) (n : Node)
    → is_hsr_node n ≡ false
    → n.has_interlink ≡ true
    → env.write_ok interlink ≡ true
    → IsOrder env.order
    → Size.IsValid n.dup_table
    → length n.dup_table.entries < n.dup_table.max_size
    → 14 ≤ length frame
    → rct_lsdu frame < 4096
    → IsU16 seq
    → is_own n frame ≡ false
    → find env.now n.dup_table (get_src_mac frame) seq ≡ false
    → AllBefore (env.now + entry_forget_ms n * millisecond) copies
    → (receive_copies ((env, port) ∷ copies) frame seq n).sent
      ≡ n.sent
        ++ (if should_forward_to_interlink env n (pad_frame frame)
            then (interlink, pad_frame frame) ∷ []
            else [])
exactly_once env port copies frame seq n prp bound ok o v room h small hs own fresh soon =
    let a = first_copy env port frame seq n prp bound ok h small hs own fresh in
    let known : (now : ℕ)
        → now ≤ env.now + entry_forget_ms n * millisecond
        → find now (accepted env port frame seq n).dup_table (get_src_mac frame) seq ≡ true =
      λ now le.
        unfold register in
        find-insert_with_expiry env.order env.now n.dup_table (get_src_mac frame) seq
          (expected_lan port) (entry_forget_ms n) o (get_src_mac-ne frame) v now (inl room) le in
    ap (λ (m : Node). m.sent)
      (Alike-trans (accepted env port frame seq n)
        (handle_incoming_prp_frame env port (copy frame seq port) n) _ a
        (next_copies copies _ frame seq _ soon h small hs
          (λ t le. ap (λ (m : Node). find t m.dup_table (get_src_mac frame) seq) a ∙ known t le)))

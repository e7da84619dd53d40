-- ===== src/Prp/Lan/EndToEnd.antt =====
-- internal/prp/prp.go: a frame on its way from one SAN to another, over two nodes and both LANs.
use prp_sim.Base.{
  done-injective, ℕ, ◌+◌, ◌*◌, ◌≤◌, ◌<◌, ◌≡◌, refl, sym, ap, ◌∙◌, subst, ◌⊎◌, inl, inr, true, false,
  List, [], ◌∷◌, if◌then◌else◌, length, drop, All, drop-append, Bytes, IsU16, done,
}
use prp_sim.Engine.Ether.{get_src_mac}
use prp_sim.Engine.Rct.{encode_rct, pad_frame, rct_lsdu}
use prp_sim.Engine.Sequence.{current}
use prp_sim.Nodetable.{millisecond, find}
use prp_sim.Nodetable.Oldest.{IsOrder}
use prp_sim.Nodetable.Size
use prp_sim.Prp.Node.{
  Port, lan_a, lan_b, interlink, Node, Env, is_hsr_node, is_own, entry_forget_ms, count_in,
}
use prp_sim.Prp.Multicast.{should_forward_to_interlink}
use prp_sim.Prp.Lan.{
  handle_incoming_prp_frame, handle_interlink_frame, send_to_lans, passes_vlan_filter, expected_lan,
}
use prp_sim.Prp.Lan.Copies.{send_to_lans_lem}
use prp_sim.Prp.Lan.Duplicates.{receive_copies, AllBefore, exactly_once}
use prp_sim.Prp.Lan.Frames.{copy}

-- What a node has sent between two of its states.
abbrev pub sent_between : Node → Node → List (Port × Bytes)
sent_between before after = drop (length before.sent) after.sent

-- A frame that comes in, by its LAN.
abbrev pub Carried : Type 0
Carried = Env × (Port × Bytes)

abbrev pub receive_all : List Carried → Node → Node
receive_all [] n = n
receive_all ((env, (port, bytes)) ∷ rest) n =
    receive_all rest (handle_incoming_prp_frame env port bytes n)

-- The frame is one of the list, on its LAN.
abbrev pub IsOneOf : Port × Bytes → List (Port × Bytes) → Type 0
IsOneOf c [] = ⊥
IsOneOf c (x ∷ xs) = (c ≡ x) ⊎ IsOneOf c xs

-- The network neither makes up frames nor changes any.
abbrev pub AllCarried : List (Port × Bytes) → List Carried → Type 0
AllCarried out arrivals = All (λ (a : Carried). IsOneOf a.1 out) arrivals

abbrev pub AllSoon : ℕ → List Carried → Type 0
AllSoon time arrivals = All (λ (a : Carried). a.0.now ≤ time) arrivals

-- The two frames of one number.
abbrev both_copies : Bytes → ℕ → List (Port × Bytes)
both_copies frame seq = (lan_a, encode_rct frame seq 0) ∷ (lan_b, encode_rct frame seq 1) ∷ []

abbrev ports : List Carried → List (Env × Port)
ports [] = []
ports ((env, (port, bytes)) ∷ rest) = (env, port) ∷ ports rest

is_copy :
    (c : Port × Bytes) (frame : Bytes) (seq : ℕ)
    → IsOneOf c (both_copies frame seq)
    → c ≡ (c.0, copy frame seq c.0)
unfolding expected_lan
is_copy c frame seq (inl a) = rw a
is_copy c frame seq (inr (inl b)) = rw b
is_copy c frame seq (inr (inr none_left)) = absurd none_left

receive_all-copies :
    (arrivals : List Carried) (frame : Bytes) (seq : ℕ) (n : Node)
    → AllCarried (both_copies frame seq) arrivals
    → receive_all arrivals n ≡ receive_copies (ports arrivals) frame seq n
receive_all-copies [] frame seq n h = refl
receive_all-copies ((env, c) ∷ rest) frame seq n (one, h) =
    ap (λ (x : Port × Bytes). receive_all rest (handle_incoming_prp_frame env x.0 x.1 n))
      (is_copy c frame seq one)
    ∙ receive_all-copies rest frame seq _ h

AllSoon-ports :
    (time : ℕ) (arrivals : List Carried) → AllSoon time arrivals → AllBefore time (ports arrivals)
AllSoon-ports time [] h = tt
AllSoon-ports time ((env, c) ∷ rest) (a, h) = (a, AllSoon-ports time rest h)

-- What leaves because of a SAN's frame.
sent_between-handle_interlink_frame :
    (env : Env) (frame : Bytes) (s t : Node)
    → s.config.trailer_enabled ≡ true
    → env.write_ok lan_a ≡ true
    → env.write_ok lan_b ≡ true
    → passes_vlan_filter s.config.vlan_filter frame ≡ done true
    → handle_interlink_frame env frame s ≡ done t
    → sent_between s t ≡ both_copies frame (current s.seq_mgr (get_src_mac frame))
unfolding handle_interlink_frame count_in
sent_between-handle_interlink_frame env frame s t on a b passes e =
    let s' = count_in interlink s in
    let e' : done (send_to_lans env frame s') ≡ done t = rw passes at e in
    ap (λ (m : Node). sent_between s m) (sym (done-injective (send_to_lans env frame s') t e'))
    ∙ ap (drop (length s.sent)) (send_to_lans_lem env frame s' on a b).0
    ∙ drop-append s.sent (both_copies frame (current s.seq_mgr (get_src_mac frame)))

-- A SAN's frame that passes the VLAN filter of a node, which appends trailers and whose LANs take
-- the write, and a second node, of the role prp-san, to which the LANs carry what the first one
-- sent: any number of these frames, at least one, in any order, changed by nothing, the first of
-- them at the time of its env and the others within the lifetime of an entry. The second node then
-- sends one thing, the padded frame, once, to its SAN, where its filters pass it. The frame has an
-- Ethernet header, its LSDU size fits 12 bits and its number 16; it is not the second node's own
-- and new to it, whose interlink is bound and takes the write and whose table is valid and has
-- room.
pub end_to_end :
    (env first : Env) (frame : Bytes) (s t n : Node) (c : Port × Bytes) (others : List Carried)
    → s.config.trailer_enabled ≡ true
    → env.write_ok lan_a ≡ true
    → env.write_ok lan_b ≡ true
    → passes_vlan_filter s.config.vlan_filter frame ≡ done true
    → handle_interlink_frame env frame s ≡ done t
    → AllCarried (sent_between s t) ((first, c) ∷ others)
    → 14 ≤ length frame
    → rct_lsdu frame < 4096
    → let seq = current s.seq_mgr (get_src_mac frame) in
      IsU16 seq
      → is_hsr_node n ≡ false
      → n.has_interlink ≡ true
      → first.write_ok interlink ≡ true
      → IsOrder first.order
      → Size.IsValid n.dup_table
      → length n.dup_table.entries < n.dup_table.max_size
      → is_own n frame ≡ false
      → find first.now n.dup_table (get_src_mac frame) seq ≡ false
      → AllSoon (first.now + entry_forget_ms n * millisecond) others
      → sent_between n (receive_all ((first, c) ∷ others) n) ≡ (
          if should_forward_to_interlink first n (pad_frame frame)
          then (interlink, pad_frame frame) ∷ []
          else [])
end_to_end env first frame s t n c others on a b passes e carried h small u16 prp bound ok order v
      room own fresh soon =
    let seq = current s.seq_mgr (get_src_mac frame) in
    let copies =
      subst (λ out. AllCarried out ((first, c) ∷ others))
        (sent_between-handle_interlink_frame env frame s t on a b passes e) carried in
    ap (λ (m : Node). sent_between n m)
      (receive_all-copies ((first, c) ∷ others) frame seq n copies)
    ∙ ap (drop (length n.sent)) (
        exactly_once first c.0 (ports others) frame seq n prp bound ok order v room h small u16 own
          fresh (AllSoon-ports _ others soon))
    ∙ drop-append n.sent _

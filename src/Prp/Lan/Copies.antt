-- ===== src/Prp/Lan/Copies.antt =====
-- internal/prp/prp.go, handleInterlinkFrame: the two copies of a SAN's frame, one on each LAN.
use prp_sim.Base.{
  if-true, ◌+◌, ◌≡◌, ap, ◌∙◌, true, [], ◌∷◌, ◌++◌, arith, if◌then◌else◌, Bytes, Text, text_eq,
  lookup-insert, to_u16,
}
use prp_sim.Engine.Ether.{get_src_mac}
use prp_sim.Engine.Sequence.{SequenceManager, current, next}
use prp_sim.Engine.Rct.{encode_rct}
use prp_sim.Prp.Node.{lan_a, lan_b, Node, Env}
use prp_sim.Prp.Effects.{learn_proxy-sent, write_both-sent, write_counted-seq_mgr}
use prp_sim.Prp.Lan.{send_to_lans}

-- Next counts up the number of the one address, modulo 2 ^ 16, and of no other.
pub current-next :
    (s : SequenceManager) (mac mac' : Text)
    → current (next s mac).1 mac'
      ≡ (if text_eq mac mac' then to_u16 (current s mac + 1) else current s mac')
unfolding next current
current-next s mac mac' = ground (arith, lookup-insert mac mac' (to_u16 (current s mac + 1)) s.seqs)

pub send_to_lans_lem :
    (env : Env) (frame : Bytes) (n : Node)
    → n.config.trailer_enabled ≡ true
    → env.write_ok lan_a ≡ true
    → env.write_ok lan_b ≡ true
    → let seq = current n.seq_mgr (get_src_mac frame) in
      ((send_to_lans env frame n).sent
        ≡ n.sent ++ ((lan_a, encode_rct frame seq 0) ∷ (lan_b, encode_rct frame seq 1) ∷ []))
      × ((send_to_lans env frame n).seq_mgr ≡ (next n.seq_mgr (get_src_mac frame)).1)
unfolding send_to_lans
send_to_lans_lem env frame n on a b =
    let (same, mgr) = learn_proxy-sent env frame n in
    let tagged = if-true n.config.trailer_enabled _ _ on in
    (
      ap (λ (m : Node). m.sent) tagged
          ∙ write_both-sent env _ _ _ a b
          ∙ unfold next in rw (same, mgr),
      ap (λ (m : Node). m.seq_mgr) tagged
          ∙ write_counted-seq_mgr env lan_b _ _
          ∙ write_counted-seq_mgr env lan_a _ _
          ∙ ap (λ s. (next s (get_src_mac frame)).1) mgr,
    )

-- ===== src/Prp/Lan/Frames.antt =====
-- internal/prp/prp.go and internal/engine/engine.go: what the receiver reads in a copy of a frame.
use prp_sim.Base.{
  ℕ, ◌≤◌, ◌<◌, ◌≡◌, ap, ◌∙◌, Bool, true, false, none, some, ◌++◌, arith, lt→ltb, le→ltb, length,
  drop, length-append, length-drop, Bytes, text_eq, IsU16,
}
use prp_sim.Engine.Ether.{get_src_mac}
use prp_sim.Engine.Ether.Macs.{get_src_mac-append}
use prp_sim.Engine.Rct.{encode_rct, decode_rct, is_prp_frame, pad_frame, rct_lsdu}
use prp_sim.Engine.Rct.RoundTrip.{decode_rct-encode_rct, length-pad_frame}
use prp_sim.Engine.Hsr.Fields.{drop-append_le, take-append_le}
use prp_sim.Prp.Node.{Port, lan_a, lan_b, interlink, Node, is_own, src_mac_bytes}
use prp_sim.Prp.Lan.{expected_lan}

-- The copy of a frame that belongs on a port's LAN.
abbrev pub copy : Bytes → ℕ → Port → Bytes
copy frame seq port = encode_rct frame seq (expected_lan port)

expected_lan-lt : (port : Port) → expected_lan port < 2
unfolding expected_lan
expected_lan-lt lan_a = omega arith
expected_lan-lt lan_b = omega arith
expected_lan-lt interlink = omega arith

pub get_src_mac-encode_rct :
    (frame : Bytes) (seq lan : ℕ)
    → 14 ≤ length frame
    → get_src_mac (encode_rct frame seq lan) ≡ get_src_mac frame
unfolding encode_rct
get_src_mac-encode_rct frame seq lan h =
    get_src_mac-append (pad_frame frame) _ (omega (arith, length-pad_frame frame))
    ∙ unfold pad_frame in get_src_mac-append frame _ (omega arith)

src_mac_bytes-append :
    (xs ys : Bytes) → 12 ≤ length xs → src_mac_bytes (xs ++ ys) ≡ src_mac_bytes xs
unfolding src_mac_bytes
src_mac_bytes-append xs ys h = rw (
  le→ltb (length xs) 12 h,
  le→ltb (length (xs ++ ys)) 12 (omega (arith, length-append xs ys)),
  drop-append_le 6 xs ys (omega arith),
  take-append_le 6 (drop 6 xs) ys (omega (arith, length-drop 6 xs)),
)

pub decode_copy :
    (frame : Bytes) (seq : ℕ) (port : Port)
    → 14 ≤ length frame
    → rct_lsdu frame < 4096
    → IsU16 seq
    → decode_rct (copy frame seq port)
      ≡ some (record { lan_id = expected_lan port; seq = seq; payload = pad_frame frame })
decode_copy frame seq port h small hs =
    decode_rct-encode_rct frame seq (expected_lan port) h hs (expected_lan-lt port)
    ∙ rw (lt→ltb _ 4096 small)

pub is_prp_copy :
    (frame : Bytes) (seq : ℕ) (port : Port)
    → 14 ≤ length frame
    → rct_lsdu frame < 4096
    → IsU16 seq
    → is_prp_frame (copy frame seq port) ≡ true
unfolding is_prp_frame expected_lan
is_prp_copy frame seq lan_a h small hs = rw (decode_copy frame seq lan_a h small hs, is_prp_frame)
is_prp_copy frame seq lan_b h small hs = rw (decode_copy frame seq lan_b h small hs, is_prp_frame)
is_prp_copy frame seq interlink h small hs =
    rw (decode_copy frame seq interlink h small hs, is_prp_frame)

pub is_own-copy :
    (frame : Bytes) (seq : ℕ) (port : Port) (n : Node)
    → 14 ≤ length frame
    → is_own n (copy frame seq port) ≡ is_own n frame
unfolding is_own encode_rct
is_own-copy frame seq port n h =
    ap (λ s. elim n.mac as (λ _. Bool) [ none ↦ false | some mac ↦ text_eq mac s ])
      (src_mac_bytes-append (pad_frame frame) _ (omega (arith, length-pad_frame frame))
        ∙ unfold pad_frame in src_mac_bytes-append frame _ (omega arith))

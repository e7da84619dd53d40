-- ===== src/Engine/Ether/Types.antt =====
-- internal/engine/engine.go, GetEtherType: the type behind the VLAN tags.
use prp_sim.Base.{
  ℕ, zero, suc, ◌+◌, ◌≤◌, ◌<◌, ◌≡◌, ◌∙◌, true, false, arith, le→ltb, length, Bytes, u16_at,
}
use prp_sim.Engine.Ether.{is_vlan_type, ether_type_loop, get_ether_type}

pub loop_stop :
    (fuel : ℕ) (frame : Bytes) (off : ℕ)
    → off + 2 ≤ length frame
    → is_vlan_type (u16_at frame off) ≡ false
    → ether_type_loop (suc fuel) frame off ≡ u16_at frame off
unfolding ether_type_loop
loop_stop fuel frame off h v = rw (le→ltb (length frame) (off + 2) h, v)

pub loop_skip :
    (fuel : ℕ) (frame : Bytes) (off : ℕ)
    → off + 6 ≤ length frame
    → is_vlan_type (u16_at frame off) ≡ true
    → ether_type_loop (suc fuel) frame off ≡ ether_type_loop fuel frame (off + 4)
unfolding ether_type_loop
loop_skip fuel frame off h v = rw (
  le→ltb (length frame) (off + 2) (omega arith),
  v,
  le→ltb (length frame) (off + 4 + 2) (omega arith),
)

-- A chain of VLAN tags, of any length, from an offset on, up to the offset of a type that is none.
pub data IsTagged (frame : Bytes) : ℕ → ℕ → Type 0 where
  last : {off : ℕ} → is_vlan_type (u16_at frame off) ≡ false → IsTagged frame off off
  tag :
      {off end : ℕ}
      → is_vlan_type (u16_at frame off) ≡ true
      → IsTagged frame (off + 4) end
      → IsTagged frame off end

tagged-le : (frame : Bytes) (off end : ℕ) → IsTagged frame off end → off ≤ end
tagged-le frame off end (last v) = omega arith
tagged-le frame off end (tag v t) = omega (arith, tagged-le frame (off + 4) end t)

loop-tagged :
    (fuel : ℕ) (frame : Bytes) (off end : ℕ)
    → IsTagged frame off end
    → end + 2 ≤ length frame
    → end < off + fuel
    → ether_type_loop fuel frame off ≡ u16_at frame end
loop-tagged zero frame off end t h f = absurd (omega (arith, tagged-le frame off end t))
loop-tagged (suc fuel) frame off end (last v) h f = loop_stop fuel frame off h v
loop-tagged (suc fuel) frame off end (tag v t) h f =
    loop_skip fuel frame off (omega (arith, tagged-le frame (off + 4) end t)) v
    ∙ loop-tagged fuel frame (off + 4) end t h (omega arith)

-- Behind any chain of VLAN tags that the frame holds whole, GetEtherType finds the first type that
-- is no VLAN tag's. The bound of the model's loop, the length of the frame, is never met.
pub get_ether_type_lem :
    (frame : Bytes) (end : ℕ)
    → IsTagged frame 12 end
    → end + 2 ≤ length frame
    → get_ether_type frame ≡ u16_at frame end
unfolding get_ether_type
get_ether_type_lem frame end t h = loop-tagged (length frame) frame 12 end t h (omega arith)

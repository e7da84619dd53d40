-- ===== src/Iface/Receive.antt =====
-- internal/iface/iface.go: RawSocket.Read, which puts back the VLAN tag that the kernel took off.
pub mod Offload
use prp_sim.Base.{
  ℕ, ◌+◌, ◌*◌, ◌/◌, ◌%◌, Bool, ◌||◌, not, List, [], ◌∷◌, ◌++◌, ltb, ◌==◌, if◌then◌else◌, length,
  take, drop, Bytes, byte_at, put_u16,
}

-- A control message of a received frame, as unix.ParseSocketControlMessage gives it. `is_auxdata` is
-- the test of its level and type.
pub record ControlMessage : Type 0 where
  pub is_auxdata : Bool
  pub payload : Bytes

-- `binary.LittleEndian.Uint16(data[i : i+2])`
abbrev pub u16_le : Bytes → ℕ → ℕ
u16_le payload i = byte_at payload i + byte_at payload (i + 1) * 256

-- `status & unix.TP_STATUS_VLAN_VALID != 0`, the bit 16 of the lowest byte.
abbrev pub is_vlan_valid : Bytes → Bool
is_vlan_valid payload = (byte_at payload 0 / 16) % 2 == 1

unfoldable pub insert_tag : ℕ → ℕ → Bytes → Bytes
insert_tag tpid tci frame = take 12 frame ++ (put_u16 tpid ++ (put_u16 tci ++ drop 12 frame))

-- A TPID of 0 is one that was not reported.
unfoldable pub tag_frame : ℕ → Bytes → Bytes → Bytes
unfolding insert_tag
tag_frame buf_len payload frame =
    let tpid = u16_le payload 18 in
    if ltb (length frame) 12 || ltb buf_len (length frame + 4)
    then frame
    else insert_tag (if tpid == 0 then 0x8100 else tpid) (u16_le payload 16) frame

-- What Read leaves in a buffer of the given length, where the kernel put the frame there. The first
-- message with a tag counts.
unfoldable pub read : ℕ → Bytes → List ControlMessage → Bytes
unfolding tag_frame
read buf_len frame [] = frame
read buf_len frame (m ∷ rest) =
    let later = read buf_len frame rest in
    if not m.is_auxdata || ltb (length m.payload) 20 || not (is_vlan_valid m.payload)
    then later
    else tag_frame buf_len m.payload frame

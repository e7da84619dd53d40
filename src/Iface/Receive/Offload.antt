-- ===== src/Iface/Receive/Offload.antt =====
-- A frame whose tag the kernel took off is read as it was on the wire.
use prp_sim.Base.{
  if-false, ℕ, ◌+◌, ◌/◌, ◌%◌, ◌≤◌, ◌<◌, ◌≡◌, refl, sym, ap, ◌∙◌, true, false, ◌||◌, not, List, [],
  ◌∷◌, ◌++◌, arith, ltb, ◌==◌, if◌then◌else◌, le→ltb, length, take, drop, length-append,
  take-append, drop-append, get_or-append_at, Bytes, byte_at, put_u16, IsU16,
}
use prp_sim.Iface.Receive.{ControlMessage, u16_le, insert_tag, tag_frame, read}

-- The auxiliary data of a packet, 20 bytes: the status, the lengths and the offsets, then the tag's
-- control information and its type, in the byte order of the host.
abbrev pub auxdata : ℕ → Bytes → ℕ → ℕ → ControlMessage
auxdata status middle tci tpid = record {
  is_auxdata = true;
  payload = status ∷ (middle ++ (tci % 256 ∷ tci / 256 % 256 ∷ tpid % 256 ∷ tpid / 256 % 256 ∷ []));
}

-- None of the messages is auxiliary data.
abbrev pub AllOther : List ControlMessage → Type 0
AllOther [] = Unit {0}
AllOther (m ∷ ms) = (m.is_auxdata ≡ false) × AllOther ms

read-others :
    (buf_len : ℕ) (frame : Bytes) (others rest : List ControlMessage)
    → AllOther others
    → read buf_len frame (others ++ rest) ≡ read buf_len frame rest
unfolding read
read-others buf_len frame [] rest h = refl
read-others buf_len frame (m ∷ others) rest (e, h) = rw e (read-others buf_len frame others rest h)

module _ (status tci tpid : ℕ) (middle : Bytes) (size : length middle ≡ 15) (tci_word : IsU16 tci)
    (tpid_word : IsU16 tpid) where
  abbrev tail : Bytes
  tail = tci % 256 ∷ tci / 256 % 256 ∷ tpid % 256 ∷ tpid / 256 % 256 ∷ []

  byte_at-tail : (i : ℕ) → byte_at (status ∷ (middle ++ tail)) (16 + i) ≡ byte_at tail i
  byte_at-tail i = get_or-append_at (status ∷ middle) tail (16 + i) i 0 (omega (arith, size))

  read_tci : u16_le (status ∷ (middle ++ tail)) 16 ≡ tci
  read_tci = omega (arith, byte_at-tail 0, byte_at-tail 1)

  read_tpid : u16_le (status ∷ (middle ++ tail)) 18 ≡ tpid
  read_tpid = omega (arith, byte_at-tail 2, byte_at-tail 3)

  whole : ltb (length (status ∷ (middle ++ tail))) 20 ≡ false
  whole = le→ltb _ 20 (omega (arith, length-append middle tail, size))

  insert_tag-front :
      (front body : Bytes)
      → length front ≡ 12
      → insert_tag tpid tci (front ++ body) ≡ front ++ (put_u16 tpid ++ (put_u16 tci ++ body))
  unfolding insert_tag
  insert_tag-front front body e =
      ap (λ n. take n (front ++ body) ++ (put_u16 tpid ++ (put_u16 tci ++ drop n (front ++ body))))
        (sym e)
      ∙ ap (λ xs. xs ++ (put_u16 tpid ++ (put_u16 tci ++ drop (length front) (front ++ body))))
          (take-append front body)
      ∙ ap (λ xs. front ++ (put_u16 tpid ++ (put_u16 tci ++ xs))) (drop-append front body)

  tag_frame-front :
      (front body : Bytes) (buf_len : ℕ)
      → length front ≡ 12
      → length (front ++ body) + 4 ≤ buf_len
      → 0 < tpid
      → tag_frame buf_len (status ∷ (middle ++ tail)) (front ++ body)
        ≡ front ++ (put_u16 tpid ++ (put_u16 tci ++ body))
  unfolding tag_frame
  tag_frame-front front body buf_len e fits reported =
      if-false (ltb (length (front ++ body)) 12 || ltb buf_len (length (front ++ body) + 4))
        (front ++ body) _ (ground (arith, length-append front body))
      ∙ ap
          (λ v.
            insert_tag (if v == 0 then 0x8100 else v) (u16_le (status ∷ (middle ++ tail)) 16)
              (front ++ body))
          read_tpid
      ∙ ap (λ v. insert_tag (if tpid == 0 then 0x8100 else tpid) v (front ++ body)) read_tci
      ∙ ap (λ v. insert_tag v tci (front ++ body)) (if-false (tpid == 0) _ _ (ground arith))
      ∙ insert_tag-front front body e

-- A frame whose VLAN tag the kernel took off and reports, type and priority bits, in the packet's
-- auxiliary data, behind any other control messages: Read gives the frame as it was on the wire,
-- if the buffer has room for the tag. Both words of the tag have 16 bits, and its type is not 0.
pub read-offloaded :
    (front body : Bytes) (tpid tci buf_len status : ℕ) (middle : Bytes)
    (others rest : List ControlMessage)
    → length front ≡ 12
    → length (front ++ body) + 4 ≤ buf_len
    → IsU16 tci
    → IsU16 tpid
    → 0 < tpid
    → (status / 16) % 2 ≡ 1
    → length middle ≡ 15
    → AllOther others
    → read buf_len (front ++ body) (others ++ (auxdata status middle tci tpid ∷ rest))
      ≡ front ++ (put_u16 tpid ++ (put_u16 tci ++ body))
unfolding read
read-offloaded front body tpid tci buf_len status middle others rest macs fits tci_word tpid_word
      reported valid size other =
    read-others buf_len (front ++ body) others _ other
    ∙ if-false
        (ltb (length (status ∷ (middle ++ tail status tci tpid middle size tci_word tpid_word))) 20
          || not ((status / 16) % 2 == 1))
        (read buf_len (front ++ body) rest) _
        (ground (arith, whole status tci tpid middle size tci_word tpid_word))
    ∙ tag_frame-front status tci tpid middle size tci_word tpid_word front body buf_len macs fits
        reported

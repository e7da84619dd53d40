-- ===== src/Tui/Screen/Columns.antt =====
-- How wide the rows of the screen are.
use prp_sim.Base.{
  ℕ, ◌-◌, ◌≤◌, ◌<◌, ◌≡◌, refl, ◌⊎◌, inl, inr, List, [], ◌∷◌, ◌++◌, arith, leb, Bool-cases, length,
  take, All, length-append, length-take, Text, codes,
}
use prp_sim.Tui.Screen.{rune_len, byte_len, truncate, log_rows}

length-byte_len : (s : Text) → length s ≤ byte_len s
unfolding byte_len rune_len
length-byte_len [] = omega arith
length-byte_len (c ∷ s) = ground (arith, length-byte_len s)

truncate-fits : (s : Text) (n : ℕ) → length s ≤ n → truncate s n ≡ s
unfolding truncate
truncate-fits s n fits = ground arith

truncate-long : (s : Text) (n : ℕ) → n < length s → truncate s n ≡ take (n - 3) s ++ codes "..."
unfolding truncate
truncate-long s n long = ground (arith, length-byte_len s)

-- A text that fits is left as it is, and another one is cut to the width, with three dots at its end.
pub truncate_lem :
    (s : Text) (n : ℕ)
    → 3 ≤ n
    → (length (truncate s n) ≤ n)
      × ((truncate s n ≡ s) ⊎ (truncate s n ≡ take (n - 3) s ++ codes "..."))
truncate_lem s n wide = elim (Bool-cases (leb (length s) n)) [
  | inl fits ↦ let e = truncate-fits s n (ground arith) in (rw e (ground arith), inl e)
  | inr long ↦
      let e = truncate-long s n (ground arith) in
      (
        rw e (omega (arith, length-append (take (n - 3) s) (codes "..."), length-take (n - 3) s)),
        inr e,
      )
]

pub log_rows_lem :
    (logs : List Text)
    → (length (log_rows logs) ≡ length logs) × All (λ row. length row ≤ 78) (log_rows logs)
unfolding log_rows
log_rows_lem [] = (refl, tt)
log_rows_lem (l ∷ logs) =
    let (same, narrow) = log_rows_lem logs in
    (omega (arith, same), (omega (arith, (truncate_lem l 76 (omega arith)).0), narrow))

-- ===== src/Tui/Lines.antt =====
-- The lines of a text, and the last of a list.
use prp_sim.Base.{
  if-false, ℕ, zero, suc, ◌+◌, ◌-◌, ◌≤◌, ◌≡◌, refl, sym, ap, ◌∙◌, ◌≢◌, inl, inr, Bool, true, false,
  ◌&&◌, not, List, [], ◌∷◌, ◌++◌, append-nil, append_assoc, arith, ◌==◌, if◌then◌else◌, Bool-cases,
  length, drop, All, length-append, length-drop, All-append, Bytes, Text,
}
use native.Mathlib.Nat.{suc-add, zero-add}

-- The last elements of a list, at most `n` of them.
abbrev pub last_of : {A : Type 0} → ℕ → List A → List A
last_of n xs = drop (length xs - n) xs

-- The complete lines of a text that are not empty, `line` being the start of the first.
abbrev pub complete_lines : Text → Bytes → List Text
complete_lines line [] = []
complete_lines line (c ∷ s) =
    let rest = complete_lines (if c == 10 then [] else line ++ (c ∷ [])) s in
    if c == 10 && not (length line == 0) then line ∷ rest else rest

-- The bytes behind the last line break.
abbrev pub open_line : Text → Bytes → Text
open_line line [] = line
open_line line (c ∷ s) = open_line (if c == 10 then [] else line ++ (c ∷ [])) s

abbrev pub HasNoBreak : Text → Type 0
HasNoBreak = All (λ c. c ≢ 10)

pub drop-nil : {A : Type 0} → (k : ℕ) → drop k (◌++◌ {A = A} [] []) ≡ []
drop-nil zero = refl
drop-nil (suc k) = refl

drop-drop : {A : Type 0} → (j k : ℕ) (xs : List A) → drop j (drop k xs) ≡ drop (k + j) xs
drop-drop j zero xs = rw (zero-add j)
drop-drop j (suc k) [] = drop-nil j ∙ sym (drop-nil (suc k + j))
drop-drop j (suc k) (x ∷ xs) = rw (suc-add k j) (drop-drop j k xs)

drop-append_short :
    {A : Type 0} (k : ℕ) (xs ys : List A) → k ≤ length xs → drop k xs ++ ys ≡ drop k (xs ++ ys)
drop-append_short zero xs ys h = refl
drop-append_short (suc k) [] ys h = absurd (omega arith)
drop-append_short (suc k) (x ∷ xs) ys h = drop-append_short k xs ys (omega arith)

pub last_of-short : (n : ℕ) (xs : List Text) → length xs ≤ n → last_of n xs ≡ xs
last_of-short n xs h = let e : length xs - n ≡ 0 = omega arith in ap (λ k. drop k xs) e

pub length-last_of : (n : ℕ) (xs : List Text) → length (last_of n xs) ≤ n
length-last_of n xs = omega (arith, length-drop (length xs - n) xs)

-- The last of the last are the last.
pub last_of-append :
    (n : ℕ) (xs ys : List Text) → last_of n (last_of n xs ++ ys) ≡ last_of n (xs ++ ys)
last_of-append n xs ys =
    let k = length xs - n in
    ap (last_of n) (drop-append_short k xs ys (omega arith))
    ∙ drop-drop (length (drop k (xs ++ ys)) - n) k (xs ++ ys)
    ∙ ap (λ i. drop i (xs ++ ys)) (omega (arith, length-drop k (xs ++ ys), length-append xs ys))

pub complete_lines-append :
    (line : Text) (xs ys : Bytes)
    → complete_lines line (xs ++ ys)
      ≡ complete_lines line xs ++ complete_lines (open_line line xs) ys
complete_lines-append line [] ys = refl
complete_lines-append line (c ∷ xs) ys =
    if-append (c == 10 && not (length line == 0)) line _ _
      (complete_lines (open_line (if c == 10 then [] else line ++ (c ∷ [])) xs) ys)
      (complete_lines-append (if c == 10 then [] else line ++ (c ∷ [])) xs ys)
  where
    if-append :
        (t : Bool) (l : Text) (whole front back : List Text)
        → whole ≡ front ++ back
        → (if t then l ∷ whole else whole) ≡ (if t then l ∷ front else front) ++ back
    if-append true l whole front back e = ap (◌∷◌ l) e
    if-append false l whole front back e = e

pub open_line-append :
    (line : Text) (xs ys : Bytes) → open_line line (xs ++ ys) ≡ open_line (open_line line xs) ys
open_line-append line [] ys = refl
open_line-append line (c ∷ xs) ys =
    open_line-append (if c == 10 then [] else line ++ (c ∷ [])) xs ys

-- Bytes without a break only lengthen the line.
pub front-lines :
    (front line : Text) (s : Bytes)
    → HasNoBreak front
    → (complete_lines line (front ++ s) ≡ complete_lines (line ++ front) s)
      × (open_line line (front ++ s) ≡ open_line (line ++ front) s)
front-lines [] line s h = rw (append-nil line) (refl, refl)
front-lines (c ∷ front) line s (ne, h) =
    let (lines, rest) = front-lines front (line ++ (c ∷ [])) s h in
    let other : (c == 10) ≡ false = ground arith in
    let longer : (if c == 10 then [] else line ++ (c ∷ [])) ≡ line ++ (c ∷ []) =
      if-false (c == 10) [] (line ++ (c ∷ [])) other in
    let moved = append_assoc line (c ∷ []) front in
    (
      if-false (c == 10 && not (length line == 0)) _ _ (ground (arith, other))
          ∙ ap (λ l. complete_lines l (front ++ s)) longer
          ∙ lines
          ∙ ap (λ l. complete_lines l s) moved,
      ap (λ l. open_line l (front ++ s)) longer ∙ rest ∙ ap (λ l. open_line l s) moved,
    )

pub open_line-HasNoBreak :
    (line : Text) (s : Bytes) → HasNoBreak line → HasNoBreak (open_line line s)
open_line-HasNoBreak line [] h = h
open_line-HasNoBreak line (c ∷ s) h = elim (Bool-cases (c == 10)) [
  | inl ends ↦ rw ends (open_line-HasNoBreak [] s tt)
  | inr other ↦ rw other (
      open_line-HasNoBreak (line ++ (c ∷ [])) s
        (All-append _ line (c ∷ []) h ((λ e. ground arith), tt)))
]

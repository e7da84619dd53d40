-- ===== src/Base/Lists.antt =====
-- Byte slices as lists measured and indexed by native numbers, under the library's names.
use Prim.Native.Nat.{ℕ, zero, suc, ◌+◌, ◌-◌, ◌*◌, ◌/◌, ◌%◌, ◌<◌, min}
use mathlib.Core.Path.{◌≡◌, refl, ap}
use mathlib.Core.List.{List, [], ◌∷◌, ◌++◌}
use native.Mathlib.Nat.{suc-add, zero-add}
use native.Mathlib.Omega.{arith}

module _ {ℓ} {A : Type ℓ} where
  abbrev pub length : List A → ℕ
  length [] = 0
  length (x ∷ xs) = suc (length xs)

  abbrev pub get_or : List A → ℕ → A → A
  get_or [] i d = d
  get_or (x ∷ xs) zero d = x
  get_or (x ∷ xs) (suc i) d = get_or xs i d

  abbrev pub take : ℕ → List A → List A
  take zero xs = []
  take (suc n) [] = []
  take (suc n) (x ∷ xs) = x ∷ take n xs

  abbrev pub drop : ℕ → List A → List A
  drop zero xs = xs
  drop (suc n) [] = []
  drop (suc n) (x ∷ xs) = drop n xs

  abbrev pub replicate : ℕ → A → List A
  replicate zero a = []
  replicate (suc n) a = a ∷ replicate n a

  abbrev pub All {κ} : (A → Type κ) → List A → Type κ
  All P [] = Unit {κ}
  All P (x ∷ xs) = P x × All P xs

  pub length-append : (xs ys : List A) → length (xs ++ ys) ≡ length xs + length ys
  length-append [] ys = omega arith
  length-append (x ∷ xs) ys = omega (arith, length-append xs ys)

  pub length-take : (n : ℕ) (xs : List A) → length (take n xs) ≡ min n (length xs)
  length-take zero xs = omega arith
  length-take (suc n) [] = omega arith
  length-take (suc n) (x ∷ xs) = omega (arith, length-take n xs)

  pub length-drop : (n : ℕ) (xs : List A) → length (drop n xs) ≡ length xs - n
  length-drop zero xs = omega arith
  length-drop (suc n) [] = omega arith
  length-drop (suc n) (x ∷ xs) = omega (arith, length-drop n xs)

  pub length-replicate : (n : ℕ) (a : A) → length (replicate n a) ≡ n
  length-replicate zero a = refl
  length-replicate (suc n) a = ap suc (length-replicate n a)

  pub take-append-drop : (n : ℕ) (xs : List A) → take n xs ++ drop n xs ≡ xs
  take-append-drop zero xs = refl
  take-append-drop (suc n) [] = refl
  take-append-drop (suc n) (x ∷ xs) = ap (◌∷◌ x) (take-append-drop n xs)

  pub take-append : (xs ys : List A) → take (length xs) (xs ++ ys) ≡ xs
  take-append [] ys = refl
  take-append (x ∷ xs) ys = ap (◌∷◌ x) (take-append xs ys)

  pub drop-append : (xs ys : List A) → drop (length xs) (xs ++ ys) ≡ ys
  drop-append [] ys = refl
  drop-append (x ∷ xs) ys = drop-append xs ys

  pub get_or-append_left :
      (xs ys : List A) (i : ℕ) (d : A) → i < length xs → get_or (xs ++ ys) i d ≡ get_or xs i d
  get_or-append_left [] ys i d h = absurd (omega arith)
  get_or-append_left (x ∷ xs) ys zero d h = refl
  get_or-append_left (x ∷ xs) ys (suc i) d h = get_or-append_left xs ys i d (omega arith)

  pub get_or-append_right :
      (xs ys : List A) (i : ℕ) (d : A) → get_or (xs ++ ys) (length xs + i) d ≡ get_or ys i d
  get_or-append_right [] ys i d = rw (zero-add i)
  get_or-append_right (x ∷ xs) ys i d = rw (suc-add (length xs) i) (get_or-append_right xs ys i d)

  -- An index past a prefix of known length reads the rest.
  pub get_or-append_at :
      (xs ys : List A) (n i : ℕ) (d : A) → n ≡ length xs + i → get_or (xs ++ ys) n d ≡ get_or ys i d
  get_or-append_at xs ys n i d e = rw e (get_or-append_right xs ys i d)

  pub get_or-take : (n i : ℕ) (xs : List A) (d : A) → i < n → get_or (take n xs) i d ≡ get_or xs i d
  get_or-take zero i xs d h = absurd (omega arith)
  get_or-take (suc n) i [] d h = refl
  get_or-take (suc n) zero (x ∷ xs) d h = refl
  get_or-take (suc n) (suc i) (x ∷ xs) d h = get_or-take n i xs d (omega arith)

  pub get_or-drop : (n i : ℕ) (xs : List A) (d : A) → get_or (drop n xs) i d ≡ get_or xs (n + i) d
  get_or-drop zero i xs d = rw (zero-add i)
  get_or-drop (suc n) i [] d = refl
  get_or-drop (suc n) i (x ∷ xs) d = rw (suc-add n i) (get_or-drop n i xs d)

  pub All-append {κ} : (P : A → Type κ) (xs ys : List A) → All P xs → All P ys → All P (xs ++ ys)
  All-append P [] ys hx hy = hy
  All-append P (x ∷ xs) ys hx hy = (hx.0, All-append P xs ys hx.1 hy)

-- A Go byte slice. Every element is below 256 where `All IsByte` is assumed.
abbrev pub Bytes : Type 0
Bytes = List ℕ

abbrev pub IsByte : ℕ → Type 0
IsByte b = b < 256

-- `frame[i]`. The code tests the length first; where it does not, the model tests it.
abbrev pub byte_at : Bytes → ℕ → ℕ
byte_at frame i = get_or frame i 0

-- `frame[lo:hi]`.
abbrev pub slice : Bytes → ℕ → ℕ → Bytes
slice frame lo hi = take (hi - lo) (drop lo frame)

-- `binary.BigEndian.Uint16(frame[i:i+2])`.
unfoldable pub u16_at : Bytes → ℕ → ℕ
u16_at frame i = byte_at frame i * 256 + byte_at frame (i + 1)

-- The two bytes that `binary.BigEndian.PutUint16` writes.
abbrev pub put_u16 : ℕ → Bytes
put_u16 v = (v / 256 % 256) ∷ (v % 256) ∷ []

pub u16_at-append_left :
    (xs ys : Bytes) (i : ℕ) → i + 1 < length xs → u16_at (xs ++ ys) i ≡ u16_at xs i
unfolding u16_at
u16_at-append_left xs ys i h =
    rw (get_or-append_left xs ys i 0 (omega arith), get_or-append_left xs ys (i + 1) 0 h)

pub u16_at-append_at :
    (xs ys : Bytes) (n i : ℕ) → n ≡ length xs + i → u16_at (xs ++ ys) n ≡ u16_at ys i
unfolding u16_at
u16_at-append_at xs ys n i e =
    rw (get_or-append_at xs ys n i 0 e, get_or-append_at xs ys (n + 1) (i + 1) 0 (omega arith))

pub byte_at-IsByte : (xs : Bytes) (i : ℕ) → All IsByte xs → byte_at xs i < 256
byte_at-IsByte [] i h = omega arith
byte_at-IsByte (x ∷ xs) zero h = h.0
byte_at-IsByte (x ∷ xs) (suc i) h = byte_at-IsByte xs i h.1

pub u16_at-lt : (xs : Bytes) (i : ℕ) → All IsByte xs → u16_at xs i < 65536
unfolding u16_at
u16_at-lt xs i h = omega (arith, byte_at-IsByte xs i h, byte_at-IsByte xs (i + 1) h)

pub put_u16-IsByte : (v : ℕ) → All IsByte (put_u16 v)
put_u16-IsByte v = omega arith

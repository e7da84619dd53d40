-- ===== src/Iec/Walk/Fuel.antt =====
-- internal/iec/goose.go and sv.go: the walk over the fields ends by itself.
use prp_sim.Base.{
  panics, ℕ, zero, suc, ◌+◌, ◌/◌, ◌%◌, ◌^◌, ◌≤◌, ◌<◌, ◌≡◌, refl, Bool, true, false, Option, none,
  some, [], ◌∷◌, arith, ltb, leb, ◌==◌, if◌then◌else◌, length, length-drop, Bytes, byte_at, slice,
  Outcome, done, panics, ◌>>=◌,
}
use prp_sim.Iec.Ber.{parse_length, read_length, Tlv, parse_value, parse_tlv}
use prp_sim.Iec.Walk.{walk}

-- What a parsed field leaves has fewer bytes.
data IsShorter (n : ℕ) : Outcome (Option Tlv) → Type 0 where
  crashed : IsShorter n panics
  ended : IsShorter n (done none)
  shorter : {t : Tlv} → length t.rest < n → IsShorter n (done (some t))

if-IsShorter :
    {n : ℕ} (b : Bool) (x y : Outcome (Option Tlv))
    → (b ≡ true → IsShorter n x)
    → (b ≡ false → IsShorter n y)
    → IsShorter n (if b then x else y)
if-IsShorter true x y hx hy = hx refl
if-IsShorter false x y hx hy = hy refl

parse_value-IsShorter :
    (bytes : Bytes) (n off : ℕ)
    → 0 < length bytes
    → 0 < off
    → IsShorter (length bytes) (parse_value bytes n off)
unfolding parse_value
parse_value-IsShorter bytes n off some_left past =
    if-IsShorter (leb (2 ^ 63) (off + n)) _ _ (λ _. crashed)
      (λ _.
        if-IsShorter (ltb (length bytes) (off + n)) _ _ (λ _. ended)
          (λ _. shorter (omega (arith, length-drop (off + n) bytes))))

-- The value stands behind the tag.
abbrev StartsLater : Option (ℕ × ℕ) → Type 0
StartsLater none = Unit {0}
StartsLater (some (n, off)) = 0 < off

if-StartsLater :
    (b : Bool) (x y : Option (ℕ × ℕ))
    → StartsLater x
    → StartsLater y
    → StartsLater (if b then x else y)
if-StartsLater true x y hx hy = hx
if-StartsLater false x y hx hy = hy

parse_length-StartsLater : (bytes : Bytes) → StartsLater (parse_length bytes)
unfolding parse_length
parse_length-StartsLater bytes =
    let count = byte_at bytes 1 % 128 in
    if-StartsLater (byte_at bytes 1 / 128 % 2 == 0) (some (byte_at bytes 1, 2)) _ (omega arith) (
      if-StartsLater (ltb (length bytes) (2 + count)) none
        (some (read_length 0 (slice bytes 2 (2 + count)), 2 + count)) tt (omega arith))

parse_tlv-IsShorter : (bytes : Bytes) → IsShorter (length bytes) (parse_tlv bytes)
unfolding parse_tlv
parse_tlv-IsShorter bytes =
    if-IsShorter (ltb (length bytes) 2) _ _ (λ _. ended)
      (λ long. go (parse_length bytes) (parse_length-StartsLater bytes) (ground arith))
  where
    go :
        (header : Option (ℕ × ℕ))
        → StartsLater header
        → 0 < length bytes
        → IsShorter (length bytes) (elim header as (λ _. Outcome (Option Tlv)) [
          | none ↦ done none
          | some (n, off) ↦ parse_value bytes n off
        ])
    go none h left = ended
    go (some (n, off)) h left = parse_value-IsShorter bytes n off left h

-- Any two bounds that are no fewer than the bytes give the same walk: the bound is never met.
pub walk_fuel :
    {S : Type 0} (field : S → ℕ → Bytes → Outcome S) (fuel fuel' : ℕ) (rest : Bytes) (s : S)
    → length rest ≤ fuel
    → length rest ≤ fuel'
    → walk field fuel rest s ≡ walk field fuel' rest s
unfolding walk
walk_fuel field zero zero rest s h h' = refl
walk_fuel field zero (suc fuel') [] s h h' = refl
walk_fuel field zero (suc fuel') (b ∷ rest) s h h' = absurd (omega arith)
walk_fuel field (suc fuel) zero [] s h h' = refl
walk_fuel field (suc fuel) zero (b ∷ rest) s h h' = absurd (omega arith)
walk_fuel field (suc fuel) (suc fuel') [] s h h' = refl
walk_fuel {S} field (suc fuel) (suc fuel') (b ∷ rest) s h h' =
    go (parse_tlv (b ∷ rest)) (parse_tlv-IsShorter (b ∷ rest))
      (λ t s' k. walk_fuel field fuel fuel' t s' (omega arith) (omega arith))
  where
    next : ℕ → Option Tlv → Outcome S
    next n o = elim o as (λ _. Outcome S) [
      | none ↦ done s
      | some t ↦ field s t.tag t.payload >>= walk field n t.rest
    ]

    each :
        (t : Tlv) (o : Outcome S)
        → ((s' : S) → walk field fuel t.rest s' ≡ walk field fuel' t.rest s')
        → (o >>= walk field fuel t.rest) ≡ (o >>= walk field fuel' t.rest)
    each t panics e = refl
    each t (done s') e = e s'

    go :
        (o : Outcome (Option Tlv))
        → IsShorter (length (b ∷ rest)) o
        → ((t : Bytes) (s' : S)
            → length t < length (b ∷ rest)
            → walk field fuel t s' ≡ walk field fuel' t s')
        → (o >>= next fuel) ≡ (o >>= next fuel')
    go panics w ih = refl
    go (done none) w ih = refl
    go (done (some t)) (shorter k) ih = each t (field s t.tag t.payload) (λ s'. ih t.rest s' k)

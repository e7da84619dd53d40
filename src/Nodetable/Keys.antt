-- ===== src/Nodetable/Keys.antt =====
-- No two (source MAC, sequence number) pairs share a key.
use prp_sim.Base.{
  ℕ, zero, suc, ◌+◌, ◌-◌, ◌*◌, ◌/◌, ◌%◌, ◌≤◌, ◌≡◌, refl, sym, ap, ◌∙◌, ◌≢◌, inl, inr, [], ◌∷◌, ◌++◌,
  arith, ltb, Bool-cases, All, All-append, Text,
}
use prp_sim.Nodetable.{decimal_loop, decimal, key}

-- The number that decimal digits stand for, read after `acc`.
value : ℕ → Text → ℕ
value acc [] = acc
value acc (c ∷ cs) = value (acc * 10 + (c - b'0')) cs

value-append : (acc : ℕ) (xs ys : Text) → value acc (xs ++ ys) ≡ value (value acc xs) ys
unfolding value
value-append acc [] ys = refl
value-append acc (x ∷ xs) ys = value-append (acc * 10 + (x - b'0')) xs ys

value-decimal_loop : (fuel n : ℕ) → n ≤ fuel → value 0 (decimal_loop fuel n) ≡ n
unfolding value decimal_loop
value-decimal_loop zero n h = omega arith
value-decimal_loop (suc fuel) n h = ground (
  arith,
  value-append 0 (decimal_loop fuel (n / 10)) ((b'0' + n % 10) ∷ []),
  value-decimal_loop fuel (n / 10),
)

value-decimal : (n : ℕ) → value 0 (decimal n) ≡ n
unfolding decimal
value-decimal n = value-decimal_loop n n (omega arith)

-- A MAC text holds no `|`.
abbrev pub HasNoBar : Text → Type 0
HasNoBar = All (λ c. c ≢ b'|')

split_at_bar :
    (a b x y : Text)
    → HasNoBar a
    → HasNoBar b
    → a ++ (b'|' ∷ x) ≡ b ++ (b'|' ∷ y)
    → (a ≡ b) × (x ≡ y)
split_at_bar [] [] x y ha hb e = ground arith
split_at_bar [] (c ∷ b) x y ha hb e = ground arith
split_at_bar (c ∷ a) [] x y ha hb e = ground arith
split_at_bar (c ∷ a) (d ∷ b) x y ha hb e = ground (arith, split_at_bar a b x y ha.1 hb.1)

-- The key determines the source MAC and the sequence number, where no MAC holds the key's
-- separator.
pub key-injective :
    (mac mac' : Text) (seq seq' : ℕ)
    → HasNoBar mac
    → HasNoBar mac'
    → key mac seq ≡ key mac' seq'
    → (mac ≡ mac') × (seq ≡ seq')
unfolding key
key-injective mac mac' seq seq' h h' e =
    let (same, digits) = split_at_bar mac mac' (decimal seq) (decimal seq') h h' e in
    (same, sym (value-decimal seq) ∙ ap (value 0) digits ∙ value-decimal seq')

pub key-ne-nil : (mac : Text) (seq : ℕ) → key mac seq ≢ []
unfolding key
key-ne-nil [] seq e = cc
key-ne-nil (c ∷ mac) seq e = cc

pub decimal-injective : (m n : ℕ) → decimal m ≡ decimal n → m ≡ n
decimal-injective m n e = sym (value-decimal m) ∙ ap (value 0) e ∙ value-decimal n

decimal_loop-HasNoBar : (fuel n : ℕ) → HasNoBar (decimal_loop fuel n)
unfolding decimal_loop
decimal_loop-HasNoBar zero n = omega arith
decimal_loop-HasNoBar (suc fuel) n = elim (Bool-cases (ltb n 10)) [
  | inl last ↦ rw last (omega arith)
  | inr more ↦ rw more (
      All-append (λ c. c ≢ b'|') (decimal_loop fuel (n / 10)) ((b'0' + n % 10) ∷ [])
        (decimal_loop-HasNoBar fuel (n / 10)) (omega arith))
]

pub decimal-HasNoBar : (n : ℕ) → HasNoBar (decimal n)
unfolding decimal
decimal-HasNoBar n = decimal_loop-HasNoBar n n

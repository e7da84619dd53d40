-- ===== src/Base/Outcomes.antt =====
-- What a call of Go code comes to: a value, or a run-time panic (an index or slice out of range, a
-- method of a nil interface).
use mathlib.Core.Path.{◌≡◌, ap}

pub data Outcome {ℓ} (A : Type ℓ) : Type ℓ where
  done : A → Outcome A
  panics : Outcome A

infixl 5 ◌>>=◌
abbrev pub ◌>>=◌ {ℓ κ} : {A : Type ℓ} {B : Type κ} → Outcome A → (A → Outcome B) → Outcome B
done a >>= f = f a
panics >>= f = panics

pub done-injective {ℓ} : {A : Type ℓ} → (a b : A) → ◌≡◌ {A = Outcome A} (done a) (done b) → a ≡ b
done-injective a b e = ap (λ m. elim m [ done x ↦ x | panics ↦ a ]) e

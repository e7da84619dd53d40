-- ===== src/Base/MapLaws.antt =====
-- Laws of the association lists whose keys are all different.
use Prim.Native.Nat.{ℕ, suc, ◌+◌}
use mathlib.Core.Path.{◌≡◌, refl}
use mathlib.Core.Bool.{Bool, true, false}
use mathlib.Core.List.{List, [], ◌∷◌}
use mathlib.Core.Option.{Option, none, some}
use native.Mathlib.Omega.{arith}
use prp_sim.Base.Tests.{if◌then◌else◌}
use prp_sim.Base.Lists.{length}
use prp_sim.Base.Texts.{Text, text_eq, text_eq_iff}
use prp_sim.Base.Maps.{lookup, insert, delete, lookup-insert}

abbrev pub is_found {ℓ} : {V : Type ℓ} → Option V → Bool
is_found none = false
is_found (some v) = true

abbrev pub keep_unless {ℓ} : {V : Type ℓ} → (V → Bool) → Option V → Option V
keep_unless test none = none
keep_unless test (some v) = if test v then none else some v

-- `for k, v := range m { if test(v) { delete(m, k); removed++ } }`
unfoldable pub remove_where {ℓ} : {V : Type ℓ} → (V → Bool) → List (Text × V) → List (Text × V) × ℕ
remove_where test [] = ([], 0)
remove_where test ((k, v) ∷ m) =
    let (kept, removed) = remove_where test m in
    if test v then (kept, suc removed) else ((k, v) ∷ kept, removed)

module _ {ℓ} {V : Type ℓ} where
  abbrev pub Distinct : List (Text × V) → Type ℓ
  Distinct [] = Unit {ℓ}
  Distinct ((k, v) ∷ m) = (lookup k m ≡ none) × Distinct m

  pub insert-Distinct :
      (k : Text) (v : V) (m : List (Text × V)) → Distinct m → Distinct (insert k v m)
  unfolding insert lookup
  insert-Distinct k v [] d = (refl, tt)
  insert-Distinct k v ((j, w) ∷ m) d =
      ground
        (arith, lookup-insert k j v m, text_eq_iff k j, text_eq_iff j k, insert-Distinct k v m d.1)

  pub lookup-delete :
      (k j : Text) (m : List (Text × V))
      → Distinct m
      → lookup j (delete k m) ≡ (if text_eq k j then none else lookup j m)
  unfolding delete lookup
  lookup-delete k j [] d = ground arith
  lookup-delete k j ((i, w) ∷ m) d =
      ground (arith, text_eq_iff k j, text_eq_iff i k, text_eq_iff i j, lookup-delete k j m d.1)

  pub delete-Distinct : (k : Text) (m : List (Text × V)) → Distinct m → Distinct (delete k m)
  unfolding delete lookup
  delete-Distinct k [] d = tt
  delete-Distinct k ((j, w) ∷ m) d =
      ground (arith, lookup-delete k j m d.1, delete-Distinct k m d.1)

  pub length-insert :
      (k : Text) (v : V) (m : List (Text × V))
      → length (insert k v m) ≡ (if is_found (lookup k m) then length m else suc (length m))
  unfolding insert lookup
  length-insert k v [] = refl
  length-insert k v ((j, w) ∷ m) = ground (arith, length-insert k v m)

  pub length-delete :
      (k : Text) (v : V) (m : List (Text × V))
      → lookup k m ≡ some v
      → suc (length (delete k m)) ≡ length m
  unfolding delete lookup
  length-delete k v [] e = ground arith
  length-delete k v ((j, w) ∷ m) e = ground (arith, length-delete k v m)

  pub lookup-remove_where :
      (test : V → Bool) (k : Text) (m : List (Text × V))
      → Distinct m
      → lookup k (remove_where test m).0 ≡ keep_unless test (lookup k m)
  unfolding remove_where lookup
  lookup-remove_where test k [] d = refl
  lookup-remove_where test k ((j, w) ∷ m) d =
      ground (arith, text_eq_iff j k, lookup-remove_where test k m d.1)

  pub remove_where-Distinct :
      (test : V → Bool) (m : List (Text × V)) → Distinct m → Distinct (remove_where test m).0
  unfolding remove_where lookup
  remove_where-Distinct test [] d = tt
  remove_where-Distinct test ((j, w) ∷ m) d =
      ground (arith, lookup-remove_where test j m d.1, remove_where-Distinct test m d.1)

  -- What is kept and what is counted make up the whole.
  pub length-remove_where :
      (test : V → Bool) (m : List (Text × V))
      → length (remove_where test m).0 + (remove_where test m).1 ≡ length m
  unfolding remove_where
  length-remove_where test [] = omega arith
  length-remove_where test ((j, w) ∷ m) = ground (arith, length-remove_where test m)

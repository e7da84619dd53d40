-- ===== src/Conf/Results.antt =====
-- internal/config/config.go: the errors of Load, and the chain of its steps.
use prp_sim.Base.{ℕ, ◌≡◌, refl, ap, Bool, true, false, Text}

-- One for each error that Load builds. Which port an address belongs to is left out: Go visits the
-- three in no fixed order.
pub data LoadError : Type 0 where
  read_failed parse_failed : LoadError
  invalid_role : Text → LoadError
  lans_missing interlink_missing : LoadError
  invalid_lan_id : Text → LoadError
  invalid_prp_id : ℕ → LoadError
  invalid_pattern : Text → LoadError
  invalid_cidr not_ipv4 : Text → LoadError
  invalid_env_role invalid_env_lan_id invalid_env_prp_id : Text → LoadError

-- What a step of the load gives: an error, which ends it, or a value.
pub data Attempt {ℓ} (A : Type ℓ) : Type ℓ where
  failed : LoadError → Attempt A
  success : A → Attempt A

infixl 5 ◌>>◌ ◌>>=◌
abbrev pub ◌>>=◌ {ℓ κ} : {A : Type ℓ} {B : Type κ} → Attempt A → (A → Attempt B) → Attempt B
failed why >>= step = failed why
success v >>= step = step v

-- A test and what comes after it.
abbrev pub ◌>>◌ {ℓ} : {B : Type ℓ} → Attempt (Unit {0}) → Attempt B → Attempt B
test >> after = test >>= λ passed. after

-- `if test { return nil, e }`
abbrev pub fail_if : Bool → LoadError → Attempt (Unit {0})
fail_if true e = failed e
fail_if false e = success tt

pub fail_if-success : (b : Bool) (e : LoadError) → fail_if b e ≡ success tt → b ≡ false
fail_if-success true e h = cc
fail_if-success false e h = refl

-- A test that passed, and what came after it.
pub >>-success {ℓ} :
    {B : Type ℓ} (test : Attempt (Unit {0})) (after : Attempt B) (b : B)
    → (test >> after) ≡ success b
    → (test ≡ success tt) × (after ≡ success b)
>>-success (failed why) after b h = cc
>>-success (success v) after b h = (refl, h)

pub success-injective {ℓ} :
    {A : Type ℓ} → (a b : A) → ◌≡◌ {A = Attempt A} (success a) (success b) → a ≡ b
success-injective a b e = ap (λ m. elim m [ failed why ↦ a | success v ↦ v ]) e

-- A step that gave a value, and what came of it.
pub >>=-success {ℓ κ} :
    {A : Type ℓ} {B : Type κ} (m : Attempt A) (step : A → Attempt B) (b : B)
    → (m >>= step) ≡ success b
    → (v : A) × (m ≡ success v) × (step v ≡ success b)
>>=-success (failed why) step b h = cc
>>=-success (success v) step b h = (v, refl, h)

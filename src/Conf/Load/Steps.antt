-- ===== src/Conf/Load/Steps.antt =====
-- internal/config/config.go: the steps of a load that succeeded, and what they have tested.
use prp_sim.Base.{
  if-true, if-false, ℕ, ◌<◌, ◌≡◌, refl, sym, ◌∙◌, subst, ◌⊎◌, inl, inr, Bool, true, false, ◌&&◌,
  ◌||◌, not, Option, none, some, arith, ◌==◌, Bool-cases, Bytes, Text, codes, text_eq,
}
use mathlib.Core.Option.{some-injective}
use prp_sim.Conf.{valid_multicast_pattern}
use prp_sim.Conf.Results.{
  >>=-success, success-injective, read_failed, parse_failed, Attempt, success, failed, fail_if,
  fail_if-success, >>-success,
}
use prp_sim.Conf.Load.Shapes.{IsOverride, override-IsOverride}
use prp_sim.Conf.Results.{read_failed, parse_failed, invalid_role}
use prp_sim.Conf.Load.{
  normalize_role, check, derive_id, override, load_settings, load, invalid_pattern, lans_missing,
  not_ipv4, invalid_cidr, Settings, System, is_empty, known_role, check_coupling, validate_cidr,
  check_cidr, check,
}

-- An address is left out or is an IPv4 one.
abbrev pub IsAddress : System → Text → Type 0
IsAddress sys ip = (is_empty ip ≡ true) ⊎ (sys.parse_cidr ip ≡ some true)

pub record IsLoaded (sys : System) (c : Settings) : Type 0 where
  pub role : known_role c.role ≡ some c.role
  pub lans : (is_empty c.lan_a ≡ false) × (is_empty c.lan_b ≡ false)
  pub pattern : (is_empty c.first_octet ≡ true) ⊎ (valid_multicast_pattern c.first_octet ≡ true)
  pub lan_a_ip : IsAddress sys c.lan_a_ip
  pub lan_b_ip : IsAddress sys c.lan_b_ip
  pub interlink_ip : IsAddress sys c.interlink_ip

pub known_role-known : (s r : Text) → known_role s ≡ some r → known_role r ≡ some r
unfolding known_role text_eq
known_role-known s r h = elim (Bool-cases (text_eq s (codes "redbox"))) [
  | inl old ↦
      let e : codes "prp-san" ≡ r = some-injective _ _ (sym (if-true _ _ _ old) ∙ h) in
      subst (λ x. known_role x ≡ some x) e refl
  | inr new ↦
      elim (Bool-cases (
        text_eq s (codes "prp-san")
        || text_eq s (codes "hsr-san")
        || text_eq s (codes "hsr-prp")
        || text_eq s (codes "hsr-hsr"))) [
          | inl known ↦
              let e : s ≡ r =
                some-injective s r
                  (sym (if-false (text_eq s (codes "redbox")) _ _ new ∙ if-true _ _ _ known) ∙ h) in
              subst (λ x. known_role x ≡ some r) e h
          | inr other ↦ cc (
            if-false (text_eq s (codes "redbox")) (some (codes "prp-san")) _ new
                ∙ if-false
                    (text_eq s (codes "prp-san")
                      || text_eq s (codes "hsr-san")
                      || text_eq s (codes "hsr-prp")
                      || text_eq s (codes "hsr-hsr"))
                    (some s) none other,
            h,
          )
        ]
]

pub validate_cidr-IsAddress :
    (sys : System) (s : Text) → validate_cidr sys s ≡ success tt → IsAddress sys s
unfolding validate_cidr
validate_cidr-IsAddress sys s h = inr (go (sys.parse_cidr s) h)
  where
    go :
        (o : Option Bool)
        → (elim o as (λ _. Attempt (Unit {0})) [
          | none ↦ failed (invalid_cidr s)
          | some is_ip4 ↦ fail_if (not is_ip4) (not_ipv4 s)
        ])
          ≡ success tt
        → o ≡ some true
    go none h = cc
    go (some true) h = refl
    go (some false) h = cc

check_cidr-IsAddress : (sys : System) (s : Text) → check_cidr sys s ≡ success tt → IsAddress sys s
unfolding check_cidr
check_cidr-IsAddress sys s h = elim (Bool-cases (is_empty s)) [
  | inl left_out ↦ inl left_out
  | inr given ↦ validate_cidr-IsAddress sys s (sym (if-false (is_empty s) (success tt) _ given) ∙ h)
]

pub check-IsLoaded :
    (sys : System) (c : Settings)
    → known_role c.role ≡ some c.role
    → check sys c ≡ success tt
    → IsLoaded sys c
unfolding check
check-IsLoaded sys c role h =
    let (lans, h) =
      >>-success (fail_if (is_empty c.lan_a || is_empty c.lan_b) lans_missing) _ tt h in
    let (coupling, h) = >>-success (check_coupling c) _ tt h in
    let (pattern, h) =
      >>-success
        (fail_if (not (is_empty c.first_octet) && not (valid_multicast_pattern c.first_octet))
          (invalid_pattern c.first_octet))
        _ tt h in
    let (a, h) = >>-success (check_cidr sys c.lan_a_ip) _ tt h in
    let (b, i) = >>-success (check_cidr sys c.lan_b_ip) _ tt h in
    record {
      role = role;
      lans = neither (is_empty c.lan_a) (is_empty c.lan_b) (fail_if-success _ _ lans);
      pattern =
          one (is_empty c.first_octet) (valid_multicast_pattern c.first_octet)
            (fail_if-success _ _ pattern);
      lan_a_ip = check_cidr-IsAddress sys c.lan_a_ip a;
      lan_b_ip = check_cidr-IsAddress sys c.lan_b_ip b;
      interlink_ip = check_cidr-IsAddress sys c.interlink_ip i;
    }
  where
    neither : (a b : Bool) → (a || b) ≡ false → (a ≡ false) × (b ≡ false)
    neither a b h = ground arith

    one : (a b : Bool) → (not a && not b) ≡ false → (a ≡ true) ⊎ (b ≡ true)
    one a b h = ground arith

derive_id-shape :
    (sys : System) (c : Settings)
    → (p : ℕ) × (name : Text) × (derive_id sys c ≡ record c { prp_id = p; name = name })
      × ((is_empty sys.hostname ≡ true) ⊎ (0 < p))
unfolding derive_id
derive_id-shape sys c = elim (Bool-cases (c.prp_id == 0 && not (is_empty sys.hostname))) [
  | inl derived ↦ (_, _, if-true _ _ _ derived, inr (omega arith))
  | inr given ↦ (
    c.prp_id,
    c.name,
    if-false (c.prp_id == 0 && not (is_empty sys.hostname)) _ _ given,
    kept c.prp_id (is_empty sys.hostname) given,
  )
]
  where
    kept : (p : ℕ) (b : Bool) → (p == 0 && not b) ≡ false → (b ≡ true) ⊎ (0 < p)
    kept p b h = ground arith

-- The steps of a load that succeeded.
pub record Steps (sys : System) (c : Settings) : Type 0 where
  pub checked : Settings
  pub role : known_role checked.role ≡ some checked.role
  pub passes : check sys checked ≡ success tt
  pub prp_id : ℕ
  pub name : Text
  pub id : (is_empty sys.hostname ≡ true) ⊎ (0 < prp_id)
  pub last : IsOverride sys (record checked { prp_id = prp_id; name = name }) c

normalize_role-shape :
    (c d : Settings)
    → normalize_role c ≡ success d
    → (r : Text) × (d ≡ record c { role = r }) × (known_role r ≡ some r)
unfolding normalize_role
normalize_role-shape c d h = go (known_role c.role) (known_role-known c.role) h
  where
    go :
        (o : Option Text)
        → ((r : Text) → o ≡ some r → known_role r ≡ some r)
        → (elim o as (λ _. Attempt Settings) [
          | none ↦ failed (invalid_role c.role)
          | some role ↦ success (record c { role = role })
        ])
          ≡ success d
        → (r : Text) × (d ≡ record c { role = r }) × (known_role r ≡ some r)
    go none k h = cc
    go (some r) k h = (r, sym (success-injective (record c { role = r }) d h), k r refl)

load_settings-Steps :
    (sys : System) (c0 c : Settings) → load_settings sys c0 ≡ success c → Steps sys c
unfolding load_settings
load_settings-Steps sys c0 c h =
    let (c1, normal, h1) = >>=-success (normalize_role c0) _ c h in
    let (r, same_role, known) = normalize_role-shape c0 c1 normal in
    let (passes, h2) = >>-success (check sys c1) (override sys (derive_id sys c1)) c h1 in
    let (p, name, same, id) = derive_id-shape sys c1 in
    record {
      checked = c1;
      role = subst (λ (x : Settings). known_role x.role ≡ some x.role) (sym same_role) known;
      passes = passes;
      prp_id = p;
      name = name;
      id = id;
      last = subst (λ x. IsOverride sys x c) same (override-IsOverride sys (derive_id sys c1) c h2);
    }

pub load-Steps :
    (sys : System) (path : Text) (c : Settings) → load sys path ≡ success c → Steps sys c
unfolding load
load-Steps sys path c h = go (sys.read_file path) h
  where
    parse :
        (o : Option Settings)
        → (elim o as (λ _. Attempt Settings) [
          | none ↦ failed parse_failed
          | some c0 ↦ load_settings sys c0
        ])
          ≡ success c
        → Steps sys c
    parse none h = cc
    parse (some c0) h = load_settings-Steps sys c0 c h

    go :
        (o : Option Bytes)
        → (elim o as (λ _. Attempt Settings) [
          | none ↦ failed read_failed
          | some bytes ↦ elim (sys.unmarshal bytes) as (λ _. Attempt Settings) [
            | none ↦ failed parse_failed
            | some c0 ↦ load_settings sys c0
          ]
        ])
          ≡ success c
        → Steps sys c
    go none h = cc
    go (some bytes) h = parse (sys.unmarshal bytes) h

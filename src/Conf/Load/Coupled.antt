-- ===== src/Conf/Load/Coupled.antt =====
-- internal/config/config.go: the configuration of a node that couples a ring to PRP.
use prp_sim.Base.{
  if-true, ℕ, ◌≤◌, ◌≡◌, sym, ap, ◌∙◌, subst, ◌≢◌, ◌⊎◌, inl, inr, Bool, true, false, ◌||◌, not, some,
  [], ◌∷◌, arith, Text, codes, text_eq, text_eq_iff,
}
use prp_sim.Conf.Results.{
  invalid_lan_id, interlink_missing, success, fail_if, fail_if-success, >>-success,
}
use prp_sim.Conf.Load.Steps.{load-Steps}
use prp_sim.Conf.Results.{invalid_lan_id, interlink_missing}
use prp_sim.Conf.Load.{
  is_net_id, is_lan_id, check, load, lans_missing, Settings, System, is_empty, known_role,
  check_coupling, check,
}

check_coupling-lem :
    (c : Settings)
    → check_coupling c ≡ success tt
    → c.role ≡ codes "hsr-prp"
    → (is_empty c.interlink ≡ false) × (is_lan_id c.lan_id ≡ true) × (is_net_id c.net_id ≡ true)
unfolding check_coupling
check_coupling-lem c h coupled =
    let tests =
      sym (
        if-true (text_eq c.role (codes "hsr-prp")) _ _
          ((text_eq_iff c.role (codes "hsr-prp")).1 coupled))
      ∙ h in
    let (a, h) = >>-success (fail_if (is_empty c.interlink) interlink_missing) _ tt tests in
    let (b, d) = >>-success (fail_if (not (is_lan_id c.lan_id)) (invalid_lan_id c.lan_id)) _ tt h in
    (
      fail_if-success _ _ a,
      holds (is_lan_id c.lan_id) (fail_if-success _ _ b),
      holds (is_net_id c.net_id) (fail_if-success _ _ d),
    )
  where
    holds : (b : Bool) → not b ≡ false → b ≡ true
    holds b h = ground arith

check-coupling :
    (sys : System) (c : Settings) → check sys c ≡ success tt → check_coupling c ≡ success tt
unfolding check
check-coupling sys c h =
    let (_, rest) =
      >>-success (fail_if (is_empty c.lan_a || is_empty c.lan_b) lans_missing) _ tt h in
    (>>-success (check_coupling c) _ tt rest).0

no_role : (v r : Text) → is_empty v ≡ true → known_role v ≢ some r
unfolding known_role text_eq
no_role [] r unset known = cc
no_role (c ∷ v) r unset known = cc

-- What the file's tests on a coupling node leave to hold, the overrides included, where PRP_ROLE
-- is not set.
pub load-coupled :
    (sys : System) (path : Text) (c : Settings)
    → load sys path ≡ success c
    → is_empty (sys.getenv (codes "PRP_ROLE")) ≡ true
    → c.role ≡ codes "hsr-prp"
    → (is_empty c.interlink ≡ false) × (is_lan_id c.lan_id ≡ true) × (1 ≤ c.net_id) × (c.net_id ≤ 6)
load-coupled sys path c h unset coupled =
    let s = load-Steps sys path c h in
    let o = s.last in
    let kept : o.role ≡ s.checked.role = role_kept o.role_from in
    let (bound, lan, net) =
      check_coupling-lem s.checked (check-coupling sys s.checked s.passes)
        (sym kept ∙ sym (ap (λ (x : Settings). x.role) o.same) ∙ coupled) in
    let (low, high) = net_kept net o.net_id_from in
    subst
      (λ (x : Settings).
        (is_empty x.interlink ≡ false)
        × (is_lan_id x.lan_id ≡ true)
        × (1 ≤ x.net_id)
        × (x.net_id ≤ 6))
      (sym o.same) (bound, lan_kept lan o.lan_id_from, low, high)
  where
    role_kept :
        {r r' : Text}
        → ((is_empty (sys.getenv (codes "PRP_ROLE")) ≡ true) × (r ≡ r'))
          ⊎ (known_role (sys.getenv (codes "PRP_ROLE")) ≡ some r)
        → r ≡ r'
    role_kept (inl (_, same)) = same
    role_kept {r} (inr known) = absurd (no_role (sys.getenv (codes "PRP_ROLE")) r unset known)

    lan_kept :
        {l l' : Text} → is_lan_id l' ≡ true → (l ≡ l') ⊎ (is_lan_id l ≡ true) → is_lan_id l ≡ true
    lan_kept good (inl same) = rw same good
    lan_kept good (inr other) = other

    net_kept :
        {n n' : ℕ} → is_net_id n' ≡ true → (n ≡ n') ⊎ (is_net_id n ≡ true) → (1 ≤ n) × (n ≤ 6)
    net_kept good (inl same) = (ground arith, ground arith)
    net_kept good (inr other) = (ground arith, ground arith)

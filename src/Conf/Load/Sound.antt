-- ===== src/Conf/Load/Sound.antt =====
-- internal/config/config.go: what holds of every configuration that Load returns.
use prp_sim.Base.{ℕ, ◌<◌, ◌≡◌, sym, subst, ◌⊎◌, inl, inr, true, some, arith, Text, codes}
use prp_sim.Conf.Results.{success}
use prp_sim.Conf.Load.Steps.{
  IsAddress, IsLoaded, known_role-known, validate_cidr-IsAddress, check-IsLoaded, load-Steps,
}
use prp_sim.Conf.Load.Shapes.{IsReplaced, IsOverride}
use prp_sim.Conf.Load.{load, Settings, System, is_empty, known_role}

replaced-IsAddress :
    (sys : System) (new old : Text) → IsAddress sys old → IsReplaced sys new old → IsAddress sys new
replaced-IsAddress sys new old h (inl same) = rw same h
replaced-IsAddress sys new old h (inr valid) = validate_cidr-IsAddress sys new valid

IsOverride-IsLoaded :
    (sys : System) (c d : Settings) → IsLoaded sys c → IsOverride sys c d → IsLoaded sys d
IsOverride-IsLoaded sys c d w o = subst (IsLoaded sys) (sym o.same) (record {
  role = go o.role_from;
  lans = w.lans;
  pattern = w.pattern;
  lan_a_ip = replaced-IsAddress sys o.lan_a_ip c.lan_a_ip w.lan_a_ip o.lan_a_ip_from;
  lan_b_ip = replaced-IsAddress sys o.lan_b_ip c.lan_b_ip w.lan_b_ip o.lan_b_ip_from;
  interlink_ip =
      replaced-IsAddress sys o.interlink_ip c.interlink_ip w.interlink_ip o.interlink_ip_from;
})
  where
    go :
        ((is_empty (sys.getenv (codes "PRP_ROLE")) ≡ true) × (o.role ≡ c.role))
          ⊎ (known_role (sys.getenv (codes "PRP_ROLE")) ≡ some o.role)
        → known_role o.role ≡ some o.role
    go (inl (unset, same)) = rw same w.role
    go (inr known) = known_role-known (sys.getenv (codes "PRP_ROLE")) o.role known

pub load_lem :
    (sys : System) (path : Text) (c : Settings)
    → load sys path ≡ success c
    → IsLoaded sys c × ((is_empty sys.hostname ≡ true) ⊎ (0 < c.prp_id))
load_lem sys path c h =
    let s = load-Steps sys path c h in
    let o = s.last in
    (
      IsOverride-IsLoaded sys (record (s.checked) { prp_id = s.prp_id; name = s.name }) c
          (named (check-IsLoaded sys s.checked s.role s.passes)) o,
      subst (λ (x : Settings). (is_empty sys.hostname ≡ true) ⊎ (0 < x.prp_id)) (sym o.same)
          (go s.id o.prp_id_from),
    )
  where
    named :
        {x : Settings} {p : ℕ} {name : Text}
        → IsLoaded sys x
        → IsLoaded sys (record x { prp_id = p; name = name })
    named w = record {
      role = w.role;
      lans = w.lans;
      pattern = w.pattern;
      lan_a_ip = w.lan_a_ip;
      lan_b_ip = w.lan_b_ip;
      interlink_ip = w.interlink_ip;
    }

    go :
        {p q : ℕ}
        → (is_empty sys.hostname ≡ true) ⊎ (0 < p)
        → (q ≡ p) ⊎ (0 < q)
        → (is_empty sys.hostname ≡ true) ⊎ (0 < q)
    go (inl anonymous) f = inl anonymous
    go (inr pos) (inl same) = inr (omega arith)
    go (inr pos) (inr given) = inr given

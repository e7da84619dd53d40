-- ===== src/Daemon/Starts.antt =====
-- cmd/prpd/main.go: a node that is started from a configuration that Load returned.
use prp_sim.Base.{
  if-true, ℕ, ◌≤◌, ◌<◌, ◌≡◌, refl, sym, ap, ◌∙◌, subst, ◌⊎◌, inl, inr, Bool, true, false, ◌&&◌,
  ◌||◌, Option, none, some, ltb, if◌then◌else◌, ltb→lt, lt→ltb, Bool-cases, length, Bytes, Text,
  codes, text_eq, text_eq_iff,
}
use prp_sim.Prp.Role.{prp_san, hsr_san, hsr_prp, hsr_hsr, Role, parse_role, RoleInfo, info_for}
use prp_sim.Prp.Node.{new_node, role_info, is_hsr_node, is_hsr_prp_coupling, lan_id, net_id}
use prp_sim.Prp.Monitor.{start}
use prp_sim.Prp.Multicast.{parse_multicast_pattern}
use prp_sim.Conf.{valid_multicast_pattern}
use prp_sim.Conf.Patterns.{valid_multicast_pattern_lem}
use prp_sim.Conf.Results.{success}
use prp_sim.Conf.Load.{Settings, System, load, is_empty, is_lan_id, known_role}
use prp_sim.Conf.Load.Sound.{load_lem}
use prp_sim.Conf.Load.Coupled.{load-coupled}
use prp_sim.Daemon.{prp_config}

-- The two switches on the role's name, by the tests that they make.
both_switches :
    (s : Text) (empty redbox prp san coupled quad : Bool)
    → (if redbox
        then some (codes "prp-san")
        else if prp || san || coupled || quad
        then some s
        else none)
      ≡ some s
    → (r : Role) × ((if empty || redbox
          then some prp_san
          else if prp
          then some prp_san
          else if san
          then some hsr_san
          else if coupled
          then some hsr_prp
          else if quad
          then some hsr_hsr
          else none)
        ≡ some r)
both_switches s true _ _ _ _ _ h = (prp_san, refl)
both_switches s false true _ _ _ _ h = (prp_san, refl)
both_switches s false false true _ _ _ h = (prp_san, refl)
both_switches s false false false true _ _ h = (hsr_san, refl)
both_switches s false false false false true _ h = (hsr_prp, refl)
both_switches s false false false false false true h = (hsr_hsr, refl)
both_switches s false false false false false false h = cc

parse_role-known : (s : Text) → known_role s ≡ some s → (r : Role) × (parse_role s ≡ some r)
unfolding known_role parse_role
parse_role-known s h = both_switches s _ _ _ _ _ _ h

-- Whatever configuration Load returns, the node takes its role for one that it knows, under which
-- the role is not replaced by the default, and it reads a prefix from the multicast pattern, if
-- there is one.
pub prp_config_lem :
    (parse_duration : Text → Option ℕ) (sys : System) (path : Text) (c : Settings)
    → load sys path ≡ success c
    → let cfg = prp_config parse_duration c in
      (r : Role) × (parse_role c.role ≡ some r)
      × (role_info cfg ≡ info_for r)
      × ((is_empty c.first_octet ≡ true)
          ⊎ (0 < length (parse_multicast_pattern cfg.multicast_first_octet)))
unfolding prp_config role_info
prp_config_lem parse_duration sys path c h =
    let loaded = (load_lem sys path c h).0 in
    let (r, at) = parse_role-known c.role loaded.role in (r, at, ap role_of at, go loaded.pattern)
  where
    role_of : Option Role → RoleInfo
    role_of o = elim o [ none ↦ info_for prp_san | some r ↦ info_for r ]

    go :
        (is_empty c.first_octet ≡ true) ⊎ (valid_multicast_pattern c.first_octet ≡ true)
        → (is_empty c.first_octet ≡ true) ⊎ (0 < length (parse_multicast_pattern c.first_octet))
    go (inl unset) = inl unset
    go (inr valid) = inr (ltb→lt 0 _ (sym (valid_multicast_pattern_lem c.first_octet).0 ∙ valid))

lan_side : Text → ℕ
lan_side s = if text_eq s (codes "B") then 1 else 0

sides :
    (s : Text)
    → is_lan_id s ≡ true
    → ((s ≡ codes "A") × (lan_side s ≡ 0)) ⊎ ((s ≡ codes "B") × (lan_side s ≡ 1))
unfolding lan_side text_eq
sides s h = elim (Bool-cases (text_eq s (codes "A"))) [
  | inl yes' ↦ let e = (text_eq_iff s (codes "A")).0 yes' in inl (e, ap lan_side e)
  | inr no' ↦
      let b : text_eq s (codes "B") ≡ true = rw no' at h in
      inr ((text_eq_iff s (codes "B")).0 b, if-true (text_eq s (codes "B")) 1 0 b)
]

-- A node of the role hsr-prp, started by the daemon from a configuration that Load returned, with
-- PRP_ROLE not set: the node rides a ring and couples it to PRP, under the NetId of the
-- configuration, which is 1 to 6, and as LAN A or B as the configuration says.
pub start-coupled :
    (parse_duration : Text → Option ℕ) (sys : System) (path : Text) (c : Settings) (seq : ℕ)
    (mac : Option Bytes)
    → load sys path ≡ success c
    → is_empty (sys.getenv (codes "PRP_ROLE")) ≡ true
    → c.role ≡ codes "hsr-prp"
    → let n = start mac true (new_node (prp_config parse_duration c) seq) in
      (is_hsr_node n ≡ true)
      × (is_hsr_prp_coupling n ≡ true)
      × (net_id n ≡ c.net_id)
      × (1 ≤ c.net_id)
      × (c.net_id ≤ 6)
      × (((c.lan_id ≡ codes "A") × (lan_id n ≡ 0)) ⊎ ((c.lan_id ≡ codes "B") × (lan_id n ≡ 1)))
unfolding prp_config start new_node role_info parse_role net_id lan_id text_eq info_for lan_side
start-coupled parse_duration sys path c seq mac h unset coupled =
    let (bound, lan, low, high) = load-coupled sys path c h unset coupled in
    let info : role_info (prp_config parse_duration c) ≡ info_for hsr_prp =
      ap (λ role. role_info (record (prp_config parse_duration c) { role = role })) coupled in
    (
      ap (λ (i : RoleInfo). i.redundancy_ports_are_hsr) info,
      ap (λ (i : RoleInfo). i.coupled_to_prp) info,
      ap (λ (i : RoleInfo). if i.coupled_to_prp && ltb 0 c.net_id then c.net_id else 1) info
          ∙ if-true (ltb 0 c.net_id) _ _ (lt→ltb 0 c.net_id low),
      low,
      high,
      subst (λ v. ((c.lan_id ≡ codes "A") × (v ≡ 0)) ⊎ ((c.lan_id ≡ codes "B") × (v ≡ 1)))
          (sym (
            ap (λ (i : RoleInfo). if i.coupled_to_prp && text_eq c.lan_id (codes "B") then 1 else 0)
              info))
          (sides c.lan_id lan),
    )

-- ===== src/Prp/Role.antt =====
-- internal/prp/role.go: the roles of a RedBox and what each port speaks.
use prp_sim.Base.{
  Bool, true, false, ◌||◌, Option, none, some, [], if◌then◌else◌, Text, codes, text_eq,
}

pub data Role : Type 0 where
  prp_san hsr_san hsr_prp hsr_hsr : Role

-- `none` is a non-nil error.
unfoldable pub parse_role : Text → Option Role
parse_role s =
    if text_eq s [] || text_eq s (codes "redbox")
    then some prp_san
    else if text_eq s (codes "prp-san")
    then some prp_san
    else if text_eq s (codes "hsr-san")
    then some hsr_san
    else if text_eq s (codes "hsr-prp")
    then some hsr_prp
    else if text_eq s (codes "hsr-hsr")
    then some hsr_hsr
    else none

pub record RoleInfo : Type 0 where
  pub role : Role
  pub redundancy_ports_are_hsr : Bool
  pub coupled_to_prp : Bool
  pub interlink_is_san : Bool
  pub interlink_is_hsr : Bool

unfoldable pub info_for : Role → RoleInfo
info_for hsr_san = record {
  role = hsr_san;
  redundancy_ports_are_hsr = true;
  coupled_to_prp = false;
  interlink_is_san = true;
  interlink_is_hsr = false;
}
info_for hsr_prp = record {
  role = hsr_prp;
  redundancy_ports_are_hsr = true;
  coupled_to_prp = true;
  interlink_is_san = false;
  interlink_is_hsr = false;
}
info_for hsr_hsr = record {
  role = hsr_hsr;
  redundancy_ports_are_hsr = true;
  coupled_to_prp = false;
  interlink_is_san = false;
  interlink_is_hsr = true;
}
info_for prp_san = record {
  role = prp_san;
  redundancy_ports_are_hsr = false;
  coupled_to_prp = false;
  interlink_is_san = true;
  interlink_is_hsr = false;
}

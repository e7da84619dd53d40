-- ===== src/Conf/Load.antt =====
-- internal/config/config.go: Load.
pub mod Shapes
pub mod Steps
pub mod Sound
pub mod Coupled
use prp_sim.Base.{
  ℕ, ◌+◌, ◌-◌, ◌*◌, ◌%◌, ◌^◌, Bool, true, false, ◌&&◌, ◌||◌, not, Option, none, some, List, [], ◌∷◌,
  ltb, leb, ◌==◌, if◌then◌else◌, Bytes, Text, codes, text_eq,
}
use prp_sim.Conf.{valid_multicast_pattern}
use prp_sim.Conf.Results.{
  read_failed, parse_failed, invalid_role, lans_missing, interlink_missing, invalid_lan_id,
  invalid_prp_id, invalid_pattern, invalid_cidr, not_ipv4, invalid_env_role, invalid_env_lan_id,
  invalid_env_prp_id, Attempt, success, failed, ◌>>=◌, ◌>>◌, fail_if,
}

-- The configuration. Negative numbers are left out.
pub record Settings : Type 0 where
  pub name : Text
  pub role : Text
  pub lan_a : Text
  pub lan_b : Text
  pub interlink : Text
  pub lan_a_ip : Text
  pub lan_b_ip : Text
  pub interlink_ip : Text
  pub net_id : ℕ
  pub lan_id : Text
  pub prp_id : ℕ
  pub trailer_enabled : Bool
  pub supervision_enabled : Bool
  pub life_check_interval : Text
  pub node_forget_time : Text
  pub proxy_node_forget_time : Text
  pub entry_forget_time : Text
  pub max_node_table_size : ℕ
  pub first_octet : Text
  pub forward_all : Bool
  pub vlan_filter : List ℕ

-- What the process runs on. `unmarshal` is yaml.v3's reading of a file into the zero Settings,
-- `none` an error. `parse_cidr` is net.ParseCIDR, with whether To4 gives an address. `sum` is the
-- first two bytes of the SHA-256 of a text. `hostname` is empty where there is an error, and an
-- environment variable that is not set reads as an empty text.
pub record System : Type 0 where
  pub read_file : Text → Option Bytes
  pub unmarshal : Bytes → Option Settings
  pub parse_cidr : Text → Option Bool
  pub sum : Text → ℕ × ℕ
  pub hostname : Text
  pub getenv : Text → Text

abbrev pub is_empty : Text → Bool
is_empty [] = true
is_empty (c ∷ s) = false

-- `redbox` is an old name of prp-san. `none` is the default case of the switch.
unfoldable pub known_role : Text → Option Text
known_role s =
    if text_eq s (codes "redbox")
    then some (codes "prp-san")
    else if text_eq s (codes "prp-san")
        || text_eq s (codes "hsr-san")
        || text_eq s (codes "hsr-prp")
        || text_eq s (codes "hsr-hsr")
    then some s
    else none

unfoldable pub normalize_role : Settings → Attempt Settings
normalize_role c = elim (known_role c.role) as (λ _. Attempt Settings) [
  | none ↦ failed (invalid_role c.role)
  | some role ↦ success (record c { role = role })
]

abbrev pub is_lan_id : Text → Bool
is_lan_id s = text_eq s (codes "A") || text_eq s (codes "B")

abbrev pub is_net_id : ℕ → Bool
is_net_id n = not (ltb n 1 || ltb 6 n)

unfoldable pub check_coupling : Settings → Attempt (Unit {0})
check_coupling c =
    if text_eq c.role (codes "hsr-prp")
    then (do
      fail_if (is_empty c.interlink) interlink_missing
      fail_if (not (is_lan_id c.lan_id)) (invalid_lan_id c.lan_id)
      fail_if (not (is_net_id c.net_id)) (invalid_prp_id c.net_id))
    else success tt

unfoldable pub validate_cidr : System → Text → Attempt (Unit {0})
validate_cidr sys s = elim (sys.parse_cidr s) as (λ _. Attempt (Unit {0})) [
  | none ↦ failed (invalid_cidr s)
  | some is_ip4 ↦ fail_if (not is_ip4) (not_ipv4 s)
]

unfoldable pub check_cidr : System → Text → Attempt (Unit {0})
unfolding validate_cidr
check_cidr sys s = if is_empty s then success tt else validate_cidr sys s

-- The tests on what the file says.
unfoldable pub check : System → Settings → Attempt (Unit {0})
check sys c = do
  fail_if (is_empty c.lan_a || is_empty c.lan_b) lans_missing
  check_coupling c
  fail_if (not (is_empty c.first_octet) && not (valid_multicast_pattern c.first_octet))
      (invalid_pattern c.first_octet)
  check_cidr sys c.lan_a_ip
  check_cidr sys c.lan_b_ip
  check_cidr sys c.interlink_ip

-- A PRP ID that is not given is made of the host's name, which is then a missing name of the node.
unfoldable pub derive_id : System → Settings → Settings
derive_id sys c =
    let (hi, lo) = sys.sum sys.hostname in
    if c.prp_id == 0 && not (is_empty sys.hostname)
    then record c {
      prp_id = (hi * 256 + lo) % 65535 + 1;
      name = if is_empty c.name then sys.hostname else c.name;
    }
    else c

unfoldable pub override_role : Text → Settings → Attempt Settings
override_role v c =
    if is_empty v then success c else elim (known_role v) as (λ _. Attempt Settings) [
      | none ↦ failed (invalid_env_role v)
      | some role ↦ success (record c { role = role })
    ]

unfoldable pub override_lan_id : Text → Settings → Attempt Settings
override_lan_id v c =
    if is_empty v
    then success c
    else if is_lan_id v
    then success (record c { lan_id = v })
    else failed (invalid_env_lan_id v)

unfoldable pub read_digits : ℕ → Text → Option ℕ
read_digits n [] = some n
read_digits n (c ∷ s) =
    let rest = read_digits (n * 10 + (c - b'0')) s in
    if leb b'0' c && leb c b'9' then rest else none

unfoldable pub trim_plus : Text → Text
trim_plus [] = []
trim_plus (c ∷ s) = if c == b'+' then s else c ∷ s

-- strconv.Atoi where it gives a number from 0 on: digits behind a sign, below 2 ^ 63. What is below
-- 0 the callers treat as an error.
unfoldable pub atoi : Text → Option ℕ
unfolding read_digits trim_plus
atoi s =
    let digits = trim_plus s in
    if is_empty digits then none else elim (read_digits 0 digits) as (λ _. Option ℕ) [
      | none ↦ none
      | some n ↦ if ltb n (2 ^ 63) then some n else none
    ]

unfoldable pub override_net_id : Text → Settings → Attempt Settings
override_net_id v c = if is_empty v then success c else elim (atoi v) as (λ _. Attempt Settings) [
  | none ↦ failed (invalid_env_prp_id v)
  | some id ↦
      if is_net_id id then success (record c { net_id = id }) else failed (invalid_env_prp_id v)
]

-- A value that is no positive number is ignored.
unfoldable pub override_prp_id : Text → Settings → Settings
override_prp_id v c = if is_empty v then c else elim (atoi v) as (λ _. Settings) [
  | none ↦ c
  | some id ↦ if ltb 0 id then record c { prp_id = id } else c
]

-- The address of a port: that of the environment where it is set.
unfoldable pub override_ip : System → Text → Text → Attempt Text
override_ip sys v ip = if is_empty v then success ip else (do validate_cidr sys v; success v)

unfoldable pub override_ips : System → Settings → Attempt Settings
override_ips sys c = do
  a ← override_ip sys (sys.getenv (codes "PRP_LAN_A_IP")) c.lan_a_ip
  b ← override_ip sys (sys.getenv (codes "PRP_LAN_B_IP")) c.lan_b_ip
  i ← override_ip sys (sys.getenv (codes "PRP_INTERLINK_IP")) c.interlink_ip
  success (record c { lan_a_ip = a; lan_b_ip = b; interlink_ip = i })

-- The environment has the last word.
unfoldable pub override : System → Settings → Attempt Settings
unfolding override_ips
override sys c = do
  c ← override_role (sys.getenv (codes "PRP_ROLE")) c
  c ← override_lan_id (sys.getenv (codes "HSR_LAN_ID")) c
  c ← override_net_id (sys.getenv (codes "HSR_PRP_ID")) c
  override_ips sys (override_prp_id (sys.getenv (codes "PRP_PRP_ID")) c)

unfoldable pub load_settings : System → Settings → Attempt Settings
load_settings sys c = do c ← normalize_role c; check sys c; override sys (derive_id sys c)

unfoldable pub load : System → Text → Attempt Settings
load sys path = elim (sys.read_file path) as (λ _. Attempt Settings) [
  | none ↦ failed read_failed
  | some bytes ↦ elim (sys.unmarshal bytes) as (λ _. Attempt Settings) [
    | none ↦ failed parse_failed
    | some c ↦ load_settings sys c
  ]
]

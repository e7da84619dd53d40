-- ===== src/Examples/Configs.antt =====
-- The configuration's and the daemon's properties at a concrete file.
use prp_sim.Base.{
  ℕ, ◌≤◌, ◌<◌, ◌≡◌, refl, ◌⊎◌, true, Option, none, some, [], if◌then◌else◌, length, Text, codes,
  text_eq,
}
use prp_sim.Prp.Role.{Role, parse_role, info_for}
use prp_sim.Prp.Node.{Node, new_node, role_info, is_hsr_node, is_hsr_prp_coupling, lan_id, net_id}
use prp_sim.Prp.Monitor.{start}
use prp_sim.Prp.Multicast.{parse_multicast_pattern}
use prp_sim.Conf.Results.{success}
use prp_sim.Conf.Load.{Settings, System, load, is_empty}
use prp_sim.Daemon.{prp_config}
use prp_sim.Daemon.Starts.{prp_config_lem, start-coupled}

-- What the file of a coupling node says.
abbrev file : Settings
file = record {
  name = [];
  role = codes "hsr-prp";
  lan_a = codes "eth0";
  lan_b = codes "eth1";
  interlink = codes "eth2";
  lan_a_ip = codes "10.0.0.1/24";
  lan_b_ip = [];
  interlink_ip = [];
  net_id = 3;
  lan_id = codes "A";
  prp_id = 0;
  trailer_enabled = true;
  supervision_enabled = true;
  life_check_interval = codes "2s";
  node_forget_time = codes "60s";
  proxy_node_forget_time = [];
  entry_forget_time = codes "400ms";
  max_node_table_size = 1024;
  first_octet = codes "01-00-5E";
  forward_all = true;
  vlan_filter = [];
}

-- A host of this file, on which HSR_LAN_ID is set.
abbrev pub host : System
host = record {
  read_file = λ path. some [];
  unmarshal = λ bytes. some file;
  parse_cidr = λ s. if text_eq s (codes "10.0.0.1/24") then some true else none;
  sum = λ s. (1, 2);
  hostname = codes "box";
  getenv = λ v. if text_eq v (codes "HSR_LAN_ID") then codes "B" else [];
}

abbrev pub loaded : Settings
loaded = record file { prp_id = 259; name = codes "box"; lan_id = codes "B" }

host-loads : load host (codes "prp.yaml") ≡ success loaded
unfolding load prp_sim.Conf.Load.load_settings prp_sim.Conf.Load.normalize_role
    prp_sim.Conf.Load.known_role text_eq prp_sim.Conf.Load.check prp_sim.Conf.Load.check_coupling
    prp_sim.Conf.valid_multicast_pattern prp_sim.Prp.Multicast.normalize_hex
    prp_sim.Prp.Multicast.to_lower prp_sim.Conf.Load.check_cidr prp_sim.Conf.Load.override
    prp_sim.Conf.Load.override_role prp_sim.Conf.Load.override_lan_id
    prp_sim.Conf.Load.override_net_id prp_sim.Conf.Load.override_ip
    prp_sim.Conf.Load.override_prp_id prp_sim.Conf.Load.derive_id prp_sim.Conf.Load.atoi
    prp_sim.Conf.Load.override_ips prp_sim.Conf.Load.read_digits prp_sim.Conf.Load.trim_plus
    prp_sim.Conf.Load.validate_cidr prp_sim.Conf.all_lower_hex prp_sim.Conf.is_lower_hex
    prp_sim.Prp.Multicast.map_lower prp_sim.Prp.Multicast.remove_all prp_sim.Prp.Multicast.trim_0x
host-loads = refl

abbrev parse_ms : Text → Option ℕ
parse_ms s = if is_empty s then none else some 400_000_000

prp_config_lem_example :
    (r : Role) × (parse_role loaded.role ≡ some r)
    × (role_info (prp_config parse_ms loaded) ≡ info_for r)
    × ((is_empty loaded.first_octet ≡ true)
        ⊎ (0 < length (parse_multicast_pattern (prp_config parse_ms loaded).multicast_first_octet)))
prp_config_lem_example = prp_config_lem parse_ms host (codes "prp.yaml") loaded host-loads

abbrev started : Node
started = start none true (new_node (prp_config parse_ms loaded) 100)

start-coupled_example :
    (is_hsr_node started ≡ true)
    × (is_hsr_prp_coupling started ≡ true)
    × (net_id started ≡ loaded.net_id)
    × (1 ≤ loaded.net_id)
    × (loaded.net_id ≤ 6)
    × (((loaded.lan_id ≡ codes "A") × (lan_id started ≡ 0))
        ⊎ ((loaded.lan_id ≡ codes "B") × (lan_id started ≡ 1)))
unfolding text_eq
start-coupled_example =
    start-coupled parse_ms host (codes "prp.yaml") loaded 100 none host-loads refl refl

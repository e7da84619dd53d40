-- ===== src/Daemon.antt =====
-- cmd/prpd/main.go: what the daemon makes of a configuration, and how it prints the drops.
pub mod Starts
pub mod Descriptors
pub mod Console
use prp_sim.Base.{
  ℕ, ◌/◌, Bool, ◌||◌, Option, none, some, List, [], ◌∷◌, ◌++◌, ltb, if◌then◌else◌, Text, codes,
  lookup,
}
use prp_sim.Nodetable.{decimal}
use prp_sim.Prp.Node.{Config}
use prp_sim.Conf.Load.{Settings, is_empty}
use prp_sim.Iface.{Kernel, Process, set_interface_up, set_interface_ip}
use prp_sim.Prp.Ports.{Interfaces}

-- `int(d / time.Millisecond)` of a duration that was given, 0 otherwise.
unfoldable pub millis : Option ℕ → ℕ
millis none = 0
millis (some d) = d / 1_000_000

-- `parse_duration` is time.ParseDuration where it gives a positive duration, in nanoseconds.
unfoldable pub prp_config : (Text → Option ℕ) → Settings → Config
unfolding millis
prp_config parse_duration c = record {
  role = c.role;
  lan_id = c.lan_id;
  net_id = c.net_id;
  prp_id = c.prp_id;
  trailer_enabled = c.trailer_enabled;
  forward_all = c.forward_all;
  vlan_filter = c.vlan_filter;
  multicast_first_octet = c.first_octet;
  entry_forget_ms = millis (parse_duration c.entry_forget_time);
  max_node_table_size = c.max_node_table_size;
  proxy_node_forget_ms = millis (parse_duration c.proxy_node_forget_time);
  node_forget_ms = millis (parse_duration c.node_forget_time);
}

abbrev drop_reasons : List Text
drop_reasons = codes "dup" ∷ codes "own" ∷ codes "path" ∷ codes "filter" ∷ codes "malformed" ∷ []

-- `fmt.Sprintf("%s=%d", k, v)` of the reasons that have been counted.
unfoldable pub drop_parts : List Text → List (Text × ℕ) → List Text
drop_parts [] drops = []
drop_parts (k ∷ ks) drops =
    let rest = drop_parts ks drops in
    elim (lookup k drops) as (λ _. List Text) [
      | none ↦ rest
      | some v ↦ if ltb 0 v then (k ++ (b'=' ∷ decimal v)) ∷ rest else rest
    ]

-- `strings.Join(parts, " ")`
unfoldable pub join_spaces : List Text → Text
join_spaces [] = []
join_spaces (p ∷ []) = p
join_spaces (p ∷ q ∷ ps) = p ++ (b' ' ∷ join_spaces (q ∷ ps))

unfoldable pub format_drops : List (Text × ℕ) → Text
unfolding drop_parts join_spaces
format_drops [] = codes "-"
format_drops ((k, v) ∷ drops) = elim (drop_parts drop_reasons ((k, v) ∷ drops)) as (λ _. Text) [
  | [] ↦ codes "-"
  | ◌∷◌ p ps ↦ join_spaces (p ∷ ps)
]

-- One port of applyStaticIPs: a failure is logged. `is_ip4` is what net.ParseCIDR and To4 make of
-- the address.
unfoldable pub apply_static_ip : Kernel → Text → Text → Option Bool → Process → Process
apply_static_ip k name cidr is_ip4 p =
    if is_empty name || is_empty cidr
    then p
    else (set_interface_ip k is_ip4 (set_interface_up k p).1).1

unfoldable pub apply_static_ips : Kernel → (Text → Option Bool) → Settings → Process → Process
unfolding apply_static_ip
apply_static_ips k parse_cidr c p =
    apply_static_ip k c.interlink c.interlink_ip (parse_cidr c.interlink_ip) (
      apply_static_ip k c.lan_b c.lan_b_ip (parse_cidr c.lan_b_ip)
        (apply_static_ip k c.lan_a c.lan_a_ip (parse_cidr c.lan_a_ip) p))

abbrev pub interfaces_of : Settings → Interfaces
interfaces_of c = record { lan_a = c.lan_a; lan_b = c.lan_b; interlink = c.interlink }

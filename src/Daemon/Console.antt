-- ===== src/Daemon/Console.antt =====
-- cmd/prpd/main.go: what the daemon's screen is given.
pub mod Times
use prp_sim.Base.{ℕ, Bool, List, [], ◌∷◌, ◌++◌, if◌then◌else◌, Text, codes, text_eq}
use prp_sim.Nodetable.{decimal}
use prp_sim.Prp.Node.{Node, snapshot}
use prp_sim.Conf.Load.{Settings, is_empty}
use prp_sim.Tui.Screen.{PrpdStats, PrpdSettings}

-- `strings.Join(parts, ",")` of the numbers.
unfoldable pub join_numbers : List ℕ → Text
join_numbers [] = []
join_numbers (v ∷ []) = decimal v
join_numbers (v ∷ w ∷ vs) = decimal v ++ (b',' ∷ join_numbers (w ∷ vs))

unfoldable pub vlan_text : List ℕ → Text
unfolding join_numbers
vlan_text [] = codes "none"
vlan_text (v ∷ vs) = join_numbers (v ∷ vs)

unfoldable pub supervision_text : Settings → Text
supervision_text c =
    let on = codes "on (" ++ (c.life_check_interval ++ codes ")") in
    if c.supervision_enabled
    then (if text_eq on (codes "on ()") then codes "on (2s)" else on)
    else codes "off"

abbrev pub or_text : Text → Text → Text
or_text s other = if is_empty s then other else s

-- `debug` is whether DEBUG_FRAMES is 1.
unfoldable pub shown_settings : Settings → Bool → PrpdSettings
unfolding vlan_text supervision_text
shown_settings c debug = record {
  interfaces =
      c.lan_a
      ++ (codes " (A), " ++ (c.lan_b ++ (codes " (B), " ++ (c.interlink ++ codes " (interlink)"))));
  trailer_enabled = c.trailer_enabled;
  supervision = supervision_text c;
  node_forget = or_text c.node_forget_time (codes "64s");
  proxy_forget = or_text c.proxy_node_forget_time (codes "64s");
  entry_forget = or_text c.entry_forget_time (codes "640ms");
  forward_all = c.forward_all;
  vlan_filter = vlan_text c.vlan_filter;
  multicast = or_text c.first_octet (codes "none (allow all)");
  debug_frames = debug;
}

unfoldable pub shown_stats : Settings → Node → PrpdStats
unfolding snapshot
shown_stats c n =
    let st = snapshot n in
    record {
      role = st.role;
      name = c.name;
      prp_id = n.config.prp_id;
      net_id = st.net_id;
      lan_id = st.lan_id;
      lan_a_in = st.counters.lan_a_in;
      lan_a_out = st.counters.lan_a_out;
      lan_b_in = st.counters.lan_b_in;
      lan_b_out = st.counters.lan_b_out;
      inter_in = st.counters.inter_in;
      inter_out = st.counters.inter_out;
      sup_sent = st.counters.sup_sent;
      dup_table_size = st.dup_table_size;
    }

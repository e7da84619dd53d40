-- ===== src/Daemon/Console/Times.antt =====
-- The lifetimes that the screen shows where the file gives none.
use prp_sim.Base.{ℕ, ◌*◌, ◌≡◌, Bool, Option, none, [], Text, codes}
use prp_sim.Nodetable.{millisecond}
use prp_sim.Prp.Node.{new_node, entry_forget_ms, or_default}
use prp_sim.Conf.Load.{Settings}
use prp_sim.Daemon.{prp_config, millis}
use prp_sim.Daemon.Console.{shown_settings}

-- Where the file gives no lifetimes, an empty text being no duration, the screen shows 640 ms for an
-- entry and 64 s for a peer and for a SAN's address, and these are the lifetimes that the node uses.
pub shown_times_lem :
    (parse_duration : Text → Option ℕ) (c : Settings) (debug : Bool) (seq : ℕ)
    → parse_duration [] ≡ none
    → c.entry_forget_time ≡ []
    → c.node_forget_time ≡ []
    → c.proxy_node_forget_time ≡ []
    → let n = new_node (prp_config parse_duration c) seq in
      let shown = shown_settings c debug in
      ((shown.entry_forget ≡ codes "640ms") × (entry_forget_ms n ≡ 640))
      × ((shown.node_forget ≡ codes "64s") × (n.supervision_forget ≡ 64000 * millisecond))
      × ((shown.proxy_forget ≡ codes "64s") × (n.proxy_table_forget ≡ 64000 * millisecond))
unfolding prp_config new_node entry_forget_ms shown_settings
shown_times_lem parse_duration c debug seq none_given entry node proxy = (
  (rw entry, rw (entry, none_given, or_default, millis)),
  (rw node, rw (node, none_given, or_default, millis)),
  (rw proxy, rw (proxy, none_given, or_default, millis)),
)

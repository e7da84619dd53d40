-- ===== src/Prp/Node.antt =====
-- internal/prp/prp.go and hsr.go: the state of a node, its counters, its tables and its writes.
use prp_sim.Base.{
  is_found, ℕ, ◌+◌, ◌*◌, Bool, false, ◌&&◌, ◌||◌, not, Option, none, some, List, [], ◌∷◌, ◌++◌, ltb,
  ◌==◌, if◌then◌else◌, length, Bytes, byte_at, slice, Text, codes, text_eq, lookup, insert,
  low_bits, inc_u64, Outcome, done, panics,
}
use prp_sim.Engine.Ether.{get_src_mac, get_dst_mac}
use prp_sim.Engine.Sequence.{SequenceManager, new_sequence_manager_with_start}
use prp_sim.Nodetable.{Entries, Table, new_table, insert_with_expiry, millisecond, size}
use prp_sim.Prp.Role.{RoleInfo, prp_san, parse_role, info_for}

-- The three ports, which the code names "lan_a", "lan_b" and "interlink".
pub data Port : Type 0 where
  lan_a lan_b interlink : Port

-- Names of interfaces and the debug switch are left out. A negative number in the file does what 0
-- does.
pub record Config : Type 0 where
  pub role : Text
  pub lan_id : Text
  pub net_id : ℕ
  pub prp_id : ℕ
  pub trailer_enabled : Bool
  pub forward_all : Bool
  pub vlan_filter : List ℕ
  pub multicast_first_octet : Text
  pub entry_forget_ms : ℕ
  pub max_node_table_size : ℕ
  pub proxy_node_forget_ms : ℕ
  pub node_forget_ms : ℕ

pub record Counters : Type 0 where
  pub lan_a_in : ℕ
  pub lan_b_in : ℕ
  pub lan_a_out : ℕ
  pub lan_b_out : ℕ
  pub inter_in : ℕ
  pub inter_out : ℕ
  pub sup_sent : ℕ

abbrev pub Times : Type 0
Times = List (Text × ℕ)

-- A nil map reads as an empty one and is made before the first write. `has_interlink` says whether
-- the interlink is bound, and `sent` lists the frames that left the ports, oldest first.
pub record Node : Type 0 where
  pub config : Config
  pub has_interlink : Bool
  pub mac : Option Bytes
  pub sup_seq : ℕ
  pub seq_mgr : SequenceManager
  pub supervision_seen : Times
  pub supervision_seqs : List (Text × ℕ)
  pub supervision_forget : ℕ
  pub dup_table : Table
  pub proxy_table : Times
  pub proxy_table_forget : ℕ
  pub ring_members : Times
  pub drop_counters : List (Text × ℕ)
  pub counters : Counters
  pub sent : List (Port × Bytes)

-- What the world decides while one frame is handled: the time, the order of iteration over the
-- duplicate table, and which ports take a write.
pub record Env : Type 0 where
  pub now : ℕ
  pub order : Entries → Entries
  pub write_ok : Port → Bool

unfoldable pub or_default : ℕ → ℕ → ℕ
or_default n d = if n == 0 then d else n

abbrev pub no_counters : Counters
no_counters = record {
  lan_a_in = 0;
  lan_b_in = 0;
  lan_a_out = 0;
  lan_b_out = 0;
  inter_in = 0;
  inter_out = 0;
  sup_sent = 0;
}

-- `start` is what `randSeqStart` returns. The MAC and the ports come with `Start`.
unfoldable pub new_node : Config → ℕ → Node
unfolding or_default new_sequence_manager_with_start new_table
new_node cfg start = record {
  config = cfg;
  has_interlink = false;
  mac = none;
  sup_seq = 0;
  seq_mgr = new_sequence_manager_with_start start;
  supervision_seen = [];
  supervision_seqs = [];
  supervision_forget = or_default cfg.node_forget_ms 64000 * millisecond;
  dup_table = new_table (or_default cfg.max_node_table_size 256);
  proxy_table = [];
  proxy_table_forget = or_default cfg.proxy_node_forget_ms 64000 * millisecond;
  ring_members = [];
  drop_counters = [];
  counters = no_counters;
  sent = [];
}

-- An unknown role falls back to prp-san.
unfoldable pub role_info : Config → RoleInfo
role_info c = elim (parse_role c.role) [ none ↦ info_for prp_san | some r ↦ info_for r ]

abbrev pub is_hsr_node : Node → Bool
is_hsr_node n = (role_info n.config).redundancy_ports_are_hsr

abbrev pub is_hsr_prp_coupling : Node → Bool
is_hsr_prp_coupling n = (role_info n.config).coupled_to_prp

abbrev pub is_hsr_hsr : Node → Bool
is_hsr_hsr n = (role_info n.config).interlink_is_hsr

unfoldable pub lan_id : Node → ℕ
lan_id n = if is_hsr_prp_coupling n && text_eq n.config.lan_id (codes "B") then 1 else 0

unfoldable pub net_id : Node → ℕ
net_id n = if is_hsr_prp_coupling n && ltb 0 n.config.net_id then n.config.net_id else 1

unfoldable pub note_drop : Text → Node → Node
note_drop reason n =
    let count = elim (lookup reason n.drop_counters) as (λ _. ℕ) [ none ↦ 0 | some k ↦ k ] in
    record n { drop_counters = insert reason (count + 1) n.drop_counters }

unfoldable pub count_in : Port → Node → Node
count_in lan_a n = record n {
  counters = record (n.counters) { lan_a_in = inc_u64 n.counters.lan_a_in };
}
count_in lan_b n = record n {
  counters = record (n.counters) { lan_b_in = inc_u64 n.counters.lan_b_in };
}
count_in interlink n = record n {
  counters = record (n.counters) { inter_in = inc_u64 n.counters.inter_in };
}

unfoldable pub count_out : Port → Node → Node
count_out lan_a n = record n {
  counters = record (n.counters) { lan_a_out = inc_u64 n.counters.lan_a_out };
}
count_out lan_b n = record n {
  counters = record (n.counters) { lan_b_out = inc_u64 n.counters.lan_b_out };
}
count_out interlink n = record n {
  counters = record (n.counters) { inter_out = inc_u64 n.counters.inter_out };
}

-- `port.Write(frame)` on a bound port, and the same followed by `countFrame` where it succeeds.
unfoldable pub write : Env → Port → Bytes → Node → Node
write env port frame n =
    if env.write_ok port then record n { sent = n.sent ++ ((port, frame) ∷ []) } else n

unfoldable pub write_counted : Env → Port → Bytes → Node → Node
unfolding write count_out
write_counted env port frame n =
    if env.write_ok port then count_out port (write env port frame n) else n

-- A write on the interlink panics where the port was never bound.
unfoldable pub write_interlink : Env → Bytes → Node → Outcome Node
write_interlink env frame n =
    if n.has_interlink then done (write_counted env interlink frame n) else panics

unfoldable pub entry_forget_ms : Node → ℕ
entry_forget_ms n = if ltb 0 n.config.entry_forget_ms then n.config.entry_forget_ms else 640

-- `n.dupTable.InsertWithExpiry(srcMAC, seq, lanID, n.entryForgetMs())`
unfoldable pub register : Env → Text → ℕ → ℕ → Node → Node
register env mac seq lan n = record n {
  dup_table = insert_with_expiry env.order env.now n.dup_table mac seq lan (entry_forget_ms n);
}

unfoldable pub src_mac_bytes : Bytes → Bytes
src_mac_bytes frame = if ltb (length frame) 12 then [] else slice frame 6 12

-- `n.mac != nil && bytesEqual(n.mac, srcMACBytes(frame))`
unfoldable pub is_own : Node → Bytes → Bool
unfolding src_mac_bytes
is_own n frame = elim n.mac [ none ↦ false | some mac ↦ text_eq mac (src_mac_bytes frame) ]

unfoldable pub learn_ring_member : Env → Text → Node → Node
learn_ring_member env mac n = record n { ring_members = insert mac env.now n.ring_members }

unfoldable pub learn_proxy : Env → Bytes → Node → Node
learn_proxy env frame n =
    if ltb (length frame) 12
    then n
    else record n { proxy_table = insert (get_src_mac frame) env.now n.proxy_table }

-- `unicastToRingMember(frame[:6])`, of a frame of six bytes at least.
unfoldable pub unicast_to_ring_member : Node → Bytes → Bool
unicast_to_ring_member n dst =
    if not (length dst == 6) || low_bits (byte_at dst 0) 1 == 1
    then false
    else is_found (lookup (get_dst_mac dst) n.ring_members)

-- The snapshot that the console shows.
pub record Status : Type 0 where
  pub role : Text
  pub lan_id : Text
  pub net_id : ℕ
  pub counters : Counters
  pub dup_table_size : ℕ
  pub drops : List (Text × ℕ)

unfoldable pub snapshot : Node → Status
snapshot n = record {
  role = n.config.role;
  lan_id = n.config.lan_id;
  net_id = n.config.net_id;
  counters = n.counters;
  dup_table_size = size n.dup_table;
  drops = n.drop_counters;
}

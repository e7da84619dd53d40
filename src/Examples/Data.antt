-- ===== src/Examples/Data.antt =====
-- Frames, configurations and a world for the runs.
use prp_sim.Base.{
  panics, ℕ, ◌≡◌, refl, Bool, true, false, some, [], ◌∷◌, ◌++◌, Bytes, put_u16, Text, codes,
  Outcome, done, panics,
}
use prp_sim.Engine.Hsr.{Tag, encode_hsr}
use prp_sim.Nodetable.Oldest.{IsOrder}
use prp_sim.Prp.Node.{Config, Node, Env, new_node}
use prp_sim.Prp.Monitor.{start}

abbrev pub box_mac : Bytes
box_mac = 0x02 ∷ 0x50 ∷ 0x50 ∷ 0x00 ∷ 0x00 ∷ 0x01 ∷ []

-- An IPv4 frame of 18 bytes from a SAN.
abbrev pub addresses : Bytes
addresses = 0x00 ∷ 0x10 ∷ 0x20 ∷ 0x30 ∷ 0x40 ∷ 0x50 ∷ 0x00 ∷ 0xaa ∷ 0xbb ∷ 0xcc ∷ 0xdd ∷ 0xee ∷ []

abbrev pub san_payload : Bytes
san_payload = 1 ∷ 2 ∷ 3 ∷ 4 ∷ []

abbrev pub san_frame : Bytes
san_frame = addresses ++ (put_u16 0x0800 ++ san_payload)

abbrev pub config_of : Text → Config
config_of role = record {
  role = role;
  lan_id = codes "A";
  net_id = 3;
  prp_id = 1;
  trailer_enabled = true;
  forward_all = true;
  vlan_filter = [];
  multicast_first_octet = [];
  entry_forget_ms = 0;
  max_node_table_size = 0;
  proxy_node_forget_ms = 0;
  node_forget_ms = 0;
}

-- A started node of a role, with an interlink.
abbrev pub node_of : Text → Node
node_of role = start (some box_mac) true (new_node (config_of role) 100)

abbrev pub at : ℕ → Env
at now = record { now = now; order = λ es. es; write_ok = λ p. true }

pub at-IsOrder : (now : ℕ) → IsOrder (at now).order
at-IsOrder now es d = (d, λ k. refl)

-- The same frame on a ring, by path and number.
abbrev pub ring_frame : ℕ → ℕ → Bytes
ring_frame path seq = addresses ++ encode_hsr san_payload path seq 0x0800

abbrev pub ring_tag : ℕ → ℕ → Tag
ring_tag path seq = record { path = path; seq = seq; encap_proto = 0x0800; payload = san_payload }

-- The result of a call that returns.
abbrev pub result_or : Node → Outcome Node → Node
result_or n (done m) = m
result_or n panics = n

abbrev pub is_done : Outcome Node → Bool
is_done (done m) = true
is_done panics = false

pub returns : (n : Node) (o : Outcome Node) → is_done o ≡ true → o ≡ done (result_or n o)
returns n (done m) e = refl
returns n panics e = cc

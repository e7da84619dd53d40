-- ===== src/Prp/Dispatch.antt =====
-- internal/prp/prp.go: handleFrame, and the loop over the frames that were read.
pub mod Invariant
pub mod Handlers
pub mod Emits
pub mod Horizon
pub mod NoEcho
pub mod Consumed
pub mod Links
pub mod Total
pub mod Alive
pub mod Runs
use prp_sim.Base.{
  Bool, ◌&&◌, ◌||◌, Option, List, [], ◌∷◌, ltb, ◌==◌, if◌then◌else◌, length, Bytes, Outcome, done,
  ◌>>=◌,
}
use prp_sim.Engine.Ether.{get_ether_type}
use prp_sim.Prp.Node.{
  Port, lan_a, lan_b, interlink, Node, Env, is_hsr_node, is_hsr_hsr, write_counted,
}
use prp_sim.Prp.Lan.{handle_incoming_prp_frame, handle_interlink_frame}
use prp_sim.Prp.Ring.{handle_incoming_hsr_frame}
use prp_sim.Prp.Ring.Inject.{handle_hsr_interlink_frame}
use prp_sim.Prp.Monitor.{
  is_ring_port, handle_supervision_frame, periodic_cleanup, send_supervision_frame,
}

pub record FrameEvent : Type 0 where
  pub iface : Port
  pub frame : Bytes

-- Supervision traffic is consumed on the LANs, and on the interlink of an hsr-hsr node.
unfoldable pub is_supervision : Port → Bytes → Node → Bool
is_supervision port frame n = get_ether_type frame == 0x88fb && (is_ring_port port || is_hsr_hsr n)

-- hsr-hsr: supervision goes on to the other ring.
unfoldable pub relay_supervision : Env → Port → Bytes → Node → Node
relay_supervision env interlink frame n =
    if is_hsr_hsr n then write_counted env lan_b frame (write_counted env lan_a frame n) else n
relay_supervision env _ frame n =
    if is_hsr_hsr n && n.has_interlink then write_counted env interlink frame n else n

unfoldable pub handle_data : Env → Port → Bytes → Node → Outcome Node
handle_data env interlink frame n =
    if is_hsr_node n
    then handle_hsr_interlink_frame env frame n
    else handle_interlink_frame env frame n
handle_data env port frame n =
    if is_hsr_node n
    then handle_incoming_hsr_frame env port frame n
    else done (handle_incoming_prp_frame env port frame n)

unfoldable pub consume_supervision : Env → Port → Bytes → Node → Outcome Node
consume_supervision env port frame n = do
  n' ← handle_supervision_frame env port frame n
  done (relay_supervision env port frame n')

-- A frame shorter than an Ethernet header is dropped without a count.
unfoldable pub handle_frame : Env → FrameEvent → Node → Outcome Node
handle_frame env event n =
    let port = event.iface in
    let frame = event.frame in
    if ltb (length frame) 14
    then done n
    else if is_supervision port frame n
    then consume_supervision env port frame n
    else handle_data env port frame n

-- What a running node does: it handles a frame that was read, cleans up when the timer fires, and
-- announces itself when the main loop says so.
pub data Action : Type 0 where
  receive : FrameEvent → Action
  clean : Action
  announce : Option Bytes → Action

unfoldable pub act : Env → Action → Node → Outcome Node
act env (receive event) n = handle_frame env event n
act env clean n = done (periodic_cleanup env.now n)
act env (announce interface_mac) n = done (send_supervision_frame env interface_mac n)

-- A run, each action with the world it meets.
unfoldable pub run : List (Env × Action) → Node → Outcome Node
run [] n = done n
run ((env, action) ∷ rest) n = act env action n >>= λ n'. run rest n'

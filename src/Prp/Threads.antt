-- ===== src/Prp/Threads.antt =====
-- internal/prp/prp.go: the goroutines of a started node: readLoop for each port, processFrames, the
-- clean-up timer, and the daemon's announcements. They meet in the buffer of frames.
pub mod Order
pub mod Drain
use prp_sim.Base.{
  ℕ, ◌≡◌, Option, List, [], ◌∷◌, ◌++◌, ltb, if◌then◌else◌, length, take, Bytes, done,
}
use prp_sim.Prp.Node.{Port, Node, Env}
use prp_sim.Prp.Dispatch.{FrameEvent, Action, receive, clean, announce, act}

-- `make(chan frameEvent, 10000)`
abbrev pub buffer_cap : ℕ
buffer_cap = 10_000

pub record Threads : Type 0 where
  pub node : Node
  pub buffer : List FrameEvent

-- What a read puts into the buffer of readLoop, 2048 bytes of a frame at most.
abbrev pub read_event : Port → Bytes → FrameEvent
read_event port wire = record { iface = port; frame = take 2048 wire }

-- The send on the channel, with its default case: a full buffer drops the frame.
unfoldable pub offer : FrameEvent → List FrameEvent → List FrameEvent
offer event buffer = if ltb (length buffer) buffer_cap then buffer ++ (event ∷ []) else buffer

-- One step of one goroutine. A handler of a frame or of the timer is one step: the tables that they
-- share have locks, but for the times of the peers seen, which are taken as if they had one. A
-- handler that panics ends the process.
pub data Step : Threads → Threads → Type 0 where
  read_frame :
      (t : Threads) (port : Port) (wire : Bytes)
      → Step t (record t { buffer = offer (read_event port wire) t.buffer })
  process :
      (t : Threads) (env : Env) (event : FrameEvent) (rest : List FrameEvent) (n : Node)
      → t.buffer ≡ event ∷ rest
      → act env (receive event) t.node ≡ done n
      → Step t (record { node = n; buffer = rest })
  tick :
      (t : Threads) (env : Env) (n : Node)
      → act env clean t.node ≡ done n
      → Step t (record t { node = n })
  say :
      (t : Threads) (env : Env) (interface_mac : Option Bytes) (n : Node)
      → act env (announce interface_mac) t.node ≡ done n
      → Step t (record t { node = n })

-- Any interleaving of the steps, from a node on with an empty buffer.
pub data Reach (n : Node) : Threads → Type 0 where
  begin : Reach n (record { node = n; buffer = [] })
  go_on : {t u : Threads} → Reach n t → Step t u → Reach n u

-- What has been read on the way, and what the node has done.
unfoldable pub was_read : {t u : Threads} → Step t u → List FrameEvent
was_read (read_frame t port wire) = read_event port wire ∷ []
was_read (process _ _ _ _ _ _ _) = []
was_read (tick _ _ _ _) = []
was_read (say _ _ _ _ _) = []

unfoldable pub was_done : {t u : Threads} → Step t u → List (Env × Action)
was_done (read_frame t port wire) = []
was_done (process t env event rest n e h) = (env, receive event) ∷ []
was_done (tick t env n h) = (env, clean) ∷ []
was_done (say t env mac n h) = (env, announce mac) ∷ []

unfoldable pub all_read : {n : Node} {t : Threads} → Reach n t → List FrameEvent
unfolding was_read
all_read begin = []
all_read (go_on r s) = all_read r ++ was_read s

unfoldable pub all_done : {n : Node} {t : Threads} → Reach n t → List (Env × Action)
unfolding was_done
all_done begin = []
all_done (go_on r s) = all_done r ++ was_done s

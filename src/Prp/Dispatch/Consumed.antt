-- ===== src/Prp/Dispatch/Consumed.antt =====
-- internal/prp/prp.go, handleFrame: supervision frames that come in from the ring or the LANs.
use prp_sim.Base.{◌≡◌}
use prp_sim.Supervision
use prp_sim.Prp.Node.{Node}

-- A node that has sent no more than another, under the same configuration.
abbrev pub Silent : Node → Node → Type 0
Silent n m = (m.sent ≡ n.sent) × (m.config ≡ n.config)

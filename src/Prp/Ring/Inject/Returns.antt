-- ===== src/Prp/Ring/Inject/Returns.antt =====
-- internal/prp/hsr.go, handleHSRInterlinkFrame: a frame that was put on the ring comes round.
use prp_sim.Base.{panics, panics}
use prp_sim.Nodetable.Size
use prp_sim.Prp.Node.{Node}

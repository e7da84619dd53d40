-- ===== src/Prp/Threads/Drain.antt =====
-- A running node gets through the frames in its buffer.
use prp_sim.Base.{panics, ◌≤◌, length, panics}
use prp_sim.Prp.Node.{Node}
use prp_sim.Prp.Dispatch.{FrameEvent}
use prp_sim.Prp.Threads.{Threads}

abbrev pub IsLong : FrameEvent → Type 0
IsLong e = 26 ≤ length e.frame

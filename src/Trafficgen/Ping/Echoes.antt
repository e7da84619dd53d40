-- ===== src/Trafficgen/Ping/Echoes.antt =====
-- What pingMode counts of the echoes.
use prp_sim.Base.{panics, ◌≡◌, List, All, Text, codes, panics}
use prp_sim.Trafficgen.Stats.{Stats}

-- Every key is the one of the pings.
abbrev AllPings : List Text → Type 0
AllPings ks = All (λ k. k ≡ codes "ping") ks

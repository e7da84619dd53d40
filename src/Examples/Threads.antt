-- ===== src/Examples/Threads.antt =====
-- The goroutines' properties at a concrete interleaving.
use prp_sim.Base.{refl, true, none, some, List, [], Bytes, codes}
use prp_sim.Engine.Rct.{pad_frame, encode_rct}
use prp_sim.Prp.Node.{Node, new_node, interlink, lan_a}
use prp_sim.Prp.Monitor.{start, send_supervision_frame}
use prp_sim.Prp.Dispatch.{FrameEvent, act}
use prp_sim.Prp.Threads.{Threads, read_event, offer, Reach, begin, go_on, read_frame, say}
use prp_sim.Examples.Data.{san_frame, box_mac, config_of, at}

abbrev box : Node
box = start (some box_mac) true (new_node (config_of (codes "prp-san")) 100)

-- Two frames are read, and the node announces itself before it handles them.
abbrev first : Bytes
first = pad_frame san_frame

abbrev second : Bytes
second = encode_rct san_frame 7 0

abbrev announced : Node
announced = send_supervision_frame (at 2) none box

abbrev waiting : List FrameEvent
waiting = offer (read_event lan_a second) (offer (read_event interlink first) [])

abbrev state : Threads
state = record { node = announced; buffer = waiting }

unfoldable busy : Reach box state
unfolding act
busy =
    go_on
      (go_on (go_on begin (read_frame (record { node = box; buffer = [] }) interlink first)) (
        read_frame (record { node = box; buffer = offer (read_event interlink first) [] }) lan_a
          second))
      (say (record { node = box; buffer = waiting }) (at 2) none announced refl)

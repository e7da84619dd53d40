-- ===== src/Prp/Threads/Order.antt =====
-- The order in which a running node handles the frames.
use prp_sim.Base.{panics, ◌≤◌, ◌≡◌, refl, ap, List, [], ◌∷◌, ◌++◌, length, done, panics}
use prp_sim.Prp.Node.{Node, Env}
use prp_sim.Prp.Dispatch.{FrameEvent, Action, receive, clean, announce, run}
use prp_sim.Prp.Threads.{buffer_cap, Threads}

-- The frames that a run handles, in its order.
abbrev pub received : List (Env × Action) → List FrameEvent
received [] = []
received ((env, receive event) ∷ rest) = event ∷ received rest
received ((env, clean) ∷ rest) = received rest
received ((env, announce mac) ∷ rest) = received rest

pub received-append :
    (xs ys : List (Env × Action)) → received (xs ++ ys) ≡ received xs ++ received ys
received-append [] ys = refl
received-append ((env, receive event) ∷ xs) ys = ap (λ l. event ∷ l) (received-append xs ys)
received-append ((env, clean) ∷ xs) ys = received-append xs ys
received-append ((env, announce mac) ∷ xs) ys = received-append xs ys

-- The one list with some of its frames left out is the other: nothing is added, doubled or moved.
pub data IsPart : List FrameEvent → List FrameEvent → Type 0 where
  part_end : IsPart [] []
  part_keep : {x : FrameEvent} {xs ys : List FrameEvent} → IsPart xs ys → IsPart (x ∷ xs) (x ∷ ys)
  part_drop : {y : FrameEvent} {xs ys : List FrameEvent} → IsPart xs ys → IsPart xs (y ∷ ys)

-- What holds of the goroutines when some frames were read and some actions done.
pub record IsOrdered (n : Node) (reads : List FrameEvent) (actions : List (Env × Action))
    (t : Threads) : Type 0 where
  pub node : run actions n ≡ done t.node
  pub bounded : length t.buffer ≤ buffer_cap
  pub part : IsPart (received actions ++ t.buffer) reads
  pub none_lost : length reads ≤ buffer_cap → received actions ++ t.buffer ≡ reads

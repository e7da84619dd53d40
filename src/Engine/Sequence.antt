-- ===== src/Engine/Sequence.antt =====
-- internal/engine/engine.go: SequenceManager, the sequence numbers of each source MAC.
use prp_sim.Base.{ℕ, ◌+◌, none, some, List, [], Text, lookup, insert, delete, to_u16}

pub record SequenceManager : Type 0 where
  pub start : ℕ
  pub seqs : List (Text × ℕ)

unfoldable pub new_sequence_manager : SequenceManager
new_sequence_manager = record { start = 0; seqs = [] }

unfoldable pub new_sequence_manager_with_start : ℕ → SequenceManager
new_sequence_manager_with_start start = record { start = start; seqs = [] }

-- `seq, ok := s.seqs[srcMAC]; if !ok { seq = s.start }`
unfoldable pub current : SequenceManager → Text → ℕ
current s mac = elim (lookup mac s.seqs) [ none ↦ s.start | some seq ↦ seq ]

unfoldable pub next : SequenceManager → Text → ℕ × SequenceManager
next s mac =
    let seq = current s mac in (seq, record s { seqs = insert mac (to_u16 (seq + 1)) s.seqs })

unfoldable pub reset : SequenceManager → Text → SequenceManager
reset s mac = record s { seqs = delete mac s.seqs }

-- ===== src/Prp/Ring/Kept.antt =====
-- internal/prp/hsr.go: what follows the registration of a frame leaves the duplicate table alone.
use prp_sim.Base.{
  ◌≡◌, ap, ◌∙◌, inl, inr, Bool, true, false, if◌then◌else◌, Option-cases, Bytes, Text, Outcome,
  done, panics,
}
use prp_sim.Engine.Hsr.{Tag, rewrite_hsr_path_lane, strip_hsr}
use prp_sim.Nodetable.{Table}
use prp_sim.Prp.Node.{Port, interlink, Node, Env, note_drop, write_counted, write_interlink}
use prp_sim.Prp.Effects.{note_drop-Alike, write_counted-Alike}
use prp_sim.Prp.Ring.{
  deliver_hsr, deliver_coupled, deliver_san, coupling_to_prp, forward_ring, forward_quad,
  other_port, is_lan_a,
}

-- A node with a given duplicate table.
pub data HasTable (t : Table) (n : Node) : Type 0 where
  has_table : n.dup_table ≡ t → HasTable t n

pub data HasTableIf (t : Table) : Outcome Node → Type 0 where
  returned : {n : Node} → HasTable t n → HasTableIf t (done n)
  crashed : HasTableIf t panics

module _ (t : Table) where
  kept : (n m : Node) → m.dup_table ≡ n.dup_table → HasTable t n → HasTable t m
  kept n m e (has_table h) = has_table (e ∙ h)

  if-HasTable :
      (b : Bool) (x y : Node) → HasTable t x → HasTable t y → HasTable t (if b then x else y)
  if-HasTable true x y hx hy = hx
  if-HasTable false x y hx hy = hy

  if-HasTableIf :
      (b : Bool) (x y : Outcome Node)
      → HasTableIf t x
      → HasTableIf t y
      → HasTableIf t (if b then x else y)
  if-HasTableIf true x y hx hy = hx
  if-HasTableIf false x y hx hy = hy

  note_drop-HasTable : (reason : Text) (n : Node) → HasTable t n → HasTable t (note_drop reason n)
  note_drop-HasTable reason n h =
      kept n _ (ap (λ (m : Node). m.dup_table) (note_drop-Alike reason n)) h

  write_counted-HasTable :
      (env : Env) (port : Port) (frame : Bytes) (n : Node)
      → HasTable t n
      → HasTable t (write_counted env port frame n)
  write_counted-HasTable env port frame n h =
      kept n _ (ap (λ (m : Node). m.dup_table) (write_counted-Alike env port frame n)) h

  write_interlink-HasTableIf :
      (env : Env) (frame : Bytes) (n : Node)
      → HasTable t n
      → HasTableIf t (write_interlink env frame n)
  unfolding write_interlink
  write_interlink-HasTableIf env frame n h =
      if-HasTableIf n.has_interlink _ _ (returned (write_counted-HasTable env interlink frame n h))
        crashed

  ruleset table_kept = (
    if-HasTable, if-HasTableIf, returned, crashed, note_drop-HasTable, write_counted-HasTable,
    write_interlink-HasTableIf,
  )

  pub forward_ring-HasTable :
      (env : Env) (port : Port) (frame : Bytes) (n : Node)
      → HasTable t n
      → HasTable t (forward_ring env port frame n)
  unfolding forward_ring
  forward_ring-HasTable env port frame n h =
      elim (Option-cases (rewrite_hsr_path_lane frame (is_lan_a (other_port port)))) [
        | inl refused ↦ rw (refused, forward_ring) h
        | inr (fwd, at) ↦ rw (at, forward_ring) (search table_kept)
      ]

  pub forward_quad-HasTable :
      (env : Env) (frame : Bytes) (n : Node) → HasTable t n → HasTable t (forward_quad env frame n)
  unfolding forward_quad
  forward_quad-HasTable env frame n h = search table_kept depth 8

  deliver_coupled-HasTableIf :
      (env : Env) (frame : Bytes) (tag : Tag) (n : Node)
      → HasTable t n
      → HasTableIf t (deliver_coupled env frame tag n)
  unfolding deliver_coupled coupling_to_prp
  deliver_coupled-HasTableIf env frame tag n h = elim (Option-cases (strip_hsr frame)) [
    | inl refused ↦ rw refused (search table_kept depth 8)
    | inr (original, at) ↦ rw at (search table_kept depth 8)
  ]

  deliver_san-HasTableIf :
      (env : Env) (frame : Bytes) (tag : Tag) (n : Node)
      → HasTable t n
      → HasTableIf t (deliver_san env frame tag n)
  unfolding deliver_san
  deliver_san-HasTableIf env frame tag n h = elim (Option-cases (strip_hsr frame)) [
    | inl refused ↦ rw refused (search table_kept depth 8)
    | inr (original, at) ↦ rw at (search table_kept depth 8)
  ]

  pub deliver_hsr-HasTableIf :
      (env : Env) (frame : Bytes) (tag : Tag) (n : Node)
      → HasTable t n
      → HasTableIf t (deliver_hsr env frame tag n)
  unfolding deliver_hsr
  deliver_hsr-HasTableIf env frame tag n h =
      search (table_kept, deliver_coupled-HasTableIf, deliver_san-HasTableIf) depth 8

-- ===== src/Examples/Tables.antt =====
-- The duplicate table's properties at concrete tables.
use prp_sim.Base.{◌≡◌, inl, true, arith, Text, codes}
use prp_sim.Nodetable.{Entries, Table, new_table, insert_with_expiry, find, cleanup}
use prp_sim.Nodetable.Keys.{HasNoBar}
use prp_sim.Nodetable.Size.{IsValid, new_table-IsValid, insert_with_expiry-IsValid}
use prp_sim.Nodetable.Lookup.{find-insert_with_expiry, find-cleanup}
use prp_sim.Examples.Data.{at, at-IsOrder}

abbrev a_mac : Text
a_mac = codes "00:aa"

abbrev b_mac : Text
b_mac = codes "00:bb"

a_mac-ok : HasNoBar a_mac
a_mac-ok = omega arith

b_mac-ok : HasNoBar b_mac
b_mac-ok = omega arith

abbrev order : Entries → Entries
order = (at 0).order

-- A table of two places with one entry.
abbrev one : Table
one = insert_with_expiry order 10 (new_table 2) a_mac 5 0 640

one-IsValid : IsValid one
one-IsValid =
    insert_with_expiry-IsValid order 10 (new_table 2) a_mac 5 0 640 (at-IsOrder 0) a_mac-ok
      (new_table-IsValid 2)

find-insert_with_expiry_example :
    find 11 (insert_with_expiry order 10 (new_table 2) a_mac 5 0 640) a_mac 5 ≡ true
unfolding new_table
find-insert_with_expiry_example =
    find-insert_with_expiry order 10 (new_table 2) a_mac 5 0 640 (at-IsOrder 0) a_mac-ok
      (new_table-IsValid 2) 11 (inl (omega arith)) (omega arith)

find-cleanup_example : find 12 (cleanup 11 one).0 a_mac 5 ≡ find 12 one a_mac 5
find-cleanup_example = find-cleanup 11 12 one a_mac 5 one-IsValid (omega arith)

-- ===== src/Tui/Screen.antt =====
-- internal/tui/prpd.go: the daemon's screen. A text is the list of its runes; text that is not UTF-8
-- is left out.
pub mod Columns
use prp_sim.Base.{
  ℕ, ◌+◌, ◌-◌, Bool, true, false, List, [], ◌∷◌, ◌++◌, ltb, leb, if◌then◌else◌, length, take, Text,
  codes, text_eq,
}
use prp_sim.Nodetable.{decimal}

pub record PrpdStats : Type 0 where
  pub role : Text
  pub name : Text
  pub prp_id : ℕ
  pub net_id : ℕ
  pub lan_id : Text
  pub lan_a_in : ℕ
  pub lan_a_out : ℕ
  pub lan_b_in : ℕ
  pub lan_b_out : ℕ
  pub inter_in : ℕ
  pub inter_out : ℕ
  pub sup_sent : ℕ
  pub dup_table_size : ℕ

pub record PrpdSettings : Type 0 where
  pub interfaces : Text
  pub trailer_enabled : Bool
  pub supervision : Text
  pub node_forget : Text
  pub proxy_forget : Text
  pub entry_forget : Text
  pub forward_all : Bool
  pub vlan_filter : Text
  pub multicast : Text
  pub debug_frames : Bool

abbrev pub bool_text : Bool → Text
bool_text true = codes "true"
bool_text false = codes "false"

-- The bytes of a rune.
unfoldable pub rune_len : ℕ → ℕ
rune_len c = if ltb c 0x80 then 1 else if ltb c 0x800 then 2 else if ltb c 0x10000 then 3 else 4

unfoldable pub byte_len : Text → ℕ
byte_len [] = 0
byte_len (c ∷ s) = rune_len c + byte_len s

unfoldable pub truncate : Text → ℕ → Text
unfolding byte_len
truncate s n =
    if leb (byte_len s) n then s else if leb (length s) n then s else take (n - 3) s ++ codes "..."

unfoldable pub header_line : Text → Text → PrpdStats → Text
header_line version uptime st =
    let role =
      if text_eq st.role (codes "hsr-prp")
      then st.role ++ (codes " N" ++ (decimal st.net_id ++ (codes " L" ++ st.lan_id)))
      else st.role in
    version
    ++ (codes " "
        ++ (st.name
            ++ (codes " "
                ++ (role ++ (codes " prp=" ++ (decimal st.prp_id ++ (codes " up=" ++ uptime)))))))

unfoldable pub stats_line : PrpdStats → Text
stats_line st =
    codes "A in="
    ++ (decimal st.lan_a_in
        ++ (codes " out="
            ++ (decimal st.lan_a_out
                ++ (codes " | B in="
                    ++ (decimal st.lan_b_in
                        ++ (codes " out="
                            ++ (decimal st.lan_b_out
                                ++ (codes " | I in="
                                    ++ (decimal st.inter_in
                                        ++ (codes " out="
                                            ++ (decimal st.inter_out
                                                ++ (codes " | sup="
                                                    ++ (decimal st.sup_sent
                                                        ++ (codes " nt="
                                                            ++ decimal
                                                            st.dup_table_size))))))))))))))

unfoldable pub settings_line : PrpdSettings → Text
settings_line set =
    set.interfaces
    ++ (codes " trailer="
        ++ (bool_text set.trailer_enabled
            ++ (codes " fwd="
                ++ (bool_text set.forward_all
                    ++ (codes " sup="
                        ++ (set.supervision
                            ++ (codes " nf="
                                ++ (set.node_forget
                                    ++ (codes " pf="
                                        ++ (set.proxy_forget
                                            ++ (codes " ef="
                                                ++ (set.entry_forget
                                                    ++ (codes " vlan="
                                                        ++ (set.vlan_filter
                                                            ++ (codes " mcast="
                                                            ++ (set.multicast
                                                            ++ (codes " dbg="
                                                            ++ bool_text
                                                            set.debug_frames)))))))))))))))))

unfoldable pub log_rows : List Text → List Text
unfolding truncate
log_rows [] = []
log_rows (l ∷ logs) = (codes "  " ++ truncate l 76) ∷ log_rows logs

-- The rows of a frame, from the top. `drops` is the text of the drop counters, which the package makes
-- with the same code as the daemon.
unfoldable pub rows : Text → Text → PrpdStats → PrpdSettings → Text → List Text → List Text
unfolding header_line stats_line settings_line log_rows
rows version uptime st set drops logs =
    header_line version uptime st
    ∷ stats_line st
    ∷ settings_line set
    ∷ (codes "drops: " ++ drops)
    ∷ log_rows logs

unfoldable pub end_lines : List Text → Text
end_lines [] = []
end_lines (l ∷ ls) = l ++ (13 ∷ 10 ∷ end_lines ls)

-- The screen is cleared, drawn, and cleared below.
unfoldable pub draw : Text → Text → PrpdStats → PrpdSettings → Text → List Text → Text
unfolding rows end_lines
draw version uptime st set drops logs =
    (27 ∷ codes "[2J")
    ++ ((27 ∷ codes "[H")
        ++ (end_lines (rows version uptime st set drops logs)
            ++ ((27 ∷ codes "[0J") ++ (13 ∷ 10 ∷ 27 ∷ codes "[?25h"))))

-- ===== src/Daemon/Descriptors.antt =====
-- cmd/prpd/main.go: the descriptors of the daemon.
use prp_sim.Base.{ℕ, ◌+◌, ◌≡◌, ap, ◌∙◌, Bool, Option, none, some, [], arith, Text}
use prp_sim.Conf.Load.{Settings}
use prp_sim.Iface.{Kernel, Process, Call, set_interface_up, set_interface_ip}
use prp_sim.Iface.Balance.{count, held_by, IsBalanced, balanced}
use prp_sim.Iface.Sockets.{set_interface_up-IsBalanced, set_interface_ip-IsBalanced}
use prp_sim.Prp.Ports.{start_ports}
use prp_sim.Prp.Ports.Leaks.{fds_of, stopped_twice, start_ports_lem}
use prp_sim.Daemon.{apply_static_ip, apply_static_ips, interfaces_of}

-- A call whose result holds nothing.
count-balanced :
    (m : Call (Unit {0})) (p : Process) (fd : ℕ)
    → IsBalanced [] (λ u. []) m
    → count fd (m p).1.open_fds ≡ count fd p.open_fds
unfolding count
count-balanced m p fd (balanced h) = go (m p) (h p (λ x. omega arith) fd)
  where
    go :
        (r : Option (Unit {0}) × Process)
        → count fd r.1.open_fds + 0 ≡ count fd p.open_fds + count fd (held_by (λ u. []) r.0)
        → count fd r.1.open_fds ≡ count fd p.open_fds
    go (none, q) e = omega arith
    go (some u, q) e = omega arith

count-apply_static_ip :
    (k : Kernel) (name cidr : Text) (is_ip4 : Option Bool) (p : Process) (fd : ℕ)
    → count fd (apply_static_ip k name cidr is_ip4 p).open_fds ≡ count fd p.open_fds
unfolding apply_static_ip
count-apply_static_ip k name cidr is_ip4 p fd = ground (
  arith,
  count-balanced (set_interface_ip k is_ip4) (set_interface_up k p).1 fd
      (set_interface_ip-IsBalanced k is_ip4),
  count-balanced (set_interface_up k) p fd (set_interface_up-IsBalanced k),
)

count-apply_static_ips :
    (k : Kernel) (parse_cidr : Text → Option Bool) (c : Settings) (p : Process) (fd : ℕ)
    → count fd (apply_static_ips k parse_cidr c p).open_fds ≡ count fd p.open_fds
unfolding apply_static_ips
count-apply_static_ips k parse_cidr c p fd =
    count-apply_static_ip k c.interlink c.interlink_ip (parse_cidr c.interlink_ip) _ fd
    ∙ count-apply_static_ip k c.lan_b c.lan_b_ip (parse_cidr c.lan_b_ip) _ fd
    ∙ count-apply_static_ip k c.lan_a c.lan_a_ip (parse_cidr c.lan_a_ip) p fd

-- Whatever the kernel answers to the calls of a daemon that sets its addresses and starts its
-- node: while the node runs, the descriptors of its ports are open and no other new one, none at
-- all after a failed start, and once a node that was started is stopped, even twice, as many are
-- open as before.
pub descriptors_lem :
    (k : Kernel) (parse_cidr : Text → Option Bool) (c : Settings) (p : Process) (fd : ℕ)
    → let r = start_ports k (interfaces_of c) (apply_static_ips k parse_cidr c p) in
      (count fd r.1.open_fds ≡ count fd p.open_fds + count fd (held_by fds_of r.0))
      × (count fd (stopped_twice r).open_fds ≡ count fd p.open_fds)
descriptors_lem k parse_cidr c p fd =
    let q = apply_static_ips k parse_cidr c p in
    let same = count-apply_static_ips k parse_cidr c p fd in
    let (running, stopped) = start_ports_lem k (interfaces_of c) q fd in
    (
      running ∙ ap (λ n. n + count fd (held_by fds_of (start_ports k (interfaces_of c) q).0)) same,
      stopped ∙ same,
    )

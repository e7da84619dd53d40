-- ===== src/Prp/Ports/Leaks.antt =====
-- What Start and Stop leave open.
use prp_sim.Base.{ℕ, ◌+◌, ◌≡◌, false, Option, none, some, List, [], ◌∷◌, ◌++◌, arith, Text}
use prp_sim.Iface.{Kernel, Process, on_error, RawSocket, set_mtu}
use prp_sim.Iface.Balance.{
  count, count-append, Owns, held_by, IsBalanced, balanced, IsFreeing, freeing, close-IsFreeing,
  return-IsBalanced, >>=-IsBalanced, on_error-IsBalanced,
}
use prp_sim.Iface.Sockets.{create_raw_socket-IsBalanced, set_mtu-IsBalanced}
use prp_sim.Prp.Ports.{
  Interfaces, Bound, close_port, close_ports, bind_interlink, start_ports, stop,
}

abbrev pub port_fds : Option RawSocket → List ℕ
port_fds none = []
port_fds (some s) = s.fd ∷ []

abbrev pub fds_of : Bound → List ℕ
fds_of b = port_fds b.lan_a ++ (port_fds b.lan_b ++ port_fds b.interlink)

close_port-IsFreeing : (s : Option RawSocket) → IsFreeing (port_fds s) (close_port s)
unfolding count
close_port-IsFreeing none = freeing (λ p owns fd. omega arith)
close_port-IsFreeing (some s) = close-IsFreeing s.fd

then-IsFreeing :
    {xs ys : List ℕ} {c d : Process → Process}
    → IsFreeing xs c
    → IsFreeing ys d
    → IsFreeing (xs ++ ys) (λ p. d (c p))
then-IsFreeing {xs} {ys} {c} {d} (freeing f) (freeing g) = freeing (λ p owns fd.
    let front : Owns xs p = λ x. omega (arith, owns x, count-append x xs ys) in
    let back : Owns ys (c p) = λ x. omega (arith, owns x, f p front x, count-append x xs ys) in
    omega (arith, f p front fd, g (c p) back fd, count-append fd xs ys))

close_ports-IsFreeing : (b : Bound) → IsFreeing (fds_of b) (close_ports b)
unfolding close_ports
close_ports-IsFreeing b =
    then-IsFreeing (close_port-IsFreeing b.lan_a)
      (then-IsFreeing (close_port-IsFreeing b.lan_b) (close_port-IsFreeing b.interlink))

bind_interlink-IsBalanced :
    (k : Kernel) (name : Text) (a b : RawSocket)
    → IsBalanced (a.fd ∷ b.fd ∷ []) fds_of (bind_interlink k name a b)
bind_interlink-IsBalanced k [] a b =
    return-IsBalanced fds_of (record { lan_a = some a; lan_b = some b; interlink = none })
bind_interlink-IsBalanced k (c ∷ name) a b =
    >>=-IsBalanced
      (on_error-IsBalanced
        (close_ports-IsFreeing (record { lan_a = some a; lan_b = some b; interlink = none }))
        (create_raw_socket-IsBalanced k (c ∷ name)))
      (λ i.
        >>=-IsBalanced
          (on_error-IsBalanced
            (close_ports-IsFreeing (record { lan_a = some a; lan_b = some b; interlink = some i }))
            (set_mtu-IsBalanced k))
          (λ done.
            return-IsBalanced fds_of
              (record { lan_a = some a; lan_b = some b; interlink = some i })))

start_ports-IsBalanced :
    (k : Kernel) (names : Interfaces) → IsBalanced [] fds_of (start_ports k names)
unfolding start_ports
start_ports-IsBalanced k names = >>=-IsBalanced (create_raw_socket-IsBalanced k names.lan_a) (λ a.
    >>=-IsBalanced (raise a) (λ done. >>=-IsBalanced (raise a) (λ done.
      >>=-IsBalanced
        (on_error-IsBalanced
          (close_ports-IsFreeing (record { lan_a = some a; lan_b = none; interlink = none }))
          (create_raw_socket-IsBalanced k names.lan_b))
        (λ b. bind_interlink-IsBalanced k names.interlink a b))))
  where
    raise :
        (a : RawSocket)
        → IsBalanced
            (a.fd ∷ [])
            (λ done. a.fd ∷ [])
            (on_error
              (close_ports (record { lan_a = some a; lan_b = none; interlink = none }))
              (set_mtu k))
    raise a =
        on_error-IsBalanced
          (close_ports-IsFreeing (record { lan_a = some a; lan_b = none; interlink = none }))
          (set_mtu-IsBalanced k)

-- A node that was started is stopped, twice. One that was not, is not.
abbrev pub stopped_twice : Option Bound × Process → Process
stopped_twice (none, p) = p
stopped_twice (some b, p) = (stop b (stop b (false, p))).1

-- What a start leaves open, and a stop after it.
pub start_ports_lem :
    (k : Kernel) (names : Interfaces) (p : Process) (fd : ℕ)
    → let r = start_ports k names p in
      (count fd r.1.open_fds ≡ count fd p.open_fds + count fd (held_by fds_of r.0))
      × (count fd (stopped_twice r).open_fds ≡ count fd p.open_fds)
unfolding count
start_ports_lem k names p fd = elim (start_ports-IsBalanced k names) [
  | balanced h ↦
      let e : (x : ℕ)
          → count x (start_ports k names p).1.open_fds + 0
            ≡ count x p.open_fds + count x (held_by fds_of (start_ports k names p).0) =
        h p (λ x. omega arith) in
      go (start_ports k names p) e
]
  where
    go :
        (r : Option Bound × Process)
        → ((x : ℕ) → count x r.1.open_fds + 0 ≡ count x p.open_fds + count x (held_by fds_of r.0))
        → (count fd r.1.open_fds ≡ count fd p.open_fds + count fd (held_by fds_of r.0))
          × (count fd (stopped_twice r).open_fds ≡ count fd p.open_fds)
    go (none, q) e = (omega (arith, e fd), omega (arith, e fd))
    go (some b, q) e = elim (close_ports-IsFreeing b) [
      | freeing f ↦ (
        omega (arith, e fd),
        unfold stop in omega (arith, e fd, f q (λ x. omega (arith, e x)) fd),
      )
    ]

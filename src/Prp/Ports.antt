-- ===== src/Prp/Ports.antt =====
-- internal/prp/prp.go: the ports that Start binds and Stop closes.
pub mod Leaks
use prp_sim.Base.{Bool, true, false, Option, none, some, [], ◌∷◌, Text}
use prp_sim.Iface.{
  Kernel, Process, close, Call, return, ◌>>=◌, ◌>>◌, on_error, RawSocket, create_raw_socket,
  set_mtu,
}

pub record Interfaces : Type 0 where
  pub lan_a : Text
  pub lan_b : Text
  pub interlink : Text

-- The ports of a node, `none` where one is nil.
pub record Bound : Type 0 where
  pub lan_a : Option RawSocket
  pub lan_b : Option RawSocket
  pub interlink : Option RawSocket

abbrev pub close_port : Option RawSocket → Process → Process
close_port none p = p
close_port (some s) p = close s.fd p

unfoldable pub close_ports : Bound → Process → Process
close_ports b p = close_port b.interlink (close_port b.lan_b (close_port b.lan_a p))

abbrev pub bind_interlink : Kernel → Text → RawSocket → RawSocket → Call Bound
bind_interlink k [] a b = return (record { lan_a = some a; lan_b = some b; interlink = none })
bind_interlink k (c ∷ name) a b = do
  i ←
      on_error (close_ports (record { lan_a = some a; lan_b = some b; interlink = none }))
        (create_raw_socket k (c ∷ name))
  on_error (close_ports (record { lan_a = some a; lan_b = some b; interlink = some i })) (set_mtu k)
  return (record { lan_a = some a; lan_b = some b; interlink = some i })

-- The ports that Start binds. After an error they are closed; the daemon ends then.
unfoldable pub start_ports : Kernel → Interfaces → Call Bound
start_ports k names = do
  a ← create_raw_socket k names.lan_a
  on_error (close_ports (record { lan_a = some a; lan_b = none; interlink = none })) (set_mtu k)
  on_error (close_ports (record { lan_a = some a; lan_b = none; interlink = none })) (set_mtu k)
  b ←
      on_error (close_ports (record { lan_a = some a; lan_b = none; interlink = none }))
        (create_raw_socket k names.lan_b)
  bind_interlink k names.interlink a b

-- Stop. The flag is whether the stop channel was closed before.
unfoldable pub stop : Bound → Bool × Process → Bool × Process
unfolding close_ports
stop b (true, p) = (true, p)
stop b (false, p) = (true, close_ports b p)

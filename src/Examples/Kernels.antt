-- ===== src/Examples/Kernels.antt =====
-- The sockets' properties at a concrete kernel.
use prp_sim.Base.{
  ◌+◌, ◌≡◌, refl, false, not, Option, some, [], ◌∷◌, ◌++◌, arith, ◌==◌, replicate, put_u16,
}
use prp_sim.Iface.{Kernel, Process}
use prp_sim.Iface.Balance.{count, held_by}
use prp_sim.Iface.Receive.{ControlMessage, read}
use prp_sim.Iface.Receive.Offload.{auxdata, read-offloaded}
use prp_sim.Prp.Ports.{Bound, start_ports}
use prp_sim.Prp.Ports.Leaks.{fds_of, stopped_twice}
use prp_sim.Daemon.{apply_static_ips, interfaces_of}
use prp_sim.Daemon.Descriptors.{descriptors_lem}
use prp_sim.Examples.Data.{addresses, san_payload}
use prp_sim.Examples.Configs.{loaded, host}

-- A kernel that takes all but the call on the interlink's MTU.
abbrev kernel : Kernel
kernel = record {
  interface = λ call name. some (2, 1500);
  socket = λ call. some (3 + call);
  takes = λ call. not (call == 32);
}

abbrev before : Process
before = record { calls = 0; open_fds = 0 ∷ 1 ∷ 2 ∷ [] }

abbrev started_daemon : Option Bound × Process
started_daemon =
    start_ports kernel (interfaces_of loaded)
      (apply_static_ips kernel host.parse_cidr loaded before)

descriptors_lem_example :
    (count 5 started_daemon.1.open_fds
      ≡ count 5 before.open_fds + count 5 (held_by fds_of started_daemon.0))
    × (count 5 (stopped_twice started_daemon).open_fds ≡ count 5 before.open_fds)
descriptors_lem_example = descriptors_lem kernel host.parse_cidr loaded before 5

abbrev stamp : ControlMessage
stamp = record { is_auxdata = false; payload = replicate 16 1 }

read-offloaded_example :
    read 2048
      (addresses ++ san_payload)
      ((stamp ∷ []) ++ (auxdata 0x31 (replicate 15 0) 0x8000 0x8100 ∷ []))
    ≡ addresses ++ (put_u16 0x8100 ++ (put_u16 0x8000 ++ san_payload))
read-offloaded_example =
    read-offloaded addresses san_payload 0x8100 0x8000 2048 0x31 (replicate 15 0) (stamp ∷ []) []
      refl (omega arith) (omega arith) (omega arith) (omega arith) refl refl (refl, tt)

-- ===== src/Iface.antt =====
-- internal/iface/iface.go: raw sockets and interfaces, by the calls of the kernel that they make and
-- the descriptors that these leave open.
pub mod Balance
pub mod Sockets
pub mod Receive
use prp_sim.Base.{
  ℕ, ◌+◌, Bool, true, false, Option, none, some, List, [], ◌∷◌, ◌==◌, if◌then◌else◌, Text,
}

-- What the kernel answers to each call of the process, by the number of the call: net.InterfaceByName
-- with an index and an MTU, `socket` with a descriptor, every other call with whether it took it.
pub record Kernel : Type 0 where
  pub interface : ℕ → Text → Option (ℕ × ℕ)
  pub socket : ℕ → Option ℕ
  pub takes : ℕ → Bool

-- The calls so far, and the descriptors that are open.
pub record Process : Type 0 where
  pub calls : ℕ
  pub open_fds : List ℕ

unfoldable pub remove_one : ℕ → List ℕ → List ℕ
remove_one fd [] = []
remove_one fd (x ∷ xs) = if x == fd then xs else x ∷ remove_one fd xs

-- `unix.Close(fd)`
unfoldable pub close : ℕ → Process → Process
unfolding remove_one
close fd p = record p { open_fds = remove_one fd p.open_fds }

-- A piece of code that calls the kernel. `none` is an error.
abbrev pub Call : Type 0 → Type 0
Call A = Process → Option A × Process

abbrev pub return : {A : Type 0} → A → Call A
return a p = (some a, p)

abbrev pub continue : {A B : Type 0} → (A → Call B) → Option A × Process → Option B × Process
continue f (none, p) = (none, p)
continue f (some a, p) = f a p

infixl 5 ◌>>=◌ ◌>>◌
abbrev pub ◌>>=◌ : {A B : Type 0} → Call A → (A → Call B) → Call B
(m >>= f) p = continue f (m p)

abbrev pub ◌>>◌ : {A B : Type 0} → Call A → Call B → Call B
m >> after = m >>= λ done. after

abbrev pub undo : {A : Type 0} → (Process → Process) → Option A × Process → Option A × Process
undo cleanup (none, p) = (none, cleanup p)
undo cleanup (some a, p) = (some a, p)

-- `if err != nil { cleanup; return }`
abbrev pub on_error : {A : Type 0} → (Process → Process) → Call A → Call A
on_error cleanup m p = undo cleanup (m p)

-- `defer cleanup`
abbrev pub at_end : {A : Type 0} → (Process → Process) → Call A → Call A
at_end cleanup m p = ((m p).0, cleanup (m p).1)

-- The error is logged.
abbrev pub ignore : {A : Type 0} → Call A → Call (Unit {0})
ignore m p = (some tt, (m p).1)

abbrev pub open_fd : Option ℕ → List ℕ → List ℕ
open_fd none fds = fds
open_fd (some fd) fds = fd ∷ fds

unfoldable pub socket : Kernel → Call ℕ
socket k p =
    let answer = k.socket p.calls in
    (answer, record { calls = p.calls + 1; open_fds = open_fd answer p.open_fds })

unfoldable pub ask : Kernel → Call (Unit {0})
ask k p = (if k.takes p.calls then some tt else none, record p { calls = p.calls + 1 })

unfoldable pub find_interface : Kernel → Text → Call (ℕ × ℕ)
find_interface k name p = (k.interface p.calls name, record p { calls = p.calls + 1 })

unfoldable pub get_interface_index : Kernel → Text → Call ℕ
get_interface_index k name = do found ← find_interface k name; return found.0

unfoldable pub get_interface_mtu : Kernel → Text → Call ℕ
get_interface_mtu k name = do found ← find_interface k name; return found.1

pub record RawSocket : Type 0 where
  pub name : Text
  pub if_index : ℕ
  pub fd : ℕ
  pub mtu : ℕ

-- The size of the receive buffer is asked for too, whatever the kernel says to it.
unfoldable pub create_raw_socket : Kernel → Text → Call RawSocket
create_raw_socket k name = do
  index ← get_interface_index k name
  mtu ← get_interface_mtu k name
  fd ← socket k
  on_error (close fd) (ask k)
  ignore (ask k)
  on_error (close fd) (ask k)
  on_error (close fd) (ask k)
  return (record { name = name; if_index = index; fd = fd; mtu = mtu })

unfoldable pub ioctl_socket : Kernel → Call ℕ
ioctl_socket k = socket k

unfoldable pub set_mtu : Kernel → Call (Unit {0})
set_mtu k = do fd ← ioctl_socket k; at_end (close fd) (ask k)

-- The name is put into a request, which refuses a long one; the flags are read, then written.
unfoldable pub set_interface_up : Kernel → Call (Unit {0})
set_interface_up k = do fd ← ioctl_socket k; at_end (close fd) (do ask k; ask k; ask k)

-- `ip addr add`, whose process is not this one.
unfoldable pub set_ip_with_cmd : Kernel → Call (Unit {0})
set_ip_with_cmd k = ask k

abbrev pub apply_netmask : Kernel → Option (Unit {0}) × Process → Option (Unit {0}) × Process
apply_netmask k (none, p) = set_ip_with_cmd k p
apply_netmask k (some done, p) = ask k p

-- The address, then the netmask. Where the kernel does not take the address, ip(8) sets both.
unfoldable pub set_addresses : Kernel → Call (Unit {0})
set_addresses k p = apply_netmask k (ask k p)

-- `is_ip4` is what net.ParseCIDR and To4 make of the text, `none` an error.
unfoldable pub set_interface_ip : Kernel → Option Bool → Call (Unit {0})
set_interface_ip k none p = (none, p)
set_interface_ip k (some false) p = (none, p)
set_interface_ip k (some true) p = (do fd ← ioctl_socket k; at_end (close fd) (set_addresses k)) p

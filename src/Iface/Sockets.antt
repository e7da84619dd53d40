-- ===== src/Iface/Sockets.antt =====
-- internal/iface/iface.go: what is open after a call.
use prp_sim.Base.{
  ℕ, ◌+◌, ◌≡◌, refl, Bool, true, false, Option, none, some, [], ◌∷◌, arith, if◌then◌else◌, Text,
}
use prp_sim.Iface.{
  Kernel, Process, close, return, ◌>>=◌, on_error, open_fd, socket, ask, find_interface,
  get_interface_index, get_interface_mtu, create_raw_socket, ioctl_socket, set_mtu,
  set_interface_up, set_ip_with_cmd, apply_netmask, set_addresses, set_interface_ip,
}
use prp_sim.Iface.Balance.{
  count, held_by, IsBalanced, balanced, close-IsFreeing, return-IsBalanced, >>=-IsBalanced,
  on_error-IsBalanced, at_end-IsBalanced, still-IsBalanced, ignore-IsBalanced,
}

ask-IsBalanced : (k : Kernel) → IsBalanced [] (λ done. []) (ask k)
unfolding ask
ask-IsBalanced k = still-IsBalanced (λ p. ask k p) (λ p. refl)

socket-IsBalanced : (k : Kernel) → IsBalanced [] (λ fd. fd ∷ []) (socket k)
unfolding socket count
socket-IsBalanced k = balanced (λ p owns fd. go p (k.socket p.calls) fd)
  where
    go :
        (p : Process) (answer : Option ℕ) (fd : ℕ)
        → count fd (open_fd answer p.open_fds) + 0
          ≡ count fd p.open_fds + count fd (held_by (λ x. x ∷ []) answer)
    go p none fd = omega arith
    go p (some x) fd = omega arith

find_interface-IsBalanced :
    (k : Kernel) (name : Text) → IsBalanced [] (λ a. []) (find_interface k name)
unfolding find_interface
find_interface-IsBalanced k name = still-IsBalanced (λ p. find_interface k name p) (λ p. refl)

pub create_raw_socket-IsBalanced :
    (k : Kernel) (name : Text) → IsBalanced [] (λ s. s.fd ∷ []) (create_raw_socket k name)
unfolding create_raw_socket get_interface_index get_interface_mtu
create_raw_socket-IsBalanced k name = >>=-IsBalanced (found (λ x. x.0)) (λ index.
    >>=-IsBalanced (found (λ x. x.1)) (λ mtu. >>=-IsBalanced (socket-IsBalanced k) (λ fd.
      >>=-IsBalanced (guarded fd) (λ bound.
        >>=-IsBalanced (ignore-IsBalanced (fd ∷ []) (ask k) (ask-IsBalanced k)) (λ sized.
          >>=-IsBalanced (guarded fd) (λ quiet. >>=-IsBalanced (guarded fd) (λ tagged.
            return-IsBalanced (λ s. s.fd ∷ [])
              (record { name = name; if_index = index; fd = fd; mtu = mtu }))))))))
  where
    found : (f : ℕ × ℕ → ℕ) → IsBalanced [] (λ a. []) (find_interface k name >>= λ x. return (f x))
    found f =
        >>=-IsBalanced (find_interface-IsBalanced k name) (λ x. return-IsBalanced (λ a. []) (f x))

    guarded : (fd : ℕ) → IsBalanced (fd ∷ []) (λ done. fd ∷ []) (on_error (close fd) (ask k))
    guarded fd = on_error-IsBalanced (close-IsFreeing fd) (ask-IsBalanced k)

pub set_mtu-IsBalanced : (k : Kernel) → IsBalanced [] (λ done. []) (set_mtu k)
unfolding set_mtu ioctl_socket
set_mtu-IsBalanced k =
    >>=-IsBalanced (socket-IsBalanced k)
      (λ fd. at_end-IsBalanced (close-IsFreeing fd) (ask-IsBalanced k))

pub set_interface_up-IsBalanced : (k : Kernel) → IsBalanced [] (λ done. []) (set_interface_up k)
unfolding set_interface_up ioctl_socket
set_interface_up-IsBalanced k = >>=-IsBalanced (socket-IsBalanced k) (λ fd.
    at_end-IsBalanced (close-IsFreeing fd) (
      >>=-IsBalanced (ask-IsBalanced k)
        (λ done. >>=-IsBalanced (ask-IsBalanced k) (λ done. ask-IsBalanced k))))

set_addresses-still : (k : Kernel) (p : Process) → (set_addresses k p).1.open_fds ≡ p.open_fds
unfolding set_addresses set_ip_with_cmd ask
set_addresses-still k p = go (k.takes p.calls)
  where
    go :
        (b : Bool)
        → (apply_netmask k
            (if b then some tt else none, record p { calls = p.calls + 1 })).1.open_fds
          ≡ p.open_fds
    go true = refl
    go false = refl

pub set_interface_ip-IsBalanced :
    (k : Kernel) (is_ip4 : Option Bool) → IsBalanced [] (λ done. []) (set_interface_ip k is_ip4)
unfolding set_interface_ip ioctl_socket
set_interface_ip-IsBalanced k none = still-IsBalanced _ (λ p. refl)
set_interface_ip-IsBalanced k (some false) = still-IsBalanced _ (λ p. refl)
set_interface_ip-IsBalanced k (some true) = >>=-IsBalanced (socket-IsBalanced k) (λ fd.
    at_end-IsBalanced (close-IsFreeing fd)
      (still-IsBalanced (set_addresses k) (set_addresses-still k)))

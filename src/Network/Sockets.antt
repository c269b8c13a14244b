-- ===== src/Network/Sockets.antt =====
-- The C interface of kernel-rs/src/network.rs to the sockets: the calls on the stack, or -1 while there
-- is none. A descriptor answered is a word of 32 bits, and -1 is its last.
use shade_os.Base.{ℕ, ◌-◌, ◌^◌, Option, none, some, List, [], ℤ, pos, negsuc}
use shade_os.Network.{
  Smoltcp, NetworkStack, create_tcp_socket, tcp_bind, tcp_recv, close_socket, accept, poll_stack,
}

abbrev minus_one : ℕ
minus_one = 2 ^ 32 - 1

module _ {S : Type 0} (net : Smoltcp S) where
  abbrev Stack : Type 0
  Stack = Option (NetworkStack S)

  abbrev sock_socket : Stack → ℕ × Stack
  sock_socket none = (minus_one, none)
  sock_socket (some st) = let (fd, st') = create_tcp_socket net st in (fd, some st')

  abbrev sock_bind : ℕ → ℕ → Stack → ℤ × Stack
  sock_bind fd port none = (negsuc 0, none)
  sock_bind fd port (some st) = let (code, st') = tcp_bind net fd port st in (code, some st')

  abbrev sock_listen : Stack → ℤ
  sock_listen none = negsuc 0
  sock_listen (some st) = pos 0

  -- The descriptor, and the address and port stored.
  abbrev taken :
      ℕ → Option ℕ × Option (List ℕ × ℕ) × NetworkStack S → ℕ × Option (List ℕ × ℕ) × Stack
  taken fd (none, remote, st) = (minus_one, none, some st)
  taken fd (some fd', remote, st) = (fd', remote, some st)

  abbrev sock_accept : ℕ → Stack → ℕ × Option (List ℕ × ℕ) × Stack
  sock_accept fd none = (minus_one, none, none)
  sock_accept fd (some st) = taken fd (accept net fd st)

  abbrev sock_recv : ℕ → ℕ → Stack → ℤ × List ℕ × Stack
  sock_recv fd len none = (negsuc 0, [], none)
  sock_recv fd len (some st) =
      let (code, bytes, st') = tcp_recv net fd len st in (code, bytes, some st')

  abbrev sock_close : ℕ → Stack → ℤ × Stack
  sock_close fd none = (negsuc 0, none)
  sock_close fd (some st) = let (code, st') = close_socket net fd st in (code, some st')

  abbrev network_poll : (ℕ → ℕ) → Stack → Stack
  network_poll ticks none = none
  network_poll ticks (some st) = some (poll_stack net ticks st)

-- ===== src/Network.antt =====
-- The sockets of kernel-rs/src/network.rs: the table of descriptors, the loop that polls the network
-- interface, and the C interface of both.
-- The crate smoltcp is a parameter: its set of sockets with the interface is a state of any type, and
-- its functions are the fields of a record. Descriptors are i32, kept as words of 32 bits.
pub mod Table
pub mod Poll
mod Sockets
pub mod Reach
mod Tests
use shade_os.Base.{
  ℕ, zero, suc, ◌+◌, ◌*◌, ◌^◌, ◌%◌, Bool, true, false, not, ◌&&◌, ◌||◌, List, [], ◌∷◌, Option, none,
  some, ltb, leb, ◌==◌, if◌then◌else◌, length, ℤ, pos, negsuc,
}

-- What the code calls of smoltcp: `SocketSet::add` for a socket of each type, `remove`, and, for a
-- TCP socket, `listen`, `recv_slice`, `is_active` and `remote_endpoint`; and `Interface::poll`, with
-- the answer whether it did work.
pub record Smoltcp (S : Type 0) : Type 0 where
  pub add_tcp : S → ℕ × S
  pub add_udp : S → ℕ × S
  pub discard : ℕ → S → S
  pub listen : ℕ → ℕ → S → Bool × S
  pub recv_slice : ℕ → ℕ → S → Option (List ℕ) × S
  pub is_active : ℕ → S → Bool
  pub remote_endpoint : ℕ → S → Option (List ℕ × ℕ)
  pub poll : ℕ → S → Bool × S

pub data SocketType : Type 0 where
  tcp : SocketType
  udp : SocketType
  icmp : SocketType

pub data SocketState : Type 0 where
  closed : SocketState
  opened : SocketState
  listening : SocketState
  connected : SocketState

abbrev pub is_tcp : SocketType → Bool
is_tcp tcp = true
is_tcp _ = false

abbrev pub is_listening : SocketState → Bool
is_listening listening = true
is_listening _ = false

-- `listening_socket` is never anything but None.
pub record SocketEntry : Type 0 where
  pub socket_type : SocketType
  pub handle : ℕ
  pub state : SocketState

-- `BTreeMap<i32, SocketEntry>`, in no order.
abbrev pub SocketMap : Type 0
SocketMap = List (ℕ × SocketEntry)

unfoldable pub get : ℕ → SocketMap → Option SocketEntry
get fd [] = none
get fd ((k, e) ∷ m) = if k == fd then some e else get fd m

unfoldable pub insert : ℕ → SocketEntry → SocketMap → SocketMap
insert fd e [] = (fd, e) ∷ []
insert fd e ((k, f) ∷ m) = if k == fd then (k, e) ∷ m else (k, f) ∷ insert fd e m

unfoldable pub remove : ℕ → SocketMap → SocketMap
remove fd [] = []
remove fd ((k, e) ∷ m) = if k == fd then remove fd m else (k, e) ∷ remove fd m

-- `struct NetworkStack`, as far as sockets go.
pub record NetworkStack (S : Type 0) : Type 0 where
  pub sockets : S
  pub socket_map : SocketMap
  pub next_fd : ℕ

module _ {S : Type 0} (net : Smoltcp S) where
  -- The new stack: descriptors count from 1.
  abbrev pub new_stack : S → NetworkStack S
  new_stack s = record { sockets = s; socket_map = []; next_fd = 1 }

  abbrev pub register : SocketType → ℕ × S → NetworkStack S → ℕ × NetworkStack S
  register t (handle, s) st = (
    st.next_fd,
    record {
      sockets = s;
      socket_map =
          insert st.next_fd (record { socket_type = t; handle = handle; state = opened })
            st.socket_map;
      next_fd = (st.next_fd + 1) % 2 ^ 32;
    },
  )

  abbrev pub create_tcp_socket : NetworkStack S → ℕ × NetworkStack S
  create_tcp_socket st = register tcp (net.add_tcp st.sockets) st

  abbrev pub create_udp_socket : NetworkStack S → ℕ × NetworkStack S
  create_udp_socket st = register udp (net.add_udp st.sockets) st

  -- The state of the descriptor is changed if the socket listens.
  abbrev bound : ℕ → SocketEntry → Bool × S → NetworkStack S → ℤ × NetworkStack S
  bound fd e (ok, s) st =
      if ok
      then (
        pos 0,
        record st {
          sockets = s;
          socket_map = insert fd (record e { state = listening }) st.socket_map;
        },
      )
      else (negsuc 0, record st { sockets = s })

  unfoldable pub tcp_bind : ℕ → ℕ → NetworkStack S → ℤ × NetworkStack S
  tcp_bind fd port st = elim (get fd st.socket_map) [
    | none ↦ (negsuc 0, st)
    | some e ↦
        if not (is_tcp e.socket_type)
        then (negsuc 0, st)
        else bound fd e (net.listen e.handle port st.sockets) st
  ]

  abbrev received : Option (List ℕ) × S → NetworkStack S → ℤ × List ℕ × NetworkStack S
  received (none, s) st = (negsuc 0, [], record st { sockets = s })
  received (some bytes, s) st = (pos (length bytes), bytes, record st { sockets = s })

  -- The answer, and the bytes stored to the buffer of `len` bytes.
  unfoldable pub tcp_recv : ℕ → ℕ → NetworkStack S → ℤ × List ℕ × NetworkStack S
  tcp_recv fd len st = elim (get fd st.socket_map) [
    | none ↦ (negsuc 0, [], st)
    | some e ↦
        if not (is_tcp e.socket_type)
        then (negsuc 0, [], st)
        else received (net.recv_slice e.handle len st.sockets) st
  ]

  unfoldable pub close_socket : ℕ → NetworkStack S → ℤ × NetworkStack S
  close_socket fd st = elim (get fd st.socket_map) [
    | none ↦ (negsuc 0, st)
    | some e ↦ (
      pos 0,
      record st { sockets = net.discard e.handle st.sockets; socket_map = remove fd st.socket_map },
    )
  ]

  -- `sock_accept`: the descriptor itself becomes the connection. The address and the port are what is
  -- stored for the caller.
  unfoldable pub accept : ℕ → NetworkStack S → Option ℕ × Option (List ℕ × ℕ) × NetworkStack S
  accept fd st = elim (get fd st.socket_map) [
    | none ↦ (none, none, st)
    | some e ↦
        if not (is_listening e.state) || not (net.is_active e.handle st.sockets)
        then (none, none, st)
        else (
          some fd,
          net.remote_endpoint e.handle st.sockets,
          record st { socket_map = insert fd (record e { state = connected }) st.socket_map },
        )
  ]

  -- The loop of `poll`, for the rounds that are left and the idle rounds just before: the rounds made,
  -- as whether each did work, and the sockets. `ticks` gives the time of each round.
  unfoldable pub poll_loop : ℕ → ℕ → (ℕ → ℕ) → S → List Bool × S
  poll_loop zero idle ticks s = ([], s)
  poll_loop (suc n) idle ticks s =
      let (did_work, s') = net.poll (ticks n * 10) s in
      let (more, s'') = poll_loop n (if did_work then 0 else idle + 1) ticks s' in
      if not did_work && leb 3 (idle + 1) then (did_work ∷ [], s') else (did_work ∷ more, s'')

  abbrev pub max_poll_iterations : ℕ
  max_poll_iterations = 200

  abbrev pub poll_stack : (ℕ → ℕ) → NetworkStack S → NetworkStack S
  poll_stack ticks st = record st { sockets = (poll_loop max_poll_iterations 0 ticks st.sockets).1 }

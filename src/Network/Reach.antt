-- ===== src/Network/Reach.antt =====
-- The states of the network stack since it was set up, as far as the calls modelled reach.
use shade_os.Base.{
  ℕ, zero, suc, ◌+◌, ◌*◌, ◌^◌, ◌<◌, ◌≡◌, refl, ◌∙◌, Bool, none, not, ◌&&◌, leb, if◌then◌else◌,
  Bool-cases, inl, inr,
}
use shade_os.Network.{
  Smoltcp, tcp, udp, get, NetworkStack, new_stack, create_tcp_socket, create_udp_socket, tcp_bind,
  tcp_recv, close_socket, accept, poll_loop, poll_stack,
}
use shade_os.Network.Table.{
  Laws, IsStack, sockets-IsStack, register-IsStack, close_socket-IsStack, tcp_bind-IsStack,
  tcp_recv-IsStack, accept-IsStack,
}

module _ {S : Type 0} (net : Smoltcp S) (laws : Laws net) where
  poll_loop-live :
      (n idle : ℕ) (ticks : ℕ → ℕ) (s : S) (x : ℕ)
      → laws.live (poll_loop net n idle ticks s).1 x ≡ laws.live s x
  unfolding poll_loop
  poll_loop-live zero idle ticks s x = refl
  poll_loop-live (suc n) idle ticks s x =
      let r : Bool × S = net.poll (ticks n * 10) s in
      let one = laws.polled (ticks n * 10) s x in
      elim (Bool-cases (not r.0 && leb 3 (idle + 1))) [
        | inl stop ↦ rw (stop, poll_loop) one
        | inr more ↦
            rw (more, poll_loop) (poll_loop-live n (if r.0 then 0 else idle + 1) ticks r.1 x ∙ one)
      ]

  -- One call; descriptors are given out while they last.
  pub data Step : NetworkStack S → NetworkStack S → Type 0 where
    tcp_socket :
        {st : NetworkStack S} → st.next_fd + 1 < 2 ^ 32 → Step st (create_tcp_socket net st).1
    udp_socket :
        {st : NetworkStack S} → st.next_fd + 1 < 2 ^ 32 → Step st (create_udp_socket net st).1
    bind : {st : NetworkStack S} (fd port : ℕ) → Step st (tcp_bind net fd port st).1
    recv : {st : NetworkStack S} (fd len : ℕ) → Step st (tcp_recv net fd len st).2
    accepting : {st : NetworkStack S} (fd : ℕ) → Step st (accept net fd st).2
    close : {st : NetworkStack S} (fd : ℕ) → Step st (close_socket net fd st).1
    polling : {st : NetworkStack S} (ticks : ℕ → ℕ) → Step st (poll_stack net ticks st)

  pub data Reach (start : S) : NetworkStack S → Type 0 where
    here : Reach start (new_stack net start)
    next : {st st' : NetworkStack S} → Reach start st → Step st st' → Reach start st'

  Step-IsStack :
      {st st' : NetworkStack S} → Step st st' → IsStack net laws st → IsStack net laws st'
  Step-IsStack (tcp_socket {st} lt) v =
      register-IsStack net laws st tcp (net.add_tcp st.sockets) v lt (laws.tcp_fresh st.sockets)
        (laws.tcp_added st.sockets)
  Step-IsStack (udp_socket {st} lt) v =
      register-IsStack net laws st udp (net.add_udp st.sockets) v lt (laws.udp_fresh st.sockets)
        (laws.udp_added st.sockets)
  Step-IsStack (bind {st} fd port) v = tcp_bind-IsStack net laws st fd port v
  Step-IsStack (recv {st} fd len) v = tcp_recv-IsStack net laws st fd len v
  Step-IsStack (accepting {st} fd) v = accept-IsStack net laws st fd v
  Step-IsStack (close {st} fd) v = close_socket-IsStack net laws st fd v
  Step-IsStack (polling {st} ticks) v =
      sockets-IsStack net laws st (poll_loop net 200 0 ticks st.sockets).1 v
        (poll_loop-live 200 0 ticks st.sockets)

  get-new : (start : S) (fd : ℕ) → get fd (new_stack net start).socket_map ≡ none
  unfolding get
  get-new start fd = refl

  -- Whatever calls that make a TCP or UDP socket, bind, receive, accept and close, and polls follow
  -- the set-up, while descriptors last: every descriptor in the table has been given out, its socket
  -- is one that smoltcp has, and no two descriptors have the same socket. Connect, send and ping are
  -- not among the calls. smoltcp is taken to add sockets under handles not in use, and to end only
  -- those removed.
  pub Reach-IsStack : (start : S) {st : NetworkStack S} → Reach start st → IsStack net laws st
  Reach-IsStack start here = record {
    below = λ fd e h. absurd (cc (h, get-new start fd));
    alive = λ fd e h. absurd (cc (h, get-new start fd));
    apart = λ fd fd' e f h k ne. absurd (cc (h, get-new start fd));
  }
  Reach-IsStack start (next r s) = Step-IsStack s (Reach-IsStack start r)

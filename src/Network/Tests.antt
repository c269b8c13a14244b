-- ===== src/Network/Tests.antt =====
-- A small set of sockets, and the theorems at it.
use shade_os.Base.{
  ℕ, suc, ◌<◌, ◌≡◌, refl, Bool, true, false, none, some, List, [], ◌∷◌, arith, ltb, ◌==◌,
  if◌then◌else◌,
}
use shade_os.Network.{
  Smoltcp, NetworkStack, new_stack, create_tcp_socket, close_socket, poll_loop, max_poll_iterations,
}
use shade_os.Network.Table.{Laws, IsStack}
use shade_os.Network.Poll.{Ends, poll_loop-Ends}
use shade_os.Network.Reach.{here, next, tcp_socket, close, Reach-IsStack}

-- The handles in use.
abbrev has : List ℕ → ℕ → Bool
has [] x = false
has (h ∷ hs) x = if x == h then true else has hs x

abbrev top : List ℕ → ℕ
top [] = 0
top (h ∷ hs) = if ltb (top hs) h then h else top hs

abbrev without : ℕ → List ℕ → List ℕ
without h [] = []
without h (k ∷ ks) = if k == h then without h ks else k ∷ without h ks

has-above : (hs : List ℕ) (x : ℕ) → top hs < x → has hs x ≡ false
has-above [] x lt = refl
has-above (h ∷ hs) x lt = ground (arith, has-above hs x)

has-without :
    (h : ℕ) (hs : List ℕ) (x : ℕ) → has (without h hs) x ≡ (if x == h then false else has hs x)
has-without h [] x = ground arith
has-without h (k ∷ ks) x = ground (arith, has-without h ks x)

abbrev add : List ℕ → ℕ × List ℕ
add hs = (suc (top hs), suc (top hs) ∷ hs)

-- Sockets that never have data, behind an interface that never has work.
abbrev quiet : Smoltcp (List ℕ)
quiet = record {
  add_tcp = add;
  add_udp = add;
  discard = without;
  listen = λ h p hs. (true, hs);
  recv_slice = λ h n hs. (some [], hs);
  is_active = λ h hs. false;
  remote_endpoint = λ h hs. none;
  poll = λ t hs. (false, hs);
}

quiet-Laws : Laws quiet
quiet-Laws = record {
  live = has;
  tcp_fresh = λ s. has-above s (suc (top s)) (omega arith);
  tcp_added = λ s x. refl;
  udp_fresh = λ s. has-above s (suc (top s)) (omega arith);
  udp_added = λ s x. refl;
  discarded = has-without;
  listened = λ h p s x. refl;
  recved = λ h n s x. refl;
  polled = λ t s x. refl;
}

abbrev one_socket : NetworkStack (List ℕ)
one_socket = (create_tcp_socket quiet (new_stack quiet [])).1

Reach-IsStack_example : IsStack quiet quiet-Laws (close_socket quiet 1 one_socket).1
Reach-IsStack_example =
    Reach-IsStack quiet quiet-Laws [] (next (next here (tcp_socket (omega arith))) (close 1))

poll_loop-Ends_example :
    Ends quiet (λ n. n) [] (poll_loop quiet (max_poll_iterations quiet) 0 (λ n. n) [])
poll_loop-Ends_example = poll_loop-Ends quiet (λ n. n) []

-- ===== src/Network/Table.antt =====
-- The table of descriptors: every socket that the code asks smoltcp for is there.
use shade_os.Base.{
  ℕ, ◌+◌, ◌^◌, ◌<◌, ◌≡◌, ◌≢◌, refl, sym, ap, subst, ◌∙◌, Bool, true, false, not, ◌||◌, List, [],
  ◌∷◌, Option, none, some, some-inj, arith, ◌==◌, if◌then◌else◌, Bool-cases, Option-cases, ◌⊎◌, inl,
  inr, ==→eq, not_==→ne, ==_refl, ne→not_==,
}
use shade_os.Network.{
  Smoltcp, SocketType, is_tcp, is_listening, listening, connected, opened, SocketEntry, SocketMap,
  get, insert, remove, NetworkStack, register, tcp_bind, tcp_recv, close_socket, accept,
}

get-insert : (fd : ℕ) (e : SocketEntry) (m : SocketMap) → get fd (insert fd e m) ≡ some e
unfolding get insert
get-insert fd e [] = rw (==_refl fd) refl
get-insert fd e ((k, f) ∷ m) = elim (Bool-cases (k == fd)) [
  | inl h ↦ rw (h, h) refl
  | inr h ↦ rw (h, h) (get-insert fd e m)
]

get-insert_ne :
    (fd x : ℕ) (e : SocketEntry) (m : SocketMap) → fd ≢ x → get x (insert fd e m) ≡ get x m
unfolding get insert
get-insert_ne fd x e [] ne = rw (ne→not_== fd x ne) refl
get-insert_ne fd x e ((k, f) ∷ m) ne = ground (arith, get-insert_ne fd x e m ne)

get-remove : (fd : ℕ) (m : SocketMap) → get fd (remove fd m) ≡ none
unfolding get remove
get-remove fd [] = refl
get-remove fd ((k, f) ∷ m) = elim (Bool-cases (k == fd)) [
  | inl h ↦ rw h (get-remove fd m)
  | inr h ↦ rw (h, h) (get-remove fd m)
]

get-remove_ne : (fd x : ℕ) (m : SocketMap) → fd ≢ x → get x (remove fd m) ≡ get x m
unfolding get remove
get-remove_ne fd x [] ne = refl
get-remove_ne fd x ((k, f) ∷ m) ne = ground (arith, get-remove_ne fd x m ne)

-- What the code relies on: `add` answers with a handle that stands for no socket yet, `remove` ends
-- one, and the other functions begin and end none.
pub record Laws {S : Type 0} (net : Smoltcp S) : Type 0 where
  pub live : S → ℕ → Bool
  pub tcp_fresh : (s : S) → live s (net.add_tcp s).0 ≡ false
  pub tcp_added :
      (s : S) (x : ℕ)
      → live (net.add_tcp s).1 x ≡ (if x == (net.add_tcp s).0 then true else live s x)
  pub udp_fresh : (s : S) → live s (net.add_udp s).0 ≡ false
  pub udp_added :
      (s : S) (x : ℕ)
      → live (net.add_udp s).1 x ≡ (if x == (net.add_udp s).0 then true else live s x)
  pub discarded :
      (h : ℕ) (s : S) (x : ℕ) → live (net.discard h s) x ≡ (if x == h then false else live s x)
  pub listened : (h p : ℕ) (s : S) (x : ℕ) → live (net.listen h p s).1 x ≡ live s x
  pub recved : (h n : ℕ) (s : S) (x : ℕ) → live (net.recv_slice h n s).1 x ≡ live s x
  pub polled : (t : ℕ) (s : S) (x : ℕ) → live (net.poll t s).1 x ≡ live s x

module _ {S : Type 0} (net : Smoltcp S) (laws : Laws net) where
  -- Descriptors in the table have been given out, their sockets are there, and no two of them have
  -- the same socket.
  pub record IsStack (st : NetworkStack S) : Type 0 where
    pub below : (fd : ℕ) (e : SocketEntry) → get fd st.socket_map ≡ some e → fd < st.next_fd
    pub alive :
        (fd : ℕ) (e : SocketEntry)
        → get fd st.socket_map ≡ some e
        → laws.live st.sockets e.handle ≡ true
    pub apart :
        (fd fd' : ℕ) (e f : SocketEntry)
        → get fd st.socket_map ≡ some e
        → get fd' st.socket_map ≡ some f
        → fd ≢ fd'
        → e.handle ≢ f.handle

  -- An entry of a table with `e` put in is `e` under `fd`, or was there.
  inserted-cases :
      (fd x : ℕ) (e f : SocketEntry) (m : SocketMap)
      → get x (insert fd e m) ≡ some f
      → ((x ≡ fd) × (f ≡ e)) ⊎ ((fd ≢ x) × (get x m ≡ some f))
  inserted-cases fd x e f m h = elim (Bool-cases (fd == x)) [
    | inl q ↦
        let same : fd ≡ x = ==→eq fd x q in
        inl (
          sym same,
          some-inj (
              sym (subst (λ (y : ℕ). get y (insert fd e m) ≡ some f) (sym same) h)
              ∙ get-insert fd e m),
        )
    | inr q ↦ let ne : fd ≢ x = not_==→ne fd x q in inr (ne, sym (get-insert_ne fd x e m ne) ∙ h)
  ]

  -- The same sockets behind the same descriptors, in another state.
  pub replace-IsStack :
      (st : NetworkStack S) (fd : ℕ) (e f : SocketEntry)
      → IsStack st
      → get fd st.socket_map ≡ some e
      → f.handle ≡ e.handle
      → IsStack (record st { socket_map = insert fd f st.socket_map })
  replace-IsStack st fd e f v h same =
      let was : (x : ℕ) (g : SocketEntry)
          → get x (insert fd f st.socket_map) ≡ some g
          → (g' : SocketEntry) × (get x st.socket_map ≡ some g') × (g.handle ≡ g'.handle) =
        λ x g k. elim (inserted-cases fd x f g st.socket_map k) [
          | inl (at, is) ↦ (
            e,
            ap (λ (y : ℕ). get y st.socket_map) at ∙ h,
            ap (λ (t : SocketEntry). t.handle) is ∙ same,
          )
          | inr (_, k') ↦ (g, k', refl)
        ] in
      record {
        below = λ x g k. (let (g', k', _) = was x g k in v.below x g' k');
        alive =
            λ x g k. (let (g', k', q) = was x g k in ap (laws.live st.sockets) q ∙ v.alive x g' k');
        apart = λ x y g k hg hk ne.
            (let (g', hg', qg) = was x g hg in
              let (k', hk', qk) = was y k hk in
              λ z. v.apart x y g' k' hg' hk' ne (sym qg ∙ z ∙ qk));
      }

  -- Sockets that have changed but for which are there.
  pub sockets-IsStack :
      (st : NetworkStack S) (s : S)
      → IsStack st
      → ((x : ℕ) → laws.live s x ≡ laws.live st.sockets x)
      → IsStack (record st { sockets = s })
  sockets-IsStack st s v same = record {
    below = v.below;
    alive = λ fd e h. same e.handle ∙ v.alive fd e h;
    apart = v.apart;
  }

  pub register-IsStack :
      (st : NetworkStack S) (t : SocketType) (r : ℕ × S)
      → IsStack st
      → st.next_fd + 1 < 2 ^ 32
      → laws.live st.sockets r.0 ≡ false
      → ((x : ℕ) → laws.live r.1 x ≡ (if x == r.0 then true else laws.live st.sockets x))
      → IsStack (register net t r st).1
  register-IsStack st t r v last fresh added =
      let e : SocketEntry = record { socket_type = t; handle = r.0; state = opened } in
      let m : SocketMap = st.socket_map in
      let old : (x : ℕ) (f : SocketEntry) → get x m ≡ some f → f.handle ≢ r.0 = λ x f h z.
        (let a : laws.live st.sockets r.0 ≡ true =
            ap (laws.live st.sockets) (sym z) ∙ v.alive x f h in
          absurd (cc (a, fresh))) in
      record {
        below = λ x f h. elim (inserted-cases st.next_fd x e f m h) [
          | inl (at, _) ↦ omega (arith, at, last)
          | inr (_, k) ↦ omega (arith, v.below x f k, last)
        ];
        alive = λ x f h. elim (inserted-cases st.next_fd x e f m h) [
          | inl (_, is) ↦
              ap (λ (g : SocketEntry). laws.live r.1 g.handle) is
              ∙ added r.0
              ∙ rw (==_refl r.0) refl
          | inr (_, k) ↦ added f.handle ∙ rw (ne→not_== f.handle r.0 (old x f k)) (v.alive x f k)
        ];
        apart = λ x y f g hf hg ne. elim (inserted-cases st.next_fd x e f m hf) [
          | inl (at, is) ↦ elim (inserted-cases st.next_fd y e g m hg) [
            | inl (at', _) ↦ absurd (ne (at ∙ sym at'))
            | inr (_, k) ↦ λ z. old y g k (sym z ∙ ap (λ (q : SocketEntry). q.handle) is)
          ]
          | inr (_, k) ↦ elim (inserted-cases st.next_fd y e g m hg) [
            | inl (_, is) ↦ λ z. old x f k (z ∙ ap (λ (q : SocketEntry). q.handle) is)
            | inr (_, k') ↦ v.apart x y f g k k' ne
          ]
        ];
      }

  pub close_socket-IsStack :
      (st : NetworkStack S) (fd : ℕ) → IsStack st → IsStack (close_socket net fd st).1
  unfolding close_socket
  close_socket-IsStack st fd v = elim (Option-cases (get fd st.socket_map)) [
    | inl h ↦ rw (h, close_socket) v
    | inr (e, h) ↦
        let was : (x : ℕ) (f : SocketEntry)
            → get x (remove fd st.socket_map) ≡ some f
            → (fd ≢ x) × (get x st.socket_map ≡ some f) =
          λ x f k. elim (Bool-cases (fd == x)) [
            | inl q ↦
                let same : fd ≡ x = ==→eq fd x q in
                let gone : get x (remove fd st.socket_map) ≡ none =
                  subst (λ (y : ℕ). get y (remove fd st.socket_map) ≡ none) same
                    (get-remove fd st.socket_map) in
                absurd (cc (gone, k))
            | inr q ↦
                let ne : fd ≢ x = not_==→ne fd x q in
                (ne, sym (get-remove_ne fd x st.socket_map ne) ∙ k)
          ] in
        rw (h, close_socket)
          (record {
            below = λ x f k. v.below x f (was x f k).1;
            alive = λ x f k.
                (let (ne, k') = was x f k in
                  laws.discarded e.handle st.sockets f.handle
                  ∙ rw (ne→not_== f.handle e.handle (v.apart x fd f e k' h (λ z. ne (sym z))))
                      (v.alive x f k'));
            apart = λ x y f g hf hg ne. v.apart x y f g (was x f hf).1 (was y g hg).1 ne;
          })
  ]

  pub tcp_bind-IsStack :
      (st : NetworkStack S) (fd port : ℕ) → IsStack st → IsStack (tcp_bind net fd port st).1
  unfolding tcp_bind
  tcp_bind-IsStack st fd port v = elim (Option-cases (get fd st.socket_map)) [
    | inl h ↦ rw (h, tcp_bind) v
    | inr (e, h) ↦ elim (Bool-cases (is_tcp e.socket_type)) [
      | inr u ↦ rw (h, tcp_bind, u) v
      | inl t ↦
          let r : Bool × S = net.listen e.handle port st.sockets in
          let w = sockets-IsStack st r.1 v (laws.listened e.handle port st.sockets) in
          elim (Bool-cases r.0) [
            | inr bad ↦ rw (h, tcp_bind, t, bad) w
            | inl good ↦
                rw (h, tcp_bind, t, good)
                  (replace-IsStack (record st { sockets = r.1 }) fd e
                    (record e { state = listening }) w h refl)
          ]
    ]
  ]

  pub tcp_recv-IsStack :
      (st : NetworkStack S) (fd len : ℕ) → IsStack st → IsStack (tcp_recv net fd len st).2
  unfolding tcp_recv
  tcp_recv-IsStack st fd len v = elim (Option-cases (get fd st.socket_map)) [
    | inl h ↦ rw (h, tcp_recv) v
    | inr (e, h) ↦ elim (Bool-cases (is_tcp e.socket_type)) [
      | inr u ↦ rw (h, tcp_recv, u) v
      | inl t ↦
          let r : Option (List ℕ) × S = net.recv_slice e.handle len st.sockets in
          let w = sockets-IsStack st r.1 v (laws.recved e.handle len st.sockets) in
          elim (Option-cases r.0) [
            | inl bad ↦ rw (h, tcp_recv, t, bad) w
            | inr (bytes, good) ↦ rw (h, tcp_recv, t, good) w
          ]
    ]
  ]

  pub accept-IsStack : (st : NetworkStack S) (fd : ℕ) → IsStack st → IsStack (accept net fd st).2
  unfolding accept
  accept-IsStack st fd v = elim (Option-cases (get fd st.socket_map)) [
    | inl h ↦ rw (h, accept) v
    | inr (e, h) ↦
        elim (Bool-cases (not (is_listening e.state) || not (net.is_active e.handle st.sockets))) [
          | inl no_one ↦ rw (h, accept, no_one) v
          | inr ready ↦
              rw (h, accept, ready)
                (replace-IsStack st fd e (record e { state = connected }) v h refl)
        ]
  ]

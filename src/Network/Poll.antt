-- ===== src/Network/Poll.antt =====
-- The loop that polls the network interface ends, and when.
use shade_os.Base.{
  ℕ, zero, suc, ◌+◌, ◌*◌, ◌≤◌, ◌<◌, ◌≡◌, ◌⊎◌, ◌-◌, ltb, inl, inr, refl, ap, Bool, true, false, not,
  ◌&&◌, List, [], ◌∷◌, arith, leb, length, get_or, take, Bool-cases, if◌then◌else◌,
}
use shade_os.Network.{Smoltcp, poll_loop, max_poll_iterations}

-- Whether the round `k` and the two behind it did no work.
abbrev pub three_idle : List Bool → ℕ → Bool
three_idle rounds k =
    not (get_or rounds k true)
    && not (get_or rounds (suc k) true)
    && not (get_or rounds (suc (suc k)) true)

-- No three rounds in a row did no work, but for the last three; if the rounds stop early, the last
-- three did none.
record Stops (rounds : List Bool) (early : Type 0) : Type 0 where
  first : (k : ℕ) → k + 3 < length rounds → three_idle rounds k ≡ false
  enough : early → 3 ≤ length rounds
  last : early → (k : ℕ) → k + 3 ≡ length rounds → three_idle rounds k ≡ true

-- A round that did work, in front of others.
work-Stops :
    (rounds : List Bool) (e e' : Type 0) → (e' → e) → Stops rounds e → Stops (true ∷ rounds) e'
work-Stops rounds e e' f h = record {
  first = first;
  enough = λ x. omega (arith, h.enough (f x));
  last = last;
}
  where
    first : (k : ℕ) → k + 3 < suc (length rounds) → three_idle (true ∷ rounds) k ≡ false
    first zero lt = refl
    first (suc k) lt = h.first k (omega (arith, lt))

    last : e' → (k : ℕ) → k + 3 ≡ suc (length rounds) → three_idle (true ∷ rounds) k ≡ true
    last x zero q = absurd (omega (arith, q, h.enough (f x)))
    last x (suc k) q = h.last (f x) k (omega (arith, q))

-- One that did none, where the next three are not idle for sure.
idle-Stops :
    (rounds : List Bool) (e : Type 0)
    → three_idle (false ∷ rounds) 0 ≡ false
    → Stops rounds e
    → Stops (false ∷ rounds) e
idle-Stops rounds e no3 h = record {
  first = first;
  enough = λ x. omega (arith, h.enough x);
  last = last;
}
  where
    first : (k : ℕ) → k + 3 < suc (length rounds) → three_idle (false ∷ rounds) k ≡ false
    first zero lt = no3
    first (suc k) lt = h.first k (omega (arith, lt))

    last : e → (k : ℕ) → k + 3 ≡ suc (length rounds) → three_idle (false ∷ rounds) k ≡ true
    last x zero q = absurd (omega (arith, q, h.enough x))
    last x (suc k) q = h.last x k (omega (arith, q))

-- The idle rounds just before, in front of the rounds.
abbrev behind : ℕ → List Bool → List Bool
behind zero rounds = rounds
behind (suc zero) rounds = false ∷ rounds
behind (suc (suc i)) rounds = false ∷ false ∷ rounds

module _ {S : Type 0} (net : Smoltcp S) where
  -- What `n` rounds of polls do that nothing stops: whether each does work, and the sockets behind the
  -- first `k`.
  abbrev pub rounds_of : ℕ → (ℕ → ℕ) → S → List Bool
  rounds_of zero ticks s = []
  rounds_of (suc n) ticks s =
      (net.poll (ticks n * 10) s).0 ∷ rounds_of n ticks (net.poll (ticks n * 10) s).1

  abbrev pub sockets_after : ℕ → (ℕ → ℕ) → ℕ → S → S
  sockets_after n ticks zero s = s
  sockets_after zero ticks (suc k) s = s
  sockets_after (suc n) ticks (suc k) s = sockets_after n ticks k (net.poll (ticks n * 10) s).1

  -- The loop makes these rounds, up to some number of them.
  poll_loop-rounds :
      (n idle : ℕ) (ticks : ℕ → ℕ) (s : S)
      → (length (poll_loop net n idle ticks s).0 ≤ n)
        × ((poll_loop net n idle ticks s).0
            ≡ take (length (poll_loop net n idle ticks s).0) (rounds_of n ticks s))
        × ((poll_loop net n idle ticks s).1
            ≡ sockets_after n ticks (length (poll_loop net n idle ticks s).0) s)
  unfolding poll_loop
  poll_loop-rounds zero idle ticks s = (omega arith, refl, refl)
  poll_loop-rounds (suc n) idle ticks s =
      let r : Bool × S = net.poll (ticks n * 10) s in
      elim (Bool-cases (not r.0 && leb 3 (idle + 1))) [
        | inl stop ↦ rw (stop, poll_loop) (omega arith, refl, refl)
        | inr more ↦
            let (le, same, sockets) = poll_loop-rounds n (if r.0 then 0 else idle + 1) ticks r.1 in
            rw (more, poll_loop) (omega (arith, le), ap (λ (l : List Bool). r.0 ∷ l) same, sockets)
      ]

  -- Where they stop, for the idle rounds just before.
  abbrev StopsAt : ℕ → ℕ → List Bool × S → Type 0
  StopsAt n idle p = Stops (behind idle p.0) (length p.0 < n)

  -- A round that did work.
  round_of_work :
      (n idle : ℕ) (p : List Bool × S)
      → idle < 3
      → StopsAt n 0 p
      → StopsAt (suc n) idle (true ∷ p.0, p.1)
  round_of_work n zero p lt h = work-Stops p.0 _ _ (λ e. omega (arith, e)) h
  round_of_work n (suc zero) p lt h =
      idle-Stops (true ∷ p.0) _ refl (work-Stops p.0 _ _ (λ e. omega (arith, e)) h)
  round_of_work n (suc (suc zero)) p lt h =
      idle-Stops (false ∷ true ∷ p.0) _ refl
        (idle-Stops (true ∷ p.0) _ refl (work-Stops p.0 _ _ (λ e. omega (arith, e)) h))
  round_of_work n (suc (suc (suc i))) p lt h = absurd (omega (arith, lt))

  -- A round that did none, the third in a row or not.
  third_idle_round : (n : ℕ) (s : S) → StopsAt (suc n) 2 (false ∷ [], s)
  third_idle_round n s = record {
    first = λ k lt. absurd (omega (arith, lt));
    enough = λ e. omega arith;
    last = last;
  }
    where
      last : 1 < suc n → (k : ℕ) → k + 3 ≡ 3 → three_idle (false ∷ false ∷ false ∷ []) k ≡ true
      last e zero q = refl
      last e (suc k) q = absurd (omega (arith, q))

  idle_round :
      (n idle : ℕ) (p : List Bool × S)
      → idle < 2
      → StopsAt n (idle + 1) p
      → StopsAt (suc n) idle (false ∷ p.0, p.1)
  idle_round n zero p lt h = record {
    first = h.first;
    enough = λ e. h.enough (omega (arith, e));
    last = λ e. h.last (omega (arith, e));
  }
  idle_round n (suc zero) p lt h = record {
    first = h.first;
    enough = λ e. h.enough (omega (arith, e));
    last = λ e. h.last (omega (arith, e));
  }
  idle_round n (suc (suc i)) p lt h = absurd (omega (arith, lt))

  no_round : (idle : ℕ) (s : S) → idle < 3 → StopsAt 0 idle ([], s)
  no_round zero s lt = record {
    first = λ k l. absurd (omega (arith, l));
    enough = λ e. absurd (omega (arith, e));
    last = λ e. absurd (omega (arith, e));
  }
  no_round (suc zero) s lt = record {
    first = λ k l. absurd (omega (arith, l));
    enough = λ e. absurd (omega (arith, e));
    last = λ e. absurd (omega (arith, e));
  }
  no_round (suc (suc i)) s lt = record {
    first = λ k l. absurd (omega (arith, l));
    enough = λ e. absurd (omega (arith, e));
    last = λ e. absurd (omega (arith, e));
  }

  third : (idle : ℕ) → idle < 3 → 3 ≤ idle + 1 → idle ≡ 2
  third idle lt le = omega arith

  poll_loop-Stops :
      (n idle : ℕ) (ticks : ℕ → ℕ) (s : S)
      → idle < 3
      → StopsAt n idle (poll_loop net n idle ticks s)
  unfolding poll_loop
  poll_loop-Stops zero idle ticks s lt = no_round idle s lt
  poll_loop-Stops (suc n) idle ticks s lt = elim (Bool-cases (net.poll (ticks n * 10) s).0) [
    | inl work ↦
        rw (work, poll_loop)
          (round_of_work n idle (poll_loop net n 0 ticks (net.poll (ticks n * 10) s).1) lt
            (poll_loop-Stops n 0 ticks (net.poll (ticks n * 10) s).1 (omega arith)))
    | inr still ↦ elim (Bool-cases (leb 3 (idle + 1))) [
      | inl enough ↦
          let two : idle ≡ 2 = third idle lt (ground (arith, enough)) in
          rw (still, poll_loop, enough, two) (third_idle_round n (net.poll (ticks n * 10) s).1)
      | inr more ↦
          let lt' : idle + 1 < 3 = ground (arith, more) in
          rw (still, poll_loop, more)
            (idle_round n idle (poll_loop net n (idle + 1) ticks (net.poll (ticks n * 10) s).1)
              (omega (arith, lt'))
              (poll_loop-Stops n (idle + 1) ticks (net.poll (ticks n * 10) s).1 lt'))
    ]
  ]

  -- What is said of the rounds made and the sockets behind them: the rounds are the first of those
  -- that nothing stops, at most as many as the limit; no three in a row but for the last three did no
  -- work; and the limit is reached, or the last three did none.
  pub record Ends (ticks : ℕ → ℕ) (s : S) (p : List Bool × S) : Type 0 where
    pub bound : length p.0 ≤ max_poll_iterations net
    pub rounds : p.0 ≡ take (length p.0) (rounds_of (max_poll_iterations net) ticks s)
    pub sockets : p.1 ≡ sockets_after (max_poll_iterations net) ticks (length p.0) s
    pub first : (k : ℕ) → k + 3 < length p.0 → three_idle p.0 k ≡ false
    pub reason :
        (length p.0 ≡ max_poll_iterations net)
        ⊎ ((3 ≤ length p.0) × (three_idle p.0 (length p.0 - 3) ≡ true))

  why :
      (p : List Bool × S)
      → length p.0 ≤ 200
      → StopsAt 200 0 p
      → (length p.0 ≡ 200) ⊎ ((3 ≤ length p.0) × (three_idle p.0 (length p.0 - 3) ≡ true))
  why p le h = elim (Bool-cases (ltb (length p.0) 200)) [
    | inl early ↦
        let lt : length p.0 < 200 = ground (arith, early) in
        inr (h.enough lt, h.last lt (length p.0 - 3) (omega (arith, h.enough lt)))
    | inr full ↦ inl (ground (arith, full, le))
  ]

  -- Whatever the interface does, the loop makes at most 200 rounds, the first of those that polls
  -- without a stop would make, and the sockets are those behind them. It stops only behind the first
  -- three rounds in a row that did no work, or behind round 200: no three rounds in a row did none
  -- but for the last three, and there are 200 rounds, or at least three of which the last three did
  -- none.
  pub poll_loop-Ends :
      (ticks : ℕ → ℕ) (s : S) → Ends ticks s (poll_loop net (max_poll_iterations net) 0 ticks s)
  poll_loop-Ends ticks s =
      let p : List Bool × S = poll_loop net 200 0 ticks s in
      let (le, same, sockets) = poll_loop-rounds 200 0 ticks s in
      let h = poll_loop-Stops 200 0 ticks s (omega arith) in
      record { bound = le; rounds = same; sockets = sockets; first = h.first; reason = why p le h }

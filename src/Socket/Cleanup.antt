-- ===== src/Socket/Cleanup.antt =====
-- The sockets are created, or nothing is left open.
use tram.Prelude.{
  ℕ, true, false, ◌≡◌, ◌∷◌, if◌then◌else◌, List, ℤ, pos, negsuc, is_neg, minus_one, arith,
  Bool-cases, refl, inl, inr,
}
use tram.Sys.{
  Env, Trace, Outcome, SockAddr, set_priority, bind, add_membership, get_ifindex, close, done,
  exited, faulted, socket,
}
use tram.Sys.Descriptors.{same_fd, is_open, attributes, HandsOutFresh}
use tram.Socket.{
  htons, is_minus_one, eth_p_tsn, create_talker_socket, create_listener_socket, join_group,
}

-- A call returned and left the terminal alone; if with a descriptor, that one is open beside those
-- of before, and if with an error, the same descriptors are open as before.
abbrev pub Opens : Env → Trace → Outcome ℤ → Type 0
Opens env t (done r u) =
    (attributes u ≡ attributes t)
    × ((k : ℕ)
        → is_open env k u
          ≡ (if is_neg r then is_open env k t else if same_fd k r then true else is_open env k t))
Opens env t (exited c u) = ⊥
Opens env t (faulted f u) = ⊥

pub same_fd→pos : (k : ℕ) (r : ℤ) → same_fd k r ≡ true → r ≡ pos k
same_fd→pos k (pos n) h = ground arith
same_fd→pos k (negsuc n) h = cc

pub not_same-neg : (k : ℕ) (r : ℤ) → is_neg r ≡ true → same_fd k r ≡ false
not_same-neg k (pos n) h = cc
not_same-neg k (negsuc n) h = refl

module _ (env : Env) (fresh : HandsOutFresh env) (t : Trace) where
  socket_fresh : (p k : ℕ) → same_fd k (env.ret (socket p ∷ t)) ≡ true → is_open env k t ≡ false
  socket_fresh p k h = fresh.socket_fresh p k t (same_fd→pos k _ h)

  -- closing the socket undoes its creation
  closed :
      (p k : ℕ) (u : Trace)
      → is_open env k u ≡ is_open env k (socket p ∷ t)
      → is_open env k (close (env.ret (socket p ∷ t)) ∷ u) ≡ is_open env k t
  closed p k u h = ground (arith, socket_fresh p k)

  refused :
      (p : ℕ) → is_neg (env.ret (socket p ∷ t)) ≡ true → Opens env t (done minus_one (socket p ∷ t))
  refused p h = (refl, λ k. rw (not_same-neg k (env.ret (socket p ∷ t)) h))

  -- If Linux hands out no descriptor that is open, `create_talker_socket` returns, leaves the
  -- terminal alone, and leaves open what was open before together with the descriptor it returns,
  -- or just what was open before if it returns an error.
  pub create_talker_socket-Opens :
      (priority : ℤ) → Opens env t (create_talker_socket env priority t)
  unfolding create_talker_socket
  create_talker_socket-Opens priority =
      let p : ℕ = htons eth_p_tsn in
      let u : Trace = set_priority (env.ret (socket p ∷ t)) priority ∷ socket p ∷ t in
      elim (Bool-cases (is_neg (env.ret (socket p ∷ t)))) [
        | inl failed ↦ rw failed (refused p failed)
        | inr got ↦ rw got (elim (Bool-cases (is_minus_one priority)) [
          | inl unset ↦ rw unset (rw got (refl, λ k. refl))
          | inr wanted ↦ rw wanted (elim (Bool-cases (is_neg (env.ret u))) [
            | inl failed ↦ rw failed (refl, λ k. closed p k u refl)
            | inr set ↦ rw set (rw got (refl, λ k. refl))
          ])
        ])
      ]

  join_group-Opens :
      (p : ℕ) (macaddr : List ℕ) (a : SockAddr) (u : Trace)
      → is_neg (env.ret (socket p ∷ t)) ≡ false
      → attributes u ≡ attributes t
      → ((k : ℕ) → is_open env k u ≡ is_open env k (socket p ∷ t))
      → Opens env t (join_group env (env.ret (socket p ∷ t)) macaddr a u)
  unfolding join_group
  join_group-Opens p macaddr a u got calm same =
      let fd : ℤ = env.ret (socket p ∷ t) in
      let v : Trace = bind fd a ∷ u in
      let w : Trace = add_membership fd a.sll_ifindex macaddr ∷ v in
      elim (Bool-cases (is_neg (env.ret v))) [
        | inl failed ↦ rw failed (calm, λ k. closed p k v (same k))
        | inr bound ↦ rw bound (elim (Bool-cases (is_neg (env.ret w))) [
          | inl failed ↦ rw failed (calm, λ k. closed p k w (same k))
          | inr joined ↦ rw joined (rw got (calm, same))
        ])
      ]

  -- If Linux hands out no descriptor that is open, `create_listener_socket` returns, leaves the
  -- terminal alone, and leaves open what was open before together with the descriptor it returns,
  -- or just what was open before if it returns an error.
  pub create_listener_socket-Opens :
      (ifname macaddr : List ℕ) (protocol : ℕ)
      → Opens env t (create_listener_socket env ifname macaddr protocol t)
  unfolding create_listener_socket
  create_listener_socket-Opens ifname macaddr protocol =
      let p : ℕ = htons protocol in
      let u : Trace = get_ifindex (env.ret (socket p ∷ t)) ifname ∷ socket p ∷ t in
      elim (Bool-cases (is_neg (env.ret (socket p ∷ t)))) [
        | inl failed ↦ rw failed (refused p failed)
        | inr got ↦ rw got (elim (Bool-cases (is_neg (env.ret u))) [
          | inl failed ↦ rw failed (refl, λ k. closed p k u refl)
          | inr found ↦ rw found (join_group-Opens p macaddr _ u got refl (λ k. refl))
        ])
      ]

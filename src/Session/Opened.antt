-- ===== src/Session/Opened.antt =====
-- The three descriptors of the listener: all of them are open, or none.
use tram.Prelude.{
  ℕ, ◌≡◌, ◌||◌, Bool, true, false, Option, none, some, List, ◌∷◌, ℤ, is_neg, if◌then◌else◌,
  Bool-cases, inl, inr, arith,
}
use tram.Sys.{Env, Trace, timerfd_create}
use tram.Sys.Descriptors.{same_fd, is_open, attributes, HandsOutFresh}
use tram.Sys.Outcomes.{Returns, Returns-bind}
use tram.Socket.{eth_p_tsn, create_listener_socket}
use tram.Socket.Cleanup.{same_fd→pos, not_same-neg}
use tram.Socket.Fresh.{Acquired, create_listener_socket-Acquired}
use tram.Listener.{Fds}
use tram.Session.{no_mac, open_timers, open_all}

-- `k` is one of the three
abbrev pub is_own : ℕ → Fds → Bool
is_own k fds = same_fd k fds.session_tim_fd || same_fd k fds.timer_fd || same_fd k fds.sk_fd

-- What is open after an attempt to open all three.
pub record Holds (env : Env) (t : Trace) (fds : Fds) (u : Trace) : Type 0 where
  pub mode : attributes u ≡ attributes t
  pub opened : (k : ℕ) → is_open env k u ≡ (if is_own k fds then true else is_open env k t)
  pub fresh : (k : ℕ) → is_own k fds ≡ true → is_open env k t ≡ false

abbrev pub Opened : Env → Trace → Option Fds → Trace → Type 0
Opened env t none u = (attributes u ≡ attributes t) × ((k : ℕ) → is_open env k u ≡ is_open env k t)
Opened env t (some fds) u = Holds env t fds u

module _ (env : Env) (hands : HandsOutFresh env) (t : Trace) where
  timer_fresh :
      (k : ℕ) (u : Trace)
      → same_fd k (env.ret (timerfd_create ∷ u)) ≡ true
      → is_open env k u ≡ false
  timer_fresh k u same = hands.timer_fresh k u (same_fd→pos k _ same)

  open_timers-Opened :
      (sk_fd : ℤ) (u : Trace)
      → Acquired env t sk_fd u
      → Returns (Opened env t) (open_timers env sk_fd u)
  unfolding open_timers
  open_timers-Opened sk_fd u acq =
      let v : Trace = timerfd_create ∷ u in
      let w : Trace = timerfd_create ∷ v in
      elim (Bool-cases (is_neg sk_fd)) [
        | inl failed ↦ rw failed (acq.mode, λ k. rw failed at (acq.opened k))
        | inr got ↦ rw got (elim (Bool-cases (is_neg (env.ret v))) [
          | inl failed ↦
              rw failed
                (acq.mode, λ k. ground (arith, acq.opened k, acq.fresh k, not_same-neg k _ failed))
          | inr first ↦ rw first (elim (Bool-cases (is_neg (env.ret w))) [
            | inl failed ↦ rw failed (
              acq.mode,
              λ k.
                  ground
                    (arith, acq.opened k, acq.fresh k, timer_fresh k u, not_same-neg k _ failed),
            )
            | inr second ↦ rw second (record {
              mode = acq.mode;
              opened = λ k. ground (arith, acq.opened k);
              fresh = λ k own.
                  ground (arith, acq.opened k, acq.fresh k, timer_fresh k u, timer_fresh k v);
            })
          ])
        ])
      ]

  -- If Linux hands out no descriptor that is open, `open_all` returns and leaves the terminal
  -- alone; with the three descriptors, they were not open before and are open beside what was, and
  -- without them, just what was open before is open.
  pub open_all-Opened : (ifname : List ℕ) → Returns (Opened env t) (open_all env ifname t)
  unfolding open_all
  open_all-Opened ifname =
      Returns-bind (Acquired env t) (Returns (Opened env t))
        (create_listener_socket env ifname no_mac eth_p_tsn t) _
        (create_listener_socket-Acquired env hands t ifname no_mac eth_p_tsn) open_timers-Opened

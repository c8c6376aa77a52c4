-- ===== src/Socket/Fresh.antt =====
-- The descriptors that the two functions return are new.
use tram.Prelude.{
  ℕ, ◌≡◌, ◌⊎◌, true, false, ◌∷◌, inl, inr, List, ℤ, is_neg, minus_one, arith, if◌then◌else◌,
}
use tram.Sys.{Env, Trace, Outcome, socket, close, done, exited, faulted}
use tram.Sys.Descriptors.{same_fd, is_open, attributes, HandsOutFresh}
use tram.Sys.Outcomes.{Gives, Returns}
use tram.Socket.Cleanup.{
  same_fd→pos, Opens, create_talker_socket-Opens, create_listener_socket-Opens,
}
use tram.Socket.{htons, eth_p_tsn, create_talker_socket, create_listener_socket}

module _ (env : Env) (t : Trace) where
  -- an error, or the new descriptor
  abbrev IsSocket : (protocol : ℕ) → ℤ → Trace → Type 0
  IsSocket protocol r u = (r ≡ minus_one) ⊎ (r ≡ env.ret (socket (htons protocol) ∷ t))

  create_talker_socket-IsSocket :
      (priority : ℤ) → Gives (IsSocket eth_p_tsn) (create_talker_socket env priority t)
  unfolding create_talker_socket
  create_talker_socket-IsSocket priority = ground arith

  create_listener_socket-IsSocket :
      (ifname macaddr : List ℕ) (protocol : ℕ)
      → Gives (IsSocket protocol) (create_listener_socket env ifname macaddr protocol t)
  unfolding create_listener_socket
  create_listener_socket-IsSocket ifname macaddr protocol = ground arith

-- `r` is an error and nothing has been opened, or a new descriptor, which is open now.
pub record Acquired (env : Env) (t : Trace) (r : ℤ) (u : Trace) : Type 0 where
  pub mode : attributes u ≡ attributes t
  pub opened :
      (k : ℕ)
      → is_open env k u
        ≡ (if is_neg r then is_open env k t else if same_fd k r then true else is_open env k t)
  pub fresh : (k : ℕ) → same_fd k r ≡ true → is_open env k t ≡ false

module _ (env : Env) (fresh : HandsOutFresh env) (t : Trace) where
  IsSocket-fresh :
      (protocol k : ℕ) (r : ℤ) (u : Trace)
      → IsSocket env t protocol r u
      → same_fd k r ≡ true
      → is_open env k t ≡ false
  IsSocket-fresh protocol k r u (inl e) same = absurd (cc (rw e at same))
  IsSocket-fresh protocol k r u (inr e) same =
      fresh.socket_fresh (htons protocol) k t (same_fd→pos k _ (rw e at same))

  acquired :
      (protocol : ℕ) (m : Outcome ℤ)
      → Opens env t m
      → Gives (IsSocket env t protocol) m
      → Returns (Acquired env t) m
  acquired protocol (done r u) (mode, opened) new = record {
    mode = mode;
    opened = opened;
    fresh = λ k same. IsSocket-fresh protocol k r u new same;
  }
  acquired protocol (exited c u) o new = o
  acquired protocol (faulted f u) o new = o

  pub create_talker_socket-Acquired :
      (priority : ℤ) → Returns (Acquired env t) (create_talker_socket env priority t)
  create_talker_socket-Acquired priority =
      acquired eth_p_tsn _ (create_talker_socket-Opens env fresh t priority)
        (create_talker_socket-IsSocket env t priority)

  pub create_listener_socket-Acquired :
      (ifname macaddr : List ℕ) (protocol : ℕ)
      → Returns (Acquired env t) (create_listener_socket env ifname macaddr protocol t)
  create_listener_socket-Acquired ifname macaddr protocol =
      acquired protocol _ (create_listener_socket-Opens env fresh t ifname macaddr protocol)
        (create_listener_socket-IsSocket env t ifname macaddr protocol)

-- Closing the new descriptor leaves what was open before.
pub Acquired-close :
    (env : Env) (t : Trace) (r : ℤ) (u : Trace) (k : ℕ) (v : Trace)
    → Acquired env t r u
    → is_neg r ≡ false
    → is_open env k v ≡ is_open env k u
    → is_open env k (close r ∷ v) ≡ is_open env k t
Acquired-close env t r u k v acq got same = ground (arith, acq.opened k, acq.fresh k)

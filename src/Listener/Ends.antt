-- ===== src/Listener/Ends.antt =====
-- The listener's loop from its start to its end.
use tram.Prelude.{ℕ, zero, suc, ◌+◌, ◌≡◌, ◌==◌, Bool, true, false, ==_iff, arith}
use tram.Sys.{Env, Trace, Outcome, done, exited, faulted, M, and_then}
use tram.Sys.Descriptors.{keys, same_fd}
use tram.Settings.{Settings}
use tram.Avtp.{Avtp}
use tram.Playout.Armed.{armed, HonestTimer}
use tram.Listener.{State, Fds, Next, again, leave, continue_with, step, loop}
use tram.Listener.Safe.{Safe}
use tram.Listener.Play.{Continues}
use tram.Listener.Step.{loop-Continues}
use tram.Listener.Loop.{initial, initial-Inv}
use tram.Listener.Leaves.{Read, step-Read}

-- the run has left the loop for `end`
abbrev pub Left : Outcome Next → Type 0
Left (done (again st) u) = ⊥
Left (done (leave st) u) = Unit
Left (exited c u) = ⊥
Left (faulted f u) = ⊥

-- the rounds have not been used up
abbrev pub Stopped : Outcome Next → Type 0
Stopped (done (again st) u) = ⊥
Stopped (done (leave st) u) = Unit
Stopped (exited c u) = Unit
Stopped (faulted f u) = Unit

module _ (env : Env) (last : ℕ) (escape : (u : Trace) → keys u ≡ last → env.key u ≡ 27) where
  onward :
      (f : State → M Next) (n : ℕ)
      → ((st : State) (u : Trace) → keys u ≡ suc n → (env.key u == 27) ≡ false → Stopped (f st u))
      → (r : Outcome Next) → Read env n r
      → Stopped (and_then r (continue_with f))
  onward f n ends (done (again st) u) (read, other) = ends st u read other
  onward f n ends (done (leave st) u) read = tt
  onward f n ends (exited c u) read = tt
  onward f n ends (faulted x u) read = tt

  module _ (a : Avtp) (fds : Fds) (set : Settings) (recording : Bool) where
    pub loop-Stopped :
        (rounds : ℕ) (st : State) (t : Trace)
        → keys t + suc rounds ≡ last
        → Stopped (loop env a fds set recording (suc rounds) st t)
    unfolding loop
    loop-Stopped zero st t e =
        onward (loop env a fds set recording zero) (keys t)
          (λ st' u read other.
            absurd (cc ((==_iff (env.key u) 27).1 (escape u (omega (arith, read, e))), other)))
          (step env a fds set recording st t) (step-Read env a fds set recording st t)
    loop-Stopped (suc rounds) st t e =
        onward (loop env a fds set recording (suc rounds)) (keys t)
          (λ st' u read other. loop-Stopped rounds st' u (omega (arith, read, e)))
          (step env a fds set recording st t) (step-Read env a fds set recording st t)

    module _ (k : ℕ) (honest : HonestTimer env k) (ours : same_fd k fds.timer_fd ≡ true)
        (room : (u : Trace) → env.allocated u ≡ true) where
      Safe-Left : (r : Outcome Next) → Safe env k (Continues env k) r → Stopped r → Left r
      Safe-Left (done (again st) u) safe stopped = stopped
      Safe-Left (done (leave st) u) safe stopped = tt
      Safe-Left (exited c u) safe stopped = absurd safe
      Safe-Left (faulted f u) (null, empty) stopped = absurd (cc (room u, empty))

      -- If memory can be allocated, and Linux reports the packet timer ready only if it is armed,
      -- with one expiration to read then: where the key is escape once the keyboard has been read
      -- `last` times, the listener's loop, from its initial state with the timer unarmed, leaves
      -- for its end within as many rounds as there are reads left, at least one, without a fault
      -- or an exit.
      pub loop-Left :
          (rounds : ℕ) (t : Trace)
          → armed env k t ≡ false
          → keys t + suc rounds ≡ last
          → Left (loop env a fds set recording (suc rounds) initial t)
      loop-Left rounds t unarmed e =
          Safe-Left _
            (loop-Continues env k honest fds ours a set recording (suc rounds) initial t
              (initial-Inv env k t unarmed))
            (loop-Stopped rounds initial t e)

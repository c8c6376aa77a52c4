-- ===== src/Listener/Loop.antt =====
-- The loop from its start.
use mathlib.Core.Path.{subst}
use tram.Prelude.{ℕ, ◌≡◌, ◌≢◌, true, false, Bool, []}
use tram.Sys.{Env, Trace, Outcome, faulted, assertion, null_pointer}
use tram.Sys.Descriptors.{same_fd}
use tram.Settings.{Settings}
use tram.Stats.{handler_init}
use tram.Avtp.{Avtp}
use tram.Playout.Armed.{armed, HonestTimer}
use tram.Listener.{State, Fds, Next, loop}
use tram.Listener.Safe.{Inv, Safe}
use tram.Listener.Play.{Continues}
use tram.Listener.Step.{loop-Continues}

-- the variables as the listener sets them up
abbrev pub initial : State
initial = record { samples = []; expected_seq = 0; stats = handler_init; is_running = false }

pub initial-Inv : (env : Env) (k : ℕ) (t : Trace) → armed env k t ≡ false → Inv env k initial t
initial-Inv env k t unarmed = record {
  running_has = λ h. cc;
  armed_has = λ h. cc;
  running_unarmed = λ h. cc;
}

assertion-ne-null_pointer : assertion ≢ null_pointer
assertion-ne-null_pointer e = cc

Safe-ne-assertion :
    (env : Env) (k : ℕ) (r : Outcome Next) (u : Trace)
    → Safe env k (Continues env k) r
    → r ≢ faulted assertion u
Safe-ne-assertion env k r u safe e =
    assertion-ne-null_pointer (subst (Safe env k (Continues env k)) e safe).0

-- Where Linux reports the packet timer ready only if it is armed, and a read of it then tells of
-- one expiration, the listener's loop fails no assertion in any number of rounds, if it starts
-- from its initial state with the timer unarmed: whatever packets, errors and keys come, it plays
-- no fragment from an empty queue and finds no second expiration.
pub loop-ne-assertion :
    (env : Env) (k : ℕ) (a : Avtp) (fds : Fds) (set : Settings) (recording : Bool) (rounds : ℕ)
    (t u : Trace)
    → HonestTimer env k
    → same_fd k fds.timer_fd ≡ true
    → armed env k t ≡ false
    → loop env a fds set recording rounds initial t ≢ faulted assertion u
loop-ne-assertion env k a fds set recording rounds t u honest ours unarmed =
    Safe-ne-assertion env k _ u (
      loop-Continues env k honest fds ours a set recording rounds initial t
        (initial-Inv env k t unarmed))

-- ===== src/Listener/Drops.antt =====
-- The count of drops over a whole run of the listener's loop.
use tram.Prelude.{
  [], map, sym, ap, ◌∙◌, ℕ, Option, suc, ◌+◌, ◌<◌, ◌≤◌, ◌≡◌, Bool, true, false, ◌∷◌, if◌then◌else◌,
  is_empty, refl, arith,
}
use tram.Sys.{Pdu, Env, Trace, poll, pure}
use tram.Sys.Outcomes.{Gives, Gives-bind, Returns}
use tram.Settings.{Settings}
use tram.Avtp.{Avtp}
use tram.Playout.{play_fragment}
use tram.Listener.{State, Fds, play, loop}
use tram.Listener.Packets.{Healthy}
use tram.Listener.Numbering.{Tally, Tallied, Arrives, new_packet-Tally}
use tram.Sys.Descriptors.{same_fd}
use tram.Playout.Armed.{armed, HonestTimer}
use tram.Listener.Safe.{Safe-Returns}
use tram.Listener.Play.{Continues}
use tram.Listener.Step.{loop-Continues}
use tram.Listener.Receipts.{receipts, none_heard, play_fragment-Plays}
use tram.Listener.View.{played, payload}
use tram.Listener.Loop.{initial, initial-Inv}
use tram.Listener.Rule.{polled, receive-Ends, playback-Gives, loop-Ends}

pub initial-Tally :
    (index : ℕ → ℕ) (source : ℕ → Option Pdu) (env : Env) (set : Settings) (t : Trace)
    → receipts t ≡ 0
    → played t ≡ []
    → Tally env set index source initial t
initial-Tally index source env set t none_yet unplayed = (
  rw none_yet (refl, refl, omega arith),
  sym none_yet,
  refl,
  refl,
  rw (unplayed, none_heard env t none_yet) refl,
  rw (none_heard env t none_yet, none_yet) refl,
)

module _ (index : ℕ → ℕ) (rising : (m : ℕ) → index m < index (suc m))
    (near : (m : ℕ) → index (suc m) ≤ index m + 256) (source : ℕ → Option Pdu) (env : Env)
    (healthy : Healthy env) (a : Avtp) (fds : Fds) (set : Settings) (recording : Bool) where
  play-Tally :
      (st : State) (t : Trace)
      → Tally env set index source st t
      → Gives (Tally env set index source) (play env set recording st t)
  unfolding play
  play-Tally st t tally =
      Gives-bind _ (Tally env set index source)
        (play_fragment env st.samples set.frames_per_pdu recording t)
        (λ rest. pure (record st {
          samples = rest;
          is_running = if is_empty rest then false else st.is_running;
        }))
        (play_fragment-Plays env st.samples set.frames_per_pdu recording t)
        λ rest u (same, heard_is, played_is). (
          rw same tally.0,
          tally.1 ∙ sym same,
          tally.2,
          tally.3,
          played_is ∙ (tally.4 ∙ ap (map (payload set)) (sym heard_is)),
          rw (heard_is, same) tally.5,
        )

  module _
      (arrives : (t : Trace)
        → (env.ready (poll fds.sk_fd fds.timer_fd fds.session_tim_fd ∷ t)).socket_ready ≡ true
        → Arrives env a fds set index source
            (poll fds.sk_fd fds.timer_fd fds.session_tim_fd ∷ t)) where
    loop_from :
        (rounds : ℕ) (st : State) (t : Trace)
        → Tally env set index source st t
        → Gives (Tallied env set index source) (loop env a fds set recording rounds st t)
    loop_from =
        loop-Ends env a fds set recording Unit (Tallied env set index source) (λ st t tally. tally)
          (λ st t tally. tally) (λ st t tally. tally)
          (λ st t tally.
            receive-Ends env fds set (Tallied env set index source) (λ st t tally. tally) Unit a
              (env.ready (polled fds t)).socket_ready st (polled fds t) tally
              λ ready.
                new_packet-Tally index rising near source env healthy a fds set st (polled fds t)
                  (arrives t ready) tally)
          (λ before t _.
            playback-Gives env fds set (Tallied env set index source) (λ st t tally. tally)
              recording play-Tally (λ st t tally. tally) (env.ready (polled fds t)).timer_ready)

    module _ (k : ℕ) (honest : HonestTimer env k) (ours : same_fd k fds.timer_fd ≡ true) where
      -- With memory and timers available, the packet timer reported ready only if it is armed,
      -- with one expiration to read then, and, whenever the socket is reported ready, a whole
      -- packet of the stream and the format read, the next of a source, on time and numbered by
      -- the low byte of an index that rises by 1 to 256 from packet to packet: the listener's
      -- loop, from its initial state with the timer unarmed, no packet asked for and nothing
      -- played before, returns in any number of rounds, with the first packets of the source
      -- received, as many recorded, and the samples of each handed to the sound card or queued, in
      -- order. Once packets have come, the count of drops is the number of indices missing between
      -- the first and the last of them, modulo 2 ^ 32, and the successor of the last is expected,
      -- modulo 256; before that, nothing is recorded and the count is 0.
      pub loop-Tallied :
          (rounds : ℕ) (t : Trace)
          → armed env k t ≡ false
          → receipts t ≡ 0
          → played t ≡ []
          → Returns (Tallied env set index source) (loop env a fds set recording rounds initial t)
      loop-Tallied rounds t unarmed none_yet unplayed =
          Safe-Returns env k healthy.room (Continues env k) (Tallied env set index source) _
            (loop-Continues env k honest fds ours a set recording rounds initial t
              (initial-Inv env k t unarmed))
            (loop_from rounds initial t (initial-Tally index source env set t none_yet unplayed))

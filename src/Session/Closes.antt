-- ===== src/Session/Closes.antt =====
-- The listener from its start to its end, where its devices can be opened.
use tram.Prelude.{
  ℕ, suc, ◌+◌, ◌<◌, ◌≤◌, ◌≡◌, ◌∙◌, Bool, true, false, Option, some, List, ◌∷◌, ◌++◌, map, ℤ, refl,
  inl, inr, ap,
}
use tram.Sys.{Pdu, Env, Trace, Outcome, done, and_then, ◌>>=◌, poll, Termios}
use tram.Sys.Descriptors.{same_fd, keys}
use tram.Terminal.{found, after_setup}
use tram.Settings.{Settings, Floats}
use tram.Avtp.{Avtp}
use tram.Alsa
use tram.Alsa.{PcmFormats}
use tram.Playout.Armed.{HonestTimer}
use tram.Listener.{State, Fds, Next, leave, loop}
use tram.Listener.Loop.{initial}
use tram.Listener.Packets.{Healthy}
use tram.Listener.View.{heard, played, payload}
use tram.Listener.Receipts.{receipts, pcm}
use tram.Listener.Numbering.{firsts, Arrives}
use tram.Listener.Drops.{initial-Tally}
use tram.Session.{open_all, conclude, avb_aaf_listener}
use tram.Session.Entered.{Recorded, Reached, avb_aaf_listener-Idle}
use tram.Session.Accounts.{Accounts, conclude-Accounts, Told, session-Told}
use tram.Session.Prepared.{Idle}

module _ (index : ℕ → ℕ) (source : ℕ → Option Pdu) (env : Env) (a : Avtp) (fl : Floats)
    (term_old_set : Termios) (fds : Fds) (set : Settings) (filename : List ℕ) (rounds : ℕ) where
  -- The run is what follows the loop in the state `st` at the history `u`, when the first packets
  -- of the source have been received and their samples played or queued; and it tells of them.
  abbrev pub Closes : Outcome (Option ℤ) → Type 0
  Closes r =
      (recording : Bool) × (st : State) × (u : Trace) × Reached env a fds set filename rounds
        recording st u
      × (r ≡ conclude env fl term_old_set fds set recording filename (leave st) u)
      × (played u ++ pcm st.samples ≡ map (payload set) (heard env u))
      × (map some (heard env u) ≡ firsts source (receipts u))
      × Accounts index env fl term_old_set fds set recording (receipts u) u r

  module _ (room : (u : Trace) → env.allocated u ≡ true) where
    -- the loop has not been entered
    unentered :
        (k n : ℕ) (recording : Bool) (u : Trace)
        → Idle env k n u
        → Recorded env filename recording u
        → Closes (conclude env fl term_old_set fds set recording filename (leave initial) u)
    unentered k n recording u (none_yet, unplayed, unarmed, read) rec =
        let tally = initial-Tally index source env set u none_yet unplayed in
        (
          recording,
          initial,
          u,
          (u, rec, inl (refl, refl)),
          refl,
          tally.4,
          tally.5,
          conclude-Accounts index source env fl term_old_set fds set recording filename room initial
              u tally,
        )

    Told-Closes :
        (recording : Bool) (s : Trace)
        → Recorded env filename recording s
        → (r : Outcome Next) → loop env a fds set recording rounds initial s ≡ r
        → Told index source env fl term_old_set fds set recording r
            (and_then r (conclude env fl term_old_set fds set recording filename))
        → Closes (and_then r (conclude env fl term_old_set fds set recording filename))
    Told-Closes recording s rec r looped (st, u, e, faithful, listed, accounts) =
        (recording, st, u, (s, rec, inr (looped ∙ e)), rw e refl, faithful, listed, accounts)

module _ (index : ℕ → ℕ) (rising : (m : ℕ) → index m < index (suc m))
    (near : (m : ℕ) → index (suc m) ≤ index m + 256) (source : ℕ → Option Pdu) (env : Env)
    (healthy : Healthy env) (a : Avtp) (fl : Floats) (formats : PcmFormats) (fds : Fds)
    (set : Settings) (filename : List ℕ)
    (arrives : (t : Trace)
      → (env.ready (poll fds.sk_fd fds.timer_fd fds.session_tim_fd ∷ t)).socket_ready ≡ true
      → Arrives env a fds set index source (poll fds.sk_fd fds.timer_fd fds.session_tim_fd ∷ t))
    (k : ℕ) (honest : HonestTimer env k) (ours : same_fd k fds.timer_fd ≡ true)
    (other : same_fd k fds.session_tim_fd ≡ false) (last : ℕ)
    (escape : (u : Trace) → keys u ≡ last → env.key u ≡ 27) (rounds n : ℕ)
    (enough : n + suc rounds ≡ last) where
  module _ (term_old_set : Termios) where
    abbrev Good : Outcome (Option ℤ) → Type 0
    Good = Closes index source env a fl term_old_set fds set filename (suc rounds)

    -- the loop, and what follows it
    looped :
        (recording : Bool) (u : Trace)
        → Idle env k n u
        → Recorded env filename recording u
        → Good (
            (loop env a fds set recording (suc rounds) initial
                >>= conclude env fl term_old_set fds set recording filename)
              u)
    looped recording u (none_yet, unplayed, unarmed, read) rec =
        Told-Closes index source env a fl term_old_set fds set filename (suc rounds) healthy.room
          recording u rec _ refl
          (session-Told index rising near source env healthy a fl term_old_set fds set recording
            filename arrives k honest ours last escape rounds u unarmed none_yet unplayed
            (ap (λ m. m + suc rounds) read ∙ enough))

  -- Where memory and timers are available, the packet timer is reported ready only if it is armed,
  -- with one expiration to read then, the key is escape once the keyboard has been read `last`
  -- times, and whenever the socket is reported ready, a whole packet of the stream and the format
  -- is read, the next of a source, on time and numbered by the low byte of an index that rises by
  -- 1 to 256 from packet to packet; and where the descriptors and the sound card can be opened,
  -- the session timer is not the packet timer, and no packet has been asked for, nothing played
  -- and the packet timer not armed before: a run of the listener, with as many rounds as there are
  -- reads left, at least one, comes to the end behind its loop, either out of the loop in the
  -- state in which that has been left, or without having entered it, in the initial state; the
  -- packets received are the first of the source, and the samples of each have been handed to the
  -- sound card or stand in the queue of that state, in order. What then follows depends on the
  -- number of packets received: with none it faults, with one it divides by zero, and with two or
  -- more it returns 0 with the attributes found at the start given to the terminal and exactly the
  -- three descriptors of the session closed, having printed how many packets have come and, modulo
  -- 2 ^ 32, how many indices between the first and the last are missing.
  pub avb_aaf_listener-Closes :
      (ifname : List ℕ) (before : Settings) (adev : List ℕ) (rec_time : ℤ) (t v w : Trace)
      → Idle env k n t
      → open_all env ifname (after_setup env t) ≡ done (some fds) v
      → Alsa.setup env formats adev false before v ≡ done set w
      → Closes index source env a fl
          (found env t)
          fds
          set
          filename
          (suc rounds)
          (avb_aaf_listener env a fl formats (suc rounds) ifname before adev rec_time filename t)
  avb_aaf_listener-Closes ifname before adev rec_time t v w =
      avb_aaf_listener-Idle env a fl formats fds (suc rounds) set filename k n other t
        (Good (found env t))
        (unentered index source env a fl (found env t) fds set filename (suc rounds) healthy.room k
          n)
        (looped (found env t)) ifname before adev rec_time v w

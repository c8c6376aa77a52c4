-- ===== src/Cli/Stops.antt =====
-- `main` comes to an end when the escape key is read.
use tram.Prelude.{
  ℕ, suc, ◌+◌, ◌≡◌, Bool, true, false, Option, none, some, List, ℤ, is_neg, Bool-cases,
  Option-cases, minus_one, inl, inr, arith,
}
use tram.Sys.{Termios, Env, Trace, Outcome, done, exited, faulted, M, and_then, pure, SockAddr}
use tram.Sys.Descriptors.{keys}
use tram.Sys.Outcomes.{Gives, keys-calm}
use tram.Socket.{eth_p_tsn, create_talker_socket, setup_socket_address}
use tram.Session.{
  open_all, session, conclude, start_recording, start_session_timer, avb_aaf_listener,
}
use tram.Session.Calls.{start_recording-Makes, start_session_timer-Makes}
use tram.Reports.{print_settings, print_settings-Makes}
use tram.Terminal.{found, after_setup, term_nonblock_setup}
use tram.Settings.{Settings, Floats}
use tram.Avtp.{Avtp}
use tram.Packet.{init_pdu}
use tram.Alsa.{PcmFormats}
use tram.Alsa.Calls.{setup-Makes}
use tram.Listener
use tram.Listener.{Fds}
use tram.Listener.Loop.{initial}
use tram.Listener.Ends.{Stopped, loop-Stopped}
use tram.Talker
use tram.Talker.{avb_aaf_talker, stop, transmit, connect}
use tram.Talker.Calls.{setup_socket_address-Makes}
use tram.Talker.Leaves.{Halted, loop-Halted}
use tram.Cli.{
  Scan, Arg, Config, parse_args, default_config, is_int, frame_size, settings_of, run, main,
}
use tram.Cli.Unread.{parse_args-Untouched, Unread, create_talker_socket-Unread, open_all-Unread}

-- The run has come to an end: the rounds have not been used up.
abbrev pub Answers : Outcome (Option ℤ) → Type 0
Answers (done none u) = ⊥
Answers (done (some r) u) = Unit
Answers (exited c u) = Unit
Answers (faulted f u) = Unit

then-Answers :
    {A : Type 0} (P : A → Trace → Type 0) (r : Outcome A) (f : A → M (Option ℤ))
    → Gives P r
    → ((a : A) (u : Trace) → P a u → Answers (f a u))
    → Answers (and_then r f)
then-Answers P (done a u) f h after = after a u h
then-Answers P (exited c u) f h after = tt
then-Answers P (faulted x u) f h after = tt

some-Answers : (r : Outcome ℤ) → Answers (and_then r (λ res. pure (some res)))
some-Answers (done res u) = tt
some-Answers (exited c u) = tt
some-Answers (faulted x u) = tt

module _ (env : Env) (last : ℕ) (escape : (u : Trace) → keys u ≡ last → env.key u ≡ 27)
    (rounds : ℕ) where
  -- there are `rounds` further reads at most
  abbrev Left : Trace → Type 0
  Left t = keys t + suc rounds ≡ last

  -- a first part that does not read the keyboard
  onward :
      {A : Type 0} (t : Trace) (r : Outcome A) (f : A → M (Option ℤ))
      → Left t
      → Unread t r
      → ((a : A) (u : Trace) → Left u → Answers (f a u))
      → Answers (and_then r f)
  onward t r f left unread after =
      then-Answers (λ _ u. keys u ≡ keys t) r f unread
        λ a u same. after a u (omega (arith, same, left))

  module _ (fl : Floats) (old : Termios) (fds : Fds) (set : Settings) (recording : Bool)
      (filename : List ℕ) where
    conclude-Answers :
        (st : Listener.State) (t : Trace)
        → Answers (conclude env fl old fds set recording filename (Listener.leave st) t)
    unfolding conclude
    conclude-Answers st t = some-Answers _

    after_loop-Answers :
        (r : Outcome Listener.Next)
        → Stopped r
        → Answers (and_then r (conclude env fl old fds set recording filename))
    after_loop-Answers (done (Listener.again st) u) stopped = absurd stopped
    after_loop-Answers (done (Listener.leave st) u) stopped = conclude-Answers st u
    after_loop-Answers (exited c u) stopped = tt
    after_loop-Answers (faulted x u) stopped = tt

  session-Answers :
      (a : Avtp) (fl : Floats) (formats : PcmFormats) (old : Termios) (fds : Fds) (set : Settings)
      (adev : List ℕ) (rec_time : ℤ) (filename : List ℕ) (t : Trace)
      → Left t
      → Answers (session env a fl formats old fds (suc rounds) set adev rec_time filename t)
  unfolding session
  session-Answers a fl formats old fds set adev rec_time filename t left =
      onward t _ _ left (keys-calm t _ (setup-Makes env formats adev false set t)) λ set' u0 left.
        onward u0 (print_settings fl set' false u0) _ left
          (keys-calm u0 _ (print_settings-Makes fl set' false u0))
          λ _ u left.
            onward u (start_recording env set' filename u) _ left
              (keys-calm u _ (start_recording-Makes env set' filename u))
              λ (res, recording) v left. elim (Bool-cases (is_neg res)) [
                | inl failed ↦
                    rw failed (conclude-Answers fl old fds set' recording filename initial v)
                | inr fine ↦ rw fine (
                    onward v (start_session_timer env fds.session_tim_fd rec_time v) _ left
                      (keys-calm v _ (start_session_timer-Makes env fds.session_tim_fd rec_time v))
                      λ res' w left. elim (Bool-cases (is_neg res')) [
                        | inl failed ↦
                            rw failed
                              (conclude-Answers fl old fds set' recording filename initial w)
                        | inr armed ↦ rw armed (
                            after_loop-Answers fl old fds set' recording filename _ (
                              loop-Stopped env last escape a fds set' recording rounds initial w
                                left))
                      ])
              ]

  transmit-Answers :
      (a : Avtp) (old : Termios) (fd : ℤ) (sk_addr : SockAddr) (set : Settings)
      (header : Option (List ℕ)) (t : Trace)
      → Left t
      → Answers (transmit env a old fd sk_addr set (suc rounds) header t)
  unfolding transmit stop
  transmit-Answers a old fd sk_addr set none t left =
      some-Answers (Talker.finish true old fd minus_one t)
  transmit-Answers a old fd sk_addr set (some header) t left =
      finished _ (loop-Halted env a set fd sk_addr last escape rounds _ t left)
    where
      finished : (r : Outcome Talker.Next) → Halted env a set r → Answers (and_then r (stop old fd))
      finished (done (Talker.again st) u) ended = absurd ended
      finished (done (Talker.leave res) u) ended = some-Answers (Talker.finish true old fd res u)
      finished (exited c u) ended = tt
      finished (faulted x u) ended = tt

  connect-Answers :
      (a : Avtp) (fl : Floats) (formats : PcmFormats) (old : Termios) (set : Settings)
      (adev buffer : List ℕ) (fd : ℤ) (address : Option SockAddr) (t : Trace)
      → Left t
      → Answers (connect env a fl formats old (suc rounds) set adev buffer fd address t)
  unfolding connect
  connect-Answers a fl formats old set adev buffer fd none t left =
      some-Answers (Talker.finish false old fd minus_one t)
  connect-Answers a fl formats old set adev buffer fd (some sk_addr) t left =
      onward t _ _ left (keys-calm t _ (setup-Makes env formats adev true set t)) λ set' u left.
        onward u (print_settings fl set' true u) _ left
          (keys-calm u _ (print_settings-Makes fl set' true u))
          λ _ v left. transmit-Answers a old fd sk_addr set' (init_pdu a buffer set') v left

  talker-Answers :
      (a : Avtp) (fl : Floats) (formats : PcmFormats) (ifname macaddr : List ℕ) (priority : ℤ)
      (set : Settings) (adev buffer : List ℕ) (t : Trace)
      → Left t
      → Answers
          (avb_aaf_talker env a fl formats (suc rounds) ifname macaddr priority set adev buffer t)
  unfolding avb_aaf_talker term_nonblock_setup
  talker-Answers a fl formats ifname macaddr priority set adev buffer t left =
      onward (after_setup env t) (create_talker_socket env priority (after_setup env t)) _ left
        (create_talker_socket-Unread env priority _)
        λ fd u left. elim (Bool-cases (is_neg fd)) [
          | inl failed ↦ rw failed tt
          | inr got ↦ rw got (
              onward u (setup_socket_address env fd ifname macaddr eth_p_tsn u) _ left
                (keys-calm u _ (setup_socket_address-Makes env fd ifname macaddr eth_p_tsn u))
                λ address v left.
                  connect-Answers a fl formats (found env t) set adev buffer fd address v left)
        ]

  listener-Answers :
      (a : Avtp) (fl : Floats) (formats : PcmFormats) (ifname : List ℕ) (set : Settings)
      (adev : List ℕ) (rec_time : ℤ) (filename : List ℕ) (t : Trace)
      → Left t
      → Answers (avb_aaf_listener env a fl formats (suc rounds) ifname set adev rec_time filename t)
  unfolding avb_aaf_listener term_nonblock_setup
  listener-Answers a fl formats ifname set adev rec_time filename t left =
      onward (after_setup env t) (open_all env ifname (after_setup env t)) _ left
        (open_all-Unread env ifname _)
        λ opened u left. elim (Option-cases opened) [
          | inl e ↦ rw e tt
          | inr (fds, e) ↦
              rw e
                (session-Answers a fl formats (found env t) fds set adev rec_time filename u left)
        ]

  run-Answers :
      (a : Avtp) (fl : Floats) (formats : PcmFormats) (buffer : List ℕ) (c : Config) (t : Trace)
      → Left t
      → Answers (run env a fl formats (suc rounds) buffer c t)
  unfolding run
  run-Answers a fl formats buffer c t left = elim (Bool-cases (is_int (frame_size c))) [
    | inr huge ↦ rw huge tt
    | inl fits ↦ rw fits (elim (Bool-cases c.talker_mode) [
      | inl talks ↦ rw talks (
          talker-Answers a fl formats c.ifname c.macaddr c.priority (settings_of a c) c.device
            buffer t left)
      | inr listens ↦ rw listens (
          listener-Answers a fl formats c.ifname (settings_of a c) c.device c.record_time
            c.record_file t left)
    ])
  ]

  -- Where the key is escape once the keyboard has been read `last` times, a run of `main`, for any
  -- command line and whatever the other calls return, comes to an end within as many rounds of its
  -- loop as there are reads left, at least one: it returns a value, exits or faults, and does not
  -- use up its rounds inside the loop.
  pub main-Answers :
      (a : Avtp) (fl : Floats) (formats : PcmFormats) (s : Scan) (buffer : List ℕ) (args : List Arg)
      (t : Trace)
      → keys t + suc rounds ≡ last
      → Answers (main env a fl formats s (suc rounds) buffer args t)
  unfolding main
  main-Answers a fl formats s buffer args t left =
      then-Answers (λ _ u. u ≡ t) (parse_args s args default_config t) _
        (parse_args-Untouched s args default_config t)
        λ c u e. rw e (run-Answers a fl formats buffer c t left)

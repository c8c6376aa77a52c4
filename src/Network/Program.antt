-- ===== src/Network/Program.antt =====
-- The program at both ends of a network, each started by a command line.
use mathlib.Core.Option
use mathlib.Core.Path.{subst}
use tram.Prelude.{
  ℕ, suc, ◌+◌, ◌*◌, ◌^◌, ◌<◌, ◌≤◌, ◌≡◌, ◌∙◌, Bool, true, false, Option, some, List, ◌∷◌, ◌++◌, map,
  take, get_elem?, ℤ, pos, ap,
}
use tram.Sys.{Pdu, Env, Trace, Outcome, done, poll, Termios}
use tram.Sys.Descriptors.{same_fd, keys}
use tram.Terminal.{found, after_setup}
use tram.Settings.{Settings, Floats, bytes_per_sample}
use tram.Avtp.{Avtp, IsLawful, HasCodes}
use tram.Alsa
use tram.Alsa.{PcmFormats}
use tram.Packet.RoundTrip.{FitsHeader}
use tram.Playout.Armed.{HonestTimer}
use tram.Listener.{State, Fds, leave}
use tram.Listener.Packets.{Healthy}
use tram.Listener.View.{heard, played, payload}
use tram.Listener.Receipts.{receipts, pcm}
use tram.Listener.Numbering.{firsts}
use tram.Session.{open_all, conclude, avb_aaf_listener}
use tram.Session.Accounts.{Accounts}
use tram.Session.Entered.{Reached}
use tram.Session.Prepared.{Idle}
use tram.Session.Closes.{Closes}
use tram.Talker.Relay.{sent_pdus, captured}
use tram.Talker.Broadcast.{OnAir}
use tram.Network.{history}
use tram.Network.Delivery.{Delivers, talk}
use tram.Network.Audio.{recorded-at}
use tram.Network.Figures.{broadcast-Closes}
use tram.Cli.{
  Scan, Arg, Config, default_config, is_int, frame_size, settings_of, parse_args, run, main,
}
use tram.Cli.Valid.{parse_args-Complete}
use tram.Cli.Header.{settings_of-FitsHeader}
use tram.Cli.Streams.{SameStream, is_int-same, setup-same}

-- A command line that starts a talker, of a stream that the header of a packet can name.
pub record Talks (s : Scan) (a : Avtp) (args : List Arg) (c : Config) (t : Trace) : Type 0 where
  pub accepted : parse_args s args default_config t ≡ done c t
  pub talks : c.talker_mode ≡ true
  pub is_sized : is_int (frame_size c) ≡ true
  pub channels : ℕ
  pub channels_are : c.channels ≡ pos channels
  pub few : channels < 2 ^ 10
  pub identified : c.stream_id < 2 ^ 64
  pub small :
      bytes_per_sample (settings_of a c).bit_depth
        * (settings_of a c).channels
        * (settings_of a c).hw_latency
      < 2 ^ 16

-- A command line that starts a listener of the stream of `c`.
pub record Listens (s : Scan) (args : List Arg) (c d : Config) (t : Trace) : Type 0 where
  pub accepted : parse_args s args default_config t ≡ done d t
  pub listens : d.talker_mode ≡ false
  pub same : SameStream c d

module _ (env : Env) (a : Avtp) (fl : Floats) (formats : PcmFormats) (s : Scan) (rounds : ℕ)
    (buffer : List ℕ) (args : List Arg) where
  main-talk :
      (c : Config) (t : Trace)
      → Talks s a args c t
      → talk env a fl formats rounds c.ifname c.macaddr c.priority
          (settings_of a c)
          c.device
          buffer
          t
        ≡ main env a fl formats s rounds buffer args t
  unfolding main run
  main-talk c t h = rw (h.accepted, h.is_sized, h.talks)

-- The run is what follows the listener's loop in the state `st` at the history `u`, when the
-- buffers played and queued are those of `recorded` at the positions of the packets received; and
-- it tells of them.
abbrev pub Performs :
    (index : ℕ → ℕ)
    → (recorded : List (List ℕ)) → Env
    → Avtp
    → Floats
    → Termios
    → Fds
    → Settings
    → (filename : List ℕ) → (rounds : ℕ) → Outcome (Option ℤ)
    → Type 0
Performs index recorded env a fl term_old_set fds set filename rounds r =
    (recording : Bool) × (st : State) × (u : Trace) × Reached env a fds set filename rounds
      recording st u
    × (r ≡ conclude env fl term_old_set fds set recording filename (leave st) u)
    × (map some (played u ++ pcm st.samples)
        ≡ firsts (λ m. Option.map (take set.data_len) (get_elem? recorded (index m))) (receipts u))
    × Accounts index env fl term_old_set fds set recording (receipts u) u r

module _ (talking : Env) (a : Avtp) (laws : IsLawful a) (codes : HasCodes a) (fl : Floats)
    (formats : PcmFormats) (s : Scan) (talk_rounds : ℕ) (buffer : List ℕ) (talk_args : List Arg)
    (start : Trace) (c : Config) (talks : Talks s a talk_args c start) (set : Settings)
    (on : OnAir talking formats c.ifname c.macaddr c.priority
      (settings_of a c)
      c.device
      set
      start) where
  -- the run of the talker
  abbrev talker : Outcome (Option ℤ)
  talker = main talking a fl formats s talk_rounds buffer talk_args start

  abbrev recorded : List (List ℕ)
  recorded = captured talking (history talker)

  pub same_run :
      talk talking a fl formats talk_rounds c.ifname c.macaddr c.priority
        (settings_of a c)
        c.device
        buffer
        start
      ≡ talker
  same_run = main-talk talking a fl formats s talk_rounds buffer talk_args c start talks

  pub fits : FitsHeader set
  fits =
      settings_of-FitsHeader a codes c
        (parse_args-Complete s talk_args start start {c = c} talks.accepted) talks.channels
        talks.channels_are talks.few talks.identified talking formats c.device true on.after_address
        on.after_card {set = set} talks.small on.set_up

  -- what `delivers` says of a run of the talker
  abbrev Reaches : Env → Fds → (index : ℕ → ℕ) → Outcome (Option ℤ) → Type 0
  Reaches env fds index run =
      (t : Trace)
      → (env.ready (poll fds.sk_fd fds.timer_fd fds.session_tim_fd ∷ t)).socket_ready ≡ true
      → Delivers env a fds set (sent_pdus (history run)) index
          (poll fds.sk_fd fds.timer_fd fds.session_tim_fd ∷ t)

  abbrev source : (index : ℕ → ℕ) → Outcome (Option ℤ) → ℕ → Option Pdu
  source index run m = get_elem? (sent_pdus (history run)) (index m)

  abbrev buffers : (index : ℕ → ℕ) → Outcome (Option ℤ) → ℕ → Option (List ℕ)
  buffers index run m =
      Option.map (take set.data_len) (get_elem? (captured talking (history run)) (index m))

  Closes-Performs :
      (index : ℕ → ℕ) (env : Env) (fds : Fds) (filename : List ℕ) (rounds : ℕ)
      (term_old_set : Termios) (r : Outcome (Option ℤ))
      → Closes index (source index talker) env a fl term_old_set fds set filename rounds r
      → Performs index recorded env a fl term_old_set fds set filename rounds r
  Closes-Performs index env fds filename rounds term_old_set r
        (recording, st, u, reached, e, faithful, listed, accounts) =
      let carried =
        subst
          (λ run.
            map some (heard env u) ≡ firsts (source index run) (receipts u)
            → map some (map (payload set) (heard env u)) ≡ firsts (buffers index run) (receipts u))
          same_run
          (recorded-at talking a fl formats talk_rounds c.ifname c.macaddr c.priority
            (settings_of a c) c.device buffer start laws set fits on index (receipts u)
            (heard env u)) in
      (recording, st, u, reached, e, ap (map some) faithful ∙ carried listed, accounts)

  module _ (index : ℕ → ℕ) (rising : (m : ℕ) → index m < index (suc m))
      (near : (m : ℕ) → index (suc m) ≤ index m + 256) (env : Env) (healthy : Healthy env)
      (fds : Fds)
      (delivers : (t : Trace)
        → (env.ready (poll fds.sk_fd fds.timer_fd fds.session_tim_fd ∷ t)).socket_ready ≡ true
        → Delivers env a fds set
            (sent_pdus (history talker))
            index
            (poll fds.sk_fd fds.timer_fd fds.session_tim_fd ∷ t))
      (k : ℕ) (honest : HonestTimer env k) (ours : same_fd k fds.timer_fd ≡ true)
      (other : same_fd k fds.session_tim_fd ≡ false) (last : ℕ)
      (escape : (u : Trace) → keys u ≡ last → env.key u ≡ 27) (rounds n : ℕ)
      (enough : n + suc rounds ≡ last) where
    -- For a lawful libavtp whose codes fit their fields, let a command line start a talker, with a
    -- frame size that is an `int`, less than 1024 channels, a stream number of 64 bits and a
    -- payload of less than 2 ^ 16 bytes, from a history in which nothing has been sent, and
    -- nothing read that was not, where its socket and its sound card can be opened; and let
    -- another one start a listener of the same stream number, bit depth, sample rate, channels,
    -- latency and transit time. Where for the listener memory and timers are available, the packet
    -- timer is reported ready only if it is armed, with one expiration to read then, the key is
    -- escape once the keyboard has been read `last` times, and whenever the socket is reported
    -- ready, a whole packet of the talker is read that is not late, from a position that rises by
    -- 1 to 256 from packet to packet; and where its descriptors and its sound card can be opened,
    -- the session timer is not the packet timer, the sound card settles on the sample rate and the
    -- period of the talker's, and no packet has been asked for, nothing played and the packet
    -- timer not armed before: then the listener's `main`, with as many rounds as there are reads
    -- left, at least one, comes to the end behind its loop, either out of the loop in the state in
    -- which that has been left, or without having entered it, in the initial state; and the
    -- buffers handed to the sound card, followed by those in the queue of that state, are exactly
    -- those that the talker's `main` has read from its own at the positions of the packets
    -- received, cut to the payload length. What then follows depends on the number of packets
    -- received: with none it faults, with one it divides by zero, and with two or more it returns
    -- 0 with the attributes found at the start given to the terminal and exactly the three
    -- descriptors of the session closed, having printed how many packets have come and, modulo 2 ^
    -- 32, how many of the talker's between the first and the last have not.
    pub main-Performs :
        (args : List Arg) (d : Config) (t v w : Trace) {set' : Settings}
        → Listens s args c d t
        → Idle env k n t
        → open_all env d.ifname (after_setup env t) ≡ done (some fds) v
        → Alsa.setup env formats d.device false (settings_of a d) v ≡ done set' w
        → env.period w ≡ talking.period on.after_card
        → set'.sample_rate ≡ set.sample_rate
        → Performs index recorded env a fl
            (found env t)
            fds
            set
            d.record_file
            (suc rounds)
            (main env a fl formats s (suc rounds) buffer args t)
    unfolding main run
    main-Performs args d t v w {set'} listens idle opened set_up period rate =
        let fitting : set' ≡ set =
          setup-same a c d listens.same talking env formats c.device d.device true false _ _ v w
            {set = set} {set' = set'} on.set_up set_up period rate in
        rw (listens.accepted, is_int-same a c d listens.same talks.is_sized, listens.listens)
          (Closes-Performs index env fds d.record_file (suc rounds) (found env t) _ (
            subst
              (λ run.
                Reaches env fds index run
                → Closes index (source index run) env a fl (found env t) fds set d.record_file
                    (suc rounds)
                    (avb_aaf_listener env a fl formats (suc rounds) d.ifname (settings_of a d)
                      d.device d.record_time d.record_file t))
              same_run
              (λ delivers.
                broadcast-Closes talking a fl formats talk_rounds c.ifname c.macaddr c.priority
                  (settings_of a c) c.device buffer start laws set fits on index rising near env
                  healthy fds d.record_file delivers k honest ours other last escape rounds n enough
                  d.ifname (settings_of a d) d.device d.record_time t v w idle opened
                  (rw fitting at set_up))
              delivers))

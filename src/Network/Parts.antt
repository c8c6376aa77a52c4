-- ===== src/Network/Parts.antt =====
-- What any two runs of the program play of what has been captured, however they end.
use mathlib.Core.List.Sublistᴰ
use mathlib.Core.List.{Sublistᴰ, map-map}
use tram.Prelude.{ℕ, ◌≡◌, inl, inr, true, false, Bool, some, List, map, take}
use tram.Sys.{Pdu, Env, Trace, done}
use tram.Terminal.{after_setup}
use tram.Settings.{Settings, Floats}
use tram.Avtp.{Avtp}
use tram.Alsa
use tram.Alsa.{PcmFormats}
use tram.Listener.{Fds}
use tram.Listener.View.{heard, played, payload, view, Fits}
use tram.Listener.Player.{InOrder}
use tram.Listener.Receipts.{pcm}
use tram.Playout.{Entry}
use tram.Session.{open_all, avb_aaf_listener}
use tram.Talker.Relay.{Relays, sent_pdus, captured, relayed}
use tram.Network.{history, Carried}
use tram.Network.Sublists.{Sublistᴰ-left, Sublistᴰ-right, Sublistᴰ-map, Selected-Carried}
use tram.Network.Feeds.{avb_aaf_talker-Relays}
use tram.Network.Hears.{Unheard, avb_aaf_listener-Plays}
use tram.Cli.{
  Scan, Arg, Config, default_config, is_int, frame_size, settings_of, parse_args, run, main,
}

-- What has been sent is a part of what has been captured.
pub relayed-captured :
    (env : Env) (t : Trace) → Relays env t → Sublistᴰ (relayed t) (captured env t)
relayed-captured env t (inl even) = rw even (Sublistᴰ.refl (relayed t))
relayed-captured env t (inr (x, pending)) =
    rw pending (Sublistᴰ-right x (Sublistᴰ.refl (relayed t)))

-- What has been played is a part of what was sent, if the network has kept the order.
Plays-Carried :
    (env : Env) (a : Avtp) (set : Settings) (sent : List Pdu) (u : Trace)
    → (samples : List Entry) × InOrder (Fits a set) (payload set) (view env samples u)
    → Carried (Fits a set) (heard env u) sent
    → Sublistᴰ (played u) (map (payload set) sent)
Plays-Carried env a set sent u (samples, ordered) carried =
    Sublistᴰ.trans (Sublistᴰ-left (played u) (pcm samples))
      (Selected-Carried (Fits a set) (payload set) ordered carried)

-- A command line that starts a talker or a listener.
pub record Starts (s : Scan) (talker : Bool) (args : List Arg) (c : Config) (t : Trace)
    : Type 0 where
  pub accepted : parse_args s args default_config t ≡ done c t
  pub mode : c.talker_mode ≡ talker
  pub is_sized : is_int (frame_size c) ≡ true

module _ (a : Avtp) (fl : Floats) (formats : PcmFormats) (s : Scan) (rounds : ℕ) (buffer : List ℕ)
    (args : List Arg) (c : Config) (t : Trace) (env : Env) where
  main-Relays :
      Starts s true args c t
      → captured env t ≡ relayed t
      → Relays env (history (main env a fl formats s rounds buffer args t))
  unfolding main run
  main-Relays starts even =
      rw (starts.accepted, starts.is_sized, starts.mode)
        (avb_aaf_talker-Relays env a fl formats rounds c.ifname c.macaddr c.priority
          (settings_of a c) c.device buffer t even)

  module _ (fds : Fds) (set : Settings) (sent : List Pdu) (v w : Trace) where
    main-Plays :
        Starts s false args c t
        → Unheard t
        → open_all env c.ifname (after_setup env t) ≡ done (some fds) v
        → Alsa.setup env formats c.device false (settings_of a c) v ≡ done set w
        → Carried
            (Fits a set)
            (heard env (history (main env a fl formats s rounds buffer args t)))
            sent
        → Sublistᴰ
            (played (history (main env a fl formats s rounds buffer args t)))
            (map (payload set) sent)
    unfolding main run
    main-Plays starts none_yet opened set_up carried =
        rw (starts.accepted, starts.is_sized, starts.mode)
          (Plays-Carried env a set sent
            (history (
              avb_aaf_listener env a fl formats rounds c.ifname (settings_of a c) c.device
                c.record_time c.record_file t))
            (avb_aaf_listener-Plays env a fl formats fds rounds set c.record_file c.ifname
              (settings_of a c) c.device c.record_time t v w none_yet opened set_up)
            (rw (starts.accepted, starts.is_sized, starts.mode) at carried))

module _ (a : Avtp) (fl : Floats) (formats : PcmFormats) (s : Scan) (buffer : List ℕ)
    (talking : Env) (talk_rounds : ℕ) (talk_args : List Arg) (c : Config) (start : Trace)
    (hearing : Env) (rounds : ℕ) (args : List Arg) (d : Config) (t : Trace) where
  -- the calls of the two runs
  abbrev sending : Trace
  sending = history (main talking a fl formats s talk_rounds buffer talk_args start)

  abbrev playing : Trace
  playing = history (main hearing a fl formats s rounds buffer args t)

  -- For any libavtp, any answers of the two systems and any numbers of rounds, let a command line
  -- start a talker, from a history in which each buffer read has been sent, and another one a
  -- listener whose descriptors and sound card can be opened, from a history in which no packet has
  -- been asked for and nothing played, each with a frame size that is an `int`. If the network may
  -- lose packets of the talker, and bring packets that are not of the stream and the format of the
  -- listener's settings, but keeps the order of the talker's: then, however the two runs of `main`
  -- end, the buffers handed to the listener's sound card are some of those that the talker has
  -- read from its own, cut to the payload length of the listener's settings, in the order in which
  -- they were read and each once.
  pub main-PlaysPart :
      (v w : Trace) (fds : Fds) (set : Settings)
      → Starts s true talk_args c start
      → captured talking start ≡ relayed start
      → Starts s false args d t
      → Unheard t
      → open_all hearing d.ifname (after_setup hearing t) ≡ done (some fds) v
      → Alsa.setup hearing formats d.device false (settings_of a d) v ≡ done set w
      → Carried (Fits a set) (heard hearing playing) (sent_pdus sending)
      → Sublistᴰ (played playing) (map (take set.data_len) (captured talking sending))
  main-PlaysPart v w fds set talks even listens none_yet opened set_up carried =
      let part : Sublistᴰ (map (take set.data_len) (relayed sending))
          (map (take set.data_len) (captured talking sending)) =
        Sublistᴰ-map (take set.data_len) (
          relayed-captured talking sending
            (main-Relays a fl formats s talk_rounds buffer talk_args c start talking talks even)) in
      Sublistᴰ.trans
        (main-Plays a fl formats s rounds buffer args d t hearing fds set (sent_pdus sending) v w
          listens none_yet opened set_up carried)
        (rw (map-map (take set.data_len) (λ pdu. pdu.avtp_payload) (sent_pdus sending)) at part)

-- ===== src/Network/Strangers.antt =====
-- A listener and a talker of different streams.
use mathlib.Core.Path.{subst}
use tram.Prelude.{ℕ, suc, ◌+◌, ◌≡◌, ◌≢◌, Bool, true, false, Option, some, List, get_elem?, ℤ, ap}
use tram.Sys.{Pdu, Env, Trace, Outcome, done}
use tram.Sys.Descriptors.{same_fd, keys}
use tram.Terminal.{after_setup}
use tram.Settings.{Settings, Floats}
use tram.Avtp.{Avtp, IsLawful, HasCodes}
use tram.Alsa
use tram.Alsa.{PcmFormats, resize}
use tram.Alsa.Setup.{setup-resize}
use tram.Packet.Accept.{InStream}
use tram.Playout.Armed.{HonestTimer}
use tram.Listener.{Fds, received}
use tram.Listener.Packets.{after_recv}
use tram.Listener.Rule.{polled}
use tram.Session.{open_all}
use tram.Session.Prepared.{Idle}
use tram.Session.Deaf.{Breaks, avb_aaf_listener-Breaks}
use tram.Talker.Relay.{sent_pdus}
use tram.Talker.Broadcast.{OnAir}
use tram.Network.{history}
use tram.Network.Delivery.{broadcast-Standing}
use tram.Network.Program.{Talks, same_run, fits}
use tram.Cli.{
  Scan, Arg, Config, default_config, is_int, frame_size, settings_of, parse_args, run, main,
}

-- The sound card does not change the stream.
setup-stream :
    (env : Env) (a : Avtp) (formats : PcmFormats) (device : List ℕ) (is_recorder : Bool)
    (c : Config) (t u : Trace) {set : Settings}
    → Alsa.setup env formats device is_recorder (settings_of a c) t ≡ done set u
    → set.stream_id ≡ c.stream_id
unfolding settings_of resize
setup-stream env a formats device is_recorder c t u e =
    ap (λ s. s.stream_id) (setup-resize env formats device is_recorder (settings_of a c) t u e)

module _ (talking : Env) (a : Avtp) (laws : IsLawful a) (codes : HasCodes a) (fl : Floats)
    (formats : PcmFormats) (s : Scan) (talk_rounds : ℕ) (buffer : List ℕ) (talk_args : List Arg)
    (start : Trace) (c : Config) (talks : Talks s a talk_args c start) (set : Settings)
    (on : OnAir talking formats c.ifname c.macaddr c.priority
      (settings_of a c)
      c.device
      set
      start) where
  abbrev talker : Outcome (Option ℤ)
  talker = main talking a fl formats s talk_rounds buffer talk_args start

  -- Each packet sent is of the talker's stream.
  sent-InStream :
      (i : ℕ) (p : Pdu)
      → get_elem? (sent_pdus (history talker)) i ≡ some p
      → InStream a p.header set
  sent-InStream =
      subst
        (λ run.
          (i : ℕ) (p : Pdu)
          → get_elem? (sent_pdus (history run)) i ≡ some p
          → InStream a p.header set)
        (same_run talking a laws codes fl formats s talk_rounds buffer talk_args start c talks set
          on)
        λ i p e.
          (broadcast-Standing talking a fl formats talk_rounds c.ifname c.macaddr c.priority
            (settings_of a c) c.device buffer start laws set
            (fits talking a laws codes fl formats s talk_rounds buffer talk_args start c talks set
              on)
            on i p e).in_stream

  module _ (env : Env) (fds : Fds) (d : Config) (apart : d.stream_id ≢ c.stream_id)
      (set' : Settings)
      (comes : (t : Trace)
        → (env.ready (polled fds t)).socket_ready ≡ true
        → received (env.ret (after_recv fds set' (polled fds t))) set'.pdu_size ≡ true
        → (i : ℕ) × (get_elem? (sent_pdus (history talker)) i
            ≡ some (env.packet (after_recv fds set' (polled fds t)))))
      (k : ℕ) (honest : HonestTimer env k) (ours : same_fd k fds.timer_fd ≡ true)
      (other : same_fd k fds.session_tim_fd ≡ false) (last : ℕ)
      (escape : (u : Trace) → keys u ≡ last → env.key u ≡ 27) (rounds n : ℕ)
      (enough : n + suc rounds ≡ last) where
    stranger :
        (header : List ℕ)
        → set'.stream_id ≡ d.stream_id
        → InStream a header set
        → ¬ InStream a header set'
    stranger header named here there =
        let named_c : set.stream_id ≡ c.stream_id =
          setup-stream talking a formats c.device true c on.after_address on.after_card {set = set}
            on.set_up in
        apart (cc (named, named_c, here.stream_id_is, there.stream_id_is))

    -- For a lawful libavtp whose codes fit their fields, let a command line start a talker, with a
    -- frame size that is an `int`, less than 1024 channels, a stream number of 64 bits and a
    -- payload of less than 2 ^ 16 bytes, from a history in which nothing has been sent, and
    -- nothing read that was not, where its socket and its sound card can be opened. Let another
    -- one start a listener of another stream number, with a frame size that is an `int`, where the
    -- packet timer is reported ready only if it is armed, with one expiration to read then, the
    -- key is escape once the keyboard has been read `last` times, and whatever comes whole is a
    -- packet of the talker's: if the listener's descriptors and sound card can be opened, the
    -- session timer is not the packet timer, and no packet has been asked for, nothing played and
    -- the packet timer not armed before, then its `main`, with as many rounds as there are reads
    -- left, at least one, comes to its end in the initial state of the loop, with nothing handed
    -- to the sound card, and faults there: on a start time never assigned if it is recording, on a
    -- null pointer otherwise; and it is recording exactly if there is a file name and libwav has
    -- opened the file.
    pub main-Breaks :
        (args : List Arg) (t v w : Trace)
        → parse_args s args default_config t ≡ done d t
        → d.talker_mode ≡ false
        → is_int (frame_size d) ≡ true
        → Idle env k n t
        → open_all env d.ifname (after_setup env t) ≡ done (some fds) v
        → Alsa.setup env formats d.device false (settings_of a d) v ≡ done set' w
        → Breaks env a fds set' d.record_file
            (suc rounds)
            (main env a fl formats s (suc rounds) buffer args t)
    unfolding main run
    main-Breaks args t v w accepted listens sized idle opened set_up =
        let named : set'.stream_id ≡ d.stream_id =
          setup-stream env a formats d.device false d v w {set = set'} set_up in
        rw (accepted, sized, listens)
          (avb_aaf_listener-Breaks env a fl formats fds set' k honest ours other
            (λ u ready whole.
              let (i, sent) = comes u ready whole in stranger _ named (sent-InStream i _ sent))
            last escape rounds n enough d.ifname (settings_of a d) d.device d.record_time
            d.record_file t v w idle opened set_up)

-- ===== src/Talker/Overrun.antt =====
-- The talker on a sound card whose period is longer than the latency asked for.
use tram.Prelude.{ℕ, suc, ◌+◌, ◌*◌, ◌^◌, ◌<◌, ◌≡◌, ltb, true, List, ◌∷◌, length, ℤ, refl, arith}
use tram.Sys.{SockAddr, Env, Trace, faulted, buffer_overflow, pcm_readi, Termios}
use tram.Terminal.{term_nonblock_setup}
use tram.Settings.{Settings, Floats, bytes_per_sample}
use tram.Avtp.{Avtp, IsLawful}
use tram.Alsa
use tram.Alsa.{PcmFormats}
use tram.Alsa.Setup.{setup-pdu, setup_overflow}
use tram.Reports.{print_settings, settings_lines, after_lines, print_all-after_lines}
use tram.Packet.{init_pdu}
use tram.Packet.RoundTrip.{init_pdu_lem}
use tram.Talker.{State, payload_size, step, loop, transmit, connect, avb_aaf_talker}
use tram.Talker.Broadcast.{OnAir}

-- ALSA reads all the frames asked for.
abbrev pub Fills : Env → Settings → Type 0
Fills env set =
    (t : Trace)
    → length (env.audio (pcm_readi set.frames_per_pdu ∷ t))
      ≡ bytes_per_sample set.bit_depth * set.channels * set.frames_per_pdu

-- The first read does not fit the PDU.
module _ (env : Env) (a : Avtp) (set : Settings)
    (long : (t : Trace)
      → ltb (payload_size a set) (length (env.audio (pcm_readi set.frames_per_pdu ∷ t))) ≡ true)
    (rounds : ℕ) where
  loop-faulted :
      (fd : ℤ) (address : SockAddr) (st : State) (t : Trace)
      → loop env a fd address set (suc rounds) st t
        ≡ faulted buffer_overflow (pcm_readi set.frames_per_pdu ∷ t)
  unfolding loop step Alsa.read
  loop-faulted fd address st t = rw (long t) refl

  transmit-faulted :
      (laws : IsLawful a) (old : Termios) (fd : ℤ) (address : SockAddr) (buffer : List ℕ)
      (t : Trace)
      → transmit env a old fd address set (suc rounds) (init_pdu a buffer set) t
        ≡ faulted buffer_overflow (pcm_readi set.frames_per_pdu ∷ t)
  unfolding transmit
  transmit-faulted laws old fd address buffer t =
      rw (init_pdu_lem a laws set buffer, transmit) (rw (loop-faulted fd address _ t) refl)

module _ (env : Env) (a : Avtp) (laws : IsLawful a) (fl : Floats) (formats : PcmFormats)
    (before set : Settings) (entered : before.pdu_size ≡ a.sizeof_pdu + before.data_len)
    (fits : a.sizeof_pdu + bytes_per_sample before.bit_depth * before.channels * before.hw_latency
      < 2 ^ 32)
    (entered_fits : before.pdu_size < 2 ^ 32)
    (some_bytes : 0 < bytes_per_sample before.bit_depth * before.channels) where
  -- For a lawful libavtp, where the settings entered have a PDU of the header and the payload, a
  -- frame is not empty and the sizes fit 32 bits: if, from a history in which nothing has been
  -- sent, and nothing read that was not, the socket and the sound card can be opened, the device's
  -- period is longer than the latency asked for and ALSA reads all the frames asked for, then a
  -- run of the talker with at least one round prints its settings and stops with a fault at its
  -- first read, which overflows the PDU.
  pub avb_aaf_talker_overflow :
      (rounds : ℕ) (ifname macaddr : List ℕ) (priority : ℤ) (adev buffer : List ℕ) (t : Trace)
      (on : OnAir env formats ifname macaddr priority before adev set t)
      → before.hw_latency < env.period on.after_card
      → Fills env set
      → avb_aaf_talker env a fl formats (suc rounds) ifname macaddr priority before adev buffer t
        ≡ faulted buffer_overflow
            (pcm_readi set.frames_per_pdu ∷ after_lines (settings_lines fl set true) on.after_card)
  unfolding avb_aaf_talker term_nonblock_setup connect print_settings
  avb_aaf_talker_overflow rounds ifname macaddr priority adev buffer t on longer fills =
      let sized =
        setup-pdu env formats adev true before a.sizeof_pdu on.after_address on.after_card
          {set' = set} on.set_up entered fits entered_fits in
      let short =
        setup_overflow env formats adev true before a.sizeof_pdu on.after_address on.after_card
          {set' = set} on.set_up entered fits entered_fits some_bytes longer in
      let long : (u : Trace)
          → ltb (payload_size a set) (length (env.audio (pcm_readi set.frames_per_pdu ∷ u)))
            ≡ true =
        λ u. ground (arith, fills u, sized, short) in
      rw
        (
          on.opened,
          on.is_open,
          on.addressed,
          on.set_up,
          print_all-after_lines (settings_lines fl set true) on.after_card,
        )
        (transmit-faulted env a set long rounds laws _ on.fd on.address buffer _)

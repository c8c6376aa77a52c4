-- ===== src/Network/Figures.antt =====
-- What the listener tells of the packets that the network has lost.
use tram.Prelude.{ℕ, suc, ◌+◌, ◌<◌, ◌≤◌, ◌≡◌, true, false, some, List, ◌∷◌, get_elem?, ℤ}
use tram.Sys.{Pdu, Env, Trace, done, poll}
use tram.Sys.Descriptors.{same_fd, keys}
use tram.Terminal.{found, after_setup}
use tram.Settings.{Settings, Floats}
use tram.Avtp.{Avtp, IsLawful}
use tram.Alsa
use tram.Alsa.{PcmFormats}
use tram.Packet.RoundTrip.{FitsHeader}
use tram.Playout.Armed.{HonestTimer}
use tram.Listener.{Fds}
use tram.Listener.Packets.{Healthy}
use tram.Session.{open_all, avb_aaf_listener}
use tram.Session.Prepared.{Idle}
use tram.Session.Closes.{Closes, avb_aaf_listener-Closes}
use tram.Talker.Broadcast.{OnAir}
use tram.Network.Delivery.{Delivers, broadcast, broadcast-Arrives}

module _ (talking : Env) (a : Avtp) (fl : Floats) (formats : PcmFormats) (talk_rounds : ℕ)
    (ifname macaddr : List ℕ) (priority : ℤ) (talk_before : Settings) (talk_adev buffer : List ℕ)
    (start : Trace) (laws : IsLawful a) (set : Settings) (fits : FitsHeader set)
    (on : OnAir talking formats ifname macaddr priority talk_before talk_adev set start) where
  abbrev sent : List Pdu
  sent =
      broadcast talking a fl formats talk_rounds ifname macaddr priority talk_before talk_adev
        buffer start

  module _ (index : ℕ → ℕ) (rising : (m : ℕ) → index m < index (suc m))
      (near : (m : ℕ) → index (suc m) ≤ index m + 256) (env : Env) (healthy : Healthy env)
      (fds : Fds) (filename : List ℕ)
      (delivers : (t : Trace)
        → (env.ready (poll fds.sk_fd fds.timer_fd fds.session_tim_fd ∷ t)).socket_ready ≡ true
        → Delivers env a fds set sent index (poll fds.sk_fd fds.timer_fd fds.session_tim_fd ∷ t))
      (k : ℕ) (honest : HonestTimer env k) (ours : same_fd k fds.timer_fd ≡ true)
      (other : same_fd k fds.session_tim_fd ≡ false) (last : ℕ)
      (escape : (u : Trace) → keys u ≡ last → env.key u ≡ 27) (rounds n : ℕ)
      (enough : n + suc rounds ≡ last) where
    -- For a lawful libavtp, let a talker have run for any number of rounds, from a history in
    -- which nothing has been sent, and nothing read that was not, where its socket and its sound
    -- card can be opened and the settings that the sound card leaves fit the header. Where for a
    -- listener memory and timers are available, the packet timer is reported ready only if it is
    -- armed, with one expiration to read then, the key is escape once the keyboard has been read
    -- `last` times, and whenever the socket is reported ready, a whole packet of the talker is
    -- read that is not late, from a position that rises by 1 to 256 from packet to packet; and
    -- where the listener's descriptors and sound card can be opened, the session timer is not the
    -- packet timer, the sound card leaves the settings that the talker's has left, and no packet
    -- has been asked for, nothing played and the packet timer not armed before: then a run of the
    -- listener, with as many rounds as there are reads left, at least one, comes to the end behind
    -- its loop, with the packets at those positions received and the samples of each handed to the
    -- sound card or queued, in order. What then follows depends on the number of packets received:
    -- with none it faults, with one it divides by zero, and with two or more it returns 0 with the
    -- attributes found at the start given to the terminal and exactly the three descriptors of the
    -- session closed, having printed how many packets have come and, modulo 2 ^ 32, how many of
    -- the talker's between the first and the last have not.
    pub broadcast-Closes :
        (interface : List ℕ) (before : Settings) (adev : List ℕ) (rec_time : ℤ) (t v w : Trace)
        → Idle env k n t
        → open_all env interface (after_setup env t) ≡ done (some fds) v
        → Alsa.setup env formats adev false before v ≡ done set w
        → Closes index
            (λ m. get_elem? sent (index m))
            env
            a
            fl
            (found env t)
            fds
            set
            filename
            (suc rounds)
            (avb_aaf_listener env a fl formats
              (suc rounds)
              interface
              before
              adev
              rec_time
              filename
              t)
    broadcast-Closes =
        avb_aaf_listener-Closes index rising near (λ m. get_elem? sent (index m)) env healthy a fl
          formats fds set filename
          (λ u ready.
            broadcast-Arrives talking a fl formats talk_rounds ifname macaddr priority talk_before
              talk_adev buffer start laws set fits on env fds index _ (delivers u ready))
          k honest ours other last escape rounds n enough

-- ===== src/Talker/Broadcast.antt =====
-- What a whole run of the talker has sent.
use tram.Prelude.{ℕ, ◌≡◌, Bool, true, false, some, List, [], ◌∷◌, ◌++◌, ℤ, is_neg, inl, arith}
use tram.Sys.{SockAddr, Line, Env, Trace, Outcome, done, exited, faulted, and_then, Termios, print}
use tram.Sys.Outcomes.{Gives, Returns, Returns-bind}
use tram.Terminal.{found, after_setup, term_nonblock_setup}
use tram.Settings.{Settings, Floats}
use tram.Socket.{eth_p_tsn, create_talker_socket, setup_socket_address}
use tram.Avtp.{Avtp, IsLawful}
use tram.Alsa
use tram.Alsa.{PcmFormats}
use tram.Reports.{print_all, print_settings, settings_lines}
use tram.Packet.{init_pdu}
use tram.Packet.RoundTrip.{FitsHeader, init_pdu_lem}
use tram.Talker.{Next, again, leave, finish, stop, transmit, connect, avb_aaf_talker}
use tram.Talker.Packets.{sends, Conforms, Ended, loop-Conforms}
use tram.Talker.Relay.{captured, relayed, Relays, Relayed, loop-Relayed}
use tram.Talker.Overflow.{Overflows}

-- nothing has been sent, and nothing read that was not
abbrev pub Silent : Env → Trace → Type 0
Silent env t = (sends t ≡ 0) × (captured env t ≡ relayed t)

module _ (env : Env) where
  create_talker_socket-Silent :
      (priority : ℤ) (t : Trace)
      → Silent env t
      → Gives (λ _ u. Silent env u) (create_talker_socket env priority t)
  unfolding create_talker_socket
  create_talker_socket-Silent priority t silent = ground arith

  setup_socket_address-Silent :
      (fd : ℤ) (ifname macaddr : List ℕ) (protocol : ℕ) (t : Trace)
      → Silent env t
      → Gives (λ _ u. Silent env u) (setup_socket_address env fd ifname macaddr protocol t)
  unfolding setup_socket_address
  setup_socket_address-Silent fd ifname macaddr protocol t silent = ground arith

  setup-Silent :
      (formats : PcmFormats) (device : List ℕ) (is_recorder : Bool) (set : Settings) (t : Trace)
      → Silent env t
      → Gives (λ _ u. Silent env u) (Alsa.setup env formats device is_recorder set t)
  unfolding Alsa.setup
  setup-Silent formats device is_recorder set t silent = ground arith

  print_all-Silent :
      (lines : List Line) (t : Trace)
      → Silent env t
      → Returns (λ _ u. Silent env u) (print_all lines t)
  print_all-Silent [] t silent = silent
  print_all-Silent (line ∷ lines) t silent = print_all-Silent lines (print line ∷ t) silent

-- From a history in which nothing has been sent or read, the socket and the sound card can be
-- opened, and the sound card leaves the settings `set`.
pub record OnAir (env : Env) (formats : PcmFormats) (ifname macaddr : List ℕ) (priority : ℤ)
    (before : Settings) (adev : List ℕ) (set : Settings) (t : Trace) : Type 0 where
  pub silent : Silent env t
  pub fd : ℤ
  pub after_socket : Trace
  pub opened : create_talker_socket env priority (after_setup env t) ≡ done fd after_socket
  pub is_open : is_neg fd ≡ false
  pub address : SockAddr
  pub after_address : Trace
  pub addressed :
      setup_socket_address env fd ifname macaddr eth_p_tsn after_socket
      ≡ done (some address) after_address
  pub after_card : Trace
  pub set_up : Alsa.setup env formats adev true before after_address ≡ done set after_card

-- The packets of a run, and the samples in them; the run returns, or stops with a fault at a read
-- that overflows.
abbrev pub Broadcasts : Env → Avtp → Settings → {A : Type 0} → Outcome A → Type 0
Broadcasts env a set (done r t) = Conforms env a set t × Relays env t
Broadcasts env a set (exited c t) = ⊥
Broadcasts env a set (faulted f t) =
    Overflows env a set f t
    × Conforms env a set t
    × (captured env t ≡ relayed t ++ (env.audio t ∷ []))

module _ (env : Env) (a : Avtp) (laws : IsLawful a) (fl : Floats) (formats : PcmFormats)
    (set : Settings) (fits : FitsHeader set) where
  -- the end of the loop, and what follows it
  stop-Broadcasts :
      (term_old_set : Termios) (fd : ℤ) (r : Outcome Next)
      → Ended env a set r
      → Relayed env a set r
      → Broadcasts env a set (and_then r (stop term_old_set fd))
  unfolding stop finish Alsa.close
  stop-Broadcasts term_old_set fd (done (again st) u) ready even = (ready.conforms, inl even)
  stop-Broadcasts term_old_set fd (done (leave res) u) c relays = (c, relays)
  stop-Broadcasts term_old_set fd (exited c u) h relays = absurd h
  stop-Broadcasts term_old_set fd (faulted f u) (over, c) (_, pending) = (over, c, pending)

  transmit-Broadcasts :
      (term_old_set : Termios) (fd : ℤ) (address : SockAddr) (rounds : ℕ) (buffer : List ℕ)
      (t : Trace)
      → Silent env t
      → Broadcasts env a set
          (transmit env a term_old_set fd address set rounds (init_pdu a buffer set) t)
  unfolding transmit
  transmit-Broadcasts term_old_set fd address rounds buffer t (none_sent, even) =
      let written = init_pdu_lem a laws set buffer in
      rw (written, transmit)
        (stop-Broadcasts term_old_set fd _
          (loop-Conforms env a laws fd address set fits buffer _ rounds t written none_sent)
          (loop-Relayed env a fd address set rounds _ t even))

  -- For a lawful libavtp, from a history in which nothing has been sent, and nothing read that was
  -- not, where the socket and the sound card can be opened and the settings that the sound card
  -- leaves fit the header, a run of the talker, in any number of rounds, returns, or stops with a
  -- fault at a read of more bytes than the PDU has behind its header. Each packet that it has sent
  -- is one that a listener of those settings accepts when it expects the number of packets sent
  -- before, modulo 256, and carries that number and the low word of the time, in nanoseconds, that
  -- the clock read before it gives when the transit time is added; and the payloads are the
  -- buffers read from the sound card, in order and each once, all of them or all but the last,
  -- which after a fault is the one that does not fit.
  pub avb_aaf_talker-Broadcasts :
      (rounds : ℕ) (ifname macaddr : List ℕ) (priority : ℤ) (before : Settings)
      (adev buffer : List ℕ) (t : Trace)
      → OnAir env formats ifname macaddr priority before adev set t
      → Broadcasts env a set
          (avb_aaf_talker env a fl formats rounds ifname macaddr priority before adev buffer t)
  unfolding avb_aaf_talker term_nonblock_setup connect print_settings
  avb_aaf_talker-Broadcasts rounds ifname macaddr priority before adev buffer t on =
      let silent_u : Silent env on.after_socket =
        rw on.opened at (create_talker_socket-Silent env priority (after_setup env t) on.silent) in
      let silent_v : Silent env on.after_address =
        rw on.addressed at (
          setup_socket_address-Silent env on.fd ifname macaddr eth_p_tsn on.after_socket
            silent_u) in
      let silent_w : Silent env on.after_card =
        rw on.set_up at (setup-Silent env formats adev true before on.after_address silent_v) in
      rw (on.opened, on.is_open, on.addressed, on.set_up)
        (Returns-bind (λ _ x. Silent env x) (Broadcasts env a set)
          (print_all (settings_lines fl set true) on.after_card) _
          (print_all-Silent env (settings_lines fl set true) on.after_card silent_w)
          λ _ x silent_x.
            transmit-Broadcasts (found env t) on.fd on.address rounds buffer x silent_x)

-- ===== src/Network/Feeds.antt =====
-- What any run of the talker has read from its sound card and sent, however it ends.
use tram.Prelude.{
  ℕ, ◌≡◌, ◌∙◌, true, Option, none, some, List, ℤ, is_neg, map, sym, ap, Bool-cases, inl, inr, arith,
}
use tram.Sys.{SockAddr, Env, Trace, Outcome, done, exited, faulted, and_then, Termios}
use tram.Sys.Outcomes.{is_calm, is_calm-is_idle, Only-weaken, Makes}
use tram.Terminal.{found, after_setup, term_nonblock_setup}
use tram.Settings.{Settings, Floats}
use tram.Reports.{print_settings, print_settings-Makes}
use tram.Socket.{eth_p_tsn, create_talker_socket, setup_socket_address}
use tram.Avtp.{Avtp}
use tram.Packet.{init_pdu}
use tram.Alsa
use tram.Alsa.{PcmFormats}
use tram.Alsa.Calls.{setup-Makes}
use tram.Talker.{Next, again, leave, stop, finish, transmit, connect, loop, avb_aaf_talker}
use tram.Talker.Calls.{setup_socket_address-Makes}
use tram.Talker.Relay.{Relays, captured, relayed, Relayed, loop-Relayed}
use tram.Network.{history, history-bind, history-Makes}
use tram.Network.Idle.{Same-Only}

module _ (env : Env) where
  -- all that has been read has been sent
  abbrev Even : Trace → Type 0
  Even t = captured env t ≡ relayed t

  calm-Even :
      {A : Type 0} (t : Trace) (r : Outcome A) → Makes is_calm t r → Even t → Even (history r)
  calm-Even t r calls even =
      let same = Same-Only env (Only-weaken is_calm-is_idle (history-Makes is_calm t r calls)) in
      same.same_captured ∙ (even ∙ sym (ap (map (λ pdu. pdu.avtp_payload)) same.same_sent))

  create_talker_socket-Even :
      (priority : ℤ) (t : Trace) → Even t → Even (history (create_talker_socket env priority t))
  unfolding create_talker_socket
  create_talker_socket-Even priority t even = ground arith

  stop-Relays :
      (a : Avtp) (set : Settings) (term_old_set : Termios) (fd : ℤ) (r : Outcome Next)
      → Relayed env a set r
      → Relays env (history (and_then r (stop term_old_set fd)))
  unfolding stop finish Alsa.close
  stop-Relays a set term_old_set fd (done (again st) u) even = inl even
  stop-Relays a set term_old_set fd (done (leave res) u) relays = relays
  stop-Relays a set term_old_set fd (exited c u) h = absurd h
  stop-Relays a set term_old_set fd (faulted f u) (_, pending) = inr (env.audio u, pending)

  module _ (a : Avtp) (fl : Floats) (formats : PcmFormats) (rounds : ℕ) where
    transmit-Relays :
        (term_old_set : Termios) (fd : ℤ) (address : SockAddr) (set : Settings)
        (header : Option (List ℕ)) (t : Trace)
        → Even t
        → Relays env (history (transmit env a term_old_set fd address set rounds header t))
    unfolding transmit finish Alsa.close
    transmit-Relays term_old_set fd address set none t even = inl even
    transmit-Relays term_old_set fd address set (some header) t even =
        stop-Relays a set term_old_set fd (loop env a fd address set rounds _ t)
          (loop-Relayed env a fd address set rounds _ t even)

    connect-Relays :
        (term_old_set : Termios) (set : Settings) (adev buffer : List ℕ) (fd : ℤ)
        (address : Option SockAddr) (t : Trace)
        → Even t
        → Relays env
            (history (connect env a fl formats term_old_set rounds set adev buffer fd address t))
    unfolding connect finish Alsa.close
    connect-Relays term_old_set set adev buffer fd none t even = inl even
    connect-Relays term_old_set set adev buffer fd (some address) t even =
        history-bind Even (Relays env) (Alsa.setup env formats adev true set t) _
          (calm-Even t _ (setup-Makes env formats adev true set t) even) (λ u even. inl even)
          λ set' u even.
            history-bind Even (Relays env) (print_settings fl set' true u) _
              (calm-Even u _ (print_settings-Makes fl set' true u) even) (λ v even. inl even)
              λ _ v even.
                transmit-Relays term_old_set fd address set' (init_pdu a buffer set') v even

    -- For any libavtp and however the run ends: from a history in which each buffer read has been
    -- sent, the payloads that the talker has sent are the buffers read, all of them or all but the
    -- last.
    pub avb_aaf_talker-Relays :
        (ifname macaddr : List ℕ) (priority : ℤ) (set : Settings) (adev buffer : List ℕ) (t : Trace)
        → captured env t ≡ relayed t
        → Relays env (
            history
              (avb_aaf_talker env a fl formats rounds ifname macaddr priority set adev buffer t))
    unfolding avb_aaf_talker term_nonblock_setup
    avb_aaf_talker-Relays ifname macaddr priority set adev buffer t even =
        history-bind Even (Relays env) (create_talker_socket env priority (after_setup env t)) _
          (create_talker_socket-Even priority (after_setup env t) even) (λ u even. inl even)
          λ fd u even. elim (Bool-cases (is_neg fd)) [
            | inl failed ↦ rw failed (inl even)
            | inr got ↦ rw got (
                history-bind Even (Relays env)
                  (setup_socket_address env fd ifname macaddr eth_p_tsn u) _
                  (calm-Even u _ (setup_socket_address-Makes env fd ifname macaddr eth_p_tsn u)
                    even)
                  (λ v even. inl even)
                  λ address v even. connect-Relays (found env t) set adev buffer fd address v even)
          ]

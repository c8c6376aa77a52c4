-- ===== src/Listener/Passed.antt =====
-- A packet of another stream is passed over.
use tram.Prelude.{ℕ, ◌≡◌, ◌==◌, ==_iff, false, List, pos, Bool-cases, inl, inr}
use tram.Sys.{Env, Trace, done}
use tram.Settings.{Settings}
use tram.Avtp.{Avtp}
use tram.Packet.{is_valid_packet}
use tram.Packet.Accept.{InStream, is_valid_packet_iff, is_valid_packet-other}
use tram.Listener.{State, Fds, new_packet}
use tram.Listener.Packets.{after_recv, Delivered}

module _ (a : Avtp) (pdu : List ℕ) (set : Settings) (expected : ℕ)
    (foreign : ¬ InStream a pdu set) where
  refused : (is_valid_packet a pdu set expected).0 ≡ false
  refused = elim (Bool-cases (is_valid_packet a pdu set expected).0) [
    | inl good ↦ absurd (foreign ((is_valid_packet_iff a pdu set expected).0 good).0)
    | inr bad ↦ bad
  ]

  unmoved : (is_valid_packet a pdu set expected).1 ≡ expected
  unmoved = elim (Bool-cases ((is_valid_packet a pdu set expected).1 == expected)) [
    | inl same ↦ (==_iff _ _).0 same
    | inr moved ↦
        absurd
          (foreign (is_valid_packet-other a pdu set expected (λ e. cc ((==_iff _ _).1 e, moved))))
  ]

module _ (env : Env) (a : Avtp) (fds : Fds) (set : Settings) (st : State) (t : Trace) where
  -- A whole packet that is not of this stream makes `new_packet` return 0 and changes nothing, the
  -- number expected included.
  pub new_packet-foreign :
      Delivered env fds set t
      → ¬ InStream a (env.packet (after_recv fds set t)).header set
      → new_packet env a fds set st t ≡ done (pos 0, st) (after_recv fds set t)
  unfolding new_packet
  new_packet-foreign delivered foreign =
      let header : List ℕ = (env.packet (after_recv fds set t)).header in
      rw (
        delivered.clock_read,
        delivered.whole,
        refused a header set st.expected_seq foreign,
        unmoved a header set st.expected_seq foreign,
      )

-- ===== src/Talker/Calls.antt =====
-- Which kinds of calls the talker makes between its start and its end.
use tram.Prelude.{
  take, ℕ, zero, suc, ◌==◌, List, ◌∷◌, ℤ, is_neg, Bool-cases, Option-cases, inl, inr, refl,
}
use tram.Sys.{SockAddr, Pdu, Env, Trace, sendto, read_key, clock_gettime, get_ifindex}
use tram.Sys.Outcomes.{
  is_local, is_quiet, is_calm, is_quiet-is_local, here, next, Makes, Makes-bind, Makes-after,
  Makes-weaken,
}
use tram.Settings.{Settings}
use tram.Time.{calculate_avtp_time}
use tram.Socket.{setup_socket_address}
use tram.Avtp.{Avtp}
use tram.Alsa
use tram.Alsa.Calls.{read-Makes}
use tram.Packet.{stamp_pdu}
use tram.Talker.{payload_size, State, again, leave, send, send_at, timed, step, continue_with, loop}

module _ (env : Env) where
  pub setup_socket_address-Makes :
      (fd : ℤ) (ifname macaddr : List ℕ) (protocol : ℕ) (t : Trace)
      → Makes is_calm t (setup_socket_address env fd ifname macaddr protocol t)
  unfolding setup_socket_address
  setup_socket_address-Makes fd ifname macaddr protocol t =
      elim (Bool-cases (is_neg (env.ret (get_ifindex fd ifname ∷ t)))) [
        | inl failed ↦ rw failed (next _ refl here)
        | inr found ↦ rw found (next _ refl here)
      ]

  module _ (a : Avtp) (fd : ℤ) (address : SockAddr) (set : Settings) where
    send-Makes :
        (st : State) (payload : List ℕ) (t : Trace)
        → Makes is_local t (send env a fd address set st payload t)
    unfolding send
    send-Makes st payload t =
        let pdu : Pdu = record {
          header = st.header;
          avtp_payload = take (payload_size a set) payload;
        } in
        let u : Trace = sendto fd pdu set.pdu_size address ∷ t in
        elim (Bool-cases (is_neg (env.ret u))) [
          | inl failed ↦ rw failed (next _ refl here)
          | inr fine ↦ rw fine (elim (Bool-cases (env.key (read_key ∷ u) == 27)) [
            | inl escape ↦ rw escape (next _ refl (next _ refl here))
            | inr other ↦ rw other (next _ refl (next _ refl here))
          ])
        ]

    send_at-Makes :
        (st : State) (payload : List ℕ) (avtp_time : ℕ) (t : Trace)
        → Makes is_local t (send_at env a fd address set st payload avtp_time t)
    unfolding send_at
    send_at-Makes st payload avtp_time t =
        elim (Option-cases (stamp_pdu a st.header avtp_time st.seq_num)) [
          | inl e ↦ rw (e, send_at) here
          | inr (header, e) ↦ rw (e, send_at) (send-Makes _ payload t)
        ]

    timed-Makes :
        (st : State) (payload : List ℕ) (t : Trace)
        → Makes is_local t (timed env a fd address set st payload t)
    unfolding timed calculate_avtp_time
    timed-Makes st payload t =
        let u : Trace = clock_gettime ∷ t in
        elim (Bool-cases (is_neg (env.ret u))) [
          | inl failed ↦ rw failed (next _ refl here)
          | inr fine ↦
              rw fine (Makes-after is_local t u _ (next _ refl here) (send_at-Makes st payload _ u))
        ]

    step-Makes : (st : State) (t : Trace) → Makes is_local t (step env a fd address set st t)
    unfolding step
    step-Makes st t =
        Makes-bind is_local t (Alsa.read env (payload_size a set) set.frames_per_pdu t) _
          (Makes-weaken is_quiet is_local t _ is_quiet-is_local
            (read-Makes env (payload_size a set) set.frames_per_pdu t))
          λ payload u. timed-Makes st payload u

    pub loop-Makes :
        (rounds : ℕ) (st : State) (t : Trace)
        → Makes is_local t (loop env a fd address set rounds st t)
    unfolding loop
    loop-Makes zero st t = here
    loop-Makes (suc rounds) st t =
        Makes-bind is_local t (step env a fd address set st t) _ (step-Makes st t) λ n u.
          elim n as (λ n. Makes is_local u (continue_with (loop env a fd address set rounds) n u)) [
            | again st' ↦ loop-Makes rounds st' u
            | leave res ↦ here
          ]

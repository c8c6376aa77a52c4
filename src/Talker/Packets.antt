-- ===== src/Talker/Packets.antt =====
-- The packets that the talker's loop puts on the network, in the order sent.
use tram.Prelude.{
  ℕ, zero, suc, ◌+◌, ◌*◌, ◌%◌, u64, ◌^◌, ◌≡◌, ◌==◌, u8, take, true, some, List, [], ◌∷◌, ℤ, is_neg,
  Bool-cases, inl, inr, refl, arith, ap, ◌∙◌,
}
use tram.Sys.{
  Timespec, SockAddr, Pdu, Env, Trace, Outcome, done, exited, faulted, M, and_then, sendto,
  read_key, clock_gettime, pcm_readi, pcm_prepare,
}
use tram.Settings.{Settings, nsec_per_sec, nsec_per_msec}
use tram.Time.{calculate_avtp_time}
use tram.Avtp.{Avtp, IsLawful, seq_num, timestamp}
use tram.Alsa.Calls.{read-bind}
use tram.Packet.{init_pdu, is_valid_packet}
use tram.Packet.RoundTrip.{
  FitsHeader, Sent, initial, next, stamped, stamp_pdu_lem, is_valid_packet-stamp_pdu,
}
use tram.Talker.{
  State, Next, again, leave, payload_size, send, send_at, timed, step, continue_with, loop,
}
use tram.Talker.Overflow.{Overflows}

-- the packets sent so far
abbrev pub sends : Trace → ℕ
sends [] = 0
sends (sendto fd pdu size address ∷ t) = suc (sends t)
sends (_ ∷ t) = sends t

-- the low word of the time, the transit time after `stamp`, in nanoseconds
abbrev pub due : Settings → (stamp : Timespec) → ℕ
due set stamp =
    u64 (
      u64 (u64 (stamp.tv_sec * nsec_per_sec) + u64 (set.max_transit_time * nsec_per_msec))
      + stamp.tv_nsec)
    % 2 ^ 32

-- Each packet sent is accepted by a listener that has the same settings and has followed the
-- stream, and makes this listener expect the next one; it carries the low byte of its position, and
-- the low word of the time at which the samples are due.
abbrev pub Conforms : Env → Avtp → Settings → Trace → Type 0
Conforms env a set [] = Unit
Conforms env a set (sendto fd pdu size address ∷ t) =
    (is_valid_packet a pdu.header set (u8 (sends t)) ≡ (true, u8 (sends t + 1)))
    × (a.aaf_get pdu.header seq_num ≡ some (u8 (sends t)))
    × (a.aaf_get pdu.header timestamp ≡ some (due set (env.clock t)))
    × Conforms env a set t
Conforms env a set (_ ∷ t) = Conforms env a set t

none_sent : (env : Env) (a : Avtp) (set : Settings) (t : Trace) → sends t ≡ 0 → Conforms env a set t
none_sent env a set [] none_yet = tt
none_sent env a set (sendto fd pdu size address ∷ t) none_yet = absurd (omega (arith, none_yet))
none_sent env a set (_ ∷ t) none_yet = none_sent env a set t none_yet

-- the state between two rounds
pub record Ready (env : Env) (a : Avtp) (set : Settings) (st : State) (t : Trace) : Type 0 where
  pub sent : Sent a set st.header
  pub seq_is : st.seq_num ≡ u8 (sends t)
  pub conforms : Conforms env a set t

-- A run that ends by itself or with a read that overflows, and has sent such packets only.
abbrev pub Ended : Env → Avtp → Settings → Outcome Next → Type 0
Ended env a set (done (again st) u) = Ready env a set st u
Ended env a set (done (leave res) u) = Conforms env a set u
Ended env a set (exited c u) = ⊥
Ended env a set (faulted f u) = Overflows env a set f u × Conforms env a set u

module _ (env : Env) (a : Avtp) (laws : IsLawful a) (fd : ℤ) (address : SockAddr) (set : Settings)
    (fits : FitsHeader set) where
  send-Ended :
      (st : State) (payload : List ℕ) (t : Trace)
      → Sent a set st.header
      → st.seq_num ≡ u8 (sends t + 1)
      → is_valid_packet a st.header set (u8 (sends t)) ≡ (true, u8 (sends t + 1))
      → a.aaf_get st.header seq_num ≡ some (u8 (sends t))
      → a.aaf_get st.header timestamp ≡ some (due set (env.clock t))
      → Conforms env a set t
      → Ended env a set (send env a fd address set st payload t)
  unfolding send
  send-Ended st payload t sent seq valid numbered timed_at c =
      let pdu : Pdu = record {
        header = st.header;
        avtp_payload = take (payload_size a set) payload;
      } in
      let u : Trace = sendto fd pdu set.pdu_size address ∷ t in
      elim (Bool-cases (is_neg (env.ret u))) [
        | inl failed ↦ rw failed (valid, numbered, timed_at, c)
        | inr fine ↦ rw fine (elim (Bool-cases (env.key (read_key ∷ u) == 27)) [
          | inl escape ↦ rw escape (valid, numbered, timed_at, c)
          | inr other ↦ rw other (record {
            sent = sent;
            seq_is = omega (arith, seq);
            conforms = (valid, numbered, timed_at, c);
          })
        ])
      ]

  -- the part of a round behind the clock
  send_at-Ended :
      (st : State) (payload : List ℕ) (avtp_time : ℕ) (t : Trace)
      → avtp_time ≡ due set (env.clock t)
      → Ready env a set st t
      → Ended env a set (send_at env a fd address set st payload avtp_time t)
  unfolding send_at
  send_at-Ended st payload avtp_time t due_is ready =
      let e = stamp_pdu_lem a laws set st.header avtp_time st.seq_num in
      let after : u8 (st.seq_num + 1) ≡ u8 (sends t + 1) = rw (ready.seq_is) (omega arith) in
      let valid =
        is_valid_packet-stamp_pdu a laws set fits avtp_time st.seq_num (u8 (sends t)) ready.sent e
          (omega (arith, due_is)) (omega (arith, ready.seq_is)) in
      rw (e, send_at)
        (send-Ended
          (record {
            header = stamped a laws set st.header avtp_time st.seq_num;
            seq_num = u8 (st.seq_num + 1);
          })
          payload t (next avtp_time st.seq_num ready.sent e) after
          (valid.0 ∙ ap (λ n. (true, n)) after) (valid.2 ∙ ap some ready.seq_is)
          (valid.1 ∙ ap some due_is) ready.conforms)

  -- the part of a round behind the samples
  timed-Ended :
      (st : State) (payload : List ℕ) (t : Trace)
      → Ready env a set st t
      → Ended env a set (timed env a fd address set st payload t)
  unfolding timed calculate_avtp_time
  timed-Ended st payload t ready =
      let u : Trace = clock_gettime ∷ t in
      elim (Bool-cases (is_neg (env.ret u))) [
        | inl failed ↦ rw failed ready.conforms
        | inr fine ↦ rw fine (
            send_at-Ended st payload _ u refl
              (record { sent = ready.sent; seq_is = ready.seq_is; conforms = ready.conforms }))
      ]

  step-Ended :
      (st : State) (t : Trace)
      → Ready env a set st t
      → Ended env a set (step env a fd address set st t)
  unfolding step
  step-Ended st t ready =
      let u : Trace = pcm_readi set.frames_per_pdu ∷ t in
      read-bind (Ended env a set) env (payload_size a set) set.frames_per_pdu
        (timed env a fd address set st) t (λ long. ((refl, t, refl, long), ready.conforms))
        λ short. (
          timed-Ended st (env.audio u) u
              (record { sent = ready.sent; seq_is = ready.seq_is; conforms = ready.conforms }),
          timed-Ended st (env.audio u) (pcm_prepare ∷ u)
              (record { sent = ready.sent; seq_is = ready.seq_is; conforms = ready.conforms }),
        )

  onward :
      (f : State → M Next)
      → ((st : State) (t : Trace) → Ready env a set st t → Ended env a set (f st t))
      → (r : Outcome Next) → Ended env a set r
      → Ended env a set (and_then r (continue_with f))
  onward f ends (done (again st) u) ready = ends st u ready
  onward f ends (done (leave res) u) c = c
  onward f ends (exited _ _) c = absurd c
  onward f ends (faulted _ _) c = c

  loop_from :
      (rounds : ℕ) (st : State) (t : Trace)
      → Ready env a set st t
      → Ended env a set (loop env a fd address set rounds st t)
  unfolding loop
  loop_from zero st t ready = ready
  loop_from (suc rounds) st t ready =
      onward (loop env a fd address set rounds) (loop_from rounds) (step env a fd address set st t)
        (step-Ended st t ready)

  -- For a lawful libavtp and settings that fit the header, the talker's loop, started with the
  -- header of `init_pdu` and number 0 on a history that has sent no packet, ends every number of
  -- rounds without an exit, and without a fault but that of a read of more bytes than the PDU has
  -- behind its header; and it has sent only packets that a listener of the same settings accepts:
  -- one that expects the number of packets sent before, modulo 256, accepts the packet and then
  -- expects the next; and each packet carries that number, and the low word of the time, in
  -- nanoseconds, that the clock read before it gives when the transit time is added.
  pub loop-Conforms :
      (pdu header : List ℕ) (rounds : ℕ) (t : Trace)
      → init_pdu a pdu set ≡ some header
      → sends t ≡ 0
      → Ended env a set
          (loop env a fd address set rounds (record { header = header; seq_num = 0 }) t)
  loop-Conforms pdu header rounds t e none_yet = loop_from rounds _ t (record {
    sent = initial pdu e;
    seq_is = rw none_yet refl;
    conforms = none_sent env a set t none_yet;
  })

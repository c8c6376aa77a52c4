-- ===== src/Talker/Leaves.antt =====
-- The talker's loop ends when the escape key is read.
use tram.Prelude.{
  ℕ, zero, suc, take, ◌+◌, ◌≡◌, ◌==◌, false, List, ◌∷◌, ℤ, is_neg, Bool-cases, Option-cases, inl,
  inr, refl, arith, ==_iff,
}
use tram.Sys.{
  SockAddr, Pdu, Env, Trace, Outcome, done, exited, faulted, M, and_then, sendto, read_key,
  clock_gettime, pcm_readi, pcm_prepare,
}
use tram.Sys.Descriptors.{keys}
use tram.Settings.{Settings}
use tram.Time.{calculate_avtp_time}
use tram.Avtp.{Avtp}
use tram.Alsa.Calls.{read-bind}
use tram.Alsa.Setup.{IsSized}
use tram.Packet.{stamp_pdu}
use tram.Talker.{
  State, Next, again, leave, payload_size, send, send_at, timed, step, continue_with, loop,
}
use tram.Talker.Overflow.{Overflows, Transfers, never-Overflows}

-- the run has left the loop
abbrev pub Finished : Outcome Next → Type 0
Finished (done (again st) u) = ⊥
Finished (done (leave res) u) = Unit
Finished (exited c u) = ⊥
Finished (faulted f u) = ⊥

module _ (env : Env) (a : Avtp) (set : Settings) where
  -- The run has left the loop, or stopped at a read that overflows.
  abbrev pub Halted : Outcome Next → Type 0
  Halted (done (again st) u) = ⊥
  Halted (done (leave res) u) = Unit
  Halted (exited c u) = ⊥
  Halted (faulted f u) = Overflows env a set f u

  Halted-Finished :
      (r : Outcome Next) → Transfers env set → IsSized a.sizeof_pdu set → Halted r → Finished r
  Halted-Finished (done (again st) u) transfers sized halted = halted
  Halted-Finished (done (leave res) u) transfers sized halted = halted
  Halted-Finished (exited c u) transfers sized halted = halted
  Halted-Finished (faulted f u) transfers sized halted =
      absurd (never-Overflows env a set f u transfers sized halted)

  -- A round that goes on has read the keyboard once, and not the escape key.
  abbrev Read : ℕ → Outcome Next → Type 0
  Read n (done (again st) u) = (keys u ≡ suc n) × ((env.key u == 27) ≡ false)
  Read n (done (leave res) u) = Unit
  Read n (exited c u) = ⊥
  Read n (faulted f u) = Overflows env a set f u

  module _ (fd : ℤ) (address : SockAddr) where
    send-Read :
        (st : State) (payload : List ℕ) (t : Trace)
        → Read (keys t) (send env a fd address set st payload t)
    unfolding send
    send-Read st payload t =
        let pdu : Pdu = record {
          header = st.header;
          avtp_payload = take (payload_size a set) payload;
        } in
        let u : Trace = sendto fd pdu set.pdu_size address ∷ t in
        elim (Bool-cases (is_neg (env.ret u))) [
          | inl failed ↦ rw failed tt
          | inr fine ↦ rw fine (elim (Bool-cases (env.key (read_key ∷ u) == 27)) [
            | inl escape ↦ rw escape tt
            | inr other ↦ rw other (refl, other)
          ])
        ]

    send_at-Read :
        (st : State) (payload : List ℕ) (avtp_time : ℕ) (t : Trace)
        → Read (keys t) (send_at env a fd address set st payload avtp_time t)
    unfolding send_at
    send_at-Read st payload avtp_time t =
        elim (Option-cases (stamp_pdu a st.header avtp_time st.seq_num)) [
          | inl e ↦ rw (e, send_at) tt
          | inr (header, e) ↦ rw (e, send_at) (send-Read _ payload t)
        ]

    timed-Read :
        (st : State) (payload : List ℕ) (t : Trace)
        → Read (keys t) (timed env a fd address set st payload t)
    unfolding timed calculate_avtp_time
    timed-Read st payload t =
        let u : Trace = clock_gettime ∷ t in
        elim (Bool-cases (is_neg (env.ret u))) [
          | inl failed ↦ rw failed tt
          | inr fine ↦ rw fine (send_at-Read st payload _ u)
        ]

    step-Read : (st : State) (t : Trace) → Read (keys t) (step env a fd address set st t)
    unfolding step
    step-Read st t =
        let u : Trace = pcm_readi set.frames_per_pdu ∷ t in
        read-bind (Read (keys t)) env (payload_size a set) set.frames_per_pdu
          (timed env a fd address set st) t (λ long. (refl, t, refl, long))
          λ short. (timed-Read st (env.audio u) u, timed-Read st (env.audio u) (pcm_prepare ∷ u))

    module _ (last : ℕ) (escape : (u : Trace) → keys u ≡ last → env.key u ≡ 27) where
      onward :
          (f : State → M Next) (n : ℕ)
          → ((st : State) (u : Trace)
              → keys u ≡ suc n
              → (env.key u == 27) ≡ false
              → Halted (f st u))
          → (r : Outcome Next) → Read n r
          → Halted (and_then r (continue_with f))
      onward f n ends (done (again st) u) (read, other) = ends st u read other
      onward f n ends (done (leave res) u) read = tt
      onward f n ends (exited c u) read = absurd read
      onward f n ends (faulted x u) read = read

      pub loop-Halted :
          (rounds : ℕ) (st : State) (t : Trace)
          → keys t + suc rounds ≡ last
          → Halted (loop env a fd address set (suc rounds) st t)
      unfolding loop
      loop-Halted zero st t e =
          onward (loop env a fd address set zero) (keys t)
            (λ st' u read other.
              absurd (cc ((==_iff (env.key u) 27).1 (escape u (omega (arith, read, e))), other)))
            (step env a fd address set st t) (step-Read st t)
      loop-Halted (suc rounds) st t e =
          onward (loop env a fd address set (suc rounds)) (keys t)
            (λ st' u read other. loop-Halted rounds st' u (omega (arith, read, e)))
            (step env a fd address set st t) (step-Read st t)

      -- Where ALSA transfers at most the frames asked for, the sizes of the settings fit the
      -- header and the period, and the key is escape once the keyboard has been read `last` times,
      -- the talker's loop leaves for its end within as many rounds as there are reads left, at
      -- least one, without a fault or an exit.
      pub loop-Finished :
          (rounds : ℕ) (st : State) (t : Trace)
          → Transfers env set
          → IsSized a.sizeof_pdu set
          → keys t + suc rounds ≡ last
          → Finished (loop env a fd address set (suc rounds) st t)
      loop-Finished rounds st t transfers sized e =
          Halted-Finished _ transfers sized (loop-Halted rounds st t e)

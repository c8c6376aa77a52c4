-- ===== src/Talker/Relay.antt =====
-- What becomes of the samples that the talker's loop reads.
use mathlib.Core.List.{map-append}
use tram.Prelude.{
  ℕ, zero, suc, ltb, false, take, length, refl, arith, ◌≡◌, ◌==◌, ◌⊎◌, inl, inr, List, [], ◌∷◌,
  ◌++◌, map, ℤ, is_neg, Bool-cases, Option-cases, ap, ◌∙◌, sym,
}
use tram.Sys.{
  SockAddr, Pdu, Env, Trace, Outcome, done, exited, faulted, M, and_then, sendto, read_key,
  clock_gettime, pcm_readi, pcm_prepare,
}
use tram.Settings.{Settings}
use tram.Time.{calculate_avtp_time}
use tram.Avtp.{Avtp}
use tram.Alsa.Calls.{read-bind}
use tram.Packet.{stamp_pdu}
use tram.Talker.{
  State, Next, again, leave, payload_size, send, send_at, timed, step, continue_with, loop,
}
use tram.Talker.Overflow.{Overflows}

-- the PDUs handed to `sendto`
abbrev pub sent_pdus : Trace → List Pdu
sent_pdus [] = []
sent_pdus (sendto fd pdu size address ∷ t) = sent_pdus t ++ (pdu ∷ [])
sent_pdus (_ ∷ t) = sent_pdus t

-- the buffers read from the sound card
abbrev pub captured : Env → Trace → List (List ℕ)
captured env [] = []
captured env (pcm_readi frames ∷ t) = captured env t ++ (env.audio (pcm_readi frames ∷ t) ∷ [])
captured env (_ ∷ t) = captured env t

-- the samples sent
abbrev pub relayed : Trace → List (List ℕ)
relayed t = map (λ pdu. pdu.avtp_payload) (sent_pdus t)

-- all that has been read has been sent, or all but the last
abbrev pub Relays : Env → Trace → Type 0
Relays env t =
    (captured env t ≡ relayed t) ⊎ ((x : List ℕ) × (captured env t ≡ relayed t ++ (x ∷ [])))

-- A run that ends by itself has sent what it has read, but the last if it has been left before
-- that; one that does not ends at a read that overflows, and has sent all before.
abbrev pub Relayed : Env → Avtp → Settings → Outcome Next → Type 0
Relayed env a set (done (again st) t) = captured env t ≡ relayed t
Relayed env a set (done (leave res) t) = Relays env t
Relayed env a set (exited c t) = ⊥
Relayed env a set (faulted f t) =
    Overflows env a set f t × (captured env t ≡ relayed t ++ (env.audio t ∷ []))

-- What is within a length is not cut by it.
take-within : (n : ℕ) (xs : List ℕ) → ltb n (length xs) ≡ false → take n xs ≡ xs
take-within zero [] within = refl
take-within (suc n) [] within = refl
take-within zero (x ∷ xs) within = absurd (ground arith)
take-within (suc n) (x ∷ xs) within = ap (λ ys. x ∷ ys) (take-within n xs (ground arith))

module _ (env : Env) (a : Avtp) (fd : ℤ) (address : SockAddr) (set : Settings) where
  send-Relayed :
      (st : State) (payload : List ℕ) (t : Trace)
      → captured env t ≡ relayed t ++ (payload ∷ [])
      → ltb (payload_size a set) (length payload) ≡ false
      → Relayed env a set (send env a fd address set st payload t)
  unfolding send
  send-Relayed st payload t pending within =
      let pdu : Pdu = record {
        header = st.header;
        avtp_payload = take (payload_size a set) payload;
      } in
      let u : Trace = sendto fd pdu set.pdu_size address ∷ t in
      let all : captured env u ≡ relayed u =
        pending
        ∙ (ap (λ x. relayed t ++ (x ∷ [])) (sym (take-within _ payload within))
            ∙ sym (map-append (λ p. p.avtp_payload) (sent_pdus t) (pdu ∷ []))) in
      elim (Bool-cases (is_neg (env.ret u))) [
        | inl failed ↦ rw failed (inl all)
        | inr fine ↦ rw fine (elim (Bool-cases (env.key (read_key ∷ u) == 27)) [
          | inl escape ↦ rw escape (inl all)
          | inr other ↦ rw other all
        ])
      ]

  send_at-Relayed :
      (st : State) (payload : List ℕ) (avtp_time : ℕ) (t : Trace)
      → captured env t ≡ relayed t ++ (payload ∷ [])
      → ltb (payload_size a set) (length payload) ≡ false
      → Relayed env a set (send_at env a fd address set st payload avtp_time t)
  unfolding send_at
  send_at-Relayed st payload avtp_time t pending within =
      elim (Option-cases (stamp_pdu a st.header avtp_time st.seq_num)) [
        | inl e ↦ rw (e, send_at) (inr (payload, pending))
        | inr (header, e) ↦ rw (e, send_at) (send-Relayed _ payload t pending within)
      ]

  timed-Relayed :
      (st : State) (payload : List ℕ) (t : Trace)
      → captured env t ≡ relayed t ++ (payload ∷ [])
      → ltb (payload_size a set) (length payload) ≡ false
      → Relayed env a set (timed env a fd address set st payload t)
  unfolding timed calculate_avtp_time
  timed-Relayed st payload t pending within =
      elim (Bool-cases (is_neg (env.ret (clock_gettime ∷ t)))) [
        | inl failed ↦ rw failed (inr (payload, pending))
        | inr fine ↦ rw fine (send_at-Relayed st payload _ (clock_gettime ∷ t) pending within)
      ]

  step-Relayed :
      (st : State) (t : Trace)
      → captured env t ≡ relayed t
      → Relayed env a set (step env a fd address set st t)
  unfolding step
  step-Relayed st t even =
      let u : Trace = pcm_readi set.frames_per_pdu ∷ t in
      let pending : captured env u ≡ relayed u ++ (env.audio u ∷ []) =
        ap (λ s. s ++ (env.audio u ∷ [])) even in
      read-bind (Relayed env a set) env (payload_size a set) set.frames_per_pdu
        (timed env a fd address set st) t (λ long. ((refl, t, refl, long), pending))
        λ short. (
          timed-Relayed st (env.audio u) u pending short,
          timed-Relayed st (env.audio u) (pcm_prepare ∷ u) pending short,
        )

  onward :
      (f : State → M Next)
      → ((st : State) (t : Trace) → captured env t ≡ relayed t → Relayed env a set (f st t))
      → (r : Outcome Next) → Relayed env a set r
      → Relayed env a set (and_then r (continue_with f))
  onward f relays (done (again st) u) even = relays st u even
  onward f relays (done (leave res) u) ended = ended
  onward f relays (exited _ _) ended = absurd ended
  onward f relays (faulted _ _) ended = ended

  -- For any libavtp, from any state and a history in which each buffer read from the sound card
  -- has been sent, the talker's loop ends every number of rounds without an exit, and without a
  -- fault but that of a read of more bytes than the PDU has behind its header; and the payloads of
  -- the PDUs handed to `sendto` are then, in this order and each once, the buffers read, except
  -- the last one read if the loop has been left before that was sent, or if that is the read at
  -- fault.
  pub loop-Relayed :
      (rounds : ℕ) (st : State) (t : Trace)
      → captured env t ≡ relayed t
      → Relayed env a set (loop env a fd address set rounds st t)
  unfolding loop
  loop-Relayed zero st t even = even
  loop-Relayed (suc rounds) st t even =
      onward (loop env a fd address set rounds) (loop-Relayed rounds)
        (step env a fd address set st t) (step-Relayed st t even)

-- ===== src/Talker/Whole.antt =====
-- `avb_aaf_talker` from its start to its end.
use tram.Prelude.{
  ℕ, ◌≡◌, ◌∙◌, true, false, Option, none, some, List, ◌∷◌, ℤ, is_neg, neg, minus_one, Bool-cases,
  inl, inr, refl,
}
use tram.Sys.{SockAddr, Env, Trace, Outcome, done, close, tc_set, pcm_drop, pcm_close}
use tram.Sys.Descriptors.{attributes, HandsOutFresh}
use tram.Sys.Outcomes.{
  is_local, is_calm, is_calm-is_local, Only, Only-trans, Only-weaken, is_open-Only, attributes-Only,
  Returns-eq, Returns-bind, Makes-then, Makes-after,
}
use tram.Sys.Conclusion.{Concluded}
use tram.Terminal.{nonblock, found, after_setup, term_nonblock_setup}
use tram.Settings.{Settings, Floats}
use tram.Reports.{print_settings, print_settings-Makes}
use tram.Socket.{eth_p_tsn, create_talker_socket}
use tram.Socket.Fresh.{Acquired, Acquired-close, create_talker_socket-Acquired}
use tram.Avtp.{Avtp}
use tram.Packet.{init_pdu}
use tram.Alsa
use tram.Alsa.{PcmFormats}
use tram.Alsa.Calls.{setup-Makes}
use tram.Talker.{Next, again, leave, stop, transmit, connect, avb_aaf_talker}
use tram.Talker.Calls.{setup_socket_address-Makes, loop-Makes}

-- the socket could not be created
abbrev pub NoSocket : (opening : Outcome ℤ) → Trace → Type 0
NoSocket opening u = (fd : ℤ) × (is_neg fd ≡ true) × (opening ≡ done fd u)

module _ (env : Env) (t : Trace) (No : Trace → Type 0) (fd : ℤ) (v : Trace)
    (acq : Acquired env (after_setup env t) fd v) (got : is_neg fd ≡ false) where
  -- the attributes of `term_nonblock_setup` are in place
  still_raw : {u : Trace} → Only is_local v u → attributes u ≡ some (nonblock (found env t))
  still_raw calls = attributes-Only calls ∙ acq.mode

  finish-Concluded :
      (res : ℤ) (u : Trace)
      → Only is_local v u
      → Concluded env t No
          (done (some (neg res)) (tc_set (found env t) ∷ close fd ∷ pcm_close ∷ pcm_drop ∷ u))
  finish-Concluded res u calls = (
    λ k. Acquired-close env _ fd v k (pcm_close ∷ pcm_drop ∷ u) acq got (is_open-Only env k calls),
    inl refl,
  )

  stop-Concluded :
      (next : Next) (u : Trace)
      → Only is_local v u
      → Concluded env t No (stop (found env t) fd next u)
  unfolding stop Alsa.close
  stop-Concluded (again st) u calls = tt
  stop-Concluded (leave res) u calls = finish-Concluded res u calls

  transmit-Concluded :
      (a : Avtp) (sk_addr : SockAddr) (set : Settings) (rounds : ℕ) (header : Option (List ℕ))
      (u : Trace)
      → Only is_local v u
      → Concluded env t No (transmit env a (found env t) fd sk_addr set rounds header u)
  unfolding transmit Alsa.close
  transmit-Concluded a sk_addr set rounds none u calls = finish-Concluded minus_one u calls
  transmit-Concluded a sk_addr set rounds (some header) u calls =
      Makes-then is_local u (Concluded env t No) _ _ (loop-Makes env a fd sk_addr set rounds _ u)
        (λ n w more. stop-Concluded n w (Only-trans calls more))
        (λ c w more. still_raw (Only-trans calls more))
        (λ f w more. still_raw (Only-trans calls more))

  connect-Concluded :
      (a : Avtp) (fl : Floats) (formats : PcmFormats) (rounds : ℕ) (set : Settings)
      (adev buffer : List ℕ) (address : Option SockAddr) (u : Trace)
      → Only is_local v u
      → Concluded env t No
          (connect env a fl formats (found env t) rounds set adev buffer fd address u)
  unfolding connect Alsa.close
  connect-Concluded a fl formats rounds set adev buffer none u calls = still_raw calls
  connect-Concluded a fl formats rounds set adev buffer (some sk_addr) u calls =
      Makes-then is_calm u (Concluded env t No) _ _ (setup-Makes env formats adev true set u)
        (λ set' w more.
          Makes-then is_calm u (Concluded env t No) (print_settings fl set' true w) _
            (Makes-after is_calm u w _ more (print_settings-Makes fl set' true w))
            (λ _ w' more.
              transmit-Concluded a sk_addr set' rounds (init_pdu a buffer set') w'
                (Only-trans calls (Only-weaken is_calm-is_local more)))
            (λ c w' more. still_raw (Only-trans calls (Only-weaken is_calm-is_local more)))
            (λ f w' more. still_raw (Only-trans calls (Only-weaken is_calm-is_local more))))
        (λ c w more. still_raw (Only-trans calls (Only-weaken is_calm-is_local more)))
        (λ f w more. still_raw (Only-trans calls (Only-weaken is_calm-is_local more)))

module _ (env : Env) (fresh : HandsOutFresh env) where
  -- If Linux hands out no descriptor that is open: a run of the talker that returns leaves open
  -- exactly what was open before, and has either given the terminal the attributes found at the
  -- start back, or returned 1 after the socket could not be created, with the attributes of
  -- `term_nonblock_setup` left in place; a run that exits or faults leaves those in place. Nothing
  -- is stated of a run that uses up its rounds inside the loop.
  pub avb_aaf_talker-Concluded :
      (a : Avtp) (fl : Floats) (formats : PcmFormats) (rounds : ℕ) (ifname macaddr : List ℕ)
      (priority : ℤ) (set : Settings) (adev buffer : List ℕ) (t : Trace)
      → Concluded env t
          (NoSocket (create_talker_socket env priority (after_setup env t)))
          (avb_aaf_talker env a fl formats rounds ifname macaddr priority set adev buffer t)
  unfolding avb_aaf_talker term_nonblock_setup
  avb_aaf_talker-Concluded a fl formats rounds ifname macaddr priority set adev buffer t =
      let t0 : Trace = after_setup env t in
      let opening = create_talker_socket env priority t0 in
      Returns-bind (λ fd u. Acquired env t0 fd u × (opening ≡ done fd u))
        (Concluded env t (NoSocket opening)) opening _
        (Returns-eq (Acquired env t0) opening (create_talker_socket-Acquired env fresh t0 priority))
        λ fd v (acq, e). elim (Bool-cases (is_neg fd)) [
          | inl failed ↦
              rw failed (λ k. rw failed at (acq.opened k), inr (refl, acq.mode, (fd, failed, e)))
          | inr got ↦ rw got (
              Makes-then is_calm v (Concluded env t (NoSocket opening)) _ _
                (setup_socket_address-Makes env fd ifname macaddr eth_p_tsn v)
                (λ address u calls.
                  connect-Concluded env t (NoSocket opening) fd v acq got a fl formats rounds set
                    adev buffer address u (Only-weaken is_calm-is_local calls))
                (λ c u calls.
                  still_raw env t (NoSocket opening) fd v acq got
                    (Only-weaken is_calm-is_local calls))
                (λ f u calls.
                  still_raw env t (NoSocket opening) fd v acq got
                    (Only-weaken is_calm-is_local calls)))
        ]

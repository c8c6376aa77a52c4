-- ===== src/Session/Whole.antt =====
-- `avb_aaf_listener` from its start to its end.
use tram.Prelude.{
  ℕ, ◌≡◌, ◌∙◌, Bool, true, false, Option, none, some, List, ◌∷◌, ℤ, pos, is_neg, neg, Bool-cases,
  inl, inr, refl, arith,
}
use tram.Sys.{
  Env, Trace, Outcome, done, exited, faulted, Fault, and_then, M, pure, close, tc_set, pcm_drop,
  pcm_close,
}
use tram.Sys.Descriptors.{attributes, HandsOutFresh}
use tram.Sys.Outcomes.{
  is_local, is_calm, is_calm-is_local, Only, here, Makes, Only-trans, Only-weaken, is_open-Only,
  attributes-Only, Returns-eq, Returns-bind, Makes-then,
}
use tram.Sys.Conclusion.{Concluded}
use tram.Reports.{print_settings, print_settings-Makes}
use tram.Terminal.{nonblock, found, after_setup, term_nonblock_setup}
use tram.Settings.{Settings, Floats}
use tram.Stats
use tram.Stats.{Handler}
use tram.Avtp.{Avtp}
use tram.Alsa
use tram.Alsa.{PcmFormats}
use tram.Alsa.Calls.{setup-Makes}
use tram.Listener.{State, Fds, Next, again, leave}
use tram.Listener.Loop.{initial}
use tram.Listener.Local.{loop-Makes}
use tram.Session.{
  finish_recording, release, report, finish, conclude, start_recording, start_session_timer,
  session, open_all, avb_aaf_listener,
}
use tram.Session.Calls.{
  clear-Makes, process_stats-Makes, finish_recording-Makes, report-Makes, start_recording-Makes,
  start_session_timer-Makes,
}
use tram.Session.Opened.{Holds, Opened, open_all-Opened}

module _ (env : Env) (t : Trace) (No : Trace → Type 0) (fds : Fds) (v : Trace)
    (own : Holds env (after_setup env t) fds v) where
  -- the history after `u`, once all has been given back
  abbrev given_back : Trace → Trace
  given_back u =
      tc_set (found env t)
      ∷ close fds.session_tim_fd
      ∷ close fds.timer_fd
      ∷ close fds.sk_fd
      ∷ pcm_close
      ∷ pcm_drop
      ∷ u

  still_raw : {u : Trace} → Only is_local v u → attributes u ≡ some (nonblock (found env t))
  still_raw calls = attributes-Only calls ∙ own.mode

  returned :
      (r : ℤ) (u : Trace) → Only is_local v u → Concluded env t No (done (some r) (given_back u))
  returned r u calls =
      (λ k. ground (arith, own.opened k, own.fresh k, is_open-Only env k calls), inl refl)

  -- the end of a first part that makes quiet calls, with what follows it
  onward :
      {A B : Type 0} (Q : Outcome B → Type 0) (u : Trace) (r : Outcome A) (f : A → M B)
      → Only is_local v u
      → Makes is_calm u r
      → ((c : ℕ) (w : Trace) → attributes w ≡ some (nonblock (found env t)) → Q (exited c w))
      → ((x : Fault) (w : Trace) → attributes w ≡ some (nonblock (found env t)) → Q (faulted x w))
      → ((a : A) (w : Trace) → Only is_local v w → Q (f a w))
      → Q (and_then r f)
  onward Q u r f calls made quits breaks after =
      Makes-then is_calm u Q r f made
        (λ a w more. after a w (Only-trans calls (Only-weaken is_calm-is_local more)))
        (λ c w more. quits c w (still_raw (Only-trans calls (Only-weaken is_calm-is_local more))))
        (λ x w more. breaks x w (still_raw (Only-trans calls (Only-weaken is_calm-is_local more))))

  -- a run of the end that gives a result
  abbrev Ended : Outcome ℤ → Type 0
  Ended r = Concluded env t No (and_then r (λ r. pure (some r)))

  release-Ended :
      (stats : Handler) (res : ℤ) (u : Trace)
      → Only is_local v u
      → Ended (release (found env t) fds stats res u)
  unfolding release Alsa.close
  release-Ended stats res u calls =
      onward Ended u (Stats.clear stats u) _ calls (clear-Makes stats u) (λ c w e. e) (λ x w e. e)
        λ _ w more. returned (neg res) w more

  finish-Ended :
      (fl : Floats) (set : Settings) (recording : Bool) (filename : List ℕ) (st : State) (u : Trace)
      → Only is_local v u
      → Ended (finish env fl (found env t) fds set recording filename st u)
  unfolding finish
  finish-Ended fl set true filename st u calls =
      onward Ended u (Stats.process_stats env fl set st.stats u) _ calls
        (process_stats-Makes env fl set st.stats u) (λ c w e. e) (λ x w e. e)
        λ (res, stats) w more.
          onward Ended w (report res stats w) _ more (report-Makes res stats w) (λ c w e. e)
            (λ x w e. e)
            λ _ y shown.
              onward Ended y (finish_recording env fl set filename stats y)
                (release (found env t) fds stats) shown
                (finish_recording-Makes env fl set filename stats y) (λ c w e. e) (λ x w e. e)
                λ res' z more. release-Ended stats res' z more
  finish-Ended fl set false filename st u calls =
      onward Ended u (Stats.process_stats env fl set st.stats u) _ calls
        (process_stats-Makes env fl set st.stats u) (λ c w e. e) (λ x w e. e)
        λ (res, stats) w more.
          onward Ended w (report res stats w) _ more (report-Makes res stats w) (λ c w e. e)
            (λ x w e. e) λ _ y shown. release-Ended stats res y shown

  conclude-Concluded :
      (fl : Floats) (set : Settings) (recording : Bool) (filename : List ℕ) (n : Next) (u : Trace)
      → Only is_local v u
      → Concluded env t No (conclude env fl (found env t) fds set recording filename n u)
  unfolding conclude
  conclude-Concluded fl set recording filename (again st) u calls = tt
  conclude-Concluded fl set recording filename (leave st) u calls =
      finish-Ended fl set recording filename st u calls

  session-Concluded :
      (a : Avtp) (fl : Floats) (formats : PcmFormats) (rounds : ℕ) (set : Settings) (adev : List ℕ)
      (rec_time : ℤ) (filename : List ℕ)
      → Concluded env t No
          (session env a fl formats (found env t) fds rounds set adev rec_time filename v)
  unfolding session
  session-Concluded a fl formats rounds set adev rec_time filename =
      onward (Concluded env t No) v (Alsa.setup env formats adev false set v) _ here
        (setup-Makes env formats adev false set v) (λ c w e. e) (λ x w e. e)
        λ set' w0 ready.
          onward (Concluded env t No) w0 (print_settings fl set' false w0) _ ready
            (print_settings-Makes fl set' false w0) (λ c w e. e) (λ x w e. e)
            λ _ w shown.
              onward (Concluded env t No) w (start_recording env set' filename w) _ shown
                (start_recording-Makes env set' filename w) (λ c w e. e) (λ x w e. e)
                λ (res, recording) y begun. elim (Bool-cases (is_neg res)) [
                  | inl failed ↦
                      rw failed
                        (conclude-Concluded fl set' recording filename (leave initial) y begun)
                  | inr fine ↦ rw fine (
                      onward (Concluded env t No) y
                        (start_session_timer env fds.session_tim_fd rec_time y) _ begun
                        (start_session_timer-Makes env fds.session_tim_fd rec_time y) (λ c w e. e)
                        (λ x w e. e)
                        λ res' z timed. elim (Bool-cases (is_neg res')) [
                          | inl failed ↦ rw failed (
                              conclude-Concluded fl set' recording filename (leave initial) z timed)
                          | inr armed ↦ rw armed (
                              Makes-then is_local z (Concluded env t No) _ _
                                (loop-Makes env a fds set' recording rounds initial z)
                                (λ n w more.
                                  conclude-Concluded fl set' recording filename n w
                                    (Only-trans timed more))
                                (λ c w more. still_raw (Only-trans timed more))
                                (λ x w more. still_raw (Only-trans timed more)))
                        ])
                ]

-- the descriptors could not all be opened
abbrev pub NotOpened : (opening : Outcome (Option Fds)) → Trace → Type 0
NotOpened opening u = opening ≡ done none u

-- If Linux hands out no descriptor that is open: a run of the listener that returns leaves open
-- exactly what was open before, and has either given the terminal the attributes found at the
-- start back, or returned 1 after the socket and the timers could not all be opened, with the
-- attributes of `term_nonblock_setup` left in place; a run that exits or faults leaves those in
-- place. Nothing is stated of a run that uses up its rounds inside the loop.
pub avb_aaf_listener-Concluded :
    (env : Env) (a : Avtp) (fl : Floats) (formats : PcmFormats) (rounds : ℕ) (ifname : List ℕ)
    (set : Settings) (adev : List ℕ) (rec_time : ℤ) (filename : List ℕ) (t : Trace)
    → HandsOutFresh env
    → Concluded env t
        (NotOpened (open_all env ifname (after_setup env t)))
        (avb_aaf_listener env a fl formats rounds ifname set adev rec_time filename t)
unfolding avb_aaf_listener term_nonblock_setup
avb_aaf_listener-Concluded env a fl formats rounds ifname set adev rec_time filename t fresh =
    let t0 : Trace = after_setup env t in
    let opening = open_all env ifname t0 in
    Returns-bind (λ o u. Opened env t0 o u × (opening ≡ done o u))
      (Concluded env t (NotOpened opening)) opening _
      (Returns-eq (Opened env t0) opening (open_all-Opened env fresh t0 ifname))
      λ o v (opened, e). concluded o v opened e
  where
    concluded :
        (o : Option Fds) (v : Trace)
        → Opened env (after_setup env t) o v
        → open_all env ifname (after_setup env t) ≡ done o v
        → Concluded env t (NotOpened (open_all env ifname (after_setup env t))) (
            elim o as (λ _. M (Option ℤ)) [
              | none ↦ pure (some (pos 1))
              | some fds ↦
                  session env a fl formats (found env t) fds rounds set adev rec_time filename
            ]
              v)
    concluded none v (mode, opened) e = (opened, inr (refl, mode, e))
    concluded (some fds) v own e =
        session-Concluded env t _ fds v own a fl formats rounds set adev rec_time filename

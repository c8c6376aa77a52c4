-- ===== src/Listener/Punctual.antt =====
-- For which time the packet timer is set between the rounds of the loop.
use tram.Prelude.{
  ℕ, ◌≡◌, ◌==◌, Bool, true, false, none, List, [], ◌∷◌, is_empty, is_neg, if◌then◌else◌, Bool-cases,
  inl, inr, refl, arith, ◌∙◌,
}
use tram.Sys.{Env, Trace, read_timer, read_key, ◌>>=◌, pure}
use tram.Sys.Outcomes.{Gives, Gives-bind, Returns}
use tram.Sys.Descriptors.{same_fd}
use tram.Settings.{Settings}
use tram.Avtp.{Avtp}
use tram.Alsa
use tram.Playout.{Entry, play_fragment, aaf_timeout}
use tram.Playout.Deadline.{deadline, unset-unarmed}
use tram.Listener.Due.{InTime, Due, kept, receive-Due}
use tram.Listener.Loop.{initial, initial-Inv}
use tram.Listener.Rule.{polled, loop-Ends}
use tram.Listener.Safe.{Safe-Returns}
use tram.Listener.Play.{Continues}
use tram.Listener.Step.{loop-Continues}
use tram.Playout.Armed.{HonestTimer}
use tram.Listener.{State, Fds, again, play, playback, loop}

module _ (env : Env) (k : ℕ) (fds : Fds) (ours : same_fd k fds.timer_fd ≡ true) (set : Settings)
    (recording : Bool) where
  play_fragment-deadline :
      (samples : List Entry) (frames : ℕ) (t : Trace)
      → Gives
          (λ _ u. deadline env k u ≡ deadline env k t)
          (play_fragment env samples frames recording t)
  unfolding play_fragment Alsa.write
  play_fragment-deadline [] frames t = tt
  play_fragment-deadline (x ∷ xs) frames t = ground arith

  -- the queue is what is left of it
  InTime-rest :
      (rest : List Entry) (u : Trace)
      → deadline env k u ≡ none
      → InTime env k (if is_empty rest then false else true) rest u
  InTime-rest [] u unset = unset
  InTime-rest (x ∷ xs) u unset = (unset, refl)

  -- playback goes on with the timer unset
  play-InTime :
      (st : State) (t : Trace)
      → st.is_running ≡ true
      → deadline env k t ≡ none
      → Gives (λ st' u. InTime env k st'.is_running st'.samples u) (play env set recording st t)
  unfolding play
  play-InTime st t run unset =
      Gives-bind (λ _ u. deadline env k u ≡ deadline env k t) _ _ _
        (play_fragment-deadline st.samples set.frames_per_pdu t)
        λ rest u same. rw run (InTime-rest rest u (same ∙ unset))

  play-Due :
      (st : State) (t : Trace)
      → st.is_running ≡ true
      → deadline env k t ≡ none
      → Gives (Due env k) ((play env set recording st >>= λ st'. pure (again st')) t)
  play-Due st t run unset =
      Gives-bind (λ st' u. InTime env k st'.is_running st'.samples u) (Due env k)
        (play env set recording st t) _ (play-InTime st t run unset) λ st' u due. due

  playback-Due :
      (ready : Bool) (st : State) (t : Trace)
      → InTime env k st.is_running st.samples t
      → Gives (Due env k) (playback env fds set recording ready st t)
  unfolding playback aaf_timeout
  playback-Due ready st t due =
      let u : Trace = read_timer fds.timer_fd ∷ t in
      elim (Bool-cases st.is_running) [
        | inl run ↦ simp run (play-Due st t run (rw run at due).0)
        | inr idle ↦ simp idle (elim (Bool-cases ready) [
          | inr quiet ↦ rw quiet due
          | inl fired ↦ rw fired (elim (Bool-cases (is_neg (env.ret u))) [
            | inl failed ↦ rw failed tt
            | inr read ↦ rw read (elim (Bool-cases (env.expirations u == 1)) [
              | inr more ↦ rw more tt
              | inl once ↦
                  rw once (play-Due (record st { is_running = true }) u refl (rw (ours, read) refl))
            ])
          ])
        ])
      ]

  module _ (a : Avtp) where
    loop_from :
        (rounds : ℕ) (st : State) (t : Trace)
        → InTime env k st.is_running st.samples t
        → Gives (Due env k) (loop env a fds set recording rounds st t)
    loop_from =
        loop-Ends env a fds set recording Unit (Due env k) (λ st t due. tt)
          (λ st t due. kept env k st.is_running st.samples t (polled fds t) refl due)
          (λ st t due. kept env k st.is_running st.samples t (read_key ∷ t) refl due)
          (λ st t due.
            receive-Due env k a fds ours set (env.ready (polled fds t)).socket_ready st
              (polled fds t) due)
          (λ before t _. playback-Due (env.ready (polled fds t)).timer_ready)

    -- If memory can be allocated, and Linux reports the packet timer ready only if it is armed,
    -- with one expiration to read then: the listener's loop, from its initial state with the timer
    -- not set, returns in any number of rounds; and where the rounds are used up, either playback
    -- runs, the queue is not empty and the timer is not set, or playback does not run, and the
    -- timer is set for the presentation time of the first of the queue, and not set if nothing is
    -- queued.
    pub loop-Due :
        ((u : Trace) → env.allocated u ≡ true)
        → HonestTimer env k
        → (rounds : ℕ) (t : Trace) → deadline env k t ≡ none
        → Returns (Due env k) (loop env a fds set recording rounds initial t)
    loop-Due room honest rounds t unset =
        Safe-Returns env k room (Continues env k) (Due env k) _
          (loop-Continues env k honest fds ours a set recording rounds initial t
            (initial-Inv env k t (unset-unarmed env k t unset)))
          (loop_from rounds initial t unset)

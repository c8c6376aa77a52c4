-- ===== src/Network/Hears.antt =====
-- What any run of the listener has handed to the sound card, however it ends.
use tram.Prelude.{ℕ, ◌≡◌, ◌∙◌, Bool, true, false, some, List, [], ℤ, refl}
use tram.Sys.{Env, Trace, Outcome, done, exited, faulted, and_then, Termios}
use tram.Sys.Outcomes.{
  is_calm, is_idle, is_calm-is_idle, here, next, Makes, Makes-weaken, Makes-bind,
}
use tram.Terminal.{found, after_setup}
use tram.Settings.{Settings, Floats}
use tram.Stats.{Handler, clear, process_stats}
use tram.Avtp.{Avtp}
use tram.Alsa
use tram.Alsa.{PcmFormats}
use tram.Playout.{Entry}
use tram.Listener.{State, Fds, Next, again, leave}
use tram.Listener.Loop.{initial}
use tram.Listener.Player.{InOrder, nothing}
use tram.Listener.Refines.{Ordered, loop-Ordered}
use tram.Listener.View.{played, payload, Fits, view, queue_after}
use tram.Session.{open_all, conclude, finish, report, release, finish_recording, avb_aaf_listener}
use tram.Session.Calls.{clear-Makes, process_stats-Makes, finish_recording-Makes, report-Makes}
use tram.Session.Still.{Still, avb_aaf_listener-Still}
use tram.Listener.Receipts.{receipts, none_heard}
use tram.Network.{history, history-Makes}
use tram.Network.Idle.{Same, Same-Only}

module _ (env : Env) (fl : Floats) (term_old_set : Termios) (fds : Fds) (set : Settings)
    (filename : List ℕ) where
  idle : {A : Type 0} (t : Trace) (r : Outcome A) → Makes is_calm t r → Makes is_idle t r
  idle t r = Makes-weaken is_calm is_idle t r is_calm-is_idle

  release-Makes :
      (stats : Handler) (res : ℤ) (t : Trace)
      → Makes is_idle t (release term_old_set fds stats res t)
  unfolding release Alsa.close
  release-Makes stats res t =
      Makes-bind is_idle t (clear stats t) _ (idle t (clear stats t) (clear-Makes stats t)) λ _ u.
        next _ refl (next _ refl (next _ refl (next _ refl (next _ refl (next _ refl here)))))

  finish-Makes :
      (recording : Bool) (st : State) (t : Trace)
      → Makes is_idle t (finish env fl term_old_set fds set recording filename st t)
  unfolding finish
  finish-Makes true st t =
      Makes-bind is_idle t (process_stats env fl set st.stats t) _
        (idle t _ (process_stats-Makes env fl set st.stats t))
        λ (res, stats) u.
          Makes-bind is_idle u (report res stats u) _ (idle u _ (report-Makes res stats u)) λ _ v.
            Makes-bind is_idle v (finish_recording env fl set filename stats v) _
              (idle v _ (finish_recording-Makes env fl set filename stats v))
              λ res' w. release-Makes stats res' w
  finish-Makes false st t =
      Makes-bind is_idle t (process_stats env fl set st.stats t) _
        (idle t _ (process_stats-Makes env fl set st.stats t))
        λ (res, stats) u.
          Makes-bind is_idle u (report res stats u) _ (idle u _ (report-Makes res stats u))
            λ _ v. release-Makes stats res v

  conclude-Makes :
      (recording : Bool) (n : Next) (t : Trace)
      → Makes is_idle t (conclude env fl term_old_set fds set recording filename n t)
  unfolding conclude
  conclude-Makes recording (again st) t = here
  conclude-Makes recording (leave st) t =
      Makes-bind is_idle t (finish env fl term_old_set fds set recording filename st t) _
        (finish-Makes recording st t) λ r u. here

-- no packet has been asked for, and nothing handed to the sound card
abbrev pub Unheard : Trace → Type 0
Unheard t = (receipts t ≡ 0) × (played t ≡ [])

Still-Unheard : (t u : Trace) → Still t u → Unheard t → Unheard u
Still-Unheard t u (asked, same, _, _) (none_yet, unplayed) = (asked ∙ none_yet, same ∙ unplayed)

module _ (env : Env) where
  module _ (a : Avtp) (fl : Floats) (formats : PcmFormats) (fds : Fds) (rounds : ℕ) (set : Settings)
      (filename : List ℕ) where
    -- What has been played is the samples of some of the packets received, in order.
    abbrev Plays : Trace → Type 0
    Plays u = (samples : List Entry) × InOrder (Fits a set) (payload set) (view env samples u)

    Same-Plays : (t u : Trace) → Same env t u → Plays t → Plays u
    Same-Plays t u same (samples, ordered) =
        (samples, rw (same.same_heard, same.same_played) ordered)

    after_loop :
        (term_old_set : Termios) (recording : Bool) (r : Outcome Next)
        → Ordered env a fds set recording rounds r
        → Plays (history (and_then r (conclude env fl term_old_set fds set recording filename)))
    after_loop term_old_set recording (done n u) ordered =
        Same-Plays u _
          (Same-Only env (
            history-Makes is_idle u _
              (conclude-Makes env fl term_old_set fds set filename recording n u)))
          (queue_after n, ordered)
    after_loop term_old_set recording (exited c u) plays = plays
    after_loop term_old_set recording (faulted f u) plays = plays

    -- For any libavtp and however the run ends: where nothing has been asked for or played before,
    -- and the devices can be opened, what the listener has played is the samples of some of the
    -- packets received whole, all of the stream and the format, in order and each once.
    pub avb_aaf_listener-Plays :
        (ifname : List ℕ) (before : Settings) (adev : List ℕ) (rec_time : ℤ) (t v w : Trace)
        → Unheard t
        → open_all env ifname (after_setup env t) ≡ done (some fds) v
        → Alsa.setup env formats adev false before v ≡ done set w
        → Plays (
            history
              (avb_aaf_listener env a fl formats rounds ifname before adev rec_time filename t))
    avb_aaf_listener-Plays ifname before adev rec_time t v w =
        avb_aaf_listener-Still env a fl formats fds rounds set filename t Unheard Still-Unheard
          (λ r. Plays (history r))
          (λ recording u (none_u, unplayed) rec.
            after_loop (found env t) recording (done (leave initial) u)
              (rw (none_heard env u none_u, unplayed) nothing))
          (λ recording u (none_u, unplayed) rec.
            after_loop (found env t) recording _
              (loop-Ordered env a fds set recording rounds u (none_heard env u none_u) unplayed))
          ifname before adev rec_time v w

-- ===== src/Session/Calls.antt =====
-- Which kinds of calls a session makes between its start and the closing of its descriptors.
use tram.Prelude.{
  ℕ, Bool, true, false, List, [], ◌∷◌, length, ◌*◌, ◌-◌, ℤ, is_neg, is_zero, is_empty, ◌==◌,
  Bool-cases, Option-cases, inl, inr, refl,
}
use tram.Sys.{
  Timespec, Env, Trace, malloc, clock_gettime, timerfd_settime, wav_open, print, blank_line,
}
use tram.Sys.Outcomes.{is_calm, here, next, Makes, Makes-bind, Makes-after}
use tram.Settings.{Settings, Floats}
use tram.Time.{arm_timer}
use tram.Stats.{
  DataNode, Handler, Stat, clear, delete_recursive, get_first, process_stat, process_stats,
  travel_times, delta_caps, use_arrays,
}
use tram.Reports.{print_stats-Makes}
use tram.Session.{
  report, close_wav_recorder, finish_recording, start_recording, start_session_timer, add_secs,
}

use_arrays-Makes :
    (travel_ok delta_ok : Bool) (rest : List DataNode) (t : Trace)
    → Makes is_calm t (use_arrays travel_ok delta_ok rest t)
use_arrays-Makes false delta_ok rest t = here
use_arrays-Makes true true rest t = here
use_arrays-Makes true false [] t = here
use_arrays-Makes true false (node ∷ rest) t = here

process_stat-Makes :
    (fl : Floats) (xs : List ℕ) (stat : Stat) (t : Trace)
    → Makes is_calm t (process_stat fl xs stat t)
unfolding process_stat
process_stat-Makes fl xs stat t = elim (Bool-cases (length xs == 0)) [
  | inl none_there ↦ rw none_there here
  | inr some_there ↦ rw some_there here
]

pub clear-Makes : (stats : Handler) (t : Trace) → Makes is_calm t (clear stats t)
unfolding clear
clear-Makes stats t = go stats.stack
  where
    freed :
        (node : DataNode) (rest : List DataNode) (t : Trace)
        → Makes is_calm t (delete_recursive node rest t)
    freed node [] t = next _ refl here
    freed node (n ∷ rest) t = Makes-bind is_calm t _ _ (freed n rest t) λ _ u. next _ refl here

    go : (ns : List DataNode) → Makes is_calm t (clear (record stats { stack = ns }) t)
    go [] = here
    go (n ∷ ns) = freed n ns t

module _ (env : Env) where
  pub process_stats-Makes :
      (fl : Floats) (set : Settings) (stats : Handler) (t : Trace)
      → Makes is_calm t (process_stats env fl set stats t)
  unfolding process_stats
  process_stats-Makes fl set stats t = go stats.stack
    where
      go :
          (ns : List DataNode)
          → Makes is_calm t (process_stats env fl set (record stats { stack = ns }) t)
      go [] = here
      go (node ∷ rest) =
          let u : Trace =
            malloc (8 * length (node ∷ rest) - 1) ∷ malloc (8 * length (node ∷ rest)) ∷ t in
          let travel_ok : Bool = env.allocated (malloc (8 * length (node ∷ rest)) ∷ t) in
          Makes-after is_calm t u _ (next _ refl (next _ refl here)) (
            Makes-bind is_calm u (use_arrays travel_ok (env.allocated u) rest u) _
              (use_arrays-Makes travel_ok (env.allocated u) rest u)
              λ _ v.
                Makes-bind is_calm v _ _
                  (process_stat-Makes fl (travel_times set (node ∷ rest)) stats.travel v)
                  λ travel w.
                    Makes-bind is_calm w _ _
                      (process_stat-Makes fl (delta_caps fl set node rest) stats.delta_cap w)
                      λ delta_cap x. here)

  pub finish_recording-Makes :
      (fl : Floats) (set : Settings) (filename : List ℕ) (stats : Handler) (t : Trace)
      → Makes is_calm t (finish_recording env fl set filename stats t)
  unfolding finish_recording close_wav_recorder
  finish_recording-Makes fl set filename stats t = elim (Option-cases (get_first stats)) [
    | inl e ↦ rw (e, finish_recording) (next _ refl here)
    | inr (first, e) ↦ rw (e, finish_recording) (next _ refl (next _ refl here))
  ]

  pub start_recording-Makes :
      (set : Settings) (filename : List ℕ) (t : Trace)
      → Makes is_calm t (start_recording env set filename t)
  unfolding start_recording
  start_recording-Makes set filename t = elim (Bool-cases (is_empty filename)) [
    | inl unnamed ↦ rw unnamed here
    | inr named ↦ rw named (elim (Bool-cases (env.allocated (wav_open ∷ t))) [
      | inl opened ↦
          rw opened (next _ refl (next _ refl (next _ refl (next _ refl (next _ refl here)))))
      | inr failed ↦ rw failed (next _ refl here)
    ])
  ]

  pub start_session_timer-Makes :
      (fd rec_time : ℤ) (t : Trace) → Makes is_calm t (start_session_timer env fd rec_time t)
  unfolding start_session_timer arm_timer
  start_session_timer-Makes fd rec_time t =
      let u : Trace = clock_gettime ∷ t in
      let at_end : Timespec = record (env.clock u) {
        tv_sec = add_secs (env.clock u).tv_sec rec_time;
      } in
      elim (Bool-cases (is_zero rec_time)) [
        | inl endless ↦ rw endless here
        | inr timed ↦ rw timed (elim (Bool-cases (is_neg (env.ret u))) [
          | inl failed ↦ rw failed (next _ refl here)
          | inr read ↦
              rw read (elim (Bool-cases (is_neg (env.ret (timerfd_settime fd at_end ∷ u)))) [
                | inl failed ↦ rw failed (next _ refl (next _ refl here))
                | inr set ↦ rw set (next _ refl (next _ refl here))
              ])
        ])
      ]

pub report-Makes : (res : ℤ) (stats : Handler) (t : Trace) → Makes is_calm t (report res stats t)
unfolding report
report-Makes res stats t = elim (Bool-cases (is_zero res)) [
  | inl fine ↦ rw fine (
      Makes-after is_calm t (print blank_line ∷ t) _ (next _ refl here)
        (print_stats-Makes stats (print blank_line ∷ t)))
  | inr failed ↦ rw failed here
]

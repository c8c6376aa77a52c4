-- ===== src/Session/Teardown.antt =====
-- How a session ends, for each number of packets recorded.
use mathlib.Core.List.{append_assoc}
use tram.Reports.{figure_lines, stats_lines, print_stats, printed, after_lines, printed-after_lines}
use tram.Prelude.{
  ◌++◌, ◌∙◌, ap, ℕ, zero, suc, ◌||◌, ◌≡◌, true, false, some, Bool, if◌then◌else◌, List, [], ◌∷◌,
  length, ℤ, pos, refl, arith,
}
use tram.Sys.{
  Line, print, blank_line, received_line, dropped_line, capture_heading, travel_heading, min_line,
  max_line, mean_line, std_line, Env, Trace, Outcome, done, faulted, null_pointer, uninitialised,
  division_by_zero, wav_close, rename, close, Termios, tc_set, pcm_close, pcm_drop,
}
use tram.Sys.Descriptors.{same_fd, is_open, attributes}
use tram.Settings.{Settings, Floats}
use tram.Stats.{
  DataNode, Stat, Handler, clear, get_first, get_cap_time, find_bottom, travel_times, delta_caps,
}
use tram.Stats.Summary.{figures}
use tram.Stats.Capture.{length-travel_times}
use tram.Stats.Stack.{frees, clear_lem}
use tram.Stats.Report.{
  collected, after_mallocs, process_stats-nil, summed, process_stats-one, process_stats-more,
}
use tram.Alsa
use tram.Listener.{State, Fds}
use tram.Session.{report, finish, finish_recording, close_wav_recorder, release}

-- Of the descriptors open in `t`, all but those of the session are open in `u`, and the terminal
-- has the attributes given.
pub record TornDown (env : Env) (term_old_set : Termios) (fds : Fds) (t u : Trace) : Type 0 where
  pub terminal : attributes u ≡ some term_old_set
  pub descriptors :
      (k : ℕ)
      → is_open env k u ≡ (
          if same_fd k fds.session_tim_fd || same_fd k fds.timer_fd || same_fd k fds.sk_fd
          then false
          else is_open env k t)

-- the four numbers of one figure
abbrev numbers_of : Stat → List Line → List Line
numbers_of stat lines =
    min_line stat.min ∷ max_line stat.max ∷ mean_line stat.mean ∷ std_line stat.std ∷ lines

-- The lines printed since `t`: the number of packets, the count of drops, and the figures of the
-- capture deltas and the travel times.
abbrev pub Shows : (received dropped : ℕ) → (delta travel : Stat) → Trace → Trace → Type 0
Shows received dropped delta travel t u =
    printed u
    ≡ printed t
      ++ (blank_line
          ∷ received_line received
          ∷ dropped_line dropped
          ∷ blank_line
          ∷ capture_heading
          ∷ numbers_of delta (blank_line ∷ travel_heading ∷ numbers_of travel []))

-- the history once figures have been printed
abbrev shown : Handler → Trace → Trace
shown stats t = after_lines (stats_lines stats) (print blank_line ∷ t)

module _ (env : Env) (fl : Floats) (term_old_set : Termios) (fds : Fds) (set : Settings)
    (recording : Bool) where
  -- the outcome for each number of packets recorded
  abbrev pub Ended : (nodes : List DataNode) → (dropped : ℕ) → Trace → Outcome ℤ → Type 0
  Ended [] dropped t r =
      r ≡ (if recording then faulted uninitialised (wav_close ∷ t) else faulted null_pointer t)
  Ended (node ∷ []) dropped t r = r ≡ faulted division_by_zero (after_mallocs 1 t)
  Ended (node ∷ next ∷ rest) dropped t r =
      (u : Trace) × (r ≡ done (pos 0) u)
      × TornDown env term_old_set fds t u
      × Shows (length (node ∷ next ∷ rest)) dropped
          (figures fl (delta_caps fl set node (next ∷ rest)))
          (figures fl (travel_times set (node ∷ next ∷ rest))) t u

-- the history at the end, `n` entries having been freed
abbrev pub released : Termios → Fds → ℕ → Trace → Trace
released term_old_set fds n t =
    tc_set term_old_set
    ∷ close fds.session_tim_fd
    ∷ close fds.timer_fd
    ∷ close fds.sk_fd
    ∷ pcm_close
    ∷ pcm_drop
    ∷ frees n t

is_open-frees : (env : Env) (k n : ℕ) (t : Trace) → is_open env k (frees n t) ≡ is_open env k t
is_open-frees env k zero t = refl
is_open-frees env k (suc n) t = is_open-frees env k n t

-- `v` is the history when the entries are freed.
released-TornDown :
    (env : Env) (term_old_set : Termios) (fds : Fds) (n : ℕ) (t v : Trace)
    → ((k : ℕ) → is_open env k v ≡ is_open env k t)
    → TornDown env term_old_set fds t (released term_old_set fds n v)
released-TornDown env term_old_set fds n t v same = record {
  terminal = refl;
  descriptors = λ k. ground (arith, is_open-frees env k n v, same k);
}

printed-frees : (n : ℕ) (t : Trace) → printed (frees n t) ≡ printed t
printed-frees zero t = refl
printed-frees (suc n) t = printed-frees n t

-- `v` has printed the figures of `stats` after `t`.
released-printed :
    (term_old_set : Termios) (fds : Fds) (n : ℕ) (stats : Handler) (t v : Trace)
    → printed v ≡ printed (shown stats t)
    → printed (released term_old_set fds n v) ≡ printed t ++ (blank_line ∷ stats_lines stats)
released-printed term_old_set fds n stats t v same =
    printed-frees n v
    ∙ (same
        ∙ (printed-after_lines (stats_lines stats) (print blank_line ∷ t)
            ∙ append_assoc (printed t) (blank_line ∷ []) (stats_lines stats)))

-- `v` has printed the figures of two packets or more.
released-Shows :
    (term_old_set : Termios) (fds : Fds) (fl : Floats) (set : Settings) (node next : DataNode)
    (rest : List DataNode) (dropped : ℕ) (t v : Trace)
    → printed v
      ≡ printed (
          shown
            (summed fl set node next rest dropped)
            (after_mallocs (length (node ∷ next ∷ rest)) t))
    → Shows
        (length (node ∷ next ∷ rest))
        dropped
        (figures fl (delta_caps fl set node (next ∷ rest)))
        (figures fl (travel_times set (node ∷ next ∷ rest)))
        t
        (released term_old_set fds (length (node ∷ next ∷ rest)) v)
unfolding stats_lines
released-Shows term_old_set fds fl set node next rest dropped t v same =
    let stats : Handler = summed fl set node next rest dropped in
    released-printed term_old_set fds (length (node ∷ next ∷ rest)) stats
      (after_mallocs (length (node ∷ next ∷ rest)) t) v same
    ∙ ap
        (λ n.
          printed t ++ (blank_line ∷ received_line n ∷ dropped_line dropped ∷ figure_lines stats))
        (length-travel_times set (node ∷ next ∷ rest))

release_lem :
    (term_old_set : Termios) (fds : Fds) (stats : Handler) (node : DataNode) (rest : List DataNode)
    (t : Trace)
    → stats.stack ≡ node ∷ rest
    → release term_old_set fds stats (pos 0) t
      ≡ done (pos 0) (released term_old_set fds (length (node ∷ rest)) t)
unfolding release Alsa.close
release_lem term_old_set fds stats node rest t e = rw (clear_lem stats t, e)

module _ (env : Env) (fl : Floats) (term_old_set : Termios) (fds : Fds) (set : Settings)
    (filename : List ℕ) (room : (u : Trace) → env.allocated u ≡ true) where
  -- If memory can be allocated, and no figures have been made, the end of a session depends on the
  -- number of packets recorded. With none it faults: on a start time never assigned if there is a
  -- recording, on a null pointer otherwise. With one it faults on a division by zero. With two or
  -- more it returns 0, the terminal has been given the old attributes, and of the descriptors open
  -- before, exactly those of the session are closed; and it has printed the number of packets, the
  -- count of drops, and the least, the greatest, the mean and the deviation first of the times
  -- between captures, then of the travel times.
  pub finish_lem :
      (recording : Bool) (nodes : List DataNode) (dropped : ℕ) (st : State) (t : Trace)
      → st.stats ≡ collected nodes dropped
      → Ended env fl term_old_set fds set recording nodes dropped t
          (finish env fl term_old_set fds set recording filename st t)
  unfolding finish report print_stats stats_lines release clear get_first finish_recording
      close_wav_recorder find_bottom
  finish_lem true [] d st t e = rw (e, process_stats-nil fl set env d t)
  finish_lem false [] d st t e = rw (e, process_stats-nil fl set env d t) refl
  finish_lem recording (node ∷ []) d st t e = rw (e, process_stats-one fl set env node d t room)
  finish_lem true (node ∷ next ∷ rest) d st t e =
      let u : Trace =
        rename (get_cap_time fl set (find_bottom next rest)) filename
        ∷ wav_close
        ∷ shown (summed fl set node next rest d) (after_mallocs (length (node ∷ next ∷ rest)) t) in
      (
        released term_old_set fds (length (node ∷ next ∷ rest)) u,
        rw (e, process_stats-more fl set env node next rest d t room)
            (release_lem term_old_set fds (summed fl set node next rest d) node (next ∷ rest) u
              refl),
        released-TornDown env term_old_set fds (length (node ∷ next ∷ rest)) t u (λ k. refl),
        released-Shows term_old_set fds fl set node next rest d t u refl,
      )
  finish_lem false (node ∷ next ∷ rest) d st t e =
      let u : Trace =
        shown (summed fl set node next rest d) (after_mallocs (length (node ∷ next ∷ rest)) t) in
      (
        released term_old_set fds (length (node ∷ next ∷ rest)) u,
        rw (e, process_stats-more fl set env node next rest d t room)
            (release_lem term_old_set fds (summed fl set node next rest d) node (next ∷ rest) u
              refl),
        released-TornDown env term_old_set fds (length (node ∷ next ∷ rest)) t u (λ k. refl),
        released-Shows term_old_set fds fl set node next rest d t u refl,
      )

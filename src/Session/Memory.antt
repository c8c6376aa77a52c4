-- ===== src/Session/Memory.antt =====
-- The memory that the end of a session allocates and frees.
use mathlib.Core.Path.{subst}
use tram.Prelude.{
  if◌then◌else◌, ℕ, suc, ◌+◌, ◌*◌, ◌-◌, ◌≡◌, ◌==◌, ◌∙◌, Bool, true, false, List, [], ◌∷◌, length, ℤ,
  is_zero, Bool-cases, Option-cases, inl, inr, refl, arith, ap, sym,
}
use tram.Sys.{pure, Line, Env, Trace, and_then, Termios, malloc, print, blank_line}
use tram.Sys.Outcomes.{Gives, Gives-bind, Gives-map}
use tram.Settings.{Settings, Floats}
use tram.Stats.{
  DataNode, Handler, Stat, clear, delete_recursive, get_first, process_stat, process_stats,
  travel_times, delta_caps, use_arrays,
}
use tram.Reports.{print_all, print_stats, stats_lines}
use tram.Alsa
use tram.Alsa.{PcmFormats}
use tram.Listener.{State, Fds}
use tram.Listener.Owned.{mallocs, freed}
use tram.Session.{finish, report, release, finish_recording, close_wav_recorder}

-- nothing has been allocated or freed
abbrev Neither : Trace → Trace → Type 0
Neither t u = (mallocs u ≡ mallocs t) × (freed u ≡ freed t)

process_stat-Neither :
    (fl : Floats) (xs : List ℕ) (stat : Stat) (t : Trace)
    → Gives (λ _ u. u ≡ t) (process_stat fl xs stat t)
unfolding process_stat
process_stat-Neither fl xs stat t = elim (Bool-cases (length xs == 0)) [
  | inl none_there ↦ rw none_there tt
  | inr some_there ↦ rw some_there refl
]

-- the arrays of `process_stats` have been allocated
abbrev Arrays : Trace → Trace → Type 0
Arrays t u = (mallocs u ≡ suc (suc (mallocs t))) × (freed u ≡ freed t)

use_arrays-Neither :
    (travel_ok delta_ok : Bool) (rest : List DataNode) (t : Trace)
    → Gives (λ _ u. u ≡ t) (use_arrays travel_ok delta_ok rest t)
use_arrays-Neither false delta_ok rest t = tt
use_arrays-Neither true true rest t = refl
use_arrays-Neither true false [] t = refl
use_arrays-Neither true false (node ∷ rest) t = tt

process_stats-Arrays :
    (env : Env) (fl : Floats) (set : Settings) (stats : Handler) (node : DataNode)
    (rest : List DataNode) (t : Trace)
    → Gives
        (λ (res, stats') u. Arrays t u × (stats'.stack ≡ node ∷ rest))
        (process_stats env fl set (record stats { stack = node ∷ rest }) t)
unfolding process_stats
process_stats-Arrays env fl set stats node rest t =
    let u : Trace = malloc (8 * length (node ∷ rest) - 1) ∷ malloc (8 * length (node ∷ rest)) ∷ t in
    Gives-bind (λ _ v. v ≡ u) (λ (res, stats') v. Arrays t v × (stats'.stack ≡ node ∷ rest))
      (use_arrays (env.allocated (malloc (8 * length (node ∷ rest)) ∷ t)) (env.allocated u) rest u)
      _
      (use_arrays-Neither (env.allocated (malloc (8 * length (node ∷ rest)) ∷ t)) (env.allocated u)
        rest u)
      λ _ v at_u.
        Gives-bind (λ _ w. w ≡ v) (λ (res, stats') w. Arrays t w × (stats'.stack ≡ node ∷ rest)) _ _
          (process_stat-Neither fl (travel_times set (node ∷ rest)) stats.travel v)
          λ travel w at_v.
            Gives-bind (λ _ x. x ≡ w) (λ (res, stats') x. Arrays t x × (stats'.stack ≡ node ∷ rest))
              _ _ (process_stat-Neither fl (delta_caps fl set node rest) stats.delta_cap w)
              λ delta_cap x at_w. rw (at_w, at_v, at_u) ((refl, refl), refl)

report-Neither :
    (res : ℤ) (stats : Handler) (t : Trace) → Gives (λ _ u. Neither t u) (report res stats t)
unfolding report print_stats
report-Neither res stats t = elim (Bool-cases (is_zero res)) [
  | inl fine ↦ rw fine (lines (stats_lines stats) (print blank_line ∷ t) (refl, refl))
  | inr failed ↦ rw failed (refl, refl)
]
  where
    lines : (xs : List Line) (u : Trace) → Neither t u → Gives (λ _ v. Neither t v) (print_all xs u)
    lines [] u same = same
    lines (x ∷ xs) u same = lines xs (print x ∷ u) same

finish_recording-Neither :
    (env : Env) (fl : Floats) (set : Settings) (filename : List ℕ) (stats : Handler) (t : Trace)
    → Gives (λ _ u. Neither t u) (finish_recording env fl set filename stats t)
unfolding finish_recording close_wav_recorder
finish_recording-Neither env fl set filename stats t = elim (Option-cases (get_first stats)) [
  | inl e ↦ rw (e, finish_recording) tt
  | inr (first, e) ↦ rw (e, finish_recording) (refl, refl)
]

-- the entries recorded have been freed
abbrev Emptied : List DataNode → Trace → Trace → Type 0
Emptied nodes t u = (mallocs u ≡ mallocs t) × (freed u ≡ length nodes + freed t)

delete_recursive-Emptied :
    (node : DataNode) (rest : List DataNode) (t : Trace)
    → Gives (λ _ u. Emptied (node ∷ rest) t u) (delete_recursive node rest t)
unfolding delete_recursive
delete_recursive-Emptied node [] t = (refl, omega arith)
delete_recursive-Emptied node (next ∷ rest) t =
    Gives-bind (λ _ u. Emptied (next ∷ rest) t u) (λ _ u. Emptied (node ∷ next ∷ rest) t u)
      (delete_recursive next rest t) _ (delete_recursive-Emptied next rest t)
      λ _ u (same, less). (same, omega (arith, less))

clear-Emptied :
    (stats : Handler) (t : Trace) → Gives (λ _ u. Emptied stats.stack t u) (clear stats t)
unfolding clear
clear-Emptied stats t = go stats.stack
  where
    go :
        (ns : List DataNode) → Gives (λ _ u. Emptied ns t u) (clear (record stats { stack = ns }) t)
    go [] = tt
    go (n ∷ ns) = delete_recursive-Emptied n ns t

module _ (env : Env) (fl : Floats) (term_old_set : Termios) (fds : Fds) (set : Settings)
    (filename : List ℕ) where
  release-Emptied :
      (stats : Handler) (res : ℤ) (t : Trace)
      → Gives (λ _ u. Emptied stats.stack t u) (release term_old_set fds stats res t)
  unfolding release Alsa.close
  release-Emptied stats res t =
      Gives-bind (λ _ u. Emptied stats.stack t u) (λ _ u. Emptied stats.stack t u) (clear stats t) _
        (clear-Emptied stats t) λ _ u emptied. emptied

  -- The two arrays stay, and the entries recorded do not.
  abbrev pub Leaves : List DataNode → Trace → Trace → Type 0
  Leaves nodes t u = (mallocs u ≡ suc (suc (mallocs t))) × (freed u ≡ length nodes + freed t)

  released :
      (nodes : List DataNode) (stats : Handler) (res : ℤ) (t u : Trace)
      → Arrays t u
      → stats.stack ≡ nodes
      → Gives (λ _ v. Leaves nodes t v) (release term_old_set fds stats res u)
  released nodes stats res t u (two, same) e =
      Gives-map (λ _ v. Emptied stats.stack u v) (λ _ v. Leaves nodes t v)
        (λ _ v (same', less). (same' ∙ two, rw (← e, ← same) less)) _ (release-Emptied stats res u)

  -- a session with no packet recorded does not come to its end
  finish-none :
      (recording : Bool) (st : State) (t : Trace)
      → st.stats.stack ≡ []
      → Gives (λ _ u. Leaves [] t u) (finish env fl term_old_set fds set recording filename st t)
  unfolding finish process_stats report finish_recording get_first close_wav_recorder release clear
  finish-none true st t e = rw e tt
  finish-none false st t e = rw e tt

  finish-some :
      (recording : Bool) (node : DataNode) (rest : List DataNode) (stats : Handler) (st : State)
      (t : Trace)
      → Gives
          (λ _ u. Leaves (node ∷ rest) t u)
          (finish env fl term_old_set fds set recording filename
            (record st { stats = record stats { stack = node ∷ rest } })
            t)
  unfolding finish
  finish-some recording node rest stats st t =
      Gives-bind (λ (res, stats') u. Arrays t u × (stats'.stack ≡ node ∷ rest))
        (λ _ v. Leaves (node ∷ rest) t v) _ _ (process_stats-Arrays env fl set stats node rest t)
        λ (res, stats') u ((two, same), kept).
          Gives-bind (λ _ v. Neither u v) (λ _ v. Leaves (node ∷ rest) t v) (report res stats' u) _
            (report-Neither res stats' u)
            λ _ v (none_v, same_v).
              recorded recording node rest stats' res t v (none_v ∙ two, same_v ∙ same) kept
    where
      recorded :
          (recording : Bool) (node : DataNode) (rest : List DataNode) (stats : Handler) (res : ℤ)
          (t u : Trace)
          → Arrays t u
          → stats.stack ≡ node ∷ rest
          → Gives
              (λ _ v. Leaves (node ∷ rest) t v)
              (and_then
                ((if recording then finish_recording env fl set filename stats else pure res) u)
                (release term_old_set fds stats))
      recorded false node rest stats res t u two e = released (node ∷ rest) stats res t u two e
      recorded true node rest stats res t u (two, same) e =
          Gives-bind (λ _ v. Neither u v) (λ _ v. Leaves (node ∷ rest) t v)
            (finish_recording env fl set filename stats u) _
            (finish_recording-Neither env fl set filename stats u)
            λ res' v (none_v, same_v).
              released (node ∷ rest) stats res' t v (none_v ∙ two, same_v ∙ same) e

  pub finish-Leaves :
      (recording : Bool) (nodes : List DataNode) (st : State) (t : Trace)
      → st.stats.stack ≡ nodes
      → Gives (λ _ u. Leaves nodes t u) (finish env fl term_old_set fds set recording filename st t)
  finish-Leaves recording [] st t e = finish-none recording st t e
  finish-Leaves recording (node ∷ rest) st t e =
      subst
        (λ stats.
          Gives (λ _ u. Leaves (node ∷ rest) t u)
            (finish env fl term_old_set fds set recording filename (record st { stats = stats }) t))
        (ap (λ ns. record st.stats { stack = ns }) (sym e))
        (finish-some recording node rest st.stats st t)

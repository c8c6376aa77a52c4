-- ===== src/Stats/Report.antt =====
-- What `process_stats` reports, for each number of entries.
use tram.Prelude.{
  ℕ, ◌-◌, ◌*◌, ◌/◌, ◌^◌, ◌<◌, ◌≡◌, ◌∙◌, true, sub64, List, [], ◌∷◌, length, ℤ, pos, minus_one,
  arith, refl,
}
use tram.Sys.{Env, Trace, Outcome, done, faulted, division_by_zero, malloc}
use tram.Settings.{Settings, Floats}
use tram.Stats.{
  DataNode, Stat, Handler, stat_init, process_stats, travel_times, delta_caps, find_bottom,
}
use tram.Stats.Summary.{
  sum, IsSummary, figures, process_stat-nil, process_stat-figures, figures-IsSummary,
}
use tram.Stats.Capture.{capture, sum-delta_caps, length-delta_caps}

-- a handler that has kept `nodes` and made no figures yet
abbrev pub collected : List DataNode → (dropped : ℕ) → Handler
collected nodes dropped = record {
  stack = nodes;
  dropped_packets = dropped;
  delta_cap = stat_init;
  travel = stat_init;
}

-- the two arrays have been allocated
abbrev pub after_mallocs : ℕ → Trace → Trace
after_mallocs n t = malloc (8 * n - 1) ∷ malloc (8 * n) ∷ t

module _ (fl : Floats) (set : Settings) where
  -- the figures that belong to a stack of two entries or more
  pub record Figures (node next : DataNode) (rest : List DataNode) (travel delta : Stat)
      : Type 0 where
    pub travel_summary : IsSummary (travel_times set (node ∷ next ∷ rest)) travel
    pub delta_summary : IsSummary (delta_caps fl set node (next ∷ rest)) delta
    pub delta_mean :
        delta.mean
        ≡ sub64 (capture fl set node) (capture fl set (find_bottom node (next ∷ rest)))
          / length (next ∷ rest)

  -- the sums that the code forms stay within 64 bits
  abbrev pub Fits : List DataNode → Type 0
  Fits [] = Unit
  Fits (node ∷ rest) =
      (sum (travel_times set (node ∷ rest)) < 2 ^ 64) × (sum (delta_caps fl set node rest) < 2 ^ 64)

  -- the outcome for each number of entries
  abbrev pub Reported : List DataNode → (dropped : ℕ) → Trace → Outcome (ℤ × Handler) → Type 0
  Reported [] d t r = r ≡ done (minus_one, collected [] d) t
  Reported (node ∷ []) d t r = r ≡ faulted division_by_zero (after_mallocs 1 t)
  Reported (node ∷ next ∷ rest) d t r =
      (travel : Stat) × (delta : Stat) × (r
        ≡ done
            (
              pos 0,
              record (collected (node ∷ next ∷ rest) d) { travel = travel; delta_cap = delta },
            )
            (after_mallocs (length (node ∷ next ∷ rest)) t))
      × Figures node next rest travel delta

  mean_lem :
      (node : DataNode) (rest : List DataNode)
      → sum (delta_caps fl set node rest) < 2 ^ 64
      → sum (delta_caps fl set node rest) / length (delta_caps fl set node rest)
        ≡ sub64 (capture fl set node) (capture fl set (find_bottom node rest)) / length rest
  mean_lem node rest fits =
      let e : sum (delta_caps fl set node rest)
          ≡ sub64 (capture fl set node) (capture fl set (find_bottom node rest)) =
        omega (arith, sum-delta_caps fl set node rest) in
      rw (e, length-delta_caps fl set node rest)

  figures-Figures :
      (node next : DataNode) (rest : List DataNode)
      → Fits (node ∷ next ∷ rest)
      → Figures node next rest
          (figures fl (travel_times set (node ∷ next ∷ rest)))
          (figures fl (delta_caps fl set node (next ∷ rest)))
  unfolding travel_times delta_caps
  figures-Figures node next rest (travel_fits, delta_fits) = record {
    travel_summary = figures-IsSummary fl _ _ travel_fits;
    delta_summary = delta_is;
    delta_mean = delta_is.mean ∙ mean_lem node (next ∷ rest) delta_fits;
  }
    where
      delta_is :
          IsSummary
            (delta_caps fl set node (next ∷ rest))
            (figures fl (delta_caps fl set node (next ∷ rest)))
      delta_is = figures-IsSummary fl _ _ delta_fits

  -- the handler once its figures have been made
  abbrev pub summed : (node next : DataNode) (rest : List DataNode) (dropped : ℕ) → Handler
  summed node next rest dropped = record (collected (node ∷ next ∷ rest) dropped) {
    travel = figures fl (travel_times set (node ∷ next ∷ rest));
    delta_cap = figures fl (delta_caps fl set node (next ∷ rest));
  }

  -- Two entries or more give figures, whether or not the sums fit.
  pub process_stats-more :
      (env : Env) (node next : DataNode) (rest : List DataNode) (dropped : ℕ) (t : Trace)
      → ((u : Trace) → env.allocated u ≡ true)
      → process_stats env fl set (collected (node ∷ next ∷ rest) dropped) t
        ≡ done
            (pos 0, summed node next rest dropped)
            (after_mallocs (length (node ∷ next ∷ rest)) t)
  unfolding process_stats
  process_stats-more env node next rest d t room =
      rw (room, room) (rw (process_stat-figures, process_stat-figures))

  -- One entry leaves no difference to average.
  pub process_stats-one :
      (env : Env) (node : DataNode) (dropped : ℕ) (t : Trace)
      → ((u : Trace) → env.allocated u ≡ true)
      → process_stats env fl set (collected (node ∷ []) dropped) t
        ≡ faulted division_by_zero (after_mallocs 1 t)
  unfolding process_stats
  process_stats-one env node d t room =
      rw (room (malloc 8 ∷ t), room (after_mallocs 1 t), process_stat-figures, process_stat-nil)

  pub process_stats-nil :
      (env : Env) (dropped : ℕ) (t : Trace)
      → process_stats env fl set (collected [] dropped) t ≡ done (minus_one, collected [] dropped) t
  unfolding process_stats
  process_stats-nil env d t = refl

  -- If memory can be allocated and the sums stay within 64 bits, `process_stats` on a handler
  -- without figures returns -1 with no entry, divides by zero with one, and with two or more
  -- returns 0, changing nothing but the figures: both are summaries of their samples, and the mean
  -- of the capture deltas is the time from the first capture to the last over the number of
  -- deltas.
  pub process_stats_lem :
      (env : Env) (nodes : List DataNode) (dropped : ℕ) (t : Trace)
      → ((u : Trace) → env.allocated u ≡ true)
      → Fits nodes
      → Reported nodes dropped t (process_stats env fl set (collected nodes dropped) t)
  unfolding process_stats
  process_stats_lem env [] d t room fits = refl
  process_stats_lem env (node ∷ []) d t room fits = process_stats-one env node d t room
  process_stats_lem env (node ∷ next ∷ rest) d t room fits = (
    figures fl (travel_times set (node ∷ next ∷ rest)),
    figures fl (delta_caps fl set node (next ∷ rest)),
    process_stats-more env node next rest d t room,
    figures-Figures node next rest fits,
  )

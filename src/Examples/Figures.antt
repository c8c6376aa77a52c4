-- ===== src/Examples/Figures.antt =====
-- Runs on the statistics: the stack, the figures, the times.
use mathlib.Core.List.Perm
use tram.Prelude.{List, [], ◌∷◌, refl, arith}
use tram.Settings.{hwlatency_to_ns}
use tram.Time.{timespec_to_ns}
use tram.Stats.{
  DataNode, process_stats, travel_times, delta_caps, capture_ns, get_cap_time, travel_time,
  process_stat, stat_init,
}
use tram.Stats.Order.{SameFigures, process_stat-Perm}
use tram.Stats.Report.{collected, Reported, Fits, process_stats_lem}
use tram.Examples.Data.{stream, radio, floats, node_at}

abbrev three : List DataNode
three = node_at 3 ∷ node_at 2 ∷ node_at 0 ∷ []

three-Fits : Fits floats stream three
unfolding travel_times travel_time delta_caps get_cap_time capture_ns timespec_to_ns hwlatency_to_ns
three-Fits = (omega arith, omega arith)

process_stats_lem_example :
    Reported floats stream three 1 [] (process_stats radio floats stream (collected three 1) [])
process_stats_lem_example = process_stats_lem floats stream radio three 1 [] (λ u. refl) three-Fits

process_stat-Perm_example :
    SameFigures
      (process_stat floats (3 ∷ 1 ∷ 2 ∷ []) stat_init [])
      (process_stat floats (1 ∷ 3 ∷ 2 ∷ []) stat_init [])
process_stat-Perm_example =
    process_stat-Perm floats stat_init (3 ∷ 1 ∷ 2 ∷ []) (1 ∷ 3 ∷ 2 ∷ []) [] (Perm.swap 1 3 (2 ∷ []))

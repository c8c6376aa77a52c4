-- ===== src/Reports.antt =====
-- What is printed: `print_settings` of avbperf/avb_aaf.c and `avb_stats_print_stats` of
-- avbperf/avb_stats.c.
use mathlib.Core.List.{append_assoc, append-nil}
use tram.Prelude.{sym, ◌∙◌, ◌≡◌, Bool, List, [], ◌∷◌, ◌++◌, refl}
use tram.Sys.{
  Line, banner, stream_id_line, sample_rate_line, bit_depth_line, channels_line, latency_line,
  latency_ms_line, end_to_end_line, escape_line, blank_line, received_line, dropped_line,
  capture_heading, travel_heading, min_line, max_line, mean_line, std_line, print, Trace, done, M,
  ◌>>◌, pure, emit,
}
use tram.Sys.Outcomes.{is_calm, here, next, Makes, Makes-after}
use tram.Settings.{Settings, Floats, hwlatency_to_ns}
use tram.Stats.{Handler}

abbrev pub print_all : List Line → M (Unit {0})
print_all [] = pure tt
print_all (line ∷ lines) = emit (print line) >> print_all lines

unfoldable pub settings_lines : Floats → Settings → (is_talker : Bool) → List Line
unfolding hwlatency_to_ns
settings_lines fl set is_talker =
    (banner is_talker
      ∷ stream_id_line set.stream_id
      ∷ sample_rate_line set.sample_rate
      ∷ bit_depth_line set.bit_depth
      ∷ channels_line set.channels
      ∷ latency_line set.hw_latency
      ∷ latency_ms_line (hwlatency_to_ns fl set)
      ∷ end_to_end_line (hwlatency_to_ns fl set) set.max_transit_time
      ∷ blank_line
      ∷ escape_line
      ∷ [])

unfoldable pub print_settings : Floats → Settings → (is_talker : Bool) → M (Unit {0})
print_settings fl set is_talker = print_all (settings_lines fl set is_talker)

-- the lines behind the two counts
abbrev pub figure_lines : Handler → List Line
figure_lines self =
    blank_line
    ∷ capture_heading
    ∷ min_line self.delta_cap.min
    ∷ max_line self.delta_cap.max
    ∷ mean_line self.delta_cap.mean
    ∷ std_line self.delta_cap.std
    ∷ blank_line
    ∷ travel_heading
    ∷ min_line self.travel.min
    ∷ max_line self.travel.max
    ∷ mean_line self.travel.mean
    ∷ std_line self.travel.std
    ∷ []

unfoldable pub stats_lines : Handler → List Line
stats_lines self =
    received_line self.travel.count ∷ dropped_line self.dropped_packets ∷ figure_lines self

unfoldable pub print_stats : Handler → M (Unit {0})
print_stats self = print_all (stats_lines self)

-- the history once lines have been printed
abbrev pub after_lines : List Line → Trace → Trace
after_lines [] t = t
after_lines (line ∷ lines) t = after_lines lines (print line ∷ t)

pub print_all-after_lines :
    (lines : List Line) (t : Trace) → print_all lines t ≡ done tt (after_lines lines t)
print_all-after_lines [] t = refl
print_all-after_lines (line ∷ lines) t = print_all-after_lines lines (print line ∷ t)

-- the lines printed in a history
abbrev pub printed : Trace → List Line
printed [] = []
printed (print line ∷ t) = printed t ++ (line ∷ [])
printed (_ ∷ t) = printed t

print_all-Makes : (lines : List Line) (t : Trace) → Makes is_calm t (print_all lines t)
print_all-Makes [] t = here
print_all-Makes (line ∷ lines) t =
    Makes-after is_calm t (print line ∷ t) _ (next _ refl here)
      (print_all-Makes lines (print line ∷ t))

pub print_settings-Makes :
    (fl : Floats) (set : Settings) (is_talker : Bool) (t : Trace)
    → Makes is_calm t (print_settings fl set is_talker t)
unfolding print_settings
print_settings-Makes fl set is_talker t = print_all-Makes (settings_lines fl set is_talker) t

pub print_stats-Makes : (self : Handler) (t : Trace) → Makes is_calm t (print_stats self t)
unfolding print_stats
print_stats-Makes self t = print_all-Makes (stats_lines self) t

pub printed-after_lines :
    (lines : List Line) (t : Trace) → printed (after_lines lines t) ≡ printed t ++ lines
printed-after_lines [] t = sym (append-nil (printed t))
printed-after_lines (line ∷ lines) t =
    printed-after_lines lines (print line ∷ t) ∙ append_assoc (printed t) (line ∷ []) lines

-- ===== src/Cli/Whole.antt =====
-- `main` and the descriptors.
use tram.Prelude.{ℕ, ◌≡◌, ◌⊎◌, inl, inr, Bool-cases, Option, none, some, List, ℤ, pos}
use tram.Sys.{Env, Trace, Outcome, done, exited, faulted}
use tram.Sys.Descriptors.{is_open, attributes, HandsOutFresh}
use tram.Sys.Outcomes.{Gives, Gives-bind}
use tram.Sys.Conclusion.{Concluded}
use tram.Terminal.{found}
use tram.Settings.{Floats}
use tram.Avtp.{Avtp}
use tram.Alsa.{PcmFormats}
use tram.Session.Whole.{avb_aaf_listener-Concluded}
use tram.Talker.Whole.{avb_aaf_talker-Concluded}
use tram.Cli.{
  Scan, Arg, Config, default_config, is_int, frame_size, settings_of, parse_args, run, main,
}
use tram.Cli.Unread.{parse_args-Untouched}

-- what is open, and the terminal, once a status has been returned
abbrev pub Returned : Env → Trace → Option ℤ → Trace → Type 0
Returned env t none u = Unit
Returned env t (some r) u =
    ((k : ℕ) → is_open env k u ≡ is_open env k t)
    × ((attributes u ≡ some (found env t)) ⊎ (r ≡ pos 1))

Concluded-Returned :
    (env : Env) (t : Trace) (No : Trace → Type 0) (r : Outcome (Option ℤ))
    → Concluded env t No r
    → Gives (Returned env t) r
Concluded-Returned env t No (done none u) c = tt
Concluded-Returned env t No (done (some r) u) (same, inl back) = (same, inl back)
Concluded-Returned env t No (done (some r) u) (same, inr (one, _, _)) = (same, inr one)
Concluded-Returned env t No (exited c u) h = tt
Concluded-Returned env t No (faulted f u) h = tt

module _ (env : Env) (fresh : HandsOutFresh env) (a : Avtp) (fl : Floats) (formats : PcmFormats)
    (rounds : ℕ) (buffer : List ℕ) (t : Trace) where
  run-Returned : (c : Config) → Gives (Returned env t) (run env a fl formats rounds buffer c t)
  unfolding run
  run-Returned c = elim (Bool-cases (is_int (frame_size c))) [
    | inr huge ↦ rw huge tt
    | inl fits ↦ rw fits (elim (Bool-cases c.talker_mode) [
      | inl talks ↦ rw talks (
          Concluded-Returned env t _ _ (
            avb_aaf_talker-Concluded env fresh a fl formats rounds c.ifname c.macaddr c.priority
              (settings_of a c) c.device buffer t))
      | inr listens ↦ rw listens (
          Concluded-Returned env t _ _ (
            avb_aaf_listener-Concluded env a fl formats rounds c.ifname (settings_of a c) c.device
              c.record_time c.record_file t fresh))
    ])
  ]

  -- If Linux hands out no descriptor that is open: a run of `main` that returns a status, for any
  -- command line, leaves open exactly what was open before, and either has given the terminal the
  -- attributes found at the start back or returns 1. Nothing is stated of a run that exits, faults
  -- or uses up its rounds.
  pub main-Returned :
      (s : Scan) (args : List Arg)
      → Gives (Returned env t) (main env a fl formats s rounds buffer args t)
  unfolding main
  main-Returned s args =
      Gives-bind (λ c u. u ≡ t) (Returned env t) (parse_args s args default_config t)
        (run env a fl formats rounds buffer) (parse_args-Untouched s args default_config t)
        λ c u e. rw e (run-Returned c)

-- ===== src/Cli/Valid.antt =====
-- What a command line that is accepted has set.
use mathlib.Core.Path.{subst}
use tram.Prelude.{
  ℕ, ltb, length, ◌≡◌, true, false, not, ◌&&◌, Option, none, some, List, [], ◌∷◌, is_empty, is_zero,
  Bool-cases, inl, inr, refl,
}
use tram.Sys.{Trace, Outcome, done, exited, faulted, M, and_then}
use tram.Cli.{
  Scan, Arg, interface_arg, key_end, bit_depth_arg, priority_arg, stream_id_arg, dst_addr_arg,
  file_arg, device_arg, latency_arg, sample_rate_arg, channels_arg, max_transit_time_arg,
  transit_time_arg, timeout_arg, talker_arg, Config, default_config, is_depth, is_priority, set_mac,
  parser, parser_talker, parser_listener, parse_arg, parse_args,
}

-- what each option leaves
pub record InRange (c : Config) : Type 0 where
  pub depth : is_depth c.bit_depth ≡ true
  pub priority : is_priority c.priority ≡ true

-- what the end asks for besides
pub record Complete (c : Config) : Type 0 where
  pub in_range : InRange c
  pub interface : c.got_iface ≡ true
  pub destination : (c.talker_mode && not c.got_mac) ≡ false
  pub timeout : (not (is_empty c.record_file) && is_zero c.record_time) ≡ false

-- if the run returns, its result has the property
abbrev pub Returns : (Config → Type 0) → Outcome Config → Type 0
Returns P (done c t) = P c
Returns P (exited code t) = Unit
Returns P (faulted f t) = Unit

Returns-bind :
    (P Q : Config → Type 0) (r : Outcome Config) (f : Config → M Config)
    → Returns P r
    → ((c : Config) (t : Trace) → P c → Returns Q (f c t))
    → Returns Q (and_then r f)
Returns-bind P Q (done c t) f h g = g c t h
Returns-bind P Q (exited code t) f h g = tt
Returns-bind P Q (faulted x t) f h g = tt

-- the two values checked have not been touched
kept :
    {c c' : Config} → c'.bit_depth ≡ c.bit_depth → c'.priority ≡ c.priority → InRange c → InRange c'
kept d p ok = record { depth = rw d ok.depth; priority = rw p ok.priority }

Returns-weaken : (r : Outcome Config) → Returns Complete r → Returns InRange r
Returns-weaken (done c t) h = h.in_range
Returns-weaken (exited code t) h = tt
Returns-weaken (faulted x t) h = tt

set_mac-InRange :
    (mac : Option (List ℕ)) (c : Config) (t : Trace) → InRange c → Returns InRange (set_mac mac c t)
set_mac-InRange none c t ok = tt
set_mac-InRange (some mac) c t ok = kept refl refl ok

module _ (s : Scan) where
  end-Complete : (c : Config) (t : Trace) → InRange c → Returns Complete (parse_arg s key_end c t)
  unfolding parse_arg parser parser_talker parser_listener
  end-Complete c t ok = elim (Bool-cases c.got_iface) [
    | inr missing ↦ simp missing tt
    | inl got ↦ simp got (elim (Bool-cases (c.talker_mode && not c.got_mac)) [
      | inl nowhere ↦ simp nowhere tt
      | inr sent ↦
          simp sent (elim (Bool-cases (not (is_empty c.record_file) && is_zero c.record_time)) [
            | inl endless ↦ simp endless tt
            | inr ends ↦
                simp ends
                  (record { in_range = ok; interface = got; destination = sent; timeout = ends })
          ])
    ])
  ]

  parse_arg-InRange :
      (arg : Arg) (c : Config) (t : Trace) → InRange c → Returns InRange (parse_arg s arg c t)
  unfolding parse_arg parser parser_talker parser_listener
  parse_arg-InRange (bit_depth_arg arg) c t ok = elim (Bool-cases (is_depth (s.atoi arg))) [
    | inl good ↦ rw good (record { depth = good; priority = ok.priority })
    | inr bad ↦ rw bad tt
  ]
  parse_arg-InRange (priority_arg arg) c t ok = elim (Bool-cases (is_priority (s.atoi arg))) [
    | inl good ↦ rw good (record { depth = ok.depth; priority = good })
    | inr bad ↦ rw bad tt
  ]
  parse_arg-InRange (stream_id_arg arg) c t ok = kept refl refl ok
  parse_arg-InRange (dst_addr_arg arg) c t ok =
      Returns-bind InRange InRange (set_mac (s.mac arg) c t) (parser_listener s (dst_addr_arg arg))
        (set_mac-InRange (s.mac arg) c t ok) (λ c' u ok'. ok')
  parse_arg-InRange (file_arg arg) c t ok = elim (Bool-cases (ltb (length arg) 64)) [
    | inl short ↦ rw short (kept refl refl ok)
    | inr long ↦ rw long tt
  ]
  parse_arg-InRange key_end c t ok = Returns-weaken _ (end-Complete c t ok)
  parse_arg-InRange (interface_arg arg) c t ok = kept refl refl ok
  parse_arg-InRange (device_arg arg) c t ok = kept refl refl ok
  parse_arg-InRange (latency_arg arg) c t ok = kept refl refl ok
  parse_arg-InRange (sample_rate_arg arg) c t ok = kept refl refl ok
  parse_arg-InRange (channels_arg arg) c t ok = kept refl refl ok
  parse_arg-InRange (max_transit_time_arg arg) c t ok = kept refl refl ok
  parse_arg-InRange (transit_time_arg arg) c t ok = kept refl refl ok
  parse_arg-InRange (timeout_arg arg) c t ok = kept refl refl ok
  parse_arg-InRange talker_arg c t ok = ok2
    where
      ok2 : InRange (record c { talker_mode = true })
      ok2 = kept refl refl ok

  parse_args_from :
      (args : List Arg) (c : Config) (t : Trace)
      → InRange c
      → Returns Complete (parse_args s args c t)
  unfolding parse_args
  parse_args_from [] c t ok = end-Complete c t ok
  parse_args_from (arg ∷ args) c t ok =
      Returns-bind InRange Complete _ _ (parse_arg-InRange arg c t ok)
        λ c' u ok'. parse_args_from args c' u ok'

  -- A command line that the parsers accept, started from the defaults, has a bit depth of 16, 24
  -- or 32 and a priority from 0 to 6, names an interface, has a destination if it asks for the
  -- talker, and a timeout if it names a file.
  pub parse_args-Complete :
      (args : List Arg) (t u : Trace) {c : Config}
      → parse_args s args default_config t ≡ done c u
      → Complete c
  parse_args-Complete args t u e =
      subst (Returns Complete) e
        (parse_args_from args default_config t (record { depth = refl; priority = refl }))

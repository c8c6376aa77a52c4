-- ===== src/Cli/Unread.antt =====
-- The command line is parsed, and the descriptors are opened, without a read of the keyboard.
use tram.Prelude.{ℕ, ◌≡◌, Option, none, some, List, [], ◌∷◌, ℤ, refl, arith}
use tram.Sys.{Env, Trace, Outcome}
use tram.Sys.Descriptors.{keys}
use tram.Sys.Outcomes.{Gives, Gives-bind}
use tram.Socket.{
  eth_p_tsn, create_talker_socket, create_listener_socket, setup_socket_address, join_group,
}
use tram.Session.{open_timers, open_all, no_mac}
use tram.Cli.{
  Scan, Arg, key_end, bit_depth_arg, priority_arg, dst_addr_arg, file_arg, Config, set_mac, parser,
  parser_talker, parser_listener, parse_arg, parse_args,
}

-- the parsers make no call
abbrev pub Untouched : Trace → Outcome Config → Type 0
Untouched t = Gives (λ c u. u ≡ t)

module _ (s : Scan) where
  parser-Untouched : (arg : Arg) (c : Config) (t : Trace) → Untouched t (parser s arg c t)
  unfolding parser
  parser-Untouched (bit_depth_arg arg) c t = ground arith
  parser-Untouched key_end c t = ground arith
  parser-Untouched _ c t = refl

  set_mac-Untouched :
      (mac : Option (List ℕ)) (c : Config) (t : Trace) → Untouched t (set_mac mac c t)
  set_mac-Untouched none c t = tt
  set_mac-Untouched (some mac) c t = refl

  parser_talker-Untouched :
      (arg : Arg) (c : Config) (t : Trace) → Untouched t (parser_talker s arg c t)
  unfolding parser_talker
  parser_talker-Untouched (dst_addr_arg arg) c t = set_mac-Untouched (s.mac arg) c t
  parser_talker-Untouched (priority_arg arg) c t = ground arith
  parser_talker-Untouched key_end c t = ground arith
  parser_talker-Untouched _ c t = refl

  parser_listener-Untouched :
      (arg : Arg) (c : Config) (t : Trace) → Untouched t (parser_listener s arg c t)
  unfolding parser_listener
  parser_listener-Untouched (file_arg arg) c t = ground arith
  parser_listener-Untouched key_end c t = ground arith
  parser_listener-Untouched _ c t = refl

  parse_arg-Untouched : (arg : Arg) (c : Config) (t : Trace) → Untouched t (parse_arg s arg c t)
  unfolding parse_arg
  parse_arg-Untouched arg c t =
      Gives-bind (λ _ u. u ≡ t) (λ _ u. u ≡ t) _ (parser_listener s arg)
        (Gives-bind (λ _ u. u ≡ t) (λ _ u. u ≡ t) _ (parser_talker s arg) (parser-Untouched arg c t)
          λ c' u e. rw e (parser_talker-Untouched arg c' t))
        λ c' u e. rw e (parser_listener-Untouched arg c' t)

  pub parse_args-Untouched :
      (args : List Arg) (c : Config) (t : Trace) → Untouched t (parse_args s args c t)
  unfolding parse_args
  parse_args-Untouched [] c t = parse_arg-Untouched key_end c t
  parse_args-Untouched (arg ∷ args) c t =
      Gives-bind (λ _ u. u ≡ t) (λ _ u. u ≡ t) _ (parse_args s args) (parse_arg-Untouched arg c t)
        λ c' u e. rw e (parse_args-Untouched args c' t)

-- the keyboard is not read
abbrev pub Unread : {A : Type 0} → Trace → Outcome A → Type 0
Unread t r = Gives (λ _ u. keys u ≡ keys t) r

module _ (env : Env) where
  pub create_talker_socket-Unread :
      (priority : ℤ) (t : Trace) → Unread t (create_talker_socket env priority t)
  unfolding create_talker_socket
  create_talker_socket-Unread priority t = ground arith

  create_listener_socket-Unread :
      (ifname macaddr : List ℕ) (protocol : ℕ) (t : Trace)
      → Unread t (create_listener_socket env ifname macaddr protocol t)
  unfolding create_listener_socket setup_socket_address join_group
  create_listener_socket-Unread ifname macaddr protocol t = ground arith

  open_timers-Unread : (sk_fd : ℤ) (t : Trace) → Unread t (open_timers env sk_fd t)
  unfolding open_timers
  open_timers-Unread sk_fd t = ground arith

  pub open_all-Unread : (ifname : List ℕ) (t : Trace) → Unread t (open_all env ifname t)
  unfolding open_all
  open_all-Unread ifname t =
      Gives-bind (λ _ u. keys u ≡ keys t) (λ _ u. keys u ≡ keys t)
        (create_listener_socket env ifname no_mac eth_p_tsn t) (open_timers env)
        (create_listener_socket-Unread ifname no_mac eth_p_tsn t)
        λ fd u e. rw e at (open_timers-Unread fd u)

-- ===== src/Session/Accounts.antt =====
-- What a session of the listener has told of its packets when it is over.
use tram.Prelude.{
  ℕ, zero, suc, ◌+◌, ◌<◌, ◌≤◌, ◌≡◌, u32, Bool, true, Option, some, List, [], ◌∷◌, ◌++◌, map, length,
  if◌then◌else◌, pos, ℤ, refl, arith, false,
}
use tram.Sys.{
  Pdu, Env, Trace, Outcome, done, exited, faulted, M, ◌>>=◌, pure, and_then, poll, Termios,
  null_pointer, uninitialised, division_by_zero, wav_close,
}
use tram.Sys.Outcomes.{Returns}
use tram.Sys.Descriptors.{same_fd, keys}
use tram.Settings.{Settings, Floats}
use tram.Stats.{DataNode, Stat, Handler, stat_init, travel_times, delta_caps}
use tram.Stats.Summary.{figures}
use tram.Stats.Report.{collected, after_mallocs}
use tram.Avtp.{Avtp}
use tram.Playout.Armed.{armed, HonestTimer}
use tram.Listener.{State, Fds, Next, again, leave, loop}
use tram.Listener.Loop.{initial}
use tram.Listener.Packets.{Healthy}
use tram.Listener.View.{heard, played, payload}
use tram.Listener.Receipts.{receipts, pcm}
use tram.Listener.Numbering.{lost, Counted, firsts, Tally, Tallied, Arrives}
use tram.Listener.Drops.{loop-Tallied}
use tram.Listener.Ends.{Left, loop-Left}
use tram.Session.{conclude, finish}
use tram.Session.Teardown.{TornDown, Shows, Ended, finish_lem}

without_figures :
    (h : Handler)
    → h.delta_cap ≡ stat_init
    → h.travel ≡ stat_init
    → h ≡ collected h.stack h.dropped_packets
without_figures h d t = λ i. record h { delta_cap = d i; travel = t i }

module _ (index : ℕ → ℕ) (env : Env) (fl : Floats) (term_old_set : Termios) (fds : Fds)
    (set : Settings) (recording : Bool) where
  -- the end of a session that has left its loop with the history `u`, for each number of packets
  abbrev pub Accounts : (packets : ℕ) → Trace → Outcome (Option ℤ) → Type 0
  Accounts zero u r =
      r ≡ (if recording then faulted uninitialised (wav_close ∷ u) else faulted null_pointer u)
  Accounts (suc zero) u r = r ≡ faulted division_by_zero (after_mallocs 1 u)
  Accounts (suc (suc m)) u r =
      (v : Trace) × (r ≡ done (some (pos 0)) v)
      × TornDown env term_old_set fds u v
      × (delta : Stat) × (travel : Stat) × Shows (suc (suc m)) (u32 (lost index (suc m))) delta
          travel u v

  wrap : ℤ → M (Option ℤ)
  wrap r = pure (some r)

  Ended-Accounts :
      (nodes : List DataNode) (h : Handler) (expected : ℕ) (u : Trace) (r : Outcome ℤ)
      → Counted index (length nodes) h expected
      → Ended env fl term_old_set fds set recording nodes h.dropped_packets u r
      → Accounts (length nodes) u (and_then r wrap)
  unfolding wrap
  Ended-Accounts [] h expected u r counted e = rw e (ground arith)
  Ended-Accounts (node ∷ []) h expected u r counted e = rw e refl
  Ended-Accounts (node ∷ next ∷ rest) h expected u r counted (v, e, down, shows) = (
    v,
    rw e refl,
    down,
    figures fl (delta_caps fl set node (next ∷ rest)),
    figures fl (travel_times set (node ∷ next ∷ rest)),
    rw (counted.1) at shows,
  )

module _ (index : ℕ → ℕ) (source : ℕ → Option Pdu) (env : Env) (fl : Floats)
    (term_old_set : Termios) (fds : Fds) (set : Settings) (recording : Bool) where
  -- the loop has been left, and what follows it tells of what it has received
  abbrev pub Told : Outcome Next → Outcome (Option ℤ) → Type 0
  Told r s =
      (st : State) × (u : Trace) × (r ≡ done (leave st) u)
      × (played u ++ pcm st.samples ≡ map (payload set) (heard env u))
      × (map some (heard env u) ≡ firsts source (receipts u))
      × Accounts index env fl term_old_set fds set recording (receipts u) u s

  module _ (filename : List ℕ) (room : (u : Trace) → env.allocated u ≡ true) where
    pub conclude-Accounts :
        (st : State) (u : Trace)
        → Tally env set index source st u
        → Accounts index env fl term_old_set fds set recording
            (receipts u)
            u
            (conclude env fl term_old_set fds set recording filename (leave st) u)
    unfolding conclude wrap
    conclude-Accounts st u (counted, entries, no_deltas, no_travels, faithful, listed) =
        rw (entries) at (
          Ended-Accounts index env fl term_old_set fds set recording st.stats.stack st.stats
            st.expected_seq u (finish env fl term_old_set fds set recording filename st u)
            (rw entries counted)
            (finish_lem env fl term_old_set fds set filename room recording st.stats.stack
              st.stats.dropped_packets st u (without_figures st.stats no_deltas no_travels)))

    told :
        (r : Outcome Next)
        → Returns (Tallied env set index source) r
        → Left r
        → Told r (and_then r (conclude env fl term_old_set fds set recording filename))
    told (done (again st) u) tally left = absurd left
    told (done (leave st) u) tally left =
        (st, u, refl, tally.4, tally.5, conclude-Accounts st u tally)
    told (exited c u) tally left = absurd left
    told (faulted f u) tally left = absurd left

module _ (index : ℕ → ℕ) (rising : (m : ℕ) → index m < index (suc m))
    (near : (m : ℕ) → index (suc m) ≤ index m + 256) (source : ℕ → Option Pdu) (env : Env)
    (healthy : Healthy env) (a : Avtp) (fl : Floats) (term_old_set : Termios) (fds : Fds)
    (set : Settings) (recording : Bool) (filename : List ℕ)
    (arrives : (t : Trace)
      → (env.ready (poll fds.sk_fd fds.timer_fd fds.session_tim_fd ∷ t)).socket_ready ≡ true
      → Arrives env a fds set index source (poll fds.sk_fd fds.timer_fd fds.session_tim_fd ∷ t))
    (k : ℕ) (honest : HonestTimer env k) (ours : same_fd k fds.timer_fd ≡ true) (last : ℕ)
    (escape : (u : Trace) → keys u ≡ last → env.key u ≡ 27) where
  -- Where the figures can be counted on, and the escape key comes, the loop is left, and what
  -- follows it tells of the packets.
  pub session-Told :
      (rounds : ℕ) (t : Trace)
      → armed env k t ≡ false
      → receipts t ≡ 0
      → played t ≡ []
      → keys t + suc rounds ≡ last
      → Told index source env fl term_old_set fds set recording
          (loop env a fds set recording (suc rounds) initial t)
          ((loop env a fds set recording (suc rounds) initial
              >>= conclude env fl term_old_set fds set recording filename)
            t)
  session-Told rounds t unarmed none_yet unplayed e =
      told index source env fl term_old_set fds set recording filename healthy.room
        (loop env a fds set recording (suc rounds) initial t)
        (loop-Tallied index rising near source env healthy a fds set recording arrives k honest ours
          (suc rounds) t unarmed none_yet unplayed)
        (loop-Left env last escape a fds set recording k honest ours healthy.room rounds t unarmed
          e)

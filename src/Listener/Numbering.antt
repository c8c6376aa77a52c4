-- ===== src/Listener/Numbering.antt =====
-- What the listener's figures make of a numbered stream of packets.
use mathlib.Core.List.{append_assoc, map-append}
use tram.Prelude.{
  ℕ, zero, suc, ◌+◌, ◌-◌, ◌^◌, ◌<◌, ◌≤◌, ◌≡◌, ◌∙◌, u8, u32, sub8, true, false, Option, some, ◌∷◌,
  pos, is_empty, length, map, ◌++◌, List, [], ap, sym, refl, arith,
}
use tram.Sys.{Timespec, Pdu, Env, Trace, clock_gettime}
use tram.Sys.Outcomes.{Gives}
use tram.Settings.{Settings}
use tram.Time.{get_presentation_time}
use tram.Stats.{Handler, stat_init}
use tram.Avtp.{Avtp, seq_num, timestamp}
use tram.Packet.Accept.{InStream, HasFormat}
use tram.Playout.{Entry}
use tram.Listener.{State, Fds, Next, new_packet}
use tram.Listener.Packets.{Healthy, Delivered, sample, after_recv, drops_after}
use tram.Listener.View.{state_of, heard, played, payload}
use tram.Listener.Receipts.{receipts, pcm, Heard, new_packet-Heard}
use tram.Listener.Kept.{Took, new_packet-Takes}

-- the packets lost between the first and the packet `m`
abbrev pub lost : (index : ℕ → ℕ) → (m : ℕ) → ℕ
lost index m = index m - index 0 - m

-- The figures after `m` packets.
abbrev pub Counted : (index : ℕ → ℕ) → (m : ℕ) → Handler → (expected_seq : ℕ) → Type 0
Counted index zero stats expected_seq =
    (is_empty stats.stack ≡ true) × (stats.dropped_packets ≡ 0) × (expected_seq < 2 ^ 8)
Counted index (suc m) stats expected_seq =
    (is_empty stats.stack ≡ false)
    × (stats.dropped_packets ≡ u32 (lost index m))
    × (expected_seq ≡ u8 (index m + 1))

-- what a source has at the first `m` positions
abbrev pub firsts : {A : Type 0} → (source : ℕ → Option A) → (m : ℕ) → List (Option A)
firsts source zero = []
firsts source (suc m) = firsts source m ++ (source m ∷ [])

-- the figures, and what is played and queued, of a state and a history
abbrev pub Tally :
    Env → Settings → (index : ℕ → ℕ) → (source : ℕ → Option Pdu) → State → Trace → Type 0
Tally env set index source st t =
    Counted index (receipts t) st.stats st.expected_seq
    × (length st.stats.stack ≡ receipts t)
    × (st.stats.delta_cap ≡ stat_init)
    × (st.stats.travel ≡ stat_init)
    × (played t ++ pcm st.samples ≡ map (payload set) (heard env t))
    × (map some (heard env t) ≡ firsts source (receipts t))

abbrev pub Tallied :
    Env → Settings → (index : ℕ → ℕ) → (source : ℕ → Option Pdu) → Next → Trace → Type 0
Tallied env set index source n u = Tally env set index source (state_of n) u

-- What comes next is the packet that the source has next, of the stream and the format, which
-- carries the low byte of its index, with a presentation time that has not passed.
pub record Arrives (env : Env) (a : Avtp) (fds : Fds) (set : Settings) (index : ℕ → ℕ)
    (source : ℕ → Option Pdu) (t : Trace) : Type 0 where
  pub delivered : Delivered env fds set t
  pub in_stream : InStream a (env.packet (after_recv fds set t)).header set
  pub has_format : HasFormat a (env.packet (after_recv fds set t)).header set
  pub numbered :
      a.aaf_get (env.packet (after_recv fds set t)).header seq_num ≡ some (u8 (index (receipts t)))
  pub sourced : source (receipts t) ≡ some (env.packet (after_recv fds set t))
  pub stamp : ℕ
  pub stamped : a.aaf_get (env.packet (after_recv fds set t)).header timestamp ≡ some stamp
  pub presentation : Timespec
  pub timely : get_presentation_time stamp (env.clock (clock_gettime ∷ t)) ≡ (pos 0, presentation)

module _ (index : ℕ → ℕ) (rising : (m : ℕ) → index m < index (suc m))
    (near : (m : ℕ) → index (suc m) ≤ index m + 256) (source : ℕ → Option Pdu) where
  index_least : (m : ℕ) → index 0 + m ≤ index m
  index_least zero = omega arith
  index_least (suc m) = omega (arith, index_least m, rising m)

  lost-suc :
      (m : ℕ)
      → u32 (u32 (lost index m) + sub8 (u8 (index (suc m))) (u8 (index m + 1)))
        ≡ u32 (lost index (suc m))
  lost-suc m = omega (arith, index_least m, rising m, near m)

  Counted-fits :
      (m : ℕ) (stats : Handler) (expected : ℕ)
      → Counted index m stats expected
      → (expected < 2 ^ 8) × (stats.dropped_packets < 2 ^ 32)
  Counted-fits zero stats expected (empty, none_lost, fits) = (fits, omega (arith, none_lost))
  Counted-fits (suc m) stats expected (some_recorded, count, next) =
      (omega (arith, next), omega (arith, count))

  Counted-Took :
      (m : ℕ) (st st' : State) (e : Entry) (arrival : Timespec)
      → Counted index m st.stats st.expected_seq
      → Took st
          (drops_after st.stats st.expected_seq (u8 (index m)))
          (u8 (u8 (index m) + 1))
          e
          arrival
          st'
      → Counted index (suc m) st'.stats st'.expected_seq
  Counted-Took zero st st' e arrival (empty, none_lost, fits) took = (
    rw took.recorded refl,
    took.counted ∙ rw (empty, none_lost) (omega arith),
    took.expects ∙ omega arith,
  )
  Counted-Took (suc m) st st' e arrival (some_recorded, count, next) took = (
    rw took.recorded refl,
    took.counted ∙ rw (some_recorded, count, next) (lost-suc m),
    took.expects ∙ omega arith,
  )

  -- a state that has taken the packet `pdu`
  Tally-Took :
      (env : Env) (set : Settings) (pdu : Pdu) (presentation arrival : Timespec) (st st' : State)
      (t u : Trace)
      → Tally env set index source st t
      → Took st
          (drops_after st.stats st.expected_seq (u8 (index (receipts t))))
          (u8 (u8 (index (receipts t)) + 1))
          (sample set pdu presentation)
          arrival
          st'
      → source (receipts t) ≡ some pdu
      → Heard env pdu t u
      → Tally env set index source st' u
  Tally-Took env set pdu presentation arrival st st' t u
        (counted, entries, no_deltas, no_travels, faithful, listed) took sourced
        (asked, heard_is, played_is) =
      (
        rw asked (Counted-Took (receipts t) st st' _ _ counted took),
        ap length took.recorded ∙ rw (asked, entries) refl,
        took.deltas ∙ no_deltas,
        took.travels ∙ no_travels,
        ap (λ s. played u ++ pcm s) took.queued
            ∙ (rw
                  (
                    played_is,
                    map-append (λ e. e.pcm_sample) st.samples (sample set pdu presentation ∷ []),
                  )
                  (sym (append_assoc (played t) (pcm st.samples) _))
                ∙ (ap (λ s. s ++ (payload set pdu ∷ [])) faithful
                    ∙ rw (heard_is, map-append (payload set) (heard env t) (pdu ∷ [])) refl)),
        rw (heard_is, asked, map-append some (heard env t) (pdu ∷ []), listed, sourced) refl,
      )

  module _ (env : Env) (healthy : Healthy env) (a : Avtp) (fds : Fds) (set : Settings) where
    pub new_packet-Tally :
        (st : State) (t : Trace)
        → Arrives env a fds set index source t
        → Tally env set index source st t
        → Gives (λ (r, st') u. Tally env set index source st' u) (new_packet env a fds set st t)
    new_packet-Tally st t next tally =
        let (expected_lt, counted_lt) =
          Counted-fits (receipts t) st.stats st.expected_seq tally.0 in
        let (st', u, e, took) =
          new_packet-Takes env healthy fds set a st t next.delivered next.in_stream next.has_format
            (u8 (index (receipts t))) next.stamp next.numbered next.stamped (omega arith) 0
            next.presentation next.timely refl expected_lt counted_lt in
        rw e (
          Tally-Took env set (env.packet (after_recv fds set t)) next.presentation _ st st' t u
            tally took next.sourced (rw e at (new_packet-Heard env fds set t next.delivered a st)))

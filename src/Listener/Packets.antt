-- ===== src/Listener/Packets.antt =====
-- What `new_packet` does with each kind of packet.
use tram.Prelude.{
  ℕ, ◌+◌, ◌^◌, ◌<◌, ◌≡◌, ◌==◌, ◌∙◌, u8, u32, sub8, true, false, List, [], ◌∷◌, ◌++◌, take, is_empty,
  ℤ, pos, is_neg, if◌then◌else◌, arith, refl, Bool-cases, ==_iff, inl, inr,
}
use tram.Sys.{Timespec, Pdu, Env, Trace, done, malloc, clock_gettime, recv, timerfd_settime}
use tram.Settings.{Settings}
use tram.Stats.{Handler, add_dropped}
use tram.Playout.{Entry, sizeof_entry, schedule_sample}
use tram.Listener.{State, Fds, note_drops, received}

-- the samples of a packet, to be played at `tspec`
abbrev pub sample : Settings → Pdu → Timespec → Entry
sample set pdu tspec = record { tspec = tspec; pcm_sample = take set.data_len pdu.avtp_payload }

-- the history after the two calls of `new_packet`
abbrev pub after_recv : Fds → Settings → Trace → Trace
after_recv fds set t = recv fds.sk_fd set.pdu_size ∷ clock_gettime ∷ t

-- The clock is read, and a whole PDU arrives.
pub record Delivered (env : Env) (fds : Fds) (set : Settings) (t : Trace) : Type 0 where
  pub clock_read : is_neg (env.ret (clock_gettime ∷ t)) ≡ false
  pub whole : received (env.ret (after_recv fds set t)) set.pdu_size ≡ true

-- Memory is at hand, and timers can be set.
pub record Healthy (env : Env) : Type 0 where
  pub room : (t : Trace) → env.allocated t ≡ true
  pub timers :
      (fd : ℤ) (tspec : Timespec) (t : Trace)
      → is_neg (env.ret (timerfd_settime fd tspec ∷ t)) ≡ false

module _ (env : Env) (healthy : Healthy env) where
  pub schedule_sample_lem :
      (fd : ℤ) (tspec : Timespec) (pcm : List ℕ) (samples : List Entry) (len : ℕ) (t : Trace)
      → (r : ℤ) × (u : Trace) × (schedule_sample env fd tspec pcm samples len t
          ≡ done (r, samples ++ (record { tspec = tspec; pcm_sample = take len pcm } ∷ [])) u)
        × (is_neg r ≡ false)
  unfolding schedule_sample
  schedule_sample_lem fd tspec pcm [] len t = (
    pos 1,
    timerfd_settime fd tspec ∷ malloc len ∷ malloc sizeof_entry ∷ t,
    rw (
      healthy.room (malloc sizeof_entry ∷ t),
      healthy.room (malloc len ∷ malloc sizeof_entry ∷ t),
      healthy.timers fd tspec (malloc len ∷ malloc sizeof_entry ∷ t),
    ),
    refl,
  )
  schedule_sample_lem fd tspec pcm (x ∷ xs) len t = (
    pos 0,
    malloc len ∷ malloc sizeof_entry ∷ t,
    rw (
      healthy.room (malloc sizeof_entry ∷ t),
      healthy.room (malloc len ∷ malloc sizeof_entry ∷ t),
    ),
    refl,
  )

-- the count of drops once a packet numbered `seq` has come where `expected` was expected
abbrev pub drops_after : Handler → (expected seq : ℕ) → ℕ
drops_after stats expected seq =
    if is_empty stats.stack
    then stats.dropped_packets
    else u32 (stats.dropped_packets + sub8 seq expected)

add_dropped_lem :
    (self : Handler) (count : ℕ)
    → ((add_dropped self count).dropped_packets ≡ (
        if is_empty self.stack then self.dropped_packets else u32 (self.dropped_packets + count)))
      × ((add_dropped self count).stack ≡ self.stack)
      × ((add_dropped self count).delta_cap ≡ self.delta_cap)
      × ((add_dropped self count).travel ≡ self.travel)
unfolding add_dropped
add_dropped_lem self count = ground arith

-- the difference that the code takes after the increments is that of before
sub8_suc : (e s : ℕ) → e < 2 ^ 8 → s < 2 ^ 8 → sub8 (u8 (s + 1)) (u8 (e + 1)) ≡ sub8 s e
sub8_suc e s he hs = omega arith

sub8_self : (e s : ℕ) → e < 2 ^ 8 → s < 2 ^ 8 → u8 (e + 1) ≡ u8 (s + 1) → sub8 s e ≡ 0
sub8_self e s he hs h = omega arith

module _ (expected seq : ℕ) (st : State) (expected_lt : expected < 2 ^ 8) (seq_lt : seq < 2 ^ 8)
    (counted : st.stats.dropped_packets < 2 ^ 32) (now : st.expected_seq ≡ u8 (seq + 1)) where
  pub note_drops-count :
      (note_drops expected st).stats.dropped_packets ≡ drops_after st.stats expected seq
  unfolding note_drops
  note_drops-count = elim (Bool-cases (u8 (expected + 1) == st.expected_seq)) [
    | inl in_order ↦
        rw in_order (
          ground (arith, sub8_self expected seq expected_lt seq_lt ((==_iff _ _).0 in_order ∙ now)))
    | inr gap ↦
        rw (gap, (add_dropped_lem st.stats _).0, now, sub8_suc expected seq expected_lt seq_lt)
  ]

  pub note_drops-rest :
      ((note_drops expected st).stats.stack ≡ st.stats.stack)
      × ((note_drops expected st).samples ≡ st.samples)
      × ((note_drops expected st).expected_seq ≡ st.expected_seq)
      × ((note_drops expected st).is_running ≡ st.is_running)
      × ((note_drops expected st).stats.delta_cap ≡ st.stats.delta_cap)
      × ((note_drops expected st).stats.travel ≡ st.stats.travel)
  unfolding note_drops
  note_drops-rest =
      ground (arith, add_dropped_lem st.stats (sub8 st.expected_seq (u8 (expected + 1))))

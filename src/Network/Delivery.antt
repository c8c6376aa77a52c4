-- ===== src/Network/Delivery.antt =====
-- How the packets that the talker has sent reach the listener.
use tram.Prelude.{
  Option, ℕ, ◌≡◌, u8, some, List, [], ◌∷◌, length, get_elem?, get_elem?-snoc, ℤ, pos, inl, inr,
  refl, arith, ap, ◌∙◌, length-append,
}
use tram.Sys.{Timespec, Pdu, Env, Trace, Outcome, done, exited, faulted, sendto, clock_gettime}
use tram.Settings.{Settings}
use tram.Time.{get_presentation_time}
use tram.Avtp.{Avtp, IsLawful, seq_num, timestamp}
use tram.Packet.Accept.{InStream, HasFormat, is_valid_packet_iff}
use tram.Packet.RoundTrip.{FitsHeader}
use tram.Listener.{Fds}
use tram.Listener.Packets.{Delivered, after_recv}
use tram.Listener.Receipts.{receipts}
use tram.Listener.Numbering.{Arrives}
use tram.Talker.Packets.{sends, Conforms, due}
use tram.Talker.{avb_aaf_talker}
use tram.Talker.Broadcast.{OnAir, Broadcasts, avb_aaf_talker-Broadcasts}
use tram.Alsa.{PcmFormats}
use tram.Settings.{Floats}
use tram.Talker.Relay.{Relays, sent_pdus, captured}
use tram.Network.{history}

length-sent_pdus : (t : Trace) → length (sent_pdus t) ≡ sends t
length-sent_pdus [] = refl
length-sent_pdus (sendto fd pdu size address ∷ t) =
    omega (arith, length-append (sent_pdus t) (pdu ∷ []), length-sent_pdus t)
length-sent_pdus (_ ∷ t) = length-sent_pdus t

-- a packet of the talker that stands at the position `i`
pub record Standing (a : Avtp) (set : Settings) (i : ℕ) (pdu : Pdu) : Type 0 where
  pub in_stream : InStream a pdu.header set
  has_format : HasFormat a pdu.header set
  numbered : a.aaf_get pdu.header seq_num ≡ some (u8 i)
  stamp : ℕ
  stamped : a.aaf_get pdu.header timestamp ≡ some stamp

module _ (env : Env) (a : Avtp) (set : Settings) where
  Conforms-Standing :
      (t : Trace) (i : ℕ) (pdu : Pdu)
      → Conforms env a set t
      → get_elem? (sent_pdus t) i ≡ some pdu
      → Standing a set i pdu
  Conforms-Standing [] i pdu c e = cc
  Conforms-Standing (sendto fd last size address ∷ t) i pdu (valid, numbered, stamped, c) e =
      elim (get_elem?-snoc (sent_pdus t) last pdu i e) [
        | inl old ↦ Conforms-Standing t i pdu c old
        | inr (at_end, same) ↦
            let (s, f, n) =
              (is_valid_packet_iff a last.header set (u8 (sends t))).0 (ap (λ v. v.0) valid) in
            let here : i ≡ sends t = at_end ∙ length-sent_pdus t in
            rw (← same, here)
              (record {
                in_stream = s;
                has_format = f;
                numbered = numbered;
                stamp = due set (env.clock t);
                stamped = stamped;
              })
      ]
  Conforms-Standing (_ ∷ t) i pdu c e = Conforms-Standing t i pdu c e

-- What comes next is the packet of `sent` at the position `index m`, where `m` packets have come
-- before, and it is not late.
pub record Delivers (env : Env) (a : Avtp) (fds : Fds) (set : Settings) (sent : List Pdu)
    (index : ℕ → ℕ) (t : Trace) : Type 0 where
  pub delivered : Delivered env fds set t
  pub sent_at : get_elem? sent (index (receipts t)) ≡ some (env.packet (after_recv fds set t))
  pub timely :
      (stamp : ℕ)
      → a.aaf_get (env.packet (after_recv fds set t)).header timestamp ≡ some stamp
      → (presentation : Timespec) × (get_presentation_time stamp (env.clock (clock_gettime ∷ t))
          ≡ (pos 0, presentation))

-- A packet that is delivered arrives as the listener's figures want it.
Delivers-Arrives :
    (talking env : Env) (a : Avtp) (fds : Fds) (set : Settings) (index : ℕ → ℕ) (sent t : Trace)
    → Conforms talking a set sent
    → Delivers env a fds set (sent_pdus sent) index t
    → Arrives env a fds set index (λ m. get_elem? (sent_pdus sent) (index m)) t
Delivers-Arrives talking env a fds set index sent t c next =
    let standing = Conforms-Standing talking a set sent _ _ c next.sent_at in
    let (presentation, timely) = next.timely standing.stamp standing.stamped in
    record {
      delivered = next.delivered;
      in_stream = standing.in_stream;
      has_format = standing.has_format;
      numbered = standing.numbered;
      sourced = next.sent_at;
      stamp = standing.stamp;
      stamped = standing.stamped;
      presentation = presentation;
      timely = timely;
    }

module _ (talking : Env) (a : Avtp) (fl : Floats) (formats : PcmFormats) (talk_rounds : ℕ)
    (ifname macaddr : List ℕ) (priority : ℤ) (before : Settings) (adev buffer : List ℕ)
    (start : Trace) where
  -- a run of the talker
  abbrev pub talk : Outcome (Option ℤ)
  talk =
      avb_aaf_talker talking a fl formats talk_rounds ifname macaddr priority before adev buffer
        start

  -- the packets that it has sent
  abbrev pub broadcast : List Pdu
  broadcast = sent_pdus (history talk)

  -- the buffers that it has read from its sound card
  abbrev pub recorded : List (List ℕ)
  recorded = captured talking (history talk)

  module _ (laws : IsLawful a) (set : Settings) (fits : FitsHeader set)
      (on : OnAir talking formats ifname macaddr priority before adev set start) where
    pub talk-Broadcasts : Conforms talking a set (history talk) × Relays talking (history talk)
    talk-Broadcasts = at_end talk (
        avb_aaf_talker-Broadcasts talking a laws fl formats set fits talk_rounds ifname macaddr
          priority before adev buffer start on)
      where
        at_end :
            (r : Outcome (Option ℤ))
            → Broadcasts talking a set r
            → Conforms talking a set (history r) × Relays talking (history r)
        at_end (done x u) both = both
        at_end (exited c u) both = absurd both
        at_end (faulted f u) (_, c, pending) = (c, inr (talking.audio u, pending))

    pub broadcast-Standing :
        (i : ℕ) (pdu : Pdu) → get_elem? broadcast i ≡ some pdu → Standing a set i pdu
    broadcast-Standing i pdu e =
        Conforms-Standing talking a set (history talk) i pdu talk-Broadcasts.0 e

    pub broadcast-Arrives :
        (env : Env) (fds : Fds) (index : ℕ → ℕ) (t : Trace)
        → Delivers env a fds set broadcast index t
        → Arrives env a fds set index (λ m. get_elem? broadcast (index m)) t
    broadcast-Arrives env fds index t =
        Delivers-Arrives talking env a fds set index (history talk) t talk-Broadcasts.0

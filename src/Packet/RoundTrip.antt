-- ===== src/Packet/RoundTrip.antt =====
-- A packet of the talker is one that the listener of the same settings accepts.
use tram.Prelude.{ℕ, ◌+◌, ◌^◌, ◌<◌, ◌≡◌, u8, true, some, List, arith, ap}
use tram.Settings.{Settings}
use tram.Avtp.{
  tv, stream_id, format, nsr, chan_per_frame, bit_depth, stream_data_len, sp, seq_num, timestamp,
  Avtp, IsLawful, aaf_get-set,
}
use tram.Packet.{init_pdu, stamp_pdu, is_valid_packet}
use tram.Packet.Accept.{InStream, HasFormat, is_valid_packet_iff, is_valid_packet-seq}

-- The settings fit the fields of the header.
pub record FitsHeader (set : Settings) : Type 0 where
  pub stream_id_fits : set.stream_id < 2 ^ 64
  pub format_fits : set.aaf_bit_depth < 2 ^ 8
  pub nsr_fits : set.aaf_sample_rate < 2 ^ 4
  pub channels_fits : set.channels < 2 ^ 10
  pub bit_depth_fits : set.bit_depth < 2 ^ 8
  pub data_len_fits : set.data_len < 2 ^ 16

module _ (a : Avtp) (laws : IsLawful a) (set : Settings) where
  open laws use {set_header, init_header}

  -- the header that `init_pdu` writes
  pub initialised : List ℕ → List ℕ
  initialised h0 =
      let h1 = set_header (init_header h0) tv 1 in
      let h2 = set_header h1 stream_id set.stream_id in
      let h3 = set_header h2 format set.aaf_bit_depth in
      let h4 = set_header h3 nsr set.aaf_sample_rate in
      let h5 = set_header h4 chan_per_frame set.channels in
      let h6 = set_header h5 bit_depth set.bit_depth in
      let h7 = set_header h6 stream_data_len set.data_len in set_header h7 sp a.sp_normal

  pub init_pdu_lem : (pdu : List ℕ) → init_pdu a pdu set ≡ some (initialised pdu)
  unfolding init_pdu initialised
  init_pdu_lem pdu = rw (laws.init_some) (simp laws.set_some)

  initialised-InStream : FitsHeader set → (pdu : List ℕ) → InStream a (initialised pdu) set
  unfolding initialised
  initialised-InStream fits pdu = record {
    subtype_is = simp (laws.pdu_get-set, laws.init_subtype);
    version_is = simp (laws.pdu_get-set, laws.init_version);
    tv_is = simp (aaf_get-set a laws);
    sp_is = simp (aaf_get-set a laws) (rw laws.sp_fits);
    stream_id_is = simp (aaf_get-set a laws) (ap some (omega (arith, fits)));
  }

  initialised-HasFormat : FitsHeader set → (pdu : List ℕ) → HasFormat a (initialised pdu) set
  unfolding initialised
  initialised-HasFormat fits pdu = record {
    format_is = simp (aaf_get-set a laws) (ap some (omega (arith, fits)));
    nsr_is = simp (aaf_get-set a laws) (ap some (omega (arith, fits)));
    channels_is = simp (aaf_get-set a laws) (ap some (omega (arith, fits)));
    bit_depth_is = simp (aaf_get-set a laws) (ap some (omega (arith, fits)));
    data_len_is = simp (aaf_get-set a laws) (ap some (omega (arith, fits)));
  }

  -- stamping a packet leaves the other fields as they are
  pub stamped : List ℕ → (avtp_time seq : ℕ) → List ℕ
  stamped h avtp_time seq = set_header (set_header h timestamp avtp_time) seq_num seq

  pub stamp_pdu_lem :
      (h : List ℕ) (avtp_time seq : ℕ)
      → stamp_pdu a h avtp_time seq ≡ some (stamped h avtp_time seq)
  unfolding stamp_pdu stamped
  stamp_pdu_lem h avtp_time seq = simp laws.set_some

  stamped-InStream :
      (h : List ℕ) (avtp_time seq : ℕ) → InStream a h set → InStream a (stamped h avtp_time seq) set
  unfolding stamped
  stamped-InStream h avtp_time seq s = record {
    subtype_is = simp laws.pdu_get-set s.subtype_is;
    version_is = simp laws.pdu_get-set s.version_is;
    tv_is = simp (aaf_get-set a laws) s.tv_is;
    sp_is = simp (aaf_get-set a laws) s.sp_is;
    stream_id_is = simp (aaf_get-set a laws) s.stream_id_is;
  }

  stamped-HasFormat :
      (h : List ℕ) (avtp_time seq : ℕ)
      → HasFormat a h set
      → HasFormat a (stamped h avtp_time seq) set
  unfolding stamped
  stamped-HasFormat h avtp_time seq f = record {
    format_is = simp (aaf_get-set a laws) f.format_is;
    nsr_is = simp (aaf_get-set a laws) f.nsr_is;
    channels_is = simp (aaf_get-set a laws) f.channels_is;
    bit_depth_is = simp (aaf_get-set a laws) f.bit_depth_is;
    data_len_is = simp (aaf_get-set a laws) f.data_len_is;
  }

-- The headers of one run of the talker: what `init_pdu` writes, stamped again and again.
pub data Sent (a : Avtp) (set : Settings) : List ℕ → Type 0 where
  initial : {h : List ℕ} (pdu : List ℕ) → init_pdu a pdu set ≡ some h → Sent a set h
  next :
      {g h : List ℕ} (avtp_time seq : ℕ)
      → Sent a set g
      → stamp_pdu a g avtp_time seq ≡ some h
      → Sent a set h

module _ (a : Avtp) (laws : IsLawful a) (set : Settings) (fits : FitsHeader set) where
  Sent-Carries : {h : List ℕ} → Sent a set h → InStream a h set × HasFormat a h set
  Sent-Carries {h} (initial pdu e) =
      let same : initialised a laws set pdu ≡ h = cc (init_pdu_lem a laws set pdu) in
      rw (← same)
        (initialised-InStream a laws set fits pdu, initialised-HasFormat a laws set fits pdu)
  Sent-Carries {h} (next {g} avtp_time seq sent e) =
      let (s, f) = Sent-Carries sent in
      let same : stamped a laws set g avtp_time seq ≡ h =
        cc (stamp_pdu_lem a laws set g avtp_time seq) in
      rw (← same) (
        stamped-InStream a laws set g avtp_time seq s,
        stamped-HasFormat a laws set g avtp_time seq f,
      )

  -- the stamp is what a reader finds
  stamped-fields :
      (g : List ℕ) (avtp_time seq : ℕ)
      → avtp_time < 2 ^ 32
      → seq < 2 ^ 8
      → (a.aaf_get (stamped a laws set g avtp_time seq) timestamp ≡ some avtp_time)
        × (a.aaf_get (stamped a laws set g avtp_time seq) seq_num ≡ some seq)
  unfolding stamped
  stamped-fields g avtp_time seq ht hs = (
    simp (aaf_get-set a laws) (ap some (omega arith)),
    simp (aaf_get-set a laws) (ap some (omega arith)),
  )

  -- For a lawful libavtp and settings that fit the fields of the header: a header that `init_pdu`
  -- has written and the talker has stamped any number of times, the last time with a 32-bit time
  -- and an 8-bit number, is accepted by `is_valid_packet` under the same settings, whatever number
  -- was expected; the next number is expected afterwards, and the time and the number read from it
  -- are those stamped.
  pub is_valid_packet-stamp_pdu :
      {g h : List ℕ} (avtp_time seq expected_seq : ℕ)
      → Sent a set g
      → stamp_pdu a g avtp_time seq ≡ some h
      → avtp_time < 2 ^ 32
      → seq < 2 ^ 8
      → (is_valid_packet a h set expected_seq ≡ (true, u8 (seq + 1)))
        × (a.aaf_get h timestamp ≡ some avtp_time)
        × (a.aaf_get h seq_num ≡ some seq)
  is_valid_packet-stamp_pdu {g} {h} avtp_time seq expected_seq sent e ht hs =
      let same : stamped a laws set g avtp_time seq ≡ h =
        cc (stamp_pdu_lem a laws set g avtp_time seq) in
      let (s, f) = Sent-Carries (next avtp_time seq sent e) in
      let (t_is, n_is) = stamped-fields g avtp_time seq ht hs in
      let n_is' : a.aaf_get h seq_num ≡ some seq = rw (← same) n_is in
      let verdict : (is_valid_packet a h set expected_seq).0 ≡ true =
        (is_valid_packet_iff a h set expected_seq).1 (s, f, (seq, n_is')) in
      let after : (is_valid_packet a h set expected_seq).1 ≡ u8 (seq + 1) =
        is_valid_packet-seq a h set expected_seq seq s n_is' hs in
      (λ i. (verdict i, after i), rw (← same) t_is, n_is')

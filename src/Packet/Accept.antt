-- ===== src/Packet/Accept.antt =====
-- Which packets `is_valid_packet` lets through, and what it makes of the sequence number.
use tram.Prelude.{
  ℕ, ◌+◌, ◌^◌, ◌<◌, ◌≡◌, ◌≢◌, ◌↔◌, u8, true, some, List, arith, Option-cases, inl, inr,
}
use tram.Settings.{Settings}
use tram.Avtp.{
  subtype, version, tv, stream_id, format, nsr, chan_per_frame, bit_depth, stream_data_len, sp,
  seq_num, Avtp,
}
use tram.Packet.{advance, is_valid_format, is_valid_packet}

module _ (a : Avtp) (pdu : List ℕ) (set : Settings) where
  -- the packet belongs to the stream
  pub record InStream : Type 0 where
    pub subtype_is : a.pdu_get pdu subtype ≡ some a.subtype_aaf
    pub version_is : a.pdu_get pdu version ≡ some 0
    pub tv_is : a.aaf_get pdu tv ≡ some 1
    pub sp_is : a.aaf_get pdu sp ≡ some a.sp_normal
    pub stream_id_is : a.aaf_get pdu stream_id ≡ some set.stream_id

  -- the samples have the format of the settings
  pub record HasFormat : Type 0 where
    pub format_is : a.aaf_get pdu format ≡ some set.aaf_bit_depth
    pub nsr_is : a.aaf_get pdu nsr ≡ some set.aaf_sample_rate
    pub channels_is : a.aaf_get pdu chan_per_frame ≡ some set.channels
    pub bit_depth_is : a.aaf_get pdu bit_depth ≡ some set.bit_depth
    pub data_len_is : a.aaf_get pdu stream_data_len ≡ some set.data_len

  module _ (expected_seq : ℕ) where
    is_valid_format-HasFormat : (is_valid_format a pdu set expected_seq).0 ≡ true → HasFormat
    unfolding is_valid_format
    is_valid_format-HasFormat h = ground arith

    HasFormat-is_valid_format :
        HasFormat → is_valid_format a pdu set expected_seq ≡ (true, expected_seq)
    unfolding is_valid_format
    HasFormat-is_valid_format f = ground arith

    is_valid_format-seq : (is_valid_format a pdu set expected_seq).1 ≡ expected_seq
    unfolding is_valid_format
    is_valid_format-seq = ground arith

  -- A packet is accepted exactly if it is of this stream, has a sequence number and has the format
  -- of the settings, whatever number was expected.
  pub is_valid_packet_iff :
      (expected_seq : ℕ)
      → ((is_valid_packet a pdu set expected_seq).0 ≡ true)
        ↔ (InStream × HasFormat × ((seq : ℕ) × (a.aaf_get pdu seq_num ≡ some seq)))
  unfolding is_valid_packet
  is_valid_packet_iff expected_seq = (accepted, (λ (s, f, (n, e)). rebuilt s f n e))
    where
      accepted :
          (is_valid_packet a pdu set expected_seq).0 ≡ true
          → InStream × HasFormat × ((seq : ℕ) × (a.aaf_get pdu seq_num ≡ some seq))
      accepted h = elim (Option-cases (a.aaf_get pdu seq_num)) [
        | inl e ↦ absurd (ground arith)
        | inr (n, e) ↦ (
          ground arith,
          is_valid_format-HasFormat (advance n expected_seq) (ground arith),
          (n, e),
        )
      ]

      rebuilt :
          InStream
          → HasFormat
          → (n : ℕ) → a.aaf_get pdu seq_num ≡ some n
          → (is_valid_packet a pdu set expected_seq).0 ≡ true
      rebuilt s f n e = ground (arith, HasFormat-is_valid_format (advance n expected_seq) f)

  -- A packet of the stream with sequence number `seq` below 256 makes the listener expect `seq +
  -- 1` modulo 256 next, whatever its format and whatever number was expected.
  pub is_valid_packet-seq :
      (expected_seq seq : ℕ)
      → InStream
      → a.aaf_get pdu seq_num ≡ some seq
      → seq < 2 ^ 8
      → (is_valid_packet a pdu set expected_seq).1 ≡ u8 (seq + 1)
  unfolding is_valid_packet advance
  is_valid_packet-seq expected_seq seq s e h =
      ground (arith, is_valid_format-seq (advance seq expected_seq))

  -- A packet that changes the number expected is of this stream.
  pub is_valid_packet-other :
      (expected_seq : ℕ) → (is_valid_packet a pdu set expected_seq).1 ≢ expected_seq → InStream
  unfolding is_valid_packet
  is_valid_packet-other expected_seq h = ground arith

-- ===== src/Packet.antt =====
-- The AAF packets of avbperf/avb_aaf.c: `bit_depth_to_aaf`, `sample_rate_to_aaf`, `init_pdu` and
-- `is_valid_packet`. A PDU is its header here: none of them looks at the payload.
pub mod Accept
pub mod RoundTrip
use tram.Prelude.{ℕ, ◌+◌, u8, ◌==◌, if◌then◌else◌, Bool, true, false, Option, none, some, List}
use tram.Settings.{Settings}
use tram.Avtp.{
  subtype, version, tv, stream_id, format, nsr, chan_per_frame, bit_depth, stream_data_len, sp,
  seq_num, timestamp, Avtp,
}

unfoldable pub bit_depth_to_aaf : Avtp → ℕ → ℕ
bit_depth_to_aaf a depth =
    if depth == 16
    then a.int_16bit
    else if depth == 24
    then a.int_24bit
    else if depth == 32
    then a.float_32bit
    else a.int_16bit

unfoldable pub sample_rate_to_aaf : Avtp → ℕ → ℕ
sample_rate_to_aaf a rate =
    if rate == 44100
    then a.nsr_44_1khz
    else if rate == 48000
    then a.nsr_48khz
    else if rate == 96000
    then a.nsr_96khz
    else if rate == 192000
    then a.nsr_192khz
    else a.nsr_48khz

-- a chain of calls that ends at the first error
infixl 5 ◌>>=◌
abbrev pub ◌>>=◌ : {A B : Type 0} → Option A → (A → Option B) → Option B
none >>= f = none
some a >>= f = f a

-- `none` is the result -1.
unfoldable pub init_pdu : Avtp → (pdu : List ℕ) → Settings → Option (List ℕ)
init_pdu a pdu set = do
  h ← a.pdu_init pdu
  h ← a.pdu_set h tv 1
  h ← a.pdu_set h stream_id set.stream_id
  h ← a.pdu_set h format set.aaf_bit_depth
  h ← a.pdu_set h nsr set.aaf_sample_rate
  h ← a.pdu_set h chan_per_frame set.channels
  h ← a.pdu_set h bit_depth set.bit_depth
  h ← a.pdu_set h stream_data_len set.data_len
  a.pdu_set h sp a.sp_normal

-- The time and the sequence number of one packet, as the talker's loop writes them.
unfoldable pub stamp_pdu : Avtp → (pdu : List ℕ) → (avtp_time seq : ℕ) → Option (List ℕ)
stamp_pdu a pdu avtp_time seq = do h ← a.pdu_set pdu timestamp avtp_time; a.pdu_set h seq_num seq

-- One test of `is_valid_packet`: the field is read, and has to be the one expected. `expected_seq`
-- is what the pointer of that name holds by then.
abbrev pub require : (expected_seq : ℕ) → Option ℕ → (expected : ℕ) → Bool × ℕ → Bool × ℕ
require expected_seq none expected next = (false, expected_seq)
require expected_seq (some v) expected next = if v == expected then next else (false, expected_seq)

-- the expected sequence number after a packet that carries `seq`
unfoldable pub advance : (seq expected_seq : ℕ) → ℕ
advance seq expected_seq = u8 ((if seq == expected_seq then expected_seq else u8 seq) + 1)

-- the tests behind the sequence number
unfoldable pub is_valid_format : Avtp → (pdu : List ℕ) → Settings → (expected_seq : ℕ) → Bool × ℕ
is_valid_format a pdu set expected_seq =
    require expected_seq (a.aaf_get pdu format) set.aaf_bit_depth (
      require expected_seq (a.aaf_get pdu nsr) set.aaf_sample_rate (
        require expected_seq (a.aaf_get pdu chan_per_frame) set.channels (
          require expected_seq (a.aaf_get pdu bit_depth) set.bit_depth (
            require expected_seq (a.aaf_get pdu stream_data_len) set.data_len
              (true, expected_seq)))))

-- the verdict, and what `expected_seq` points to afterwards
unfoldable pub is_valid_packet : Avtp → (pdu : List ℕ) → Settings → (expected_seq : ℕ) → Bool × ℕ
is_valid_packet a pdu set expected_seq =
    require expected_seq (a.pdu_get pdu subtype) a.subtype_aaf (
      require expected_seq (a.pdu_get pdu version) 0 (
        require expected_seq (a.aaf_get pdu tv) 1 (
          require expected_seq (a.aaf_get pdu sp) a.sp_normal (
            require expected_seq (a.aaf_get pdu stream_id) set.stream_id
              (elim (a.aaf_get pdu seq_num) [
                | none ↦ (false, expected_seq)
                | some seq ↦ is_valid_format a pdu set (advance seq expected_seq)
              ])))))

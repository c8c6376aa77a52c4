-- ===== src/Alsa.antt =====
-- The sound card, avbperf/avb_alsa.c.
pub mod Setup
pub mod Calls
use tram.Prelude.{
  ltb, length, ℕ, ◌+◌, ◌*◌, u32, sub32, ◌==◌, if◌then◌else◌, Bool, true, false, List, ℤ, pos,
  negsuc, is_neg,
}
use tram.Sys.{
  Env, M, ◌>>=◌, ◌>>◌, pure, fault, exit, sys, ask, answer, emit, uninitialised, buffer_overflow,
  pcm_open, pcm_any, pcm_set_access, pcm_hw_params, pcm_prepare, pcm_drop, pcm_close,
  pcm_set_format, pcm_set_channels, pcm_set_rate_near, pcm_set_period_size_near,
  pcm_get_period_size, pcm_readi, pcm_writei,
}
use tram.Settings.{Settings, bytes_per_sample}

-- the sample formats of ALSA that the program names
pub record PcmFormats : Type 0 where
  pub s16_le : ℕ
  pub s24_3le : ℕ
  pub float_le : ℕ

unfoldable pub bit_depth_to_alsa : PcmFormats → ℕ → ℕ
bit_depth_to_alsa f depth =
    if depth == 16
    then f.s16_le
    else if depth == 24
    then f.s24_3le
    else if depth == 32
    then f.float_le
    else f.s16_le

-- The settings as they are left: `frames` is the period that the device has.
unfoldable pub resize : Settings → (rate frames : ℕ) → Settings
resize set rate frames =
    let data_len = u32 (bytes_per_sample set.bit_depth * set.channels * set.hw_latency) in
    record set {
      sample_rate = rate;
      data_len = data_len;
      pdu_size = u32 (sub32 set.pdu_size set.data_len + data_len);
      hw_latency = u32 frames;
      frames_per_pdu = frames;
    }

unfoldable pub setup :
    Env → PcmFormats → (device : List ℕ) → (is_recorder : Bool) → Settings → M Settings
unfolding bit_depth_to_alsa
setup env formats device is_recorder set = do
  rc ← sys env (pcm_open device is_recorder)
  if is_neg rc then exit 1 else do
    emit pcm_any
    emit pcm_set_access
    emit (pcm_set_format (bit_depth_to_alsa formats set.bit_depth))
    emit (pcm_set_channels set.channels)
    rate ← ask env.rate (pcm_set_rate_near set.sample_rate)
    emit (pcm_set_period_size_near set.hw_latency)
    rc ← sys env pcm_hw_params
    if is_neg rc
        then exit 1
        else do frames ← ask env.period pcm_get_period_size; pure (resize set rate frames)

-- `rc == -EPIPE`
abbrev pub is_epipe : ℤ → Bool
is_epipe (pos n) = false
is_epipe (negsuc n) = n == 31

-- Other errors and short transfers are only reported.
abbrev pub recover : ℤ → M (Unit {0})
recover rc = if is_epipe rc then emit pcm_prepare else pure tt

-- What the buffer holds afterwards. `room` is the number of bytes that there are from `buffer` on;
-- a transfer that needs more overflows it.
unfoldable pub read : Env → (room frames : ℕ) → M (List ℕ)
read env room frames = do
  rc ← sys env (pcm_readi frames)
  buffer ← answer env.audio
  if ltb room (length buffer) then fault buffer_overflow else recover rc >> pure buffer

unfoldable pub write : Env → (buffer : List ℕ) → (frames : ℕ) → M (Unit {0})
write env buffer frames = do rc ← sys env (pcm_writei buffer frames); recover rc

-- The handle is a pointer that is set by `setup`.
unfoldable pub close : (is_set_up : Bool) → M (Unit {0})
close is_set_up = if is_set_up then emit pcm_drop >> emit pcm_close else fault uninitialised

-- ===== src/Alsa/Setup.antt =====
-- What `avb_alsa_setup` leaves in the settings.
use mathlib.Core.Path.{subst}
use native.Mathlib.Nat.{mul-div_cancel_left, mul-lt-mul_of_pos_left}
use tram.Prelude.{ℕ, ◌+◌, ◌*◌, ◌^◌, ◌<◌, ◌≡◌, ◌↔◌, ◌∙◌, ◌/◌, ap, sym, Bool, List, arith}
use tram.Sys.{Env, Trace, done}
use tram.Settings.{Settings, bytes_per_sample}
use tram.Alsa.{PcmFormats, setup, resize}

mul_cancel : {k m n : ℕ} → 0 < k → k * m ≡ k * n → m ≡ n
mul_cancel {k} {m} {n} h e =
    sym (mul-div_cancel_left m h) ∙ (ap (λ (x : ℕ). x / k) e ∙ mul-div_cancel_left n h)

-- `data_len` and `pdu_size` fit together, and fit the period.
pub record IsSized (header : ℕ) (set : Settings) : Type 0 where
  pub pdu : set.pdu_size ≡ header + set.data_len
  pub payload : set.data_len ≡ bytes_per_sample set.bit_depth * set.channels * set.frames_per_pdu

module _ (set : Settings) (header rate frames : ℕ) (entered : set.pdu_size ≡ header + set.data_len)
    (fits : header + bytes_per_sample set.bit_depth * set.channels * set.hw_latency < 2 ^ 32)
    (entered_fits : set.pdu_size < 2 ^ 32) where
  -- The header stays the part of the PDU that is not payload.
  resize-pdu : (resize set rate frames).pdu_size ≡ header + (resize set rate frames).data_len
  unfolding resize
  resize-pdu = omega arith

  -- The payload has the size of the latency that was asked for.
  resize-data_len :
      (resize set rate frames).data_len
      ≡ bytes_per_sample set.bit_depth * set.channels * set.hw_latency
  unfolding resize
  resize-data_len = omega arith

  resize-IsSized : frames ≡ set.hw_latency → IsSized header (resize set rate frames)
  unfolding resize
  resize-IsSized e = record { pdu = omega arith; payload = rw e resize-data_len }

  -- Only the period that was asked for fits the payload.
  IsSized-resize :
      0 < bytes_per_sample set.bit_depth * set.channels
      → IsSized header (resize set rate frames)
      → frames ≡ set.hw_latency
  unfolding resize
  IsSized-resize h s = mul_cancel h (sym s.payload ∙ resize-data_len)

  overflow :
      0 < bytes_per_sample set.bit_depth * set.channels
      → set.hw_latency < frames
      → (resize set rate frames).data_len < bytes_per_sample set.bit_depth * set.channels * frames
  overflow h longer = rw resize-data_len (mul-lt-mul_of_pos_left longer h)

-- A setup that returns has resized the settings for the period of the device.
pub setup-resize :
    (env : Env) (formats : PcmFormats) (device : List ℕ) (is_recorder : Bool) (set : Settings)
    (t u : Trace) {set' : Settings}
    → setup env formats device is_recorder set t ≡ done set' u
    → set' ≡ resize set set'.sample_rate (env.period u)
unfolding setup resize
setup-resize env formats device is_recorder set t u e = ground arith

module _ (env : Env) (formats : PcmFormats) (device : List ℕ) (is_recorder : Bool) (set : Settings)
    (header : ℕ) (t u : Trace) {set' : Settings}
    (returned : setup env formats device is_recorder set t ≡ done set' u)
    (entered : set.pdu_size ≡ header + set.data_len)
    (fits : header + bytes_per_sample set.bit_depth * set.channels * set.hw_latency < 2 ^ 32)
    (entered_fits : set.pdu_size < 2 ^ 32) where
  -- The header stays the part of the PDU that is not payload.
  pub setup-pdu : set'.pdu_size ≡ header + set'.data_len
  setup-pdu =
      let e : set' ≡ resize set set'.sample_rate (env.period u) =
        setup-resize env formats device is_recorder set t u returned in
      subst (λ s. s.pdu_size ≡ header + s.data_len) (sym e)
        (resize-pdu set header set'.sample_rate (env.period u) entered fits entered_fits)

  -- Where the settings entered have a PDU of the header and the payload, a frame is not empty and
  -- the sizes fit 32 bits, a setup that returns leaves sizes that fit the header and the period
  -- exactly if the device's period is the latency asked for.
  pub setup-IsSized :
      0 < bytes_per_sample set.bit_depth * set.channels
      → IsSized header set' ↔ (env.period u ≡ set.hw_latency)
  setup-IsSized h =
      let e : set' ≡ resize set set'.sample_rate (env.period u) =
        setup-resize env formats device is_recorder set t u returned in
      (
        (λ s.
            IsSized-resize set header set'.sample_rate (env.period u) entered fits entered_fits h
              (subst (IsSized header) e s)),
        (λ p. subst (IsSized header) (sym e) (
            resize-IsSized set header set'.sample_rate (env.period u) entered fits entered_fits p)),
      )

  -- Where the settings entered have a PDU of the header and the payload, a frame is not empty and
  -- the sizes fit 32 bits, and a setup that returns finds a device whose period is longer than the
  -- latency asked for, the payload left in the settings is smaller than a transfer of
  -- `frames_per_pdu` frames, which the talker reads into it and the listener plays from it.
  pub setup_overflow :
      0 < bytes_per_sample set.bit_depth * set.channels
      → set.hw_latency < env.period u
      → set'.data_len < bytes_per_sample set'.bit_depth * set'.channels * set'.frames_per_pdu
  unfolding resize
  setup_overflow h longer =
      let e : set' ≡ resize set set'.sample_rate (env.period u) =
        setup-resize env formats device is_recorder set t u returned in
      subst (λ s. s.data_len < bytes_per_sample s.bit_depth * s.channels * s.frames_per_pdu) (sym e)
        (overflow set header set'.sample_rate (env.period u) entered fits entered_fits h longer)

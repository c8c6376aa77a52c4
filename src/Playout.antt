-- ===== src/Playout.antt =====
-- The sample queue of avbperf/avb_aaf.c: `schedule_sample`, `play_fragment`, `aaf_timeout`. The
-- STAILQ is a list, the entry to be played first in front.
pub mod Armed
pub mod Deadline
use tram.Prelude.{
  ℕ, ◌==◌, if◌then◌else◌, Bool, true, false, List, [], ◌∷◌, ◌++◌, take, is_empty, ℤ, pos, is_neg,
  minus_one,
}
use tram.Sys.{
  Timespec, Env, M, ◌>>=◌, ◌>>◌, pure, fault, sys, ask, answer, emit, null_pointer, assertion,
  malloc, free, read_timer, wav_write,
}
use tram.Time.{arm_timer}
use tram.Alsa

pub record Entry : Type 0 where
  pub tspec : Timespec
  pub pcm_sample : List ℕ

abbrev pub sizeof_entry : ℕ
sizeof_entry = 32

-- What follows the insertion: the timer is armed if the entry is the only one, and the entry is
-- taken out again if that fails. The samples of that entry are not freed.
unfoldable pub arm_first :
    Env → (fd : ℤ) → Timespec → (samples : List Entry) → Entry → M (ℤ × List Entry)
unfolding arm_timer
arm_first env fd tspec samples entry =
    if is_empty samples
    then (do
      res ← arm_timer env fd tspec
      if is_neg res
          then emit free >> pure (minus_one, samples)
          else pure (pos 1, samples ++ (entry ∷ [])))
    else pure (pos 0, samples ++ (entry ∷ []))

-- The second allocation is not checked before the copy into it.
unfoldable pub schedule_sample :
    Env
    → (fd : ℤ) → Timespec
    → (pcm_sample : List ℕ) → (samples : List Entry) → (data_len : ℕ) → M (ℤ × List Entry)
unfolding arm_first
schedule_sample env fd tspec pcm_sample samples data_len = do
  got ← ask env.allocated (malloc sizeof_entry)
  if got
      then (do
        copied ← ask env.allocated (malloc data_len)
        if copied
            then arm_first env fd tspec samples
                (record { tspec = tspec; pcm_sample = take data_len pcm_sample })
            else fault null_pointer)
      else pure (minus_one, samples)

-- `recording`: there is a WAV file
unfoldable pub play_fragment :
    Env → (samples : List Entry) → (frames : ℕ) → (recording : Bool) → M (List Entry)
unfolding Alsa.write
play_fragment env samples frames recording = elim samples [
  | [] ↦ fault assertion
  | entry ∷ rest ↦ do
    Alsa.write env entry.pcm_sample frames
    if recording then emit (wav_write entry.pcm_sample frames) else pure tt
    emit free
    emit free
    pure rest
]

unfoldable pub aaf_timeout : Env → (fd : ℤ) → M ℤ
aaf_timeout env fd = do
  n ← sys env (read_timer fd)
  expirations ← answer env.expirations
  if is_neg n then pure minus_one else if expirations == 1 then pure (pos 0) else fault assertion

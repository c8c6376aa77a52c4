-- ===== src/Alsa/Calls.antt =====
-- Which kinds of calls the sound card's functions make.
use tram.Prelude.{
  ltb, length, true, false, ◌≡◌, ℕ, Bool, List, ◌∷◌, is_neg, Bool-cases, inl, inr, refl,
}
use tram.Sys.{
  Env, Trace, Outcome, faulted, M, and_then, buffer_overflow, pcm_prepare, pcm_open, pcm_any,
  pcm_set_access, pcm_set_format, pcm_set_channels, pcm_set_rate_near, pcm_set_period_size_near,
  pcm_hw_params, pcm_readi, pcm_writei,
}
use tram.Sys.Outcomes.{is_quiet, is_calm, Only, here, next, Makes}
use tram.Settings.{Settings}
use tram.Alsa.{PcmFormats, bit_depth_to_alsa, setup, is_epipe, read, write}

-- What holds of a transfer that overflows, and of all that can follow one that does not, holds of
-- a run that begins with it.
pub read-bind :
    {A : Type 0} (P : Outcome A → Type 0) (env : Env) (room frames : ℕ) (f : List ℕ → M A)
    (t : Trace)
    → (ltb room (length (env.audio (pcm_readi frames ∷ t))) ≡ true
        → P (faulted buffer_overflow (pcm_readi frames ∷ t)))
    → (ltb room (length (env.audio (pcm_readi frames ∷ t))) ≡ false
        → P (f (env.audio (pcm_readi frames ∷ t)) (pcm_readi frames ∷ t))
          × P (f (env.audio (pcm_readi frames ∷ t)) (pcm_prepare ∷ pcm_readi frames ∷ t)))
    → P (and_then (read env room frames t) f)
unfolding read
read-bind P env room frames f t over within =
    let u : Trace = pcm_readi frames ∷ t in
    elim (Bool-cases (ltb room (length (env.audio u)))) [
      | inl long ↦ rw long (over long)
      | inr short ↦ rw short (elim (Bool-cases (is_epipe (env.ret u))) [
        | inl lost ↦ rw lost ((within short).1)
        | inr kept ↦ rw kept ((within short).0)
      ])
    ]

module _ (env : Env) where
  pub setup-Makes :
      (formats : PcmFormats) (device : List ℕ) (is_recorder : Bool) (set : Settings) (t : Trace)
      → Makes is_calm t (setup env formats device is_recorder set t)
  unfolding setup
  setup-Makes formats device is_recorder set t =
      let u : Trace = pcm_open device is_recorder ∷ t in
      let v : Trace =
        pcm_hw_params
        ∷ pcm_set_period_size_near set.hw_latency
        ∷ pcm_set_rate_near set.sample_rate
        ∷ pcm_set_channels set.channels
        ∷ pcm_set_format (bit_depth_to_alsa formats set.bit_depth)
        ∷ pcm_set_access
        ∷ pcm_any
        ∷ u in
      let asked : Only is_calm t v = next _ refl (
        next _ refl (
          next _ refl
            (next _ refl (next _ refl (next _ refl (next _ refl (next _ refl here))))))) in
      elim (Bool-cases (is_neg (env.ret u))) [
        | inl failed ↦ rw failed (next _ refl here)
        | inr opened ↦ rw opened (elim (Bool-cases (is_neg (env.ret v))) [
          | inl failed ↦ rw failed asked
          | inr set ↦ rw set (next _ refl asked)
        ])
      ]

  pub read-Makes : (room frames : ℕ) (t : Trace) → Makes is_quiet t (read env room frames t)
  unfolding read
  read-Makes room frames t =
      let u : Trace = pcm_readi frames ∷ t in
      elim (Bool-cases (ltb room (length (env.audio u)))) [
        | inl long ↦ rw long (next _ refl here)
        | inr short ↦ rw short (elim (Bool-cases (is_epipe (env.ret u))) [
          | inl over ↦ rw over (next _ refl (next _ refl here))
          | inr fine ↦ rw fine (next _ refl here)
        ])
      ]

  pub write-Makes :
      (buffer : List ℕ) (frames : ℕ) (t : Trace) → Makes is_quiet t (write env buffer frames t)
  unfolding write
  write-Makes buffer frames t =
      elim (Bool-cases (is_epipe (env.ret (pcm_writei buffer frames ∷ t)))) [
        | inl under ↦ rw under (next _ refl (next _ refl here))
        | inr fine ↦ rw fine (next _ refl here)
      ]

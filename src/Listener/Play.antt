-- ===== src/Listener/Play.antt =====
-- A fragment played leaves the queue and the timer in step.
use tram.Prelude.{
  ℕ, ◌≡◌, Bool, true, false, List, [], ◌∷◌, is_empty, arith, refl, Bool-cases, inl, inr,
}
use tram.Sys.{Env, Trace, and_then, pcm_writei, pure}
use tram.Settings.{Settings}
use tram.Alsa
use tram.Playout.{Entry, play_fragment}
use tram.Playout.Armed.{armed}
use tram.Listener.{State, Next, again, leave, play}
use tram.Listener.Safe.{Inv, Safe, Safe-bind}

module _ (env : Env) (k : ℕ) where
  -- a round's end, or its parts
  abbrev pub Continues : Next → Trace → Type 0
  Continues (again st) u = Inv env k st u
  Continues (leave st) u = Unit

  play_fragment-armed :
      (samples : List Entry) (frames : ℕ) (recording : Bool) (t : Trace)
      → is_empty samples ≡ false
      → Safe env k
          (λ rest u. armed env k u ≡ armed env k t)
          (play_fragment env samples frames recording t)
  unfolding play_fragment
  play_fragment-armed [] frames recording t has = cc
  play_fragment-armed (x ∷ xs) frames true t has =
      elim (Bool-cases (Alsa.is_epipe (env.ret (pcm_writei x.pcm_sample frames ∷ t)))) [
        | inl over ↦ rw over refl
        | inr fine ↦ rw fine refl
      ]
  play_fragment-armed (x ∷ xs) frames false t has =
      elim (Bool-cases (Alsa.is_epipe (env.ret (pcm_writei x.pcm_sample frames ∷ t)))) [
        | inl over ↦ rw over refl
        | inr fine ↦ rw fine refl
      ]

  play-Inv :
      (set : Settings) (recording : Bool) (st : State) (t : Trace)
      → is_empty st.samples ≡ false
      → armed env k t ≡ false
      → Safe env k (Inv env k) (play env set recording st t)
  unfolding play
  play-Inv set recording st t has unarmed =
      Safe-bind env k (λ rest u. armed env k u ≡ armed env k t) (Inv env k) _ _
        (play_fragment-armed st.samples set.frames_per_pdu recording t has)
        λ rest u same. record {
          running_has = ground arith;
          armed_has = ground arith;
          running_unarmed = ground arith;
        }

  pub again-Continues :
      (set : Settings) (recording : Bool) (st : State) (t : Trace)
      → is_empty st.samples ≡ false
      → armed env k t ≡ false
      → Safe env k Continues (and_then (play env set recording st t) (λ st'. pure (again st')))
  again-Continues set recording st t has unarmed =
      Safe-bind env k (Inv env k) Continues _ _ (play-Inv set recording st t has unarmed)
        (λ st' u inv. inv)

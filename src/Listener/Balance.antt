-- ===== src/Listener/Balance.antt =====
-- Each packet recorded is played once: the statistics against the queue and the sound card.
use tram.Prelude.{ℕ, suc, ◌+◌, ◌≡◌, Bool, List, [], ◌∷◌, ◌++◌, length, refl, ap, arith}
use tram.Sys.{Env, Trace, pcm_writei}
use tram.Sys.Outcomes.{Gives, Gives-bind}
use tram.Settings.{Settings}
use tram.Playout.{Entry, play_fragment}
use tram.Listener.{State, Next, again, leave, play}

-- the fragments handed to the sound card
abbrev pub writes : Trace → ℕ
writes [] = 0
writes (pcm_writei buffer frames ∷ t) = suc (writes t)
writes (_ ∷ t) = writes t

-- As many packets are recorded as have been played or are queued.
abbrev pub Balanced : State → Trace → Type 0
Balanced st t = length st.stats.stack ≡ writes t + length st.samples

-- both ways out of a round
abbrev pub Even : Next → Trace → Type 0
Even (again st) u = Balanced st u
Even (leave st) u = Balanced st u

pub length-snoc : (xs : List Entry) (x : Entry) → length (xs ++ (x ∷ [])) ≡ suc (length xs)
length-snoc [] x = refl
length-snoc (y ∷ xs) x = ap suc (length-snoc xs x)

module _ (env : Env) where
  play_fragment-writes :
      (samples : List Entry) (frames : ℕ) (recording : Bool) (t : Trace)
      → Gives
          (λ rest u. writes u + length rest ≡ writes t + length samples)
          (play_fragment env samples frames recording t)
  unfolding play_fragment
  play_fragment-writes samples frames recording t = ground arith

  pub play-Balanced :
      (set : Settings) (recording : Bool) (st : State) (t : Trace)
      → Balanced st t
      → Gives Balanced (play env set recording st t)
  unfolding play
  play-Balanced set recording st t even =
      Gives-bind (λ rest u. writes u + length rest ≡ writes t + length st.samples) Balanced _ _
        (play_fragment-writes st.samples set.frames_per_pdu recording t)
        λ rest u e. omega (arith, even, e)

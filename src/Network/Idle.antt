-- ===== src/Network/Idle.antt =====
-- Calls that carry no packet and no samples change nothing of what has been sent, heard or played.
use tram.Prelude.{◌≡◌, ◌∙◌, true, ◌∷◌, refl}
use tram.Sys.{Call, Env, Trace, recv, sendto, pcm_readi, pcm_writei}
use tram.Sys.Outcomes.{is_idle, Only, here, next}
use tram.Listener.View.{heard, played}
use tram.Talker.Relay.{captured, sent_pdus}

module _ (env : Env) where
  -- all that the two ends look at
  pub record Same (t u : Trace) : Type 0 where
    pub same_heard : heard env u ≡ heard env t
    pub same_played : played u ≡ played t
    pub same_captured : captured env u ≡ captured env t
    pub same_sent : sent_pdus u ≡ sent_pdus t

  Same-idle : (c : Call) (t : Trace) → is_idle c ≡ true → Same t (c ∷ t)
  Same-idle (recv fd size) t e = cc
  Same-idle (sendto fd pdu size address) t e = cc
  Same-idle (pcm_readi frames) t e = cc
  Same-idle (pcm_writei buffer frames) t e = cc
  Same-idle _ t e = record {
    same_heard = refl;
    same_played = refl;
    same_captured = refl;
    same_sent = refl;
  }

  pub Same-Only : {t u : Trace} → Only is_idle t u → Same t u
  Same-Only here = record {
    same_heard = refl;
    same_played = refl;
    same_captured = refl;
    same_sent = refl;
  }
  Same-Only (next {u} c e rest) =
      let first = Same-Only rest in
      let then = Same-idle c u e in
      record {
        same_heard = then.same_heard ∙ first.same_heard;
        same_played = then.same_played ∙ first.same_played;
        same_captured = then.same_captured ∙ first.same_captured;
        same_sent = then.same_sent ∙ first.same_sent;
      }

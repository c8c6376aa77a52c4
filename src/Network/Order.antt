-- ===== src/Network/Order.antt =====
-- What the listener plays of what the talker has captured.
use mathlib.Core.List.Sublistᴰ
use mathlib.Core.List.{Sublistᴰ, map-map}
use tram.Prelude.{ℕ, ◌≡◌, inl, inr, true, false, Bool, List, [], ◌++◌, map, take, ℤ}
use tram.Sys.{SockAddr, Pdu, Env, Trace, Outcome, done, exited, faulted}
use tram.Sys.Outcomes.{Returns}
use tram.Sys.Descriptors.{same_fd}
use tram.Settings.{Settings}
use tram.Avtp.{Avtp}
use tram.Playout.Armed.{armed, HonestTimer}
use tram.Listener.{Fds, Next, loop}
use tram.Listener.Loop.{initial, initial-Inv}
use tram.Listener.Packets.{Healthy}
use tram.Listener.Safe.{Safe}
use tram.Listener.Play.{Continues}
use tram.Listener.Step.{loop-Continues}
use tram.Listener.View.{heard, played, payload, Fits, queue_after}
use tram.Listener.Receipts.{pcm}
use tram.Listener.Refines.{Ordered, loop-Ordered}
use tram.Talker
use tram.Talker.Relay.{sent_pdus, captured, relayed, Relayed, loop-Relayed}
use tram.Network.{history, Carried}
use tram.Network.Parts.{relayed-captured}
use tram.Network.Sublists.{Sublistᴰ-map, Selected-Carried}

-- What has been sent is a part of what has been captured.
Relayed-part :
    (env : Env) (a : Avtp) (set : Settings) (r : Outcome Talker.Next)
    → Relayed env a set r
    → Sublistᴰ (relayed (history r)) (captured env (history r))
Relayed-part env a set (done (Talker.again st) t) even = relayed-captured env t (inl even)
Relayed-part env a set (done (Talker.leave res) t) relays = relayed-captured env t relays
Relayed-part env a set (exited c t) h = absurd h
Relayed-part env a set (faulted f t) (_, pending) =
    relayed-captured env t (inr (env.audio t, pending))

-- what has been played and is queued is a part of `xs`, in its order
abbrev pub PlaysPart : List (List ℕ) → Next → Trace → Type 0
PlaysPart xs n u = Sublistᴰ (played u ++ pcm (queue_after n)) xs

module _ (talking hearing : Env) (a : Avtp) (set : Settings) (fds : Fds) (recording : Bool) (k : ℕ)
    (healthy : Healthy hearing) (honest : HonestTimer hearing k)
    (ours : same_fd k fds.timer_fd ≡ true) (rounds : ℕ) where
  Ordered-Carried :
      (sent : List Pdu) (xs : List (List ℕ)) (r : Outcome Next)
      → Sublistᴰ (map (payload set) sent) xs
      → Safe hearing k (Continues hearing k) r
      → Ordered hearing a fds set recording rounds r
      → Carried (Fits a set) (heard hearing (history r)) sent
      → Returns (PlaysPart xs) r
  Ordered-Carried sent xs (done n u) part safe ordered carried =
      Sublistᴰ.trans (Selected-Carried (Fits a set) (payload set) ordered carried) part
  Ordered-Carried sent xs (exited c u) part safe ordered carried = absurd safe
  Ordered-Carried sent xs (faulted f u) part (null, empty) ordered carried =
      absurd (cc (healthy.room u, empty))

  -- If the network may lose packets of the talker, and bring packets that are not of the stream
  -- and the format, but keeps the order of the talker's: where the listener has memory and timers
  -- available, and its packet timer is reported ready only if it is armed, with one expiration to
  -- read then, its loop, from its initial state with the timer unarmed and nothing received or
  -- played before, returns in any number of rounds, and the buffers handed to the sound card,
  -- followed by those queued, are some of the buffers that the talker's loop, in any number of
  -- rounds from a history in which each buffer read has been sent, has read from its own sound
  -- card, cut to the payload length of the settings, in the order in which they were read and each
  -- once.
  pub loop-PlaysPart :
      (fd : ℤ) (address : SockAddr) (talk_rounds : ℕ) (st : Talker.State) (t u : Trace)
      → captured talking t ≡ relayed t
      → armed hearing k u ≡ false
      → heard hearing u ≡ []
      → played u ≡ []
      → Carried
          (Fits a set)
          (heard hearing (history (loop hearing a fds set recording rounds initial u)))
          (sent_pdus (history (Talker.loop talking a fd address set talk_rounds st t)))
      → Returns
          (PlaysPart (
            map
              (take set.data_len)
              (captured talking (history (Talker.loop talking a fd address set talk_rounds st t)))))
          (loop hearing a fds set recording rounds initial u)
  loop-PlaysPart fd address talk_rounds st t u even unarmed unheard unplayed carried =
      let talk = Talker.loop talking a fd address set talk_rounds st t in
      let part : Sublistᴰ (map (take set.data_len) (relayed (history talk)))
          (map (take set.data_len) (captured talking (history talk))) =
        Sublistᴰ-map (take set.data_len) (
          Relayed-part talking a set talk
            (loop-Relayed talking a fd address set talk_rounds st t even)) in
      Ordered-Carried (sent_pdus (history talk)) _ _
        (rw (map-map (take set.data_len) (λ pdu. pdu.avtp_payload) (sent_pdus (history talk))) at
          part)
        (loop-Continues hearing k honest fds ours a set recording rounds initial u
          (initial-Inv hearing k u unarmed))
        (loop-Ordered hearing a fds set recording rounds u unheard unplayed) carried

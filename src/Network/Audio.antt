-- ===== src/Network/Audio.antt =====
-- Which of the talker's buffers the listener plays.
use mathlib.Core.Option
use mathlib.Core.List.{map-append}
use tram.Prelude.{
  ℕ, zero, suc, ◌+◌, ◌<◌, ◌≤◌, ◌≡◌, Bool, true, false, Option, some, List, [], ◌∷◌, ◌++◌, map, take,
  get_elem?, get_elem?-append, get_elem?-map, ℤ, inl, inr, refl, ap, ◌∙◌,
}
use tram.Sys.{Pdu, Env, Trace, poll}
use tram.Sys.Outcomes.{Returns, Returns-map}
use tram.Sys.Descriptors.{same_fd}
use tram.Settings.{Settings}
use tram.Avtp.{Avtp, IsLawful}
use tram.Packet.RoundTrip.{FitsHeader}
use tram.Playout.Armed.{armed, HonestTimer}
use tram.Listener.{Fds, Next, loop}
use tram.Listener.Loop.{initial}
use tram.Listener.Packets.{Healthy}
use tram.Listener.View.{heard, played, payload, queue_after}
use tram.Listener.Receipts.{receipts, pcm}
use tram.Listener.Numbering.{firsts, Tallied}
use tram.Listener.Drops.{loop-Tallied}
use tram.Talker.Relay.{Relays, sent_pdus, captured, relayed}
use tram.Network.{history}
use tram.Network.Delivery.{Delivers, talk, broadcast, recorded, talk-Broadcasts, broadcast-Arrives}
use tram.Talker.Broadcast.{OnAir}
use tram.Alsa.{PcmFormats}
use tram.Settings.{Floats}

-- a list of results ends with one
last_of :
    {A : Type 0} (xs : List A) (os : List (Option A)) (o : Option A)
    → map some xs ≡ os ++ (o ∷ [])
    → (ys : List A) × (y : A) × (xs ≡ ys ++ (y ∷ [])) × (map some ys ≡ os) × (o ≡ some y)
last_of [] [] o e = cc
last_of (x ∷ []) [] o e = ([], x, refl, refl, cc)
last_of (x ∷ y ∷ xs) [] o e = cc
last_of [] (p ∷ os) o e = cc
last_of (x ∷ xs) (p ∷ os) o e =
    let (ys, y, split, front, back) = last_of xs os o cc in
    (x ∷ ys, y, ap (λ l. x ∷ l) split, cc, back)

firsts-map :
    {A B : Type 0} (f : ℕ → Option A) (g : ℕ → Option B) (h : A → B)
    → ((m : ℕ) (x : A) → f m ≡ some x → g m ≡ some (h x))
    → (n : ℕ) (xs : List A) → map some xs ≡ firsts f n
    → map some (map h xs) ≡ firsts g n
firsts-map f g h step zero [] e = refl
firsts-map f g h step zero (x ∷ xs) e = cc
firsts-map f g h step (suc n) xs e =
    let (ys, y, split, front, back) = last_of xs (firsts f n) (f n) e in
    rw (split, map-append h ys (y ∷ []), map-append some (map h ys) (h y ∷ []))
      (rw (firsts-map f g h step n ys front, step n y back) refl)

-- A packet that was sent carries the buffer that was captured at its position.
captured-at :
    (env : Env) (t : Trace)
    → Relays env t
    → (i : ℕ) (pdu : Pdu) → get_elem? (sent_pdus t) i ≡ some pdu
    → get_elem? (captured env t) i ≡ some pdu.avtp_payload
captured-at env t (inl even) i pdu e =
    rw even (get_elem?-map (λ p. p.avtp_payload) (sent_pdus t) i ∙ rw e refl)
captured-at env t (inr (x, pending)) i pdu e = rw pending (
    get_elem?-append (relayed t) (x ∷ []) pdu.avtp_payload i
      (get_elem?-map (λ p. p.avtp_payload) (sent_pdus t) i ∙ rw e refl))

-- The buffers played and queued are those recorded at the positions of the packets received.
abbrev pub PlaysAt : Settings → (recorded : List (List ℕ)) → (index : ℕ → ℕ) → Next → Trace → Type 0
PlaysAt set recorded index n u =
    map some (played u ++ pcm (queue_after n))
    ≡ firsts (λ m. Option.map (take set.data_len) (get_elem? recorded (index m))) (receipts u)

module _ (talking : Env) (a : Avtp) (fl : Floats) (formats : PcmFormats) (talk_rounds : ℕ)
    (ifname macaddr : List ℕ) (priority : ℤ) (talk_before : Settings) (talk_adev buffer : List ℕ)
    (start : Trace) (laws : IsLawful a) (set : Settings) (fits : FitsHeader set)
    (on : OnAir talking formats ifname macaddr priority talk_before talk_adev set start) where
  abbrev sent : List Pdu
  sent =
      broadcast talking a fl formats talk_rounds ifname macaddr priority talk_before talk_adev
        buffer start

  abbrev heard_from : List (List ℕ)
  heard_from =
      recorded talking a fl formats talk_rounds ifname macaddr priority talk_before talk_adev buffer
        start

  step :
      (i : ℕ) (p : Pdu)
      → get_elem? sent i ≡ some p
      → Option.map (take set.data_len) (get_elem? heard_from i) ≡ some (payload set p)
  step i p e = ap (Option.map (take set.data_len)) (
      captured-at talking
        (history (
          talk talking a fl formats talk_rounds ifname macaddr priority talk_before talk_adev buffer
            start))
        (talk-Broadcasts talking a fl formats talk_rounds ifname macaddr priority talk_before
          talk_adev buffer start laws set fits on).1
        i p e)

  -- The payloads of packets at some positions are the buffers recorded there.
  pub recorded-at :
      (index : ℕ → ℕ) (n : ℕ) (pdus : List Pdu)
      → map some pdus ≡ firsts (λ m. get_elem? sent (index m)) n
      → map some (map (payload set) pdus)
        ≡ firsts (λ m. Option.map (take set.data_len) (get_elem? heard_from (index m))) n
  recorded-at index n pdus e =
      firsts-map _ _ (payload set) (λ m p at_m. step (index m) p at_m) n pdus e

  module _ (index : ℕ → ℕ) (rising : (m : ℕ) → index m < index (suc m))
      (near : (m : ℕ) → index (suc m) ≤ index m + 256) (env : Env) (healthy : Healthy env)
      (fds : Fds) (recording : Bool)
      (delivers : (t : Trace)
        → (env.ready (poll fds.sk_fd fds.timer_fd fds.session_tim_fd ∷ t)).socket_ready ≡ true
        → Delivers env a fds set sent index (poll fds.sk_fd fds.timer_fd fds.session_tim_fd ∷ t))
      (k : ℕ) (honest : HonestTimer env k) (ours : same_fd k fds.timer_fd ≡ true) where
    -- For a lawful libavtp, let a talker have run for any number of rounds, from a history in
    -- which nothing has been sent, and nothing read that was not, where its socket and its sound
    -- card can be opened and the settings that the sound card leaves fit the header. Where for a
    -- listener memory and timers are available, the packet timer is reported ready only if it is
    -- armed, with one expiration to read then, and whenever the socket is reported ready, a whole
    -- packet of the talker is read that is not late, from a position that rises by 1 to 256 from
    -- packet to packet: the listener's loop, under the settings that the talker's sound card has
    -- left, from its initial state with the timer unarmed, no packet asked for and nothing played
    -- before, returns in any number of rounds, and the buffers handed to the sound card, followed
    -- by those queued, are then exactly those that the talker had read from its own at the
    -- positions of the packets received, cut to the payload length of the settings.
    pub loop-PlaysAt :
        (rounds : ℕ) (t : Trace)
        → armed env k t ≡ false
        → receipts t ≡ 0
        → played t ≡ []
        → Returns (PlaysAt set heard_from index) (loop env a fds set recording rounds initial t)
    loop-PlaysAt rounds t unarmed none_yet unplayed =
        Returns-map (Tallied env set index (λ m. get_elem? sent (index m)))
          (PlaysAt set heard_from index)
          (λ n u tally.
            ap (map some) tally.4 ∙ recorded-at index (receipts u) (heard env u) tally.5)
          (loop env a fds set recording rounds initial t)
          (loop-Tallied index rising near _ env healthy a fds set recording
            (λ u ready.
              broadcast-Arrives talking a fl formats talk_rounds ifname macaddr priority talk_before
                talk_adev buffer start laws set fits on env fds index _ (delivers u ready))
            k honest ours rounds t unarmed none_yet unplayed)

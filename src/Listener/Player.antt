-- ===== src/Listener/Player.antt =====
-- What the listener promises of the samples that it receives and plays, without its calls, its
-- clocks and its timers.
use mathlib.Core.List.{append_assoc}
use tram.Prelude.{ℕ, ◌≡◌, sym, List, [], ◌∷◌, ◌++◌}
use tram.Sys.{Pdu}

-- All lists have the oldest member in front.
pub record Player : Type 0 where
  pub heard : List Pdu
  pub waiting : List (List ℕ)
  pub played : List (List ℕ)

-- `ok`: the packets whose samples may be played; `cut`: the samples of a packet
module _ (ok : Pdu → Type 0) (cut : Pdu → List ℕ) where
  pub data Step : Player → Player → Type 0 where
    -- a packet comes and is passed over
    ignore : (p : Player) (pdu : Pdu) → Step p (record p { heard = p.heard ++ (pdu ∷ []) })
    -- a packet comes, and its samples wait behind the others
    enter :
        (p : Player) (pdu : Pdu)
        → ok pdu
        → Step p (record p { heard = p.heard ++ (pdu ∷ []); waiting = p.waiting ++ (cut pdu ∷ []) })
    -- the first of those waiting are handed over
    hand_over :
        (p : Player) (x : List ℕ) (xs : List (List ℕ))
        → p.waiting ≡ x ∷ xs
        → Step p (record p { waiting = xs; played = p.played ++ (x ∷ []) })

  pub data Reach (p : Player) : Player → Type 0 where
    here : Reach p p
    next : {q r : Player} → Reach p q → Step q r → Reach p r

  -- The samples of some of the packets, all of them `ok`, in the order of the packets.
  pub data Selected : List Pdu → List (List ℕ) → Type 0 where
    nothing : Selected [] []
    skip :
        {h : List Pdu} {xs : List (List ℕ)} (pdu : Pdu)
        → Selected h xs
        → Selected (h ++ (pdu ∷ [])) xs
    keep :
        {h : List Pdu} {xs : List (List ℕ)} (pdu : Pdu)
        → ok pdu
        → Selected h xs
        → Selected (h ++ (pdu ∷ [])) (xs ++ (cut pdu ∷ []))

  -- what has been played and what waits, in this order
  abbrev pub InOrder : Player → Type 0
  InOrder p = Selected p.heard (p.played ++ p.waiting)

  Step-InOrder : {p q : Player} → Step p q → InOrder p → InOrder q
  Step-InOrder (ignore p pdu) ordered = skip pdu ordered
  Step-InOrder (enter p pdu fine) ordered =
      rw (sym (append_assoc p.played p.waiting (cut pdu ∷ []))) (keep pdu fine ordered)
  Step-InOrder (hand_over p x xs first) ordered =
      rw (append_assoc p.played (x ∷ []) xs) (rw first at ordered)

  pub Reach-InOrder : {p q : Player} → Reach p q → InOrder p → InOrder q
  Reach-InOrder here ordered = ordered
  Reach-InOrder (next run step) ordered = Step-InOrder step (Reach-InOrder run ordered)

-- ===== src/Network.antt =====
-- The talker and the listener at the two ends of a network.
pub mod Sublists
pub mod Order
pub mod Delivery
pub mod Figures
pub mod Audio
pub mod Times
pub mod Idle
pub mod Feeds
pub mod Hears
pub mod Parts
pub mod Program
pub mod Strangers
use tram.Prelude.{Bool, List, [], ◌∷◌}
use tram.Sys.{Pdu, Call, Trace, Outcome, done, exited, faulted, M, and_then}
use tram.Sys.Outcomes.{Only, Makes}

-- the calls of a whole run
abbrev pub history : {A : Type 0} → Outcome A → Trace
history (done x u) = u
history (exited c u) = u
history (faulted f u) = u

-- A property of the calls of a whole run, from one of those of its first part.
pub history-bind :
    {A B : Type 0} (P Q : Trace → Type 0) (r : Outcome A) (f : A → M B)
    → P (history r)
    → ((u : Trace) → P u → Q u)
    → ((a : A) (u : Trace) → P u → Q (history (f a u)))
    → Q (history (and_then r f))
history-bind P Q (done a u) f h ends goes = goes a u h
history-bind P Q (exited c u) f h ends goes = ends u h
history-bind P Q (faulted x u) f h ends goes = ends u h

-- the same from the class of the calls
pub history-Makes :
    {A : Type 0} (p : Call → Bool) (t : Trace) (r : Outcome A) → Makes p t r → Only p t (history r)
history-Makes p t (done a u) h = h
history-Makes p t (exited c u) h = h
history-Makes p t (faulted f u) h = h

-- The network may lose packets, and bring some that are not `ok` from elsewhere; it keeps the order
-- of the others.
pub data Carried (ok : Pdu → Type 0) : (received sent : List Pdu) → Type 0 where
  nothing : Carried ok [] []
  lost : {rs ss : List Pdu} (pdu : Pdu) → Carried ok rs ss → Carried ok rs (pdu ∷ ss)
  arrived : {rs ss : List Pdu} (pdu : Pdu) → Carried ok rs ss → Carried ok (pdu ∷ rs) (pdu ∷ ss)
  foreign : {rs ss : List Pdu} (pdu : Pdu) → ¬ ok pdu → Carried ok rs ss → Carried ok (pdu ∷ rs) ss

-- ===== src/Listener/View.antt =====
-- The player that the listener's queue and calls show.
use tram.Prelude.{ℕ, List, [], ◌∷◌, ◌++◌, map, take, ℤ, if◌then◌else◌}
use tram.Sys.{Pdu, Env, Trace, Outcome, done, exited, faulted, M, and_then, recv, pcm_writei}
use tram.Settings.{Settings}
use tram.Avtp.{Avtp}
use tram.Packet.Accept.{InStream, HasFormat}
use tram.Playout.{Entry}
use tram.Listener.{State, Next, again, leave, received}
use tram.Listener.Player.{Player, Reach}

-- the PDUs received whole
abbrev pub heard : Env → Trace → List Pdu
heard env [] = []
heard env (recv fd size ∷ t) =
    if received (env.ret (recv fd size ∷ t)) size
    then heard env t ++ (env.packet (recv fd size ∷ t) ∷ [])
    else heard env t
heard env (_ ∷ t) = heard env t

-- the buffers handed to the sound card
abbrev pub played : Trace → List (List ℕ)
played [] = []
played (pcm_writei buffer frames ∷ t) = played t ++ (buffer ∷ [])
played (_ ∷ t) = played t

-- the player that the queue and the calls of the listener show
abbrev pub view : Env → List Entry → Trace → Player
view env samples t = record {
  heard = heard env t;
  waiting = map (λ e. e.pcm_sample) samples;
  played = played t;
}

abbrev pub state_of : Next → State
state_of (again st) = st
state_of (leave st) = st

-- the packets of the stream, in the format of the settings
abbrev pub Fits : Avtp → Settings → Pdu → Type 0
Fits a set pdu = InStream a pdu.header set × HasFormat a pdu.header set

abbrev pub payload : Settings → Pdu → List ℕ
payload set pdu = take set.data_len pdu.avtp_payload

abbrev pub queue_of : State → List Entry
queue_of st = st.samples

abbrev pub queue_after : Next → List Entry
queue_after n = (state_of n).samples

-- the queue of a result with a status
abbrev pub beside : {A : Type 0} → (A → List Entry) → ℤ × A → List Entry
beside queue (r, x) = queue x

module _ (env : Env) (a : Avtp) (set : Settings) (p : Player) where
  -- the player gets from `p` to the view of a queue and a history
  abbrev pub Shows : List Entry → Trace → Type 0
  Shows samples t = Reach (Fits a set) (payload set) p (view env samples t)

  -- and so at the end of a run, of which `queue` gives the queue
  abbrev pub Runs : {A : Type 0} → (queue : A → List Entry) → Outcome A → Type 0
  Runs queue (done x u) = Shows (queue x) u
  Runs queue (exited c u) = (samples : List Entry) × Shows samples u
  Runs queue (faulted f u) = (samples : List Entry) × Shows samples u

  pub Runs-bind :
      {A B : Type 0} (queue : A → List Entry) (queue' : B → List Entry) (r : Outcome A)
      (f : A → M B)
      → Runs queue r
      → ((x : A) (u : Trace) → Shows (queue x) u → Runs queue' (f x u))
      → Runs queue' (and_then r f)
  Runs-bind queue queue' (done x u) f h g = g x u h
  Runs-bind queue queue' (exited c u) f h g = h
  Runs-bind queue queue' (faulted y u) f h g = h

-- ===== src/Talker/Overflow.antt =====
-- A read of the talker that does not fit the payload of its PDU.
use tram.Prelude.{◌*◌, ◌≡◌, ◌≤◌, ltb, true, ◌∷◌, length, arith}
use tram.Sys.{Env, Trace, Fault, buffer_overflow, pcm_readi}
use tram.Settings.{Settings, bytes_per_sample}
use tram.Avtp.{Avtp}
use tram.Alsa.Setup.{IsSized}
use tram.Talker.{payload_size}

-- The run stops with a fault at a read of more bytes than the PDU has behind its header.
abbrev pub Overflows : Env → Avtp → Settings → Fault → Trace → Type 0
Overflows env a set f u =
    (f ≡ buffer_overflow)
    × (t : Trace) × (u ≡ pcm_readi set.frames_per_pdu ∷ t)
    × (ltb (payload_size a set) (length (env.audio u)) ≡ true)

-- ALSA transfers at most the frames asked for.
abbrev pub Transfers : Env → Settings → Type 0
Transfers env set =
    (t : Trace)
    → length (env.audio (pcm_readi set.frames_per_pdu ∷ t))
      ≤ bytes_per_sample set.bit_depth * set.channels * set.frames_per_pdu

-- Where the sizes fit the period, no read overflows.
pub never-Overflows :
    (env : Env) (a : Avtp) (set : Settings) (f : Fault) (u : Trace)
    → Transfers env set
    → IsSized a.sizeof_pdu set
    → ¬ Overflows env a set f u
never-Overflows env a set f u transfers sized (same, t, at_read, long) =
    let few = transfers t in
    let over : ltb (payload_size a set) (length (env.audio (pcm_readi set.frames_per_pdu ∷ t)))
        ≡ true =
      rw at_read at long in
    absurd (ground (arith, few, over, sized.pdu, sized.payload))

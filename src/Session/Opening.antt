-- ===== src/Session/Opening.antt =====
-- The opening of a session, from both of its ends: what Stream sends and what Handshake makes of it.
use qf.Common.{◌≡◌, refl, Option, none, some, [], Bool-cases, inl, inr, if◌then◌else◌}
use qf.Common.Int.{ℤ, ltb_ℤ}
use qf.Session.{SignedBundle}
use qf.Session.Client.{Handshake, waiting, done, handshake}
use qf.Session.Service.{HostRow, welcome_of, catch_up, opening}

-- How the handshake of an agent ends that has this generation.
abbrev pub settled : ℤ → HostRow → Option SignedBundle → Handshake
settled g h none = if ltb_ℤ g h.current_generation then waiting else done (welcome_of h) none []
settled g h (some b) =
    if ltb_ℤ g h.current_generation
    then (if ltb_ℤ g h.desired_generation then done (welcome_of h) (some b) [] else waiting)
    else done (welcome_of h) none (catch_up g h (some b))

-- Between them, the messages with which Stream opens a session and Handshake end as follows. Where
-- the agent's generation is not below the host's current one, the handshake ends without a bundle,
-- and the bundle of an agent that is below the desired generation is the next message. Where it is
-- below the current one, the handshake ends with the bundle if there is one and the agent is below
-- the desired generation too; otherwise it waits on after the Welcome, for a message that Stream
-- does not send.
pub handshake-opening :
    (g : ℤ) (h : HostRow) (provided : Option SignedBundle)
    → handshake g (opening g h provided) ≡ settled g h provided
unfolding handshake opening catch_up
handshake-opening g h none = refl
handshake-opening g h (some b) = elim (Bool-cases (ltb_ℤ g h.desired_generation)) [
  | inl p ↦ rw p refl
  | inr p ↦ rw p refl
]

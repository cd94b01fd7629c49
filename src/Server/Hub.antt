-- ===== src/Server/Hub.antt =====
-- cp/internal/pubsub/hub.go: a fan-out hub. A subscriber is a channel with a number of its own, a
-- capacity and the messages that wait in it.
pub mod Fanout
use qf.Common.{
  ℕ, ◌+◌, Bool, true, false, Option, none, some, List, [], ◌∷◌, ◌++◌, Text, text_eq, length, ltb,
  ◌==◌, if◌then◌else◌,
}

module _ (Message : Type 0) where
  pub record Channel : Type 0 where
    pub id : ℕ
    pub size : ℕ
    pub buffer : List Message

  -- The subscribers of each key; a key without subscribers has no entry.
  pub record Hub : Type 0 where
    pub subs : List (Text × List Channel)
    pub next : ℕ
    pub closed : List Channel

module _ {Message : Type 0} where
  unfoldable pub subs_of : Text → List (Text × List (Channel Message)) → List (Channel Message)
  subs_of k [] = []
  subs_of k ((j, cs) ∷ m) = let rest = subs_of k m in if text_eq j k then cs else rest

  unfoldable pub delete_subs :
      Text → List (Text × List (Channel Message)) → List (Text × List (Channel Message))
  delete_subs k [] = []
  delete_subs k ((j, cs) ∷ m) =
      let rest = delete_subs k m in if text_eq j k then rest else (j, cs) ∷ rest

  -- `h.subs[key] = list`, and the deletion of a key that has no subscriber left.
  abbrev pub set_subs :
      Text
      → List (Channel Message)
      → List (Text × List (Channel Message))
      → List (Text × List (Channel Message))
  set_subs k [] m = delete_subs k m
  set_subs k (c ∷ cs) m = (k, c ∷ cs) ∷ delete_subs k m

  unfoldable pub subscribe : Text → ℕ → Hub Message → Hub Message × ℕ
  unfolding subs_of delete_subs
  subscribe key size h =
      let c : Channel Message = record { id = h.next; size = size; buffer = [] } in
      (
        record h { subs = set_subs key (subs_of key h.subs ++ c ∷ []) h.subs; next = h.next + 1 },
        h.next,
      )

  -- The channel that leaves, and the others.
  unfoldable pub take_channel :
      ℕ → List (Channel Message) → List (Channel Message) × List (Channel Message)
  take_channel id [] = ([], [])
  take_channel id (c ∷ cs) =
      let (found, rest) = take_channel id cs in
      if c.id == id then (c ∷ [], cs) else (found, c ∷ rest)

  unfoldable pub cancel : Text → ℕ → Hub Message → Hub Message
  unfolding subs_of delete_subs take_channel
  cancel key id h =
      let (found, rest) = take_channel id (subs_of key h.subs) in
      record h { subs = set_subs key rest h.subs; closed = found ++ h.closed }

  -- A full channel drops the message.
  abbrev pub offer : Message → Channel Message → Channel Message
  offer msg c =
      if ltb (length c.buffer) c.size then record c { buffer = c.buffer ++ msg ∷ [] } else c

  unfoldable pub offer_all : Message → List (Channel Message) → List (Channel Message)
  offer_all msg [] = []
  offer_all msg (c ∷ cs) = offer msg c ∷ offer_all msg cs

  unfoldable pub publish : Text → Message → Hub Message → Hub Message
  unfolding subs_of delete_subs offer_all
  publish key msg h = record h { subs = set_subs key (offer_all msg (subs_of key h.subs)) h.subs }

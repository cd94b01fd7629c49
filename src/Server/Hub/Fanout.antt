-- ===== src/Server/Hub/Fanout.antt =====
-- Who gets a message.
use qf.Common.{
  ℕ, ◌≤◌, ◌<◌, ◌≡◌, List, [], ◌∷◌, ◌++◌, Text, text_eq, text_eq_iff, text_eq_refl, length,
  length-append, if◌then◌else◌, arith, All, inl, inr, Bool-cases, ◌∙◌, ap,
}
use qf.Server.Hub.{
  Channel, Hub, subs_of, delete_subs, set_subs, subscribe, take_channel, cancel, offer, offer_all,
  publish,
}

module _ {Message : Type 0} where
  subs_of-delete_subs :
      (k j : Text) (m : List (Text × List (Channel Message)))
      → subs_of j (delete_subs k m) ≡ (if text_eq k j then [] else subs_of j m)
  unfolding subs_of delete_subs
  subs_of-delete_subs k j [] = ground arith
  subs_of-delete_subs k j ((i, cs) ∷ m) =
      ground (arith, text_eq_iff k j, text_eq_iff i k, text_eq_iff i j, subs_of-delete_subs k j m)

  subs_of-set_subs :
      (k j : Text) (cs : List (Channel Message)) (m : List (Text × List (Channel Message)))
      → subs_of j (set_subs k cs m) ≡ (if text_eq k j then cs else subs_of j m)
  unfolding subs_of
  subs_of-set_subs k j [] m = subs_of-delete_subs k j m
  subs_of-set_subs k j (c ∷ cs) m = ground (arith, subs_of-delete_subs k j m)

  -- No channel holds more than its size.
  abbrev pub IsBounded : Channel Message → Type 0
  IsBounded c = length c.buffer ≤ c.size

  offer-IsBounded : (msg : Message) (c : Channel Message) → IsBounded c → IsBounded (offer msg c)
  offer-IsBounded msg c h = ground (arith, length-append c.buffer (msg ∷ []))

  offer_all-IsBounded :
      (msg : Message) (cs : List (Channel Message))
      → All IsBounded cs
      → All IsBounded (offer_all msg cs)
  unfolding offer_all
  offer_all-IsBounded msg [] h = tt
  offer_all-IsBounded msg (c ∷ cs) h = (offer-IsBounded msg c h.0, offer_all-IsBounded msg cs h.1)

  -- A published message is offered once to each subscriber of its key, in the order in which they
  -- subscribed, and to nobody else; and it overfills no channel of the key.
  pub subs_of-publish :
      (key j : Text) (msg : Message) (h : Hub Message)
      → All IsBounded (subs_of key h.subs)
      → (subs_of j (publish key msg h).subs
          ≡ (if text_eq key j then offer_all msg (subs_of key h.subs) else subs_of j h.subs))
        × All IsBounded (subs_of key (publish key msg h).subs)
  unfolding publish
  subs_of-publish key j msg h b =
      let law : (i : Text)
          → subs_of i (publish key msg h).subs
            ≡ (if text_eq key i then offer_all msg (subs_of key h.subs) else subs_of i h.subs) =
        λ i. subs_of-set_subs key i (offer_all msg (subs_of key h.subs)) h.subs in
      (law j, rw (law key) (rw (text_eq_refl key) (offer_all-IsBounded msg (subs_of key h.subs) b)))

  take_channel_last :
      (id size : ℕ) (cs : List (Channel Message))
      → All (λ (c : Channel Message). c.id < id) cs
      → take_channel id (cs ++ record { id = id; size = size; buffer = [] } ∷ [])
        ≡ (record { id = id; size = size; buffer = [] } ∷ [], cs)
  unfolding take_channel
  take_channel_last id size [] h = ground arith
  take_channel_last id size (c ∷ cs) h = ground (arith, take_channel_last id size cs h.1)

  -- A subscription that is cancelled at once leaves the subscribers of every key as they were,
  -- where the numbers of the key's channels are below the next one.
  pub cancel-subscribe :
      (key j : Text) (size : ℕ) (h : Hub Message)
      → All (λ (c : Channel Message). c.id < h.next) (subs_of key h.subs)
      → subs_of j (cancel key (subscribe key size h).1 (subscribe key size h).0).subs
        ≡ subs_of j h.subs
  unfolding cancel subscribe
  cancel-subscribe key j size h below =
      let old = subs_of key h.subs in
      let c : Channel Message = record { id = h.next; size = size; buffer = [] } in
      let new = set_subs key (old ++ c ∷ []) h.subs in
      let here : subs_of key new ≡ old ++ c ∷ [] =
        subs_of-set_subs key key (old ++ c ∷ []) h.subs ∙ rw (text_eq_refl key) in
      rw (here, take_channel_last h.next size old below)
        (subs_of-set_subs key j old new ∙ elim (Bool-cases (text_eq key j)) [
          | inl e ↦ rw e (ap (λ k. subs_of k h.subs) ((text_eq_iff key j).0 e))
          | inr e ↦ rw e (subs_of-set_subs key j (old ++ c ∷ []) h.subs ∙ rw e)
        ])

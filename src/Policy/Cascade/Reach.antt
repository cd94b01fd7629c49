-- ===== src/Policy/Cascade/Reach.antt =====
-- Which streams a cascade reaches.
use qf.Common.{
  ◌≡◌, ◌∙◌, refl, ap, sym, Bool, true, false, ◌&&◌, ◌||◌, Option, none, some, List, [], ◌∷◌, map,
  Text, codes, text_eq, ◌⊎◌, text_eq_iff, ok, err, Bool-cases, Option-cases, Result-cases, inl, inr,
  arith, if◌then◌else◌,
}
use qf.Proto.{PolicyBundle}
use qf.Uuid.{pg_uuid_to_str}
use qf.Policy.{Raw, Uuid, Selector, PolicyRow, Host, Codec, Queries, PolicyError}
use qf.Policy.Matching.{
  contains, parse_selector, parse_labels, matches_labels, matching_hosts, resolve_hosts,
  resolve_host_ids,
}
use qf.Policy.Bundle.{get_bundle}
use qf.Policy.Cascade.{
  Propagation, add_text, add_all, bump, offer, outcome, recompile_hosts, recompile_and_dispatch,
  hosts_of_selector, hosts_of_policy, old_hosts, hosts_of_change,
  on_policy_changed_with_old_selector,
}
use qf.Server.Registry
use qf.Server.Registry.{ActiveStream, StreamRegistry, dispatch, send}
use qf.Server.Registry.Sessions.{lookup-dispatch}

-- No host is listed twice.
abbrev pub Nodup : List Text → Type 0
Nodup [] = Unit
Nodup (x ∷ xs) = (contains xs x ≡ false) × Nodup xs

contains-add_text :
    (v x : Text) (xs : List Text) → contains (add_text x xs) v ≡ text_eq x v || contains xs v
unfolding contains add_text
contains-add_text v x xs = ground (arith, same)
  where
    same : text_eq x v ≡ true → contains xs x ≡ contains xs v
    same e = ap (contains xs) ((text_eq_iff x v).0 e)

contains-add_all :
    (v : Text) (ys xs : List Text) → contains (add_all ys xs) v ≡ contains ys v || contains xs v
unfolding contains add_all
contains-add_all v [] xs = refl
contains-add_all v (y ∷ ys) xs =
    ground (arith, contains-add_all v ys (add_text y xs), contains-add_text v y xs)

add_text-Nodup : (x : Text) (xs : List Text) → Nodup xs → Nodup (add_text x xs)
unfolding add_text
add_text-Nodup x xs u = elim (Bool-cases (contains xs x)) [ inl e ↦ rw e u | inr e ↦ rw e (e, u) ]

pub add_all-Nodup : (ys xs : List Text) → Nodup xs → Nodup (add_all ys xs)
unfolding add_all
add_all-Nodup [] xs u = u
add_all-Nodup (y ∷ ys) xs u = add_all-Nodup ys (add_text y xs) (add_text-Nodup y xs u)

module _ (codec : Codec) where
  -- Whether the selector takes an active host of the list with the id, whose labels decode.
  unfoldable pub matched : Selector → List Host → Text → Bool
  matched sel [] j = false
  matched sel (h ∷ hs) j =
      (text_eq h.status (codes "active")
        && ((elim (parse_labels codec h.labels) [
          | none ↦ false
          | some labels ↦ matches_labels sel labels
        ])
            && text_eq (pg_uuid_to_str h.id) j))
      || matched sel hs j

  contains-matching_hosts :
      (sel : Selector) (hs : List Host) (j : Text)
      → contains (map (λ (h : Host). pg_uuid_to_str h.id) (matching_hosts codec sel hs)) j
        ≡ matched sel hs j
  unfolding contains matching_hosts matched
  contains-matching_hosts sel [] j = refl
  contains-matching_hosts sel (h ∷ hs) j =
      let ih = contains-matching_hosts sel hs j in
      elim (Bool-cases (text_eq h.status (codes "active"))) [
        | inr e ↦ rw e ih
        | inl e ↦ elim (Option-cases (parse_labels codec h.labels)) [
          | inl n ↦ rw (e, n) ih
          | inr (labels, n) ↦ elim (Bool-cases (matches_labels sel labels)) [
            | inl m ↦ rw (e, n, m) (ap (λ b. text_eq (pg_uuid_to_str h.id) j || b) ih)
            | inr m ↦ rw (e, n, m) ih
          ]
        ]
      ]

  -- The selector of before; of one that does not decode, what was decoded of it.
  abbrev pub IsOld : Raw → Selector → Type 0
  IsOld raw sel =
      (parse_selector codec raw ≡ some sel)
      ⊎ ((parse_selector codec raw ≡ none) × (sel ≡ codec.partial_selector raw))

module _ (codec : Codec) (q : Queries) (send_ok : Text → Bool) (tenant_id : Text) where
  -- What a recompiled host's stream, if it has one, gets: its new bundle, where that compiles and the
  -- send succeeds.
  abbrev pub delivered :
      Text → Option (ActiveStream PolicyBundle) → Option (ActiveStream PolicyBundle)
  delivered j o = elim (get_bundle codec q tenant_id j) [ ok b ↦ send (send_ok j) b o | err e ↦ o ]

  lookup-offer :
      (j h : Text) (b : PolicyBundle) (st : Propagation)
      → Registry.lookup j (offer codec q true send_ok h b st).streams.streams ≡ (
          if text_eq h j
          then send (send_ok h) b (Registry.lookup h st.streams.streams)
          else Registry.lookup j st.streams.streams)
  lookup-offer j h b st =
      lookup-dispatch h j b (send_ok h) st.streams
      ∙ elim (Option-cases (Registry.lookup h st.streams.streams)) [
        | inl p ↦ rw p refl
        | inr (a, p) ↦ elim (Bool-cases (send_ok h)) [
          | inl e ↦ rw (p, e) refl
          | inr e ↦ rw (p, e) refl
        ]
      ]

  -- Each host of a list without repetitions is served once, whatever happens to the others.
  pub lookup-recompile_hosts :
      (j : Text) (ids : List Text) (st : Propagation)
      → Nodup ids
      → Registry.lookup j (recompile_hosts codec q true send_ok tenant_id ids st).0.streams.streams
        ≡ (if contains ids j
            then delivered j (Registry.lookup j st.streams.streams)
            else Registry.lookup j st.streams.streams)
  unfolding recompile_hosts contains
  lookup-recompile_hosts j [] st u = refl
  lookup-recompile_hosts j (h ∷ hs) st u =
      let bumped = bump codec q true send_ok tenant_id h st in
      elim (Result-cases (get_bundle codec q tenant_id h)) [
        | inl (b, p) ↦
            let next = offer codec q true send_ok h b bumped in
            let ih = lookup-recompile_hosts j hs next u.1 in
            elim (Bool-cases (text_eq h j)) [
              | inl e ↦
                  let here = (text_eq_iff h j).0 e in
                  rw (p, recompile_hosts, e)
                    (ih
                      ∙ rw (ap (contains hs) (sym here) ∙ u.0)
                          (lookup-offer j h b bumped ∙ rw e (served h j b here (p))))
              | inr e ↦ rw (p, recompile_hosts, e) (ih ∙ rw (lookup-offer j h b bumped) (rw e refl))
            ]
        | inr (x, p) ↦
            let ih = lookup-recompile_hosts j hs bumped u.1 in
            elim (Bool-cases (text_eq h j)) [
              | inl e ↦
                  let here = (text_eq_iff h j).0 e in
                  rw (p, recompile_hosts, e)
                    (ih
                      ∙ rw (ap (contains hs) (sym here) ∙ u.0)
                          (rw (ap (get_bundle codec q tenant_id) (sym here) ∙ p, delivered) refl))
              | inr e ↦ rw (p, recompile_hosts, e) ih
            ]
      ]
    where
      served :
          (h j : Text) (b : PolicyBundle)
          → h ≡ j
          → get_bundle codec q tenant_id h ≡ ok b
          → send (send_ok h) b (Registry.lookup h st.streams.streams)
            ≡ delivered j (Registry.lookup j st.streams.streams)
      served h j b here p =
          rw (ap (get_bundle codec q tenant_id) (sym here) ∙ p, delivered)
            (ap (λ i. send (send_ok i) b (Registry.lookup i st.streams.streams)) here)

  outcome_fst : (x : Propagation × List PolicyError) → (outcome codec q true send_ok x).0 ≡ x.0
  outcome_fst (st, []) = refl
  outcome_fst (st, e ∷ errs) = refl

  lookup-hosts_of_change :
      (policy_id : Text) (old_selector : Raw) (new_hosts : List Text) (st : Propagation) (j : Text)
      → hosts_of_policy codec q true send_ok tenant_id policy_id ≡ ok new_hosts
      → Registry.lookup j
          (on_policy_changed_with_old_selector codec q true send_ok tenant_id policy_id old_selector
            st).0.streams.streams
        ≡ (if contains (old_hosts codec q true send_ok tenant_id old_selector) j
              || contains new_hosts j
            then delivered j (Registry.lookup j st.streams.streams)
            else Registry.lookup j st.streams.streams)
  unfolding on_policy_changed_with_old_selector hosts_of_change recompile_and_dispatch contains
  lookup-hosts_of_change policy_id old_selector new_hosts st j h =
      let old = old_hosts codec q true send_ok tenant_id old_selector in
      let ids = add_all new_hosts (add_all old []) in
      let unique = add_all-Nodup new_hosts (add_all old []) (add_all-Nodup old [] tt) in
      let members : contains ids j ≡ contains old j || contains new_hosts j =
        contains-add_all j new_hosts (add_all old []) ∙ ground (arith, contains-add_all j old []) in
      rw h (
        ap (λ (x : Propagation). Registry.lookup j x.streams.streams)
          (outcome_fst (recompile_hosts codec q true send_ok tenant_id ids st))
        ∙ lookup-recompile_hosts j ids st unique
        ∙ rw members refl)

  module _ (tenant : Uuid) (hosts : List Host) (scanned : codec.scan_uuid tenant_id ≡ some tenant)
      (listed : q.list_hosts tenant ≡ some hosts) where
    ids_of : Selector → List Text
    ids_of sel = map (λ (h : Host). pg_uuid_to_str h.id) (matching_hosts codec sel hosts)

    resolved : (sel : Selector) → resolve_host_ids codec q tenant_id sel ≡ ok (ids_of sel)
    unfolding resolve_host_ids resolve_hosts ids_of
    resolved sel = rw (scanned, listed) refl

    old_hosts_are :
        (raw : Raw) (sel : Selector)
        → IsOld codec raw sel
        → old_hosts codec q true send_ok tenant_id raw ≡ ids_of sel
    unfolding old_hosts
    old_hosts_are raw sel (inl p) = rw (p, resolved sel) refl
    old_hosts_are raw sel (inr (p, same)) =
        rw (p, resolved (codec.partial_selector raw)) (ap ids_of (sym same))

    hosts_of_policy_are :
        (policy_id : Text) (id : Uuid) (p : PolicyRow) (sel : Selector)
        → codec.scan_uuid policy_id ≡ some id
        → q.get_policy id tenant ≡ some p
        → parse_selector codec p.selector ≡ some sel
        → hosts_of_policy codec q true send_ok tenant_id policy_id ≡ ok (ids_of sel)
    unfolding hosts_of_policy hosts_of_selector resolve_host_ids resolve_hosts ids_of
    hosts_of_policy_are policy_id id p sel a b c = rw (scanned, a, b, c, listed) refl

    ids_matched : (sel : Selector) (j : Text) → contains (ids_of sel) j ≡ matched codec sel hosts j
    unfolding ids_of
    ids_matched sel j = contains-matching_hosts codec sel hosts j

  -- When a policy is saved, the new row and the hosts can be read, its selector decodes and there is
  -- a dispatcher: each active host of the tenant whose labels decode and match the new selector, or
  -- the old one (of an old one that does not decode, what was decoded of it), is sent its recompiled
  -- bundle once, where that compiles and the send succeeds; the streams of all other hosts are as
  -- they were. A host whose bundle fails holds up no other.
  pub lookup-on_policy_changed :
      (policy_id : Text) (old_selector : Raw) (tenant id : Uuid) (p : PolicyRow) (hosts : List Host)
      (old new : Selector) (st : Propagation) (j : Text)
      → codec.scan_uuid tenant_id ≡ some tenant
      → codec.scan_uuid policy_id ≡ some id
      → q.get_policy id tenant ≡ some p
      → q.list_hosts tenant ≡ some hosts
      → parse_selector codec p.selector ≡ some new
      → IsOld codec old_selector old
      → Registry.lookup j
          (on_policy_changed_with_old_selector codec q true send_ok tenant_id policy_id old_selector
            st).0.streams.streams
        ≡ (if matched codec old hosts j || matched codec new hosts j
            then delivered j (Registry.lookup j st.streams.streams)
            else Registry.lookup j st.streams.streams)
  lookup-on_policy_changed policy_id old_selector tenant id p hosts old new st j scanned a b listed
        c before =
      let ids = ids_of tenant hosts scanned listed in
      let was = old_hosts_are tenant hosts scanned listed old_selector old before in
      let old_in : contains (old_hosts codec q true send_ok tenant_id old_selector) j
          ≡ matched codec old hosts j =
        ap (λ (xs : List Text). contains xs j) was
        ∙ ids_matched tenant hosts scanned listed old j in
      lookup-hosts_of_change policy_id old_selector (ids new) st j
        (hosts_of_policy_are tenant hosts scanned listed policy_id id p new a b c)
      ∙ rw (old_in, ids_matched tenant hosts scanned listed new j) refl

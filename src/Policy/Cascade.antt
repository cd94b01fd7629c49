-- ===== src/Policy/Cascade.antt =====
-- cp/internal/policy/cascade.go: a change of a policy, an object group, the default policy or a
-- host recompiles the bundles of the hosts that it may affect, and sends them to their streams.
pub mod Reach
use qf.Common.{
  ℕ, suc, Bool, true, false, Option, none, some, List, [], ◌∷◌, ◌++◌, map, length, Text, Result, ok,
  err, ◌>>=◌, map_err, if◌then◌else◌,
}
use qf.Uuid.{pg_uuid_to_str}
use qf.Proto.{PolicyBundle}
use qf.Policy.{
  Raw, Uuid, Selector, PolicyRow, Host, Rule, Codec, Queries, PolicyError, or_err,
  invalid_tenant_id, invalid_host_id, invalid_og_id, invalid_policy_id, list_hosts, get_policy,
  list_rules_by_og, bad_selector,
}
use qf.Policy.Matching.{contains, empty_selector, parse_selector, resolve_host_ids}
use qf.Policy.Bundle.{get_bundle}
use qf.Server.Registry.{StreamRegistry, dispatch}

-- What a cascade changes: the streams, and the hosts whose desired_generation it has incremented.
pub record Propagation : Type 0 where
  pub streams : StreamRegistry PolicyBundle
  pub bumped : List Uuid

pub data CascadeError : Type 0 where
  not_found : PolicyError → CascadeError
  hosts_failed : ℕ → PolicyError → CascadeError

-- A Go map used as a set; it is ranged over in any order.
unfoldable pub add_text : Text → List Text → List Text
unfolding contains
add_text x xs = if contains xs x then xs else x ∷ xs

unfoldable pub add_all : List Text → List Text → List Text
unfolding add_text
add_all [] xs = xs
add_all (y ∷ ys) xs = add_all ys (add_text y xs)

abbrev or_none {ℓ} : {A : Type ℓ} → Result PolicyError (List A) → List A
or_none (ok xs) = xs
or_none (err e) = []

abbrev pub scanned : Option Uuid → Option Uuid → List Uuid
scanned none t = []
scanned (some h) none = []
scanned (some h) (some t) = h ∷ []

module _ (codec : Codec) (q : Queries) (dispatcher : Bool) (send_ok : Text → Bool) where
  -- IncrementHostDesiredGeneration, where both ids scan; its error is ignored.
  abbrev pub bump : Text → Text → Propagation → Propagation
  bump tenant_id host_id st = record st {
    bumped = st.bumped ++ scanned (codec.scan_uuid host_id) (codec.scan_uuid tenant_id);
  }

  abbrev pub offer : Text → PolicyBundle → Propagation → Propagation
  offer host_id bundle st =
      if dispatcher
      then record st { streams = dispatch host_id bundle (send_ok host_id) st.streams }
      else st

  -- The loop of recompileAndDispatch, with the errors that it collects.
  unfoldable pub recompile_hosts : Text → List Text → Propagation → Propagation × List PolicyError
  unfolding get_bundle dispatch
  recompile_hosts tenant_id [] st = (st, [])
  recompile_hosts tenant_id (h ∷ hs) st = elim (get_bundle codec q tenant_id h) [
    | ok b ↦ recompile_hosts tenant_id hs (offer h b (bump tenant_id h st))
    | err e ↦
        let (st', errs) = recompile_hosts tenant_id hs (bump tenant_id h st) in (st', e ∷ errs)
  ]

  abbrev pub outcome : Propagation × List PolicyError → Propagation × Result CascadeError (Unit {0})
  outcome (st, []) = (st, ok tt)
  outcome (st, e ∷ errs) = (st, err (hosts_failed (suc (length errs)) e))

  unfoldable pub recompile_and_dispatch :
      Text → List Text → Propagation → Propagation × Result CascadeError (Unit {0})
  unfolding recompile_hosts
  recompile_and_dispatch tenant_id host_ids st = outcome (recompile_hosts tenant_id host_ids st)

  -- An error before any host is recompiled, or the hosts.
  abbrev propagate :
      Text
      → Propagation
      → Result PolicyError (List Text)
      → Propagation × Result CascadeError (Unit {0})
  propagate tenant_id st (ok ids) = recompile_and_dispatch tenant_id ids st
  propagate tenant_id st (err e) = (st, err (not_found e))

  unfoldable pub hosts_of_selector : Text → Raw → Result PolicyError (List Text)
  unfolding parse_selector resolve_host_ids
  hosts_of_selector tenant_id raw = do
    sel ← or_err bad_selector (parse_selector codec raw)
    resolve_host_ids codec q tenant_id sel

  unfoldable pub hosts_of_policy : Text → Text → Result PolicyError (List Text)
  unfolding hosts_of_selector
  hosts_of_policy tenant_id policy_id = do
    tenant ← or_err invalid_tenant_id (codec.scan_uuid tenant_id)
    id ← or_err invalid_policy_id (codec.scan_uuid policy_id)
    p ← or_err get_policy (q.get_policy id tenant)
    hosts_of_selector tenant_id p.selector

  unfoldable pub on_policy_changed :
      Text → Text → Propagation → Propagation × Result CascadeError (Unit {0})
  unfolding hosts_of_policy recompile_and_dispatch
  on_policy_changed tenant_id policy_id st =
      propagate tenant_id st (hosts_of_policy tenant_id policy_id)

  -- `oldSel, _ := ParseSelector`: an error leaves what was decoded.
  abbrev pub selector_or_partial : Raw → Option Selector → Selector
  selector_or_partial raw none = codec.partial_selector raw
  selector_or_partial raw (some sel) = sel

  unfoldable pub old_hosts : Text → Raw → List Text
  unfolding parse_selector resolve_host_ids
  old_hosts tenant_id raw =
      or_none
        (resolve_host_ids codec q tenant_id (selector_or_partial raw (parse_selector codec raw)))

  unfoldable pub hosts_of_change : Text → Text → Raw → Result PolicyError (List Text)
  unfolding old_hosts hosts_of_policy add_all
  hosts_of_change tenant_id policy_id old_selector = do
    new_hosts ← hosts_of_policy tenant_id policy_id
    ok (add_all new_hosts (add_all (old_hosts tenant_id old_selector) []))

  unfoldable pub on_policy_changed_with_old_selector :
      Text → Text → Raw → Propagation → Propagation × Result CascadeError (Unit {0})
  unfolding hosts_of_change recompile_and_dispatch
  on_policy_changed_with_old_selector tenant_id policy_id old_selector st =
      propagate tenant_id st (hosts_of_change tenant_id policy_id old_selector)

  unfoldable pub on_default_policy_changed :
      Text → Propagation → Propagation × Result CascadeError (Unit {0})
  unfolding recompile_and_dispatch pg_uuid_to_str
  on_default_policy_changed tenant_id st = propagate tenant_id st (do
    tenant ← or_err invalid_tenant_id (codec.scan_uuid tenant_id)
    hosts ← or_err list_hosts (q.list_hosts tenant)
    ok (map (λ (h : Host). pg_uuid_to_str h.id) hosts))

  unfoldable pub on_host_labels_changed :
      Text → Text → Propagation → Propagation × Result CascadeError (Unit {0})
  unfolding recompile_and_dispatch
  on_host_labels_changed tenant_id host_id st = recompile_and_dispatch tenant_id (host_id ∷ []) st

  unfoldable pub on_host_enrolled :
      Text → Text → Propagation → Propagation × Result CascadeError (Unit {0})
  unfolding recompile_and_dispatch
  on_host_enrolled tenant_id host_id st = recompile_and_dispatch tenant_id (host_id ∷ []) st

  -- The loops of affectedHosts: the policies of the rules that can be read, then their hosts. A
  -- policy that cannot be read or resolved is left out.
  abbrev add_policy : Option Rule → List Text → List Text
  add_policy none ps = ps
  add_policy (some r) ps = add_text (pg_uuid_to_str r.policy_id) ps

  unfoldable pub policies_of_rules : List Uuid → List Text → List Text
  unfolding add_text pg_uuid_to_str
  policies_of_rules [] ps = ps
  policies_of_rules (id ∷ ids) ps = policies_of_rules ids (add_policy (q.get_rule id) ps)

  unfoldable pub hosts_of_policies : Text → List Text → List Text → List Text
  unfolding hosts_of_policy add_all
  hosts_of_policies tenant_id [] hosts = hosts
  hosts_of_policies tenant_id (p ∷ ps) hosts =
      hosts_of_policies tenant_id ps (add_all (or_none (hosts_of_policy tenant_id p)) hosts)

  unfoldable pub affected_hosts : Text → Text → Result PolicyError (List Text)
  unfolding policies_of_rules hosts_of_policies
  affected_hosts tenant_id og_id = do
    og ← or_err invalid_og_id (codec.scan_uuid og_id)
    tenant ← or_err invalid_tenant_id (codec.scan_uuid tenant_id)
    rule_ids ← or_err list_rules_by_og (q.rule_ids_by_object_group og)
    ok (hosts_of_policies tenant_id (policies_of_rules rule_ids []) [])

  unfoldable pub on_object_group_changed :
      Text → Text → Propagation → Propagation × Result CascadeError (Unit {0})
  unfolding affected_hosts recompile_and_dispatch
  on_object_group_changed tenant_id og_id st =
      propagate tenant_id st (affected_hosts tenant_id og_id)

-- ===== src/Policy/Matching.antt =====
-- cp/internal/policy/selector.go: label selectors.
pub mod Meaning
use qf.Common.{
  Bool, true, false, not, ◌&&◌, ◌||◌, Option, none, some, List, [], ◌∷◌, Text, codes, text_eq,
  Result, ok, ◌>>=◌, if◌then◌else◌, length, ◌==◌, map,
}
use qf.Uuid.{pg_uuid_to_str}
use qf.Policy.{
  Raw, Labels, LabelSelectorRequirement, Selector, Host, Codec, Queries, PolicyError, or_err,
  invalid_tenant_id, list_hosts,
}

-- `m[k]`, with whether the key is there.
unfoldable pub lookup : Text → Labels → Option Text
lookup k [] = none
lookup k ((j, v) ∷ m) = let rest = lookup k m in if text_eq j k then some v else rest

-- `m[k]`: the empty string where the key is missing.
abbrev pub value_or_empty : Option Text → Text
value_or_empty none = []
value_or_empty (some v) = v

-- slices.Contains.
unfoldable pub contains : List Text → Text → Bool
contains [] v = false
contains (w ∷ ws) v = text_eq w v || contains ws v

abbrev in_values : List Text → Option Text → Bool
in_values ws none = false
in_values ws (some v) = contains ws v

abbrev exists : Option Text → Bool
exists none = false
exists (some v) = true

-- The empty selector, and the columns that ParseSelector takes for it.
abbrev pub empty_selector : Selector
empty_selector = record { match_labels = []; match_expressions = [] }

unfoldable pub eval_expression : LabelSelectorRequirement → Labels → Bool
unfolding lookup contains
eval_expression expr labels =
    let val = lookup expr.key labels in
    if text_eq expr.operator (codes "In")
    then in_values expr.values val
    else if text_eq expr.operator (codes "NotIn")
    then not (in_values expr.values val)
    else if text_eq expr.operator (codes "Exists")
    then exists val
    else if text_eq expr.operator (codes "DoesNotExist")
    then not (exists val)
    else false

-- The two loops of MatchesLabels, over MatchLabels and over MatchExpressions.
unfoldable pub match_all_labels : Labels → Labels → Bool
unfolding lookup
match_all_labels [] labels = true
match_all_labels ((k, v) ∷ rest) labels =
    text_eq (value_or_empty (lookup k labels)) v && match_all_labels rest labels

unfoldable pub match_all_expressions : List LabelSelectorRequirement → Labels → Bool
unfolding eval_expression
match_all_expressions [] labels = true
match_all_expressions (e ∷ es) labels = eval_expression e labels && match_all_expressions es labels

unfoldable pub matches_labels : Selector → Labels → Bool
unfolding match_all_labels match_all_expressions
matches_labels sel labels =
    match_all_labels sel.match_labels labels && match_all_expressions sel.match_expressions labels

module _ (codec : Codec) where
  unfoldable pub parse_selector : Raw → Option Selector
  parse_selector raw =
      if length raw == 0 || (text_eq raw (codes "null") || text_eq raw (codes "{}"))
      then some empty_selector
      else codec.selector raw

  unfoldable pub parse_labels : Raw → Option Labels
  parse_labels raw = if length raw == 0 then some [] else codec.labels raw

  -- The loop of ResolveHosts: active hosts whose labels decode and match.
  abbrev labels_match : Selector → Option Labels → Bool
  labels_match sel none = false
  labels_match sel (some labels) = matches_labels sel labels

  unfoldable pub matching_hosts : Selector → List Host → List Host
  unfolding parse_labels matches_labels
  matching_hosts sel [] = []
  matching_hosts sel (h ∷ hs) =
      let rest = matching_hosts sel hs in
      if text_eq h.status (codes "active") && labels_match sel (parse_labels h.labels)
      then h ∷ rest
      else rest

  unfoldable pub resolve_hosts : Queries → Text → Selector → Result PolicyError (List Host)
  unfolding matching_hosts
  resolve_hosts q tenant_id sel = do
    tenant ← or_err invalid_tenant_id (codec.scan_uuid tenant_id)
    hosts ← or_err list_hosts (q.list_hosts tenant)
    ok (matching_hosts sel hosts)

  unfoldable pub resolve_host_ids : Queries → Text → Selector → Result PolicyError (List Text)
  unfolding resolve_hosts
  resolve_host_ids q tenant_id sel = do
    hosts ← resolve_hosts q tenant_id sel
    ok (map (λ (h : Host). pg_uuid_to_str h.id) hosts)

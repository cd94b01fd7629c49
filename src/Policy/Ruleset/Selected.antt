-- ===== src/Policy/Ruleset/Selected.antt =====
-- The rules of a host before they are sorted.
use mathlib.Core.Path.{subst}
use qf.Common.{
  ◌≡◌, ◌∙◌, refl, ap, sym, true, false, Option, none, some, List, [], ◌∷◌, ◌++◌, map, All, Text,
  Result, ok, inl, inr, ◌⊎◌, Bool-cases, ◌>>=◌, >>=-eq-ok, ok_injective,
}
use qf.Uuid.{pg_uuid_to_str}
use qf.Policy.{
  Codec, Queries, Uuid, PolicyRow, Rule, Labels, Selector, PolicyError, or_err, bad_match,
  list_rules,
}
use qf.Policy.Matching.{parse_selector, matches_labels}
use qf.Policy.Ruleset.{
  ResolvedRule, rules_of_policies, resolve_rules_for_policy, resolve_rules, resolve_rule, selects,
  match_spec_of, resolve_cidrs, resolve_ports,
}

-- What a result that is ok satisfies.
pub record Gives {A : Type 0} (P : A → Type 0) (m : Result PolicyError A) : Type 0 where
  pub result : (a : A) → m ≡ ok a → P a

Gives-bind :
    {A B : Type 0} {P : B → Type 0} (m : Result PolicyError A) (f : A → Result PolicyError B)
    → ((a : A) → m ≡ ok a → Gives P (f a))
    → Gives P (m >>= f)
Gives-bind m f k = record { result = λ b h. let (a, p, q) = >>=-eq-ok f m h in (k a p).result b q }

Gives-ok : {A : Type 0} {P : A → Type 0} (a : A) → P a → Gives P (ok a)
Gives-ok {P = P} a h = record { result = λ b p. subst P (ok_injective p) h }

module _ (codec : Codec) (q : Queries) where
  -- The resolved rules of a policy: those of its rows, in their order.
  pub record IsOwn (p : PolicyRow) (own : List ResolvedRule) : Type 0 where
    pub id : Uuid
    pub rows : List Rule
    pub scanned : codec.scan_uuid (pg_uuid_to_str p.id) ≡ some id
    pub listed : q.rules_by_policy id ≡ some rows
    pub rules : map (λ (r : ResolvedRule). r.rule) own ≡ rows
    pub policies : All (λ (r : ResolvedRule). r.policy ≡ p) own

  -- A policy is taken if its selector decodes and matches.
  abbrev pub Selects : Labels → PolicyRow → Type 0
  Selects labels p =
      (sel : Selector) × (parse_selector codec p.selector ≡ some sel)
      × (matches_labels sel labels ≡ true)

  abbrev pub AreSelected : Labels → List PolicyRow → List ResolvedRule → Type 0
  AreSelected labels [] rs = rs ≡ []
  AreSelected labels (p ∷ ps) rs =
      (Selects labels p
        × ((own more : List ResolvedRule) × (rs ≡ own ++ more)
            × IsOwn p own
            × AreSelected labels ps more))
      ⊎ (¬ Selects labels p × AreSelected labels ps rs)

  module _ (tenant_id : Text) (p : PolicyRow) where
    abbrev IsOf : Rule → ResolvedRule → Type 0
    IsOf r rr = (rr.rule ≡ r) × (rr.policy ≡ p)

    abbrev AreOf : List Rule → List ResolvedRule → Type 0
    AreOf rows own =
        (map (λ (r : ResolvedRule). r.rule) own ≡ rows)
        × All (λ (r : ResolvedRule). r.policy ≡ p) own

    resolve_rule-IsOf : (r : Rule) → Gives (IsOf r) (resolve_rule codec q tenant_id p r)
    unfolding resolve_rule
    resolve_rule-IsOf r = Gives-bind (match_spec_of codec q r.matching) _ λ ms _.
        let addresses = resolve_cidrs codec q tenant_id in
        let ports = resolve_ports codec q tenant_id in
        Gives-bind (addresses ms.src_ip_set_id ms.src_host_set_id ms.src_cidrs) _ λ src _.
          Gives-bind (addresses ms.dst_ip_set_id ms.dst_host_set_id ms.dst_cidrs) _ λ dst _.
            Gives-bind (ports ms.src_port_set_id ms.src_ports) _ λ sp _.
              Gives-bind (ports ms.dst_port_set_id ms.dst_ports) _ λ dp _. Gives-ok _ (refl, refl)

    resolve_rules-AreOf :
        (rows : List Rule) → Gives (AreOf rows) (resolve_rules codec q tenant_id p rows)
    unfolding resolve_rules
    resolve_rules-AreOf [] = Gives-ok _ (refl, tt)
    resolve_rules-AreOf (row ∷ rows) = Gives-bind _ _ λ rr h. Gives-bind _ _ λ rest k.
        let (rule, policy) = (resolve_rule-IsOf row).result rr h in
        let (rules, policies) = (resolve_rules-AreOf rows).result rest k in
        Gives-ok _ (ap (◌∷◌ rr.rule) rules ∙ ap (λ x. x ∷ rows) rule, (policy, policies))

    or_err-eq-ok :
        {A : Type 0} (e : PolicyError) (o : Option A) (a : A) → or_err e o ≡ ok a → o ≡ some a
    or_err-eq-ok e none a h = cc
    or_err-eq-ok e (some b) a h = ap some (ok_injective h)

    resolve_rules_for_policy-IsOwn : Gives (IsOwn p) (resolve_rules_for_policy codec q tenant_id p)
    unfolding resolve_rules_for_policy
    resolve_rules_for_policy-IsOwn =
        Gives-bind (or_err bad_match (codec.scan_uuid (pg_uuid_to_str p.id))) _ λ id h.
          Gives-bind (or_err list_rules (q.rules_by_policy id)) _ λ rows k. record {
            result = λ own l.
                let (rules, policies) = (resolve_rules-AreOf rows).result own l in
                record {
                  id = id;
                  rows = rows;
                  scanned = or_err-eq-ok _ _ id h;
                  listed = or_err-eq-ok _ _ rows k;
                  rules = rules;
                  policies = policies;
                };
          }

  module _ (labels : Labels) (p : PolicyRow) where
    selects-Selects :
        (o : Option Selector)
        → parse_selector codec p.selector ≡ o
        → selects codec q o labels ≡ true
        → Selects labels p
    selects-Selects none e h = cc
    selects-Selects (some sel) e h = (sel, e, h)

    Selects-selects :
        (o : Option Selector)
        → parse_selector codec p.selector ≡ o
        → selects codec q o labels ≡ false
        → ¬ Selects labels p
    Selects-selects none e h (sel, parsed, matched) = let bad = sym e ∙ parsed in cc
    Selects-selects (some s) e h (sel, parsed, matched) = let same = sym e ∙ parsed in cc

  pub rules_of_policies-AreSelected :
      (tenant_id : Text) (labels : Labels) (ps : List PolicyRow)
      → Gives
          (AreSelected labels ps)
          (rules_of_policies codec q (resolve_rules_for_policy codec q tenant_id) labels ps)
  unfolding rules_of_policies
  rules_of_policies-AreSelected tenant_id labels [] = Gives-ok _ refl
  rules_of_policies-AreSelected tenant_id labels (p ∷ ps) =
      let o = parse_selector codec p.selector in
      let rest = rules_of_policies-AreSelected tenant_id labels ps in
      elim (Bool-cases (selects codec q o labels)) [
        | inl e ↦ rw e (
            Gives-bind _ _ λ own h. Gives-bind _ _ λ more k. Gives-ok _ (
              inl (
                selects-Selects labels p o refl e,
                (
                  own,
                  more,
                  refl,
                  (resolve_rules_for_policy-IsOwn tenant_id p).result own h,
                  rest.result more k,
                ),
              )))
        | inr e ↦
            rw e (record {
              result = λ rs h. inr (Selects-selects labels p o refl e, rest.result rs h);
            })
      ]

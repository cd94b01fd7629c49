-- ===== src/Policy/Matching/Meaning.antt =====
-- What a label selector means, apart from the code that evaluates it.
use mathlib.Core.Path.{subst}
use qf.Common.{
  ◌≡◌, ◌≢◌, ◌↔◌, ◌⊎◌, refl, sym, Bool, true, not, ◌&&◌, Option, none, some, List, [], ◌∷◌, Text,
  codes, text_eq, text_eq_iff, All, inl, inr, Bool-cases, arith,
}
use qf.Policy.{Labels, LabelSelectorRequirement, Selector}
use qf.Policy.Matching.{
  lookup, contains, value_or_empty, in_values, exists, eval_expression, match_all_labels,
  match_all_expressions, matches_labels,
}

-- A value is one of a list.
abbrev pub IsIn : Text → List Text → Type 0
IsIn v [] = ⊥
IsIn v (w ∷ ws) = (w ≡ v) ⊎ IsIn v ws

-- A label is there, with one of the values.
abbrev pub HasValueIn : List Text → Option Text → Type 0
HasValueIn values found = (v : Text) × (found ≡ some v) × IsIn v values

-- The four operators; a requirement with any other is never satisfied.
pub data Satisfies (labels : Labels) (e : LabelSelectorRequirement) : Type 0 where
  is_in : e.operator ≡ codes "In" → HasValueIn e.values (lookup e.key labels) → Satisfies labels e
  not_in :
      e.operator ≡ codes "NotIn" → ¬ HasValueIn e.values (lookup e.key labels) → Satisfies labels e
  present : e.operator ≡ codes "Exists" → lookup e.key labels ≢ none → Satisfies labels e
  absent : e.operator ≡ codes "DoesNotExist" → lookup e.key labels ≡ none → Satisfies labels e

-- The label has the value; an empty value also stands for a label that is missing.
abbrev pub HasLabel : Labels → Text × Text → Type 0
HasLabel labels (k, v) = (lookup k labels ≡ some v) ⊎ ((lookup k labels ≡ none) × (v ≡ []))

contains_iff : (ws : List Text) (v : Text) → (contains ws v ≡ true) ↔ IsIn v ws
unfolding contains
contains_iff [] v = (λ h. cc, λ h. absurd h)
contains_iff (w ∷ ws) v = ground (arith, text_eq_iff w v, contains_iff ws v)

in_values_iff : (ws : List Text) (o : Option Text) → (in_values ws o ≡ true) ↔ HasValueIn ws o
in_values_iff ws none = (λ h. cc, λ (v, e, i). cc)
in_values_iff ws (some v) = (
  λ h. (v, refl, (contains_iff ws v).0 h),
  λ (w, e, i). (contains_iff ws v).1 (let same : w ≡ v = cc in subst (λ x. IsIn x ws) same i),
)

exists_iff : (o : Option Text) → (exists o ≡ true) ↔ (o ≢ none)
exists_iff none = (λ h. cc, λ h. absurd (h refl))
exists_iff (some v) = (λ h e. cc, λ h. refl)

negated : (b : Bool) → (not b ≡ true) ↔ (b ≢ true)
negated b = ground arith

eval_expression_holds :
    (e : LabelSelectorRequirement) (labels : Labels)
    → Satisfies labels e
    → eval_expression e labels ≡ true
unfolding eval_expression text_eq
eval_expression_holds e labels (Satisfies.is_in p h) =
    rw p ((in_values_iff e.values (lookup e.key labels)).1 h)
eval_expression_holds e labels (Satisfies.not_in p h) = rw p (
    (negated (in_values e.values (lookup e.key labels))).1
      (λ t. h ((in_values_iff e.values (lookup e.key labels)).0 t)))
eval_expression_holds e labels (Satisfies.present p h) =
    rw p ((exists_iff (lookup e.key labels)).1 h)
eval_expression_holds e labels (Satisfies.absent p h) = rw (p, h) refl

none_of : (o : Option Text) → not (exists o) ≡ true → o ≡ none
none_of none h = refl
none_of (some v) h = cc

eval_expression_means :
    (e : LabelSelectorRequirement) (labels : Labels)
    → eval_expression e labels ≡ true
    → Satisfies labels e
unfolding eval_expression
eval_expression_means e labels h = elim (Bool-cases (text_eq e.operator (codes "In"))) [
  | inl p ↦
      Satisfies.is_in ((text_eq_iff _ _).0 p)
        ((in_values_iff e.values (lookup e.key labels)).0 (rw p at h))
  | inr p ↦ elim (Bool-cases (text_eq e.operator (codes "NotIn"))) [
    | inl q ↦
        Satisfies.not_in ((text_eq_iff _ _).0 q)
          (λ v. (negated _).0 (rw (p, q) at h) ((in_values_iff e.values (lookup e.key labels)).1 v))
    | inr q ↦ elim (Bool-cases (text_eq e.operator (codes "Exists"))) [
      | inl r ↦
          Satisfies.present ((text_eq_iff _ _).0 r)
            ((exists_iff (lookup e.key labels)).0 (rw (p, q, r) at h))
      | inr r ↦ elim (Bool-cases (text_eq e.operator (codes "DoesNotExist"))) [
        | inl s ↦ Satisfies.absent ((text_eq_iff _ _).0 s) (none_of _ (rw (p, q, r, s) at h))
        | inr s ↦ let bad = rw (p, q, r, s) at h in cc
      ]
    ]
  ]
]

value_iff :
    (o : Option Text) (v : Text)
    → (text_eq (value_or_empty o) v ≡ true) ↔ ((o ≡ some v) ⊎ ((o ≡ none) × (v ≡ [])))
value_iff none v = (
  λ h. inr (refl, sym ((text_eq_iff [] v).0 h)),
  λ h. (text_eq_iff [] v).1 (elim h [ inl e ↦ cc | inr (e, z) ↦ sym z ]),
)
value_iff (some w) v = (
  λ h. let e = (text_eq_iff w v).0 h in inl (cc),
  λ h. (text_eq_iff w v).1 (elim h [ inl e ↦ cc | inr (e, z) ↦ cc ]),
)

and_iff : (a b : Bool) → (a && b ≡ true) ↔ ((a ≡ true) × (b ≡ true))
and_iff a b = ground arith

match_all_labels_iff :
    (wanted labels : Labels)
    → (match_all_labels wanted labels ≡ true) ↔ All (HasLabel labels) wanted
unfolding match_all_labels
match_all_labels_iff [] labels = (λ h. tt, λ h. refl)
match_all_labels_iff ((k, v) ∷ rest) labels =
    let here = value_iff (lookup k labels) v in
    let there = match_all_labels_iff rest labels in
    let both =
      and_iff (text_eq (value_or_empty (lookup k labels)) v) (match_all_labels rest labels) in
    (λ h. let (a, b) = both.0 h in (here.0 a, there.0 b), λ h. both.1 (here.1 h.0, there.1 h.1))

match_all_expressions_iff :
    (es : List LabelSelectorRequirement) (labels : Labels)
    → (match_all_expressions es labels ≡ true) ↔ All (Satisfies labels) es
unfolding match_all_expressions
match_all_expressions_iff [] labels = (λ h. tt, λ h. refl)
match_all_expressions_iff (e ∷ es) labels =
    let there = match_all_expressions_iff es labels in
    let both = and_iff (eval_expression e labels) (match_all_expressions es labels) in
    (
      λ h. let (a, b) = both.0 h in (eval_expression_means e labels a, there.0 b),
      λ h. both.1 (eval_expression_holds e labels h.0, there.1 h.1),
    )

-- A host matches a selector exactly when it has every label of MatchLabels, where a missing label
-- counts as an empty one, and satisfies every expression: In and NotIn by the label's value, Exists
-- and DoesNotExist by its presence. An unknown operator matches no host.
pub matches_labels_iff :
    (sel : Selector) (labels : Labels)
    → (matches_labels sel labels ≡ true)
      ↔ (All (HasLabel labels) sel.match_labels × All (Satisfies labels) sel.match_expressions)
unfolding matches_labels
matches_labels_iff sel labels =
    let a = match_all_labels_iff sel.match_labels labels in
    let b = match_all_expressions_iff sel.match_expressions labels in
    let both =
      and_iff (match_all_labels sel.match_labels labels)
        (match_all_expressions sel.match_expressions labels) in
    (λ h. let (x, y) = both.0 h in (a.0 x, b.0 y), λ h. both.1 (a.1 h.0, b.1 h.1))

-- ===== src/Policy.antt =====
-- The control plane's policy compiler, cp/internal/policy. Its rows are those of
-- cp/internal/store/gen/models.go; a JSON column is kept as the bytes `Raw`, which the parameter
-- `Codec` decodes as encoding/json does, and the tables are read through the parameter `Queries`.
pub mod Matching
pub mod Resolver
pub mod Ruleset
pub mod Bundle
pub mod DryRun
pub mod Cascade
use qf.Common.{ℕ, Bool, Option, List, Text, Result, ◌≡◌}
use qf.Common.Int.{ℤ}

-- Bytes of a JSON column.
abbrev pub Raw : Type 0
Raw = List ℕ

abbrev pub Uuid : Type 0
Uuid = List ℕ

-- A Go map from strings: the first entry of a key counts.
abbrev pub Labels : Type 0
Labels = List (Text × Text)

pub record LabelSelectorRequirement : Type 0 where
  pub key : Text
  pub operator : Text
  pub values : List Text

pub record Selector : Type 0 where
  pub match_labels : Labels
  pub match_expressions : List LabelSelectorRequirement

pub record RuleMatchSpec : Type 0 where
  pub protocol : Text
  pub src_ip_set_id : Text
  pub dst_ip_set_id : Text
  pub src_port_set_id : Text
  pub dst_port_set_id : Text
  pub src_host_set_id : Text
  pub dst_host_set_id : Text
  pub src_cidrs : List Text
  pub dst_cidrs : List Text
  pub src_ports : List Text
  pub dst_ports : List Text
  pub tcp_flags_mask : ℕ
  pub tcp_flags_match : ℕ

pub record Host : Type 0 where
  pub id : Uuid
  pub hostname : Text
  pub labels : Raw
  pub status : Text
  pub current_generation : ℤ
  pub desired_generation : ℤ

pub record PolicyRow : Type 0 where
  pub id : Uuid
  pub name : Text
  pub priority : ℤ
  pub selector : Raw

pub record Rule : Type 0 where
  pub id : Uuid
  pub policy_id : Uuid
  pub name : Text
  pub priority : ℤ
  pub direction : Text
  pub matching : Raw
  pub state : Option Text
  pub action : Text
  pub log : Bool
  pub silent : Bool

pub record DefaultPolicy : Type 0 where
  pub default_ingress_action : Text
  pub default_egress_action : Text

pub record ObjectGroup : Type 0 where
  pub id : Uuid
  pub type : Text
  pub spec : Raw

pub data PolicyError : Type 0 where
  invalid_tenant_id invalid_host_id invalid_og_id invalid_policy_id : PolicyError
  get_default_policy list_policies get_host list_hosts list_rules get_object_group : PolicyError
  get_policy list_rules_by_og : PolicyError
  bad_spec bad_match bad_selector : PolicyError
  bad_cidr bad_port : Text → PolicyError
  unknown_group_type : Text → PolicyError

-- What encoding/json, package net and pgtype.UUID.Scan decode; `none` is an error.
pub record Codec : Type 0 where
  pub scan_uuid : Text → Option Uuid
  pub selector : Raw → Option Selector
  -- what json.Unmarshal has stored in a selector when it fails
  pub partial_selector : Raw → Selector
  pub labels : Raw → Option Labels
  -- what json.Unmarshal has stored in a map of labels when it fails
  pub partial_labels : Raw → Labels
  pub match_spec : Raw → Option RuleMatchSpec
  pub ipset_spec : Raw → Option (List Text)
  pub portset_spec : Raw → Option (List Text)
  pub hostset_spec : Raw → Option Selector
  -- net.ParseCIDR: the address and the length of the prefix
  pub parse_cidr : Text → Option (List ℕ × ℕ)
  -- net.ParseIP: an address of sixteen bytes
  pub parse_ip : Text → Option (List ℕ)

-- The queries of a database snapshot; `none` is an error.
pub record Queries : Type 0 where
  pub list_hosts : Uuid → Option (List Host)
  pub get_host : Uuid → Uuid → Option Host
  pub default_policy : Uuid → Option DefaultPolicy
  pub list_policies : Uuid → Option (List PolicyRow)
  pub rules_by_policy : Uuid → Option (List Rule)
  pub object_group : Uuid → Uuid → Option ObjectGroup
  pub get_policy : Uuid → Uuid → Option PolicyRow
  pub rule_ids_by_object_group : Uuid → Option (List Uuid)
  pub get_rule : Uuid → Option Rule

-- The error for a missing value.
abbrev pub or_err {ℓ} : {A : Type ℓ} → PolicyError → Option A → Result PolicyError A
or_err e Option.none = Result.err e
or_err e (Option.some a) = Result.ok a

pub or_err-eq-ok {ℓ} :
    {A : Type ℓ} (e : PolicyError) (o : Option A) {a : A}
    → or_err e o ≡ Result.ok a
    → o ≡ Option.some a
or_err-eq-ok e Option.none h = cc
or_err-eq-ok e (Option.some a) h = cc

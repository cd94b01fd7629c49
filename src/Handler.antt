-- ===== src/Handler.antt =====
-- agent/internal/handler/policy.go: PolicyHandler.Apply compiles a bundle and installs it in the
-- BPF maps, step by step; any step may fail and leaves what the earlier steps have written.
pub mod Atomic
pub mod Sets
use qf.Common.{ℕ, Bool, true, false, Option, none, some, List, [], ◌∷◌, Text, Result, ok, err}
use qf.Common.Int.{ℤ, pos}
use qf.Proto.{PolicyBundle}
use qf.Loader.{Cidr4, RuleSpec, BpfObjects, Kernel, LoadError}
use qf.Loader.Rules.{push_rules}
use qf.Loader.Ipset.{push_ipset, clear_ipsets}
use qf.Loader.Settings.{set_config}
use qf.Compiler.{CompileError, CompileResult, Warning, compile_bundle}

-- The times of an ApplyResult are left out.
pub record ApplyResult : Type 0 where
  pub generation : ℤ
  pub warnings : List (ℕ × Warning)
  pub rules : List RuleSpec

pub data ApplyError : Type 0 where
  compile_failed : CompileError → ApplyError
  clear_failed set_config_failed push_rules_failed : LoadError → ApplyError
  push_ipset_failed : ℕ → LoadError → ApplyError

-- The handler and the datapath that it writes.
pub record Agent : Type 0 where
  pub objs : BpfObjects
  pub current : Option ApplyResult

abbrev pub apply_result : Option PolicyBundle → CompileResult → ApplyResult
apply_result none res = record { generation = pos 0; warnings = res.warnings; rules = res.rules }
apply_result (some b) res = record {
  generation = b.generation;
  warnings = res.warnings;
  rules = res.rules;
}

module _ (k : Kernel) where
  -- Go ranges over the map of sets in any order; here it is the order of the list.
  unfoldable pub push_ipsets :
      List (ℕ × List Cidr4) → BpfObjects → BpfObjects × Result ApplyError (Unit {0})
  unfolding push_ipset
  push_ipsets [] m = (m, ok tt)
  push_ipsets ((id, cidrs) ∷ sets) m =
      let (m', pushed) = push_ipset k id cidrs m in
      let rest = push_ipsets sets m' in
      elim pushed [ err e ↦ (m', err (push_ipset_failed id e)) | ok _ ↦ rest ]

  -- The writes of Apply, in its order: clear the sets, push them, the configuration, the rules.
  unfoldable pub install : CompileResult → BpfObjects → BpfObjects × Result ApplyError (Unit {0})
  unfolding clear_ipsets push_ipsets set_config push_rules
  install res m =
      let (m₁, cleared) = clear_ipsets k m in
      elim cleared [
        | err e ↦ (m₁, err (clear_failed e))
        | ok _ ↦
            let (m₂, pushed) = push_ipsets res.ipsets m₁ in
            elim pushed [
              | err e ↦ (m₂, err e)
              | ok _ ↦
                  let (m₃, configured) = set_config k res.config m₂ in
                  elim configured [
                    | err e ↦ (m₃, err (set_config_failed e))
                    | ok _ ↦
                        let (m₄, ruled) = push_rules k m₃ res.rules in
                        elim ruled [ err e ↦ (m₄, err (push_rules_failed e)) | ok _ ↦ (m₄, ok tt) ]
                  ]
            ]
      ]

  -- The result becomes current only at the end.
  unfoldable pub apply : Option PolicyBundle → Agent → Agent × Result ApplyError ApplyResult
  unfolding compile_bundle install
  apply bundle h = elim (compile_bundle bundle) [
    | err e ↦ (h, err (compile_failed e))
    | ok res ↦
        let (m, installed) = install res h.objs in
        let ar = apply_result bundle res in
        elim installed [
          | err e ↦ (record h { objs = m }, err e)
          | ok _ ↦ (record { objs = m; current = some ar }, ok ar)
        ]
  ]

-- The report to the control plane.
pub record BundleApplied : Type 0 where
  pub generation : ℤ
  pub success : Bool

abbrev pub make_bundle_applied : ℤ → Result ApplyError ApplyResult → BundleApplied
make_bundle_applied gen (ok ar) = record { generation = ar.generation; success = true }
make_bundle_applied gen (err e) = record { generation = gen; success = false }

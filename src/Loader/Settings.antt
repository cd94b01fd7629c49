-- ===== src/Loader/Settings.antt =====
-- agent/internal/loader/config.go: SetConfig and GetConfig over the three slots of qf_config.
pub mod Roundtrip
use Prim.Native.Nat.{bit_and, bit_or}
use qf.Common.{ℕ, ◌%◌, Bool, true, false, not, Result, ok, err, ◌==◌, if◌then◌else◌}
use qf.Loader.{Config, BpfObjects, Kernel, LoadError, write_config, read_config, action_allow, put}

-- An action of 0 is stored and read as allow.
abbrev pub or_allow : ℕ → ℕ
or_allow a = if a == 0 then action_allow else a

abbrev pub config_flags : Config → ℕ
config_flags cfg =
    bit_or (if cfg.conntrack_enabled then 1 else 0) (if cfg.flow_events_enabled then 2 else 0)

module _ (k : Kernel) where
  abbrev put_slot : ℕ → ℕ → BpfObjects → BpfObjects
  put_slot i v m = record m { qf_config = put m.qf_config i v }

  unfoldable pub set_config : Config → BpfObjects → BpfObjects × Result LoadError (Unit {0})
  set_config cfg m =
      let m₀ = put_slot 0 (config_flags cfg) m in
      let m₁ = put_slot 1 (or_allow cfg.default_ingress) m₀ in
      let m₂ = put_slot 2 (or_allow cfg.default_egress) m₁ in
      if not (k.config_put_ok 0)
      then (m, err (write_config 0))
      else if not (k.config_put_ok 1)
      then (m₀, err (write_config 1))
      else if not (k.config_put_ok 2)
      then (m₁, err (write_config 2))
      else (m₂, ok tt)

  unfoldable pub get_config : BpfObjects → Result LoadError Config
  get_config m =
      if not (k.config_lookup_ok 0)
      then err (read_config 0)
      else if not (k.config_lookup_ok 1)
      then err (read_config 1)
      else if not (k.config_lookup_ok 2)
      then err (read_config 2)
      else ok (record {
        conntrack_enabled = not (bit_and (m.qf_config 0) 1 == 0);
        flow_events_enabled = not (bit_and (m.qf_config 0) 2 == 0);
        default_ingress = or_allow (m.qf_config 1 % 256);
        default_egress = or_allow (m.qf_config 2 % 256);
      })

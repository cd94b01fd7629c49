-- ===== src/Session/Files.antt =====
-- The files of the agent: SaveBundle and LoadBundle of agent/internal/policy/bundle.go, LoadAndApply of
-- agent/internal/agent/boot.go, and atomicWrite and saveCreds of
-- agent/internal/grpcclient/certrotate.go. A directory is an association list.
pub mod Atomic
use qf.Common.{
  ℕ, Bool, true, false, not, ◌&&◌, Option, none, some, List, [], ◌∷◌, Text, text_eq, Result, ok,
  err, map_err, ◌>>=◌, if◌then◌else◌,
}
use qf.Loader.{Kernel}
use qf.Handler.{ApplyResult, ApplyError, apply}
use qf.Handler
use qf.Session.{SignedBundle}
use qf.Session.Signature.{Crypto, VerifyError, verify_bundle}

abbrev pub Files : Type 0
Files = List (Text × List ℕ)

unfoldable pub find_file : Text → Files → Option (List ℕ)
find_file p [] = none
find_file p ((j, d) ∷ fs) = let rest = find_file p fs in if text_eq j p then some d else rest

unfoldable pub put_file : Text → List ℕ → Files → Files
put_file p d [] = (p, d) ∷ []
put_file p d ((j, e) ∷ fs) =
    let rest = put_file p d fs in if text_eq j p then (p, d) ∷ fs else (j, e) ∷ rest

unfoldable pub remove_file : Text → Files → Files
remove_file p [] = []
remove_file p ((j, e) ∷ fs) =
    let rest = remove_file p fs in if text_eq j p then rest else (j, e) ∷ rest

-- Which system calls succeed, what a failing write leaves in the file, and the name of the temporary
-- file. Removing that file succeeds.
pub record Disk : Type 0 where
  pub create_ok : Bool
  pub write_ok : Bool
  pub chmod_ok : Bool
  pub close_ok : Bool
  pub rename_ok : Bool
  pub partial : List ℕ
  pub tmp_name : Text

pub data FileError : Type 0 where
  create_failed write_failed chmod_failed close_failed rename_failed : FileError
  marshal_failed not_exist read_failed unmarshal_failed : FileError

-- Temporary file, write, mode if one is set, close and rename.
unfoldable pub replace_file :
    Disk → Bool → Text → List ℕ → Files → Files × Result FileError (Unit {0})
replace_file k has_mode path content fs =
    let written = put_file k.tmp_name content fs in
    let removed = remove_file k.tmp_name written in
    if not k.create_ok
    then (fs, err create_failed)
    else if not k.write_ok
    then (remove_file k.tmp_name (put_file k.tmp_name k.partial fs), err write_failed)
    else if has_mode && not k.chmod_ok
    then (removed, err chmod_failed)
    else if not k.close_ok
    then (removed, err close_failed)
    else if not k.rename_ok
    then (removed, err rename_failed)
    else (put_file path content removed, ok tt)

unfoldable pub atomic_write : Disk → Text → List ℕ → Files → Files × Result FileError (Unit {0})
atomic_write k path content fs = replace_file k true path content fs

-- The certificate is written before its key.
unfoldable pub save_creds :
    Disk
    → Disk
    → Text
    → Text
    → Option (List ℕ)
    → List ℕ
    → Files
    → Files × Result FileError (Unit {0})
save_creds cert_disk key_disk cert_file key_file none cert_pem fs = (fs, err marshal_failed)
save_creds cert_disk key_disk cert_file key_file (some key_pem) cert_pem fs =
    let (fs', r) = atomic_write cert_disk cert_file cert_pem fs in
    let (fs'', s) = atomic_write key_disk key_file key_pem fs' in
    elim r [ err e ↦ (fs', err e) | ok _ ↦ (fs'', s) ]

-- The wire format of a bundle.
pub record Wire : Type 0 where
  pub marshal : SignedBundle → Option (List ℕ)
  pub unmarshal : List ℕ → Option SignedBundle

module _ (w : Wire) where
  unfoldable pub save_bundle :
      Disk → Text → SignedBundle → Files → Files × Result FileError (Unit {0})
  save_bundle k path bundle fs = elim (w.marshal bundle) [
    | none ↦ (fs, err marshal_failed)
    | some b ↦ replace_file k false path b fs
  ]

  abbrev pub parsed : Option SignedBundle → Result FileError SignedBundle
  parsed none = err unmarshal_failed
  parsed (some b) = ok b

  unfoldable pub load_bundle : Bool → Text → Files → Result FileError SignedBundle
  load_bundle read_ok path fs = elim (find_file path fs) [
    | none ↦ err not_exist
    | some b ↦ if read_ok then parsed (w.unmarshal b) else err read_failed
  ]

pub data BootError : Type 0 where
  load_failed : FileError → BootError
  verify_failed : VerifyError → BootError
  apply_failed : ApplyError → BootError

module _ (w : Wire) (crypto : Crypto) (k : Kernel) (pub_key : List ℕ) where
  abbrev pub apply_verified :
      SignedBundle
      → Result VerifyError (Unit {0})
      → Handler.Agent
      → Handler.Agent × Result BootError (Option ApplyResult)
  apply_verified b (err e) a = (a, err (verify_failed e))
  apply_verified b (ok _) a =
      let (a', r) = apply k (some b.bundle) a in
      elim r [ err e ↦ (a', err (apply_failed e)) | ok ar ↦ (a', ok (some ar)) ]

  abbrev pub apply_loaded :
      Result FileError SignedBundle
      → Handler.Agent
      → Handler.Agent × Result BootError (Option ApplyResult)
  apply_loaded (err not_exist) a = (a, ok none)
  apply_loaded (err e) a = (a, err (load_failed e))
  apply_loaded (ok b) a = apply_verified b (verify_bundle crypto b pub_key) a

  -- none where there is no file, and nothing to apply.
  unfoldable pub load_and_apply :
      Bool → Text → Files → Handler.Agent → Handler.Agent × Result BootError (Option ApplyResult)
  load_and_apply read_ok path fs a = apply_loaded (load_bundle w read_ok path fs) a

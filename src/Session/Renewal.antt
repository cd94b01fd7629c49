-- ===== src/Session/Renewal.antt =====
-- Certificate renewal on a session: handleCertRenewal of cp/internal/agentsrv/handlers.go and the
-- CertRotator of agent/internal/grpcclient/certrotate.go. Keys, requests and certificates are the work
-- of crypto/x509: the record Signing says what each of its calls returns.
use qf.Common.{
  ℕ, ◌+◌, ◌-◌, ◌/◌, Bool, true, false, not, Option, none, some, List, [], ◌∷◌, Text, text_eq, codes,
  Result, ok, err, ◌>>=◌, ◌>>◌, fail_if, ltb, if◌then◌else◌,
}
use qf.Pki.Revocation.{CertificateRow, RevocationChecker, is_revoked}
use qf.Session.Files.{Files, Disk, FileError, save_creds}

pub data RenewalError : Type 0 where
  parse_identity no_active_cert cert_revoked invalid_csr serial_failed sign_failed : RenewalError
  parse_signed_failed save_failed : RenewalError

-- `csr` is the block of the request, `serial` a random serial, `signed` the new certificate and
-- `not_after` its end, each none where the call fails.
pub record Signing : Type 0 where
  pub csr : Option (List ℕ)
  pub serial : Option Text
  pub signed : List ℕ → Text → Option (List ℕ)
  pub not_after : List ℕ → Option ℕ

-- Whether the identity reads as ids, and which queries succeed.
pub record RenewalQueries : Type 0 where
  pub identity_ok : Bool
  pub lookup_ok : Bool
  pub insert_ok : Bool
  pub update_ok : Bool

-- The host's rows, the newest first.
unfoldable pub active_certificate : List CertificateRow → Option CertificateRow
unfolding text_eq
active_certificate [] = none
active_certificate (c ∷ cs) =
    let rest = active_certificate cs in if text_eq c.status (codes "active") then some c else rest

unfoldable pub update_certificate_status : Text → Text → List CertificateRow → List CertificateRow
update_certificate_status serial status [] = []
update_certificate_status serial status (c ∷ cs) =
    let rest = update_certificate_status serial status cs in
    if text_eq c.serial serial then record c { status = status } ∷ rest else c ∷ rest

abbrev or_error {ℓ} : {A : Type ℓ} → RenewalError → Option A → Result RenewalError A
or_error e none = err e
or_error e (some a) = ok a

abbrev is_blocked : Option RevocationChecker → Text → Bool
is_blocked none serial = false
is_blocked (some rc) serial = is_revoked serial rc

abbrev pub if_found : Bool → Option CertificateRow → Option CertificateRow
if_found true c = c
if_found false c = none

-- What the checks and the signature give: the old certificate, the new one and its row.
unfoldable pub new_certificate :
    RenewalQueries
    → Option RevocationChecker
    → Signing
    → List CertificateRow
    → Result RenewalError (CertificateRow × List ℕ × CertificateRow)
new_certificate q rc sg rows = do
  fail_if (not q.identity_ok) parse_identity
  old ← or_error no_active_cert (if_found q.lookup_ok (active_certificate rows))
  fail_if (is_blocked rc old.serial) cert_revoked
  block ← or_error invalid_csr sg.csr
  serial ← or_error serial_failed sg.serial
  der ← or_error sign_failed (sg.signed block serial)
  end ← or_error parse_signed_failed (sg.not_after der)
  fail_if (not q.insert_ok) save_failed
  ok (old, der, record { serial = serial; status = codes "active"; not_after = end })

-- The rows and the response. A failure to mark the old certificate is only logged.
unfoldable pub handle_cert_renewal :
    RenewalQueries
    → Option RevocationChecker
    → Signing
    → List CertificateRow
    → List CertificateRow × Result RenewalError (List ℕ × ℕ)
handle_cert_renewal q rc sg rows = elim (new_certificate q rc sg rows) [
  | err e ↦ (rows, err e)
  | ok (old, der, c) ↦ (
    (if q.update_ok
        then update_certificate_status old.serial (codes "rotated") (c ∷ rows)
        else c ∷ rows),
    ok (der, c.not_after),
  )
]

pub data RotateError : Type 0 where
  load_cert_failed generate_key_failed build_csr_failed send_request_failed : RotateError
  response_timeout rejected_by_cp : RotateError
  save_creds_failed : FileError → RotateError

-- DeliverResponse on the channel of one response.
abbrev pub deliver_response : {R : Type 0} → R → Option R → Option R
deliver_response r none = some r
deliver_response r (some old) = some old

unfoldable pub renewal_threshold : ℕ → ℕ → ℕ
renewal_threshold not_before not_after =
    if ltb not_after not_before
    then not_before - (not_before - not_after) / 2
    else not_before + (not_after - not_before) / 2

-- What renew meets: a key with its encoding, a request, the stream, and the response: none after
-- the time-out, and none inside where the control plane refuses.
pub record Renewal : Type 0 where
  pub key_ok : Bool
  pub key_pem : Option (List ℕ)
  pub csr_ok : Bool
  pub send_ok : Bool
  pub response : Option (Option (List ℕ))

unfoldable pub renew :
    Renewal → Disk → Disk → Text → Text → Files → Files × Result RotateError (Unit {0})
renew r cert_disk key_disk cert_file key_file fs =
    if not r.key_ok
    then (fs, err generate_key_failed)
    else if not r.csr_ok
    then (fs, err build_csr_failed)
    else if not r.send_ok
    then (fs, err send_request_failed)
    else elim (r.response) [
      | none ↦ (fs, err response_timeout)
      | some answer ↦ elim answer [
        | none ↦ (fs, err rejected_by_cp)
        | some cert_pem ↦
            let (fs', saved) =
              save_creds cert_disk key_disk cert_file key_file r.key_pem cert_pem fs in
            elim saved [ err e ↦ (fs', err (save_creds_failed e)) | ok _ ↦ (fs', ok tt) ]
      ]
    ]

-- Run: the certificate's times are none where it does not load; a session that ends first ends it
-- without an error.
unfoldable pub run_rotator :
    Option (ℕ × ℕ)
    → Bool
    → Renewal
    → Disk
    → Disk
    → Text
    → Text
    → Files
    → Files × Result RotateError (Unit {0})
run_rotator none cancelled r cert_disk key_disk cert_file key_file fs = (fs, err load_cert_failed)
run_rotator (some times) true r cert_disk key_disk cert_file key_file fs = (fs, ok tt)
run_rotator (some times) false r cert_disk key_disk cert_file key_file fs =
    renew r cert_disk key_disk cert_file key_file fs

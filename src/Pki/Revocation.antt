-- ===== src/Pki/Revocation.antt =====
-- cp/internal/pki/revocation.go: the set of revoked serials in memory. Reading the certificates
-- table and parsing a certificate are parameters; each operation holds the lock.
use qf.Common.{
  ℕ, ◌≡◌, refl, Bool, false, ◌&&◌, ◌||◌, Option, none, some, List, [], ◌∷◌, ◌++◌, Text, text_eq,
  text_eq_refl, Result, ok, err, ltb, codes, if◌then◌else◌, Bool-cases, inl, inr,
}

-- The columns of a certificate that the query reads.
pub record CertificateRow : Type 0 where
  pub serial : Text
  pub status : Text
  pub not_after : ℕ

pub record RevocationChecker : Type 0 where
  pub revoked : List Text

pub data RevocationError : Type 0 where
  reload_failed parse_failed : RevocationError
  is_revoked_cert : Text → RevocationError

unfoldable pub is_revoked : Text → RevocationChecker → Bool
is_revoked serial rc = any rc.revoked
  where
    any : List Text → Bool
    any [] = false
    any (s ∷ ss) = text_eq s serial || any ss

unfoldable pub revoke : Text → RevocationChecker → RevocationChecker
revoke serial rc = record { revoked = serial ∷ rc.revoked }

-- The SELECT of Reload.
unfoldable pub revoked_serials : ℕ → List CertificateRow → List Text
unfolding text_eq
revoked_serials now [] = []
revoked_serials now (c ∷ cs) =
    let rest = revoked_serials now cs in
    if text_eq c.status (codes "revoked") && ltb now c.not_after then c.serial ∷ rest else rest

-- The table is none where the query fails; the set is then kept.
unfoldable pub reload :
    ℕ
    → Option (List CertificateRow)
    → RevocationChecker
    → RevocationChecker × Result RevocationError (Unit {0})
unfolding revoked_serials
reload now none rc = (rc, err reload_failed)
reload now (some rows) rc = (record { revoked = revoked_serials now rows }, ok tt)

-- NewRevocationChecker.
unfoldable pub new_revocation_checker :
    ℕ → Option (List CertificateRow) → Result RevocationError RevocationChecker
unfolding reload
new_revocation_checker now rows =
    let (rc, r) = reload now rows (record { revoked = [] }) in
    elim r [ ok _ ↦ ok rc | err e ↦ err e ]

-- VerifyPeerCertificate on the serials of the certificates, none for one that does not parse.
unfoldable pub verify_peer_certificate :
    List (Option Text) → RevocationChecker → Result RevocationError (Unit {0})
unfolding is_revoked
verify_peer_certificate [] rc = ok tt
verify_peer_certificate (none ∷ cs) rc = err parse_failed
verify_peer_certificate (some serial ∷ cs) rc =
    let rest = verify_peer_certificate cs rc in
    if is_revoked serial rc then err (is_revoked_cert serial) else rest

-- A revoked serial is refused at once, wherever it stands among the certificates of a peer.
pub verify_peer_certificate-revoke :
    (serial : Text) (before after : List (Option Text)) (rc : RevocationChecker)
    → (e : RevocationError) × (verify_peer_certificate
          (before ++ some serial ∷ after)
          (revoke serial rc)
        ≡ err e)
unfolding verify_peer_certificate revoke is_revoked
verify_peer_certificate-revoke serial [] after rc =
    (is_revoked_cert serial, rw (verify_peer_certificate, is_revoked, text_eq_refl serial) refl)
verify_peer_certificate-revoke serial (none ∷ before) after rc = (parse_failed, refl)
verify_peer_certificate-revoke serial (some s ∷ before) after rc =
    let (e, p) = verify_peer_certificate-revoke serial before after rc in
    elim (Bool-cases (is_revoked s (revoke serial rc))) [
      | inl q ↦ (is_revoked_cert s, rw q refl)
      | inr q ↦ (e, rw q p)
    ]

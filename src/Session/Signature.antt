-- ===== src/Session/Signature.antt =====
-- Signing and verifying: agent/internal/policy/bundle.go, and SignBundle of
-- cp/internal/pki/bundle_signer.go. Protobuf and ed25519 are the parameter Crypto.
use mathlib.Core.Path.{subst}
use qf.Common.{
  ℕ, ◌≡◌, refl, Bool, true, false, not, Option, none, some, List, [], length, Result, ok, err,
  ◌>>=◌, ◌>>◌, fail_if, ◌==◌, Option-cases, ok_injective, inl, inr,
}
use qf.Session.{SignedBundle}

-- Deterministic protobuf serialization, `none` where it fails, and crypto/ed25519.
pub record Crypto : Type 0 where
  pub marshal : SignedBundle → Option (List ℕ)
  pub sign : List ℕ → List ℕ → List ℕ
  pub verify : List ℕ → List ℕ → List ℕ → Bool

pub data VerifyError : Type 0 where
  no_signature invalid_signature canonical_bytes_failed : VerifyError

abbrev pub public_key_size : ℕ
public_key_size = 32

module _ (crypto : Crypto) where
  abbrev or_canonical : Option (List ℕ) → Result VerifyError (List ℕ)
  or_canonical none = err canonical_bytes_failed
  or_canonical (some msg) = ok msg

  -- The signature covers the bundle without it, with the time of signing.
  unfoldable pub sign_bundle : List ℕ → ℕ → SignedBundle → Result VerifyError SignedBundle
  sign_bundle priv_key now b = do
    let cleared : SignedBundle = record b { signed_at = some now; signature = [] }
    msg ← or_canonical (crypto.marshal cleared)
    ok (record cleared { signature = crypto.sign priv_key msg })

  unfoldable pub verify_bundle : SignedBundle → List ℕ → Result VerifyError (Unit {0})
  verify_bundle b pub_key = do
    fail_if (length b.signature == 0) no_signature
    fail_if (not (length pub_key == public_key_size)) invalid_signature
    msg ← or_canonical (crypto.marshal (record b { signature = [] }))
    fail_if (not (crypto.verify pub_key msg b.signature)) invalid_signature

  -- The documented behaviour of ed25519: a signature is not empty, and the public key of a pair
  -- verifies what its private key signs.
  pub record IsKeyPair (priv_key pub_key : List ℕ) : Type 0 where
    pub size : length pub_key ≡ public_key_size
    pub nonempty : (msg : List ℕ) → (length (crypto.sign priv_key msg) == 0) ≡ false
    pub verifies : (msg : List ℕ) → crypto.verify pub_key msg (crypto.sign priv_key msg) ≡ true

  pub verify_bundle-sign_bundle :
      (priv_key pub_key : List ℕ) (now : ℕ) (b s : SignedBundle)
      → IsKeyPair priv_key pub_key
      → sign_bundle priv_key now b ≡ ok s
      → verify_bundle s pub_key ≡ ok tt
  unfolding sign_bundle verify_bundle
  verify_bundle-sign_bundle priv_key pub_key now b s keys h =
      let cleared : SignedBundle = record b { signed_at = some now; signature = [] } in
      elim (Option-cases (crypto.marshal cleared)) [
        | inl p ↦ let bad = rw p at h in cc
        | inr (msg, p) ↦
            subst (λ (x : SignedBundle). verify_bundle x pub_key ≡ ok tt) (ok_injective (rw p at h))
              (rw (keys.nonempty msg, keys.size, p, keys.verifies msg) refl)
      ]

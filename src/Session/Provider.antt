-- ===== src/Session/Provider.antt =====
-- The bundles that the control plane pushes: Build and GetBundle of cp/internal/policy/bundle.go with
-- the signature, where there is a signer.
use mathlib.Core.Path.{subst}
use qf.Common.{
  ℕ, ◌≡◌, refl, Option, none, some, List, [], Text, Result, ok, err, map_err, Result-cases,
  Option-cases, ok_injective, inl, inr,
}
use qf.Common.Int.{ℤ}
use qf.Proto.{PolicyBundle}
use qf.Policy.{Codec, Queries, PolicyError}
use qf.Policy.Bundle.{build, get_bundle}
use qf.Session.{SignedBundle}
use qf.Session.Signature.{
  Crypto, VerifyError, IsKeyPair, sign_bundle, verify_bundle, verify_bundle-sign_bundle,
}

pub data BuildError : Type 0 where
  not_built : PolicyError → BuildError
  not_signed : VerifyError → BuildError

abbrev pub unsigned_of : PolicyBundle → SignedBundle
unsigned_of b = record { bundle = b; signed_at = none; signature = [] }

module _ (crypto : Crypto) (signer : Option (List ℕ)) (now : ℕ) where
  -- The end of Build. The private key is none where there is no signer.
  abbrev pub signed_by :
      Option (List ℕ) → Result PolicyError PolicyBundle → Result BuildError SignedBundle
  signed_by key (err e) = err (not_built e)
  signed_by none (ok b) = ok (unsigned_of b)
  signed_by (some priv_key) (ok b) =
      map_err not_signed (sign_bundle crypto priv_key now (unsigned_of b))

  unfoldable pub build_signed : Codec → Queries → Text → Text → ℤ → Result BuildError SignedBundle
  build_signed codec q tenant_id host_id generation =
      signed_by signer (build codec q tenant_id host_id generation)

  unfoldable pub get_signed_bundle : Codec → Queries → Text → Text → Result BuildError SignedBundle
  get_signed_bundle codec q tenant_id host_id =
      signed_by signer (get_bundle codec q tenant_id host_id)

bundle-sign_bundle :
    (crypto : Crypto) (priv_key : List ℕ) (now : ℕ) (b s : SignedBundle)
    → sign_bundle crypto priv_key now b ≡ ok s
    → s.bundle ≡ b.bundle
unfolding sign_bundle
bundle-sign_bundle crypto priv_key now b s h =
    let cleared : SignedBundle = record b { signed_at = some now; signature = [] } in
    elim (Option-cases (crypto.marshal cleared)) [
      | inl p ↦ let bad = rw p at h in cc
      | inr (msg, p) ↦
          subst (λ (x : SignedBundle). x.bundle ≡ b.bundle) (ok_injective (rw p at h)) refl
    ]

-- A bundle that GetBundle returns with a signer is the one that it builds without, and it
-- verifies with the signer's public key.
pub get_signed_bundle-verified :
    (crypto : Crypto) (priv_key pub_key : List ℕ) (now : ℕ) (codec : Codec) (q : Queries)
    (tenant_id host_id : Text) (s : SignedBundle)
    → IsKeyPair crypto priv_key pub_key
    → get_signed_bundle crypto (some priv_key) now codec q tenant_id host_id ≡ ok s
    → (verify_bundle crypto s pub_key ≡ ok tt)
      × (get_bundle codec q tenant_id host_id ≡ ok s.bundle)
unfolding get_signed_bundle
get_signed_bundle-verified crypto priv_key pub_key now codec q tenant_id host_id s keys h =
    elim (Result-cases (get_bundle codec q tenant_id host_id)) [
      | inr (e, p) ↦ let bad = rw (get_signed_bundle, p) at h in cc
      | inl (b, p) ↦ elim (Result-cases (sign_bundle crypto priv_key now (unsigned_of b))) [
        | inr (e, r) ↦ let bad = rw (get_signed_bundle, p, r) at h in cc
        | inl (t, r) ↦
            let same : t ≡ s = ok_injective (rw (get_signed_bundle, p, r) at h) in
            subst
              (λ (x : SignedBundle).
                (verify_bundle crypto x pub_key ≡ ok tt)
                × (get_bundle codec q tenant_id host_id ≡ ok x.bundle))
              same
              (
                verify_bundle-sign_bundle crypto priv_key pub_key now (unsigned_of b) t keys r,
                rw (p, bundle-sign_bundle crypto priv_key now (unsigned_of b) t r) refl,
              )
      ]
    ]

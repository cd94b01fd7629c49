-- ===== src/Session/Files/Atomic.antt =====
-- A file is replaced as a whole or not at all, and a saved bundle is the one that is loaded.
use qf.Common.{
  ℕ, ◌≡◌, refl, ◌∙◌, Bool, true, false, not, ◌&&◌, none, some, List, [], ◌∷◌, Text, text_eq,
  text_eq_iff, text_eq_refl, Result, ok, err, Bool-cases, Option-cases, inl, inr, arith,
  if◌then◌else◌,
}
use qf.Loader.{Kernel}
use qf.Handler
use qf.Session.{SignedBundle}
use qf.Session.Signature.{Crypto, IsKeyPair, sign_bundle, verify_bundle-sign_bundle}
use qf.Session.Files.{
  Files, Disk, FileError, Wire, find_file, put_file, remove_file, replace_file, save_bundle,
  load_bundle, load_and_apply, apply_verified, save_creds, atomic_write,
}

find_file-put_file :
    (j p : Text) (d : List ℕ) (fs : Files)
    → find_file j (put_file p d fs) ≡ (if text_eq p j then some d else find_file j fs)
unfolding find_file put_file
find_file-put_file j p d [] = refl
find_file-put_file j p d ((i, e) ∷ fs) =
    ground (arith, find_file-put_file j p d fs, text_eq_iff i p, text_eq_iff i j, text_eq_iff p j)

find_file-remove_file :
    (j p : Text) (fs : Files)
    → find_file j (remove_file p fs) ≡ (if text_eq p j then none else find_file j fs)
unfolding find_file remove_file
find_file-remove_file j p [] = ground arith
find_file-remove_file j p ((i, e) ∷ fs) =
    ground (arith, find_file-remove_file j p fs, text_eq_iff i p, text_eq_iff i j, text_eq_iff p j)

cleaned :
    (j tmp : Text) (d : List ℕ) (fs : Files)
    → find_file tmp fs ≡ none
    → find_file j (remove_file tmp (put_file tmp d fs)) ≡ find_file j fs
cleaned j tmp d fs fresh = ground (
  arith,
  find_file-remove_file j tmp (put_file tmp d fs),
  find_file-put_file j tmp d fs,
  text_eq_iff tmp j,
  fresh,
)

abbrev pub succeeded : Result FileError (Unit {0}) → Bool
succeeded (ok _) = true
succeeded (err e) = false

-- SaveBundle and atomicWrite replace a file as a whole: where they succeed, the file has the new
-- content, and where any step fails, it has the old content or is still absent; no other file
-- changes, and the temporary file is gone. Where the name of the temporary file is new.
pub find_file-replace_file :
    (k : Disk) (has_mode : Bool) (path : Text) (content : List ℕ) (fs : Files) (j : Text)
    → find_file k.tmp_name fs ≡ none
    → find_file j (replace_file k has_mode path content fs).0 ≡ (
        if succeeded (replace_file k has_mode path content fs).1 && text_eq path j
        then some content
        else find_file j fs)
unfolding replace_file
find_file-replace_file k has_mode path content fs j fresh =
    let gone = cleaned j k.tmp_name content fs fresh in
    let half = cleaned j k.tmp_name k.partial fs fresh in
    let there =
      find_file-put_file j path content (remove_file k.tmp_name (put_file k.tmp_name content fs)) in
    elim (Bool-cases k.create_ok) [
      | inr p ↦ rw p refl
      | inl p ↦ elim (Bool-cases k.write_ok) [
        | inr q ↦ rw (p, q) half
        | inl q ↦ elim (Bool-cases (has_mode && not k.chmod_ok)) [
          | inl r ↦ rw (p, q, r) gone
          | inr r ↦ elim (Bool-cases k.close_ok) [
            | inr s ↦ rw (p, q, r, s) gone
            | inl s ↦ elim (Bool-cases k.rename_ok) [
              | inr t ↦ rw (p, q, r, s, t) gone
              | inl t ↦ rw (p, q, r, s, t) (there ∙ rw gone refl)
            ]
          ]
        ]
      ]
    ]

-- A bundle that is signed and saved is the one that the agent applies when it starts: LoadAndApply
-- gives what Apply gives on it. Where the save succeeds, the agent has the public key of the
-- signer, and a serialized bundle deserializes to itself.
pub load_and_apply-save_bundle :
    (w : Wire) (crypto : Crypto) (k : Kernel) (priv_key pub_key : List ℕ) (now : ℕ)
    (b s : SignedBundle) (disk : Disk) (path : Text) (fs : Files) (a : Handler.Agent)
    → ((c : SignedBundle) (d : List ℕ) → w.marshal c ≡ some d → w.unmarshal d ≡ some c)
    → IsKeyPair crypto priv_key pub_key
    → sign_bundle crypto priv_key now b ≡ ok s
    → find_file disk.tmp_name fs ≡ none
    → (save_bundle w disk path s fs).1 ≡ ok tt
    → load_and_apply w crypto k pub_key true path (save_bundle w disk path s fs).0 a
      ≡ apply_verified w crypto k pub_key s (ok tt) a
unfolding load_and_apply load_bundle save_bundle
load_and_apply-save_bundle w crypto k priv_key pub_key now b s disk path fs a law keys signed fresh
      saved =
    elim (Option-cases (w.marshal s)) [
      | inl p ↦ let bad = rw (save_bundle, p) at saved in cc
      | inr (d, p) ↦
          let done = rw (save_bundle, p) at saved in
          let found : find_file path (replace_file disk false path d fs).0 ≡ some d =
            find_file-replace_file disk false path d fs path fresh
            ∙ rw (done, text_eq_refl path) refl in
          rw
            (
              save_bundle,
              p,
              load_and_apply,
              load_bundle,
              found,
              law s d p,
              verify_bundle-sign_bundle crypto priv_key pub_key now b s keys signed,
            )
            refl
    ]

-- When the key cannot be written, saveCreds leaves the new certificate beside the old key. Where the
-- two files differ, and the names of the temporary files are new.
pub save_creds_half :
    (cert_disk key_disk : Disk) (cert_file key_file : Text) (key_pem cert_pem : List ℕ) (fs : Files)
    {e : FileError}
    → find_file cert_disk.tmp_name fs ≡ none
    → find_file key_disk.tmp_name (atomic_write cert_disk cert_file cert_pem fs).0 ≡ none
    → text_eq cert_file key_file ≡ false
    → (atomic_write cert_disk cert_file cert_pem fs).1 ≡ ok tt
    → (atomic_write key_disk key_file key_pem (atomic_write cert_disk cert_file cert_pem fs).0).1
      ≡ err e
    → (find_file cert_file
          (save_creds cert_disk key_disk cert_file key_file (some key_pem) cert_pem fs).0
        ≡ some cert_pem)
      × (find_file key_file
            (save_creds cert_disk key_disk cert_file key_file (some key_pem) cert_pem fs).0
          ≡ find_file key_file fs)
unfolding save_creds atomic_write
save_creds_half cert_disk key_disk cert_file key_file key_pem cert_pem fs free free' apart first
      second =
    let fs' = (atomic_write cert_disk cert_file cert_pem fs).0 in
    let kept = λ (j : Text). find_file-replace_file key_disk true key_file key_pem fs' j free' in
    let new = λ (j : Text). find_file-replace_file cert_disk true cert_file cert_pem fs j free in
    rw (save_creds, first)
      (
        kept cert_file ∙ rw second (new cert_file ∙ rw (first, text_eq_refl cert_file) refl),
        kept key_file ∙ rw second (new key_file ∙ rw (first, apart) refl),
      )

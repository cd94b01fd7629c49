-- ===== src/Pki/Tokens/Verdict.antt =====
-- Which tokens ValidateAndConsume takes.
use qf.Common.{
  ℕ, ◌<◌, ◌≡◌, refl, Bool, true, false, Option, none, some, List, Text, text_eq, text_eq_refl,
  Result, ok, err, Bool-cases, inl, inr, arith, ◌⊎◌, ◌↔◌, ◌∙◌, if◌then◌else◌,
}
use qf.Common.Int.{ℤ, pos, negsuc, inc, ltb_ℤ}
use qf.Pki.Tokens.{
  Encoding, TokenRow, TokenError, BootstrapToken, token_not_found, token_exhausted, find_token,
  is_zero, is_usable, token_of, validate_and_consume,
}
use qf.Pki.Tokens.Uses.{IsUnique, after_use, verdict, validate_and_consume-consume}

-- What the token's row says: it is not expired, and it is unlimited or has a use left.
abbrev pub IsLive : ℕ → TokenRow → Type 0
IsLive now t = now < t.expires_at × ((t.max_uses ≡ pos 0) ⊎ (ltb_ℤ t.uses_count t.max_uses ≡ true))

-- The answer for the row that has the hash, if any, and what becomes of this row.
abbrev pub IsVerdict :
    Encoding
    → Bool
    → ℕ
    → Option TokenRow
    → Result TokenError BootstrapToken
    → Option TokenRow
    → Type 0
IsVerdict e exists_ok now none r after = (r ≡ err token_not_found) × (after ≡ none)
IsVerdict e exists_ok now (some t) r after =
    (IsLive now t
      × (r ≡ ok (token_of e (record t { uses_count = inc t.uses_count })))
      × (after ≡ some (record t { uses_count = inc t.uses_count })))
    ⊎ (¬ IsLive now t
        × (r ≡ err (if exists_ok then token_exhausted else token_not_found))
        × (after ≡ some t))

zero_iff : (m : ℤ) → (is_zero m ≡ true) ↔ (m ≡ pos 0)
zero_iff (pos n) = ground arith
zero_iff (negsuc n) = ground arith

is_usable-IsLive : (now : ℕ) (t : TokenRow) → is_usable now t ≡ true → IsLive now t
unfolding is_usable
is_usable-IsLive now t h = elim (Bool-cases (is_zero t.max_uses)) [
  | inl p ↦ (ground (arith, h), inl ((zero_iff t.max_uses).0 p))
  | inr p ↦ (ground (arith, h), inr (ground (arith, h, p)))
]

is_usable-not_IsLive : (now : ℕ) (t : TokenRow) → is_usable now t ≡ false → ¬ IsLive now t
unfolding is_usable
is_usable-not_IsLive now t h (early, inl unlimited) =
    let p = (zero_iff t.max_uses).1 unlimited in ground (arith, h, p)
is_usable-not_IsLive now t h (early, inr left) = ground (arith, h)

module _ (e : Encoding) where
  IsVerdict-verdict :
      (exists_ok : Bool) (now : ℕ) (o : Option TokenRow)
      → IsVerdict e exists_ok now o (verdict e exists_ok now o) (after_use now o)
  IsVerdict-verdict exists_ok now none = (refl, refl)
  IsVerdict-verdict exists_ok now (some t) = elim (Bool-cases (is_usable now t)) [
    | inl p ↦ rw p (inl (is_usable-IsLive now t p, refl, refl))
    | inr p ↦ rw p (inr (is_usable-not_IsLive now t p, refl, refl))
  ]

  -- Where the database takes the UPDATE and no two rows have one hash: if the row with the token's
  -- hash is not expired at that time and is unlimited or has a use left, ValidateAndConsume returns
  -- the token with one more use, which its row then has too. If there is such a row but it is
  -- expired or used up, the token is reported as exhausted, or as not found where the second query
  -- fails, and a hash without a row is reported as not found; the row, if any, is then as it was.
  -- The rows of all other hashes are as they were.
  pub validate_and_consume-IsVerdict :
      (exists_ok : Bool) (plain : Text) (now : ℕ) (rows : List TokenRow)
      → IsUnique rows
      → IsVerdict e exists_ok now
          (find_token (e.hash_token plain) rows)
          (validate_and_consume e true exists_ok plain now rows).1
          (find_token (e.hash_token plain) (validate_and_consume e true exists_ok plain now rows).0)
        × ((j : Text)
            → (text_eq (e.hash_token plain) j ≡ true)
              ⊎ (find_token j (validate_and_consume e true exists_ok plain now rows).0
                  ≡ find_token j rows))
  validate_and_consume-IsVerdict exists_ok plain now rows u =
      let h = e.hash_token plain in
      let (result, after) = validate_and_consume-consume e exists_ok plain now rows u in
      let here : find_token h (validate_and_consume e true exists_ok plain now rows).0
          ≡ after_use now (find_token h rows) =
        after h ∙ rw (text_eq_refl h) refl in
      (
        rw (result, here) (IsVerdict-verdict exists_ok now (find_token h rows)),
        λ j. elim (Bool-cases (text_eq h j)) [
          | inl same ↦ inl same
          | inr other ↦ inr (after j ∙ rw other refl)
        ],
      )

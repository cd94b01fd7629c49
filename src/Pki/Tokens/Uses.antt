-- ===== src/Pki/Tokens/Uses.antt =====
-- How often a token is taken.
use mathlib.Core.Path.{subst}
use qf.Common.{
  ℕ, ◌+◌, ◌≤◌, ◌<◌, ◌≡◌, refl, Bool, true, false, Option, none, some, List, [], ◌∷◌, Text, text_eq,
  text_eq_iff, text_eq_refl, Result, ok, err, Bool-cases, Option-cases, Result-cases, inl, inr,
  arith, ap, ◌∙◌, if◌then◌else◌,
}
use qf.Common.Int.{pos}
use qf.Pki.Tokens.{
  Encoding, TokenRow, TokenError, BootstrapToken, token_not_found, token_exhausted, validate_failed,
  find_token, is_usable, used, consume, token_of, refusal, validate_and_consume,
}

-- No two rows have one hash.
abbrev pub IsUnique : List TokenRow → Type 0
IsUnique [] = Unit
IsUnique (t ∷ ts) = (find_token t.token_hash ts ≡ none) × IsUnique ts

abbrev pub use_if : Bool → TokenRow → TokenRow
use_if true t = used t
use_if false t = t

-- What the UPDATE makes of the row that has the hash, if any.
abbrev pub after_use : ℕ → Option TokenRow → Option TokenRow
after_use now none = none
after_use now (some t) = some (use_if (is_usable now t) t)

abbrev pub returned : ℕ → Option TokenRow → Option TokenRow
returned now none = none
returned now (some t) = if is_usable now t then some (used t) else none

find_token-consume :
    (h j : Text) (now : ℕ) (rows : List TokenRow)
    → find_token j (consume h now rows).0
      ≡ (if text_eq h j then after_use now (find_token j rows) else find_token j rows)
unfolding find_token consume
find_token-consume h j now [] = ground arith
find_token-consume h j now (t ∷ ts) = ground (
  arith,
  find_token-consume h j now ts,
  text_eq_iff t.token_hash h,
  text_eq_iff t.token_hash j,
  text_eq_iff h j,
)

consume-found :
    (h : Text) (now : ℕ) (rows : List TokenRow)
    → IsUnique rows
    → (consume h now rows).1 ≡ returned now (find_token h rows)
unfolding find_token consume
consume-found h now [] u = refl
consume-found h now (t ∷ ts) u =
    ground (arith, consume-found h now ts u.1, text_eq_iff t.token_hash h, u.0)

consume-IsUnique :
    (h : Text) (now : ℕ) (rows : List TokenRow) → IsUnique rows → IsUnique (consume h now rows).0
unfolding consume
consume-IsUnique h now [] u = tt
consume-IsUnique h now (t ∷ ts) u =
    ground (arith, consume-IsUnique h now ts u.1, find_token-consume h t.token_hash now ts, u.0)

-- What ValidateAndConsume returns on the row that has the hash, if any.
abbrev pub verdict : Encoding → Bool → ℕ → Option TokenRow → Result TokenError BootstrapToken
verdict e exists_ok now none = err token_not_found
verdict e exists_ok now (some t) =
    if is_usable now t
    then ok (token_of e (used t))
    else err (if exists_ok then token_exhausted else token_not_found)

has_room :
    (now : ℕ) (t : TokenRow) (m u : ℕ)
    → t.max_uses ≡ pos (m + 1)
    → t.uses_count ≡ pos u
    → is_usable now t ≡ true
    → u < m + 1
unfolding is_usable
has_room now t m u limit count q = let usable = rw (limit, count) at q in ground arith

module _ (e : Encoding) where
  missing : (exists_ok : Bool) → refusal e exists_ok none ≡ token_not_found
  missing false = refl
  missing true = refl

  there :
      (exists_ok : Bool) (t : TokenRow)
      → refusal e exists_ok (some t) ≡ (if exists_ok then token_exhausted else token_not_found)
  there false t = refl
  there true t = refl

  pub validate_and_consume-consume :
      (exists_ok : Bool) (plain : Text) (now : ℕ) (rows : List TokenRow)
      → IsUnique rows
      → ((validate_and_consume e true exists_ok plain now rows).1
          ≡ verdict e exists_ok now (find_token (e.hash_token plain) rows))
        × ((j : Text)
            → find_token j (validate_and_consume e true exists_ok plain now rows).0 ≡ (
                if text_eq (e.hash_token plain) j
                then after_use now (find_token j rows)
                else find_token j rows))
  unfolding validate_and_consume
  validate_and_consume-consume exists_ok plain now rows u =
      let h = e.hash_token plain in
      let found = consume-found h now rows u in
      let after = λ (j : Text). find_token-consume h j now rows in
      let here : find_token h (consume h now rows).0 ≡ after_use now (find_token h rows) =
        after h ∙ rw (text_eq_refl h) refl in
      elim (Option-cases (find_token h rows)) [
        | inl p ↦ rw (found, p, here, p) (ap err (missing exists_ok), after)
        | inr (t, p) ↦ elim (Bool-cases (is_usable now t)) [
          | inl q ↦ rw (found, p, q) (refl, after)
          | inr q ↦ rw (found, p, q, here, p, q) (ap err (there exists_ok t), after)
        ]
      ]

-- The number of attempts that are let in with the hash; an attempt is a text, its time and whether
-- the database works.
unfoldable pub takes : Encoding → Text → List (Text × ℕ × Bool) → List TokenRow → ℕ
takes e h [] rows = 0
takes e h ((plain, now, db_ok) ∷ tries) rows =
    let (rows', r) = validate_and_consume e db_ok true plain now rows in
    let rest = takes e h tries rows' in
    elim r [ ok t ↦ if text_eq (e.hash_token plain) h then rest + 1 else rest | err x ↦ rest ]

module _ (e : Encoding) (h plain : Text) (now : ℕ) (db_ok : Bool) (tries : List (Text × ℕ × Bool))
    (rows : List TokenRow) where
  abbrev rest : ℕ
  rest = takes e h tries (validate_and_consume e db_ok true plain now rows).0

  takes_err :
      (x : TokenError)
      → (validate_and_consume e db_ok true plain now rows).1 ≡ err x
      → takes e h ((plain, now, db_ok) ∷ tries) rows ≡ rest
  unfolding takes
  takes_err x p = rw (takes, p) refl

  takes_ok :
      (t : BootstrapToken)
      → (validate_and_consume e db_ok true plain now rows).1 ≡ ok t
      → takes e h ((plain, now, db_ok) ∷ tries) rows
        ≡ (if text_eq (e.hash_token plain) h then rest + 1 else rest)
  unfolding takes
  takes_ok t p = rw (takes, p) refl

  takes_other :
      text_eq (e.hash_token plain) h ≡ false → takes e h ((plain, now, db_ok) ∷ tries) rows ≡ rest
  takes_other p = elim (Result-cases (validate_and_consume e db_ok true plain now rows).1) [
    | inl (t, q) ↦ takes_ok t q ∙ rw p refl
    | inr (x, q) ↦ takes_err x q
  ]

fails-keeps :
    (e : Encoding) (plain : Text) (now : ℕ) (rows : List TokenRow)
    → validate_and_consume e false true plain now rows ≡ (rows, err validate_failed)
unfolding validate_and_consume
fails-keeps e plain now rows = refl

validate_and_consume-IsUnique :
    (e : Encoding) (plain : Text) (now : ℕ) (rows : List TokenRow)
    → IsUnique rows
    → IsUnique (validate_and_consume e true true plain now rows).0
unfolding validate_and_consume
validate_and_consume-IsUnique e plain now rows u =
    let kept = consume-IsUnique (e.hash_token plain) now rows u in
    elim (Option-cases (consume (e.hash_token plain) now rows).1) [
      | inl p ↦ rw p kept
      | inr (t, p) ↦ rw p kept
    ]

-- A token that has max_uses uses at most is taken no more often than it has uses left, in any
-- sequence of attempts with any texts, at any times, whether or not the database works. Where
-- no two rows have one hash and the token is not used beyond its limit before.
pub takes-le :
    (e : Encoding) (h : Text) (m u : ℕ) (tries : List (Text × ℕ × Bool)) (rows : List TokenRow)
    (t : TokenRow)
    → IsUnique rows
    → find_token h rows ≡ some t
    → t.max_uses ≡ pos (m + 1)
    → t.uses_count ≡ pos u
    → u ≤ m + 1
    → u + takes e h tries rows ≤ m + 1
unfolding takes
takes-le e h m u [] rows t unique found limit count room = omega arith
takes-le e h m u ((plain, now, false) ∷ tries) rows t unique found limit count room =
    let failed = fails-keeps e plain now rows in
    rw (takes_err e h plain now false tries rows validate_failed (rw failed refl), failed)
      (takes-le e h m u tries rows t unique found limit count room)
takes-le e h m u ((plain, now, true) ∷ tries) rows t unique found limit count room =
    let rows' = (validate_and_consume e true true plain now rows).0 in
    let (result, after) = validate_and_consume-consume e true plain now rows unique in
    let unique' = validate_and_consume-IsUnique e plain now rows unique in
    elim (Bool-cases (text_eq (e.hash_token plain) h)) [
      | inr p ↦
          rw (takes_other e h plain now true tries rows p)
            (takes-le e h m u tries rows' t unique' (after h ∙ rw (p, found) refl) limit count room)
      | inl p ↦
          let here = (text_eq_iff (e.hash_token plain) h).0 p in
          let row : find_token (e.hash_token plain) rows ≡ some t = rw here found in
          elim (Bool-cases (is_usable now t)) [
            | inr q ↦
                rw
                  (takes_err e h plain now true tries rows token_exhausted
                    (result ∙ rw (row, q) refl))
                  (takes-le e h m u tries rows' t unique' (after h ∙ rw (p, found, q) refl) limit
                    count room)
            | inl q ↦
                let left : u < m + 1 = has_room now t m u limit count q in
                rw
                  (
                    takes_ok e h plain now true tries rows (token_of e (used t))
                        (result ∙ rw (row, q) refl),
                    p,
                  )
                  (subst (λ (n : ℕ). n ≤ m + 1) (omega arith)
                    (takes-le e h m (u + 1) tries rows' (used t) unique'
                      (after h ∙ rw (p, found, q) refl) limit (rw count refl) (omega arith)))
          ]
    ]

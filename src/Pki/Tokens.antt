-- ===== src/Pki/Tokens.antt =====
-- cp/internal/pki/tokens.go: the table bootstrap_tokens, with its statements as functions of the
-- rows. Base64, SHA-256 and JSON are the parameter Encoding.
pub mod Uses
pub mod Verdict
use qf.Common.{
  ℕ, ◌+◌, Bool, true, false, ◌&&◌, ◌||◌, not, Option, none, some, List, [], ◌∷◌, map, length, Text,
  text_eq, Result, ok, err, ltb, ◌==◌, if◌then◌else◌, codes,
}
use qf.Common.Int.{ℤ, pos, negsuc, inc, ltb_ℤ}
use qf.Common.Sort.{sort_by}
use qf.Policy.{Labels}

pub data TokenError : Type 0 where
  token_not_found token_exhausted : TokenError
  generate_failed marshal_failed create_failed validate_failed delete_failed list_failed :
      TokenError

-- A row of the table. `label_template` is the JSON text of the column, none where it is NULL.
pub record TokenRow : Type 0 where
  pub id : Text
  pub tenant_id : Text
  pub kind : Text
  pub token_hash : Text
  pub target_host_id : Option Text
  pub label_template : Option Text
  pub max_uses : ℤ
  pub uses_count : ℤ
  pub expires_at : ℕ
  pub created_at : ℕ

pub record BootstrapToken : Type 0 where
  pub id : Text
  pub tenant_id : Text
  pub kind : Text
  pub target_host_id : Option Text
  pub label_template : Labels
  pub max_uses : ℤ
  pub uses_count : ℤ
  pub expires_at : ℕ

-- `unmarshal` gives what the map holds after decoding, also where that fails.
pub record Encoding : Type 0 where
  pub encode : List ℕ → Text
  pub hash_token : Text → Text
  pub marshal : Labels → Option Text
  pub unmarshal : Text → Labels

-- The columns that the database fills, and whether it takes the statement: the row's foreign keys
-- and the connection.
pub record Insertion : Type 0 where
  pub new_id : Text
  pub now : ℕ
  pub accepted : Bool

unfoldable pub find_token : Text → List TokenRow → Option TokenRow
find_token h [] = none
find_token h (t ∷ ts) =
    let rest = find_token h ts in if text_eq t.token_hash h then some t else rest

abbrev pub is_zero : ℤ → Bool
is_zero (pos n) = n == 0
is_zero (negsuc n) = false

-- expires_at > NOW() AND (max_uses = 0 OR uses_count < max_uses).
unfoldable pub is_usable : ℕ → TokenRow → Bool
is_usable now t = ltb now t.expires_at && (is_zero t.max_uses || ltb_ℤ t.uses_count t.max_uses)

abbrev pub used : TokenRow → TokenRow
used t = record t { uses_count = inc t.uses_count }

-- The UPDATE, with the first row that it returns.
unfoldable pub consume : Text → ℕ → List TokenRow → List TokenRow × Option TokenRow
unfolding is_usable
consume h now [] = ([], none)
consume h now (t ∷ ts) =
    let (rows, found) = consume h now ts in
    if text_eq t.token_hash h && is_usable now t
    then (used t ∷ rows, some (used t))
    else (t ∷ rows, found)

abbrev created : Bool → Text → TokenRow → List TokenRow → List TokenRow × Result TokenError Text
created false plain t rows = (rows, err create_failed)
created true plain t rows = (t ∷ rows, ok plain)

module _ (e : Encoding) where
  abbrev pub decoded : Option Text → Labels
  decoded none = []
  decoded (some s) = if length s == 0 then [] else e.unmarshal s

  abbrev pub token_of : TokenRow → BootstrapToken
  token_of t = record {
    id = t.id;
    tenant_id = t.tenant_id;
    kind = t.kind;
    target_host_id = t.target_host_id;
    label_template = decoded t.label_template;
    max_uses = t.max_uses;
    uses_count = t.uses_count;
    expires_at = t.expires_at;
  }

  -- generateToken, from the random bytes if there are any.
  abbrev pub generate_token : Option (List ℕ) → Option (Text × Text)
  generate_token none = none
  generate_token (some b) = some (e.encode b, e.hash_token (e.encode b))

  -- An INSERT; the hash is unique.
  unfoldable pub insert_token :
      Insertion → Text → TokenRow → List TokenRow → List TokenRow × Result TokenError Text
  unfolding find_token
  insert_token i plain t rows = elim (find_token t.token_hash rows) [
    | none ↦ created i.accepted plain t rows
    | some other ↦ (rows, err create_failed)
  ]

  unfoldable pub create_single_host_token :
      Option (List ℕ)
      → Insertion
      → Text
      → Text
      → ℕ
      → ℤ
      → List TokenRow
      → List TokenRow × Result TokenError Text
  unfolding insert_token
  create_single_host_token random i tenant_id host ttl max_uses rows =
      elim (generate_token random) [
        | none ↦ (rows, err generate_failed)
        | some (plain, hash) ↦
            insert_token i plain
              (record {
                id = i.new_id;
                tenant_id = tenant_id;
                kind = codes "single_host";
                token_hash = hash;
                target_host_id = some host;
                label_template = none;
                max_uses = max_uses;
                uses_count = pos 0;
                expires_at = i.now + ttl;
                created_at = i.now;
              })
              rows
      ]

  unfoldable pub create_bulk_token :
      Option (List ℕ)
      → Insertion
      → Text
      → Labels
      → ℕ
      → ℤ
      → List TokenRow
      → List TokenRow × Result TokenError Text
  unfolding insert_token
  create_bulk_token random i tenant_id label_template ttl max_uses rows =
      elim (generate_token random) [
        | none ↦ (rows, err generate_failed)
        | some (plain, hash) ↦ elim (e.marshal label_template) [
          | none ↦ (rows, err marshal_failed)
          | some tmpl_json ↦
              insert_token i plain
                (record {
                  id = i.new_id;
                  tenant_id = tenant_id;
                  kind = codes "bulk";
                  token_hash = hash;
                  target_host_id = none;
                  label_template = some tmpl_json;
                  max_uses = max_uses;
                  uses_count = pos 0;
                  expires_at = i.now + ttl;
                  created_at = i.now;
                })
                rows
        ]
      ]

  abbrev pub refusal : Bool → Option TokenRow → TokenError
  refusal false t = token_not_found
  refusal true none = token_not_found
  refusal true (some t) = token_exhausted

  -- `db_ok` is whether the database takes the UPDATE, and `exists_ok` the query after it.
  unfoldable pub validate_and_consume :
      Bool → Bool → Text → ℕ → List TokenRow → List TokenRow × Result TokenError BootstrapToken
  unfolding consume find_token
  validate_and_consume db_ok exists_ok plain now rows =
      let hash = e.hash_token plain in
      let (rows', found) = consume hash now rows in
      if not db_ok then (rows, err validate_failed) else elim found [
        | some t ↦ (rows', ok (token_of t))
        | none ↦ (rows', err (refusal exists_ok (find_token hash rows')))
      ]

  unfoldable pub live_tokens : Text → ℕ → List TokenRow → List TokenRow
  live_tokens tenant_id now [] = []
  live_tokens tenant_id now (t ∷ ts) =
      let rest = live_tokens tenant_id now ts in
      if text_eq t.tenant_id tenant_id && ltb now t.expires_at then t ∷ rest else rest

  abbrev pub newest_first : TokenRow → TokenRow → Bool
  newest_first t u = ltb u.created_at t.created_at

  unfoldable pub list_tokens :
      Bool → Text → ℕ → List TokenRow → Result TokenError (List BootstrapToken)
  unfolding live_tokens
  list_tokens db_ok tenant_id now rows =
      if db_ok
      then ok (map token_of (sort_by newest_first (live_tokens tenant_id now rows)))
      else err list_failed

unfoldable pub delete_token :
    Bool → Text → List TokenRow → List TokenRow × Result TokenError (Unit {0})
delete_token db_ok id rows = if db_ok then (without rows, ok tt) else (rows, err delete_failed)
  where
    without : List TokenRow → List TokenRow
    without [] = []
    without (t ∷ ts) = let rest = without ts in if text_eq t.id id then rest else t ∷ rest

-- ===== src/Api/Tokens.antt =====
-- cp/internal/api/tokens.go: the handlers of /tokens, over the table of Pki.Tokens.
use qf.Common.{
  ℕ, ◌*◌, Bool, Option, none, some, List, [], ◌∷◌, map, Text, text_eq, codes, length, ◌==◌, Result,
  ok, err, if◌then◌else◌,
}
use qf.Common.Int.{ℤ, pos, negsuc}
use qf.Common.Exec.{Exec, lift, ◌>>=◌}
use qf.Policy.{Labels}
use qf.Pki.Tokens.{
  TokenRow, TokenError, BootstrapToken, Encoding, Insertion, create_single_host_token,
  create_bulk_token, list_tokens, delete_token,
}
use qf.Api.{
  Claims, Request, Response, TokenResponse, one_token, many_tokens, plain_token, no_body,
  write_json, api_error, decode_json,
}

pub record CreateTokenRequest : Type 0 where
  pub type : Text
  pub target_host_id : Text
  pub label_template : Labels
  pub ttl_seconds : ℤ
  pub max_uses : ℤ

-- What the statements of a request meet: the random bytes, the columns that the database fills,
-- whether the query after the INSERT, or the only one, succeeds, and its time.
pub record TokenDatabase : Type 0 where
  pub random : Option (List ℕ)
  pub insertion : Insertion
  pub up : Bool
  pub now : ℕ

abbrev tenant_or : Text → Option Claims → Text
tenant_or header none = header
tenant_or header (some c) = if length c.tenant_id == 0 then header else c.tenant_id

-- tenantFromReq, and the answer where it is empty.
unfoldable pub tenant_from_req : {B : Type 0} → Request B → Result Response Text
tenant_from_req req =
    let tenant = tenant_or req.tenant_header req.claims in
    if length tenant == 0
    then err (api_error 400 (codes "X-Tenant-ID header required"))
    else ok tenant

abbrev pub to_token_response : Text → BootstrapToken → TokenResponse
to_token_response plain t = record {
  id = t.id;
  tenant_id = t.tenant_id;
  type = t.kind;
  target_host_id = t.target_host_id;
  label_template = t.label_template;
  max_uses = t.max_uses;
  uses_count = t.uses_count;
  expires_at = t.expires_at;
  token = plain;
}

-- A duration below 2^63 nanoseconds.
abbrev ttl_or_default : ℤ → ℕ
ttl_or_default (pos n) = if n == 0 then 3600 * 1000000000 else n * 1000000000
ttl_or_default (negsuc n) = 3600 * 1000000000

abbrev uses_or_default : ℤ → ℤ
uses_or_default (pos n) = if n == 0 then pos 1 else pos n
uses_or_default (negsuc n) = pos 1

abbrev or_answer :
    {A : Type 0}
    → Response
    → List TokenRow × Result TokenError A
    → List TokenRow × Result Response A
or_answer e (rows, ok a) = (rows, ok a)
or_answer e (rows, err x) = (rows, err e)

abbrev last_of : List BootstrapToken → Option BootstrapToken
last_of [] = none
last_of (t ∷ []) = some t
last_of (t ∷ u ∷ ts) = last_of (u ∷ ts)

-- The response to a creation has the last of the tenant's tokens.
abbrev with_last : Text → Option BootstrapToken → Response
with_last plain none = write_json 201 (plain_token plain)
with_last plain (some t) = write_json 201 (one_token (to_token_response plain t))

abbrev created_response : Text → Result TokenError (List BootstrapToken) → Response
created_response plain (err x) = write_json 201 (plain_token plain)
created_response plain (ok ts) = with_last plain (last_of ts)

abbrev listed_response : Result TokenError (List BootstrapToken) → Result Response Response
listed_response (err x) = err (api_error 500 (codes "list tokens"))
listed_response (ok ts) = ok (write_json 200 (many_tokens (map (to_token_response []) ts)))

module _ (e : Encoding) (db : TokenDatabase) where
  abbrev create_token : Text → CreateTokenRequest → Exec (List TokenRow) Response Text
  create_token tenant req rows =
      if text_eq req.type (codes "single_host")
      then (if length req.target_host_id == 0
          then (rows, err (api_error 400 (codes "target_host_id required for single_host token")))
          else or_answer (api_error 500 (codes "create token")) (
              create_single_host_token e db.random db.insertion tenant req.target_host_id
                (ttl_or_default req.ttl_seconds) (uses_or_default req.max_uses) rows))
      else if text_eq req.type (codes "bulk")
      then or_answer (api_error 500 (codes "create token")) (
          create_bulk_token e db.random db.insertion tenant req.label_template
            (ttl_or_default req.ttl_seconds) (uses_or_default req.max_uses) rows)
      else (rows, err (api_error 400 (codes "type must be single_host or bulk")))

  unfoldable pub create : Request CreateTokenRequest → Exec (List TokenRow) Response Response
  create req = do
    tenant ← lift (tenant_from_req req)
    body ← lift (decode_json req)
    plain ← create_token tenant body
    λ rows. (rows, ok (created_response plain (list_tokens e db.up tenant db.now rows)))

  unfoldable pub list : Request (Unit {0}) → Exec (List TokenRow) Response Response
  list req = do
    tenant ← lift (tenant_from_req req)
    λ rows. (rows, listed_response (list_tokens e db.up tenant db.now rows))

  abbrev deleted :
      List TokenRow × Result TokenError (Unit {0}) → List TokenRow × Result Response Response
  deleted (rows, ok x) = (rows, ok (write_json 204 no_body))
  deleted (rows, err x) = (rows, err (api_error 500 (codes "delete token")))

  -- By the id alone, whatever the request's tenant.
  unfoldable pub delete : Request (Unit {0}) → Exec (List TokenRow) Response Response
  delete req rows =
      if length req.id == 0
      then (rows, err (api_error 400 (codes "id required")))
      else deleted (delete_token db.up req.id rows)

-- ===== src/Lfs/Client.antt =====
-- internal/gitlabnet/lfstransfer/client.go: the requests of the LFS API and their answers. The
-- encoding and decoding of JSON, the URL of net/url and the retrying HTTP client, with the making
-- of its requests, are parameters. A map of headers is a list.
use gitlab_shell.Prelude.{
  ltb, ◌==◌, if◌then◌else◌, Bytes, codes, is_empty, ℕ, Bool, Option, none, some, List, [], ◌∷◌,
  ◌++◌,
}
use gitlab_shell.Decimal.{itoa}
use gitlab_shell.Errors.{Result, ok, err, Error, plain, foreign, ◌>>=◌}
use gitlab_shell.Lfs.{
  BatchItem, Services, batch_items, BatchObject, HttpRequest, is_ok_status, forbidden, not_found,
  conflict,
}

-- `Lock`, whose owner may be missing. A time is a number of seconds.
pub record Lock : Type 0 where
  pub id : Bytes
  pub path : Bytes
  pub locked_at : ℕ
  pub owner : Option Bytes

-- `batchRequest`, with the oid and the size of each object.
pub record BatchRequest : Type 0 where
  pub operation : Bytes
  pub objects : List (Bytes × ℕ)
  pub ref : Bytes
  pub hash_algorithm : Bytes

-- `lockRequest`, `unlockRequest` and `listLocksVerifyRequest`.
pub data LockRequest : Type 0 where
  lock_path : Bytes → Option Bytes → LockRequest
  unlock_force : Bool → Option Bytes → LockRequest
  list_locks : Bytes → ℕ → Bytes → LockRequest

-- `ListLocksVerifyResponse`
pub record ListLocksVerifyResponse : Type 0 where
  pub ours : List Lock
  pub theirs : List Lock
  pub next_cursor : Bytes

-- `Client`, and what it calls: the decoding of a body fails where `none`; the lock of an answer may
-- be missing. `list_url` is the URL of `ListLocksVerify` with its query.
pub record Client : Type 0 where
  pub href : Bytes
  pub auth : Bytes
  pub marshal_batch : BatchRequest → Result Bytes
  pub marshal_lock : LockRequest → Result Bytes
  pub decode_batch : Bytes → Option (List BatchObject)
  pub decode_lock : Bytes → Option (Option Lock)
  pub decode_list : Bytes → Option ListLocksVerifyResponse
  pub list_url : Bytes → Bytes → Bytes → Result Bytes
  pub send : HttpRequest → Result (ℕ × Bytes)

abbrev pub client_header : Bytes
client_header = codes "application/vnd.git-lfs+json"

-- `gitlabnet.ParseJSON`
unfoldable pub parse_json : {A : Type 0} → (Bytes → Option A) → Bytes → Result A
parse_json decode body = elim (decode body) [
  | none ↦ err (plain (codes "parsing failed"))
  | some a ↦ ok a
]

-- The reference of a request, if one is named.
unfoldable pub ref_of : Bytes → Option Bytes
ref_of refname = if is_empty refname then none else some refname

-- The result of a call that returns a lock, perhaps beside an error.
abbrev pub LockResult : Type 0
LockResult = Option Lock × Option Error

module _ (c : Client) where
  -- `newAuthenticatedPostRequest`
  unfoldable pub new_authenticated_post_request : Bytes → Bytes → HttpRequest
  new_authenticated_post_request url body = record {
    method = codes "POST";
    url = url;
    headers = (codes "Content-Type", client_header) ∷ (codes "Authorization", c.auth) ∷ [];
    body = body;
  }

  -- What `Batch` makes of an answer.
  unfoldable pub batch_answer : ℕ → Bytes → Result (List BatchObject)
  unfolding parse_json
  batch_answer status content =
      if ltb 399 status
      then err (plain (codes "response failed with status code: " ++ itoa status))
      else parse_json c.decode_batch content

  -- `Batch`
  unfoldable pub batch : Bytes → List (Bytes × ℕ) → Bytes → Bytes → Result (List BatchObject)
  unfolding new_authenticated_post_request batch_answer
  batch operation objects ref algorithm = do
    body ←
        c.marshal_batch (record {
          operation = operation;
          objects = objects;
          ref = ref;
          hash_algorithm = algorithm;
        })
    (status, content) ←
        c.send (new_authenticated_post_request (c.href ++ codes "/objects/batch") body)
    batch_answer status content

  -- What `Lock` makes of an answer.
  unfoldable pub lock_answer : ℕ → Bytes → LockResult
  unfolding parse_json
  lock_answer status content =
      if is_ok_status status
      then elim (parse_json c.decode_lock content) [ err e ↦ (none, some e) | ok l ↦ (l, none) ]
      else if status == 403
      then (none, some (foreign forbidden (codes "forbidden")))
      else if status == 404
      then (none, some (foreign not_found (codes "not found")))
      else if status == 409
      then elim (parse_json c.decode_lock content) [
        | err e ↦ (none, some e)
        | ok l ↦ (l, some (foreign conflict (codes "conflict")))
      ]
      else (none, some (plain (codes "internal error")))

  -- `Lock`
  unfoldable pub lock : Bytes → Bytes → LockResult
  unfolding lock_answer ref_of new_authenticated_post_request
  lock path refname = elim (c.marshal_lock (lock_path path (ref_of refname))) [
    | err e ↦ (none, some e)
    | ok body ↦ elim (c.send (new_authenticated_post_request (c.href ++ codes "/locks") body)) [
      | err e ↦ (none, some e)
      | ok (status, content) ↦ lock_answer status content
    ]
  ]

  -- What `Unlock` makes of an answer.
  unfoldable pub unlock_answer : ℕ → Bytes → Result (Option Lock)
  unfolding parse_json
  unlock_answer status content =
      if is_ok_status status
      then parse_json c.decode_lock content
      else if status == 403
      then err (foreign forbidden (codes "forbidden"))
      else if status == 404
      then err (foreign not_found (codes "not found"))
      else err (plain (codes "internal error"))

  -- `Unlock`
  unfoldable pub unlock : Bytes → Bool → Bytes → Result (Option Lock)
  unfolding unlock_answer ref_of new_authenticated_post_request
  unlock id force refname = do
    body ← c.marshal_lock (unlock_force force (ref_of refname))
    (status, content) ←
        c.send
          (new_authenticated_post_request (c.href ++ codes "/locks/" ++ id ++ codes "/unlock") body)
    unlock_answer status content

  -- `ListLocksVerify`, which reads the answer whatever its status is.
  unfoldable pub list_locks_verify :
      Bytes → Bytes → Bytes → ℕ → Bytes → Result ListLocksVerifyResponse
  unfolding parse_json new_authenticated_post_request
  list_locks_verify path id cursor limit ref = do
    url ← c.list_url c.href path id
    body ← c.marshal_lock (list_locks cursor limit ref)
    (status, content) ← c.send (new_authenticated_post_request url body)
    parse_json c.decode_list content

-- `GitlabBackend.Batch`
unfoldable pub batch_backend :
    Services → Client → Bytes → List (Bytes × ℕ) → Bytes → Bytes → Result (List BatchItem)
unfolding batch batch_items
batch_backend w c op pointers refname hash_algo = do
  objects ← batch c op pointers refname hash_algo
  batch_items w op objects

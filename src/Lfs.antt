-- ===== src/Lfs.antt =====
-- internal/command/lfstransfer/gitlab_backend.go: the arguments that authorise the transfer of one
-- object, and the operations of the backend on objects. HMAC-SHA256, base64, JSON and the HTTP
-- client are parameters. An error of the protocol library is `foreign` by its kind.
pub mod Tokens
pub mod Batch
pub mod Client
pub mod Locks
pub mod Command
pub mod Rights
use gitlab_shell.Prelude.{
  ltb, leb, ◌==◌, if◌then◌else◌, ==_iff, Bool-cases, Option-cases, and-eq-true_iff, length, take,
  drop, replicate, all, any, length-append, take-append-drop, length-take, length-drop, take-append,
  drop-append, take-append_all, drop-append_all, All, All-append, Bytes, codes, eqb, eqb_iff,
  eqb_refl, is_empty, has_prefix, trim_prefix, trim_suffix, trim_left, contains_byte, contains,
  before, split, last, mem, Lacks, Lacks-contains_byte, contains_byte-Lacks, ℕ, zero, suc, ◌+◌, ◌-◌,
  ◌*◌, ◌/◌, ◌%◌, ◌^◌, ◌≤◌, ◌<◌, ◌≡◌, refl, sym, ap, ◌∙◌, ◌≢◌, ◌↔◌, ◌⊎◌, inl, inr, Bool, true, false,
  not, ◌&&◌, ◌||◌, Option, none, some, List, [], ◌∷◌, ◌++◌, map, append_assoc, append-nil, arith,
  last-split, split-ne-nil, All-mono,
}
use gitlab_shell.Decimal.{itoa}
use gitlab_shell.Errors.{Result, ok, err, Error, plain, foreign, ◌>>=◌}

-- `transfer.ErrParseError`, `ErrUnauthorized`, `ErrForbidden`, `ErrNotFound`, `ErrConflict` and
-- `ErrNotAllowed`.
abbrev pub parse_error : ℕ
parse_error = 1

abbrev pub unauthorized : ℕ
unauthorized = 2

abbrev pub forbidden : ℕ
forbidden = 3

abbrev pub not_found : ℕ
not_found = 4

abbrev pub conflict : ℕ
conflict = 5

abbrev pub not_allowed : ℕ
not_allowed = 6

-- `fs.ErrNotExist`
abbrev pub not_exist : ℕ
not_exist = 7

-- `newErrUnsupported`
unfoldable pub new_err_unsupported : Bytes → Error
new_err_unsupported operation = foreign not_allowed (
    operation
    ++ codes
        " is not yet supported by git-lfs-transfer. See https://gitlab.com/groups/gitlab-org/-/epics/11872 to track progress.")

abbrev pub op_upload : Bytes
op_upload = codes "upload"

abbrev pub op_download : Bytes
op_download = codes "download"

-- `idData`; a map of headers is the list of its entries.
pub record IdData : Type 0 where
  pub operation : Bytes
  pub oid : Bytes
  pub href : Bytes
  pub headers : List (Bytes × Bytes)

-- The entries `id` and `token` of `transfer.Args`, which a missing entry leaves empty.
pub record TransferArgs : Type 0 where
  pub id : Bytes
  pub token : Bytes

abbrev pub no_args : TransferArgs
no_args = record { id = []; token = [] }

-- `BatchAction`, and `BatchObject` with its map of actions as a list of entries, of which none is
-- null.
pub record BatchAction : Type 0 where
  pub href : Bytes
  pub header : List (Bytes × Bytes)

pub record BatchObject : Type 0 where
  pub oid : Bytes
  pub size : ℕ
  pub actions : List (Bytes × BatchAction)

-- `transfer.BatchItem`
pub record BatchItem : Type 0 where
  pub oid : Bytes
  pub size : ℕ
  pub present : Bool
  pub args : TransferArgs

-- A request of the HTTP client: the method, the URL, the headers and the body.
pub record HttpRequest : Type 0 where
  pub method : Bytes
  pub url : Bytes
  pub headers : List (Bytes × Bytes)
  pub body : Bytes

-- `Secret` of the configuration, the cryptography, the codecs, and `Do` of the HTTP client, which
-- answers with a status and a body.
pub record Services : Type 0 where
  pub secret : Bytes
  pub hmac_sha256 : Bytes → Bytes → Bytes
  pub encode_base64 : Bytes → Bytes
  pub decode_base64 : Bytes → Option Bytes
  pub marshal : IdData → Result Bytes
  pub unmarshal : Bytes → Option IdData
  pub send : HttpRequest → Result (ℕ × Bytes)

-- The entry of a map under a key.
unfoldable pub find_action : Bytes → List (Bytes × BatchAction) → Option BatchAction
unfolding eqb
find_action op [] = none
find_action op ((name, action) ∷ rest) =
    let later = find_action op rest in if eqb name op then some action else later

abbrev pub is_ok_status : ℕ → Bool
is_ok_status code = leb 200 code && leb code 299

module _ (w : Services) where
  -- `issueBatchArgs`, where nothing fails but the encoding of the found.
  unfoldable pub issue_batch_args :
      Bytes → Bytes → Bytes → List (Bytes × Bytes) → Result TransferArgs
  issue_batch_args op oid href headers = do
    binary ← w.marshal (record { operation = op; oid = oid; href = href; headers = headers })
    ok (record {
      id = w.encode_base64 binary;
      token = w.encode_base64 (w.hmac_sha256 w.secret binary);
    })

  -- `parseAndCheckBatchArgs`, behind the check of the token.
  unfoldable pub check_id : Bytes → Bytes → Bytes → Result (Bytes × List (Bytes × Bytes))
  check_id op oid binary = elim (w.unmarshal binary) [
    | none ↦ err (foreign parse_error (codes "invalid id"))
    | some found ↦
        if not (eqb found.operation op)
        then err (foreign forbidden (codes "invalid operation"))
        else if not (eqb found.oid oid)
        then err (foreign forbidden (codes "invalid oid"))
        else ok (found.href, found.headers)
  ]

  unfoldable pub check_token : Bytes → Bytes → Bytes → Bytes → Result (Bytes × List (Bytes × Bytes))
  unfolding check_id
  check_token op oid binary token_binary =
      if not (eqb token_binary (w.hmac_sha256 w.secret binary))
      then err (foreign forbidden (codes "token hash mismatch"))
      else check_id op oid binary

  -- `parseAndCheckBatchArgs`
  unfoldable pub parse_and_check_batch_args :
      Bytes → Bytes → TransferArgs → Result (Bytes × List (Bytes × Bytes))
  unfolding check_token
  parse_and_check_batch_args op oid args =
      if is_empty args.id
      then err (foreign parse_error (codes "missing id"))
      else if is_empty args.token
      then err (foreign unauthorized (codes "missing token"))
      else elim (w.decode_base64 args.id) [
        | none ↦ err (foreign parse_error (codes "invalid id"))
        | some binary ↦ elim (w.decode_base64 args.token) [
          | none ↦ err (foreign parse_error (codes "invalid token"))
          | some token_binary ↦ check_token op oid binary token_binary
        ]
      ]

  -- One object of `Batch`: whether it is present, and the arguments for its transfer.
  unfoldable pub batch_item : Bytes → BatchObject → Result BatchItem
  unfolding find_action issue_batch_args
  batch_item op object = elim (find_action op object.actions) [
    | none ↦ ok (record {
      oid = object.oid;
      size = object.size;
      present = eqb op op_upload;
      args = no_args;
    })
    | some action ↦ do
      args ← issue_batch_args op object.oid action.href action.header
      ok (record {
        oid = object.oid;
        size = object.size;
        present = not (eqb op op_upload);
        args = args;
      })
  ]

  -- The loop of `Batch` over the answer.
  unfoldable pub batch_items : Bytes → List BatchObject → Result (List BatchItem)
  unfolding batch_item
  batch_items op [] = ok []
  batch_items op (object ∷ objects) = do
    item ← batch_item op object
    rest ← batch_items op objects
    ok (item ∷ rest)

  -- `Client.PutObject`
  unfoldable pub put_object : Bytes → List (Bytes × Bytes) → Bytes → Option Error
  put_object href headers content =
      elim (w.send
        (record { method = codes "PUT"; url = href; headers = headers; body = content })) [
          | err e ↦ some e
          | ok (status, _) ↦
              if status == 404
              then some (foreign not_found (codes "not found"))
              else if not (is_ok_status status)
              then some (plain (codes "internal error (" ++ itoa status ++ codes ")"))
              else none
        ]

  -- `Client.GetObject`; a status of another kind is `fs.ErrNotExist`.
  unfoldable pub get_object : Bytes → List (Bytes × Bytes) → Result Bytes
  get_object href headers =
      elim (w.send (record { method = codes "GET"; url = href; headers = headers; body = [] })) [
        | err e ↦ err e
        | ok (status, body) ↦
            if not (is_ok_status status)
            then err (foreign not_exist (codes "file does not exist"))
            else ok body
      ]

  -- `Upload`, with the content of its reader.
  unfoldable pub upload : Bytes → Bytes → TransferArgs → Option Error
  unfolding parse_and_check_batch_args put_object
  upload oid content args = elim (parse_and_check_batch_args op_upload oid args) [
    | err e ↦ some e
    | ok (href, headers) ↦ put_object href headers content
  ]

  -- `Download`
  unfoldable pub download : Bytes → TransferArgs → Result Bytes
  unfolding parse_and_check_batch_args get_object
  download oid args = do
    (href, headers) ← parse_and_check_batch_args op_download oid args
    get_object href headers

-- ===== src/Tests/Lfs.antt =====
-- The transfer of LFS objects, on concrete inputs.
use gitlab_shell.Prelude.{
  ltb, if◌then◌else◌, length, take, drop, all, take-append_all, drop-append_all, All, Bytes, codes,
  eqb, is_empty, ℕ, zero, suc, ◌≡◌, refl, ap, ◌↔◌, true, false, Option, none, some, List, [], ◌∷◌,
  ◌++◌,
}
use gitlab_shell.Errors.{ok, ok-injective}
use gitlab_shell.Lfs.{
  IdData, TransferArgs, BatchObject, BatchItem, Services, op_upload, op_download, issue_batch_args,
  find_action, batch_item, batch_items, parse_and_check_batch_args,
}
use gitlab_shell.Lfs.Tokens.{
  IsCodec, SameMap, IsAuthorised, parse_and_check_batch_args_iff, parse_and_check-issue,
}
use gitlab_shell.Lfs.Batch.{AreItems, batch_items-AreItems}
use gitlab_shell.Lfs.Command.{World, execute_transfer, execute_authenticate}
use gitlab_shell.Lfs.Rights.{IsAllowed, lfs-IsAllowed}
use gitlab_shell.Tests.Access

abbrev oid : Bytes
oid = codes "4d7a"

abbrev href : Bytes
href = codes "https://gitlab.example.com/4d7a"

-- Documents, as the lengths of their texts and the texts.
abbrev put : Bytes → Bytes → Bytes
put s rest = length s ∷ s ++ rest

abbrev get : Bytes → Bytes
get [] = []
get (n ∷ b) = take n b

abbrev behind : Bytes → Bytes
behind [] = []
behind (n ∷ b) = drop n b

abbrev put_all : List (Bytes × Bytes) → Bytes
put_all [] = []
put_all ((name, value) ∷ headers) = put name (put value (put_all headers))

abbrev get_all : ℕ → Bytes → List (Bytes × Bytes)
get_all zero b = []
get_all (suc n) b = (get b, get (behind b)) ∷ get_all n (behind (behind b))

abbrev get_counted : Bytes → List (Bytes × Bytes)
get_counted [] = []
get_counted (n ∷ b) = get_all n b

abbrev encode : IdData → Bytes
encode d = put d.operation (put d.oid (put d.href (length d.headers ∷ put_all d.headers)))

abbrev decode_document : Bytes → IdData
decode_document b = record {
  operation = get b;
  oid = get (behind b);
  href = get (behind (behind b));
  headers = get_counted (behind (behind (behind b)));
}

abbrev decode : Bytes → Option Bytes
decode [] = none
decode (_ ∷ b) = some b

abbrev services : Services
services = record {
  secret = codes "secret";
  hmac_sha256 = λ k b. codes "mac" ++ b;
  encode_base64 = λ b. b'=' ∷ b;
  decode_base64 = decode;
  marshal = λ d. ok (encode d);
  unmarshal = λ b. if is_empty b then none else some (decode_document b);
  send = λ q. ok (200, codes "content");
}

abbrev IsAscii : Bytes → Type 0
IsAscii s = all (λ c. ltb c 128) s ≡ true

get-put : (s rest : Bytes) → get (put s rest) ≡ s
get-put s rest = take-append_all s rest

behind-put : (s rest : Bytes) → behind (put s rest) ≡ rest
behind-put s rest = drop-append_all s rest

get_all-put_all :
    (headers : List (Bytes × Bytes)) → get_all (length headers) (put_all headers) ≡ headers
get_all-put_all [] = refl
get_all-put_all ((name, value) ∷ headers) = rw (
  take-append_all name (put value (put_all headers)),
  drop-append_all name (put value (put_all headers)),
  take-append_all value (put_all headers),
  drop-append_all value (put_all headers),
  get_all-put_all headers,
)

decode-encode : (d : IdData) → decode_document (encode d) ≡ d
decode-encode d =
    let b : Bytes = length d.headers ∷ put_all d.headers in
    rw (
      take-append_all d.operation (put d.oid (put d.href b)),
      drop-append_all d.operation (put d.oid (put d.href b)),
      take-append_all d.oid (put d.href b),
      drop-append_all d.oid (put d.href b),
      take-append_all d.href b,
      drop-append_all d.href b,
      get_all-put_all d.headers,
    )

codec : IsCodec services IsAscii
codec = record {
  base64 = λ b. refl;
  some_base64 = λ b h. refl;
  json = λ d b textual h.
      (d.headers, (λ key. refl), rw (← ok-injective h) (ap some (decode-encode d)));
  some_json = λ d b h. rw (← ok-injective h) refl;
  some_mac = λ b. refl;
}

-- A document with a header.
abbrev headers : List (Bytes × Bytes)
headers = (codes "Authorization", codes "Basic x") ∷ []

abbrev document : IdData
document = record { operation = op_download; oid = oid; href = href; headers = headers }

abbrev text : Bytes
text = encode document

-- The arguments that are issued for the document.
abbrev args : TransferArgs
args = record { id = b'=' ∷ text; token = b'=' ∷ (codes "mac" ++ text) }

issued : issue_batch_args services op_download oid href headers ≡ ok args
unfolding issue_batch_args eqb
issued = refl

parse_and_check_batch_args_iff_example :
    (parse_and_check_batch_args services op_download oid args ≡ ok (href, headers)) ↔ (
      (is_empty args.id ≡ false)
      × (is_empty args.token ≡ false)
      × IsAuthorised services op_download oid args href headers)
parse_and_check_batch_args_iff_example =
    parse_and_check_batch_args_iff services op_download oid href headers args

parse_and_check-issue_example :
    (decoded : List (Bytes × Bytes)) × SameMap decoded headers
    × ((op' oid' href' : Bytes) (headers' : List (Bytes × Bytes))
        → (parse_and_check_batch_args services op' oid' args ≡ ok (href', headers'))
          ↔ ((op' ≡ op_download) × (oid' ≡ oid) × (href' ≡ href) × (headers' ≡ decoded)))
parse_and_check-issue_example =
    parse_and_check-issue services IsAscii op_download oid href headers args codec
      (refl, refl, refl, ((refl, refl), tt)) issued

-- An object that can be fetched, and one that is missing.
abbrev objects : List BatchObject
objects =
    record {
      oid = oid;
      size = 7;
      actions = (op_download, record { href = href; header = headers }) ∷ [];
    }
    ∷ record { oid = codes "0000"; size = 1; actions = [] }
    ∷ []

abbrev items : List BatchItem
items =
    record { oid = oid; size = 7; present = true; args = args }
    ∷ record {
      oid = codes "0000";
      size = 1;
      present = false;
      args = record { id = []; token = [] };
    }
    ∷ []

answered : batch_items services op_download objects ≡ ok items
unfolding batch_items batch_item find_action issue_batch_args eqb
answered = refl

batch_items-AreItems_example : AreItems services IsAscii op_download objects items
batch_items-AreItems_example =
    batch_items-AreItems services IsAscii op_download objects items codec refl
      ((refl, ((refl, ((refl, refl), tt)), tt)), ((refl, tt), tt)) answered

-- A server that grants what is asked for.
abbrev world : World
world = record {
  access = Access.world;
  new_client = none;
  post = λ address q. ok (200, []);
  decode = λ body. some (record {
    username = codes "lfs";
    lfs_token = codes "token";
    repo_path = codes "https://gitlab.example.com/group/project.git";
    expires_in = 3600;
  });
  encode_base64 = λ b. b;
  marshal = λ p. ok p.auth;
  process = λ operation auth. none;
}

abbrev repo : Bytes
repo = codes "group/project.git"

lfs-IsAllowed_example :
    All
      (IsAllowed world Access.shell repo op_upload)
      (execute_transfer world Access.shell (codes "git-lfs-transfer" ∷ repo ∷ op_upload ∷ [])).0
    × All
        (IsAllowed world Access.shell repo op_upload)
        (execute_authenticate world Access.shell
          (codes "git-lfs-transfer" ∷ repo ∷ op_upload ∷ [])).0
lfs-IsAllowed_example =
    lfs-IsAllowed world Access.shell (codes "git-lfs-transfer") repo op_upload []

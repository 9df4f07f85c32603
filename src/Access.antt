-- ===== src/Access.antt =====
-- Access to a repository: internal/gitlabnet/accessverifier/client.go, the command around it in
-- internal/command/shared/accessverifier, and Execute of internal/command/receivepack, uploadpack
-- and uploadarchive. The internal API, the decoding of JSON, the Topology Service and the calls of
-- Gitaly and of Git over HTTP are parameters. Log data is left out.
pub mod Granted
pub mod Audit
use gitlab_shell.Prelude.{
  ltb, leb, ◌==◌, if◌then◌else◌, ==_iff, Bool-cases, Option-cases, and-eq-true_iff, length, take,
  drop, replicate, all, any, length-append, take-append-drop, length-take, length-drop, take-append,
  drop-append, take-append_all, drop-append_all, All, All-append, Bytes, codes, eqb, eqb_iff,
  eqb_refl, is_empty, has_prefix, trim_prefix, trim_suffix, trim_left, contains_byte, contains,
  before, split, last, mem, Lacks, Lacks-contains_byte, contains_byte-Lacks, ℕ, zero, suc, ◌+◌, ◌-◌,
  ◌*◌, ◌/◌, ◌%◌, ◌^◌, ◌≤◌, ◌<◌, ◌≡◌, refl, sym, ap, ◌∙◌, ◌≢◌, ◌↔◌, ◌⊎◌, inl, inr, Bool, true, false,
  not, ◌&&◌, ◌||◌, Option, none, some, List, [], ◌∷◌, ◌++◌, map, append_assoc, append-nil, arith,
  last-split, split-ne-nil, All-mono,
}
use gitlab_shell.Errors.{Result, ok, err, Error, plain, disallowed}
use gitlab_shell.CommandArgs.{Shell}

-- `Request`
pub record Request : Type 0 where
  pub action : Bytes
  pub repo : Bytes
  pub changes : Bytes
  pub protocol : Bytes
  pub key_id : Bytes
  pub username : Bytes
  pub krb5_principal : Bytes
  pub check_ip : Bytes
  pub namespace_path : Bytes

-- `Response`: the fields that the commands branch on, and those that `Verify` fills in.
pub record Response : Type 0 where
  pub success : Bool
  pub message : Bytes
  pub user_id : Bytes
  pub console_messages : List Bytes
  pub need_audit : Bool
  pub who : Bytes
  pub status_code : ℕ
  pub cell_address : Bytes

-- Where a granted command is served.
pub data Service : Type 0 where
  gitaly direct_http cell_http : Service

-- What a command does: it asks for access, shows messages, has a service at work, or has the
-- access recorded.
pub data Effect : Type 0 where
  posted : Bytes → Request → Effect
  shown : List Bytes → Effect
  called : Service → Response → Effect
  audited : Response → Effect

-- `NewClient`'s error, if it fails; the address of `ClientForRoute`; the host of
-- `net.SplitHostPort`; the answer to `/allowed` with its status; the decoding of its body; and the
-- error of a call.
pub record World : Type 0 where
  pub new_client : Option Error
  pub route : Bytes → Bytes
  pub split_host_port : Bytes → Option Bytes
  pub post : Bytes → Request → Result (ℕ × Bytes)
  pub decode : Bytes → Option Response
  pub call : Service → Response → Option Error

-- The commands.
pub data Git : Type 0 where
  receive_pack upload_pack upload_archive : Git

module _ (w : World) where
  -- `ParseIP`
  unfoldable pub parse_ip : Bytes → Bytes
  parse_ip remote_addr = elim (w.split_host_port remote_addr) [ none ↦ remote_addr | some ip ↦ ip ]

  -- The request of `Client.Verify`.
  unfoldable pub request_of : Shell → Bytes → Bytes → Request
  unfolding parse_ip
  request_of args action repo =
      let by_username = not (is_empty args.gitlab_username) in
      let by_principal = not by_username && not (is_empty args.gitlab_krb5_principal) in
      record {
        action = action;
        repo = repo;
        changes = codes "_any";
        protocol = codes "ssh";
        key_id = if by_username || by_principal then [] else args.gitlab_key_id;
        username = if by_username then args.gitlab_username else [];
        krb5_principal = if by_principal then args.gitlab_krb5_principal else [];
        check_ip = parse_ip args.env.remote_addr;
        namespace_path = args.env.namespace_path;
      }

  -- `parse`
  unfoldable pub parse : Shell → ℕ × Bytes → Result Response
  parse args (status, body) = elim (w.decode body) [
    | none ↦ err (plain (codes "parsing failed"))
    | some r ↦ ok (record r {
      who =
          if not (is_empty args.gitlab_key_id)
          then codes "key-" ++ args.gitlab_key_id
          else r.user_id;
      status_code = status;
    })
  ]

  -- `Client.Verify`
  unfoldable pub client_verify : Shell → Bytes → Bytes → Result Response
  unfolding request_of parse
  client_verify args action repo =
      let address = w.route repo in
      elim (w.post address (request_of args action repo)) [
        | err e ↦ err e
        | ok hr ↦ elim (parse args hr) [
          | err e ↦ err e
          | ok r ↦ ok (record r { cell_address = address })
        ]
      ]

  -- `Command.Verify`
  unfoldable pub verify : Shell → Bytes → Bytes → List Effect × Result Response
  verify args action repo = elim w.new_client [
    | some e ↦ ([], err e)
    | none ↦
        let asked = posted (w.route repo) (request_of args action repo) in
        elim (client_verify args action repo) [
          | err e ↦ (asked ∷ [], err e)
          | ok r ↦ (
            asked ∷ shown r.console_messages ∷ [],
            (if not r.success then err (plain r.message) else ok r),
          )
        ]
  ]

  -- `IsCellRouted`, `IsCustomAction`
  unfoldable pub is_cell_routed : Response → Bool
  is_cell_routed r = not (is_empty r.cell_address)

  unfoldable pub is_custom_action : Response → Bool
  is_custom_action r = r.status_code == 300

  -- The call of Gitaly and the audit behind it.
  unfoldable pub serve_gitaly : Response → List Effect × Option Error
  serve_gitaly r = elim (w.call gitaly r) [
    | some e ↦ (called gitaly r ∷ [], some e)
    | none ↦ (called gitaly r ∷ (if r.need_audit then audited r ∷ [] else []), none)
  ]

  -- `Execute`, behind `verifyAccess`: an archive goes to Gitaly in each case, without an audit.
  unfoldable pub serve : Git → Response → List Effect × Option Error
  unfolding is_cell_routed is_custom_action serve_gitaly
  serve upload_archive r = (called gitaly r ∷ [], w.call gitaly r)
  serve git r =
      if is_cell_routed r
      then (called cell_http r ∷ [], w.call cell_http r)
      else if is_custom_action r
      then (called direct_http r ∷ [], w.call direct_http r)
      else serve_gitaly r

  -- `Execute`
  unfoldable pub execute_on : Git → Shell → List Bytes → List Effect × Option Error
  execute_on git args (name ∷ repo ∷ []) =
      let (asked, access) = verify args args.command_type repo in
      elim access [
        | err e ↦ (asked, some e)
        | ok r ↦ let (served, outcome) = serve git r in (asked ++ served, outcome)
      ]
  execute_on git args words = ([], some disallowed)

  unfoldable pub execute : Git → Shell → List Effect × Option Error
  execute git args = execute_on git args args.ssh_args

-- ===== src/Tests/Server.antt =====
-- The SSH server and the Topology Service, on concrete inputs.
use gitlab_shell.Prelude.{
  if◌then◌else◌, Bytes, codes, eqb, is_empty, has_prefix, trim_suffix, trim_left, contains_byte,
  contains, before, mem, ◌≤◌, ◌≡◌, refl, ◌↔◌, true, false, Option, none, some, List, [], ◌∷◌, ◌++◌,
  arith,
}
use gitlab_shell.Decimal.{itoa}
use gitlab_shell.Errors.{message, is_disallowed, as_api, ok, err, Error, plain, api}
use gitlab_shell.Sshd.Connection.{
  is_client_disconnect, is_benign_code, is_policy, is_counted, Code, internal, Connection,
  handle_channel, accept_channel, count_session, store_error, session_channel_type,
  track_connection, end_session, returned,
}
use gitlab_shell.Sshd.Connection.Limit.{
  Reach, here, next, opens, accepts, starts, ends, stores, IsValid, Reach-IsValid,
}
use gitlab_shell.Sshd.Connection.Sli.{
  observe_all, no_outcome, IsFaulty, authenticated, authenticated-IsValid, track_connection_sli,
}
use gitlab_shell.Sshd.Session.{World, Session, Request, handle}
use gitlab_shell.Sshd.Session.Rules.{IsOnce}
use gitlab_shell.Sshd.Session.Loop.{handle-IsOnce}
use gitlab_shell.Sshd.ServerConfig
use gitlab_shell.Sshd.ServerConfig.{
  Certificate, certificate, Permissions, ServerConfig, cert_perm_username, public_key_callback,
  validate_key_id, handle_user_certificate, instance_certificate, is_locally_trusted_ca,
  build_cert_permissions, valid_key_id_pattern, is_special, consecutive_special_chars,
  starts_special,
}
use gitlab_shell.Sshd.ServerConfig.Grants.{
  IsUsername, validate_key_id-IsUsername, Granted, public_key_callback-Granted,
}
use gitlab_shell.Topology
use gitlab_shell.Topology.{
  Config, Resolver, Claim, route, validate, extract_top_level_namespace, resolve_by_route,
}
use gitlab_shell.Tests.Commands.{words, config, counters}

-- A client that execs one command and then another.
abbrev pub world : World
world = record {
  unmarshal_env = λ s. ok (codes "GIT_PROTOCOL", s);
  unmarshal_exec = λ s. ok s;
  parse_words = words;
  execute = λ c. some (plain (codes "failed"));
  grpc_code = λ e. internal;
  grpc_message = λ e. [];
  config = config;
}

abbrev session : Session
session = record {
  gitlab_key_id = codes "42";
  gitlab_krb5_principal = [];
  gitlab_username = [];
  namespace = [];
  remote_addr = codes "127.0.0.1";
  exec_cmd = [];
  git_protocol_version = [];
}

abbrev request : Bytes → Request
request type = record { type = type; want_reply = true; payload = codes "git-upload-pack x" }

abbrev pub requests : List Request
requests = request (codes "env") ∷ request (codes "exec") ∷ request (codes "exec") ∷ []

handle-IsOnce_example : IsOnce world session (handle world session requests counters none).0
handle-IsOnce_example = handle-IsOnce world session requests counters none

-- An attempt that fails in the internal API and one that succeeds, then a session, a channel that is
-- refused for it, and the end of the session with an error that is stored.
abbrev attempts : List (Option Error)
attempts =
    some (api (record { msg = codes "unreachable"; status_code = 0; system = true })) ∷ none ∷ []

abbrev no_code : Error → Code
no_code e = internal

abbrev opened : Connection
opened = (handle_channel session_channel_type (authenticated 1 attempts)).0

abbrev served : Connection
served = count_session (accept_channel true opened).0

abbrev crowded : Connection
crowded = (handle_channel session_channel_type served).0

abbrev failed : Connection
failed = end_session no_code (returned (plain (codes "failed"))) crowded

abbrev ended : Connection
ended = store_error failed

run : Reach no_code (authenticated 1 attempts) ended
unfolding handle_channel accept_channel count_session end_session eqb contains is_counted is_policy
    as_api is_disallowed is_benign_code message is_client_disconnect
run =
    next
      (next
        (next
          (next
            (next (next here (opens session_channel_type (authenticated 1 attempts) refl))
              (accepts true opened refl))
            (starts (accept_channel true opened).0 (omega arith)))
          (opens session_channel_type served refl))
        (ends (returned (plain (codes "failed"))) crowded (omega arith)))
      (stores failed (omega arith))

start-IsValid : IsValid no_code (observe_all no_outcome attempts) (authenticated 1 attempts)
start-IsValid = authenticated-IsValid no_code 1 attempts

Reach-IsValid_example : IsValid no_code (observe_all no_outcome attempts) ended
Reach-IsValid_example =
    Reach-IsValid no_code {c = authenticated 1 attempts} {d = ended}
      (observe_all no_outcome attempts) run start-IsValid

track_connection_sli_example :
    let n = (track_connection ended).counters in
    (n.connections_total ≡ (if is_empty attempts then 0 else 1))
    × (n.connections_errors ≤ 1)
    × ((n.connections_errors ≡ 1) ↔ ((is_empty attempts ≡ false) × IsFaulty attempts ended))
    × (ended.sessions.storing ≤ ended.held)
    × (ended.held ≤ ended.max_sessions)
track_connection_sli_example = track_connection_sli no_code 1 attempts ended run

-- A server with one trusted authority.
abbrev pub services : ServerConfig.Services
services = record {
  dsa = codes "ssh-dss";
  user_cert = 1;
  fingerprint_sha256 = λ s. codes "SHA256:" ++ s;
  check_cert = λ user c. none;
  encode_base64 = λ s. s;
  key_by_key = λ s. ok 42;
  cert_by_key = λ id s. err (plain (codes "unknown"));
}

abbrev pub server : ServerConfig
server = record {
  user = codes "git";
  trusted_user_ca_keys = codes "CA" ∷ [];
  ssh_certificates = [];
}

abbrev pub cert : Certificate
cert = record {
  cert_type = 1;
  key_id = codes "some.user";
  signature_key = codes "CA";
  critical_options = (codes "source-address", codes "10.0.0.0/8") ∷ [];
}

abbrev pub permissions : Permissions
permissions = record {
  critical_options = (codes "source-address", codes "10.0.0.0/8") ∷ [];
  extensions = (cert_perm_username, codes "some.user") ∷ [];
}

valid_key_id : validate_key_id (codes "some.user") ≡ none
unfolding validate_key_id valid_key_id_pattern is_special consecutive_special_chars starts_special
valid_key_id = refl

validate_key_id-IsUsername_example : IsUsername (codes "some.user")
validate_key_id-IsUsername_example = validate_key_id-IsUsername (codes "some.user") valid_key_id

pub granted :
    (public_key_callback services server (codes "git") (certificate cert) no_outcome).0
    ≡ ok permissions
unfolding public_key_callback handle_user_certificate instance_certificate validate_key_id
    is_locally_trusted_ca mem valid_key_id_pattern is_special consecutive_special_chars
    starts_special build_cert_permissions
granted = refl

public_key_callback-Granted_example :
    Granted services server (codes "git") (certificate cert) permissions
public_key_callback-Granted_example =
    public_key_callback-Granted services server (codes "git") (certificate cert) no_outcome
      permissions granted

-- A Topology Service that names one cell.
abbrev pub topology : Topology.Services
topology = record {
  split_host_port = λ s. some (before s b':');
  join_host_port = λ h p. h ++ codes ":" ++ p;
  url_string = λ s h. s ++ codes "://" ++ h;
  classify = λ c. ok (record { is_proxy = true; proxy = some (codes "cell-1.example.com:443") });
}

abbrev topology_config : Topology.Config
topology_config = record {
  enabled = true;
  address = codes "topology.example.com:443";
  timeout = 0;
  tls = record {
    enabled = true;
    ca_file = [];
    cert_file = [];
    key_file = [];
    server_name = [];
    insecure_skip_verify = false;
  };
  cell_endpoint = record { scheme = codes "https"; port = 8181 };
}

abbrev pub resolver : Resolver
resolver = record { has_client = true; cell_endpoint = topology_config.cell_endpoint }

abbrev repo : Bytes
repo = codes "/group/project.git"

routed : resolve_by_route topology resolver repo ≡ codes "https://cell-1.example.com:8181"
unfolding resolve_by_route Topology.resolve Topology.build_cell_url extract_top_level_namespace
    has_prefix trim_suffix trim_left before contains_byte Topology.is_ipv6 itoa
routed = refl

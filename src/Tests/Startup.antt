-- ===== src/Tests/Startup.antt =====
-- The configuration, the health check and the lookups of keys, on concrete inputs.
use gitlab_shell.Prelude.{
  length, All, Bytes, codes, ◌≤◌, ◌≡◌, ◌↔◌, true, false, none, some, [], ◌++◌,
}
use gitlab_shell.Errors.{Result, ok, err, plain}
use gitlab_shell.Config.{Config}
use gitlab_shell.Health
use gitlab_shell.Health.{uses_new_client, execute}
use gitlab_shell.Health.Panics.{execute-panics_iff}
use gitlab_shell.Lfs.Locks.{panics}
use gitlab_shell.Lookup
use gitlab_shell.Lookup.{get_by_key, get_cert_by_key}
use gitlab_shell.Topology.Routing.{IsPlaced}
use gitlab_shell.Lookup.Routes.{IsFingerprint, lookups-ArePlaced}
use gitlab_shell.Tests.Server.{topology, resolver}

-- Files that all have one content, and a document that leaves the defaults as they are.
abbrev read_file : Bytes → Result Bytes
read_file path = ok (codes "secret")

abbrev unmarshal : Bytes → Config → Result Config
unmarshal content c = ok (record c { log_file = codes "/var/log/gitlab-shell.log" })

abbrev path_unescape : Bytes → Result Bytes
path_unescape url = ok url

abbrev dir : Bytes → Bytes
dir path = codes "/opt/gitlab-shell"

abbrev path : Bytes
path = codes "/opt/gitlab-shell/config.yml"

abbrev loaded : Config
loaded = record {
  user = codes "git";
  root_dir = codes "/opt/gitlab-shell";
  log_file = codes "/var/log/gitlab-shell.log";
  log_format = codes "json";
  log_level = codes "info";
  gitlab_url = [];
  secret_file_path = codes "/opt/gitlab-shell/.gitlab_shell_secret";
  secret = codes "secret";
  pat = record { enabled = true; allowed_scopes = [] };
  topology_service = record {
    enabled = false;
    address = [];
    timeout = 0;
    tls = record {
      enabled = false;
      ca_file = [];
      cert_file = [];
      key_file = [];
      server_name = [];
      insecure_skip_verify = false;
    };
    cell_endpoint = record { scheme = []; port = 0 };
  };
  has_topology_client = false;
}

-- An internal API that answers with something else than JSON.
abbrev world : Health.World
world = record {
  new_client = none;
  get = ok (codes "<html>");
  decode = λ body. none;
  close = none;
  flag = none;
  check_new_client = err (plain (codes "unused"));
}

execute-panics_iff_example : (execute world ≡ panics) ↔ (
    (uses_new_client world ≡ false)
    × (world.new_client ≡ none)
    × (body : Bytes) × (world.get ≡ ok body)
    × (world.decode body ≡ none)
    × (world.close ≡ none))
execute-panics_iff_example = execute-panics_iff world

-- Lookups with a Topology Service that names one cell.
abbrev lookup : Lookup.World
lookup = record {
  topology = topology;
  resolver = resolver;
  decode_base64 = λ s. ok s;
  encode_base64 = λ s. s;
  sha256 = λ s. codes "sha256:" ++ s;
  with_query = λ path query. ok path;
  get = λ host path. ok (codes "{}");
  decode_key = λ body. some (record { id = 7; key = codes "AAAA" });
  decode_cert = λ body. some (record { username = codes "some.user"; namespace = [] });
}

lookups-ArePlaced_example :
    ((f : Bytes) × IsFingerprint lookup (codes "AAAA") f
      × All (λ q. IsPlaced topology resolver f q.0) (get_by_key lookup (codes "AAAA")).0
      × (length (get_by_key lookup (codes "AAAA")).0 ≤ 1))
    × All
        (λ q. IsPlaced topology resolver (codes "ca") q.0)
        (get_cert_by_key lookup (codes "some.user") (codes "ca")).0
    × (length (get_cert_by_key lookup (codes "some.user") (codes "ca")).0 ≤ 1)
lookups-ArePlaced_example = lookups-ArePlaced lookup (codes "AAAA") (codes "some.user") (codes "ca")

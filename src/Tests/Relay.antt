-- ===== src/Tests/Relay.antt =====
-- The connection to the Topology Service, and Git over HTTP, on concrete inputs.
use mathlib.Core.List.{flatten}
use gitlab_shell.Prelude.{
  All, Bytes, codes, has_prefix, trim_prefix, trim_suffix, trim_left, contains_byte, before, ◌+◌,
  ◌≡◌, refl, ◌⊎◌, true, false, none, some, List, [], ◌∷◌, ◌++◌,
}
use gitlab_shell.Decimal.{itoa}
use gitlab_shell.Errors.{Result, ok}
use gitlab_shell.Lfs.Locks.{returns}
use gitlab_shell.Topology
use gitlab_shell.Topology.{ClassifyResponse}
use gitlab_shell.Topology.Client.{new_client, World, fresh}
use gitlab_shell.Topology.Client.Lifetime.{
  Step, gets, closes, returns_with, run, Inv, run-new_client-Inv,
}
use gitlab_shell.Http.{Request, default_transport}
use gitlab_shell.Http.GitlabNet.{GitlabNetClient, request_of}
use gitlab_shell.Topology.Routing.{IsRouted}
use gitlab_shell.Topology.Routed.{client_for_route}
use gitlab_shell.Topology.Routed.Requests.{IsRequestTo, client_for_route-IsRouted}
use gitlab_shell.Http.Git.{Response}
use gitlab_shell.GitHttp.{upload_pack_http_prefix}
use gitlab_shell.GitHttp.Cells.{Urls, Access, cells_push, execute_cells}
use gitlab_shell.GitHttp.Cells.Signed.{IsSigned, execute_cells-IsSigned}
use gitlab_shell.GitHttp.Execute.{Outcome, CustomPayloadData, pull, is_direct, execute}
use gitlab_shell.GitHttp.Execute.Expected.{info_request, pack_request}
use gitlab_shell.GitHttp.Execute.Order.{IsRelayed, execute_relays}
use gitlab_shell.Tests.Http.{library}

abbrev world : World
world = record {
  read_file = λ name. ok [];
  pem = λ content. 1 ∷ [];
  load_key_pair = λ cert key. ok 2;
  client_name = [];
  new_grpc_client = λ n address name creds. ok (100 + n);
  close_connection = λ conn. none;
  classify_on = λ conn timeout claim. ok (record { is_proxy = false; proxy = none });
}

abbrev config : Topology.Config
config = record {
  enabled = true;
  address = codes "topology.example.com:443";
  timeout = 0;
  tls = record {
    enabled = true;
    ca_file = [];
    cert_file = [];
    key_file = [];
    server_name = [];
    insecure_skip_verify = false;
  };
  cell_endpoint = record { scheme = codes "https"; port = 8181 };
}

-- Two callers, a close between them, and an answer behind it.
abbrev steps : List Step
steps = gets ∷ gets ∷ closes ∷ returns_with true ∷ gets ∷ []

was_run : (run world steps (fresh config)).live ≡ 101 ∷ []
unfolding run
was_run = refl

run-new_client-Inv_example : Inv world (run world steps (fresh config))
unfolding new_client
run-new_client-Inv_example = run-new_client-Inv world config (fresh config) steps refl

abbrev data_ : CustomPayloadData
data_ = record {
  primary_repo = codes "https://primary.example.com/group/project.git";
  request_headers = none;
  geo_proxy_fetch_ssh_direct_to_primary = false;
  geo_proxy_push_ssh_direct_to_primary = true;
}

abbrev info : Response
info = record {
  status_code = 200;
  body = (upload_pack_http_prefix ++ codes "refs") ∷ codes "more" ∷ [];
  first_ends = false;
  failure = none;
}

abbrev pack : Response
pack = record { status_code = 200; body = codes "PACK" ∷ []; first_ends = true; failure = none }

-- The server answers a request with a body by the pack, and others by its references.
abbrev send : Request → Result Response
send r = elim r.body [ none ↦ ok info | some sent ↦ ok pack ]

abbrev input : List Bytes
input = codes "0009done\n" ∷ []

relayed :
    execute library send pull data_ [] input
    ≡ returns (record {
      sent = info_request pull data_ ∷ pack_request pull data_ input ∷ [];
      out = (codes "refs" ++ codes "more") ++ codes "PACK";
      failure = none;
    })
unfolding execute flatten
relayed = refl

execute_relays_example :
    (o : Outcome) × (execute library send pull data_ [] input ≡ returns o)
    × IsRelayed library send (λ http_method url. refl) pull data_ input o
unfolding is_direct
execute_relays_example =
    execute_relays library send (λ http_method url. refl) pull data_ [] input refl

abbrev urls : Urls
urls = record {
  parse = λ address. ok (record {
    scheme = codes "https";
    host = codes "cell.example.com";
    path = codes "/";
    rest = [];
  });
  string = λ u. u.scheme ++ codes "://" ++ u.host ++ u.path;
  quote = λ s. s;
}

abbrev access : Access
access = record {
  gl_project_path = codes "group/project";
  cell_address = codes "https://cell.example.com/";
  user_id = codes "user-1";
  git_protocol_version = codes "version=2";
}

sends :
    (execute_cells urls library send cells_push (codes "secret") access input).sent
    ≡ record {
      http_method = codes "POST";
      url = codes "https://cell.example.com/group/project.git/ssh-receive-pack";
      body = some (codes "0009done\n");
      basic_auth = none;
      headers =
          (codes "Gitlab-Shell-Api-Request", codes "secret.user-1")
          ∷ (codes "Git-Protocol", codes "version=2")
          ∷ [];
    }
      ∷ []
unfolding execute_cells flatten
sends = refl

execute_cells-IsSigned_example :
    All
      (IsSigned urls library cells_push (codes "secret") access)
      (execute_cells urls library send cells_push (codes "secret") access input).sent
execute_cells-IsSigned_example =
    execute_cells-IsSigned urls library send cells_push (codes "secret") access input

abbrev services : Topology.Services
services = record {
  split_host_port = λ s. some (before s b':');
  join_host_port = λ h p. h ++ codes ":" ++ p;
  url_string = λ s h. s ++ codes "://" ++ h;
  classify =
      λ claim. ok (record { is_proxy = true; proxy = some (codes "cell-1.example.com:443") });
}

abbrev cells : Topology.Resolver
cells = record { has_client = true; cell_endpoint = config.cell_endpoint }

abbrev net_client : GitlabNetClient
net_client = record {
  http_client = record {
    transport = default_transport;
    host = codes "https://gitlab.example.com";
    timeout = 0;
    retry_max = 2;
    retry_wait_min = 0;
    retry_wait_max = 0;
    follows_redirects = false;
  };
  user = [];
  password = [];
  secret = codes "secret";
  user_agent = codes "GitLab-Shell";
}

abbrev repo : Bytes
repo = codes "/group/project.git"

abbrev asked : Request
asked = record {
  http_method = codes "GET";
  url = codes "https://cell-1.example.com:8181/check";
  body = none;
  basic_auth = none;
  headers =
      (codes "Gitlab-Shell-Api-Request", codes "secret.")
      ∷ (codes "Content-Type", codes "application/json")
      ∷ (codes "User-Agent", codes "GitLab-Shell")
      ∷ [];
}

was_asked :
    request_of library
      (client_for_route services cells net_client repo).client
      (codes "GET")
      (codes "/check")
      none
    ≡ ok asked
unfolding request_of client_for_route Topology.resolve_by_route Topology.resolve
    Topology.build_cell_url trim_suffix Topology.extract_top_level_namespace has_prefix trim_left
    before contains_byte Topology.is_ipv6 itoa trim_prefix
was_asked = refl

client_for_route-IsRouted_example :
    IsRequestTo library net_client (codes "https://gitlab.example.com") (codes "/check") asked
    ⊎ ((host : Bytes) × IsRouted services cells
          (Topology.route (Topology.extract_top_level_namespace repo))
          host
        × IsRequestTo library net_client host (codes "/check") asked)
client_for_route-IsRouted_example =
    client_for_route-IsRouted library services cells net_client repo (codes "GET") (codes "/check")
      none asked was_asked

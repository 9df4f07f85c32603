-- ===== src/Config.antt =====
-- internal/config/config.go: newFromFile and parseSecret. Of the configuration there are the fields
-- that these read and write. Reading a file, YAML, `url.PathUnescape` and `filepath.Dir` are
-- parameters.
pub mod Loaded
use gitlab_shell.Prelude.{
  ltb, leb, ◌==◌, if◌then◌else◌, ==_iff, Bool-cases, Option-cases, and-eq-true_iff, length, take,
  drop, replicate, all, any, length-append, take-append-drop, length-take, length-drop, take-append,
  drop-append, take-append_all, drop-append_all, All, All-append, Bytes, codes, eqb, eqb_iff,
  eqb_refl, is_empty, has_prefix, trim_prefix, trim_suffix, trim_left, contains_byte, contains,
  before, split, last, mem, Lacks, Lacks-contains_byte, contains_byte-Lacks, ℕ, zero, suc, ◌+◌, ◌-◌,
  ◌*◌, ◌/◌, ◌%◌, ◌^◌, ◌≤◌, ◌<◌, ◌≡◌, refl, sym, ap, ◌∙◌, ◌≢◌, ◌↔◌, ◌⊎◌, inl, inr, Bool, true, false,
  not, ◌&&◌, ◌||◌, Option, none, some, List, [], ◌∷◌, ◌++◌, map, append_assoc, append-nil, arith,
  last-split, split-ne-nil, All-mono,
}
use gitlab_shell.Errors.{Result, ok, err, Error, wrapped, ◌>>=◌}
use gitlab_shell.Path.{join}
use gitlab_shell.Topology

abbrev pub config_file : Bytes
config_file = codes "config.yml"

abbrev pub default_secret_file_name : Bytes
default_secret_file_name = codes ".gitlab_shell_secret"

-- `PATConfig`
pub record PatConfig : Type 0 where
  pub enabled : Bool
  pub allowed_scopes : List Bytes

-- `Config`, with whether it has a client of the Topology Service.
pub record Config : Type 0 where
  pub user : Bytes
  pub root_dir : Bytes
  pub log_file : Bytes
  pub log_format : Bytes
  pub log_level : Bytes
  pub gitlab_url : Bytes
  pub secret_file_path : Bytes
  pub secret : Bytes
  pub pat : PatConfig
  pub topology_service : Topology.Config
  pub has_topology_client : Bool

-- `DefaultConfig`, in a root directory.
unfoldable pub default_config : Bytes → Config
default_config root_dir = record {
  user = codes "git";
  root_dir = root_dir;
  log_file = codes "gitlab-shell.log";
  log_format = codes "json";
  log_level = codes "info";
  gitlab_url = [];
  secret_file_path = [];
  secret = [];
  pat = record { enabled = true; allowed_scopes = [] };
  topology_service = record {
    enabled = false;
    address = [];
    timeout = 0;
    tls = record {
      enabled = false;
      ca_file = [];
      cert_file = [];
      key_file = [];
      server_name = [];
      insecure_skip_verify = false;
    };
    cell_endpoint = record { scheme = []; port = 0 };
  };
  has_topology_client = false;
}

-- `filepath.IsAbs`
unfoldable pub is_abs : Bytes → Bool
is_abs path = has_prefix path (codes "/")

-- The file that `parseSecret` reads.
unfoldable pub secret_path : Config → Bytes
unfolding is_abs join
secret_path c =
    let file =
      if is_empty c.secret_file_path then default_secret_file_name else c.secret_file_path in
    if not (is_abs file) then join (c.root_dir ∷ file ∷ []) else file

-- The log file, below the root directory if it is relative.
unfoldable pub log_path : Config → Bytes
unfolding is_abs join
log_path c =
    if not (is_empty c.log_file) && not (is_abs c.log_file) && not (is_empty c.root_dir)
    then join (c.root_dir ∷ c.log_file ∷ [])
    else c.log_file

-- The end of `newFromFile`, behind `Validate` of the Topology Service.
unfoldable pub attach : Option Error → Config → Result Config
unfolding log_path
attach (some e) c = err (wrapped (codes "invalid topology_service config") e)
attach none c =
    ok (record c { log_file = log_path c; has_topology_client = c.topology_service.enabled })

-- The URL of GitLab, unescaped.
unfoldable pub unescape : (Bytes → Result Bytes) → Config → Result Config
unescape path_unescape c =
    if is_empty c.gitlab_url
    then ok c
    else path_unescape c.gitlab_url >>= λ url. ok (record c { gitlab_url = url })

module _ (read_file : Bytes → Result Bytes) where
  -- `parseSecret`
  unfoldable pub parse_secret : Config → Result Config
  unfolding secret_path
  parse_secret c =
      if not (is_empty c.secret)
      then ok c
      else read_file (secret_path c) >>= λ content.
          ok (record c { secret_file_path = secret_path c; secret = content })

module _ (read_file : Bytes → Result Bytes) (unmarshal : Bytes → Config → Result Config)
    (path_unescape : Bytes → Result Bytes) where
  -- `newFromFile`
  unfoldable pub new_from_file : (Bytes → Bytes) → Bytes → Result Config
  unfolding default_config unescape parse_secret attach Topology.validate
  new_from_file dir path = do
    content ← read_file path
    parsed ← unmarshal content (default_config (dir path))
    unescaped ← unescape path_unescape parsed
    c ← parse_secret read_file unescaped
    attach (Topology.validate c.topology_service) c

  -- `NewFromDir`
  unfoldable pub new_from_dir : (Bytes → Bytes) → Bytes → Result Config
  unfolding new_from_file join
  new_from_dir dir path = new_from_file dir (join (path ∷ config_file ∷ []))

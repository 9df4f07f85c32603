-- ===== src/Config/Loaded.antt =====
-- What a configuration that was read is like.
use gitlab_shell.Prelude.{Bytes, is_empty, ◌≡◌, ◌⊎◌, true, false}
use gitlab_shell.Errors.{Result, ok}
use gitlab_shell.Topology
use gitlab_shell.Topology.Routing.{IsUsable}
use gitlab_shell.Config.{Config, default_config, secret_path, log_path}

-- The URL, with its escapes resolved if there is one.
abbrev pub IsUnescaped : (Bytes → Result Bytes) → Bytes → Bytes → Type 0
IsUnescaped path_unescape text url =
    ((is_empty text ≡ true) × (url ≡ text))
    ⊎ ((is_empty text ≡ false) × (path_unescape text ≡ ok url))

module _ (read_file : Bytes → Result Bytes) where
  -- The secret is the one of the configuration, whose path is then kept, or the content of the file
  -- that it names, whose path is then the one that was read.
  abbrev pub IsSecret : Config → Bytes → Bytes → Type 0
  IsSecret parsed secret file =
      ((is_empty parsed.secret ≡ false)
        × (secret ≡ parsed.secret)
        × (file ≡ parsed.secret_file_path))
      ⊎ ((is_empty parsed.secret ≡ true)
          × (read_file (secret_path parsed) ≡ ok secret)
          × (file ≡ secret_path parsed))

IsSecret-kept :
    (read_file : Bytes → Result Bytes) (parsed u : Config) {url : Bytes} (secret file : Bytes)
    → u ≡ record parsed { gitlab_url = url }
    → IsSecret read_file u secret file
    → IsSecret read_file parsed secret file
unfolding secret_path
IsSecret-kept read_file parsed u secret file e h = rw e at h

module _ (read_file : Bytes → Result Bytes) (unmarshal : Bytes → Config → Result Config)
    (path_unescape : Bytes → Result Bytes) where
  -- A configuration that was read from a file.
  pub record IsLoaded (dir : Bytes → Bytes) (path : Bytes) (c : Config) : Type 0 where
    pub content : Bytes
    pub parsed : Config
    pub text : read_file path ≡ ok content
    pub yaml : unmarshal content (default_config (dir path)) ≡ ok parsed
    pub url : IsUnescaped path_unescape parsed.gitlab_url c.gitlab_url
    pub secret : IsSecret read_file parsed c.secret c.secret_file_path
    pub user : c.user ≡ parsed.user
    pub root_dir : c.root_dir ≡ parsed.root_dir
    pub log_format : c.log_format ≡ parsed.log_format
    pub log_level : c.log_level ≡ parsed.log_level
    pub pat : c.pat ≡ parsed.pat
    pub log_file : c.log_file ≡ log_path parsed
    pub topology : c.topology_service ≡ parsed.topology_service
    pub client : c.has_topology_client ≡ c.topology_service.enabled
    pub usable : c.topology_service.enabled ≡ true → IsUsable c.topology_service

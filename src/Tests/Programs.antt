-- ===== src/Tests/Programs.antt =====
-- The start of the programs and the keys of the server on concrete inputs.
use gitlab_shell.Prelude.{
  All, Bytes, codes, is_empty, ◌≡◌, refl, ap, false, none, some, [], ◌∷◌, arith,
}
use gitlab_shell.Errors.{message, Result, ok, err, plain}
use gitlab_shell.Programs.{
  returned, World, run_shell, run_check, new_log_data, run_sshd, logs_no_config_dir, listens,
}
use gitlab_shell.Sshd.ServerConfig.Keys as Loading
use gitlab_shell.Sshd.ServerConfig.Keys.{
  PublicKey, Settings, Keys, Algorithms, parse_keys, new_server_config,
}
use gitlab_shell.Sshd.ServerConfig.Keys.Trusted.{
  Shortens, IsLoaded, parse_keys-fuel, new_server_config-IsLoaded,
}

-- A command that fails with the text `no`.
abbrev world : World
world = record {
  Config = Bytes;
  Command = Bytes;
  args = codes "gitlab-shell" ∷ [];
  base = λ path. path;
  version = codes "14";
  build_time = codes "2026";
  root_dir = ok (codes "/opt/gitlab-shell");
  new_from_dir_external = λ root. ok root;
  new_command = λ config. ok config;
  execute = λ command. returned (codes "remote: ") (some (plain (codes "no")));
  panic_text = codes "panic";
  is_internal = λ e. false;
  trim_space = λ s. s;
}

shows :
    (run_check world ≡ record { status = 1; out = []; err_out = codes "remote: no\n" })
    × ((run_shell world).status ≡ 1)
unfolding run_check run_shell message
shows = (refl, refl)

-- A server without a URL listens.
starts : run_sshd none (λ name. []) (λ c. none) ≡ logs_no_config_dir ∷ listens ∷ []
unfolding run_sshd
starts = refl

names : (new_log_data (codes "/group/sub/project") [] 1 2).root_namespace ≡ codes "group"
unfolding new_log_data
names = refl

-- Each byte of a file of CA keys is a key.
abbrev parse : Bytes → Result (PublicKey × Bytes)
parse [] = err (plain (codes "no key"))
parse (c ∷ rest) = ok (record { marshaled = c ∷ []; cert_key = none }, rest)

abbrev keys_world : Loading.World
keys_world = record {
  read_file = λ name. ok (codes "ab");
  parse_private_key = λ content. ok (record { public_key = content; certified = false });
  parse_authorized_key = parse;
  new_cert_signer = λ cert key. ok key;
  quote = λ s. s;
}

rest_of : Result (PublicKey × Bytes) → Bytes
rest_of (ok (key, rest)) = rest
rest_of (err e) = []

keys_world-Shortens : Shortens keys_world
unfolding rest_of
keys_world-Shortens [] key rest h = absurd (cc h)
keys_world-Shortens (c ∷ text) key rest h =
    let same : text ≡ rest = ap rest_of h in rw (← same) (omega arith)

parse_keys-fuel_example :
    parse_keys keys_world 2 (codes "ca.pub") 0 (codes "ab") []
    ≡ parse_keys keys_world 9 (codes "ca.pub") 0 (codes "ab") []
parse_keys-fuel_example =
    parse_keys-fuel keys_world keys_world-Shortens 2 9 (codes "ca.pub") 0 (codes "ab") []
      (omega arith) (omega arith)

abbrev settings : Settings
settings = record {
  host_key_files = codes "host" ∷ [];
  host_cert_files = [];
  trusted_user_ca_keys = codes "ca.pub" ∷ [];
  algorithms = record { public_keys = []; ciphers = []; key_exchanges = []; macs = [] };
}

abbrev loaded : Keys
loaded = record {
  host_keys = record { public_key = codes "ab"; certified = false } ∷ [];
  host_certs = [];
  trusted = codes "a" ∷ codes "b" ∷ [];
}

was_loaded : new_server_config keys_world none none settings ≡ ok loaded
unfolding new_server_config
was_loaded = refl

new_server_config-IsLoaded_example :
    (is_empty loaded.host_keys ≡ false)
    × All (IsLoaded keys_world keys_world-Shortens loaded.trusted) settings.trusted_user_ca_keys
    × ((is_empty settings.trusted_user_ca_keys ≡ false) → is_empty loaded.trusted ≡ false)
new_server_config-IsLoaded_example =
    new_server_config-IsLoaded keys_world keys_world-Shortens none none settings loaded was_loaded

-- ===== src/Http/Shared.antt =====
-- HTTPClient of internal/config/config.go and GetClient of internal/gitlabnet/client.go: the HTTP
-- client that the process makes once.
use gitlab_shell.Prelude.{All, Bytes, ℕ, ◌≡◌, refl, Option, none, some, List, [], ◌∷◌}
use gitlab_shell.Errors.{Result, ok, err}
use gitlab_shell.Http.{Files}
use gitlab_shell.Http.Client.{HttpClient, new_http_client_with_opts}
use gitlab_shell.Http.GitlabNet.{GitlabNetClient, new_gitlab_net_client}

-- The settings of HTTP in the configuration.
pub record Settings : Type 0 where
  pub gitlab_url : Bytes
  pub gitlab_relative_url_root : Bytes
  pub ca_file : Bytes
  pub ca_path : Bytes
  pub read_timeout_seconds : ℕ
  pub user : Bytes
  pub password : Bytes
  pub secret : Bytes

-- `httpClientOnce` with `httpClient` and `httpClientErr`: what the first call left, if there was one.
abbrev pub Once : Type 0
Once = Option (Result HttpClient)

-- The function that runs once, on the files as they are then.
unfoldable pub make_client : Settings → Files → Result HttpClient
unfolding new_http_client_with_opts
make_client s os =
    new_http_client_with_opts os s.gitlab_url s.gitlab_relative_url_root s.ca_file s.ca_path
      s.read_timeout_seconds []

-- `HTTPClient`
unfoldable pub http_client : Settings → Files → Once → Result HttpClient × Once
unfolding make_client
http_client s os (some made) = (made, some made)
http_client s os none = let made = make_client s os in (made, some made)

-- `GetClient`
unfoldable pub get_client : Settings → Files → Once → Result GitlabNetClient × Once
unfolding http_client new_gitlab_net_client
get_client s os once =
    let (made, once') = http_client s os once in
    (
      elim made [
        | err e ↦ err e
        | ok c ↦ new_gitlab_net_client s.user s.password s.secret (some c)
      ],
      once',
    )

-- The answers to calls of `GetClient`, each with the files as it finds them.
unfoldable pub get_clients : Settings → List Files → Once → List (Result GitlabNetClient)
unfolding get_client
get_clients s [] once = []
get_clients s (os ∷ later) once =
    let (answer, once') = get_client s os once in answer ∷ get_clients s later once'

get_clients_made :
    (s : Settings) (oss : List Files) (made : Result HttpClient) (os : Files)
    → All (λ answer. answer ≡ (get_client s os (some made)).0) (get_clients s oss (some made))
unfolding get_clients get_client http_client
get_clients_made s [] made os = tt
get_clients_made s (o ∷ oss) made os = (refl, get_clients_made s oss made os)

-- Every call gives what the first one gives, whether that is a client or an error, and whatever
-- becomes of the files in between.
pub get_clients-All :
    (s : Settings) (os : Files) (later : List Files)
    → All (λ answer. answer ≡ (get_client s os none).0) (get_clients s (os ∷ later) none)
unfolding get_clients get_client http_client
get_clients-All s os later = (refl, get_clients_made s later (make_client s os) os)

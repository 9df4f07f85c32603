-- ===== src/Tests/Access.antt =====
-- A Git command that the internal API grants, on a concrete input.
use gitlab_shell.Prelude.{codes, true, none, some, [], ◌∷◌}
use gitlab_shell.Errors.{ok}
use gitlab_shell.CommandArgs.{Shell}
use gitlab_shell.Access.{Response, World}
use gitlab_shell.Tests.Commands.{env}

abbrev response : Response
response = record {
  success = true;
  message = [];
  user_id = codes "user-1";
  console_messages = [];
  need_audit = true;
  who = [];
  status_code = 0;
  cell_address = [];
}

abbrev pub world : World
world = record {
  new_client = none;
  route = λ repo. [];
  split_host_port = λ s. none;
  post = λ address q. ok (200, []);
  decode = λ body. some response;
  call = λ service r. none;
}

abbrev pub shell : Shell
shell = record {
  arguments = [];
  gitlab_username = [];
  gitlab_key_id = codes "42";
  gitlab_krb5_principal = [];
  ssh_args = codes "git-receive-pack" ∷ codes "group/project.git" ∷ [];
  command_type = codes "git-receive-pack";
  env = env;
}

-- ===== src/Topology/Routed.antt =====
-- internal/topology/resolver.go: the clients that are directed to a cell, and which errors of the
-- Topology Service are worth another attempt.
pub mod Requests
use gitlab_shell.Prelude.{
  ltb, leb, ◌==◌, if◌then◌else◌, ==_iff, Bool-cases, Option-cases, and-eq-true_iff, length, take,
  drop, replicate, all, any, length-append, take-append-drop, length-take, length-drop, take-append,
  drop-append, take-append_all, drop-append_all, All, All-append, Bytes, codes, eqb, eqb_iff,
  eqb_refl, is_empty, has_prefix, trim_prefix, trim_suffix, trim_left, contains_byte, contains,
  before, split, last, mem, Lacks, Lacks-contains_byte, contains_byte-Lacks, ℕ, zero, suc, ◌+◌, ◌-◌,
  ◌*◌, ◌/◌, ◌%◌, ◌^◌, ◌≤◌, ◌<◌, ◌≡◌, refl, sym, ap, ◌∙◌, ◌≢◌, ◌↔◌, ◌⊎◌, inl, inr, Bool, true, false,
  not, ◌&&◌, ◌||◌, Option, none, some, List, [], ◌∷◌, ◌++◌, map, append_assoc, append-nil, arith,
  last-split, split-ne-nil, All-mono,
}
use gitlab_shell.Http.GitlabNet.{GitlabNetClient, with_host}
use gitlab_shell.Topology.{
  Services, Resolver, UserArgs, resolve_by_route, resolve_by_ssh_key, resolve_by_ssh_fingerprint,
  resolve_by_user_args,
}

-- `RoutedClient`
pub record RoutedClient : Type 0 where
  pub client : GitlabNetClient
  pub address : Bytes

-- `attachHost`
unfoldable pub attach_host : GitlabNetClient → Bytes → RoutedClient
unfolding with_host
attach_host c addr =
    if is_empty addr
    then record { client = c; address = [] }
    else record { client = with_host addr c; address = addr }

-- `isRetryableError`, on the code of a gRPC status, if the error has one: `Unavailable`,
-- `ResourceExhausted`, `Aborted`, `Internal`, `DeadlineExceeded` and `Unknown` by their numbers.
unfoldable pub is_retryable_error : Option ℕ → Bool
is_retryable_error none = true
is_retryable_error (some code) =
    code == 14 || code == 8 || code == 10 || code == 13 || code == 4 || code == 2

module _ (w : Services) (r : Resolver) where
  -- `ClientForSSHKey`
  unfoldable pub client_for_ssh_key : GitlabNetClient → Bytes → RoutedClient
  unfolding attach_host
  client_for_ssh_key c key = attach_host c (resolve_by_ssh_key w r key)

  -- `ClientForSSHFingerprint`
  unfoldable pub client_for_ssh_fingerprint : GitlabNetClient → Bytes → RoutedClient
  unfolding attach_host
  client_for_ssh_fingerprint c fingerprint =
      attach_host c (resolve_by_ssh_fingerprint w r fingerprint)

  -- `ClientForRoute`
  unfoldable pub client_for_route : GitlabNetClient → Bytes → RoutedClient
  unfolding attach_host
  client_for_route c repo_path = attach_host c (resolve_by_route w r repo_path)

  -- `ClientForUserArgs`
  unfoldable pub client_for_user_args : GitlabNetClient → UserArgs → RoutedClient
  unfolding attach_host
  client_for_user_args c args = attach_host c (resolve_by_user_args w r args)

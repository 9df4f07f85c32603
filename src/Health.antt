-- ===== src/Health.antt =====
-- internal/command/healthcheck and internal/gitlabnet/healthcheck. The internal API, JSON, the
-- feature flags and the client of internal/clients/gitlab are parameters. A nil pointer that is
-- followed is a panic.
pub mod Panics
use gitlab_shell.Prelude.{
  ltb, leb, ◌==◌, if◌then◌else◌, ==_iff, Bool-cases, Option-cases, and-eq-true_iff, length, take,
  drop, replicate, all, any, length-append, take-append-drop, length-take, length-drop, take-append,
  drop-append, take-append_all, drop-append_all, All, All-append, Bytes, codes, eqb, eqb_iff,
  eqb_refl, is_empty, has_prefix, trim_prefix, trim_suffix, trim_left, contains_byte, contains,
  before, split, last, mem, Lacks, Lacks-contains_byte, contains_byte-Lacks, ℕ, zero, suc, ◌+◌, ◌-◌,
  ◌*◌, ◌/◌, ◌%◌, ◌^◌, ◌≤◌, ◌<◌, ◌≡◌, refl, sym, ap, ◌∙◌, ◌≢◌, ◌↔◌, ◌⊎◌, inl, inr, Bool, true, false,
  not, ◌&&◌, ◌||◌, Option, none, some, List, [], ◌∷◌, ◌++◌, map, append_assoc, append-nil, arith,
  last-split, split-ne-nil, All-mono,
}
use gitlab_shell.Errors.{Result, ok, err, Error, plain, message}
use gitlab_shell.Lfs.Locks.{Run, panics, returns}

-- `Response`
pub record Response : Type 0 where
  pub api_version : Bytes
  pub gitlab_version : Bytes
  pub gitlab_revision : Bytes
  pub redis : Bool

-- `NewClient`, the body of `/check` or an error, the decoding of a body, the result of closing it;
-- the value of the feature flag, where it can be evaluated at all; and `New` with `Check` of the
-- other client.
pub record World : Type 0 where
  pub new_client : Option Error
  pub get : Result Bytes
  pub decode : Bytes → Option Response
  pub close : Option Error
  pub flag : Option (Result Bool)
  pub check_new_client : Result Response

-- The two results of a Go function: a pointer, which may be nil, and an error.
abbrev pub Answer : Type 0
Answer = Option Response × Option Error

abbrev pub api_message : Bytes
api_message = codes "Internal API available"

abbrev pub redis_message : Bytes
redis_message = codes "Redis available via internal API"

-- The results of a call that returns a value or an error.
unfoldable pub answer_of : Result Response → Answer
answer_of (err e) = (none, some e)
answer_of (ok r) = (some r, none)

-- The end of `Execute`: what it prints, and its error.
unfoldable pub report : Answer → Run (List Bytes × Option Error)
unfolding message
report (r, some e) = returns ([], some (plain (api_message ++ codes ": FAILED - " ++ message e)))
report (none, none) = panics
report (some r, none) =
    if not r.redis
    then returns
        ((api_message ++ codes ": OK\n") ∷ [], some (plain (redis_message ++ codes ": FAILED")))
    else returns ((api_message ++ codes ": OK\n") ∷ (redis_message ++ codes ": OK\n") ∷ [], none)

-- `runCheckOldClient`, behind `NewClient`.
unfoldable pub returned : Answer → Answer
returned (r, some e) = (none, some e)
returned (r, none) = (r, none)

module _ (w : World) where
  -- `parse`
  unfoldable pub parse : Bytes → Answer
  parse body = elim (w.decode body) [
    | none ↦ (none, some (plain (codes "parsing failed")))
    | some r ↦ (some r, none)
  ]

  -- `Check`, whose deferred call writes its own error over the one of `parse`.
  unfoldable pub check : Answer
  unfolding parse
  check = elim w.get [ err e ↦ (none, some e) | ok body ↦ ((parse body).0, w.close) ]

  -- `runCheckOldClient`
  unfoldable pub run_check_old_client : Answer
  unfolding check returned
  run_check_old_client = elim w.new_client [ some e ↦ (none, some e) | none ↦ returned check ]

  -- Whether `runCheck` takes the new client.
  unfoldable pub uses_new_client : Bool
  uses_new_client = elim w.flag [
    | none ↦ false
    | some answer ↦ elim answer [ err e ↦ false | ok value ↦ value ]
  ]

  -- `runCheck`
  unfoldable pub run_check : Answer
  unfolding uses_new_client run_check_old_client answer_of
  run_check = if uses_new_client then answer_of w.check_new_client else run_check_old_client

  -- `Execute`
  unfoldable pub execute : Run (List Bytes × Option Error)
  unfolding run_check report
  execute = report run_check

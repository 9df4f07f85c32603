-- ===== src/Lfs/Locks.antt =====
-- The locks of internal/command/lfstransfer/gitlab_backend.go. A nil pointer that is followed is a
-- panic, which is a result of its own. The format of a time is a parameter.
use gitlab_shell.Prelude.{
  if◌then◌else◌, Bytes, codes, eqb, ℕ, Bool, Option, none, some, List, [], ◌∷◌, ◌++◌,
}
use gitlab_shell.Errors.{Result, ok, err, Error, plain}
use gitlab_shell.Lfs.{new_err_unsupported}
use gitlab_shell.Lfs.Client.{Client, Lock, ListLocksVerifyResponse, lock, unlock, list_locks_verify}

-- What a call does that may panic.
pub data Run (A : Type 0) : Type 0 where
  panics : Run A
  returns : A → Run A

-- `gitlabLock`, without the backend that it embeds.
pub record GitlabLock : Type 0 where
  pub id : Bytes
  pub path : Bytes
  pub timestamp : ℕ
  pub owner : Bytes
  pub ownerid : Bytes

-- The entries of `args` that the backend reads.
pub record LockArgs : Type 0 where
  pub path : Bytes
  pub id : Bytes
  pub refname : Bytes
  pub force : Bytes

-- A lock of an answer becomes one of the backend; its owner is followed.
unfoldable pub lock_of : Bytes → Lock → Run GitlabLock
lock_of ownerid l = elim l.owner [
  | none ↦ panics
  | some name ↦ returns (record {
    id = l.id;
    path = l.path;
    timestamp = l.locked_at;
    owner = name;
    ownerid = ownerid;
  })
]

module _ (format_rfc3339 : ℕ → Bytes) where
  -- `AsArguments`
  unfoldable pub as_arguments : GitlabLock → List Bytes
  as_arguments l =
      (codes "id=" ++ l.id)
      ∷ (codes "path=" ++ l.path)
      ∷ (codes "locked-at=" ++ format_rfc3339 l.timestamp)
      ∷ (codes "ownername=" ++ l.owner)
      ∷ []

  -- One line of a lock's specification.
  unfoldable pub spec_line : Bytes → GitlabLock → Bytes → Bytes
  spec_line name l value = name ++ codes " " ++ l.id ++ codes " " ++ value

  -- `AsLockSpec`
  unfoldable pub as_lock_spec : GitlabLock → Bool → List Bytes
  unfolding spec_line
  as_lock_spec l use_owner_id =
      (codes "lock " ++ l.id)
      ∷ spec_line (codes "path") l l.path
      ∷ spec_line (codes "locked-at") l (format_rfc3339 l.timestamp)
      ∷ spec_line (codes "ownername") l l.owner
      ∷ (if use_owner_id then spec_line (codes "owner") l l.ownerid ∷ [] else [])

module _ (c : Client) where
  -- `gitlabLock.Unlock`: the lock's new fields, and the error.
  unfoldable pub unlock_lock : LockArgs → GitlabLock → Run (GitlabLock × Option Error)
  unlock_lock args l = elim (unlock c l.id (eqb args.force (codes "true")) args.refname) [
    | err e ↦ returns (l, some e)
    | ok none ↦ panics
    | ok (some answer) ↦ returns (
      record l {
        id = answer.id;
        path = answer.path;
        timestamp = answer.locked_at;
        owner = elim answer.owner [ none ↦ l.owner | some name ↦ name ];
      },
      none,
    )
  ]

  -- `gitlabLockBackend.Create`
  unfoldable pub create : Bytes → Bytes → Run (Option GitlabLock × Option Error)
  unfolding lock_of
  create path refname =
      let (found, error) = lock c path refname in
      elim found [
        | none ↦ returns (none, error)
        | some l ↦ elim (lock_of [] l) [
          | panics ↦ panics
          | returns made ↦ returns (some made, error)
        ]
      ]

  -- `gitlabLockBackend.Unlock`
  unfoldable pub unlock_unsupported : Error
  unlock_unsupported = new_err_unsupported (codes "unlock")

  -- `FromPath`, behind the answer.
  unfoldable pub only_lock : ListLocksVerifyResponse → Result (Option (Bytes × Lock))
  only_lock res = elim res.ours [
    | [] ↦ elim res.theirs [
      | [] ↦ ok none
      | l ∷ [] ↦ ok (some (codes "theirs", l))
      | _ ↦ err (plain (codes "internal error"))
    ]
    | l ∷ [] ↦ elim res.theirs [
      | [] ↦ ok (some (codes "ours", l))
      | _ ↦ err (plain (codes "internal error"))
    ]
    | _ ↦ err (plain (codes "internal error"))
  ]

  -- `FromPath`
  unfoldable pub from_path : Bytes → Run (Result (Option GitlabLock))
  unfolding only_lock lock_of
  from_path path = elim (list_locks_verify c path [] [] 1 []) [
    | err e ↦ returns (err e)
    | ok res ↦ elim (only_lock res) [
      | err e ↦ returns (err e)
      | ok none ↦ returns (ok none)
      | ok (some (ownerid, l)) ↦ elim (lock_of ownerid l) [
        | panics ↦ panics
        | returns made ↦ returns (ok (some made))
      ]
    ]
  ]

  -- `FromID`
  unfoldable pub from_id : Bytes → GitlabLock
  from_id id = record { id = id; path = []; timestamp = 0; owner = []; ownerid = [] }

-- A loop of `Range`: the locks that `iter` was called with, and the error that stopped it.
unfoldable pub visit :
    (GitlabLock → Option Error) → Bytes → List Lock → Run (List GitlabLock × Option Error)
unfolding lock_of
visit iter ownerid [] = returns ([], none)
visit iter ownerid (l ∷ ls) =
    let rest = visit iter ownerid ls in
    elim (lock_of ownerid l) [
      | panics ↦ panics
      | returns made ↦ elim (iter made) [
        | some e ↦ returns (made ∷ [], some e)
        | none ↦ elim rest [
          | panics ↦ panics
          | returns (seen, error) ↦ returns (made ∷ seen, error)
        ]
      ]
    ]

module _ (c : Client) where
  -- `Range`: the locks that `iter` was called with, and the next cursor or the error.
  unfoldable pub range :
      LockArgs → Bytes → ℕ → (GitlabLock → Option Error) → Run (List GitlabLock × Result Bytes)
  unfolding visit
  range args cursor limit iter =
      elim (list_locks_verify c args.path args.id cursor limit args.refname) [
        | err e ↦ returns ([], err e)
        | ok res ↦ elim (visit iter (codes "ours") res.ours) [
          | panics ↦ panics
          | returns (seen, some e) ↦ returns (seen, err e)
          | returns (seen, none) ↦ elim (visit iter (codes "theirs") res.theirs) [
            | panics ↦ panics
            | returns (more, some e) ↦ returns (seen ++ more, err e)
            | returns (more, none) ↦ returns (seen ++ more, ok res.next_cursor)
          ]
        ]
      ]

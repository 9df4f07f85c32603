-- ===== src/Lfs/Rights.antt =====
-- What the LFS commands do, and for which answers of the internal API.
use gitlab_shell.Prelude.{
  Bool-cases, Option-cases, All, All-append, Bytes, eqb, eqb_iff, ◌≡◌, refl, sym, ◌⊎◌, inl, inr,
  Option, List, [], ◌∷◌, map,
}
use gitlab_shell.Errors.{ok, err, Error, ◌>>=◌, Result-cases, ok-injective}
use gitlab_shell.CommandArgs.{Shell, upload_pack, receive_pack}
use gitlab_shell.Access
use gitlab_shell.Access.{Response, verify}
use gitlab_shell.Access.Granted
use gitlab_shell.Access.Granted.{IsGranted, verify-IsGranted}
use gitlab_shell.Lfs.{op_upload, op_download}
use gitlab_shell.Lfs.Command.{
  Effect, checked, requested, transferred, printed, World, action_from_operation, auth_request,
  request_token, payload_of, transfer_lfs, print_token, behind_access, execute_transfer,
  execute_authenticate,
}

-- The access that an operation needs.
abbrev pub Needs : Bytes → Bytes → Type 0
Needs operation action =
    ((operation ≡ op_download) × (action ≡ upload_pack))
    ⊎ ((operation ≡ op_upload) × (action ≡ receive_pack))

action-Needs :
    (operation action : Bytes)
    → action_from_operation operation ≡ ok action
    → Needs operation action
unfolding action_from_operation
action-Needs operation action h = elim (Bool-cases (eqb operation op_download)) [
  | inl down ↦ inl (
    (eqb_iff operation op_download).0 down,
    sym (ok-injective (rw (down, action_from_operation) at h)),
  )
  | inr not_down ↦ elim (Bool-cases (eqb operation op_upload)) [
    | inl up ↦ inr (
      (eqb_iff operation op_upload).0 up,
      sym (ok-injective (rw (not_down, up, action_from_operation) at h)),
    )
    | inr not_up ↦ absurd (cc (rw (not_down, not_up, action_from_operation) at h))
  ]
]

module _ (w : World) (args : Shell) (repo operation : Bytes) where
  -- The internal API granted the access that the operation needs.
  abbrev pub IsPermitted : Response → Type 0
  IsPermitted r = (action : Bytes) × Needs operation action × IsGranted w.access args action repo r

  -- An effect that may happen: a token is asked for the caller, the operation and the repository,
  -- and a transfer made, only if the access was granted.
  abbrev pub IsAllowed : Effect → Type 0
  IsAllowed (checked e) =
      (action : Bytes) × Needs operation action × Granted.IsAllowed w.access args action repo e
  IsAllowed (requested address q) =
      (r : Response) × IsPermitted r
      × (address ≡ r.cell_address)
      × (q ≡ auth_request args operation repo r.user_id)
  IsAllowed (transferred op auth) = (op ≡ operation) × (r : Response) × IsPermitted r
  IsAllowed (printed payload) = (r : Response) × IsPermitted r

  checked-IsAllowed :
      (action : Bytes)
      → Needs operation action
      → (es : List Access.Effect) → All (Granted.IsAllowed w.access args action repo) es
      → All IsAllowed (map checked es)
  checked-IsAllowed action needs [] h = tt
  checked-IsAllowed action needs (e ∷ es) (h, hs) =
      ((action, needs, h), checked-IsAllowed action needs es hs)

  request_token-IsAllowed :
      (r : Response) → IsPermitted r → All IsAllowed (request_token w args operation repo r).0
  unfolding request_token
  request_token-IsAllowed r p = elim (Option-cases w.new_client) [
    | inr (e, bad) ↦
        let same : request_token w args operation repo r ≡ ([], err e) =
          simp (bad, request_token) in
        rw same tt
    | inl client ↦
        let q = auth_request args operation repo r.user_id in
        let same : (request_token w args operation repo r).0 ≡ requested r.cell_address q ∷ [] =
          simp (client, request_token) in
        rw same ((r, p, refl, refl), tt)
  ]

  transfer_lfs-IsAllowed :
      (r : Response) → IsPermitted r → All IsAllowed (transfer_lfs w args operation repo r).0
  unfolding transfer_lfs
  transfer_lfs-IsAllowed r p =
      let asked = request_token-IsAllowed r p in
      elim (Result-cases (request_token w args operation repo r).1) [
        | inl (e, bad) ↦ rw (bad, transfer_lfs) asked
        | inr (a, good) ↦
            rw (good, transfer_lfs)
              (All-append IsAllowed (request_token w args operation repo r).0 _ asked
                ((refl, r, p), tt))
      ]

  print_token-IsAllowed :
      (r : Response) → IsPermitted r → All IsAllowed (print_token w args operation repo r).0
  unfolding print_token
  print_token-IsAllowed r p =
      let asked = request_token-IsAllowed r p in
      elim (Result-cases ((request_token w args operation repo r).1 >>= payload_of w)) [
        | inl (e, bad) ↦ rw (bad, print_token) asked
        | inr (payload, good) ↦
            rw (good, print_token)
              (All-append IsAllowed (request_token w args operation repo r).0 _ asked ((r, p), tt))
      ]

  behind_access-IsAllowed :
      (next : Response → List Effect × Option Error)
      → ((r : Response) → IsPermitted r → All IsAllowed (next r).0)
      → All IsAllowed (behind_access w next args repo operation).0
  unfolding behind_access
  behind_access-IsAllowed next h = elim (Result-cases (action_from_operation operation)) [
    | inl (e, bad) ↦ rw (bad, behind_access) tt
    | inr (action, known) ↦
        let needs = action-Needs operation action known in
        let v = verify w.access args action repo in
        let (allowed, _, granted) = verify-IsGranted w.access args action repo in
        let asked = checked-IsAllowed action needs v.0 allowed in
        elim (Result-cases v.1) [
          | inl (e, bad) ↦ rw (known, bad, behind_access) asked
          | inr (r, good) ↦
              rw (known, good, behind_access)
                (All-append IsAllowed (map checked v.0) (next r).0 asked
                  (h r (action, needs, granted r good)))
        ]
  ]

-- A download of LFS objects needs the right to fetch from the repository that the command names,
-- and an upload the right to push to it: git-lfs-transfer asks for a token and makes a transfer,
-- and git-lfs-authenticate asks for a token and prints it, only behind an answer of the internal
-- API that grants that right to the caller. The token is asked for where the answer says.
pub lfs-IsAllowed :
    (w : World) (args : Shell) (name repo operation : Bytes) (rest : List Bytes)
    → All
        (IsAllowed w args repo operation)
        (execute_transfer w args (name ∷ repo ∷ operation ∷ [])).0
      × All
          (IsAllowed w args repo operation)
          (execute_authenticate w args (name ∷ repo ∷ operation ∷ rest)).0
unfolding execute_transfer execute_authenticate
lfs-IsAllowed w args name repo operation rest = (
  behind_access-IsAllowed w args repo operation (transfer_lfs w args operation repo)
      (transfer_lfs-IsAllowed w args repo operation),
  behind_access-IsAllowed w args repo operation (print_token w args operation repo)
      (print_token-IsAllowed w args repo operation),
)

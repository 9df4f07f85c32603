-- ===== src/Lfs/Tokens.antt =====
-- Which transfers the arguments of a batch authorise.
use gitlab_shell.Prelude.{
  if◌then◌else◌, Bool-cases, Option-cases, All, Bytes, eqb, eqb_iff, eqb_refl, is_empty, ◌≡◌, refl,
  sym, ap, ◌∙◌, ◌↔◌, inl, inr, false, Option, none, some, List, [], ◌∷◌,
}
use gitlab_shell.Errors.{>>=-eq-ok, ok, ok-injective}
use gitlab_shell.Lfs.{
  issue_batch_args, issue_batch_args, IdData, TransferArgs, Services, check_id, check_token,
  parse_and_check_batch_args,
}

-- The value of a map under a key.
unfoldable pub find_header : Bytes → List (Bytes × Bytes) → Option Bytes
unfolding eqb
find_header key [] = none
find_header key ((name, value) ∷ rest) =
    let later = find_header key rest in if eqb name key then some value else later

-- Two lists of entries that are the same map.
abbrev pub SameMap : List (Bytes × Bytes) → List (Bytes × Bytes) → Type 0
SameMap xs ys = (key : Bytes) → find_header key xs ≡ find_header key ys

-- A document all of whose texts are ones that JSON keeps.
abbrev pub IsTextual : (Bytes → Type 0) → IdData → Type 0
IsTextual IsText d =
    IsText d.operation
    × IsText d.oid
    × IsText d.href
    × All (λ entry. IsText entry.0 × IsText entry.1) d.headers

-- What encoding/base64 and encoding/json promise, where `IsText` is being valid UTF-8, which
-- encoding/json keeps as it is. Bytes are decoded to the same; a document of such texts is decoded
-- to the same texts and the same map, in whatever order of its entries; and the encoding of bytes is
-- not empty, and neither is a document or a MAC.
pub record IsCodec (w : Services) (IsText : Bytes → Type 0) : Type 0 where
  pub base64 : (b : Bytes) → w.decode_base64 (w.encode_base64 b) ≡ some b
  pub some_base64 : (b : Bytes) → is_empty b ≡ false → is_empty (w.encode_base64 b) ≡ false
  pub json :
      (d : IdData) (b : Bytes)
      → IsTextual IsText d
      → w.marshal d ≡ ok b
      → (headers : List (Bytes × Bytes)) × SameMap headers d.headers
        × (w.unmarshal b ≡ some (record d { headers = headers }))
  pub some_json : (d : IdData) (b : Bytes) → w.marshal d ≡ ok b → is_empty b ≡ false
  pub some_mac : (b : Bytes) → is_empty (w.hmac_sha256 w.secret b) ≡ false

pub some-injective : {A : Type 0} {a b : A} → some a ≡ some b → a ≡ b
some-injective e = cc

module _ (w : Services) where
  -- What the arguments of a transfer must be: a document that names the operation and the object,
  -- with its MAC under the secret.
  pub record IsAuthorised (op oid : Bytes) (args : TransferArgs) (href : Bytes)
      (headers : List (Bytes × Bytes)) : Type 0 where
    pub binary : Bytes
    pub id : w.decode_base64 args.id ≡ some binary
    pub token : w.decode_base64 args.token ≡ some (w.hmac_sha256 w.secret binary)
    pub document :
        w.unmarshal binary
        ≡ some (record { operation = op; oid = oid; href = href; headers = headers })

  check_id-eq-ok :
      (op oid binary href : Bytes) (headers : List (Bytes × Bytes))
      → check_id w op oid binary ≡ ok (href, headers)
      → w.unmarshal binary
        ≡ some (record { operation = op; oid = oid; href = href; headers = headers })
  unfolding check_id
  check_id-eq-ok op oid binary href headers h = elim (Option-cases (w.unmarshal binary)) [
    | inl bad ↦ absurd (cc (rw (bad, check_id) at h))
    | inr (found, good) ↦ elim (Bool-cases (eqb found.operation op)) [
      | inr other ↦ absurd (cc (rw (good, check_id, other) at h))
      | inl same_op ↦ elim (Bool-cases (eqb found.oid oid)) [
        | inr other ↦ absurd (cc (rw (good, check_id, same_op, other) at h))
        | inl same_oid ↦
            let pair : (found.href, found.headers) ≡ (href, headers) =
              ok-injective (rw (good, check_id, same_op, same_oid) at h) in
            let op_path = (eqb_iff found.operation op).0 same_op in
            let oid_path = (eqb_iff found.oid oid).0 same_oid in
            good
            ∙ ap some (rw (← op_path, ← oid_path, ← ap (λ p. p.0) pair, ← ap (λ p. p.1) pair) refl)
      ]
    ]
  ]

  check_id-of :
      (op oid binary : Bytes) (found : IdData)
      → w.unmarshal binary ≡ some found
      → found.operation ≡ op
      → found.oid ≡ oid
      → check_id w op oid binary ≡ ok (found.href, found.headers)
  unfolding check_id
  check_id-of op oid binary found h same_op same_oid =
      rw (h, check_id, ← same_op, ← same_oid, eqb_refl found.operation, eqb_refl found.oid)

  -- Arguments are accepted for an operation on an object exactly when they are not empty and hold
  -- a document that names that operation and that object, with its MAC under the server's secret.
  -- The transfer then goes where the document says.
  pub parse_and_check_batch_args_iff :
      (op oid href : Bytes) (headers : List (Bytes × Bytes)) (args : TransferArgs)
      → (parse_and_check_batch_args w op oid args ≡ ok (href, headers)) ↔ (
          (is_empty args.id ≡ false)
          × (is_empty args.token ≡ false)
          × IsAuthorised op oid args href headers)
  unfolding parse_and_check_batch_args check_token
  parse_and_check_batch_args_iff op oid href headers args = (
    (λ h. elim (Bool-cases (is_empty args.id)) [
      | inl none_given ↦ absurd (cc (rw (none_given, parse_and_check_batch_args) at h))
      | inr id ↦ elim (Bool-cases (is_empty args.token)) [
        | inl none_given ↦ absurd (cc (rw (id, none_given, parse_and_check_batch_args) at h))
        | inr token ↦ (id, token, forward id token h)
      ]
    ]),
    (λ (id, token, a).
        rw
          (
            id,
            token,
            a.id,
            a.token,
            eqb_refl (w.hmac_sha256 w.secret a.binary),
            parse_and_check_batch_args,
            check_token,
          )
          (check_id-of op oid a.binary _ a.document refl refl)),
  )
    where
      forward :
          is_empty args.id ≡ false
          → is_empty args.token ≡ false
          → parse_and_check_batch_args w op oid args ≡ ok (href, headers)
          → IsAuthorised op oid args href headers
      forward id token h = elim (Option-cases (w.decode_base64 args.id)) [
        | inl bad ↦ absurd (cc (rw (id, token, bad, parse_and_check_batch_args) at h))
        | inr (binary, id_bytes) ↦ elim (Option-cases (w.decode_base64 args.token)) [
          | inl bad ↦ absurd (cc (rw (id, token, id_bytes, bad, parse_and_check_batch_args) at h))
          | inr (mac, token_bytes) ↦ elim (Bool-cases (eqb mac (w.hmac_sha256 w.secret binary))) [
            | inr other ↦ absurd (
                cc (
                  rw
                    (
                      id, token, id_bytes, token_bytes, other, check_token,
                      parse_and_check_batch_args,
                    )
                    at h))
            | inl same ↦ record {
              binary = binary;
              id = id_bytes;
              token = token_bytes ∙ ap some ((eqb_iff mac (w.hmac_sha256 w.secret binary)).0 same);
              document = check_id-eq-ok op oid binary href headers (
                  rw
                    (
                      id, token, id_bytes, token_bytes, same, check_token,
                      parse_and_check_batch_args,
                    )
                    at h);
            }
          ]
        ]
      ]

module _ (w : Services) (IsText : Bytes → Type 0) where
  -- What is issued is what is checked.
  issue-IsAuthorised :
      (op oid href : Bytes) (headers : List (Bytes × Bytes)) (args : TransferArgs)
      → IsCodec w IsText
      → IsTextual IsText (record { operation = op; oid = oid; href = href; headers = headers })
      → issue_batch_args w op oid href headers ≡ ok args
      → (is_empty args.id ≡ false)
        × (is_empty args.token ≡ false)
        × (decoded : List (Bytes × Bytes)) × SameMap decoded headers
        × IsAuthorised w op oid args href decoded
  unfolding issue_batch_args
  issue-IsAuthorised op oid href headers args codec textual h =
      let d : IdData = record { operation = op; oid = oid; href = href; headers = headers } in
      let (binary, made, issued) = >>=-eq-ok (w.marshal d) _ h in
      let same = ok-injective issued in
      let (decoded, same_map, found) = codec.json d binary textual made in
      (
        rw (← same) (codec.some_base64 binary (codec.some_json d binary made)),
        rw (← same) (codec.some_base64 (w.hmac_sha256 w.secret binary) (codec.some_mac binary)),
        decoded,
        same_map,
        record {
          binary = binary;
          id = rw (← same) (codec.base64 binary);
          token = rw (← same) (codec.base64 (w.hmac_sha256 w.secret binary));
          document = found;
        },
      )

  -- The arguments that are issued for an operation on an object, with texts that are valid UTF-8,
  -- are good for that operation on that object and for no other, and then give back the address
  -- and the same map of headers.
  pub parse_and_check-issue :
      (op oid href : Bytes) (headers : List (Bytes × Bytes)) (args : TransferArgs)
      → IsCodec w IsText
      → IsTextual IsText (record { operation = op; oid = oid; href = href; headers = headers })
      → issue_batch_args w op oid href headers ≡ ok args
      → (decoded : List (Bytes × Bytes)) × SameMap decoded headers
        × ((op' oid' href' : Bytes) (headers' : List (Bytes × Bytes))
            → (parse_and_check_batch_args w op' oid' args ≡ ok (href', headers'))
              ↔ ((op' ≡ op) × (oid' ≡ oid) × (href' ≡ href) × (headers' ≡ decoded)))
  parse_and_check-issue op oid href headers args codec textual h =
      let (id, token, decoded, same_map, a) =
        issue-IsAuthorised op oid href headers args codec textual h in
      (
        decoded,
        same_map,
        λ op' oid' href' headers'. (
          (λ accepted.
              let (_, _, b) =
                (parse_and_check_batch_args_iff w op' oid' href' headers' args).0 accepted in
              let same_binary = some-injective (sym a.id ∙ b.id) in
              let same =
                some-injective (sym a.document ∙ ap w.unmarshal same_binary ∙ b.document) in
              (
                sym (ap (λ (d : IdData). d.operation) same),
                sym (ap (λ (d : IdData). d.oid) same),
                sym (ap (λ (d : IdData). d.href) same),
                sym (ap (λ (d : IdData). d.headers) same),
              )),
          (λ (same_op, same_oid, same_href, same_headers).
              (parse_and_check_batch_args_iff w op' oid' href' headers' args).1
                (id, token, rw (same_op, same_oid, same_href, same_headers) a)),
        ),
      )

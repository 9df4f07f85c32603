-- ===== src/Lfs/Batch.antt =====
-- What a batch answers, and that the transfers it offers can be made.
use mathlib.Core.Path.{subst}
use gitlab_shell.Prelude.{
  if◌then◌else◌, Bool-cases, Option-cases, All, Bytes, eqb, ◌≡◌, refl, sym, ◌∙◌, inl, inr, Bool,
  true, false, not, Option, none, some, List, [], ◌∷◌, arith,
}
use gitlab_shell.Errors.{ok, ok-injective, >>=-eq-ok}
use gitlab_shell.Lfs.{
  BatchAction, BatchObject, BatchItem, Services, issue_batch_args, parse_and_check_batch_args,
  op_upload, find_action, batch_item, batch_items,
}
use gitlab_shell.Lfs.Tokens.{IsCodec, SameMap, parse_and_check-issue, some-injective}

abbrev pub is_none : Option BatchAction → Bool
is_none none = true
is_none (some a) = false

-- An object whose texts are all valid.
abbrev pub IsTextualAction : (Bytes → Type 0) → BatchAction → Type 0
IsTextualAction IsText action =
    IsText action.href × All (λ entry. IsText entry.0 × IsText entry.1) action.header

abbrev pub IsTextualObject : (Bytes → Type 0) → BatchObject → Type 0
IsTextualObject IsText object =
    IsText object.oid × All (λ entry. IsTextualAction IsText entry.1) object.actions

find_action-All :
    (IsText : Bytes → Type 0) (op : Bytes) (actions : List (Bytes × BatchAction))
    (action : BatchAction)
    → All (λ entry. IsTextualAction IsText entry.1) actions
    → find_action op actions ≡ some action
    → IsTextualAction IsText action
unfolding find_action
find_action-All IsText op [] action h found = absurd (cc found)
find_action-All IsText op ((name, a) ∷ rest) action (h, hs) found =
    elim (Bool-cases (eqb name op)) [
      | inl same ↦
          subst (IsTextualAction IsText) (some-injective (rw (same, find_action) at found)) h
      | inr other ↦ find_action-All IsText op rest action hs (rw (other, find_action) at found)
    ]

module _ (w : Services) (IsText : Bytes → Type 0) where
  -- What an item of a batch is good for.
  pub record IsItem (op : Bytes) (object : BatchObject) (item : BatchItem) : Type 0 where
    pub oid : item.oid ≡ object.oid
    pub size : item.size ≡ object.size
    pub present : item.present ≡ (
        if eqb op op_upload
        then is_none (find_action op object.actions)
        else not (is_none (find_action op object.actions)))
    pub redeem :
        (action : BatchAction)
        → find_action op object.actions ≡ some action
        → (decoded : List (Bytes × Bytes)) × SameMap decoded action.header
          × (parse_and_check_batch_args w op object.oid item.args ≡ ok (action.href, decoded))

  batch_item-IsItem :
      (op : Bytes) (object : BatchObject) (item : BatchItem)
      → IsCodec w IsText
      → IsText op
      → IsTextualObject IsText object
      → batch_item w op object ≡ ok item
      → IsItem op object item
  unfolding batch_item
  batch_item-IsItem op object item codec op_text (oid_text, actions_text) h =
      elim (Option-cases (find_action op object.actions)) [
        | inl missing ↦
            let same = ok-injective (rw (missing, batch_item) at h) in
            record {
              oid = rw (← same) refl;
              size = rw (← same) refl;
              present = rw (← same, missing) (present_of (eqb op op_upload));
              redeem = λ action found. absurd (cc (missing, found));
            }
        | inr (action, found) ↦
            let (args, issued, made) =
              >>=-eq-ok (issue_batch_args w op object.oid action.href action.header) _
                (rw (found, batch_item) at h) in
            let same = ok-injective made in
            record {
              oid = rw (← same) refl;
              size = rw (← same) refl;
              present = rw (← same, found) (absent_of (eqb op op_upload));
              redeem = λ other found'.
                  let same_action = some-injective (sym found ∙ found') in
                  let (href_text, headers_text) =
                    find_action-All IsText op object.actions action actions_text found in
                  let (decoded, same_map, accepted) =
                    parse_and_check-issue w IsText op object.oid action.href action.header args
                      codec (op_text, oid_text, href_text, headers_text) issued in
                  rw (← same_action, ← same)
                    (
                      decoded,
                      same_map,
                      (accepted op object.oid action.href decoded).1 (refl, refl, refl, refl),
                    );
            }
      ]
    where
      present_of : (b : Bool) → b ≡ (if b then true else false)
      present_of b = ground arith

      absent_of : (b : Bool) → not b ≡ (if b then false else true)
      absent_of b = ground arith

  -- The items of an answer, object by object.
  abbrev pub AreItems : Bytes → List BatchObject → List BatchItem → Type 0
  AreItems op [] [] = Unit {0}
  AreItems op (object ∷ objects) (item ∷ items) = IsItem op object item × AreItems op objects items
  AreItems op _ _ = ⊥

  -- A batch that succeeds has an item for each object of the answer, in its order. An item of a
  -- download is present exactly when the server offers the transfer, and an item of an upload when
  -- it does not. The arguments of each offered transfer are accepted for it, and lead to the
  -- address and the map of headers that the server gave. The texts of the answer have to be valid
  -- UTF-8, as what encoding/json decodes is.
  pub batch_items-AreItems :
      (op : Bytes) (objects : List BatchObject) (items : List BatchItem)
      → IsCodec w IsText
      → IsText op
      → All (IsTextualObject IsText) objects
      → batch_items w op objects ≡ ok items
      → AreItems op objects items
  unfolding batch_items
  batch_items-AreItems op [] items codec op_text texts h = rw (← ok-injective h) tt
  batch_items-AreItems op (object ∷ objects) items codec op_text (text, texts) h =
      let (item, one, later) = >>=-eq-ok (batch_item w op object) _ h in
      let (rest, others, made) = >>=-eq-ok (batch_items w op objects) _ later in
      rw (← ok-injective made) (
        batch_item-IsItem op object item codec op_text text one,
        batch_items-AreItems op objects rest codec op_text texts others,
      )

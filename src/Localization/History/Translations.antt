-- ===== src/Localization/History/Translations.antt =====
-- The history of a translation behind its first page. Its rows have the dialogue's id in a column that
-- the cursor looks at before the translation's own.
use voice_verse_ai.Common.{
  ℕ, suc, ◌≡◌, ◌≢◌, refl, sym, subst, ap, String, Bool, true, false, inl, inr, some, none, Option,
  List, [], ◌∷◌, length, last?, ltb, str_eq, eq_iff, All, All-keep, Bool-cases, ok, err, >>=-eq-ok,
  ok-injective,
}
use voice_verse_ai.Common.Dict.{get}
use voice_verse_ai.Common.Sort.{All-sort_by}
use voice_verse_ai.Common.Take.{take, All-take}
use voice_verse_ai.Localization.Types.{Revision, DialogueTranslation, invalid_cursor}
use voice_verse_ai.Localization.Translation.{TranslationRevisionResponse}
use voice_verse_ai.Localization.History.{
  CursorCodec, Page, newest_first, history_where, history_rows, first_column, history_resource_id,
  encode_history_cursor, next_history_cursor, history_response, query_cursor, history_page,
  is_number, is_text, decode_history_cursor,
}
use voice_verse_ai.Localization.History.Cursors.{HasCursor, decode_cursor-encode, not_blank}
use voice_verse_ai.Localization.History.Lists.{HistoryQuery, selection_or_none, translation_history}

module _ {ℓ κ} {A : Type ℓ} (Q : A → Type κ) where
  All-last : (xs : List A) {x : A} → All Q xs → last? xs ≡ some x → Q x
  All-last [] h e = cc e
  All-last (x ∷ []) (h, _) e = subst Q (cc e) h
  All-last (x ∷ y ∷ ys) (_, hs) e = All-last (y ∷ ys) hs e

module _ {ℓ} {P : Type ℓ} (codec : CursorCodec) (columns : List (String × String)) (column : String)
    (named : history_resource_id columns ≡ ok column) where
  -- A next cursor is one of a revision, with the column for its resource.
  next_cursor-of :
      (has_more : Bool) (last : Option (Revision P)) {c : String}
      → next_history_cursor codec columns has_more last ≡ ok (some c)
      → (x : Revision P) × (last ≡ some x) × (encode_history_cursor codec column x ≡ c)
  unfolding next_history_cursor
  next_cursor-of true (some x) e = (x, refl, cc (rw named at e))
  next_cursor-of true none e = cc e
  next_cursor-of false last e = cc e

  pub page-cursor :
      {R : Type 0} (resource_id : String) (query : Option String) (limit : ℕ)
      (revisions : List (Revision P)) (selection : Option String × ℕ) (to_response : Revision P → R)
      {page : Page R} {c : String}
      → All (HasCursor codec column) revisions
      → history_page codec resource_id columns query limit revisions selection to_response ≡ ok page
      → page.next_cursor ≡ some c
      → (x : Revision P) × HasCursor codec column x × (encode_history_cursor codec column x ≡ c)
  unfolding history_page history_response history_rows
  page-cursor {R} resource_id query limit revisions selection to_response {page} has paged there =
      let (cursor, _, h1) = >>=-eq-ok (query_cursor codec resource_id query) _ paged in
      let rows = history_rows cursor limit revisions in
      let (next, nexts, done) =
        >>=-eq-ok
          (next_history_cursor codec columns (ltb limit (length rows)) (last? (take limit rows))) _
          h1 in
      let same : next ≡ page.next_cursor = ap (λ (p : Page R). p.next_cursor) (ok-injective done) in
      let (x, last, e) =
        next_cursor-of (ltb limit (length rows)) (last? (take limit rows))
          (cc (nexts, same, there)) in
      (
        x,
        All-last (HasCursor codec column) (take limit rows)
            (All-take _ limit rows (
              All-take _ (suc limit) _
                (All-sort_by _ newest_first _ (All-keep _ (history_where cursor) revisions has))))
            last,
        e,
      )

-- A cursor of another resource is refused.
decode-other {ℓ} :
    {P : Type ℓ} (codec : CursorCodec) (column resource_id : String) (x : Revision P)
    → HasCursor codec column x
    → column ≢ resource_id
    → query_cursor codec resource_id (some (encode_history_cursor codec column x))
      ≡ err invalid_cursor
unfolding query_cursor decode_history_cursor get is_number is_text
decode-other codec column resource_id x has other =
    elim (Bool-cases (str_eq (encode_history_cursor codec column x) "")) [
      | inl e ↦ absurd (not_blank codec column x has e)
      | inr e ↦ elim (Bool-cases (str_eq column resource_id)) [
        | inl same ↦ absurd (other ((eq_iff column resource_id).0 same))
        | inr differ ↦
            rw (e, query_cursor) (rw (decode_cursor-encode codec column x has, differ) refl)
      ]
    ]

-- The second page of a translation's history is never given: a cursor that a page of it gives is refused
-- as the cursor of another resource, whatever the page size asked for, when the translation's id is not
-- its dialogue's; the codec is as documented on the revisions' cursors. (The cursor carries the dialogue's
-- id, and the list compares it with the translation's.)
pub translation_history-second_page :
    (codec : CursorCodec) (t : DialogueTranslation) (query : HistoryQuery)
    (page : Page TranslationRevisionResponse) (c : String) (limit : ℕ)
    → t.owner.localized_dialogue_id ≢ t.id
    → All (HasCursor codec t.owner.localized_dialogue_id) t.revisions
    → translation_history codec t query ≡ ok page
    → page.next_cursor ≡ some c
    → translation_history codec t (record { cursor = some c; limit = limit }) ≡ err invalid_cursor
unfolding translation_history history_page history_resource_id first_column get
translation_history-second_page codec t query page c limit other has paged there =
    let (x, cursor, e) =
      page-cursor codec
        (("localizedDialogueId", t.owner.localized_dialogue_id)
          ∷ ("dialogueTranslationId", t.id)
          ∷ [])
        t.owner.localized_dialogue_id refl t.id query.cursor query.limit t.revisions
        (selection_or_none t.selection) _ has paged there in
    rw (sym e, decode-other codec t.owner.localized_dialogue_id t.id x cursor other) refl

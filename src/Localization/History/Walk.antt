-- ===== src/Localization/History/Walk.antt =====
-- Reading a whole history by following the cursors of its pages.
use mathlib.Core.List.{
  reverse, reverse-append, reverse-reverse, reverse-cons, append_assoc, append-nil, map-append,
}
use voice_verse_ai.Common.{
  ℕ, zero, suc, ◌-◌, ◌<◌, ◌≤◌, ◌≡◌, refl, sym, ◌∙◌, ap, subst, String, true, false, inl, inr, some,
  none, Option, List, [], ◌∷◌, ◌++◌, map, length, length-append, last?-append, keep, ltb, All,
  All-append_right, All-of, Bool-cases, ltb→lt, Result, ok, err, ◌>>=◌, arith,
}
use voice_verse_ai.Common.Sort.{sort_by}
use voice_verse_ai.Common.Keep.{keep-eq_self}
use voice_verse_ai.Common.Take.{
  take, take-take-suc, take-eq_self, length-take, take-append, split_at,
}
use voice_verse_ai.Localization.Types.{Revision, LocalizationError, invalid_cursor}
use voice_verse_ai.Localization.History.{
  CursorCodec, HistoryCursor, Page, newest_first, history_where, history_rows, history_resource_id,
  encode_history_cursor, next_history_cursor, history_response, query_cursor, history_page,
}
use voice_verse_ai.Localization.History.Cursors.{HasCursor, cursor_of, query_cursor-encode}
use voice_verse_ai.Localization.History.Order.{
  IsIncreasing, sort_by-newest_first, IsIncreasing-left, keep-history_where,
}

module _ {ℓ} {P : Type ℓ} {R : Type 0} (codec : CursorCodec) (resource_id : String)
    (columns : List (String × String)) (limit : ℕ) (revisions : List (Revision P))
    (selection : Option String × ℕ) (to_response : Revision P → R) where
  -- The page behind a cursor.
  abbrev pub page_at : Option String → Result LocalizationError (Page R)
  page_at query = history_page codec resource_id columns query limit revisions selection to_response

  -- A reader that asks for page after page until there is no further cursor, `fuel` pages at most.
  unfoldable pub read_pages : ℕ → Option String → Result LocalizationError (List R)
  read_pages zero query = err invalid_cursor
  read_pages (suc fuel) query = page_at query >>= λ page. elim page.next_cursor [
    | none ↦ ok page.rows
    | some cursor ↦ read_pages fuel (some cursor) >>= λ rest. ok (page.rows ++ rest)
  ]

  abbrev page_of : List (Revision P) → Option String → Page R
  page_of rows cursor = record {
    rows = map to_response rows;
    next_cursor = cursor;
    selected_revision_id = selection.0;
    selection_revision = selection.1;
  }

  rows_behind :
      (cursor : Option HistoryCursor) (older : List (Revision P))
      → keep (history_where cursor) revisions ≡ older
      → IsIncreasing older
      → history_rows cursor limit revisions ≡ take (suc limit) (reverse older)
  unfolding history_rows
  rows_behind cursor older kept increasing =
      ap (λ rs. take (suc limit) (sort_by newest_first rs)) kept
      ∙ ap (take (suc limit)) (sort_by-newest_first older increasing)

  -- The rows fit the page.
  last_page :
      (rows : List (Revision P))
      → length rows ≤ limit
      → history_response codec columns (take (suc limit) rows) limit selection to_response
        ≡ ok (page_of rows none)
  unfolding history_response next_history_cursor
  last_page rows fits =
      let all : take (suc limit) rows ≡ rows = take-eq_self (suc limit) rows (omega arith) in
      let page : take limit rows ≡ rows = take-eq_self limit rows fits in
      let more : ltb limit (length rows) ≡ false = ground arith in rw (all, page, more) refl

  -- They do not: the page ends with `x`, and its cursor is of `x`.
  full_page :
      (front : List (Revision P)) (x : Revision P) (back : List (Revision P))
      → suc (length front) ≡ limit
      → limit < length (front ++ x ∷ back)
      → history_resource_id columns ≡ ok resource_id
      → history_response codec columns
          (take (suc limit) (front ++ x ∷ back))
          limit
          selection
          to_response
        ≡ ok (page_of (front ++ x ∷ []) (some (encode_history_cursor codec resource_id x)))
  unfolding history_response next_history_cursor
  full_page front x back full more named =
      let rows = front ++ x ∷ back in
      let whole : rows ≡ (front ++ x ∷ []) ++ back = sym (append_assoc front (x ∷ []) back) in
      let long : length (front ++ x ∷ []) ≡ limit =
        length-append front (x ∷ []) ∙ omega (arith, full) in
      let page : take limit (take (suc limit) rows) ≡ front ++ x ∷ [] =
        take-take-suc limit rows
        ∙ ap (take limit) whole
        ∙ subst (λ n. take n ((front ++ x ∷ []) ++ back) ≡ front ++ x ∷ []) long
            (take-append (front ++ x ∷ []) back) in
      let over : ltb limit (length (take (suc limit) rows)) ≡ true =
        rw (length-take (suc limit) rows (omega (arith, more))) (ground arith) in
      rw (over, page, last?-append front x, named) refl

  module _ (positive : 0 < limit) (named : history_resource_id columns ≡ ok resource_id)
      (increasing : IsIncreasing revisions)
      (cursors : All (HasCursor codec resource_id) revisions) where
    rows_kept :
        (older newer : List (Revision P)) (cursor : Option HistoryCursor)
        → revisions ≡ older ++ newer
        → keep (history_where cursor) revisions ≡ older
        → history_rows cursor limit revisions ≡ take (suc limit) (reverse older)
    rows_kept older newer cursor whole kept =
        rows_behind cursor older kept
          (IsIncreasing-left older newer (subst IsIncreasing whole increasing))

    -- The revisions around the last one of a full page.
    cut_at :
        (older newer front : List (Revision P)) (x : Revision P) (back : List (Revision P))
        → revisions ≡ older ++ newer
        → reverse older ≡ front ++ x ∷ back
        → revisions ≡ reverse back ++ x ∷ (reverse front ++ newer)
    cut_at older newer front x back whole e =
        let turned : older ≡ (reverse back ++ x ∷ []) ++ reverse front =
          sym (reverse-reverse older)
          ∙ ap reverse e
          ∙ reverse-append front (x ∷ back)
          ∙ ap (λ ys. ys ++ reverse front) (reverse-cons x back) in
        whole
        ∙ ap (λ ys. ys ++ newer) turned
        ∙ append_assoc (reverse back ++ x ∷ []) (reverse front) newer
        ∙ append_assoc (reverse back) (x ∷ []) (reverse front ++ newer)

    has_cursor :
        (older : List (Revision P)) (x : Revision P) (newer : List (Revision P))
        → revisions ≡ older ++ x ∷ newer
        → HasCursor codec resource_id x
    has_cursor older x newer cut =
        (All-append_right (HasCursor codec resource_id) older (x ∷ newer)
          (subst (All (HasCursor codec resource_id)) cut cursors)).0

    kept_behind :
        (older : List (Revision P)) (x : Revision P) (newer : List (Revision P))
        → revisions ≡ older ++ x ∷ newer
        → keep (history_where (some (cursor_of x))) revisions ≡ older
    kept_behind older x newer cut =
        ap (keep (history_where (some (cursor_of x)))) cut
        ∙ keep-history_where older x newer (subst IsIncreasing cut increasing)

    full_then :
        (fuel : ℕ) (older newer : List (Revision P)) (query : Option String)
        (cursor : Option HistoryCursor) (front : List (Revision P)) (x : Revision P)
        (back : List (Revision P))
        → revisions ≡ older ++ newer
        → query_cursor codec resource_id query ≡ ok cursor
        → keep (history_where cursor) revisions ≡ older
        → reverse older ≡ front ++ x ∷ back
        → suc (length front) ≡ limit
        → limit < length (front ++ x ∷ back)
        → read_pages fuel (some (encode_history_cursor codec resource_id x))
          ≡ ok (map to_response (reverse (reverse back)))
        → read_pages (suc fuel) query ≡ ok (map to_response (reverse older))
    unfolding read_pages history_page
    full_then fuel older newer query cursor front x back whole asks kept e full long rest =
        rw
          (
            asks,
            rows_kept older newer cursor whole kept,
            e,
            full_page front x back full long named,
            rest,
            reverse-reverse back,
          )
          (ap ok (
            sym (map-append to_response (front ++ x ∷ []) back)
            ∙ ap (map to_response) (append_assoc front (x ∷ []) back)))

    -- The pages behind a cursor that leaves the `older` revisions.
    pages_behind :
        (fuel : ℕ) (older newer : List (Revision P)) (query : Option String)
        (cursor : Option HistoryCursor)
        → revisions ≡ older ++ newer
        → query_cursor codec resource_id query ≡ ok cursor
        → keep (history_where cursor) revisions ≡ older
        → length (reverse older) < fuel
        → read_pages fuel query ≡ ok (map to_response (reverse older))
    unfolding read_pages history_page
    pages_behind zero older newer query cursor whole asks kept enough =
        absurd (omega (arith, enough))
    pages_behind (suc fuel) older newer query cursor whole asks kept enough =
        elim (Bool-cases (ltb limit (length (reverse older)))) [
          | inr fits ↦
              rw
                (
                  asks,
                  rows_kept older newer cursor whole kept,
                  last_page (reverse older) (ground arith),
                )
                refl
          | inl over ↦
              (let (front, x, back, e, size) =
                  split_at (limit - 1) (reverse older) (ground arith) in
                let full : suc (length front) ≡ limit = omega (arith, size, positive) in
                let long : limit < length (front ++ x ∷ back) =
                  subst (λ ys. limit < length ys) e (ltb→lt limit (length (reverse older)) over) in
                let cut = cut_at older newer front x back whole e in
                full_then fuel older newer query cursor front x back whole asks kept e full long (
                  pages_behind fuel (reverse back) (x ∷ (reverse front ++ newer))
                    (some (encode_history_cursor codec resource_id x)) (some (cursor_of x)) cut
                    (query_cursor-encode codec resource_id x (has_cursor _ x _ cut))
                    (kept_behind _ x _ cut) (shorter front x back e)))
        ]
      where
        shorter :
            (front : List (Revision P)) (x : Revision P) (back : List (Revision P))
            → reverse older ≡ front ++ x ∷ back
            → length (reverse (reverse back)) < fuel
        shorter front x back e =
            rw (reverse-reverse back)
              (omega (arith, ap length e, length-append front (x ∷ back), enough))

length-reverse {ℓ} : {A : Type ℓ} (xs : List A) → length (reverse xs) ≡ length xs
length-reverse [] = refl
length-reverse (x ∷ xs) =
    ap length (reverse-cons x xs)
    ∙ length-append (reverse xs) (x ∷ [])
    ∙ omega (arith, length-reverse xs)

-- Every revision, once, newest first: a reader who asks for a history page by page, each time with the
-- cursor of the page before, is given all revisions in the order opposite to the one in which they were
-- added, and is done after no more pages than there are revisions, plus one; this for any positive page
-- size. It holds for revisions whose numbers increase, whose ids and numbers a cursor may have, and whose
-- cursors the codec reads back, and where the column that the cursor takes for the resource's id is that
-- id.
pub read_pages-all {ℓ} :
    {P : Type ℓ} {R : Type 0} (codec : CursorCodec) (resource_id : String)
    (columns : List (String × String)) (limit : ℕ) (revisions : List (Revision P))
    (selection : Option String × ℕ) (to_response : Revision P → R)
    → 0 < limit
    → history_resource_id columns ≡ ok resource_id
    → IsIncreasing revisions
    → All (HasCursor codec resource_id) revisions
    → read_pages codec resource_id columns limit revisions selection to_response
        (suc (length revisions))
        none
      ≡ ok (map to_response (reverse revisions))
unfolding query_cursor history_where
read_pages-all codec resource_id columns limit revisions selection to_response positive named
      increasing cursors =
    pages_behind codec resource_id columns limit revisions selection to_response positive named
      increasing cursors (suc (length revisions)) revisions [] none none
      (sym (append-nil revisions)) refl
      (keep-eq_self (history_where none) revisions (All-of revisions (λ _. refl)))
      (omega (arith, length-reverse revisions))

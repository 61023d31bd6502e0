-- ===== src/Localization/Settled.antt =====
-- A reviewed translation and the active source that it was made from.
use text.Mathlib.TextPositions.{eq_refl}
use voice_verse_ai.Common.{
  ℕ, ◌≡◌, ◌≢◌, refl, sym, subst, ◌∙◌, String, Bool, true, false, inl, inr, some, List, ◌++◌, ◌∷◌,
  [], eq_iff, if◌then◌else◌, Option-cases, arith,
}
use voice_verse_ai.Ingest.Tables.{find, update}
use voice_verse_ai.Ingest.Rows.{find-passes}
use voice_verse_ai.Localization.Types.{
  Scope, same_scope, Revision, Selection, Resource, LocalizedDialogue, DialogueTranslation,
  TranslationContent, TranslationEditorState, draft,
}
use voice_verse_ai.Localization.Versions.{is_owned, has_revision_id, is_hit, reselect}
use voice_verse_ai.Localization.Keyed.{find-append_left, find-update_any, if-cases}
use voice_verse_ai.Localization.Source.{is_translation_of, reopen}
use voice_verse_ai.Localization.Review.{active_source_id}

pub same_scope_refl : (a : Scope) → same_scope a a ≡ true
unfolding same_scope
same_scope_refl a =
    ground (arith, eq_refl a.organization_id, eq_refl a.project_id, eq_refl a.workspace_id)

pub same_scope-eq : (a b : Scope) → same_scope a b ≡ true → a ≡ b
unfolding same_scope
same_scope-eq a b h =
    let o : a.organization_id ≡ b.organization_id =
      ground (arith, eq_iff a.organization_id b.organization_id) in
    let p : a.project_id ≡ b.project_id = ground (arith, eq_iff a.project_id b.project_id) in
    let w : a.workspace_id ≡ b.workspace_id =
      ground (arith, eq_iff a.workspace_id b.workspace_id) in
    λ i. record { organization_id = o i; project_id = p i; workspace_id = w i }

module _ {ℓ κ μ} {K : Type ℓ} {P : Type κ} {X : Type μ} where
  pub is_owned-eq :
      (id : String) (scope : Scope) (row : Resource K P X)
      → is_owned id scope row ≡ true
      → (row.id ≡ id) × (row.scope ≡ scope)
  unfolding is_owned
  is_owned-eq id scope row h =
      (ground (arith, eq_iff row.id id), same_scope-eq row.scope scope (ground arith))

  -- The state of a new selection is the one it was given.
  pub reselect-state :
      (user_id revision_id : String) (state : X) (row : Resource K P X) {s : Selection X}
      → (reselect user_id revision_id state row).selection ≡ some s
      → s.state ≡ state
  unfolding reselect
  reselect-state user_id revision_id state row {s} h = elim (Option-cases row.selection) [
    | inl e ↦ cc (rw e at h)
    | inr (_, e) ↦ cc (rw e at h)
  ]

-- The translation is of the active source of its dialogue.
abbrev pub IsOfActiveSource :
    List LocalizedDialogue → DialogueTranslation → Selection TranslationEditorState → Type 0
IsOfActiveSource dialogues t s =
    (d : LocalizedDialogue) × (r : Revision TranslationContent) × (find
        (is_owned t.owner.localized_dialogue_id t.scope) dialogues
      ≡ some d)
    × (find (has_revision_id s.selected_revision_id) t.revisions ≡ some r)
    × (active_source_id d ≡ some r.content.source_dialogue_revision_id)

-- A translation in review or approved is of the active source.
abbrev pub IsSettled : List LocalizedDialogue → DialogueTranslation → Type 0
IsSettled dialogues t =
    (s : Selection TranslationEditorState)
    → t.selection ≡ some s
    → s.state ≢ draft
    → IsOfActiveSource dialogues t s

pub reopen-IsSettled :
    (dialogues : List LocalizedDialogue) (user_id : String) (t : DialogueTranslation)
    → IsSettled dialogues (reopen user_id t)
unfolding reopen
reopen-IsSettled dialogues user_id t s e reviewed = elim (Option-cases t.selection) [
  | inl o ↦ cc (rw o at e)
  | inr (_, o) ↦ absurd (reviewed (cc (rw o at e)))
]

-- The dialogues change, but not the active source of this translation's.
pub IsSettled-dialogues :
    (dialogues dialogues' : List LocalizedDialogue) (t : DialogueTranslation)
    → ((d : LocalizedDialogue)
        → find (is_owned t.owner.localized_dialogue_id t.scope) dialogues ≡ some d
        → (d' : LocalizedDialogue) × (find
              (is_owned t.owner.localized_dialogue_id t.scope)
              dialogues'
            ≡ some d')
          × (active_source_id d' ≡ active_source_id d))
    → IsSettled dialogues t
    → IsSettled dialogues' t
IsSettled-dialogues dialogues dialogues' t kept settled s e reviewed =
    let (d, r, found, selected, same) = settled s e reviewed in
    let (d', found', same') = kept d found in (d', r, found', selected, same' ∙ same)

pub IsSettled-append :
    (dialogues more : List LocalizedDialogue) (t : DialogueTranslation)
    → IsSettled dialogues t
    → IsSettled (dialogues ++ more) t
IsSettled-append dialogues more t =
    IsSettled-dialogues dialogues (dialogues ++ more) t
      (λ d found. (d, find-append_left _ dialogues more found, refl))

-- A revision that is only added is not active.
pub IsSettled-added :
    (q : LocalizedDialogue → Bool) (added : Revision String) (dialogues : List LocalizedDialogue)
    (t : DialogueTranslation)
    → IsSettled dialogues t
    → IsSettled (update q (λ d. record d { revisions = d.revisions ++ added ∷ [] }) dialogues) t
unfolding is_owned active_source_id
IsSettled-added q added dialogues t =
    let f : LocalizedDialogue → LocalizedDialogue =
      λ d. record d { revisions = d.revisions ++ added ∷ [] } in
    IsSettled-dialogues dialogues (update q f dialogues) t (λ d found. (
      if q d then f d else d,
      find-update_any _ q f (λ _. refl) dialogues found,
      if-cases (λ x. active_source_id x ≡ active_source_id d) (q d) (f d) d (λ _. refl) (λ _. refl),
    ))

-- Another dialogue's selection changes.
pub IsSettled-other :
    (scope : Scope) (dialogue_id : String) (expected : ℕ)
    (f : LocalizedDialogue → LocalizedDialogue)
    → ((a : LocalizedDialogue) (id : String) (s : Scope) → is_owned id s (f a) ≡ is_owned id s a)
    → (dialogues : List LocalizedDialogue) (t : DialogueTranslation)
    → is_translation_of scope dialogue_id t ≡ false
    → IsSettled dialogues t
    → IsSettled (update (is_hit (is_owned dialogue_id scope) expected) f dialogues) t
unfolding is_hit is_translation_of
IsSettled-other scope dialogue_id expected f keeps dialogues t other =
    IsSettled-dialogues dialogues
      (update (is_hit (is_owned dialogue_id scope) expected) f dialogues) t
      (λ d found. (
        if is_hit (is_owned dialogue_id scope) expected d then f d else d,
        find-update_any _ _ f (λ a. keeps a _ _) dialogues found,
        if-cases (λ x. active_source_id x ≡ active_source_id d) _ (f d) d
            (λ hit. absurd (clash d (find-passes _ dialogues found) (owned d hit))) (λ _. refl),
      ))
  where
    owned :
        (d : LocalizedDialogue)
        → is_hit (is_owned dialogue_id scope) expected d ≡ true
        → is_owned dialogue_id scope d ≡ true
    owned d hit = ground arith

    clash :
        (d : LocalizedDialogue)
        → is_owned t.owner.localized_dialogue_id t.scope d ≡ true
        → is_owned dialogue_id scope d ≡ true
        → ⊥
    clash d mine theirs =
        let (a, b) = is_owned-eq _ _ d mine in
        let (a', b') = is_owned-eq _ _ d theirs in
        ground (
          arith,
          eq_iff t.owner.localized_dialogue_id dialogue_id,
          subst (λ x. same_scope x scope ≡ true) (sym b' ∙ b) (same_scope_refl scope),
          a,
          a',
        )

-- ===== src/Timeline/Assign/Sweep.antt =====
-- `TurnAssignmentCursor` against a search through all turns: as long as the units ascend, the
-- sweep's answer is the one that all turns together give.
use mathlib.Core.List.{foldl, head?}
use voice_verse_ai.Common.{
  ℕ, ◌≤◌, ◌<◌, ◌≡◌, ◌∙◌, sym, ap, Bool, true, false, ◌&&◌, ◌||◌, Option, none, List, [], ◌∷◌, leb,
  ltb, All, All-map, All-of, All-keep, keep, arith,
}
use voice_verse_ai.Common.Keep.{keep-eq-nil, keep-eq_self, keep-keep, keep-ext}
use voice_verse_ai.Timeline.Types.{SpeakerTurn, UnitAssignment}
use voice_verse_ai.Timeline.Assign.{
  AssignmentCursor, new_assignment_cursor, admit, later_ended, best_overlap, nearest, conclude,
  advance,
}
use voice_verse_ai.Timeline.Assign.Retire.{
  StartOrdered, admit_lem, retire_lem, keep_split, latest_both,
}

-- A turn that starts before `end`, and one that starts from there on.
abbrev pub starts_before : ℕ → SpeakerTurn → Bool
starts_before end t = ltb t.start_time_us end

abbrev pub starts_from : ℕ → SpeakerTurn → Bool
starts_from end t = leb end t.start_time_us

-- A turn that goes on after `start`, and one that ended by then.
abbrev pub ends_after : ℕ → SpeakerTurn → Bool
ends_after start t = ltb start t.end_time_us

abbrev pub ends_by : ℕ → SpeakerTurn → Bool
ends_by start t = leb t.end_time_us start

-- The turn that ended last by `start`; among equals the first.
unfoldable pub last_ended : ℕ → List SpeakerTurn → Option SpeakerTurn
unfolding later_ended
last_ended start turns = foldl later_ended none (keep (ends_by start) turns)

-- The assignment, from all turns and with no state.
unfoldable pub assign_among : ℕ → List SpeakerTurn → ℕ → ℕ → UnitAssignment
unfolding best_overlap nearest conclude last_ended
assign_among tolerance turns start end =
    conclude start end (best_overlap start end turns)
      (nearest tolerance start end (last_ended start turns) (head? (keep (starts_from end) turns)))

abbrev pub NonEmpty : List SpeakerTurn → Type 0
NonEmpty = All (λ t. t.start_time_us < t.end_time_us)

-- The cursor after a unit from `start` to `end`.
pub record Follows (start end : ℕ) (turns : List SpeakerTurn) (cursor : AssignmentCursor)
    : Type 0 where
  pub active_are : cursor.active ≡ keep (λ t. starts_before end t && ends_after start t) turns
  pub pending_are : cursor.pending ≡ keep (starts_from end) turns
  pub latest_is :
      cursor.latest_ended
      ≡ foldl later_ended none (keep (λ t. starts_before end t && ends_by start t) turns)

pub new_assignment_cursor-Follows :
    (turns : List SpeakerTurn) → Follows 0 0 turns (new_assignment_cursor turns)
unfolding new_assignment_cursor
new_assignment_cursor-Follows turns = record {
  active_are = sym (keep-eq-nil _ turns (All-of turns (λ t. ground arith)));
  pending_are = sym (keep-eq_self _ turns (All-of turns (λ t. ground arith)));
  latest_is = rw (
      keep-eq-nil (λ t. starts_before 0 t && ends_by 0 t) turns (All-of turns (λ t. ground arith)));
}

pub StartOrdered-keep :
    (p : SpeakerTurn → Bool) (ts : List SpeakerTurn) → StartOrdered ts → StartOrdered (keep p ts)
StartOrdered-keep p [] o = tt
StartOrdered-keep p (t ∷ ts) (a, o) =
    elim (p t) as (λ b. StartOrdered (elim b [ true ↦ t ∷ keep p ts | false ↦ keep p ts ])) [
      | true ↦ (All-keep _ p ts a, StartOrdered-keep p ts o)
      | false ↦ StartOrdered-keep p ts o
    ]

module _ (low_start low_end start end : ℕ) (turns : List SpeakerTurn) (cursor : AssignmentCursor)
    (ordered : StartOrdered turns) (non_empty : NonEmpty turns)
    (follows : Follows low_start low_end turns cursor) (start_ascends : low_start ≤ start)
    (end_ascends : low_end ≤ end) (low : low_start ≤ low_end) where
  abbrev is_admitted : SpeakerTurn → Bool
  is_admitted t =
      (starts_before low_end t && ends_after low_start t)
      || (starts_from low_end t && starts_before end t)

  admitted_active : (admit end cursor.active cursor.pending).0 ≡ keep is_admitted turns
  admitted_active =
      rw (follows.active_are, follows.pending_are)
        (rw (admit_lem end _ (keep (starts_from low_end) turns) (StartOrdered-keep _ turns ordered))
          (rw (keep-keep (starts_before end) (starts_from low_end) turns)
            (keep_split low_end _ _ turns ordered (λ t h. ground arith) (λ t h. ground arith))))

  admitted_pending : (admit end cursor.active cursor.pending).1 ≡ keep (starts_from end) turns
  admitted_pending =
      rw (follows.active_are, follows.pending_are)
        (rw (admit_lem end _ (keep (starts_from low_end) turns) (StartOrdered-keep _ turns ordered))
          (keep-keep (starts_from end) (starts_from low_end) turns
            ∙ keep-ext _ _ turns (All-of turns (λ t. ground arith))))

  advance_active :
      (advance start end cursor).active
      ≡ keep (λ t. starts_before end t && ends_after start t) turns
  unfolding advance
  advance_active =
      ap (λ p. p.0)
        (retire_lem start (admit end cursor.active cursor.pending).0 cursor.latest_ended)
      ∙ ap (keep (ends_after start)) admitted_active
      ∙ keep-keep (ends_after start) is_admitted turns
      ∙ keep-ext _ _ turns (All-of turns (λ t. ground arith))

  -- The turns that the unit retires: those that had not ended when the last unit started.
  abbrev is_retired : SpeakerTurn → Bool
  is_retired t = ends_after low_start t && starts_before end t && ends_by start t

  retired_turns : keep (ends_by start) (keep is_admitted turns) ≡ keep is_retired turns
  retired_turns =
      keep-keep (ends_by start) is_admitted turns
      ∙ keep-ext _ _ turns (All-map (λ t h. ground arith) turns non_empty)

  advance_latest :
      (advance start end cursor).latest_ended
      ≡ foldl later_ended none (keep (λ t. starts_before end t && ends_by start t) turns)
  unfolding advance
  advance_latest =
      ap (λ p. p.1)
        (retire_lem start (admit end cursor.active cursor.pending).0 cursor.latest_ended)
      ∙ rw (admitted_active, retired_turns, follows.latest_is)
          (latest_both low_start (λ t. starts_before low_end t && ends_by low_start t) is_retired
            (λ t. starts_before end t && ends_by start t) (λ t h. ground arith)
            (λ t h. ground arith) turns (All-map (λ t h. ground arith) turns non_empty))

  advance_pending : (advance start end cursor).pending ≡ keep (starts_from end) turns
  unfolding advance
  advance_pending = admitted_pending

  pub advance-Follows : Follows start end turns (advance start end cursor)
  advance-Follows = record {
    active_are = advance_active;
    pending_are = advance_pending;
    latest_is = advance_latest;
  }

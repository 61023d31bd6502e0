-- ===== src/Timeline/Assign/Nearest.antt =====
-- `latestEnded`, the first turn to come, and the nearer of the two.
use mathlib.Core.List.{head?, foldl, Mem}
use voice_verse_ai.Common.{
  ℕ, ◌+◌, ◌-◌, ◌≤◌, ◌<◌, ◌≡◌, refl, true, false, Option, none, some, List, [], ◌∷◌, ltb, All,
  All-mem, keep, ◌⊎◌, subst, arith, Bool-cases, inl, inr, leb→le,
}
use voice_verse_ai.Common.Keep.{All-of_keep, All-keep_passed, All-of_keep-eq-nil}
use voice_verse_ai.Timeline.Types.{SpeakerTurn}
use voice_verse_ai.Timeline.Assign.{Near, nearest, later_ended}
use voice_verse_ai.Timeline.Assign.Retire.{StartOrdered}
use voice_verse_ai.Timeline.Assign.Sweep.{last_ended, starts_from, ends_by, StartOrdered-keep}

-- How far the unit is from an ended turn or one to come.
abbrev pub gap_after : ℕ → Option SpeakerTurn → ℕ → ℕ
gap_after start none default = default
gap_after start (some t) default = start - t.end_time_us

abbrev pub gap_before : ℕ → Option SpeakerTurn → ℕ → ℕ
gap_before end none default = default
gap_before end (some t) default = t.start_time_us - end

abbrev pub EndedBy : ℕ → Option SpeakerTurn → Type 0
EndedBy start none = Unit
EndedBy start (some t) = t.end_time_us ≤ start

abbrev pub ComesFrom : ℕ → Option SpeakerTurn → Type 0
ComesFrom end none = Unit
ComesFrom end (some t) = end ≤ t.start_time_us

module _ (tolerance start end : ℕ) where
  pub nearest_gap :
      (latest next : Option SpeakerTurn) (n : Near)
      → EndedBy start latest
      → ComesFrom end next
      → nearest tolerance start end latest next ≡ some n
      → (n.gap ≤ tolerance)
        × (n.gap ≤ gap_after start latest tolerance)
        × (n.gap ≤ gap_before end next tolerance)
  unfolding nearest
  nearest_gap none none n l u e = cc e
  nearest_gap none (some u) n l b e = ground arith
  nearest_gap (some t) none n l b e = ground arith
  nearest_gap (some t) (some u) n l b e = ground arith

  pub nearest-none :
      (latest next : Option SpeakerTurn)
      → EndedBy start latest
      → ComesFrom end next
      → nearest tolerance start end latest next ≡ none
      → (tolerance < gap_after start latest (tolerance + 1))
        × (tolerance < gap_before end next (tolerance + 1))
  unfolding nearest
  nearest-none none none l u e = ground arith
  nearest-none none (some u) l b e = ground arith
  nearest-none (some t) none l b e = ground arith
  nearest-none (some t) (some u) l b e = ground arith

-- The turn that `later_ended` keeps ends last.
foldl-later_ended :
    (ts : List SpeakerTurn) (seen : SpeakerTurn)
    → (l : SpeakerTurn) × (foldl later_ended (some seen) ts ≡ some l)
      × (seen.end_time_us ≤ l.end_time_us)
      × All (λ t. t.end_time_us ≤ l.end_time_us) ts
unfolding later_ended
foldl-later_ended [] seen = (seen, refl, omega arith, tt)
foldl-later_ended (t ∷ ts) seen = elim (Bool-cases (ltb seen.end_time_us t.end_time_us)) [
  | inl e ↦
      let (l, is, le, all) = foldl-later_ended ts t in
      (l, ground arith, ground arith, (omega arith, all))
  | inr e ↦
      let (l, is, le, all) = foldl-later_ended ts seen in
      (l, ground arith, omega arith, (ground arith, all))
]

later_ended-All {κ} :
    (P : SpeakerTurn → Type κ) (ts : List SpeakerTurn) (seen : SpeakerTurn) {l : SpeakerTurn}
    → P seen
    → All P ts
    → foldl later_ended (some seen) ts ≡ some l
    → P l
unfolding later_ended
later_ended-All P [] seen {l} p ps e = let q : seen ≡ l = cc e in subst P q p
later_ended-All P (t ∷ ts) seen p (q, ps) e =
    elim (Bool-cases (ltb seen.end_time_us t.end_time_us)) [
      | inl h ↦ later_ended-All P ts t q ps (ground arith)
      | inr h ↦ later_ended-All P ts seen p ps (ground arith)
    ]

module _ (turns : List SpeakerTurn) where
  -- What `latestEnded` names: no turn had ended, or the one of those that ended last.
  abbrev pub EndedLast : ℕ → SpeakerTurn → Type 0
  EndedLast start l =
      (l.end_time_us ≤ start)
      × Mem l turns
      × All (λ t. (ends_by start t ≡ false) ⊎ (t.end_time_us ≤ l.end_time_us)) turns

  pub last_ended_cases :
      (start : ℕ)
      → ((last_ended start turns ≡ none) × All (λ t. ends_by start t ≡ false) turns)
        ⊎ ((l : SpeakerTurn) × (last_ended start turns ≡ some l) × EndedLast start l)
  unfolding last_ended
  last_ended_cases start = go (keep (ends_by start) turns) refl
    where
      go :
          (ts : List SpeakerTurn)
          → keep (ends_by start) turns ≡ ts
          → ((foldl later_ended none (keep (ends_by start) turns) ≡ none)
              × All (λ t. ends_by start t ≡ false) turns)
            ⊎ ((l : SpeakerTurn) × (foldl later_ended none (keep (ends_by start) turns) ≡ some l)
                × EndedLast start l)
      go [] e = inl (rw e, All-of_keep-eq-nil (ends_by start) turns e)
      go (t ∷ ts) e =
          let (l, is, first, all) = foldl-later_ended ts t in
          let (passed, others) =
            subst (All (λ u. (ends_by start u ≡ true) × Mem u turns)) e
              (All-keep_passed (λ u. Mem u turns) (ends_by start) turns (All-mem turns)) in
          let (ended, listed) =
            later_ended-All (λ u. (ends_by start u ≡ true) × Mem u turns) ts t passed others is in
          inr (
            l,
            rw e is,
            (
              leb→le _ _ ended,
              listed,
              All-of_keep (λ u. u.end_time_us ≤ l.end_time_us) (ends_by start) turns
                  (rw e (first, all)),
            ),
          )

  -- The first turn to come: none does, or the one that starts first.
  abbrev pub ComesFirst : ℕ → SpeakerTurn → Type 0
  ComesFirst end u =
      (end ≤ u.start_time_us)
      × Mem u turns
      × All (λ t. (starts_from end t ≡ false) ⊎ (u.start_time_us ≤ t.start_time_us)) turns

  pub first_to_come_cases :
      (end : ℕ)
      → StartOrdered turns
      → ((head? (keep (starts_from end) turns) ≡ none) × All (λ t. starts_from end t ≡ false) turns)
        ⊎ ((u : SpeakerTurn) × (head? (keep (starts_from end) turns) ≡ some u) × ComesFirst end u)
  first_to_come_cases end ordered = go (keep (starts_from end) turns) refl
    where
      go :
          (ts : List SpeakerTurn)
          → keep (starts_from end) turns ≡ ts
          → ((head? (keep (starts_from end) turns) ≡ none)
              × All (λ t. starts_from end t ≡ false) turns)
            ⊎ ((u : SpeakerTurn) × (head? (keep (starts_from end) turns) ≡ some u)
                × ComesFirst end u)
      go [] e = inl (rw e, All-of_keep-eq-nil (starts_from end) turns e)
      go (u ∷ us) e =
          let (passed, _) =
            subst (All (λ t. (starts_from end t ≡ true) × Mem t turns)) e
              (All-keep_passed (λ t. Mem t turns) (starts_from end) turns (All-mem turns)) in
          let (later, _) =
            subst StartOrdered e (StartOrdered-keep (starts_from end) turns ordered) in
          inr (
            u,
            rw e,
            (
              leb→le _ _ passed.0,
              passed.1,
              All-of_keep (λ t. u.start_time_us ≤ t.start_time_us) (starts_from end) turns
                  (rw e (omega arith, later)),
            ),
          )

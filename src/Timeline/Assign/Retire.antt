-- ===== src/Timeline/Assign/Retire.antt =====
-- What `admit`, `retire` and `later_ended` leave, in terms of filters of all turns.
use mathlib.Core.List.{foldl, append_assoc, append-nil}
use voice_verse_ai.Common.{
  ℕ, ◌≤◌, ◌<◌, ◌≡◌, refl, ◌∙◌, sym, Bool, true, ◌||◌, Option, none, some, List, [], ◌∷◌, ◌++◌, leb,
  ltb, All, All-map, keep, arith, Bool-cases, inl, inr,
}
use voice_verse_ai.Common.Keep.{keep-eq-nil, keep-eq_self}
use voice_verse_ai.Timeline.Types.{SpeakerTurn}
use voice_verse_ai.Timeline.Assign.{admit, later_ended, retire}

-- Turns ordered by their start.
abbrev pub StartOrdered : List SpeakerTurn → Type 0
StartOrdered [] = Unit
StartOrdered (t ∷ ts) = All (λ u. t.start_time_us ≤ u.start_time_us) ts × StartOrdered ts

pub admit_lem :
    (end : ℕ) (active ts : List SpeakerTurn)
    → StartOrdered ts
    → admit end active ts
      ≡ (active ++ keep (λ t. ltb t.start_time_us end) ts, keep (λ t. leb end t.start_time_us) ts)
unfolding admit
admit_lem end active [] o = rw append-nil
admit_lem end active (t ∷ ts) (a, o) = elim (Bool-cases (ltb t.start_time_us end)) [
  | inl e ↦ ground (
    arith,
    admit_lem end (active ++ t ∷ []) ts o,
    append_assoc active (t ∷ []) (keep (λ u. ltb u.start_time_us end) ts),
  )
  | inr e ↦ ground (
    arith,
    append-nil active,
    keep-eq-nil (λ u. ltb u.start_time_us end) ts (All-map (λ u k. ground arith) ts a),
    keep-eq_self (λ u. leb end u.start_time_us) ts (All-map (λ u k. ground arith) ts a),
  )
]

pub retire_lem :
    (start : ℕ) (ts : List SpeakerTurn) (latest : Option SpeakerTurn)
    → retire start ts latest ≡ (
      keep (λ t. ltb start t.end_time_us) ts,
      foldl later_ended latest (keep (λ t. leb t.end_time_us start) ts),
    )
unfolding retire
retire_lem start [] latest = refl
retire_lem start (t ∷ ts) latest =
    ground (arith, retire_lem start ts latest, retire_lem start ts (later_ended latest t))

-- Two filters, one before and one from a bound on, are one filter.
pub keep_split :
    (bound : ℕ) (p q : SpeakerTurn → Bool) (ts : List SpeakerTurn)
    → StartOrdered ts
    → ((t : SpeakerTurn) → p t ≡ true → t.start_time_us < bound)
    → ((t : SpeakerTurn) → q t ≡ true → bound ≤ t.start_time_us)
    → keep p ts ++ keep q ts ≡ keep (λ t. p t || q t) ts
keep_split bound p q [] o hp hq = refl
keep_split bound p q (t ∷ ts) (a, o) hp hq = elim (Bool-cases (q t)) [
  | inl e ↦ ground (
    arith,
    hp t,
    hq t e,
    keep_split bound p q ts o hp hq,
    keep-eq-nil p ts (All-map (λ u k. ground (arith, hp u, hq t e)) ts a),
  )
  | inr e ↦ ground (arith, keep_split bound p q ts o hp hq)
]

abbrev EndsBy : ℕ → Option SpeakerTurn → Type 0
EndsBy bound none = Unit
EndsBy bound (some t) = t.end_time_us ≤ bound

abbrev EndsAfter : ℕ → Option SpeakerTurn → Type 0
EndsAfter bound none = Unit
EndsAfter bound (some t) = bound < t.end_time_us

-- The newer of two candidates, where there is one.
abbrev prefer : Option SpeakerTurn → Option SpeakerTurn → Option SpeakerTurn
prefer none old = old
prefer (some t) old = some t

module _ (bound : ℕ) (t : SpeakerTurn) where
  EndsBy-later_ended :
      (older : Option SpeakerTurn)
      → EndsBy bound older
      → t.end_time_us ≤ bound
      → EndsBy bound (later_ended older t)
  unfolding later_ended
  EndsBy-later_ended none o h = h
  EndsBy-later_ended (some u) o h = ground arith

  EndsAfter-later_ended :
      (newer : Option SpeakerTurn)
      → EndsAfter bound newer
      → bound < t.end_time_us
      → EndsAfter bound (later_ended newer t)
  unfolding later_ended
  EndsAfter-later_ended none n h = h
  EndsAfter-later_ended (some u) n h = ground arith

  later_ended-old :
      (newer older : Option SpeakerTurn)
      → EndsAfter bound newer
      → t.end_time_us ≤ bound
      → later_ended (prefer newer older) t ≡ prefer newer (later_ended older t)
  unfolding later_ended
  later_ended-old none older n h = refl
  later_ended-old (some u) older n h = ground arith

  later_ended-new :
      (newer older : Option SpeakerTurn)
      → EndsBy bound older
      → bound < t.end_time_us
      → later_ended (prefer newer older) t ≡ prefer (later_ended newer t) older
  unfolding later_ended
  later_ended-new none none o h = refl
  later_ended-new none (some u) o h = ground arith
  later_ended-new (some u) older o h = ground arith

-- The turn that `latestEnded` names after two series of turns, the second of which ends later.
module _ (bound : ℕ) (old new both : SpeakerTurn → Bool)
    (old_ends : (t : SpeakerTurn) → old t ≡ true → t.end_time_us ≤ bound)
    (new_ends : (t : SpeakerTurn) → new t ≡ true → bound < t.end_time_us) where
  latest_prefer :
      (ts : List SpeakerTurn) (newer older : Option SpeakerTurn)
      → All (λ t. both t ≡ (old t || new t)) ts
      → EndsAfter bound newer
      → EndsBy bound older
      → foldl later_ended (prefer newer older) (keep both ts)
        ≡ prefer (foldl later_ended newer (keep new ts)) (foldl later_ended older (keep old ts))
  latest_prefer [] newer older b n o = refl
  latest_prefer (t ∷ ts) newer older (e, b) n o = elim (Bool-cases (old t)) [
    | inl h ↦ ground (
      arith,
      old_ends t h,
      new_ends t,
      later_ended-old bound t newer older n (old_ends t h),
      latest_prefer ts newer (later_ended older t) b n
          (EndsBy-later_ended bound t older o (old_ends t h)),
    )
    | inr h ↦ elim (Bool-cases (new t)) [
      | inl k ↦ ground (
        arith,
        later_ended-new bound t newer older o (new_ends t k),
        latest_prefer ts (later_ended newer t) older b
            (EndsAfter-later_ended bound t newer n (new_ends t k)) o,
      )
      | inr k ↦ ground (arith, latest_prefer ts newer older b n o)
    ]
  ]

  EndsBy-latest :
      (ts : List SpeakerTurn) (older : Option SpeakerTurn)
      → EndsBy bound older
      → EndsBy bound (foldl later_ended older (keep old ts))
  EndsBy-latest [] older o = o
  EndsBy-latest (t ∷ ts) older o = elim (Bool-cases (old t)) [
    | inl h ↦
        rw (h, keep)
          (EndsBy-latest ts (later_ended older t)
            (EndsBy-later_ended bound t older o (old_ends t h)))
    | inr h ↦ rw (h, keep) (EndsBy-latest ts older o)
  ]

  latest_new :
      (ts : List SpeakerTurn) (newer older : Option SpeakerTurn)
      → EndsAfter bound newer
      → EndsBy bound older
      → foldl later_ended (prefer newer older) (keep new ts)
        ≡ prefer (foldl later_ended newer (keep new ts)) older
  latest_new [] newer older n o = refl
  latest_new (t ∷ ts) newer older n o = elim (Bool-cases (new t)) [
    | inl k ↦ ground (
      arith,
      later_ended-new bound t newer older o (new_ends t k),
      latest_new ts (later_ended newer t) older
          (EndsAfter-later_ended bound t newer n (new_ends t k)) o,
    )
    | inr k ↦ ground (arith, latest_new ts newer older n o)
  ]

  -- Retiring the second series after the first is retiring both in list order.
  pub latest_both :
      (ts : List SpeakerTurn)
      → All (λ t. both t ≡ (old t || new t)) ts
      → foldl later_ended (foldl later_ended none (keep old ts)) (keep new ts)
        ≡ foldl later_ended none (keep both ts)
  latest_both ts b =
      latest_new ts none (foldl later_ended none (keep old ts)) tt (EndsBy-latest ts none tt)
      ∙ sym (latest_prefer ts none none b tt tt)

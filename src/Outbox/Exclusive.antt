-- ===== src/Outbox/Exclusive.antt =====
-- The leases of the relay: whose rows it takes, and whose it writes.
use voice_verse_ai.Common.{
  ℕ, ◌+◌, ◌*◌, ◌≤◌, ◌≡◌, refl, ap, ◌∙◌, ◌≢◌, ◌⊎◌, Bool, true, false, not, ◌||◌, Bool-cases, inl,
  inr, if◌then◌else◌, String, some, List, [], ◌∷◌, All, All-of, All-map, All-keep, Result, ok, err,
  text_eq_iff, str_eq, eq_iff, keep, arith,
}
use voice_verse_ai.Common.Sort.{All-sort_by}
use voice_verse_ai.Common.Take.{All-take}
use voice_verse_ai.Ingest.Tables.{update}
use voice_verse_ai.Localization.Keyed.{All-update, if-cases}
use voice_verse_ai.Outbox.{
  Event, is_candidate, compare_candidates, candidates, has_id_among, leased, lease_batch, is_held,
  relay_event, relay_events, mark_published, mark_failed,
}

leased-is_candidate :
    (lease_id : String) (until later : ℕ) (e : Event)
    → later ≤ until
    → is_candidate later (leased lease_id until e) ≡ false
unfolding is_candidate leased
leased-is_candidate lease_id until later e h = ground arith

-- What is kept has passed.
keep-passes :
    (P : Event → Type 0) (p : Event → Bool) (xs : List Event)
    → All (λ x. p x ≡ true → P x) xs
    → All P (keep p xs)
keep-passes P p [] h = tt
keep-passes P p (x ∷ xs) (h, hs) = elim (Bool-cases (p x)) [
  | inl e ↦ rw (e, keep) (h e, keep-passes P p xs hs)
  | inr e ↦ rw (e, keep) (keep-passes P p xs hs)
]

has_id_among-same :
    (cs : List Event) (a b : Event) → a.id ≡ b.id → has_id_among cs a ≡ has_id_among cs b
unfolding has_id_among
has_id_among-same [] a b same = refl
has_id_among-same (c ∷ cs) a b same =
    rw (has_id_among-same cs a b same) (ap (λ id. str_eq c.id id || has_id_among cs b) same)

-- Events of other ids are not among them.
has_id_among-apart :
    (cs others : List Event) (e : Event)
    → has_id_among cs e ≡ true
    → All (λ c. has_id_among cs c ≡ false) others
    → has_id_among others e ≡ false
unfolding has_id_among
has_id_among-apart cs [] e among h = refl
has_id_among-apart cs (c ∷ others) e among (h, hs) = elim (Bool-cases (str_eq c.id e.id)) [
  | inl same ↦ absurd (cc (has_id_among-same cs c e ((eq_iff c.id e.id).0 same), among, h))
  | inr other ↦ rw other (has_id_among-apart cs others e among hs)
]

-- The chosen rows of the table are leased, and no candidates.
abbrev AreLeased : List Event → String → ℕ → List Event → Type 0
AreLeased chosen lease_id later rows =
    All
      (λ r.
        has_id_among chosen r ≡ true
        → (is_candidate later r ≡ false) × (r.lease_id ≡ some lease_id))
      rows

update-AreLeased :
    (chosen : List Event) (lease_id : String) (until later : ℕ) (events : List Event)
    → later ≤ until
    → AreLeased chosen lease_id later (update (has_id_among chosen) (leased lease_id until) events)
unfolding leased
update-AreLeased chosen lease_id until later events h =
    All-update _ (has_id_among chosen) (leased lease_id until) events (All-of events (λ e. row e))
  where
    row :
        (e : Event)
        → has_id_among chosen (if has_id_among chosen e then leased lease_id until e else e) ≡ true
        → (is_candidate later (if has_id_among chosen e then leased lease_id until e else e)
            ≡ false)
          × ((if has_id_among chosen e then leased lease_id until e else e).lease_id
              ≡ some lease_id)
    row e =
        if-cases
          (λ (r : Event).
            has_id_among chosen r ≡ true
            → (is_candidate later r ≡ false) × (r.lease_id ≡ some lease_id))
          (has_id_among chosen e) (leased lease_id until e) e
          (λ _ _. (leased-is_candidate lease_id until later e h, refl))
          (λ out among. absurd (cc (out, among)))

-- A lease that comes later takes none of the rows that are leased.
candidates-apart :
    (chosen : List Event) (lease_id : String) (limit later : ℕ) (is_locked : String → Bool)
    (rows : List Event)
    → AreLeased chosen lease_id later rows
    → All (λ c. has_id_among chosen c ≡ false) (candidates limit later is_locked rows)
unfolding candidates
candidates-apart chosen lease_id limit later is_locked rows held = All-take _ limit _ (
    All-keep _ (λ (e : Event). not (is_locked e.id)) _
      (All-sort_by _ compare_candidates _ (
        keep-passes (λ c. has_id_among chosen c ≡ false) (is_candidate later) rows
          (All-map (λ r h. free r h) rows held))))
  where
    free :
        (r : Event)
        → (has_id_among chosen r ≡ true
            → (is_candidate later r ≡ false) × (r.lease_id ≡ some lease_id))
        → is_candidate later r ≡ true
        → has_id_among chosen r ≡ false
    free r h candidate = elim (Bool-cases (has_id_among chosen r)) [
      | inl among ↦ absurd (cc ((h among).0, candidate))
      | inr out ↦ out
    ]

-- Rows of the event's id bear the lease.
abbrev pub IsHeldIn : String → Event → List Event → Type 0
IsHeldIn lease_id e rows = All (λ (r : Event). (r.id ≢ e.id) ⊎ (r.lease_id ≡ some lease_id)) rows

module _ (chosen others : List Event) (lease_id other_id : String) (until later : ℕ)
    (rows : List Event) (held : AreLeased chosen lease_id later rows)
    (apart : All (λ c. has_id_among chosen c ≡ false) others) (e : Event)
    (among : has_id_among chosen e ≡ true) where
  other_ids : (r : Event) → has_id_among others r ≡ true → r.id ≢ e.id
  other_ids r h same =
      cc (has_id_among-same others r e same, h, has_id_among-apart chosen others e among apart)

  still_held : IsHeldIn lease_id e (update (has_id_among others) (leased other_id until) rows)
  unfolding leased
  still_held =
      All-update _ (has_id_among others) (leased other_id until) rows
        (All-map (λ r h. kept r h) rows held)
    where
      kept :
          (r : Event)
          → (has_id_among chosen r ≡ true
              → (is_candidate later r ≡ false) × (r.lease_id ≡ some lease_id))
          → ((if has_id_among others r then leased other_id until r else r).id ≢ e.id)
            ⊎ ((if has_id_among others r then leased other_id until r else r).lease_id
                ≡ some lease_id)
      kept r h =
          if-cases (λ (x : Event). (x.id ≢ e.id) ⊎ (x.lease_id ≡ some lease_id))
            (has_id_among others r) (leased other_id until r) r (λ taken. inl (other_ids r taken))
            (λ _. elim (Bool-cases (str_eq r.id e.id)) [
              | inl same ↦
                  inr (h (has_id_among-same chosen r e ((eq_iff r.id e.id).0 same) ∙ among)).1
              | inr other ↦ inl (λ same. cc ((eq_iff r.id e.id).1 same, other))
            ])

  not_taken :
      All
        (λ (f : Event). f.id ≢ e.id)
        (keep (has_id_among others) (update (has_id_among others) (leased other_id until) rows))
  not_taken =
      keep-passes (λ (f : Event). f.id ≢ e.id) (has_id_among others) _
        (All-of _ (λ f h. other_ids f h))

-- No event is handed out twice while its lease runs: when one relay has leased a batch, and another (or
-- the same one again) leases a batch from the table that the first one left, until the first lease has
-- run out, then for every event of the first batch the table still has the first lease at its id, and the
-- second batch has no event of that id. Limits, locked rows and lengths of the leases are any.
pub lease_batch-exclusive :
    (limit now lease_seconds other_limit later other_seconds : ℕ) (lease_id other_id : String)
    (is_locked locked_later : String → Bool) (events : List Event)
    → later ≤ now + lease_seconds * 1000
    → (let first = lease_batch limit now lease_seconds lease_id is_locked events in
        let second = lease_batch other_limit later other_seconds other_id locked_later first.0 in
        All
          (λ (e : Event). IsHeldIn lease_id e second.0 × All (λ (f : Event). f.id ≢ e.id) second.1)
          first.1)
unfolding lease_batch
lease_batch-exclusive limit now lease_seconds other_limit later other_seconds lease_id other_id
      is_locked locked_later events h =
    let chosen = candidates limit now is_locked events in
    let until = now + lease_seconds * 1000 in
    let rows = update (has_id_among chosen) (leased lease_id until) events in
    let others = candidates other_limit later locked_later rows in
    let other_until = later + other_seconds * 1000 in
    let held : AreLeased chosen lease_id later rows =
      update-AreLeased chosen lease_id until later events h in
    let apart = candidates-apart chosen lease_id other_limit later locked_later rows held in
    keep-passes _ (has_id_among chosen) rows (
      All-of rows (λ e among. (
        still_held chosen others lease_id other_id other_until later rows held apart e among,
        not_taken chosen others lease_id other_id other_until later rows held apart e among,
      )))

-- Row by row, what another relay holds, or none, is as it was.
abbrev pub Spares : String → List Event → List Event → Type 0
Spares lease_id [] [] = Unit
Spares lease_id (a ∷ as') (b ∷ bs) = (a.lease_id ≢ some lease_id → a ≡ b) × Spares lease_id as' bs
Spares lease_id _ _ = ⊥

Spares-refl : (lease_id : String) (es : List Event) → Spares lease_id es es
Spares-refl lease_id [] = tt
Spares-refl lease_id (e ∷ es) = ((λ n. refl), Spares-refl lease_id es)

Spares-trans :
    (lease_id : String) (as' bs cs : List Event)
    → Spares lease_id as' bs
    → Spares lease_id bs cs
    → Spares lease_id as' cs
Spares-trans lease_id [] [] [] h k = tt
Spares-trans lease_id (a ∷ as') (b ∷ bs) (c ∷ cs) (h, hs) (k, ks) = (
  λ n. let same = h n in same ∙ k (λ m. n (ap (λ (e : Event). e.lease_id) same ∙ m)),
  Spares-trans lease_id as' bs cs hs ks,
)
Spares-trans lease_id [] [] (c ∷ cs) h k = absurd k
Spares-trans lease_id [] (b ∷ bs) cs h k = absurd h
Spares-trans lease_id (a ∷ as') [] cs h k = absurd h
Spares-trans lease_id (a ∷ as') (b ∷ bs) [] h k = absurd k

is_held-lease :
    (id lease_id : String) (e : Event) → is_held id lease_id e ≡ true → e.lease_id ≡ some lease_id
unfolding is_held
is_held-lease id lease_id e h = (text_eq_iff e.lease_id (some lease_id)).0 (ground arith)

update-Spares :
    (id lease_id : String) (f : Event → Event) (es : List Event)
    → Spares lease_id es (update (is_held id lease_id) f es)
unfolding update
update-Spares id lease_id f [] = tt
update-Spares id lease_id f (e ∷ es) = elim (Bool-cases (is_held id lease_id e)) [
  | inl t ↦
      rw (t, update)
        ((λ n. absurd (n (is_held-lease id lease_id e t))), update-Spares id lease_id f es)
  | inr t ↦ rw (t, update) ((λ n. refl), update-Spares id lease_id f es)
]

relay_event-Spares :
    (now : ℕ) (lease_id : String) (publish : Event → Result String (Unit {0})) (es : List Event)
    (e : Event)
    → Spares lease_id es (relay_event now lease_id publish es e)
unfolding relay_event
relay_event-Spares now lease_id publish es e = go (publish e)
  where
    go :
        (outcome : Result String (Unit {0}))
        → Spares lease_id es (elim outcome [
          | ok _ ↦ update (is_held e.id lease_id) (mark_published now) es
          | err name ↦
              update (is_held e.id lease_id) (mark_failed now (e.attempt_count + 1) name) es
        ])
    go (ok _) = update-Spares e.id lease_id (mark_published now) es
    go (err name) = update-Spares e.id lease_id (mark_failed now (e.attempt_count + 1) name) es

-- A relay that publishes a batch, or fails to, changes only rows that it still holds by its lease:
-- every other row, also one that was leased anew by another relay, is as it was.
pub relay_events-Spares :
    (now : ℕ) (lease_id : String) (publish : Event → Result String (Unit {0}))
    (batch events : List Event)
    → Spares lease_id events (relay_events now lease_id publish batch events)
unfolding relay_events
relay_events-Spares now lease_id publish [] events = Spares-refl lease_id events
relay_events-Spares now lease_id publish (e ∷ es) events =
    let next = relay_event now lease_id publish events e in
    Spares-trans lease_id events next _ (relay_event-Spares now lease_id publish events e)
      (relay_events-Spares now lease_id publish es next)

-- ===== src/Scenes/Laws.antt =====
-- The bounds that `partitionLocalizationScenes` keeps.
use mathlib.Core.List.{foldl, append_assoc, append-nil}
use voice_verse_ai.Common.{
  ℕ, suc, ◌+◌, ◌≤◌, ◌<◌, ◌≡◌, refl, ◌∙◌, sym, true, false, List, [], ◌∷◌, ◌++◌, map, concat, All,
  All-append, All-map, length, length-append, last?, arith, Bool-cases, inl, inr, ◌⊎◌,
}
use voice_verse_ai.Scenes.{
  Dialogue, Scene, starts_scene, begins_at_silence_boundary, new_scene, extend_scene, push_dialogue,
}

-- No pause of two seconds or more between a dialogue and the next.
abbrev pub HasNoPause : Dialogue → List Dialogue → Type 0
HasNoPause previous [] = Unit
HasNoPause previous (next ∷ others) =
    (next.start_time_us < previous.end_time_us + 2000000) × HasNoPause next others

-- The dialogues of a scene: a first one, and those after it that the bounds admit.
abbrev pub Bounds : Scene → List Dialogue → Type 0
Bounds s [] = ⊥
Bounds s (first ∷ others) =
    (s.start_time_us ≡ first.start_time_us)
    × All (λ d. d.end_time_us ≤ first.start_time_us + 60000000) others
    × HasNoPause first others

pub record IsScene (s : Scene) : Type 0 where
  pub bounds : Bounds s s.dialogues
  pub count : length s.dialogues ≤ 200
  pub ends : All (λ d. d.end_time_us ≤ s.end_time_us) s.dialogues

abbrev pub IsNumbered : ℕ → List Scene → Type 0
IsNumbered before [] = Unit
IsNumbered before (s ∷ ss) = (s.ordinal ≡ suc before) × IsNumbered (suc before) ss

-- The last of them ends two seconds or more before `d` starts.
abbrev pub EndWithPause : List Dialogue → Dialogue → Type 0
EndWithPause [] d = ⊥
EndWithPause (x ∷ []) d = x.end_time_us + 2000000 ≤ d.start_time_us
EndWithPause (x ∷ y ∷ ys) d = EndWithPause (y ∷ ys) d

-- The scene could not take the next dialogue: there is a pause before it, it ends more than a minute after
-- the scene's start, or the scene has 200 dialogues.
abbrev pub CannotJoin : Scene → List Dialogue → Type 0
CannotJoin s [] = ⊥
CannotJoin s (d ∷ _) =
    EndWithPause s.dialogues d
    ⊎ ((s.start_time_us + 60000000 < d.end_time_us) ⊎ (200 ≤ length s.dialogues))

abbrev pub AreMaximal : List Scene → Type 0
AreMaximal [] = Unit
AreMaximal (s ∷ []) = Unit
AreMaximal (s ∷ next ∷ others) = CannotJoin s next.dialogues × AreMaximal (next ∷ others)

HasNoPause-append :
    (previous : Dialogue) (others : List Dialogue) (d : Dialogue)
    → HasNoPause previous others
    → begins_at_silence_boundary (last? (previous ∷ others)) d ≡ false
    → HasNoPause previous (others ++ d ∷ [])
unfolding begins_at_silence_boundary
HasNoPause-append previous [] d h e = (ground arith, tt)
HasNoPause-append previous (next ∷ others) d (h, hs) e = (h, HasNoPause-append next others d hs e)

Bounds-extend :
    (s : Scene) (ds : List Dialogue) (d : Dialogue)
    → Bounds s ds
    → begins_at_silence_boundary (last? ds) d ≡ false
    → d.end_time_us ≤ s.start_time_us + 60000000
    → Bounds (extend_scene s d) (ds ++ d ∷ [])
unfolding extend_scene
Bounds-extend s [] d h e k = absurd h
Bounds-extend s (first ∷ others) d (same, within, quiet) e k = (
  same,
  All-append _ others (d ∷ []) within (omega (arith, same), tt),
  HasNoPause-append first others d quiet e,
)

new_scene-IsScene : (ordinal : ℕ) (d : Dialogue) → IsScene (new_scene ordinal d)
unfolding new_scene
new_scene-IsScene ordinal d = record {
  bounds = (refl, tt, tt);
  count = omega arith;
  ends = (omega arith, tt);
}

extend_scene-IsScene :
    (s : Scene) (d : Dialogue) → IsScene s → starts_scene s d ≡ false → IsScene (extend_scene s d)
unfolding starts_scene extend_scene
extend_scene-IsScene s d h e = record {
  bounds = Bounds-extend s s.dialogues d h.bounds (ground arith) (ground arith);
  count = ground (arith, length-append s.dialogues (d ∷ []));
  ends =
      All-append _ s.dialogues (d ∷ []) (All-map (λ x k. ground (arith, k)) s.dialogues h.ends)
        (ground arith, tt);
}

push_dialogue-IsScene :
    (before : ℕ) (ss : List Scene) (d : Dialogue)
    → All IsScene ss
    → All IsScene (push_dialogue before ss d)
unfolding push_dialogue
push_dialogue-IsScene before [] d h = (new_scene-IsScene (suc before) d, tt)
push_dialogue-IsScene before (s ∷ []) d (h, _) = elim (Bool-cases (starts_scene s d)) [
  | inl e ↦ rw e (h, (new_scene-IsScene (suc (suc before)) d, tt))
  | inr e ↦ rw e (extend_scene-IsScene s d h e, tt)
]
push_dialogue-IsScene before (s ∷ t ∷ ss) d (h, hs) =
    (h, push_dialogue-IsScene (suc before) (t ∷ ss) d hs)

push_dialogue-IsNumbered :
    (before : ℕ) (ss : List Scene) (d : Dialogue)
    → IsNumbered before ss
    → IsNumbered before (push_dialogue before ss d)
unfolding push_dialogue new_scene extend_scene
push_dialogue-IsNumbered before [] d h = (refl, tt)
push_dialogue-IsNumbered before (s ∷ []) d (h, _) = elim (Bool-cases (starts_scene s d)) [
  | inl e ↦ rw e (h, (refl, tt))
  | inr e ↦ rw e (h, tt)
]
push_dialogue-IsNumbered before (s ∷ t ∷ ss) d (h, hs) =
    (h, push_dialogue-IsNumbered (suc before) (t ∷ ss) d hs)

begins-EndWithPause :
    (ds : List Dialogue) (d : Dialogue)
    → begins_at_silence_boundary (last? ds) d ≡ true
    → EndWithPause ds d
unfolding begins_at_silence_boundary
begins-EndWithPause [] d h = cc h
begins-EndWithPause (x ∷ []) d h = ground arith
begins-EndWithPause (x ∷ y ∷ ys) d h = begins-EndWithPause (y ∷ ys) d h

starts_scene-CannotJoin :
    (s : Scene) (d : Dialogue) (ds : List Dialogue)
    → starts_scene s d ≡ true
    → CannotJoin s (d ∷ ds)
unfolding starts_scene
starts_scene-CannotJoin s d ds h =
    elim (Bool-cases (begins_at_silence_boundary (last? s.dialogues) d)) [
      | inl pause ↦ inl (begins-EndWithPause s.dialogues d pause)
      | inr flowing ↦ inr (ground arith)
    ]

CannotJoin-append :
    (s : Scene) (ds : List Dialogue) (d : Dialogue) → CannotJoin s ds → CannotJoin s (ds ++ d ∷ [])
CannotJoin-append s [] d h = absurd h
CannotJoin-append s (x ∷ xs) d h = h

push_dialogue-AreMaximal :
    (before : ℕ) (ss : List Scene) (d : Dialogue)
    → AreMaximal ss
    → AreMaximal (push_dialogue before ss d)
unfolding push_dialogue new_scene extend_scene
push_dialogue-AreMaximal before [] d h = tt
push_dialogue-AreMaximal before (s ∷ []) d h = elim (Bool-cases (starts_scene s d)) [
  | inl e ↦ rw e (starts_scene-CannotJoin s d [] e, tt)
  | inr e ↦ rw e tt
]
push_dialogue-AreMaximal before (s ∷ t ∷ []) d (h, _) = elim (Bool-cases (starts_scene t d)) [
  | inl e ↦ rw e (h, (starts_scene-CannotJoin t d [] e, tt))
  | inr e ↦ rw e (CannotJoin-append s t.dialogues d h, tt)
]
push_dialogue-AreMaximal before (s ∷ t ∷ u ∷ ss) d (h, hs) =
    (h, push_dialogue-AreMaximal (suc before) (t ∷ u ∷ ss) d hs)

abbrev pub dialogues_of : List Scene → List Dialogue
dialogues_of ss = concat (map (λ (s : Scene). s.dialogues) ss)

dialogues_of-push_dialogue :
    (before : ℕ) (ss : List Scene) (d : Dialogue)
    → dialogues_of (push_dialogue before ss d) ≡ dialogues_of ss ++ d ∷ []
unfolding push_dialogue new_scene extend_scene
dialogues_of-push_dialogue before [] d = refl
dialogues_of-push_dialogue before (s ∷ []) d = elim (Bool-cases (starts_scene s d)) [
  | inl e ↦ rw e (simp append-nil)
  | inr e ↦ rw e (simp append-nil)
]
dialogues_of-push_dialogue before (s ∷ t ∷ ss) d =
    simp (dialogues_of-push_dialogue (suc before) (t ∷ ss) d, append_assoc)

pub dialogues_of-foldl :
    (ds : List Dialogue) (ss : List Scene)
    → dialogues_of (foldl (push_dialogue 0) ss ds) ≡ dialogues_of ss ++ ds
dialogues_of-foldl [] ss = sym (append-nil _)
dialogues_of-foldl (d ∷ ds) ss =
    dialogues_of-foldl ds (push_dialogue 0 ss d)
    ∙ rw dialogues_of-push_dialogue (append_assoc (dialogues_of ss) (d ∷ []) ds)

-- What the loop keeps of its scenes.
pub record AreScenes (ss : List Scene) : Type 0 where
  pub scenes : All IsScene ss
  pub numbered : IsNumbered 0 ss
  pub maximal : AreMaximal ss

pub push_dialogue-AreScenes :
    (ss : List Scene) (d : Dialogue) → AreScenes ss → AreScenes (push_dialogue 0 ss d)
push_dialogue-AreScenes ss d h = record {
  scenes = push_dialogue-IsScene 0 ss d h.scenes;
  numbered = push_dialogue-IsNumbered 0 ss d h.numbered;
  maximal = push_dialogue-AreMaximal 0 ss d h.maximal;
}

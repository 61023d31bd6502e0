-- ===== src/Timeline/Group/Laws.antt =====
-- The groups of `groupAssignedUnits`: maximal runs of units with one assignment.
use mathlib.Core.List.{foldl, append_assoc, append-nil}
use voice_verse_ai.Common.{
  true, ◌≡◌, refl, ◌∙◌, sym, List, [], ◌∷◌, ◌++◌, concat, All, All-append, arith, text_eq_iff,
  Bool-cases, inl, inr, ◌↔◌,
}
use voice_verse_ai.Timeline.Types.{AssignmentMethod, UnitAssignment, AssignedUnit}
use voice_verse_ai.Timeline.Group.{method_eq, joins, push_unit, group_assigned_units}

-- One speaker, one turn, one method; the confidence may differ.
pub record SameAssignment (a b : UnitAssignment) : Type 0 where
  pub cluster : a.speaker_cluster_id ≡ b.speaker_cluster_id
  pub turn : a.speaker_turn_id ≡ b.speaker_turn_id
  pub method : a.method ≡ b.method

method_eq_iff : (a b : AssignmentMethod) → (method_eq a b ≡ true) ↔ (a ≡ b)
unfolding method_eq
method_eq_iff a b = ground arith

joins-SameAssignment :
    (first unit : AssignedUnit) (others : List AssignedUnit)
    → joins (first ∷ others) unit ≡ true
    → SameAssignment first.assignment unit.assignment
unfolding joins
joins-SameAssignment first unit others h = record {
  cluster =
      (text_eq_iff first.assignment.speaker_cluster_id unit.assignment.speaker_cluster_id).0
        (ground arith);
  turn =
      (text_eq_iff first.assignment.speaker_turn_id unit.assignment.speaker_turn_id).0
        (ground arith);
  method = (method_eq_iff first.assignment.method unit.assignment.method).0 (ground arith);
}

SameAssignment-joins :
    (first unit : AssignedUnit) (others : List AssignedUnit)
    → SameAssignment first.assignment unit.assignment
    → joins (first ∷ others) unit ≡ true
unfolding joins
SameAssignment-joins first unit others h = ground (
  arith,
  (text_eq_iff first.assignment.speaker_cluster_id unit.assignment.speaker_cluster_id).1 h.cluster,
  (text_eq_iff first.assignment.speaker_turn_id unit.assignment.speaker_turn_id).1 h.turn,
  (method_eq_iff first.assignment.method unit.assignment.method).1 h.method,
)

-- A group is not empty, and its units share the assignment of the first.
abbrev pub IsRun : List AssignedUnit → Type 0
IsRun [] = ⊥
IsRun (first ∷ others) = All (λ u. SameAssignment first.assignment u.assignment) others

-- The first unit of each group has another assignment than the group before it.
abbrev pub StartsNewRun : List AssignedUnit → List (List AssignedUnit) → Type 0
StartsNewRun (first ∷ others) ((next ∷ _) ∷ _) = ¬ SameAssignment first.assignment next.assignment
StartsNewRun _ _ = Unit

abbrev pub IsMaximal : List (List AssignedUnit) → Type 0
IsMaximal [] = Unit
IsMaximal (g ∷ gs) = StartsNewRun g gs × IsMaximal gs

concat-push_unit :
    (gs : List (List AssignedUnit)) (u : AssignedUnit)
    → concat (push_unit gs u) ≡ concat gs ++ u ∷ []
unfolding push_unit
concat-push_unit [] u = refl
concat-push_unit (g ∷ []) u = elim (Bool-cases (joins g u)) [
  | inl e ↦ rw e (simp append-nil)
  | inr e ↦ rw e (simp append-nil)
]
concat-push_unit (g ∷ h ∷ hs) u = simp (concat-push_unit (h ∷ hs) u, append_assoc)

push_unit-IsRun :
    (gs : List (List AssignedUnit)) (u : AssignedUnit) → All IsRun gs → All IsRun (push_unit gs u)
unfolding push_unit
push_unit-IsRun [] u r = (tt, tt)
push_unit-IsRun ([] ∷ []) u r = absurd r.0
push_unit-IsRun ((f ∷ os) ∷ []) u (r, _) = elim (Bool-cases (joins (f ∷ os) u)) [
  | inl e ↦ rw e (All-append _ os (u ∷ []) r (joins-SameAssignment f u os e, tt), tt)
  | inr e ↦ rw e (r, (tt, tt))
]
push_unit-IsRun (g ∷ h ∷ hs) u (r, rs) = (r, push_unit-IsRun (h ∷ hs) u rs)

concat-foldl-push_unit :
    (us : List AssignedUnit) (gs : List (List AssignedUnit))
    → concat (foldl push_unit gs us) ≡ concat gs ++ us
concat-foldl-push_unit [] gs = sym (append-nil _)
concat-foldl-push_unit (u ∷ us) gs =
    concat-foldl-push_unit us (push_unit gs u)
    ∙ rw concat-push_unit (append_assoc (concat gs) (u ∷ []) us)

foldl-push_unit-IsRun :
    (us : List AssignedUnit) (gs : List (List AssignedUnit))
    → All IsRun gs
    → All IsRun (foldl push_unit gs us)
foldl-push_unit-IsRun [] gs r = r
foldl-push_unit-IsRun (u ∷ us) gs r =
    foldl-push_unit-IsRun us (push_unit gs u) (push_unit-IsRun gs u r)

-- A unit is added at the end, and leaves the first unit of the first group.
StartsNewRun-push_unit :
    (g h : List AssignedUnit) (hs : List (List AssignedUnit)) (u : AssignedUnit)
    → IsRun h
    → StartsNewRun g (h ∷ hs)
    → StartsNewRun g (push_unit (h ∷ hs) u)
unfolding push_unit
StartsNewRun-push_unit [] h hs u r s = tt
StartsNewRun-push_unit (a ∷ rest) [] hs u r s = absurd r
StartsNewRun-push_unit (a ∷ rest) (f ∷ os) (k ∷ ks) u r s = s
StartsNewRun-push_unit (a ∷ rest) (f ∷ os) [] u r s = elim (Bool-cases (joins (f ∷ os) u)) [
  | inl e ↦ rw e s
  | inr e ↦ rw e s
]

push_unit-IsMaximal :
    (gs : List (List AssignedUnit)) (u : AssignedUnit)
    → All IsRun gs
    → IsMaximal gs
    → IsMaximal (push_unit gs u)
unfolding push_unit
push_unit-IsMaximal [] u r m = (tt, tt)
push_unit-IsMaximal ([] ∷ []) u r m = absurd r.0
push_unit-IsMaximal ((f ∷ os) ∷ []) u r m = elim (Bool-cases (joins (f ∷ os) u)) [
  | inl e ↦ rw e (tt, tt)
  | inr e ↦ rw e ((λ s. cc (SameAssignment-joins f u os s, e)), (tt, tt))
]
push_unit-IsMaximal (g ∷ h ∷ hs) u (r, rs) (m, ms) =
    (StartsNewRun-push_unit g h hs u rs.0 m, push_unit-IsMaximal (h ∷ hs) u rs ms)

foldl-push_unit-IsMaximal :
    (us : List AssignedUnit) (gs : List (List AssignedUnit))
    → All IsRun gs
    → IsMaximal gs
    → IsMaximal (foldl push_unit gs us)
foldl-push_unit-IsMaximal [] gs r m = m
foldl-push_unit-IsMaximal (u ∷ us) gs r m =
    foldl-push_unit-IsMaximal us (push_unit gs u) (push_unit-IsRun gs u r)
      (push_unit-IsMaximal gs u r m)

pub concat-group_assigned_units :
    (units : List AssignedUnit) → concat (group_assigned_units units) ≡ units
unfolding group_assigned_units
concat-group_assigned_units units = concat-foldl-push_unit units []

pub group_assigned_units-IsRun :
    (units : List AssignedUnit) → All IsRun (group_assigned_units units)
unfolding group_assigned_units
group_assigned_units-IsRun units = foldl-push_unit-IsRun units [] tt

-- The groups, one after the other, are the units; each group is non-empty and its units share the
-- speaker, the turn and the method of the first; and no group could take in the first unit of the
-- next.
pub group_assigned_units_lem :
    (units : List AssignedUnit)
    → (concat (group_assigned_units units) ≡ units)
      × All IsRun (group_assigned_units units)
      × IsMaximal (group_assigned_units units)
unfolding group_assigned_units
group_assigned_units_lem units = (
  concat-foldl-push_unit units [],
  foldl-push_unit-IsRun units [] tt,
  foldl-push_unit-IsMaximal units [] tt tt,
)

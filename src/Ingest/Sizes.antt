-- ===== src/Ingest/Sizes.antt =====
-- The sizes of the parts of an upload, and the manifests that `assertCompleteManifest` accepts.
use native.Mathlib.Nat.{div-mul-le_self, lt-div-mul-add}
use voice_verse_ai.Common.{
  ℕ, zero, suc, ◌+◌, ◌-◌, ◌*◌, ◌/◌, ◌≤◌, ◌<◌, ◌≡◌, refl, none, some, List, [], ◌∷◌, length, ok,
  arith,
}
use voice_verse_ai.Ingest.Types.{CompletedPart}
use voice_verse_ai.Ingest.Checks.{
  expected_part_size, differs, assert_parts, assert_complete_manifest,
}
use voice_verse_ai.Ingest.Create.{ceil_div}

-- What the parts numbered from 1 to `n` are expected to have together.
unfoldable pub sizes_upto : ℕ → ℕ → ℕ → ℕ → ℕ
sizes_upto total_bytes part_size total_parts zero = 0
sizes_upto total_bytes part_size total_parts (suc n) =
    sizes_upto total_bytes part_size total_parts n
    + expected_part_size total_bytes part_size total_parts (suc n)

-- The part count is the least that holds all bytes.
ceil_div-bounds :
    (a b : ℕ) → 0 < a → 0 < b → (n : ℕ) × (ceil_div a b ≡ suc n) × (b * n < a) × (a ≤ b * suc n)
unfolding ceil_div
ceil_div-bounds a b filled positive =
    go ((a + (b - 1)) / b) (div-mul-le_self (a + (b - 1)) b)
      (lt-div-mul-add {a = a + (b - 1)} positive)
  where
    go :
        (q : ℕ)
        → q * b ≤ a + (b - 1)
        → a + (b - 1) < q * b + b
        → (n : ℕ) × (q ≡ suc n) × (b * n < a) × (a ≤ b * suc n)
    go zero h k = absurd (omega arith)
    go (suc n) h k = (n, refl, omega arith, omega arith)

sizes_upto-before_last :
    (total_bytes part_size total_parts n : ℕ)
    → n < total_parts
    → sizes_upto total_bytes part_size total_parts n ≡ part_size * n
unfolding sizes_upto expected_part_size
sizes_upto-before_last total_bytes part_size total_parts zero h = omega arith
sizes_upto-before_last total_bytes part_size total_parts (suc n) h =
    ground (arith, sizes_upto-before_last total_bytes part_size total_parts n (omega arith))

-- For a video and a part size that are not empty, the expected sizes of all parts are together the
-- video's size; each part is expected to have at least one byte and at most the part size.
pub part_sizes :
    (total_bytes part_size : ℕ)
    → 0 < total_bytes
    → 0 < part_size
    → (sizes_upto total_bytes part_size
          (ceil_div total_bytes part_size)
          (ceil_div total_bytes part_size)
        ≡ total_bytes)
      × ((n : ℕ)
          → 0 < n
          → n ≤ ceil_div total_bytes part_size
          → (0 < expected_part_size total_bytes part_size (ceil_div total_bytes part_size) n)
            × (expected_part_size total_bytes part_size (ceil_div total_bytes part_size) n
                ≤ part_size))
unfolding sizes_upto expected_part_size
part_sizes total_bytes part_size filled positive =
    let (last, count, below, above) = ceil_div-bounds total_bytes part_size filled positive in
    (
      rw count (
          ground
            (arith, sizes_upto-before_last total_bytes part_size (suc last) last (omega arith))),
      λ n first inside. (ground arith, ground arith),
    )

-- The parts are numbered on from `index`.
abbrev pub IsNumbered : ℕ → List CompletedPart → Type 0
IsNumbered index [] = Unit
IsNumbered index (part ∷ parts) = (part.part_number ≡ suc index) × IsNumbered (suc index) parts

-- The sizes that the client states, or the expected one where it states none.
abbrev pub stated_total : ℕ → ℕ → ℕ → List CompletedPart → ℕ
stated_total total_bytes part_size total_parts [] = 0
stated_total total_bytes part_size total_parts (part ∷ parts) =
    elim part.byte_size [
      | none ↦ expected_part_size total_bytes part_size total_parts part.part_number
      | some size ↦ size
    ]
    + stated_total total_bytes part_size total_parts parts

module _ (total_bytes part_size total_parts : ℕ) where
  assert_parts-IsNumbered :
      (index : ℕ) (parts : List CompletedPart)
      → assert_parts total_parts total_bytes part_size index parts ≡ ok tt
      → IsNumbered index parts
  unfolding assert_parts
  assert_parts-IsNumbered index [] h = tt
  assert_parts-IsNumbered index (part ∷ parts) h =
      (ground arith, assert_parts-IsNumbered (suc index) parts (ground arith))

  sizes_upto-suc :
      (n : ℕ)
      → sizes_upto total_bytes part_size total_parts (suc n)
        ≡ sizes_upto total_bytes part_size total_parts n
          + expected_part_size total_bytes part_size total_parts (suc n)
  unfolding sizes_upto
  sizes_upto-suc n = refl

  sizes_upto-zero : sizes_upto total_bytes part_size total_parts 0 ≡ 0
  unfolding sizes_upto
  sizes_upto-zero = refl

  assert_parts-stated_total :
      (index last : ℕ) (parts : List CompletedPart)
      → last ≡ index + length parts
      → assert_parts total_parts total_bytes part_size index parts ≡ ok tt
      → sizes_upto total_bytes part_size total_parts index
          + stated_total total_bytes part_size total_parts parts
        ≡ sizes_upto total_bytes part_size total_parts last
  unfolding assert_parts differs
  assert_parts-stated_total index last [] e h =
      let same : last ≡ index = omega arith in rw same (omega arith)
  assert_parts-stated_total index last (part ∷ parts) e h =
      let tail : assert_parts total_parts total_bytes part_size (suc index) parts ≡ ok tt =
        ground arith in
      let rest = assert_parts-stated_total (suc index) last parts (omega arith) tail in
      ground (arith, rest, sizes_upto-suc index)

-- A manifest that is accepted for the part count of an upload has all its parts, numbered from 1 in
-- order, and the sizes that it states, the expected one where it states none, are together the
-- video's size.
pub accepted_manifest :
    (total_bytes part_size : ℕ) (parts : List CompletedPart)
    → 0 < total_bytes
    → 0 < part_size
    → assert_complete_manifest parts (ceil_div total_bytes part_size) total_bytes part_size ≡ ok tt
    → (length parts ≡ ceil_div total_bytes part_size)
      × IsNumbered 0 parts
      × (stated_total total_bytes part_size (ceil_div total_bytes part_size) parts ≡ total_bytes)
unfolding assert_complete_manifest
accepted_manifest total_bytes part_size parts filled positive h =
    let total_parts = ceil_div total_bytes part_size in
    let counted : length parts ≡ total_parts = ground arith in
    let checked : assert_parts total_parts total_bytes part_size 0 parts ≡ ok tt = ground arith in
    (
      counted,
      assert_parts-IsNumbered total_bytes part_size total_parts 0 parts checked,
      omega (
        arith,
        sizes_upto-zero total_bytes part_size total_parts,
        (part_sizes total_bytes part_size filled positive).0,
        assert_parts-stated_total total_bytes part_size total_parts 0 total_parts parts
            (omega (arith, counted)) checked,
      ),
    )

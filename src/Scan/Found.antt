-- ===== src/Scan/Found.antt =====
-- What a delivery finds: the row of its video, and a scan that clears it.
use mathlib.Core.List.{Memᴰ}
use voice_verse_ai.Common.{
  ℕ, ◌≡◌, refl, ap, ◌∙◌, ◌⊎◌, Bool, true, false, Bool-cases, inl, inr, ◌++◌, String, Option, none,
  some, List, [], ◌∷◌, str_eq, eq_iff, ==_iff, Result, ok, arith,
}
use voice_verse_ai.Common.Text.{is_empty}
use voice_verse_ai.Ingest.Patterns.{codes}
use voice_verse_ai.Ingest.Checks.{codes_eq}
use voice_verse_ai.Ingest.Tables.{find}
use voice_verse_ai.Ingest.Rows.{find-passes}
use voice_verse_ai.Scan.Rows.{queued, status_eq, has_expired_lease, Attempt, Video, ScanResult}
use voice_verse_ai.Common.{not, ◌&&◌}
use voice_verse_ai.Scan.Job.{
  is_final, Store, JobData, is_source, is_attempt_of, is_final_video, decide_data, decide_video,
  decide_attempt, from_hex, checksums_match, Job, ScanEnv, ScanError, Decision, claim, has_mismatch,
  decide,
}

-- The row that the delivery names: one of the table's, with the id, organization, bucket and key of the
-- delivery's data.
abbrev pub IsSourceOf : Job → Store → Video → Type 0
IsSourceOf job store video =
    (d : JobData) × (job.data' ≡ some d)
    × Memᴰ video store.videos
    × (video.id ≡ d.video_id)
    × (video.organization_id ≡ d.organization_id)
    × (video.storage_bucket ≡ d.bucket)
    × (video.storage_key ≡ d.key)

-- A checksum was stated and has the bytes of the computed one, or none was stated.
abbrev pub IsChecksumOf : Option String → String → Type 0
IsChecksumOf none sha = Unit
IsChecksumOf (some stated) sha = (stated ≡ "") ⊎ (from_hex (codes stated) ≡ from_hex (codes sha))

-- The scan that ran reported no infection, and a checksum that is the video's.
abbrev pub FoundClean : ScanEnv → Video → Type 0
FoundClean env video =
    (result : ScanResult) × (sha : String) × (env.scan ≡ ok (result, sha))
    × (result.is_infected ≡ false)
    × IsChecksumOf video.sha256 sha

-- Nothing was begun, or the preparation of the delivery's video, which was found clean.
abbrev pub PreparesClean : ScanEnv → Job → Store → Store → Store → Type 0
PreparesClean env job read store after =
    (after.prepared ≡ store.prepared)
    ⊎ ((video : Video) × IsSourceOf job read video
        × FoundClean env video
        × (after.prepared ≡ store.prepared ++ video.id ∷ []))

codes_eq-eq : (cs ds : List ℕ) → codes_eq cs ds ≡ true → cs ≡ ds
unfolding codes_eq
codes_eq-eq [] [] h = refl
codes_eq-eq [] (d ∷ ds) h = cc h
codes_eq-eq (c ∷ cs) [] h = cc h
codes_eq-eq (c ∷ cs) (d ∷ ds) h =
    let rest : cs ≡ ds = codes_eq-eq cs ds (ground arith) in
    let head : c ≡ d = ground (arith, ==_iff c d) in ap (λ x. x ∷ cs) head ∙ ap (λ xs. d ∷ xs) rest

is_empty-eq : (s : String) → is_empty s ≡ true → s ≡ ""
unfolding is_empty
is_empty-eq String.[] h = refl
is_empty-eq (String.◌∷◌ c s) h = cc h

pub has_mismatch-IsChecksumOf :
    (stated : Option String) (sha : String)
    → has_mismatch stated sha ≡ false
    → IsChecksumOf stated sha
unfolding has_mismatch checksums_match
has_mismatch-IsChecksumOf none sha h = tt
has_mismatch-IsChecksumOf (some stated) sha h = elim (Bool-cases (is_empty stated)) [
  | inl e ↦ inl (is_empty-eq stated e)
  | inr e ↦ inr (codes_eq-eq (from_hex (codes stated)) (from_hex (codes sha)) (ground arith))
]

find-Mem : (p : Video → Bool) (vs : List Video) {v : Video} → find p vs ≡ some v → Memᴰ v vs
unfolding find
find-Mem p [] h = cc h
find-Mem p (w ∷ vs) {v} h = elim (Bool-cases (p w)) [
  | inl e ↦ Memᴰ.head (cc (rw e at h))
  | inr e ↦ Memᴰ.tail (find-Mem p vs (rw e at h))
]

-- A claim is of the video that was found.
decide_attempt-claim :
    (now : ℕ) (v : Video) (found : Option Attempt) {recovering : Bool} {video : Video}
    {attempt : Attempt}
    → decide_attempt now v found ≡ ok (claim recovering video attempt)
    → v ≡ video
unfolding decide_attempt
decide_attempt-claim now v none h = cc h
decide_attempt-claim now v (some a) {video = video} h = elim (Bool-cases (is_final a.status)) [
  | inl e ↦ cc (rw (e, decide_attempt) at h)
  | inr e ↦ elim (Bool-cases (not (has_expired_lease now a) && not (status_eq a.status queued))) [
    | inl f ↦ cc (rw (e, f, decide_attempt) at h)
    | inr f ↦ claim_of (has_expired_lease now a) a (rw (e, f, decide_attempt) at h)
  ]
]
  where
    claim_of :
        (recovers : Bool) (a : Attempt) {recovering : Bool} {attempt : Attempt}
        → ◌≡◌ {A = Result ScanError Decision}
            (ok (claim recovers v a))
            (ok (claim recovering video attempt))
        → v ≡ video
    claim_of recovers a h = cc h

decide_video-claim :
    (now : ℕ) (d : JobData) (store : Store) (found : Option Video) {recovering : Bool}
    {video : Video} {attempt : Attempt}
    → decide_video now d store found ≡ ok (claim recovering video attempt)
    → found ≡ some video
unfolding decide_video
decide_video-claim now d store none h = cc h
decide_video-claim now d store (some v) h = elim (Bool-cases (is_final_video v.security_status)) [
  | inl e ↦ cc (rw (e, decide_video) at h)
  | inr e ↦ ap some (
      decide_attempt-claim now v (find (is_attempt_of d v) store.attempts)
        (rw (e, decide_video) at h))
]

decide_data-IsSourceOf :
    (now : ℕ) (job : Job) (store : Store) (data' : Option JobData) {recovering : Bool}
    {video : Video} {attempt : Attempt}
    → job.data' ≡ data'
    → decide_data now store data' ≡ ok (claim recovering video attempt)
    → IsSourceOf job store video
unfolding decide_data
decide_data-IsSourceOf now job store none read h = cc h
decide_data-IsSourceOf now job store (some d) {video = video} read h =
    let found = decide_video-claim now d store (find (is_source d) store.videos) h in
    let passed : is_source d video ≡ true = find-passes (is_source d) store.videos found in
    (
      d,
      read,
      find-Mem (is_source d) store.videos found,
      ground (arith, eq_iff video.id d.video_id),
      ground (arith, eq_iff video.organization_id d.organization_id),
      ground (arith, eq_iff video.storage_bucket d.bucket),
      ground (arith, eq_iff video.storage_key d.key),
    )

pub decide-IsSourceOf :
    (now : ℕ) (job : Job) (store : Store) {recovering : Bool} {video : Video} {attempt : Attempt}
    → decide now job store ≡ ok (claim recovering video attempt)
    → IsSourceOf job store video
unfolding decide
decide-IsSourceOf now job store h = elim (Bool-cases (str_eq job.name "scan-video")) [
  | inl e ↦ decide_data-IsSourceOf now job store job.data' refl (rw (e, decide) at h)
  | inr e ↦ cc (rw (e, decide) at h)
]

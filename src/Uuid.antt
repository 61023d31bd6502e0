-- ===== src/Uuid.antt =====
-- `apps/api/src/shared/uuid.ts`: UUIDs of version 7. The random bytes that a call draws are arguments,
-- and each byte is taken modulo 256, as a buffer holds it.
use voice_verse_ai.Common.{
  ℕ, zero, suc, ◌+◌, ◌-◌, ◌*◌, ◌/◌, ◌%◌, ◌^◌, ◌≡◌, refl, Bool, true, false, ◌==◌, ltb, leb, max,
  if◌then◌else◌, List, [], ◌∷◌, ◌++◌, map, Option, none, some,
}
pub mod Order
mod Tests

-- The module's variables.
pub record Clock : Type 0 where
  pub last_timestamp : ℕ
  pub sequence : ℕ

unfoldable pub initial_clock : Clock
initial_clock = record { last_timestamp = 0; sequence = 0 }

-- The first lines: the variables after the call. `seed` is the random 16-bit number.
unfoldable pub tick : ℕ → ℕ → Clock → Clock
tick now seed clock =
    let timestamp = max now clock.last_timestamp in
    if timestamp == clock.last_timestamp
    then (let sequence = (clock.sequence + 1) % 4096 in
        record {
          last_timestamp = if sequence == 0 then timestamp + 1 else timestamp;
          sequence = sequence;
        })
    else record { last_timestamp = timestamp; sequence = seed % 4096 }

unfoldable pub byte_at : ℕ → List ℕ → ℕ
byte_at i [] = 0
byte_at zero (b ∷ bs) = b % 256
byte_at (suc i) (b ∷ bs) = byte_at i bs

-- `writeUIntBE(timestamp, 0, 6)`
unfoldable pub timestamp_bytes : ℕ → List ℕ
timestamp_bytes t =
    t / 1099511627776 % 256
    ∷ t / 4294967296 % 256
    ∷ t / 16777216 % 256
    ∷ t / 65536 % 256
    ∷ t / 256 % 256
    ∷ t % 256
    ∷ []

-- The sixteen bytes: time, version and sequence, variant, and what was drawn.
unfoldable pub uuid_bytes : Clock → List ℕ → List ℕ
unfolding timestamp_bytes byte_at
uuid_bytes clock random =
    timestamp_bytes clock.last_timestamp
    ++ (0x70 + clock.sequence / 256 % 16)
      ∷ clock.sequence % 256
      ∷ (byte_at 8 random % 64 + 0x80)
      ∷ byte_at 9 random
      ∷ byte_at 10 random
      ∷ byte_at 11 random
      ∷ byte_at 12 random
      ∷ byte_at 13 random
      ∷ byte_at 14 random
      ∷ byte_at 15 random
      ∷ []

-- The code of a hexadecimal digit.
unfoldable pub hex_digit : ℕ → ℕ
hex_digit d = if ltb d 10 then b'0' + d else b'a' + (d - 10)

-- `bytes.toString('hex')`
unfoldable pub hex : List ℕ → List ℕ
unfolding hex_digit
hex [] = []
hex (b ∷ bs) = hex_digit (b / 16) ∷ hex_digit (b % 16) ∷ hex bs

-- The text, as its characters' codes: the digits with a dash after the 8th, 12th, 16th and 20th.
unfoldable pub dashed : ℕ → List ℕ → List ℕ
dashed n [] = []
dashed n (c ∷ cs) =
    if n == 8
    then b'-' ∷ c ∷ dashed (suc n) cs
    else if n == 12
    then b'-' ∷ c ∷ dashed (suc n) cs
    else if n == 16
    then b'-' ∷ c ∷ dashed (suc n) cs
    else if n == 20
    then b'-' ∷ c ∷ dashed (suc n) cs
    else c ∷ dashed (suc n) cs

-- A time that six bytes do not hold is a range error, after the variables are set.
unfoldable pub uuidv7 : ℕ → ℕ → List ℕ → Clock → Clock × Option (List ℕ)
unfolding tick uuid_bytes hex dashed
uuidv7 now seed random clock =
    let next = tick now seed clock in
    (
      next,
      if ltb next.last_timestamp 281474976710656
          then some (dashed 0 (hex (uuid_bytes next random)))
          else none,
    )

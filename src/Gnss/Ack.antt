-- ===== src/Gnss/Ack.antt =====
-- gnss/settings.rs: `AckParser`, which finds the reply to a setting in the bytes of the receiver.
pub mod Stream
use l_comboard.Base.{
  ℕ, ◌+◌, ◌%◌, List, [], ◌∷◌, Bool, true, false, not, ◌&&◌, ◌||◌, Option, none, some, ◌==◌, ltb,
  if◌then◌else◌, get_or, set, take, drop, replicate,
}

pub data AckOutcome : Type 0 where
  ack nak : AckOutcome

-- `bytes` is an array of 10.
pub record AckParser : Type 0 where
  pub bytes : List ℕ
  pub length : ℕ

unfoldable pub new : AckParser
new = record { bytes = replicate 10 0; length = 0 }

-- The loop over the bytes, from the sums so far.
abbrev pub sums : List ℕ → ℕ → ℕ → ℕ × ℕ
sums [] checksum_a checksum_b = (checksum_a, checksum_b)
sums (value ∷ rest) checksum_a checksum_b =
    let a = (checksum_a + value) % 256 in sums rest a ((checksum_b + a) % 256)

-- The tests of a full buffer.
abbrev pub refused : List ℕ → ℕ → ℕ → Bool
refused bytes expected_class expected_id =
    let (checksum_a, checksum_b) = sums (take 6 (drop 2 bytes)) 0 0 in
    not (get_or bytes 2 0 == 0x05)
    || (not (get_or bytes 3 0 == 0x00 || get_or bytes 3 0 == 0x01)
        || ((not (get_or bytes 4 0 == 0x02) || not (get_or bytes 5 0 == 0x00))
            || (not (get_or bytes 6 0 == expected_class)
                || (not (get_or bytes 7 0 == expected_id)
                    || (not (get_or bytes 8 0 == checksum_a)
                        || not (get_or bytes 9 0 == checksum_b))))))

-- What a full buffer answers.
abbrev pub answer : List ℕ → ℕ → ℕ → Option AckOutcome
answer bytes expected_class expected_id =
    if refused bytes expected_class expected_id
    then none
    else if get_or bytes 3 0 == 0x01
    then some ack
    else some nak

-- A byte that is written: the buffer answers and starts again when it is full.
unfoldable pub store : AckParser → ℕ → ℕ → ℕ → AckParser × Option AckOutcome
store p byte expected_class expected_id =
    let bytes = set p.bytes p.length byte in
    if ltb (p.length + 1) 10
    then (record { bytes = bytes; length = p.length + 1 }, none)
    else (record { bytes = bytes; length = 0 }, answer bytes expected_class expected_id)

unfoldable pub push : AckParser → ℕ → ℕ → ℕ → AckParser × Option AckOutcome
push p byte expected_class expected_id =
    if p.length == 0 && not (byte == 0xb5)
    then (p, none)
    else if p.length == 1 && not (byte == 0x62)
    then (record { bytes = set p.bytes 0 byte; length = if byte == 0xb5 then 1 else 0 }, none)
    else store p byte expected_class expected_id

-- `if let Some(outcome) = … { return Ok(outcome); }`
abbrev pub or_later : Option AckOutcome → Option AckOutcome → Option AckOutcome
or_later (some outcome) later = some outcome
or_later none later = later

-- The loop of `wait_for_ack`, on all the bytes that its reads give.
unfoldable pub first_answer : AckParser → List ℕ → ℕ → ℕ → Option AckOutcome
first_answer p [] expected_class expected_id = none
first_answer p (byte ∷ rest) expected_class expected_id =
    let (q, outcome) = push p byte expected_class expected_id in
    let later = first_answer q rest expected_class expected_id in or_later outcome later

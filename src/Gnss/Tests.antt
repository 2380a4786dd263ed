-- ===== src/Gnss/Tests.antt =====
-- gnss/: the sentence of the unit test of time.rs, a day of its year, and a reply after noise.
use l_comboard.Base.{◌++◌, ℕ, ◌+◌, ◌*◌, ◌≡◌, refl, List, [], ◌∷◌, arith, some}
use l_comboard.Base.Result.{ok}
use l_comboard.Gnss.Ack.{ack, nak, new, push, store, first_answer}
use l_comboard.Gnss.Ack.Stream.{reply, first_answer_sound, first_answer-delivered}
use l_comboard.Gnss.Time.{
  GnssDateTime, verify_checksum, parse_u8, digit_at, parse_milliseconds, parse_time, parse_date,
  to_unix_seconds, parse_rmc_datetime,
}
use l_comboard.Gnss.Time.Calendar.{after, to_unix_seconds-after}
use l_comboard.Gnss.Time.Sentence.{parse_rmc_datetime_total}

-- "$GNRMC,123519.250,V,,,,,,,230826,,,N*54"
abbrev sentence : List ℕ
sentence =
    36 ∷ 71 ∷ 78 ∷ 82 ∷ 77 ∷ 67 ∷ 44 ∷ 49 ∷ 50 ∷ 51 ∷ 53 ∷ 49 ∷ 57 ∷ 46 ∷ 50 ∷ 53 ∷ 48 ∷ 44 ∷ 86
    ∷ 44 ∷ 44 ∷ 44 ∷ 44 ∷ 44 ∷ 44 ∷ 44 ∷ 50 ∷ 51 ∷ 48 ∷ 56 ∷ 50 ∷ 54 ∷ 44 ∷ 44 ∷ 44 ∷ 78 ∷ 42 ∷ 53
    ∷ 52 ∷ []

abbrev told_time : GnssDateTime
told_time = record { unix_seconds = 1787488519; milliseconds = 250 }

checksum_right : verify_checksum sentence ≡ ok 36
unfolding verify_checksum
checksum_right = refl

abbrev time_field : List ℕ
time_field = 49 ∷ 50 ∷ 51 ∷ 53 ∷ 49 ∷ 57 ∷ 46 ∷ 50 ∷ 53 ∷ 48 ∷ []

abbrev date_field : List ℕ
date_field = 50 ∷ 51 ∷ 48 ∷ 56 ∷ 50 ∷ 54 ∷ []

time_parsed : parse_time time_field ≡ ok (12, 35, 19, 250)
unfolding parse_time parse_u8 parse_milliseconds digit_at
time_parsed = refl

date_parsed : parse_date date_field ≡ ok (2026, 8, 23)
unfolding parse_date parse_u8
date_parsed = refl

to_unix_seconds-after_example :
    let t = after 20688 in
    to_unix_seconds t.year t.month t.day 23 59 60 ≡ ok (20688 * 86400 + 23 * 3600 + 59 * 60 + 60)
to_unix_seconds-after_example =
    to_unix_seconds-after 20688 23 59 60 (omega arith) (omega arith) (omega arith) (omega arith)

parse_rmc_datetime_total_example : (t : GnssDateTime) × (parse_rmc_datetime sentence ≡ ok t)
parse_rmc_datetime_total_example =
    parse_rmc_datetime_total sentence 36 12 35 19 250 2026 8 23 (71 ∷ 78 ∷ 82 ∷ 77 ∷ 67 ∷ [])
      time_field date_field checksum_right refl refl refl refl time_parsed date_parsed

-- The reply to the setting 0x06, 0x01 behind a `$`.
abbrev reply_bytes : List ℕ
reply_bytes = 0xb5 ∷ 0x62 ∷ 0x05 ∷ 0x01 ∷ 0x02 ∷ 0x00 ∷ 0x06 ∷ 0x01 ∷ 0x0f ∷ 0x38 ∷ []

noisy_reply : first_answer new (36 ∷ (reply_bytes ++ 36 ∷ [])) 6 1 ≡ some ack
unfolding first_answer new push store
noisy_reply = refl

first_answer_sound_example :
    (before : List ℕ) × (after : List ℕ) × (36 ∷ (reply_bytes ++ 36 ∷ [])
      ≡ before ++ (reply 6 1 ack ++ after))
first_answer_sound_example = first_answer_sound (36 ∷ (reply_bytes ++ 36 ∷ [])) 6 1 ack noisy_reply

first_answer-delivered_example :
    first_answer new ((36 ∷ []) ++ (reply 6 1 nak ++ [])) 6 1 ≡ some nak
first_answer-delivered_example = first_answer-delivered (36 ∷ []) [] 6 1 nak (ground arith, tt)

-- ===== src/Tests/Records.antt =====
-- The records of the sample file, the reversal of bits and the CRC at concrete inputs.
use ri_mms_linux.Prelude.{ℕ, ◌≡◌, refl, arith, List, [], ◌∷◌, some, length}
use ri_mms_linux.Prelude.Int.{pos, negsuc}
use ri_mms_linux.Log.Stamp.{stamp_bytes, tag_sor}
use ri_mms_linux.Log.Stamp.RoundTrip.{read_stamp, read_stamp-stamp_bytes}
use ri_mms_linux.Log.Tags.{tag_temperatura, tag_sampling_started}
use ri_mms_linux.Log.Entries.{
  read_records, concat, read_records-concat, sor, temperatura, sampling_started,
}
use ri_mms_linux.Archive.Crc.{crc32_from_stream}
use ri_mms_linux.Tests.Fixtures.{calendar, noon}

abbrev logged : List (List ℕ)
logged =
    tag_sampling_started
    ∷ tag_sor calendar (pos 1308141296) (pos 0)
    ∷ tag_temperatura (negsuc 14)
    ∷ []

read_records-concat_example : read_records (length logged) (concat logged) ≡ logged
read_records-concat_example =
    read_records-concat logged
      (sampling_started, (sor calendar (pos 1308141296) (pos 0), (temperatura (negsuc 14), tt)))

read_stamp-stamp_bytes_example :
    read_stamp (stamp_bytes noon (negsuc 4))
    ≡ some record { day = 15; month = 6; year = 11; offset = negsuc 4; tenths = 452960 }
read_stamp-stamp_bytes_example =
    read_stamp-stamp_bytes noon (negsuc 4)
      record {
        sec_in = omega arith;
        minute_in = omega arith;
        hour_in = omega arith;
        mday_in = omega arith;
        mon_in = omega arith;
        year_from = omega arith;
        year_to = omega arith;
      }
      (omega arith, omega arith)

-- The check value of the CRC-32 that zip and Ethernet use: that of "123456789".
crc_check :
    crc32_from_stream (0x31 ∷ 0x32 ∷ 0x33 ∷ 0x34 ∷ 0x35 ∷ 0x36 ∷ 0x37 ∷ 0x38 ∷ 0x39 ∷ [])
    ≡ 0xCBF43926
unfolding crc32_from_stream
crc_check = refl

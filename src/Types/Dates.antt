-- ===== src/Types/Dates.antt =====
-- Dates to timestamps and back.
use anysphere_messaging.Common.{suc, ◌+◌, ◌%◌, ◌≡◌, arith, if◌then◌else◌, ◌==◌}
use anysphere_messaging.Common.Int.{ℤ, pos, negsuc}
use anysphere_messaging.Types.{date_to_protobuf_date, protobuf_date_to_date}

-- A date from 1970 on comes back from its timestamp unchanged. So does an earlier one that falls
-- on a whole second; any other earlier one comes back a second too early.
pub date-to_protobuf_date :
    (ms : ℤ)
    → protobuf_date_to_date (date_to_protobuf_date ms) ≡ elim ms [
      | pos n ↦ pos n
      | negsuc n ↦ if suc n % 1000 == 0 then negsuc n else negsuc (n + 1000)
    ]
unfolding date_to_protobuf_date protobuf_date_to_date
date-to_protobuf_date (pos n) = ground arith
date-to_protobuf_date (negsuc n) = ground arith

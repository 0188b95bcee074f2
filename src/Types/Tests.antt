-- ===== src/Types/Tests.antt =====
-- Dates around 1970.
use anysphere_messaging.Common.{◌≡◌, refl}
use anysphere_messaging.Common.Int.{pos, negsuc}
use anysphere_messaging.Types.{date_to_protobuf_date, protobuf_date_to_date}
use anysphere_messaging.Types.Dates.{date-to_protobuf_date}

-- One millisecond before 1970 comes back as 1001 milliseconds before it.
before_1970 : protobuf_date_to_date (date_to_protobuf_date (negsuc 0)) ≡ negsuc 1000
unfolding protobuf_date_to_date date_to_protobuf_date
before_1970 = refl

date-to_protobuf_date_example :
    protobuf_date_to_date (date_to_protobuf_date (pos 1656000000123)) ≡ pos 1656000000123
date-to_protobuf_date_example = date-to_protobuf_date (pos 1656000000123)

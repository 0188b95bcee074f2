-- ===== src/Types.antt =====
-- The values that the client exchanges with the daemon, as the objects of
-- client/gui/src/daemon/schema/daemon_pb.d.ts (generated from daemon.proto), and the conversions of
-- dates of client/gui/src/types.ts. A date is its `getTime()`, whole milliseconds since 1970.
pub mod Dates
mod Tests
use anysphere_messaging.Common.{ℕ, zero, suc, ◌*◌, ◌/◌, ◌%◌, ◌^◌, Bool, JsString, List, Option}
use anysphere_messaging.Common.Int.{ℤ, pos, negsuc, ◌+ℤ◌}

pub record Timestamp : Type 0 where
  pub seconds : ℤ
  pub nanos : ℤ

pub record IncomingMaybeFriend : Type 0 where
  pub public_id : JsString
  pub unique_name : JsString
  pub display_name : JsString

pub record IncomingMessage : Type 0 where
  pub uid : ℕ
  pub message : JsString
  pub from_unique_name : JsString
  pub from_display_name : JsString
  pub other_recipients_list : List IncomingMaybeFriend
  pub delivered_at : Option Timestamp
  pub seen : Bool
  pub delivered : Bool

pub record OutgoingFriend : Type 0 where
  pub unique_name : JsString
  pub display_name : JsString
  pub delivered : Bool
  pub delivered_at : Option Timestamp

pub record OutgoingMessage : Type 0 where
  pub uid : ℕ
  pub message : JsString
  pub to_friends_list : List OutgoingFriend
  pub sent_at : Option Timestamp

pub data InvitationProgress : Type 0 where
  outgoing_async outgoing_sync complete : InvitationProgress

pub record Friend : Type 0 where
  pub unique_name : JsString
  pub display_name : JsString
  pub public_id : JsString
  pub invitation_progress : InvitationProgress

pub record IncomingAsyncInvitation : Type 0 where
  pub public_id : JsString
  pub message : JsString
  pub received_at : Option Timestamp

pub record OutgoingAsyncInvitation : Type 0 where
  pub unique_name : JsString
  pub display_name : JsString
  pub public_id : JsString
  pub message : JsString
  pub sent_at : Option Timestamp

pub record OutgoingSyncInvitation : Type 0 where
  pub unique_name : JsString
  pub display_name : JsString
  pub story : JsString
  pub sent_at : Option Timestamp

abbrev pub neg : ℕ → ℤ
neg zero = pos 0
neg (suc n) = negsuc n

-- `Math.floor(a / k)`, for a positive `k`.
unfoldable pub floor_div : ℤ → ℕ → ℤ
floor_div (pos n) k = pos (n / k)
floor_div (negsuc n) k = negsuc (n / k)

-- `a % k` of JavaScript takes the sign of `a`.
unfoldable pub rem : ℤ → ℕ → ℤ
rem (pos n) k = pos (n % k)
rem (negsuc n) k = neg (suc n % k)

-- Rounding towards zero, which the constructor `Date` does to its argument.
unfoldable pub trunc_div : ℤ → ℕ → ℤ
trunc_div (pos n) k = pos (n / k)
trunc_div (negsuc n) k = neg (suc n / k)

unfoldable pub scale : ℕ → ℤ → ℤ
scale k (pos n) = pos (k * n)
scale k (negsuc n) = neg (k * suc n)

-- `new Date(date.seconds * 1e3 + date.nanos / 1e6)`. The sum is taken in units of 1e-6 ms, exactly;
-- the doubles of the source are exact where `nanos` is a multiple of 1e6.
unfoldable pub protobuf_date_to_date : Timestamp → ℤ
unfolding trunc_div scale ◌+ℤ◌
protobuf_date_to_date t = trunc_div (scale (10 ^ 9) t.seconds +ℤ t.nanos) (10 ^ 6)

unfoldable pub date_to_protobuf_date : ℤ → Timestamp
unfolding floor_div rem scale
date_to_protobuf_date ms = record {
  seconds = floor_div ms 1000;
  nanos = scale (10 ^ 6) (rem ms 1000);
}

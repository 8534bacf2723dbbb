-- ===== src/Fulfillment/Status.antt =====
-- `RESERVATION_STATUSES` of apps/fulfillment/src/domain/reservation.ts.
use order_to_cash_nestjs.Base.{Bool, true, false}

pub data ReservationStatus : Type 0 where
  reserved released consumed : ReservationStatus

abbrev pub is_reserved : ReservationStatus → Bool
is_reserved reserved = true
is_reserved _ = false

abbrev pub is_released : ReservationStatus → Bool
is_released released = true
is_released _ = false

abbrev pub is_consumed : ReservationStatus → Bool
is_consumed consumed = true
is_consumed _ = false

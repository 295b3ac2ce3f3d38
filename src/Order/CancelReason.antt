-- ===== src/Order/CancelReason.antt =====
-- The reasons of cancellation of common/model/order.go.
use mai3_broker.Base.{String}

abbrev pub expired : String
expired = "EXPIRED"

abbrev pub close_only : String
close_only = "CANCELED_BY_CLOSE_ONLY"

abbrev pub user_cancel : String
user_cancel = "CANCELED_BY_USER"

abbrev pub transaction_fail : String
transaction_fail = "TRANSACTION_FAIL"

abbrev pub remain_too_small : String
remain_too_small = "REMAIN_TOO_SMALL"

abbrev pub insufficient_funds : String
insufficient_funds = "INSUFFICIENT_FUNDS"

abbrev pub contract_settled : String
contract_settled = "CONTRACT_SETTLED"

-- ===== src/Server/Requests.antt =====
-- What the bridge asks of the order book module (server/src/app.rs), over the bus of the server.
use hyliquid.Prelude.{ℕ, String}
use hyliquid.Types.{ContractName, WithdrawDestination}

pub record PendingDeposit : Type 0 where
  pub sender : String
  pub contract_name : ContractName
  pub amount : ℕ

pub record PendingWithdraw : Type 0 where
  pub destination : WithdrawDestination
  pub contract_name : ContractName
  pub amount : ℕ

pub data OrderbookRequest : Type 0 where
  pending_deposit : PendingDeposit → OrderbookRequest
  pending_withdraw : PendingWithdraw → OrderbookRequest

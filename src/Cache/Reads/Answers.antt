-- ===== src/Cache/Reads/Answers.antt =====
-- What the hooks of useSubscriptions.ts and useWallet.ts make of an answer.
use frixel_connect.Base.{ℕ, Bool, false, String, Option, none, some, List, ◌==◌, if◌then◌else◌}

-- What a request ends with: an answer, or an error with the status of the answer, if there was one.
pub data Outcome {ℓ} (A : Type ℓ) : Type ℓ where
  returned : A → Outcome A
  thrown : Option ℕ → Outcome A

unfoldable pub axios_is_404 : Option ℕ → Bool
axios_is_404 none = false
axios_is_404 (some status) = status == 404

-- The `queryFn` of `useMySubscription`: no subscription is an answer too.
unfoldable pub my_subscription_of {ℓ} : {A : Type ℓ} → Outcome A → Outcome (Option A)
unfolding axios_is_404
my_subscription_of (returned subscription) = returned (some subscription)
my_subscription_of (thrown status) = if axios_is_404 status then returned none else thrown status

-- The answer of the wallet, and what its two hooks keep of it.
pub record WalletAnswer {ℓ} (T : Type ℓ) : Type ℓ where
  pub balance : ℕ
  pub paybill_number : String
  pub wallet_reference : String
  pub transactions : List T

pub record WalletBalance : Type 0 where
  pub balance_kes : ℕ
  pub paybill_number : String
  pub wallet_reference : String

unfoldable pub wallet_balance_of {ℓ} : {T : Type ℓ} → WalletAnswer T → WalletBalance
wallet_balance_of answer = record {
  balance_kes = answer.balance;
  paybill_number = answer.paybill_number;
  wallet_reference = answer.wallet_reference;
}

unfoldable pub wallet_transactions_of {ℓ} : {T : Type ℓ} → WalletAnswer T → List T
wallet_transactions_of answer = answer.transactions

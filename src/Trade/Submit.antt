-- ===== src/Trade/Submit.antt =====
-- The ends that all transactions of the program share: nonce, gas price, signature, sending.
pub mod Laws
use go_fourmeme.Base.{ℕ, String, Option, none, some}
use go_fourmeme.Base.Text.{Text, slice10}
use go_fourmeme.Base.Int.{ℤ, pos, scale, div_ℤ}
use go_fourmeme.Config.{Address, Hash}
use go_fourmeme.Entity.{LegacyTx}
use go_fourmeme.World.{
  Env, Error, message, Reply, good, bad, M, Result, ok, err, panic, pure, ask, check, or_panic,
  ◌>>=◌, ◌>>◌, nonce_at, suggest_gas, send,
}

-- A nonce that came with an error is not used.
abbrev pub nonce_or_fail : ℕ × Option Error → M ℕ
nonce_or_fail (n, none) w = (ok n, w)
nonce_or_fail (n, some e) w = (err (message "nonce"), w)

-- Ten percent above the suggestion, rounded down; 1 gwei where there is no suggestion.
abbrev pub raise_gas : Option ℤ × Option Error → M ℤ
raise_gas (g, some e) w = (ok (pos 1_000_000_000), w)
raise_gas (some g, none) w = (ok (div_ℤ (scale 11 g) 10), w)
raise_gas (none, none) w = (panic, w)

-- How an error of the signature or of the sending is reported: as it is, or under a title.
abbrev pub titled : Option String → Error → Error
titled none e = e
titled (some title) e = message title

abbrev pub check_titled : {A : Type 0} → Option String → Reply A → M A
check_titled title (good a) w = (ok a, w)
check_titled title (bad e) w = (err (titled title e), w)

abbrev pub sent_titled : Option String → Option Error → M (Unit {0})
sent_titled title none w = (ok tt, w)
sent_titled title (some e) w = (err (titled title e), w)

module _ (env : Env) where
  -- Signing and sending. The closing log line slices the address of the token.
  unfoldable pub sign_and_send : Option String → Option String → LegacyTx → Text → ℕ → M Text
  sign_and_send sign_title send_title tx token_addr key = do
    sig ← check_titled sign_title (env.sign key tx)
    sent_titled send_title (← ask (send tx sig) (λ t. env.sending t tx))
    or_panic (slice10 token_addr)
    pure (env.tx_hash tx sig)

  -- The part of the manager trades behind the packing: everything that can fail is checked.
  unfoldable pub submit : Option String → Option String → Address → ℤ → Text → Text → ℕ → M Text
  submit sign_title send_title to amount input token_addr key = do
    n ← nonce_or_fail (← ask (nonce_at env.wallet_address) (λ t. env.nonce t env.wallet_address))
    g ← raise_gas (← ask suggest_gas env.gas_price)
    let tx : LegacyTx = record {
      nonce = n;
      to = to;
      amount = amount;
      gas = 1_200_000;
      gas_price = some g;
      payload = input;
    }
    sign_and_send sign_title send_title tx token_addr key

  -- The part that the approvals and the router trades share: errors of the nonce and of the gas
  -- price are dropped and whatever value came with them is used.
  unfoldable pub submit_unchecked : Address → Address → ℤ → ℕ → Text → M ℕ → Option String → M Text
  submit_unchecked from to amount gas input key send_title = do
    n ← ask (nonce_at from) (λ t. env.nonce t from)
    g ← ask suggest_gas env.gas_price
    let tx : LegacyTx = record {
      nonce = n.0;
      to = to;
      amount = amount;
      gas = gas;
      gas_price = g.0;
      payload = input;
    }
    k ← key
    sig ← check (env.sign k tx)
    sent_titled send_title (← ask (send tx sig) (λ t. env.sending t tx))
    pure (env.tx_hash tx sig)

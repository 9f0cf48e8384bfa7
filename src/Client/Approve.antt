-- ===== src/Client/Approve.antt =====
-- client/erc20_client.go: the allowance of a token for a manager.
use go_fourmeme.Base.{ℕ, some, [], ◌∷◌, if◌then◌else◌}
use go_fourmeme.Base.Text.{Text}
use go_fourmeme.Base.Int.{ℤ, pos, ltb_ℤ}
use go_fourmeme.Entity.{address, number}
use go_fourmeme.World.{
  Env, message, call_contract, Reply, good, bad, M, pure, ask, check, check_as, ◌>>=◌, erc20,
}
use go_fourmeme.Trade.Submit.{submit_unchecked}

module _ (env : Env) where
  -- The input of a call whose packing error is dropped: nil.
  abbrev packed_or_nil : Reply Text → Text
  packed_or_nil (good input) = input
  packed_or_nil (bad _) = []

  unfoldable pub raise_allowance : Text → Text → ℤ → ℕ → M Text
  raise_allowance token_addr to balance private_key = do
    input ←
        check_as
          (env.pack erc20 "approve" (address (env.hex_to_address to) ∷ number (some balance) ∷ []))
          (message "pack approve")
    submit_unchecked env (env.key_address private_key) (env.hex_to_address token_addr) (pos 0)
        100_000 input (pure private_key) (some "send approve")

  -- `Approve`: the owner is the address of the key. A transaction is sent only if the allowance is
  -- below the balance.
  unfoldable pub approve : Text → Text → ℤ → ℕ → M Text
  unfolding raise_allowance
  approve token_addr to balance private_key = do
    let token = env.hex_to_address token_addr
    let input = packed_or_nil (
        env.pack erc20 "allowance"
          (address (env.key_address private_key) ∷ address (env.hex_to_address to) ∷ []))
    output ←
        check_as (← ask (call_contract token input) (λ t. env.contract t token input))
          (message "query allowance")
    current_allowance ← check (env.unpack_amount "allowance" output)
    if ltb_ℤ (pos current_allowance) balance
        then raise_allowance token_addr to balance private_key
        else pure []

-- ===== src/Trade/Submit/Laws.antt =====
-- A submission against its contract: what the node has accepted tells how the call ended.
use go_fourmeme.Base.{ℕ, String, ◌≡◌, refl, ◌⊎◌, inl, Option, none, some, List, [], ◌∷◌, arith}
use go_fourmeme.Base.Text.{Text, slice10}
use go_fourmeme.Base.Int.{ℤ, pos, scale, div_ℤ}
use go_fourmeme.Config.{Address}
use go_fourmeme.Entity.{LegacyTx}
use go_fourmeme.World.{
  Env, Error, World, Result, ok, err, panic, Trace, nonce_at, suggest_gas, send,
}
use go_fourmeme.Trade.Submit.{sign_and_send, submit}

module _ (env : Env) where
  abbrev pub accept : Option Error → LegacyTx → List LegacyTx → List LegacyTx
  accept none tx txs = tx ∷ txs
  accept (some e) tx txs = txs

  -- The transactions that the node took, the last one first.
  abbrev pub accepted : Trace → List LegacyTx
  accepted [] = []
  accepted (send tx sig ∷ t) = accept (env.sending t tx) tx (accepted t)
  accepted (c ∷ t) = accepted t

  -- A transaction to `to` with this value and payload, at the nonce that the node answered for the
  -- wallet.
  pub record IsTrade (t : Trace) (to : Address) (amount : ℤ) (input : Text) (tx : LegacyTx)
      : Type 0 where
    pub to_ok : tx.to ≡ to
    pub amount_ok : tx.amount ≡ amount
    pub payload_ok : tx.payload ≡ input
    pub nonce_ok : env.nonce t env.wallet_address ≡ (tx.nonce, none)
    pub gas_ok : tx.gas ≡ 1_200_000

  -- The last request was a transaction of this kind, the node took it, and the text is its hash.
  abbrev pub SentLast : World → Address → ℤ → Text → Text → Trace → Type 0
  SentLast w to amount input h (send tx sig ∷ t) =
      (h ≡ env.tx_hash tx sig)
      × IsTrade w.trace to amount input tx
      × (env.sending t tx ≡ none)
      × (accepted t ≡ accepted w.trace)
  SentLast w to amount input h _ = ⊥

  -- What a submission that began at `w` has done, by how it ended: it returned the hash of the one
  -- transaction that the node took on top of those before; or it failed and the node took none; or
  -- it panicked, which it does only at a nil gas price, or behind the one transaction for an address
  -- of the token that is shorter than ten bytes.
  abbrev pub Submits : World → Address → ℤ → Text → Text → Result Text × World → Type 0
  Submits w to amount input token_addr (ok h, w') = SentLast w to amount input h w'.trace
  Submits w to amount input token_addr (err e, w') = accepted w'.trace ≡ accepted w.trace
  Submits w to amount input token_addr (panic, w') =
      (accepted w'.trace ≡ accepted w.trace) ⊎ (slice10 token_addr ≡ none)

  sign_and_send-Submits :
      (st se : Option String) (to : Address) (amount : ℤ) (tx : LegacyTx) (token_addr : Text)
      (key : ℕ) (v w : World)
      → IsTrade v.trace to amount tx.payload tx
      → accepted w.trace ≡ accepted v.trace
      → Submits v to amount tx.payload token_addr (sign_and_send env st se tx token_addr key w)
  unfolding sign_and_send
  sign_and_send-Submits st se to amount tx token_addr key v w h e = ground arith

  module _ (st se : Option String) (to : Address) (amount : ℤ) (input token_addr : Text) (key : ℕ)
      (w : World) (n : ℕ) (answered : env.nonce w.trace env.wallet_address ≡ (n, none)) where
    -- The request for the gas price takes no transaction.
    priced : ℤ → Result Text × World
    priced g =
        sign_and_send env st se
          (record {
            nonce = n;
            to = to;
            amount = amount;
            gas = 1_200_000;
            gas_price = some g;
            payload = input;
          })
          token_addr key (record w { trace = suggest_gas ∷ nonce_at env.wallet_address ∷ w.trace })

    priced-Submits : (g : ℤ) → Submits w to amount input token_addr (priced g)
    unfolding priced
    priced-Submits g =
        sign_and_send-Submits st se to amount
          (record {
            nonce = n;
            to = to;
            amount = amount;
            gas = 1_200_000;
            gas_price = some g;
            payload = input;
          })
          token_addr key w
          (record w { trace = suggest_gas ∷ nonce_at env.wallet_address ∷ w.trace })
          (record {
            to_ok = refl;
            amount_ok = refl;
            payload_ok = refl;
            nonce_ok = answered;
            gas_ok = refl;
          })
          refl

    gas_step :
        (q : Option ℤ × Option Error)
        → env.gas_price (nonce_at env.wallet_address ∷ w.trace) ≡ q
        → Submits w to amount input token_addr (submit env st se to amount input token_addr key w)
    unfolding submit priced
    gas_step (g, some e) k = rw (answered, submit) (rw k (priced-Submits (pos 1_000_000_000)))
    gas_step (some g, none) k =
        rw (answered, submit) (rw k (priced-Submits (div_ℤ (scale 11 g) 10)))
    gas_step (none, none) k = rw (answered, submit) (rw k (inl refl))

  pub submit-Submits :
      (st se : Option String) (to : Address) (amount : ℤ) (input token_addr : Text) (key : ℕ)
      (w : World)
      → Submits w to amount input token_addr (submit env st se to amount input token_addr key w)
  unfolding submit
  submit-Submits st se to amount input token_addr key w =
      nonce_step (env.nonce w.trace env.wallet_address) refl
    where
      nonce_step :
          (p : ℕ × Option Error)
          → env.nonce w.trace env.wallet_address ≡ p
          → Submits w to amount input token_addr (submit env st se to amount input token_addr key w)
      nonce_step (n, some e) h = rw (h, submit) refl
      nonce_step (n, none) h =
          gas_step st se to amount input token_addr key w n h
            (env.gas_price (nonce_at env.wallet_address ∷ w.trace)) refl

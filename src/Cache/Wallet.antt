-- ===== src/Cache/Wallet.antt =====
-- What buying a voucher from the wallet makes stale of the wallet.
use frixel_connect.Base.{
  ◌≡◌, refl, ap, ◌∙◌, inl, inr, true, false, String, Option, List, [], ◌∷◌, ◌++◌, is_empty, All,
  Bool-cases, ◌===◌,
}
use frixel_connect.Portal.{AuthUser}
use frixel_connect.Queries.{Part, text, key_of}
use frixel_connect.Cache.{tenant_id_of, user_id_of, if_tenant}
use frixel_connect.Cache.Client.{
  QueryClient, MatchesPrefixes, invalidate_all, invalidate_all-others, invalidate_all-marks,
}
use frixel_connect.Cache.Reads.{use_wallet_balance, use_wallet_transactions}
use frixel_connect.Cache.Writes.{use_generate_wallet_voucher}

-- The second part of a key.
abbrev second : List Part → String
second (a ∷ text b ∷ rest) = b
second _ = ""

module _ {ℓ κ} {D : Type ℓ} {C : Type κ} (client : QueryClient Part C)
    (law : MatchesPrefixes client) (body : D) (user : Option AuthUser) (c : C) where
  abbrev bought : C
  bought = invalidate_all client (use_generate_wallet_voucher body user).on_success c

  -- What would make the transactions stale: keys of other kinds do not.
  never :
      All
        (λ key.
          (rest : List Part)
          → key ++ rest ≡ (use_wallet_transactions user).query_key
          → true ≡ false)
        (use_generate_wallet_voucher body user).on_success
  unfolding use_generate_wallet_voucher use_wallet_transactions key_of if_tenant
  never = elim (Bool-cases (is_empty (tenant_id_of user))) [
    | inl e ↦ rw (e, if_tenant) tt
    | inr e ↦
        rw (e, if_tenant)
          (
            λ rest e. ap (λ k. second k === "balance") e,
            (λ rest e. ap (λ k. second k === "reseller") e, tt),
          )
  ]

  balance :
      is_empty (tenant_id_of user) ≡ false
      → client.is_stale (use_wallet_balance user).query_key bought ≡ true
  unfolding use_wallet_balance use_generate_wallet_voucher key_of if_tenant
  balance t =
      rw (t, if_tenant)
        (invalidate_all-marks client law []
          ((text "vouchers" ∷ text "reseller" ∷ text (tenant_id_of user) ∷ []) ∷ [])
          (text "wallet" ∷ text "balance" ∷ text (user_id_of user) ∷ text (tenant_id_of user) ∷ [])
          [] c)

  -- When a reseller has bought a voucher from the wallet, the balance is fetched anew but the transactions
  -- are not, though both are read from the same address.
  pub generate-wallet_transactions :
      is_empty (tenant_id_of user) ≡ false
      → client.is_stale (use_wallet_transactions user).query_key c ≡ false
      → let after = invalidate_all client (use_generate_wallet_voucher body user).on_success c in
        ((use_wallet_balance user).url ≡ (use_wallet_transactions user).url)
        × (client.is_stale (use_wallet_balance user).query_key after ≡ true)
        × (client.is_stale (use_wallet_transactions user).query_key after ≡ false)
  unfolding use_wallet_balance use_wallet_transactions use_generate_wallet_voucher
  generate-wallet_transactions t fresh = (
    refl,
    balance t,
    invalidate_all-others client law (use_generate_wallet_voucher body user).on_success
          (use_wallet_transactions user).query_key c never
        ∙ fresh,
  )

-- ===== src/App/FacadeView.antt =====
-- The token façade's views (app/src/handlers/erc20.ts, `view`), and `metadataOf` of the ledger
-- (app/src/ledger.ts).
use op_cartesi.Evm.Encoding.{error_revert}
use op_cartesi.Base.{
  ℕ, zero, suc, ◌+◌, ◌/◌, ◌%◌, none, some, [], ◌∷◌, ◌++◌, ◌==◌, if◌then◌else◌, Result, ok, err,
  codes,
}
use op_cartesi.Bytes.{Bytes}
use op_cartesi.Evm.Types.{CallContext, Reason, text, ViewOutcome, return}
use op_cartesi.Evm.External.{
  Erc20View, balance_of, total_supply_view, decimals_view, name_view, symbol_view, ViewValue,
  natural, whole, characters, Erc20Call, transfer, view_call, other_function, External,
}
use op_cartesi.Ledger.Types.{TokenMetadata, Ledger}
use op_cartesi.Ledger.Operations.{total_supply, token_balance, token_by_l2_address}
use op_cartesi.App.World.{World}

-- The decimal digits of a number, in at most `fuel` places, before the digits that are done.
abbrev decimal_from : ℕ → ℕ → Bytes → Bytes
decimal_from zero n done = done
decimal_from (suc fuel) n done =
    let place = (n % 10 + 48) ∷ done in
    let rest = decimal_from fuel (n / 10) place in if n / 10 == 0 then place else rest

-- One place for each unit is more than enough.
abbrev decimal : ℕ → Bytes
decimal n = decimal_from (n + 1) n []

unfoldable pub metadata_of : ℕ → Ledger → TokenMetadata
metadata_of id l = elim (l.ram.metadata id) [
  | some m ↦ m
  | none ↦ record {
    name = codes "UNREGISTERED-" ++ decimal id;
    symbol = codes "UNREG-" ++ decimal id;
    decimals = 0;
  }
]

abbrev balance_value : Result ℕ → Result ViewValue
balance_value (ok b) = ok (natural b)
balance_value (err e) = err e

module _ (ext : External) where
  unfoldable pub facade_value : Erc20View → ℕ → Ledger → Result ViewValue
  unfolding metadata_of
  facade_value (balance_of owner) id l = balance_value (token_balance ext.keccak256 owner id l).0
  facade_value total_supply_view id l = ok (whole (total_supply id l))
  facade_value decimals_view id l = ok (natural (metadata_of id l).decimals)
  facade_value name_view id l = ok (characters (metadata_of id l).name)
  facade_value symbol_view id l = ok (characters (metadata_of id l).symbol)

  abbrev returned : Result Bytes → Result ViewOutcome
  returned (ok b) = ok (return b)
  returned (err e) = err e

  unfoldable pub encoded_value : Result ViewValue → Result ViewOutcome
  encoded_value (ok v) = returned (ext.encode_function_result v)
  encoded_value (err e) = err e

  abbrev pub refused_view : Reason → Result ViewOutcome
  refused_view reason = ok (ViewOutcome.revert (error_revert ext reason))

  unfoldable pub facade_query : Erc20Call → ℕ → Ledger → Result ViewOutcome
  unfolding facade_value encoded_value
  facade_query (view_call q) id l = encoded_value (facade_value q id l)
  facade_query (transfer to value) id l = refused_view (text "is not a view")
  facade_query other_function id l = refused_view (text "is not a view")

  -- `Erc20Facade.view`
  unfoldable pub facade_view : {A : Type 0} → CallContext → World A → Result ViewOutcome
  unfolding facade_query
  facade_view call w = elim (token_by_l2_address ext.keccak256 call.to w.ledger) [
    | none ↦ refused_view (text "unknown token")
    | some t ↦ elim (ext.decode_erc20 call.payload) [
      | none ↦ refused_view (text "unknown function")
      | some c ↦ facade_query c t.id w.ledger
    ]
  ]

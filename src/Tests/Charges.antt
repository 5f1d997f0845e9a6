-- ===== src/Tests/Charges.antt =====
-- Alice's account after transactions and deposits that did not go well.
use Prim.Native.String.{String}
use op_cartesi.Base.{◌≡◌, refl, some, [], arith, ether_funds, insufficient, ok}
use op_cartesi.Evm.Types.{described}
use op_cartesi.App.Parse.{DepositInput}
use op_cartesi.App.Router.{rejection}
use op_cartesi.App.Router.Unfunded.{deposit-unfunded}
use op_cartesi.App.Router.Input.{advance_deposit}
use op_cartesi.Drive.Registry.{compact}
use op_cartesi.Tests.World.{alice, bob, toy_ext, start_ledger, start, test_router, test_block}
use op_cartesi.Tests.Tables.{alice_before, alice-IsHolding}
use op_cartesi.Tests.Routing.{start-IsReady}

-- Alice mints 5 and asks for 400.
abbrev large_deposit : DepositInput
large_deposit = record { from = alice; to = some bob; mint = 5; value = 400; payload = [] }

deposit-unfunded_example :
    let end = advance_deposit toy_ext test_router test_block large_deposit start in
    (end.0 ≡ ok (rejection (described (insufficient ether_funds))))
    × (end.1.ledger ≡ start_ledger)
    × (end.1.sink.emissions ≡ [])
unfolding compact
deposit-unfunded_example =
    deposit-unfunded toy_ext test_router test_block large_deposit bob alice_before start
      start-IsReady alice-IsHolding (omega arith) (omega arith) refl (omega arith)

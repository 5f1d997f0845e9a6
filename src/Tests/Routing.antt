-- ===== src/Tests/Routing.antt =====
-- The router and the ledger at the small world.
use op_cartesi.App.Inspect.{inspect, InspectResult}
use op_cartesi.App.Inspect.Views.{no_handler}
use op_cartesi.App.Inspect.Answers.{inspect_answers}
use op_cartesi.App.Config.Frame.{config_advance-Keeps}
use op_cartesi.App.Config.{config_advance}
use op_cartesi.App.Config.Escrow.{config_advance-IsExclusive, IsExclusive}
use op_cartesi.Evm.Types.{tag_revert, TxContext, text, described, AdvanceOutcome, fail, report}
use op_cartesi.Evm.External.{legacy}
use op_cartesi.Ledger.Types.{Ledger}
use op_cartesi.App.World.Frame.{OnWorld}
use op_cartesi.App.Router.Outcomes.{execute-revert, execute-throw, deposit-revert}
use op_cartesi.App.Router.Admission.{admit-refused}
use op_cartesi.Base.Frame.{Keeps}
use op_cartesi.Evm.Encoding.{error_revert}
use op_cartesi.App.Handlers.{portal_advance}
use op_cartesi.Drive.Registry.{compact, reload_registry}
use op_cartesi.Drive.Table.{
  account_key, accounts_table, live, home, displacement, counter, write_store, set_counter,
  read_slot, write_slot, lookup, insert,
}
use op_cartesi.Drive.Accounts.{
  decode_account, encode_account, nonzero_address, get_account, insert_new, set_account,
}
use op_cartesi.Drive.Config.{to_address}
use op_cartesi.Ledger.Journal.{journaled_store, mark, rollback_to, commit}
use op_cartesi.Ledger.Operations.{
  on_drive, portal_kind, account, put_account, credit_ether, debit_ether, bump_nonce_and_charge,
  after_rollback,
}
use op_cartesi.Ledger.Operations.Rollback.{IsCached, rollback_restores}
use op_cartesi.App.World.{on_ledger, World, Handler}
use op_cartesi.App.Parse.{deposit_of, classify, parse_input, SignedInput}
use op_cartesi.App.Router.{
  rejection, result_of, reports_only, find_handler, new_sink, or_else, portal_receiver, resolve,
  enter, dispatch, execute, Router, as_revert, Chargeable,
}
use op_cartesi.App.Router.Input.{finish_deposit, admit, advance}
use op_cartesi.App.Router.Frame.{dispatch-Keeps, done}
use op_cartesi.App.Router.Settle.{Settles, IsReady}
use op_cartesi.App.Router.Advance.{MintIsCached, advance-Settles}
use op_cartesi.Tests.World.{
  alice, bob, application, toy_keccak, toy_ext, start_ledger, start, test_router, test_block,
}
use op_cartesi.Base.{
  pure, ◌>>=◌, ℕ, ◌≡◌, refl, inl, true, false, none, some, [], ◌∷◌, ◌++◌, arith, ◌>>◌, ether_funds,
  insufficient, ok, err,
}
use Prim.Native.String.{String}
use op_cartesi.Bytes.{Bytes, is_zero, bytes_equal, read_be, put_be, get_le, put_le}

-- A deposit of 5 from Alice, with a value of 3, to the application: no portal is registered, so it
-- reverts and the mint stays.
abbrev pub deposit_bytes : Bytes
deposit_bytes = 0x7e ∷ []

pub start_ledger-IsCached : IsCached toy_keccak start_ledger
unfolding after_rollback ◌>>=◌ reload_registry
start_ledger-IsCached = refl

pub start-IsReady : IsReady toy_ext test_router start
unfolding mark
start-IsReady = record { cached = start_ledger-IsCached; empty = refl }

pub minted-IsCached :
    MintIsCached toy_ext test_router (parse_input toy_ext deposit_bytes) start_ledger
unfolding MintIsCached parse_input classify deposit_of after_rollback ◌>>=◌ reload_registry
    credit_ether on_ledger account put_account on_drive get_account set_account lookup insert
    insert_new decode_account encode_account compact to_address nonzero_address is_zero bytes_equal
    get_le put_le read_be put_be accounts_table account_key read_slot journaled_store home live
    write_slot write_store counter set_counter displacement
minted-IsCached = refl

advance-Settles_example :
    Settles start_ledger (advance toy_ext test_router test_block deposit_bytes start)
advance-Settles_example =
    advance-Settles toy_ext test_router test_block deposit_bytes start done start-IsReady
      minted-IsCached

-- Alice pays 40 of her 100 to the application's address, which refuses what is not a deposit.
abbrev pub payment : TxContext
payment = record {
  block = test_block;
  sender = alice;
  to = application;
  value = 40;
  payload = [];
  is_deposit = false;
  mint = 0;
}

abbrev pub alice_pays : Chargeable
alice_pays = record { address = alice; fee = 7 }

abbrev pub begun_world : World ℕ
begun_world = record start { sink = new_sink 0 }

abbrev pub paid : World ℕ
paid = (dispatch toy_ext test_router payment begun_world).1

abbrev charged_ledger : Ledger
charged_ledger = (bump_nonce_and_charge toy_keccak alice 7 start_ledger).1

alice_is_charged : bump_nonce_and_charge toy_keccak alice 7 start_ledger ≡ (ok tt, charged_ledger)
unfolding bump_nonce_and_charge after_rollback ◌>>=◌ reload_registry credit_ether on_ledger account
    put_account on_drive get_account set_account lookup insert insert_new decode_account
    encode_account compact to_address nonzero_address is_zero bytes_equal get_le put_le read_be
    put_be accounts_table account_key read_slot journaled_store home live write_slot write_store
    counter set_counter displacement
alice_is_charged = refl

pub payment_reverts :
    dispatch toy_ext test_router payment begun_world ≡ (ok (AdvanceOutcome.revert (8 ∷ [])), paid)
unfolding dispatch resolve find_handler or_else portal_kind portal_receiver enter portal_advance
    error_revert debit_ether after_rollback ◌>>=◌ reload_registry credit_ether on_ledger account
    put_account on_drive get_account set_account lookup insert insert_new decode_account
    encode_account compact to_address nonzero_address is_zero bytes_equal get_le put_le read_be
    put_be accounts_table account_key read_slot journaled_store home live write_slot write_store
    counter set_counter displacement
payment_reverts = refl

execute-revert_example :
    execute toy_ext test_router payment (mark start_ledger) (some alice_pays) start ≡ (
      ok (
          result_of as_revert
            (reports_only paid.sink.emissions ++ report (tag_revert ∷ 8 ∷ []) ∷ [])),
      record paid { ledger = commit charged_ledger },
    )
execute-revert_example =
    execute-revert toy_ext test_router payment alice_pays (8 ∷ []) start paid charged_ledger done
      start_ledger-IsCached payment_reverts alice_is_charged

-- More than Alice has.
abbrev large_payment : TxContext
large_payment = record payment { value = 400 }

abbrev unpaid : World ℕ
unpaid = (dispatch toy_ext test_router large_payment begun_world).1

large_payment_throws :
    dispatch toy_ext test_router large_payment begun_world
    ≡ (err (insufficient ether_funds), unpaid)
unfolding dispatch debit_ether after_rollback ◌>>=◌ reload_registry credit_ether on_ledger account
    put_account on_drive get_account set_account lookup insert insert_new decode_account
    encode_account compact to_address nonzero_address is_zero bytes_equal get_le put_le read_be
    put_be accounts_table account_key read_slot journaled_store home live write_slot write_store
    counter set_counter displacement
large_payment_throws = refl

execute-throw_example :
    execute toy_ext test_router large_payment (mark start_ledger) (some alice_pays) start ≡ (
      ok (
          result_of as_revert (
            reports_only unpaid.sink.emissions
            ++ report (tag_revert ∷ error_revert toy_ext (described (insufficient ether_funds)))
              ∷ [])),
      record unpaid { ledger = commit charged_ledger },
    )
execute-throw_example =
    execute-throw toy_ext test_router large_payment alice_pays (insufficient ether_funds) start
      unpaid charged_ledger done start_ledger-IsCached large_payment_throws alice_is_charged

deposit-revert_example : finish_deposit toy_ext test_router payment (ok tt) start ≡ (
  ok (result_of as_revert (reports_only paid.sink.emissions ++ report (tag_revert ∷ 8 ∷ []) ∷ [])),
  record paid { ledger = commit start_ledger },
)
deposit-revert_example =
    deposit-revert toy_ext test_router payment (8 ∷ []) start paid done start_ledger-IsCached
      payment_reverts

-- A handler that fails wherever it is called.
abbrev failing : Handler ℕ
failing = record { payable = true; advance = some (λ ctx. pure (fail (6 ∷ []))); view = none }

abbrev pub failing_router : Router ℕ
failing_router = record { manifest = (bob, failing) ∷ []; chain_id = 1 }

abbrev pub call_bob : TxContext
call_bob = record payment { to = bob; value = 0 }

pub call_bob_fails :
    dispatch toy_ext failing_router call_bob begun_world ≡ (ok (fail (6 ∷ [])), begun_world)
unfolding dispatch resolve find_handler or_else enter debit_ether after_rollback ◌>>=◌
    reload_registry credit_ether on_ledger account put_account on_drive get_account set_account
    lookup insert insert_new decode_account encode_account compact to_address nonzero_address
    is_zero bytes_equal get_le put_le read_be put_be accounts_table account_key read_slot
    journaled_store home live write_slot write_store counter set_counter displacement
call_bob_fails = refl

dispatch-Keeps_example : Keeps OnWorld (dispatch toy_ext test_router payment)
dispatch-Keeps_example = dispatch-Keeps toy_ext test_router payment done

-- What Alice's account holds.
account-alice : (account toy_keccak alice start_ledger).0 ≡ ok (0, 100)
unfolding after_rollback ◌>>=◌ reload_registry credit_ether on_ledger account put_account on_drive
    get_account set_account lookup insert insert_new decode_account encode_account compact
    to_address nonzero_address is_zero bytes_equal get_le put_le read_be put_be accounts_table
    account_key read_slot journaled_store home live write_slot write_store counter set_counter
    displacement
account-alice = refl

abbrev pub alice_signed : ℕ → SignedInput
alice_signed nonce = record {
  tx_type = legacy;
  chain_id = none;
  nonce = nonce;
  to = some bob;
  value = 40;
  payload = [];
  s = [];
  raw = [];
}

admit-refused_example :
    (message : String) × (admit toy_ext test_router test_block (alice_signed 3) bob alice start
      ≡ (ok (rejection (text message)), start))
admit-refused_example =
    admit-refused toy_ext test_router test_block (alice_signed 3) bob alice 0 100 start
      account-alice (inl λ e. absurd (omega arith))

rollback_restores_example :
    (do rollback_to (mark start_ledger); after_rollback toy_keccak) paid.ledger
    ≡ (ok tt, start_ledger)
rollback_restores_example =
    rollback_restores toy_keccak start_ledger paid.ledger start_ledger-IsCached
      ((dispatch-Keeps toy_ext test_router payment done).related begun_world).ledgers

start_ledger-IsExclusive : IsExclusive start_ledger
start_ledger-IsExclusive = record { one_escrow = inl refl }

config_advance-IsExclusive_example :
    IsExclusive (config_advance toy_ext application alice payment start).1.ledger
config_advance-IsExclusive_example =
    config_advance-IsExclusive toy_ext application alice payment start start_ledger-IsExclusive

config_advance-Keeps_example :
    Keeps OnWorld (config_advance {A = ℕ} toy_ext application alice payment)
config_advance-Keeps_example = config_advance-Keeps toy_ext application alice payment

-- A query whose bytes are the selector of a simulation.
abbrev simulation_bytes : Bytes
simulation_bytes = toy_ext.to_function_selector "EvmSimulate(uint256,address,address,uint256,bytes)"

inspect_answers_example :
    (r : InspectResult) × ((inspect toy_ext test_router none simulation_bytes start).0 ≡ ok r)
    × ((inspect toy_ext test_router none simulation_bytes start).1.ledger ≡ start_ledger)
inspect_answers_example =
    inspect_answers toy_ext test_router none simulation_bytes start done no_handler
      start_ledger-IsCached

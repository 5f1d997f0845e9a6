-- ===== src/Tests/Relay.antt =====
-- The messaging pair, the L1 attributes and the boot at the small world.
use op_cartesi.Base.{
  ◌>>=◌, ℕ, ◌^◌, ◌≡◌, refl, ◌≢◌, ◌⊎◌, inl, true, false, none, some, List, [], ◌++◌, arith,
  replicate, already_routed, Failure, error, ok, err,
}
use op_cartesi.Bytes.{Bytes}
use op_cartesi.Evm.Types.{TxContext, CallContext, text, AdvanceOutcome, accept, CrossDomainMessage}
use op_cartesi.Evm.External.{l1_number}
use op_cartesi.Evm.Encoding.{error_revert}
use op_cartesi.Evm.CrossDomain.{hash_cross_domain_message}
use op_cartesi.Evm.Addresses.{bridge_address, l2_messenger_address}
use op_cartesi.Drive.Registry.{reload_registry}
use op_cartesi.Ledger.Types.{CrossDomainConfig, Ledger}
use op_cartesi.Ledger.Operations.{after_rollback}
use op_cartesi.Ledger.Operations.Rollback.{IsCached}
use op_cartesi.Ledger.Operations.Statuses.{StatusOrder}
use op_cartesi.App.World.{World, Handler}
use op_cartesi.App.FacadeView.{encoded_value}
use op_cartesi.App.Router.{find_handler, new_sink, Router}
use op_cartesi.App.Router.Input.{advance}
use op_cartesi.App.Router.Frame.{AllJournaled, done}
use op_cartesi.App.Parse.{parse_input}
use op_cartesi.App.Boot.Messages.{standard_router-StatusOrder}
use op_cartesi.App.Router.Settle.{IsReady}
use op_cartesi.App.Router.Advance.{MintIsCached}
use op_cartesi.App.CrossDomain.Messenger.{run_relay, deliver, relay}
use op_cartesi.App.CrossDomain.Messenger.Relay.{failure_recorded, deliver-atomic}
use op_cartesi.App.CrossDomain.Messenger.Admission.{IsDelivered, relay-cases}
use op_cartesi.App.L1Block.{set_ecotone, l1block_advance, l1block_view, L1Attributes, Guest}
use op_cartesi.App.L1Block.Attributes.{packed, with_attributes, Fits}
use op_cartesi.App.L1Block.Served.{value_in, l1block_advance-serves}
use op_cartesi.App.Boot.{register, standard_router}
use op_cartesi.App.Boot.Wiring.{register-extends, standard_router-AllJournaled}
use op_cartesi.Tests.World.{
  alice, bob, application, toy_keccak, toy_ext, start_ledger, start, test_block,
}
use op_cartesi.Tests.Routing.{deposit_bytes, start-IsReady, minted-IsCached, payment}
use Prim.Native.String.{String}
use op_cartesi.App.Boot.Payable.{move_value}

-- The messaging pair is registered; the messenger itself has no ether to pass on.
abbrev pair : CrossDomainConfig
pair = record { l1_messenger = alice; l1_messenger_aliased = bob; l1_bridge = application }

abbrev paired_ledger : Ledger
paired_ledger = record start_ledger {
  ram = record (start_ledger.ram) { cross_domain_config = some pair };
}

abbrev paired : World ℕ
paired = record start { ledger = paired_ledger }

abbrev transfer_message : CrossDomainMessage
transfer_message = record {
  nonce = 2 ^ 240;
  sender = alice;
  target = alice;
  value = 40;
  min_gas_limit = 0;
  message = [];
}

abbrev from_messenger : TxContext
from_messenger = record {
  block = test_block;
  sender = bob;
  to = l2_messenger_address;
  value = 40;
  payload = [];
  is_deposit = true;
  mint = 40;
}

paired_ledger-IsCached : IsCached toy_keccak paired_ledger
unfolding after_rollback ◌>>=◌ reload_registry
paired_ledger-IsCached = refl

deliver-atomic_example :
    ((v : World ℕ) × (run_relay toy_ext transfer_message pair alice paired ≡ (ok tt, v))
      × (deliver toy_ext transfer_message pair alice paired ≡ (ok accept, v)))
    ⊎ ((e : Failure) × ((run_relay toy_ext transfer_message pair alice paired).0 ≡ err e)
        × (deliver toy_ext transfer_message pair alice paired
            ≡ failure_recorded toy_ext alice paired))
deliver-atomic_example =
    deliver-atomic toy_ext transfer_message pair alice paired paired_ledger-IsCached

relay-cases_example :
    (IsDelivered toy_ext from_messenger pair transfer_message paired
      × (relay toy_ext from_messenger pair transfer_message paired
          ≡ deliver toy_ext transfer_message pair
              (hash_cross_domain_message toy_ext transfer_message)
              paired))
    ⊎ (¬ IsDelivered toy_ext from_messenger pair transfer_message paired
        × ((message : String) × (relay toy_ext from_messenger pair transfer_message paired
              ≡ (ok (AdvanceOutcome.revert (error_revert toy_ext (text message))), paired))))
relay-cases_example = relay-cases toy_ext from_messenger pair transfer_message paired

standard_router-AllJournaled_example :
    AllJournaled {A = Guest ℕ} (standard_router toy_ext alice 1 []).manifest
standard_router-AllJournaled_example = standard_router-AllJournaled toy_ext alice 1 [] done

abbrev idle : Handler ℕ
idle = record { payable = false; advance = none; view = none }

register-extends_example :
    ((g : Handler ℕ)
      → find_handler alice [] ≡ some g
      → register alice idle [] ≡ err (error already_routed))
    × (find_handler {A = ℕ} alice [] ≡ none
        → (n : List (Bytes × Handler ℕ)) × (register alice idle [] ≡ ok n)
          × (find_handler alice n ≡ some idle)
          × ((other : Bytes) → other ≢ alice → find_handler other n ≡ find_handler other []))
register-extends_example = register-extends alice idle []

abbrev some_attributes : L1Attributes
some_attributes = record {
  base_fee_scalar = 1000;
  blob_base_fee_scalar = 2000;
  sequence_number = 3;
  timestamp = 1700000000;
  number = 19000000;
  basefee = 7;
  blob_base_fee = 1;
  hash = replicate 32 5;
  batcher_hash = replicate 32 6;
}

some_attributes-Fits : Fits some_attributes
some_attributes-Fits = record {
  base_fee_scalar_fits = omega arith;
  blob_base_fee_scalar_fits = omega arith;
  sequence_number_fits = omega arith;
  timestamp_fits = omega arith;
  number_fits = omega arith;
  basefee_fits = omega arith;
  blob_base_fee_fits = omega arith;
  hash_fits = refl;
  batcher_hash_fits = refl;
}

abbrev attributes_call : TxContext
attributes_call = record from_messenger {
  sender = alice;
  payload = set_ecotone toy_ext ++ packed some_attributes [];
}

abbrev guest : World (Guest ℕ)
guest = record {
  ledger = start_ledger;
  sink = new_sink 0;
  app = record { attributes = none; rest = 0 };
}

abbrev number_query : CallContext
number_query = record { sender = alice; to = alice; value = 0; payload = [] }

l1block_advance-serves_example :
    (l1block_advance toy_ext attributes_call guest
      ≡ (ok accept, with_attributes toy_ext some_attributes guest))
    × (l1block_view toy_ext number_query (l1block_advance toy_ext attributes_call guest).1
        ≡ encoded_value toy_ext (ok (value_in (packed some_attributes []) l1_number)))
l1block_advance-serves_example =
    l1block_advance-serves toy_ext attributes_call (set_ecotone toy_ext) [] some_attributes guest
      number_query l1_number refl (inl refl) some_attributes-Fits refl refl

-- The router that the boot leaves, with no application behind, at a deposit.
abbrev booted : Router (Guest ℕ)
booted = standard_router toy_ext alice 1 []

guest-IsReady : IsReady toy_ext booted guest
guest-IsReady = record { cached = start-IsReady.cached; empty = start-IsReady.empty }

booted-MintIsCached : MintIsCached toy_ext booted (parse_input toy_ext deposit_bytes) start_ledger
unfolding MintIsCached
booted-MintIsCached = minted-IsCached

standard_router-StatusOrder_example :
    StatusOrder none
      ((advance toy_ext booted test_block deposit_bytes guest).1.ledger.ram.messages alice)
standard_router-StatusOrder_example =
    standard_router-StatusOrder toy_ext alice 1 [] test_block deposit_bytes guest done guest-IsReady
      booted-MintIsCached alice

-- Alice calls the bridge with 40.
abbrev bridge_payment : TxContext
bridge_payment = record payment { to = bridge_address }

abbrev bridge_paid : World (Guest ℕ)
bridge_paid = (move_value toy_ext bridge_payment guest).1

-- ===== src/Tests/World.antt =====
-- A small world to run: a drive of two account slots, one funded account, stand-ins for the
-- libraries.
use op_cartesi.Base.{ℕ, ◌%◌, none, some, [], ◌∷◌, ◌++◌, length, replicate, ok, codes}
use op_cartesi.Bytes.{Bytes, read_be, put_le}
use op_cartesi.Drive.Types.{NormalizedConfig}
use op_cartesi.Evm.Types.{BlockContext}
use op_cartesi.Evm.External.{deposit_type, AnyParsedTx, register_portal_call, l1_number, External}
use op_cartesi.Ledger.Types.{Ledger}
use op_cartesi.Ledger.Operations.{new_ram}
use op_cartesi.App.World.{World}
use op_cartesi.App.Router.{Router}

abbrev pub alice : Bytes
alice = replicate 19 0 ++ 1 ∷ []

abbrev pub bob : Bytes
bob = replicate 19 0 ++ 2 ∷ []

abbrev pub application : Bytes
application = replicate 19 0 ++ 9 ∷ []

-- Not a hash: what the tests need is a function on bytes.
abbrev pub toy_keccak : Bytes → Bytes
toy_keccak b = put_le 32 (read_be b)

abbrev pub a_deposit : AnyParsedTx
a_deposit = record {
  tx_type = deposit_type;
  from = some alice;
  to = some application;
  mint = some 5;
  value = some 3;
  payload = none;
  chain_id = none;
  nonce = none;
  r = none;
  s = none;
}

abbrev pub toy_ext : External
toy_ext = record {
  keccak256 = toy_keccak;
  encode_abi_parameters = λ vs. [];
  to_function_selector =
      λ name. elim (codes name) [ [] ↦ [] | c ∷ cs ↦ 1 ∷ 2 ∷ 3 ∷ (length cs % 256) ∷ [] ];
  encode_error_result = λ reason. 8 ∷ [];
  encode_transfer = λ to amount. to;
  parse_transaction = λ raw. some a_deposit;
  recover_transaction_address = λ raw. some alice;
  decode_bridge = λ b. none;
  decode_erc20 = λ b. none;
  decode_passer = λ b. none;
  decode_messenger = λ b. none;
  decode_standard_bridge = λ b. none;
  decode_registry = λ b. none;
  decode_l1_block = λ b. some l1_number;
  encode_finalize_erc20 = λ t. t.to;
  encode_function_result = λ v. ok [];
  decode_call =
      λ b. some (record { chain_id = 1; from = alice; to = application; value = 40; payload = [] });
  decode_config = λ b. some (register_portal_call 1 bob);
}

abbrev pub small_config : NormalizedConfig
small_config = record {
  drive_length = 256;
  capacity = 2;
  load_limit = 1;
  seed = [];
  profile = 0;
  slot_size = 32;
  table_offset = 160;
  registry_offset = 0;
  registry_capacity = 0;
  sparse_offset = 0;
  sparse_capacity = 0;
  sparse_load_limit = 0;
  sparse_slot_size = 0;
}

-- Alice has the nonce 0 and a balance of 100, in the slot where her key is at home.
abbrev pub small_bytes : Bytes
small_bytes = replicate 211 0 ++ 1 ∷ (replicate 11 0 ++ 100 ∷ replicate 32 0)

abbrev pub start_ledger : Ledger
start_ledger = record {
  drive = record {
    store = record { inner = small_bytes; entries = [] };
    cfg = small_config;
    tokens = [];
    col_off = [];
  };
  ram = new_ram;
  facades = λ k. none;
}

abbrev pub start : World ℕ
start = record {
  ledger = start_ledger;
  sink = record { input_index = 0; emissions = []; withdrawals = 0 };
  app = 0;
}

abbrev pub test_router : Router ℕ
test_router = record { manifest = []; chain_id = 1 }

abbrev pub test_block : BlockContext
test_block = record {
  chain_id = 1;
  app_contract = application;
  block_number = 1;
  timestamp = 1;
  prev_randao = 0;
  input_index = 0;
}

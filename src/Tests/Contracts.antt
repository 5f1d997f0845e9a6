-- ===== src/Tests/Contracts.antt =====
-- A contract of one function in the small world, whose callback sends a voucher and then throws.
use mathlib.Core.Path.{subst}
use op_cartesi.Base.{
  pure, if_some, ℕ, ◌≡◌, refl, Bool, true, false, Option, none, some, List, [], ◌∷◌, ◌==◌,
  if◌then◌else◌, Act, ◌>>◌, ok, str_eq,
}
use op_cartesi.Base.Frame.{Keeps}
use op_cartesi.Bytes.{Bytes}
use op_cartesi.Store.{mem_store}
use op_cartesi.Evm.Types.{TxContext, text, AdvanceOutcome}
use op_cartesi.Evm.Encoding.{error_revert}
use op_cartesi.AbiDrive.Format.{header_of, fresh}
use op_cartesi.AbiDrive.Types.{Text}
use op_cartesi.App.World.{emit_voucher, World}
use op_cartesi.App.World.Frame.{world_rules, OnWorld}
use op_cartesi.App.Router.Frame.{AllJournaled}
use op_cartesi.App.Boot.{standard_router}
use op_cartesi.App.Contract.{contract_advance}
use op_cartesi.App.Contract.Spec.{
  view_function, nonpayable_function, AbiItem, Decoded, ContractCodec, because, Ending, reverts,
  ContractSpec,
}
use op_cartesi.App.Contract.Answers.{Answer, contract_advance-answers, IsTame}
use op_cartesi.App.Application.{contract, Application}
use op_cartesi.App.Application.Contracts.{AllFree, Built-AllJournaled, booted, registered}
use op_cartesi.Tests.World.{alice, bob, toy_ext, start, test_block}
use op_cartesi.Tests.Abi.{plain_codec, small_abi_config, blank_store}

-- The selector is the first byte: 7 is `ping`, 8 the view `peek`.
abbrev ping_item : AbiItem
ping_item = record {
  is_function = true;
  name = "ping";
  mutability = nonpayable_function;
  parameters = [];
}

abbrev peek_item : AbiItem
peek_item = record {
  is_function = true;
  name = "peek";
  mutability = view_function;
  parameters = [];
}

abbrev one_byte : List AbiItem → Bytes → Option (Decoded ℕ)
one_byte abi [] = none
one_byte abi (b ∷ bs) =
    if b == 7
    then some (record { function_name = "ping"; args = bs })
    else if b == 8
    then some (record { function_name = "peek"; args = bs })
    else none

abbrev one_byte_codec : ContractCodec ℕ ℕ
one_byte_codec = record {
  decode_function_data = one_byte;
  encode_function_result = λ abi name v. ok (v ∷ []);
}

module _ {A : Type 0} where
  abbrev ping : List ℕ → TxContext → Act (World A) (Ending (Unit {0}))
  ping args ctx = do emit_voucher ctx.sender 0 args; pure (reverts (because "no more pings"))

  ping-Keeps : (args : List ℕ) (ctx : TxContext) → Keeps (OnWorld {A = A}) (ping args ctx)
  unfolding emit_voucher
  ping-Keeps args ctx = search world_rules

  abbrev ping_spec : ContractSpec A ℕ ℕ
  ping_spec = record {
    address = bob;
    abi = ping_item ∷ peek_item ∷ [];
    payable = none;
    transactions = λ name. if str_eq name "ping" then some ping else none;
    views = λ name. none;
  }

  is_ping :
      (b : Bool) (callback : List ℕ → TxContext → Act (World A) (Ending (Unit {0})))
      → (if b then some ping else none) ≡ some callback
      → (args : List ℕ) (ctx : TxContext) → Keeps OnWorld (callback args ctx)
  is_ping true callback e args ctx =
      subst
        (λ (o : Option (List ℕ → TxContext → Act (World A) (Ending (Unit {0})))). elim o [
          | none ↦ Unit {0}
          | some c ↦ Keeps OnWorld (c args ctx)
        ])
        e (ping-Keeps args ctx)
  is_ping false callback e args ctx = absurd cc

  ping_spec-IsTame : IsTame toy_ext one_byte_codec ping_spec
  ping_spec-IsTame = record { tame = λ name callback e. is_ping (str_eq name "ping") callback e }

abbrev call_of : Bytes → TxContext
call_of payload = record {
  block = test_block;
  sender = alice;
  to = bob;
  value = 0;
  payload = payload;
  is_deposit = false;
  mint = 0;
}

contract_advance-answers_example :
    Answer toy_ext one_byte_codec ping_spec
      (call_of (7 ∷ 1 ∷ []))
      start
      (contract_advance toy_ext one_byte_codec ping_spec (call_of (7 ∷ 1 ∷ [])) start)
contract_advance-answers_example =
    contract_advance-answers toy_ext one_byte_codec ping_spec (call_of (7 ∷ 1 ∷ [])) start

-- A view is no transaction.
peek_is_refused :
    contract_advance toy_ext one_byte_codec (ping_spec {A = ℕ}) (call_of (8 ∷ [])) start
    ≡ (ok (AdvanceOutcome.revert (error_revert toy_ext (text "peek is not a transaction"))), start)
unfolding contract_advance if_some pure
peek_is_refused = refl

abbrev empty_application : Application ℕ Bytes
empty_application = record {
  contracts = [];
  abi_drive =
      fresh mem_store plain_codec small_abi_config
        (mem_store.write_at 0 (header_of plain_codec small_abi_config) blank_store).1;
}

abbrev no_text : List AbiItem → Text
no_text abi = []

Built-AllJournaled_example :
    let app =
      (contract mem_store plain_codec toy_ext alice 1 one_byte_codec no_text ping_spec
        empty_application).1 in
    AllJournaled (standard_router toy_ext alice 1 app.contracts).manifest × AllFree app.contracts
Built-AllJournaled_example =
    Built-AllJournaled mem_store plain_codec toy_ext alice 1 one_byte_codec no_text
      (registered ping_spec ping_spec-IsTame (booted {app = empty_application} refl) refl)

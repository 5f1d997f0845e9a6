-- ===== src/App/Application.antt =====
-- The application (app/src/application.ts): the boot of the ABI drive, the registration of contracts
-- and what the rollup loop emits for an input. The devices and the loop itself are input and output.
pub mod Boots
pub mod Contracts
use op_cartesi.Base.{
  pure, throw_if, ◌>>=◌, ℕ, Bool, not, ◌&&◌, ◌||◌, none, some, List, [], ◌∷◌, ◌++◌, ◌==◌,
  if◌then◌else◌, length, replicate, Act, ◌>>◌, bad_address, reserved_address, error, Result, ok,
  err,
}
use op_cartesi.Bytes.{Bytes, slice, bytes_equal}
use op_cartesi.Store.{Store}
use op_cartesi.Evm.Addresses.{
  registry_address, bridge_address, config_address, l1block_address, l2_messenger_address,
  l2_bridge_address, message_passer_address,
}
use op_cartesi.Evm.Types.{BlockContext, accept, Emission, report}
use op_cartesi.Evm.External.{address, External}
use op_cartesi.Ledger.Types.{Address}
use op_cartesi.App.World.{World, Handler}
use op_cartesi.App.L1Block.{Guest}
use op_cartesi.App.Router.{AdvanceResult}
use op_cartesi.App.Router.Input.{advance}
use op_cartesi.App.Boot.{register, standard_router}
use op_cartesi.App.Contract.{contract_handler}
use op_cartesi.App.Contract.Spec.{AbiItem, ContractCodec, ContractSpec}
use op_cartesi.AbiDrive.Types.{
  Text, kind_system, kind_app, TextCodec, AbiDriveConfig, AbiEntry, AbiDrive,
}
use op_cartesi.AbiDrive.Records
use op_cartesi.AbiDrive.Format.{open_or_format}

-- The application's contracts in the order of registration, which the router has behind the
-- built-in handlers.
pub record Application (A S : Type 0) : Type 0 where
  pub contracts : List (Address × Handler (Guest A))
  pub abi_drive : AbiDrive S

-- The JSON texts of the built-in ABIs, which are constants of evm-compat.
pub record BuiltinAbis : Type 0 where
  pub registry_abi : Text
  pub bridge_abi : Text
  pub config_abi : Text
  pub l1block_abi : Text
  pub l2_messenger_abi : Text
  pub l2_bridge_abi : Text
  pub message_passer_abi : Text

abbrev pub system_entry : Address → Text → AbiEntry
system_entry addr abi = record { address = addr; kind = kind_system; abi = abi }

-- `BUILTINS`
abbrev pub builtins : BuiltinAbis → List AbiEntry
builtins abis =
    system_entry registry_address abis.registry_abi
    ∷ system_entry bridge_address abis.bridge_abi
    ∷ system_entry config_address abis.config_abi
    ∷ system_entry l1block_address abis.l1block_abi
    ∷ system_entry l2_messenger_address abis.l2_messenger_abi
    ∷ system_entry l2_bridge_address abis.l2_bridge_abi
    ∷ system_entry message_passer_address abis.message_passer_abi
    ∷ []

-- `RESERVED_PREDEPLOYS`
abbrev pub is_reserved_predeploy : Address → Bool
is_reserved_predeploy addr =
    bytes_equal addr l1block_address
    || bytes_equal addr l2_messenger_address
    || bytes_equal addr l2_bridge_address
    || bytes_equal addr message_passer_address

-- `inSystemNamespace`: 0xc751, sixteen zero bytes, and any two bytes.
abbrev pub in_system_namespace : Address → Bool
in_system_namespace addr =
    (length addr == 20) && bytes_equal (slice 0 18 addr) (0xc7 ∷ 0x51 ∷ replicate 16 0)

unfoldable pub is_reserved : Address → Bool
is_reserved addr = in_system_namespace addr || is_reserved_predeploy addr

-- What the loop hands to the rollup device for the result of an input.
unfoldable pub outputs_of : AdvanceResult → List Emission
outputs_of res =
    if res.accept
    then res.emissions
    else elim res.reason [ none ↦ [] | some reason ↦ report (0x02 ∷ []) ∷ [] ]

module _ {S : Type 0} (io : Store S) (codec : TextCodec) where
  -- The loop over `BUILTINS`.
  unfoldable pub register_builtins : List AbiEntry → Act (AbiDrive S) (Unit {0})
  register_builtins [] = pure tt
  register_builtins (e ∷ es) = do
    Records.register io codec e.address e.kind e.abi
    register_builtins es

  abbrev pub assembled :
      {A : Type 0} → Result (Unit {0}) × AbiDrive S → Result (Application A S) × S
  assembled (ok u, d) = (ok (record { contracts = []; abi_drive = d }), d.store)
  assembled (err e, d) = (err e, d.store)

  -- `Application.assemble`: the application, or the store as it was left.
  unfoldable pub assemble :
      {A : Type 0} → BuiltinAbis → AbiDriveConfig → S → Result (Application A S) × S
  unfolding open_or_format register_builtins
  assemble abis cfg s =
      let (r, s') = open_or_format io codec cfg s in
      elim r [ err e ↦ (err e, s') | ok d ↦ assembled (register_builtins (builtins abis) d) ]

  module _ {A Arg Value : Type 0} (ext : External) (owner : Address) (chain_id : ℕ)
      (viem : ContractCodec Arg Value) (stringify : List AbiItem → Text) where
    -- `router.register`
    unfoldable pub route : Address → Handler (Guest A) → Act (Application A S) (Unit {0})
    route key h app =
        elim (register key h (standard_router ext owner chain_id app.contracts).manifest) [
          | err e ↦ (err e, app)
          | ok m ↦ (ok tt, record app { contracts = app.contracts ++ (key, h) ∷ [] })
        ]

    -- `abiDrive.register`
    unfoldable pub record_contract : Address → Text → Act (Application A S) (Unit {0})
    record_contract addr abi app =
        let (r, d) = Records.register io codec addr kind_app abi app.abi_drive in
        (r, record app { abi_drive = d })

    -- `Application.contract`
    unfoldable pub contract : ContractSpec (Guest A) Arg Value → Act (Application A S) (Unit {0})
    unfolding route record_contract
    contract spec = do
      throw_if (not (length spec.address == 20)) (error bad_address)
      throw_if (is_reserved spec.address) (error reserved_address)
      route spec.address (contract_handler ext viem spec)
      record_contract spec.address (stringify spec.abi)

    -- The loop's `advance`: whether the input stands, and what is emitted.
    unfoldable pub advance_input :
        Application A S → BlockContext → Bytes → Act (World (Guest A)) (Bool × List Emission)
    unfolding outputs_of
    advance_input app block payload = do
      res ← advance ext (standard_router ext owner chain_id app.contracts) block payload
      pure (res.accept, outputs_of res)

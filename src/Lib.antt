-- ===== src/Lib.antt =====
-- A rollup guest of op-cartesi in TypeScript: a router takes raw inputs, parses and admits them,
-- moves their value on a ledger, runs a handler and commits one outcome. The ledger stands on the
-- accounts drive, a table of accounts and token balances in a byte store, behind a journal that
-- can take every write back.
--
-- The parts, bottom up, and where they stand:
--
-- Bytes models the codecs of accounts-drive/js/src/drive.ts (readBE, putBE, getLE64, hexToBytes
-- and so on) over lists of bytes as naturals. Store models
-- `Store` and `MemStore` of accounts-drive/js/src/store.ts.
--
-- Drive models the class `Drive` of accounts-drive/js/src/drive.ts over any store: Drive/Config is
-- normalizeConfig and validateConfig, Drive/Table the Robin Hood tables (#lookup, #insert and
-- #remove): Drive/Table/Order is the order of their slots, Drive/Table/Finds what a search finds by
-- it, Drive/Table/Shift, Turn, Held, Placed and Inserted follow an insertion through its rounds, and
-- Drive/Table/Contents reads a table as a map. Drive/Registry is the token registry, Drive/Accounts
-- and Drive/Balances the records, Drive/Format format and open. Drive/Frame has the relations on stores that operations keep.
--
-- Evm models what the guest uses of evm-compat/js/src: addresses, contexts, logs, withdrawals and
-- nonces. Evm/External is the one record of what viem and the hash library do: keccak256, the ABI
-- codec, transaction parsing and sender recovery. It is a parameter of everything above it, and
-- nothing is assumed of it.
--
-- Ledger models app/src/ledger.ts: Ledger/Journal is `Journal` and `JournaledStore`, with one
-- constructor of `Entry` for each restore closure; Ledger/Operations is the class `Ledger`, an
-- operation being a function from the ledger to a result and the ledger after it, also after a
-- throw.
--
-- App models app/src: App/World is the sink of a router's run, App/Handlers the handlers that
-- move value (handlers/bridge.ts, erc20.ts, portal.ts, passer.ts), App/FacadeView the token
-- façade's view, App/Config the owner's configuration (handlers/config.ts), App/L1Block the L1
-- attributes (handlers/l1block.ts), App/Registry the discovery views (handlers/registry.ts),
-- App/Parse is evm-compat/js/src/tx.ts, App/Router is `execute` of router.ts and what it calls,
-- App/Router/Input `advance` with its deposits and signed transactions, and App/Inspect `inspect`.
-- A view is an action on the world, since the source hands it the ledger itself and `inspect` takes back
-- nothing after a plain view; App/Inspect/Views states as `AllReadOnly` that the views only read, which
-- App/Boot/Reading shows of the built-in ones. App/Router/Charges and App/Router/Unfunded put the charge,
-- the rollback and the accounts of the ledger together.
--
-- App/CrossDomain is the standard messaging pair: App/CrossDomain/Messenger the messenger
-- (handlers/messenger.ts), which runs what L1 sends once and keeps a failed run for a replay, and
-- App/CrossDomain/Bridge the standard bridge (handlers/l2bridge.ts), which the messenger calls and
-- which sends through it. A relayed run has a rollback of its own inside the transaction's.
--
-- App/Router takes the manifest as a parameter: App/Router/Frame states as `AllJournaled` that its
-- handlers change the ledger through the ledger's operations alone, and never relay a message
-- that has been relayed. App/Boot is the constructor of `Router` and `register`: the manifest of
-- the built-in handlers with those of an application behind, for which App/Boot/Wiring discharges
-- that condition. App/Boot/Payable sets the registry's answers beside what a call meets. The RAM that handlers keep for themselves stands outside the journal, as the
-- type `A` of a world; with the boot's router it is the L1 attributes beside the application's own.
--
-- AbiDrive models the class `AbiDrive` of abi-drive/js/src/index.ts over any store: AbiDrive/Format
-- its header, AbiDrive/Records the index and the heap. AbiDrive/Registry says what it promises as a
-- list of contracts; AbiDrive/Slot, Holds, Header, Scan, Added and Grown follow the bytes, and
-- AbiDrive/Refinement and AbiDrive/Promise join the two. App/Contract is `contractHandler` of
-- app/src/contract.ts, the handler of an application's contract. App/Application is the class
-- `Application` of app/src/application.ts: the boot of the ABI drive, the registration of contracts,
-- which goes to the router and to the drive, and what the loop emits for an input.
--
-- Bounds and fuel: offsets and sizes are naturals, exact as the source's numbers are below 2 ^ 53.
-- Amounts are naturals, so that the checks for negative amounts have no counterpart. A loop of a
-- table runs on the capacity as fuel, one round for each slot, and a loop that met its fuel
-- would end in the failure `never_ends`; Drive/Table/Insert and Drive/Table/Remove say when it is
-- enough. Store/Laws has what they ask of a store, as an interface that `MemStore` and the
-- journaled store (Ledger/Journal/Laws) fill. An address is its 20 bytes, since the source compares
-- addresses without their letter case. Texts of errors are constructors, and refusals
-- that name a number keep the constant part of their text.
--
-- Not modelled: file and machine stores and all other input and output, the decoders of outputs
-- that only tooling calls, the rollup loop and the opening of the devices around the application, the
-- L1 contracts, the ports of the accounts drive to other languages, the devnet and the scripts. The
-- platform's text encoding is the parameter `TextCodec`, and a property that needs more of it says
-- so: `IsAsciiCodec`, and that a text survives its encoding.

pub mod Base
pub mod Bytes
pub mod Store
pub mod Drive
pub mod AbiDrive
pub mod Evm
pub mod Ledger
pub mod App
mod Tests

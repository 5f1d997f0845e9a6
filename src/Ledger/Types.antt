-- ===== src/Ledger/Types.antt =====
-- The ledger's state (app/src/ledger.ts). An address is its 20 bytes: `addrKey` and `sameAddress`
-- make the letter case of its text irrelevant. A map that is only read and written by key is a
-- function; the portals, which are also listed, are an association list in insertion order.
use op_cartesi.Base.{ℕ, Option, List}
use op_cartesi.Base.Int.{ℤ}
use op_cartesi.Bytes.{Bytes}
use op_cartesi.Drive.Types.{Drive}

abbrev pub Address : Type 0
Address = Bytes

pub data Status : Type 0 where
  successful failed : Status

pub record CrossDomainConfig : Type 0 where
  pub l1_messenger : Address
  pub l1_messenger_aliased : Address
  pub l1_bridge : Address

pub record TokenMetadata : Type 0 where
  pub name : Bytes
  pub symbol : Bytes
  pub decimals : ℕ

pub record ResolvedFacade : Type 0 where
  pub id : ℕ
  pub l1_token : Address
  pub width : ℕ

-- One constructor for each restore closure that the ledger notes, with what the closure captured.
pub data Entry : Type 0 where
  write_back : ℕ → Bytes → Entry
  forget_facade : Address → Entry
  old_total : ℕ → ℤ → Entry
  old_metadata : ℕ → Option TokenMetadata → Entry
  old_portal : Address → Option ℕ → Entry
  old_fee : ℕ → Entry
  old_cross_domain : Option CrossDomainConfig → Entry
  old_nonce : ℕ → Entry
  old_message : Bytes → Option Status → Entry

-- `JournaledStore` over a `MemStore`, with the journal's entries, the newest first.
pub record Journaled : Type 0 where
  pub inner : Bytes
  pub entries : List Entry

-- The RAM state that journals itself. A total that is missing reads as 0 wherever it is read.
pub record Ram : Type 0 where
  pub totals : ℕ → ℤ
  pub metadata : ℕ → Option TokenMetadata
  pub portals : List (Address × ℕ)
  pub fee : ℕ
  pub cross_domain_config : Option CrossDomainConfig
  pub msg_nonce : ℕ
  pub messages : Bytes → Option Status

pub record Ledger : Type 0 where
  pub drive : Drive Journaled
  pub ram : Ram
  pub facades : Address → Option ℕ

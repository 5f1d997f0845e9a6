-- ===== src/Tests/Abi.antt =====
-- The ABI drive over a small `MemStore`: two index slots and 32 bytes of heap, or eight slots for the
-- built-in contracts.
use op_cartesi.App.Application.Boots.{assemble-assemble, IsBlank}
use op_cartesi.Base.{
  ℕ, ◌<◌, ◌≡◌, refl, List, [], ◌∷◌, arith, length, replicate, duplicate, abi_drive, ok, err,
}
use op_cartesi.Bytes.{Bytes, bytes_equal}
use op_cartesi.Store.{mem_store}
use op_cartesi.Store.Laws.{mem_store-IsByteStore, size-mem_store}
use op_cartesi.AbiDrive.Types.{Text, TextCodec, AbiDriveConfig, AbiEntry, AbiDrive}
use op_cartesi.AbiDrive.Format.{format, open_abi_drive}
use op_cartesi.AbiDrive.Header.{IsAsciiCodec}
use op_cartesi.AbiDrive.Records.{entries, abi_of}
use op_cartesi.AbiDrive.Registry.{find, text_size, add_contract}
use op_cartesi.AbiDrive.Fresh.{IsFormattable}
use op_cartesi.AbiDrive.Refinement.{AllContracts, register_all, add_all, IsContract}
use op_cartesi.AbiDrive.Promise.{abi_in, format-register_all}
use op_cartesi.App.Application.{builtins, assemble, Application, BuiltinAbis}
use op_cartesi.Evm.Addresses.{
  registry_address, bridge_address, config_address, l1block_address, l2_messenger_address,
  l2_bridge_address, message_passer_address,
}
use op_cartesi.Tests.World.{alice, bob}

-- ASCII alone, where UTF-8 is the code units themselves.
abbrev pub plain_codec : TextCodec
plain_codec = record { encode = λ t. t; decode = λ b. b }

plain_codec-IsAsciiCodec : IsAsciiCodec plain_codec
plain_codec-IsAsciiCodec = record { encode_ascii = λ t h. refl; decode_ascii = λ b h. refl }

abbrev pub small_abi_config : AbiDriveConfig
small_abi_config = record { drive_length = 160; capacity = 2; heap_offset = 128 }

abbrev pub blank_store : Bytes
blank_store = replicate 160 0

small_abi_config-IsFormattable :
    IsFormattable mem_store-IsByteStore plain_codec small_abi_config blank_store
small_abi_config-IsFormattable =
    let e : mem_store-IsByteStore.size blank_store ≡ 160 = size-mem_store blank_store in
    record { good = refl; in_store = omega (arith, e); in_words = omega arith }

-- Two contracts, and the first one again with another text.
abbrev three_attempts : List AbiEntry
three_attempts =
    record { address = alice; kind = 1; abi = 91 ∷ 93 ∷ [] }
    ∷ record { address = bob; kind = 0; abi = 91 ∷ 49 ∷ 93 ∷ [] }
    ∷ record { address = alice; kind = 1; abi = 91 ∷ 49 ∷ 93 ∷ [] }
    ∷ []

plain_codec-IsContract :
    (address : Bytes) (kind : ℕ) (abi : Text)
    → length address ≡ 20
    → kind < 256
    → IsContract plain_codec (record { address = address; kind = kind; abi = abi })
plain_codec-IsContract address kind abi len small = record {
  address_length = len;
  small_kind = small;
  readable = refl;
}

three_attempts_end :
    (add_all plain_codec 2 32 three_attempts []).0 ≡ ok tt ∷ ok tt ∷ err (abi_drive duplicate) ∷ []
unfolding add_all add_contract text_size find bytes_equal
three_attempts_end = refl

format-register_all_example :
    (d : AbiDrive Bytes) × ((format mem_store plain_codec small_abi_config blank_store).0 ≡ ok d)
    × (let run = register_all mem_store plain_codec three_attempts d in
        let spec = add_all plain_codec 2 32 three_attempts [] in
        (run.0 ≡ spec.0)
        × (entries mem_store plain_codec run.1 ≡ ok spec.1)
        × (abi_of mem_store plain_codec bob run.1
            ≡ ok (abi_in mem_store-IsByteStore plain_codec bob spec.1))
        × (open_abi_drive mem_store plain_codec run.1.store ≡ ok run.1))
format-register_all_example =
    format-register_all mem_store-IsByteStore plain_codec small_abi_config blank_store
      three_attempts bob plain_codec-IsAsciiCodec small_abi_config-IsFormattable
      (
        plain_codec-IsContract alice 1 _ refl (omega arith),
        (
          plain_codec-IsContract bob 0 _ refl (omega arith),
          (plain_codec-IsContract alice 1 _ refl (omega arith), tt),
        ),
      )
      refl

abbrev boot_config : AbiDriveConfig
boot_config = record { drive_length = 384; capacity = 8; heap_offset = 320 }

abbrev boot_store : Bytes
boot_store = replicate 384 0

abbrev empty_abi : Text
empty_abi = 91 ∷ 93 ∷ []

abbrev small_abis : BuiltinAbis
small_abis = record {
  registry_abi = empty_abi;
  bridge_abi = empty_abi;
  config_abi = empty_abi;
  l1block_abi = empty_abi;
  l2_messenger_abi = empty_abi;
  l2_bridge_abi = empty_abi;
  message_passer_abi = empty_abi;
}

boot_config-IsFormattable : IsFormattable mem_store-IsByteStore plain_codec boot_config boot_store
boot_config-IsFormattable =
    let e : mem_store-IsByteStore.size boot_store ≡ 384 = size-mem_store boot_store in
    record { good = refl; in_store = omega (arith, e); in_words = omega arith }

boot_store-IsBlank : IsBlank mem_store-IsByteStore plain_codec boot_store
unfolding bytes_equal
boot_store-IsBlank = record { first_bytes = replicate 8 0; first_there = refl; other_magic = refl }

small_abis-AllContracts : AllContracts plain_codec (builtins small_abis)
small_abis-AllContracts =
    let one = λ (address : Bytes) (len : length address ≡ 20).
      plain_codec-IsContract address 0 empty_abi len (omega arith) in
    (
      one registry_address refl,
      (
        one bridge_address refl,
        (
          one config_address refl,
          (
            one l1block_address refl,
            (
              one l2_messenger_address refl,
              (one l2_bridge_address refl, (one message_passer_address refl, tt)),
            ),
          ),
        ),
      ),
    )

assemble-assemble_example :
    (app : Application ℕ Bytes) × (s' : Bytes) × (assemble mem_store plain_codec small_abis
        boot_config boot_store
      ≡ (ok app, s'))
    × (app.contracts ≡ [])
    × (entries mem_store plain_codec app.abi_drive ≡ ok (builtins small_abis))
    × (assemble mem_store plain_codec small_abis boot_config s' ≡ (ok app, s'))
unfolding text_size
assemble-assemble_example =
    assemble-assemble mem_store-IsByteStore plain_codec small_abis boot_config boot_store
      plain_codec-IsAsciiCodec boot_config-IsFormattable boot_store-IsBlank small_abis-AllContracts
      (omega arith) (omega arith)

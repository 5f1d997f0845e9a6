-- ===== src/AbiDrive/Promise.antt =====
-- What the ABI drive promises from its first boot on (abi-drive/js/src/index.ts, `format`, `register`,
-- `entries`, `abiOf` and `open`).
use op_cartesi.Base.{
  ◌-◌, ◌≡◌, refl, ap, inl, inr, Option, none, some, List, [], Option-cases, length, Result, ok,
}
use op_cartesi.Bytes.{Bytes}
use op_cartesi.Store.{Store}
use op_cartesi.Store.Laws.{IsByteStore}
use op_cartesi.AbiDrive.Types.{Text, TextCodec, AbiDriveConfig, AbiEntry, AbiDrive}
use op_cartesi.AbiDrive.Format.{fresh, format, open_abi_drive}
use op_cartesi.AbiDrive.Header.{IsAsciiCodec}
use op_cartesi.AbiDrive.Records.{entries, abi_of}
use op_cartesi.AbiDrive.Registry.{find}
use op_cartesi.AbiDrive.Scan.{entries_lem, entry_of_lem, Represents}
use op_cartesi.AbiDrive.Fresh.{
  formatted, format_lem, fresh-Represents, Represents-open, IsFormattable,
}
use op_cartesi.AbiDrive.Refinement.{AllContracts, register_all, add_all, register_all-refines}

module _ {S : Type 0} {io : Store S} (laws : IsByteStore io) (text : TextCodec) where
  abbrev pub abi_in : Bytes → List AbiEntry → Option Text
  abi_in address es = elim (find address es) [ none ↦ none | some e ↦ some e.abi ]

  abi_of_lem :
      (address : Bytes) (d : AbiDrive S) (es : List AbiEntry)
      → Represents laws text d es
      → length address ≡ 20
      → abi_of io text address d ≡ ok (abi_in address es)
  unfolding abi_of
  abi_of_lem address d es h len =
      rw (abi_of, entry_of_lem laws text address d es h len)
        (elim (Option-cases (find address es)) [
          | inl absent ↦ rw (abi_in, absent) refl
          | inr (e, there) ↦ rw (abi_in, there) refl
        ])

  -- In a store that a good geometry of less than 2 ^ 32 bytes fits, with a codec that leaves
  -- ASCII alone, `format` gives a drive. Any registrations on it, of addresses of 20 bytes,
  -- kinds of a byte and texts that survive their encoding, then return what the same attempts
  -- on a list of contracts return, duplicates and a full index or heap included; afterwards
  -- `entries` is that list, `abiOf` an address is the text that it has in the list, and opening
  -- the store gives back the very drive.
  pub format-register_all :
      (cfg : AbiDriveConfig) (s : S) (es : List AbiEntry) (address : Bytes)
      → IsAsciiCodec text
      → IsFormattable laws text cfg s
      → AllContracts text es
      → length address ≡ 20
      → (d : AbiDrive S) × ((format io text cfg s).0 ≡ ok d)
        × (let run = register_all io text es d in
            let spec = add_all text cfg.capacity (cfg.drive_length - cfg.heap_offset) es [] in
            (run.0 ≡ spec.0)
            × (entries io text run.1 ≡ ok spec.1)
            × (abi_of io text address run.1 ≡ ok (abi_in address spec.1))
            × (open_abi_drive io text run.1.store ≡ ok run.1))
  format-register_all cfg s es address ascii fit cs len =
      let s' = formatted laws text cfg s ascii fit in
      let d = fresh io text cfg s' in
      let (same, h) =
        register_all-refines laws text es d [] cfg.capacity (cfg.drive_length - cfg.heap_offset)
          (fresh-Represents laws text cfg s ascii fit) refl refl cs in
      let after = (register_all io text es d).1 in
      let held = (add_all text cfg.capacity (cfg.drive_length - cfg.heap_offset) es []).1 in
      (
        d,
        ap (λ (p : Result (AbiDrive S) × S). p.0) (format_lem laws text cfg s ascii fit),
        (
          same,
          entries_lem laws text after held h,
          abi_of_lem address after held h len,
          Represents-open laws text after held ascii h,
        ),
      )

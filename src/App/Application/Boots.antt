-- ===== src/App/Application/Boots.antt =====
-- Booting twice (app/src/application.ts, `assemble`): the second boot finds what the first one left.
use op_cartesi.Bytes.Equal.{bytes_equal_refl}
use mathlib.Core.Path.{subst}
use mathlib.Core.List.{append-nil, append_assoc}
use op_cartesi.Base.{
  pure, throw_if, ◌>>=◌, ◌+◌, ◌-◌, ◌≤◌, ◌<◌, ◌≡◌, refl, sym, ap, ◌∙◌, true, false, ◌&&◌, none, some,
  List, [], ◌∷◌, ◌++◌, arith, ◌==◌, le→ltb_false, lt→leb_false, length, length-append,
  continue_with, Result, ok, err,
}
use op_cartesi.Bytes.{Bytes, bytes_equal}
use op_cartesi.Store.{Store}
use op_cartesi.Store.Laws.{IsByteStore}
use op_cartesi.AbiDrive.Types.{abi_drive_magic, TextCodec, AbiDriveConfig, AbiEntry, AbiDrive}
use op_cartesi.AbiDrive.Format.{fresh, format, open_or_format}
use op_cartesi.AbiDrive.Header.{IsAsciiCodec}
use op_cartesi.AbiDrive.Records
use op_cartesi.AbiDrive.Registry.{find, text_size, text_size-append}
use op_cartesi.AbiDrive.Scan.{entries_lem, Represents}
use op_cartesi.AbiDrive.Fresh.{
  formatted, format_lem, fresh-Represents, Represents-open, IsFormattable,
}
use op_cartesi.AbiDrive.Refinement.{
  AllContracts, register_taken, add_contract_absent, register-Refines, IsContract, Refines,
}
use op_cartesi.Evm.Addresses.{
  registry_address, bridge_address, config_address, l1block_address, l2_messenger_address,
  l2_bridge_address, message_passer_address,
}
use op_cartesi.App.Application.{
  system_entry, builtins, register_builtins, assembled, assemble, Application, BuiltinAbis,
}

-- The address is recorded with this kind and this text.
record IsRecorded (e : AbiEntry) (held : List AbiEntry) : Type 0 where
  old : AbiEntry
  there : find e.address held ≡ some old
  same : ((old.kind == e.kind) && bytes_equal old.abi e.abi) ≡ true

abbrev AllHeld : List AbiEntry → List AbiEntry → Type 0
AllHeld [] held = Unit {0}
AllHeld (e ∷ es) held = IsRecorded e held × AllHeld es held

-- Each address is new where it is registered.
abbrev AllNew : List AbiEntry → List AbiEntry → Type 0
AllNew [] held = Unit {0}
AllNew (e ∷ es) held = (find e.address held ≡ none) × AllNew es (held ++ e ∷ [])

itself : (e : AbiEntry) (held : List AbiEntry) → find e.address held ≡ some e → IsRecorded e held
itself e held there = record {
  old = e;
  there = there;
  same = ground (arith, bytes_equal_refl e.abi);
}

-- The built-in contracts have addresses of their own.
builtins-AllNew : (abis : BuiltinAbis) → AllNew (builtins abis) []
unfolding find bytes_equal
builtins-AllNew abis = (refl, (refl, (refl, (refl, (refl, (refl, (refl, tt)))))))

builtins-AllHeld : (abis : BuiltinAbis) → AllHeld (builtins abis) (builtins abis)
unfolding find bytes_equal
builtins-AllHeld abis = (
  itself (system_entry registry_address abis.registry_abi) (builtins abis) refl,
  (
    itself (system_entry bridge_address abis.bridge_abi) (builtins abis) refl,
    (
      itself (system_entry config_address abis.config_abi) (builtins abis) refl,
      (
        itself (system_entry l1block_address abis.l1block_abi) (builtins abis) refl,
        (
          itself (system_entry l2_messenger_address abis.l2_messenger_abi) (builtins abis) refl,
          (
            itself (system_entry l2_bridge_address abis.l2_bridge_abi) (builtins abis) refl,
            (
              itself (system_entry message_passer_address abis.message_passer_abi) (builtins abis)
                  refl,
              tt,
            ),
          ),
        ),
      ),
    ),
  ),
)

bind_rest :
    {S : Type 0} (p : Result (Unit {0}) × S) (m : S → Result (Unit {0}) × S)
    → p.0 ≡ ok tt
    → continue_with p (λ u. m) ≡ m p.1
bind_rest (ok u, s) m h = refl
bind_rest (err e, s) m h = absurd cc

module _ {S : Type 0} {io : Store S} (laws : IsByteStore io) (codec : TextCodec) where
  register_builtins_step :
      (e : AbiEntry) (es : List AbiEntry) (d : AbiDrive S)
      → register_builtins io codec (e ∷ es) d
        ≡ continue_with
            (Records.register io codec e.address e.kind e.abi d)
            (λ u. register_builtins io codec es)
  unfolding register_builtins ◌>>=◌
  register_builtins_step e es d = refl

  -- What is recorded is registered again without a write.
  register_again :
      (e : AbiEntry) (d : AbiDrive S) (held : List AbiEntry)
      → Represents laws codec d held
      → IsContract codec e
      → IsRecorded e held
      → Records.register io codec e.address e.kind e.abi d ≡ (ok tt, d)
  unfolding throw_if
  register_again e d held h c r =
      register_taken laws codec d held h e c r.old r.there ∙ rw r.same refl

  register_builtins_again :
      (es : List AbiEntry) (d : AbiDrive S) (held : List AbiEntry)
      → Represents laws codec d held
      → AllContracts codec es
      → AllHeld es held
      → register_builtins io codec es d ≡ (ok tt, d)
  unfolding register_builtins pure
  register_builtins_again [] d held h cs rs = refl
  register_builtins_again (e ∷ es) d held h (c, cs) (r, rs) =
      register_builtins_step e es d
      ∙ ap
          (λ (p : Result (Unit {0}) × AbiDrive S).
            continue_with p (λ u. register_builtins io codec es))
          (register_again e d held h c r)
      ∙ register_builtins_again es d held h cs rs

  -- A contract that is new, in a registry with room for it.
  register_new_one :
      (e : AbiEntry) (d : AbiDrive S) (held : List AbiEntry)
      → Represents laws codec d held
      → IsContract codec e
      → find e.address held ≡ none
      → length held < d.capacity
      → text_size codec held + length (codec.encode e.abi) ≤ d.heap_length
      → Refines laws codec d held
          (ok (held ++ e ∷ []))
          (Records.register io codec e.address e.kind e.abi d)
  register_new_one e d held h c absent slots bytes =
      subst
        (λ (x : Result (List AbiEntry)).
          Refines laws codec d held x (Records.register io codec e.address e.kind e.abi d))
        (add_contract_absent laws codec d held h e c absent
          ∙ rw (lt→leb_false _ _ slots, le→ltb_false _ _ bytes) refl)
        (register-Refines laws codec d held h e c)

  register_builtins_new :
      (es : List AbiEntry) (d : AbiDrive S) (held : List AbiEntry)
      → Represents laws codec d held
      → AllContracts codec es
      → AllNew es held
      → length held + length es ≤ d.capacity
      → text_size codec held + text_size codec es ≤ d.heap_length
      → ((register_builtins io codec es d).0 ≡ ok tt)
        × Represents laws codec (register_builtins io codec es d).1 (held ++ es)
  unfolding register_builtins pure text_size
  register_builtins_new [] d held h cs ns slots bytes =
      (refl, subst (Represents laws codec d) (sym (append-nil held)) h)
  register_builtins_new (e ∷ es) d held h (c, cs) (n, ns) slots bytes =
      let p = Records.register io codec e.address e.kind e.abi d in
      let r = register_new_one e d held h c n (omega (arith, slots)) (omega (arith, bytes)) in
      let step = register_builtins_step e es d in
      let rest = bind_rest p (register_builtins io codec es) r.same_result in
      let (done, after) =
        register_builtins_new es p.1 (held ++ e ∷ []) r.holds cs ns
          (omega (arith, length-append held (e ∷ []), r.same_capacity, slots))
          (omega (arith, text_size-append codec held e, r.same_heap, bytes)) in
      (
        ap (λ (q : Result (Unit {0}) × AbiDrive S). q.0) (step ∙ rest) ∙ done,
        subst (λ (q : Result (Unit {0}) × AbiDrive S). Represents laws codec q.1 (held ++ e ∷ es))
            (sym (step ∙ rest))
            (subst (Represents laws codec (register_builtins io codec es p.1).1)
              (append_assoc held (e ∷ []) es) after),
      )

  -- A drive that holds a registry is opened, and not formatted.
  open_or_format_lem :
      (cfg : AbiDriveConfig) (d : AbiDrive S) (held : List AbiEntry)
      → IsAsciiCodec codec
      → Represents laws codec d held
      → open_or_format io codec cfg d.store ≡ (ok d, d.store)
  unfolding open_or_format bytes_equal
  open_or_format_lem cfg d held ascii h =
      rw (open_or_format, h.header.magic_there, ascii.decode_ascii abi_drive_magic (omega arith))
        (ap (λ (r : Result (AbiDrive S)). (r, d.store)) (Represents-open laws codec d held ascii h))

  -- A blank store: it does not begin with the magic.
  pub record IsBlank (s : S) : Type 0 where
    pub first_bytes : Bytes
    pub first_there : io.read_at 0 8 s ≡ ok first_bytes
    pub other_magic : bytes_equal (codec.decode first_bytes) abi_drive_magic ≡ false

  open_or_format_blank :
      (cfg : AbiDriveConfig) (s : S)
      → IsBlank s
      → open_or_format io codec cfg s ≡ format io codec cfg s
  unfolding open_or_format
  open_or_format_blank cfg s b = rw (open_or_format, b.first_there, b.other_magic) refl

  module _ {A : Type 0} (abis : BuiltinAbis) (cfg : AbiDriveConfig) where
    assemble_opened :
        (s s' : S) (d : AbiDrive S)
        → open_or_format io codec cfg s ≡ (ok d, s')
        → assemble io codec {A = A} abis cfg s
          ≡ assembled io codec (register_builtins io codec (builtins abis) d)
    unfolding assemble
    assemble_opened s s' d e = rw (assemble, e) refl

    assembled_done :
        (p : Result (Unit {0}) × AbiDrive S)
        → p.0 ≡ ok tt
        → assembled io codec {A = A} p
          ≡ (ok (record { contracts = []; abi_drive = p.1 }), p.1.store)
    assembled_done (ok u, d) h = refl
    assembled_done (err e, d) h = absurd cc

    -- On a blank store that a good geometry of less than 2 ^ 32 bytes fits, with room for the
    -- built-in contracts and texts that survive their encoding, by a codec that leaves ASCII
    -- alone, the boot ends with an application of no contracts whose ABI drive records the
    -- built-in ones in order, and a boot on the store that it leaves ends with the same
    -- application and the same store.
    pub assemble-assemble :
        (s : S)
        → IsAsciiCodec codec
        → IsFormattable laws codec cfg s
        → IsBlank s
        → AllContracts codec (builtins abis)
        → 7 ≤ cfg.capacity
        → text_size codec (builtins abis) ≤ cfg.drive_length - cfg.heap_offset
        → (app : Application A S) × (s' : S) × (assemble io codec abis cfg s ≡ (ok app, s'))
          × (app.contracts ≡ [])
          × (Records.entries io codec app.abi_drive ≡ ok (builtins abis))
          × (assemble io codec abis cfg s' ≡ (ok app, s'))
    unfolding text_size
    assemble-assemble s ascii fit blank cs slots bytes =
        let s₁ = formatted laws codec cfg s ascii fit in
        let d = fresh io codec cfg s₁ in
        let h = fresh-Represents laws codec cfg s ascii fit in
        let (ended, after) =
          register_builtins_new (builtins abis) d [] h cs (builtins-AllNew abis)
            (omega (arith, slots)) (omega (arith, bytes)) in
        let p = register_builtins io codec (builtins abis) d in
        let app : Application A S = record { contracts = []; abi_drive = p.1 } in
        let first =
          assemble_opened s s₁ d
            (open_or_format_blank cfg s blank ∙ format_lem laws codec cfg s ascii fit)
          ∙ assembled_done p ended in
        (
          app,
          p.1.store,
          first,
          refl,
          entries_lem laws codec p.1 (builtins abis) after,
          assemble_opened p.1.store p.1.store p.1
                (open_or_format_lem cfg p.1 (builtins abis) ascii after)
              ∙ ap (λ (q : Result (Unit {0}) × AbiDrive S). assembled io codec q)
                  (register_builtins_again (builtins abis) p.1 (builtins abis) after cs
                    (builtins-AllHeld abis)),
        )

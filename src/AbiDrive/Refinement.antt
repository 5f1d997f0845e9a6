-- ===== src/AbiDrive/Refinement.antt =====
-- The ABI drive as a registry (abi-drive/js/src/index.ts, `register`): what a registration does to
-- the bytes is what it does to the list of contracts.
use op_cartesi.AbiDrive.Added.{add_entry_lem, HasRoom}
use op_cartesi.AbiDrive.Grown.{added-Represents}
use mathlib.Core.Path.{subst}
use op_cartesi.Base.{
  throw_if, ◌>>=◌, ℕ, ◌+◌, ◌<◌, ◌≡◌, refl, ap, ◌∙◌, inl, inr, true, false, not, ◌&&◌, none, some,
  List, [], ◌∷◌, ◌++◌, arith, ltb, leb, ◌==◌, ltb_false→le, leb_false→lt, Bool-cases, Option-cases,
  length, AbiDriveErrorKind, heap_full, duplicate, Failure, abi_drive, Result, ok, err,
}
use op_cartesi.Bytes.{Bytes, bytes_equal}
use op_cartesi.Store.{Store}
use op_cartesi.Store.Laws.{IsByteStore}
use op_cartesi.AbiDrive.Types.{TextCodec, AbiEntry, AbiDrive}
use op_cartesi.AbiDrive.Records.{add_entry, register_new, register}
use op_cartesi.AbiDrive.Registry.{
  find, text_size, new_contract, add_contract, registry_after, result_after,
}
use op_cartesi.AbiDrive.Scan.{entry_of_lem, Represents}

-- A contract that can be registered: an address, a kind of one byte, and a text that survives UTF-8.
pub record IsContract (text : TextCodec) (e : AbiEntry) : Type 0 where
  pub address_length : length e.address ≡ 20
  pub small_kind : e.kind < 256
  pub readable : text.decode (text.encode e.abi) ≡ e.abi

abbrev pub AllContracts : TextCodec → List AbiEntry → Type 0
AllContracts text [] = Unit {0}
AllContracts text (e ∷ es) = IsContract text e × AllContracts text es

module _ {S : Type 0} (io : Store S) (text : TextCodec) where
  -- Attempts one after the other, with what each returned.
  unfoldable pub register_all : List AbiEntry → AbiDrive S → List (Result (Unit {0})) × AbiDrive S
  register_all [] d = ([], d)
  register_all (e ∷ es) d =
      let (r, d') = register io text e.address e.kind e.abi d in
      let (rs, d'') = register_all es d' in (r ∷ rs, d'')

module _ (text : TextCodec) (capacity heap : ℕ) where
  -- The same attempts on the list.
  unfoldable pub add_all : List AbiEntry → List AbiEntry → List (Result (Unit {0})) × List AbiEntry
  add_all [] held = ([], held)
  add_all (e ∷ es) held =
      let r = add_contract text capacity heap e held in
      let (rs, after) = add_all es (registry_after text r held) in (result_after text r ∷ rs, after)

module _ {S : Type 0} {io : Store S} (laws : IsByteStore io) (text : TextCodec) where
  -- A run of `register` that does on the drive what the list does.
  pub record Refines (d : AbiDrive S) (held : List AbiEntry) (spec : Result (List AbiEntry))
      (run : Result (Unit {0}) × AbiDrive S) : Type 0 where
    pub same_result : run.0 ≡ result_after text spec
    pub holds : Represents laws text run.1 (registry_after text spec held)
    pub same_capacity : run.1.capacity ≡ d.capacity
    pub same_heap : run.1.heap_length ≡ d.heap_length

  module _ (d : AbiDrive S) (held : List AbiEntry) (h : Represents laws text d held) where
    refused : (f : Failure) → Refines d held (err f) (err f, d)
    refused f = record { same_result = refl; holds = h; same_capacity = refl; same_heap = refl }

    unchanged : Refines d held (ok held) (ok tt, d)
    unchanged = record { same_result = refl; holds = h; same_capacity = refl; same_heap = refl }

    module _ (e : AbiEntry) (c : IsContract text e) where
      -- The address is taken.
      pub register_taken :
          (old : AbiEntry)
          → find e.address held ≡ some old
          → register io text e.address e.kind e.abi d ≡ (
              throw_if
                (not ((old.kind == e.kind) && bytes_equal old.abi e.abi))
                (abi_drive duplicate)
                d)
      unfolding register ◌>>=◌
      register_taken old there =
          rw (entry_of_lem laws text e.address d held h c.address_length, there) refl

      register_absent :
          find e.address held ≡ none
          → register io text e.address e.kind e.abi d
            ≡ register_new io text e.address e.kind (text.encode e.abi) d
      unfolding register ◌>>=◌
      register_absent there =
          rw (entry_of_lem laws text e.address d held h c.address_length, there) refl

      add_contract_taken :
          (old : AbiEntry)
          → find e.address held ≡ some old
          → Refines d held
              (add_contract text d.capacity d.heap_length e held)
              (register io text e.address e.kind e.abi d)
      unfolding add_contract throw_if
      add_contract_taken old there =
          rw (add_contract, register_taken old there, there)
            (elim (Bool-cases ((old.kind == e.kind) && bytes_equal old.abi e.abi)) [
              | inl same ↦ rw same unchanged
              | inr other ↦ rw other (refused (abi_drive duplicate))
            ])

      pub add_contract_absent :
          find e.address held ≡ none
          → add_contract text d.capacity d.heap_length e held
            ≡ new_contract text d.capacity d.heap_length e held
      unfolding add_contract
      add_contract_absent there = rw (add_contract, there) refl

      abbrev blob : Bytes
      blob = text.encode e.abi

      -- The two tests of `register` on the room that is left, in the list's terms.
      test_full : leb d.capacity d.count ≡ leb d.capacity (length held)
      test_full = ap (λ (n : ℕ). leb d.capacity n) h.counted

      test_over :
          ltb d.heap_length (d.heap_used + length blob)
          ≡ ltb d.heap_length (text_size text held + length blob)
      test_over = ap (λ (n : ℕ). ltb d.heap_length (n + length blob)) h.used_is

      new_full :
          leb d.capacity (length held) ≡ true
          → register_new io text e.address e.kind blob d
            ≡ (err (abi_drive AbiDriveErrorKind.registry_full), d)
      unfolding register_new ◌>>=◌
      new_full full = rw (test_full ∙ full) refl

      new_over :
          leb d.capacity (length held) ≡ false
          → ltb d.heap_length (text_size text held + length blob) ≡ true
          → register_new io text e.address e.kind blob d ≡ (err (abi_drive heap_full), d)
      unfolding register_new ◌>>=◌
      new_over free over = rw (test_full ∙ free, test_over ∙ over) refl

      new_fits :
          leb d.capacity (length held) ≡ false
          → ltb d.heap_length (text_size text held + length blob) ≡ false
          → register_new io text e.address e.kind blob d ≡ add_entry io text e.address e.kind blob d
      unfolding register_new ◌>>=◌
      new_fits free fits = rw (test_full ∙ free, test_over ∙ fits) refl

      added-Refines :
          leb d.capacity (length held) ≡ false
          → ltb d.heap_length (text_size text held + length blob) ≡ false
          → Refines d held (ok (held ++ e ∷ [])) (register_new io text e.address e.kind blob d)
      added-Refines free fits =
          let room : HasRoom laws text d e.address e.kind blob = record {
            header_before = h.header_room;
            index_before = h.index_room;
            heap_inside = h.heap_room;
            slot_free = omega (arith, h.counted, leb_false→lt d.capacity (length held) free);
            heap_free = omega (
              arith,
              h.used_is,
              ltb_false→le d.heap_length (text_size text held + length blob) fits,
            );
            address_length = c.address_length;
          } in
          rw (new_fits free fits ∙ add_entry_lem laws text d e.address e.kind blob room) (record {
            same_result = refl;
            holds = added-Represents laws text d held e h c.small_kind c.readable room;
            same_capacity = refl;
            same_heap = refl;
          })

      new_Refines :
          Refines d held
            (new_contract text d.capacity d.heap_length e held)
            (register_new io text e.address e.kind blob d)
      new_Refines = elim (Bool-cases (leb d.capacity (length held))) [
        | inl full ↦ rw (full, new_full full) (refused (abi_drive AbiDriveErrorKind.registry_full))
        | inr free ↦ elim (Bool-cases (ltb d.heap_length (text_size text held + length blob))) [
          | inl over ↦ rw (free, over, new_over free over) (refused (abi_drive heap_full))
          | inr fits ↦ rw (free, fits) (added-Refines free fits)
        ]
      ]

      pub register-Refines :
          Refines d held
            (add_contract text d.capacity d.heap_length e held)
            (register io text e.address e.kind e.abi d)
      register-Refines = elim (Option-cases (find e.address held)) [
        | inl absent ↦ rw (register_absent absent, add_contract_absent absent) new_Refines
        | inr (old, there) ↦ add_contract_taken old there
      ]

  pub register_all-refines :
      (es : List AbiEntry) (d : AbiDrive S) (held : List AbiEntry) (capacity heap : ℕ)
      → Represents laws text d held
      → d.capacity ≡ capacity
      → d.heap_length ≡ heap
      → AllContracts text es
      → ((register_all io text es d).0 ≡ (add_all text capacity heap es held).0)
        × Represents laws text (register_all io text es d).1 (add_all text capacity heap es held).1
  unfolding register_all add_all
  register_all-refines [] d held capacity heap h ec eh cs = (refl, h)
  register_all-refines (e ∷ es) d held capacity heap h ec eh (c, cs) =
      let r =
        subst
          (λ (n : ℕ).
            Refines d held (add_contract text n heap e held)
              (register io text e.address e.kind e.abi d))
          ec
          (subst
            (λ (n : ℕ).
              Refines d held (add_contract text d.capacity n e held)
                (register io text e.address e.kind e.abi d))
            eh (register-Refines d held h e c)) in
      let (results, after) =
        register_all-refines es (register io text e.address e.kind e.abi d).1
          (registry_after text (add_contract text capacity heap e held) held) capacity heap r.holds
          (r.same_capacity ∙ ec) (r.same_heap ∙ eh) cs in
      ((λ j. r.same_result j ∷ results j), after)

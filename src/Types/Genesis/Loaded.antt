-- ===== src/Types/Genesis/Loaded.antt =====
-- Documents that are read by GenesisDocFromFile of types/genesis.go.
use obrs.Prelude.{◌≡◌, refl, subst, arith, Option-cases, inl, inr}
use obrs.Prelude.Int.{ℤ}
use obrs.Prelude.Bytes.{Bytes}
use obrs.Prelude.Outcome.{Outcome, ok, err, panic}
use obrs.Types.Genesis.{
  GenesisDoc, GenesisFiles, checked, validate_and_complete, genesis_doc_from_json,
  genesis_doc_from_file,
}
use obrs.Types.Genesis.Completion.{IsCompleted, validate_and_complete-IsCompleted}

module _ (key_address : Bytes → Bytes) (g : GenesisFiles) where
  checked-eq-ok :
      (r : GenesisDoc × Outcome (Unit {0})) (doc : GenesisDoc)
      → checked key_address r ≡ ok doc
      → (r.1 ≡ ok tt) × (r.0 ≡ doc)
  checked-eq-ok (d, ok _) doc h = (refl, ground arith)
  checked-eq-ok (d, err e) doc h = cc
  checked-eq-ok (d, panic) doc h = cc

  genesis_doc_from_json-IsCompleted :
      (now : ℤ) (blob : Bytes) (doc : GenesisDoc)
      → genesis_doc_from_json key_address g now blob ≡ ok doc
      → (before : GenesisDoc) × IsCompleted key_address before doc
  unfolding genesis_doc_from_json
  genesis_doc_from_json-IsCompleted now blob doc h = elim (Option-cases (g.unmarshal_doc blob)) [
    | inl bad ↦ ground arith
    | inr (before, e) ↦
        let (passed, same) =
          checked-eq-ok (validate_and_complete key_address now before) doc (ground arith) in
        (
          before,
          subst (IsCompleted key_address before) same
              (validate_and_complete-IsCompleted key_address now before passed),
        )
  ]

  -- A document that is read from a file without an error is complete: it names the chain, its slot is not
  -- negative, it has a time, and each of its validators has a key and the key's address.
  pub genesis_doc_from_file-IsCompleted :
      (now : ℤ) (disk : g.Disk) (file : Bytes) (doc : GenesisDoc)
      → genesis_doc_from_file key_address g now disk file ≡ ok doc
      → (before : GenesisDoc) × IsCompleted key_address before doc
  unfolding genesis_doc_from_file
  genesis_doc_from_file-IsCompleted now disk file doc h = elim (Option-cases (g.read disk file)) [
    | inl bad ↦ ground arith
    | inr (blob, e) ↦ genesis_doc_from_json-IsCompleted now blob doc (ground arith)
  ]

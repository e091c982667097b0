-- ===== src/Privval/KeyFile/Restart.antt =====
-- A node of privval/file.go that is stopped and started again keeps its key.
use obrs.Prelude.{ℕ, ◌≡◌, true, some, arith, Bool-cases, inl, inr}
use obrs.Prelude.Bytes.{Bytes, is_empty}
use obrs.Prelude.Outcome.{ok, deref, >>=-eq-ok}
use obrs.Crypto.Bls.{Suite, pub_key, gen_priv_key}
use obrs.Privval.KeyFile.{
  FilePv, Files, FilesLaws, save, new_file_pv, gen_file_pv, load_file_pv, generate_and_save,
  load_or_gen_file_pv,
}

module _ {Scalar : Type 0} (s : Suite Scalar) (f : Files) (laws : FilesLaws f) where
  save-eq-ok :
      (pv : FilePv) (d d' : f.Disk)
      → save f pv d ≡ ok d'
      → (b : Bytes) × (f.marshal pv.key ≡ some b) × (f.write d pv.key.file_path b ≡ some d')
  unfolding save
  save-eq-ok pv d d' h = elim (Bool-cases (is_empty pv.key.file_path)) [
    | inl e ↦ ground arith
    | inr e ↦ ground arith
  ]

  -- A key that NewFilePV makes of a private key and that Save writes is what loadFilePV reads back.
  pub load_file_pv-save :
      (priv path : Bytes) (pv : FilePv) (d d' : f.Disk)
      → new_file_pv s priv path ≡ ok pv
      → save f pv d ≡ ok d'
      → load_file_pv s f d' path ≡ ok pv
  unfolding new_file_pv load_file_pv
  load_file_pv-save priv path pv d d' made saved =
      let (key, has_key, same) = >>=-eq-ok (deref (pub_key s priv)) _ made in
      let (b, marshalled, written) = save-eq-ok pv d d' saved in
      let (k, unmarshalled, kept) = laws.unmarshal-marshal pv.key b marshalled in
      ground (arith, laws.read-write d d' pv.key.file_path b)

  generated :
      (keys : ℕ → Scalar) (path : Bytes) (pv : FilePv) (d d' : f.Disk)
      → generate_and_save s f keys d path ≡ ok (pv, d')
      → (f.file_exists d' path ≡ true) × (load_file_pv s f d' path ≡ ok pv)
  unfolding generate_and_save gen_file_pv new_file_pv
  generated keys path pv d d' h =
      let priv = gen_priv_key s keys in
      let (made, e, rest) = >>=-eq-ok (new_file_pv s priv path) _ h in
      let (d'', saved, same) = >>=-eq-ok (save f made d) _ rest in
      let (key, has_key, fields) = >>=-eq-ok (deref (pub_key s priv)) _ e in
      let (b, marshalled, written) = save-eq-ok made d d'' saved in
      ground (
        arith,
        load_file_pv-save priv path made d d'',
        laws.file_exists-write d d'' made.key.file_path b,
      )

  -- Over files with their laws: a node that has started, and is started again with any later randomness,
  -- has the key that it had, and writes nothing.
  pub load_or_gen_file_pv_twice :
      (keys later : ℕ → Scalar) (path : Bytes) (pv : FilePv) (d d' : f.Disk)
      → load_or_gen_file_pv s f keys d path ≡ ok (pv, d')
      → load_or_gen_file_pv s f later d' path ≡ ok (pv, d')
  unfolding load_or_gen_file_pv
  load_or_gen_file_pv_twice keys later path pv d d' h = elim (Bool-cases (f.file_exists d path)) [
    | inl there ↦
        let (loaded, e, same) = >>=-eq-ok (load_file_pv s f d path) _ (rw there at h) in
        ground arith
    | inr missing ↦ let (there, loads) = generated keys path pv d d' (ground arith) in ground arith
  ]

-- ===== src/Commands/Launch.antt =====
-- A node that starts on the files which gen-validator and gen-genesis-block of cmd/commands have made.
use obrs.Prelude.{
  All, ◌≢◌, ap, ◌∙◌, subst, sym, ℕ, suc, ◌<◌, ◌≤◌, ◌≡◌, refl, false, true, some, arith, length,
  get_elem?, Option-cases, inl, inr,
}
use obrs.Prelude.Int.{ℤ, pos}
use obrs.Prelude.Bytes.{Bytes, is_empty}
use obrs.Prelude.Outcome.{Outcome, ok, err, panic, ◌>>=◌}
use obrs.Types.External.{External}
use obrs.Types.Memory.{Memory}
use obrs.Types.Genesis.{
  GenesisValidator, GenesisDoc, GenesisFiles, max_chain_id_len, genesis_doc_from_file,
  genesis_doc_from_json, save_as, validate_and_complete,
}
use obrs.Crypto.Bls.{Suite, BlsLaws, address, kyber2_priv_key}
use obrs.Crypto.Threshold.{Curve}
use obrs.Privval.KeyFile.{FilePv, Files, FilesLaws, save, new_file_pv, load_file_pv}
use obrs.Privval.KeyFile.Restart.{load_file_pv-save}
use obrs.Consensus.Machine.{Env}
use obrs.Node.{Config, Node, new_node}
use obrs.Node.Start.{IsNode, new_node-IsNode}
use obrs.Commands.{gen_validator, gen_genesis_file, made_and_saved}
use obrs.Commands.Cluster.{
  share_at, key_of, member, head_of, tail_of, file_of, IsClusterDoc, gen_genesis_doc-IsClusterDoc,
  gen_file_pv_with_seed_and_idx_lem, pub_key-kyber2_priv_key, length-members, members_at,
  Cluster-kept,
}

-- Where a call with its value dropped gives a disk, the call gave that disk.
disk_of-eq-ok :
    {D : Type 0} (pv : FilePv) (o : Outcome D) (d : D)
    → o >>= (λ x. ok (pv, x)) >>= (λ (r : FilePv × D). ok r.1) ≡ ok d
    → o ≡ ok d
disk_of-eq-ok pv (ok x) d h = ground arith
disk_of-eq-ok pv (err e) d h = cc
disk_of-eq-ok pv panic d h = cc

-- A file that was written reads as what was written, and a document that was marshalled is unmarshalled to
-- itself.
pub record GenesisFilesLaws (g : GenesisFiles) : Type 0 where
  pub read-write :
      (d d' : g.Disk) (path b : Bytes) → g.write d path b ≡ some d' → g.read d' path ≡ some b
  pub unmarshal-marshal :
      (doc : GenesisDoc) (b : Bytes) → g.marshal_doc doc ≡ some b → g.unmarshal_doc b ≡ some doc

module _ (key_address : Bytes → Bytes) (g : GenesisFiles) (laws : GenesisFilesLaws g) where
  save_as-eq-ok :
      (doc : GenesisDoc) (d d' : g.Disk) (file : Bytes)
      → save_as key_address g doc d file ≡ ok d'
      → (b : Bytes) × (g.marshal_doc doc ≡ some b) × (g.write d file b ≡ some d')
  unfolding save_as
  save_as-eq-ok doc d d' file h = elim (Option-cases (g.marshal_doc doc)) [
    | inl bad ↦ ground arith
    | inr (b, m) ↦ elim (Option-cases (g.write d file b)) [
      | inl failed ↦ ground arith
      | inr (d'', written) ↦ (b, m, ground arith)
    ]
  ]

  -- A document that is saved and that ValidateAndComplete leaves alone is what is read back.
  genesis_doc_from_file-save_as :
      (later : ℤ) (doc : GenesisDoc) (d d' : g.Disk) (file : Bytes)
      → save_as key_address g doc d file ≡ ok d'
      → validate_and_complete key_address later doc ≡ (doc, ok tt)
      → genesis_doc_from_file key_address g later d' file ≡ ok doc
  unfolding genesis_doc_from_file genesis_doc_from_json
  genesis_doc_from_file-save_as later doc d d' file saved kept =
      let (b, marshalled, written) = save_as-eq-ok doc d d' file saved in
      ground (arith, laws.read-write d d' file b, laws.unmarshal-marshal doc b marshalled)

module _ (c : Curve) (s : Suite c.Scalar) (bls : BlsLaws s) (f : Files) (files : FilesLaws f) where
  -- The key that gen-validator has written is read back.
  load_file_pv-gen_validator :
      (t i : ℕ) (seed : ℤ) (keys keys' : f.Disk) (path : Bytes)
      → f.file_exists keys path ≡ false
      → gen_validator c s f (pos t) (pos (suc i)) seed keys path ≡ ok keys'
      → load_file_pv s f keys' path
        ≡ ok (
            file_of c s bls path
              (share_at c s bls (head_of c s bls seed) (tail_of c s bls seed t) (suc i)))
  unfolding gen_validator made_and_saved
  load_file_pv-gen_validator t i seed keys keys' path missing h =
      let share = share_at c s bls (head_of c s bls seed) (tail_of c s bls seed t) (suc i) in
      let pv = file_of c s bls path share in
      let made = gen_file_pv_with_seed_and_idx_lem c s bls path t i seed in
      load_file_pv-save s f files (kyber2_priv_key s share) path pv keys keys'
        (unfold new_file_pv in ground (arith, pub_key-kyber2_priv_key c s bls share))
        (disk_of-eq-ok pv (save f pv keys) keys' (ground (arith, made)))

  module _ (g : GenesisFiles) (docs : GenesisFilesLaws g) where
    genesis_doc_from_file-gen_genesis_file :
        (ext : External) (sprintf : Bytes → Bytes) (chain_id : Bytes) (seed : ℤ) (t n : ℕ)
        (block_time now later : ℤ) (disk disk' : g.Disk) (file : Bytes)
        → is_empty (sprintf chain_id) ≡ false
        → length (sprintf chain_id) ≤ max_chain_id_len
        → g.file_exists disk file ≡ false
        → gen_genesis_file c s g ext sprintf
            (record { chain_id = chain_id; seed = seed; thres = pos t; cluster_count = pos n })
            block_time
            now
            disk
            file
          ≡ ok disk'
        → (doc : GenesisDoc) × (genesis_doc_from_file (address s) g later disk' file ≡ ok doc)
          × IsClusterDoc c s bls (sprintf chain_id) seed t n now doc
    unfolding gen_genesis_file
    genesis_doc_from_file-gen_genesis_file ext sprintf chain_id seed t n block_time now later disk
          disk' file named short missing h =
        let (doc, made, d) =
          gen_genesis_doc-IsClusterDoc c s bls ext sprintf chain_id seed t n block_time now in
        let kept = Cluster-kept c s bls (sprintf chain_id) seed t n now later doc named short d in
        (
          doc,
          genesis_doc_from_file-save_as (address s) g docs later doc disk disk' file
              (ground (arith, made)) kept,
          d,
        )

    -- Over a pairing library and files with their laws, a document that survives its text among them, and
    -- a formatting that leaves a text without a percent sign as it is: where gen-validator with a number
    -- from 1 to that of the validators, and gen-genesis-block, with the same seed and threshold and a chain
    -- id that is not empty, has 50 bytes at most and no percent sign, each find no file and write one, then
    -- the node that starts on the two files, with a path for its key file and with valid info, has the key
    -- of the validator at that place of the document, whose chain id and number of validators are those
    -- given.
    pub new_node-gen_genesis_file :
        (env : Env) (ext : External) (sprintf : Bytes → Bytes) (config : Config) (chain_id : Bytes)
        (seed : ℤ) (t n i : ℕ) (block_time now later : ℤ) (keys keys' : f.Disk)
        (disk disk' : g.Disk) (m : Memory) (db : env.Db)
        → ((text : Bytes) → All (λ x. x ≢ b'%') text → sprintf text ≡ text)
        → All (λ x. x ≢ b'%') chain_id
        → i < n
        → is_empty chain_id ≡ false
        → length chain_id ≤ max_chain_id_len
        → is_empty config.priv_validator_key_file ≡ false
        → f.file_exists keys config.priv_validator_key_file ≡ false
        → g.file_exists disk config.genesis_file ≡ false
        → gen_validator c s f (pos t) (pos (suc i)) seed keys config.priv_validator_key_file
          ≡ ok keys'
        → gen_genesis_file c s g ext sprintf
            (record { chain_id = chain_id; seed = seed; thres = pos t; cluster_count = pos n })
            block_time
            now
            disk
            config.genesis_file
          ≡ ok disk'
        → (doc : GenesisDoc) × (node : Node s f g env) × (own : Bytes) × (v : GenesisValidator)
          × (new_node s f g env config true later keys' disk' m db ≡ ok node)
          × IsNode s f g env own doc node.con_s
          × (doc.chain_id ≡ chain_id)
          × (length doc.validators ≡ n)
          × (get_elem? doc.validators i ≡ some v)
          × (v.pub_key ≡ some own)
    new_node-gen_genesis_file env ext sprintf config chain_id seed t n i block_time now later keys
          keys' disk disk' m db plain no_sign lt named short path no_key no_doc wrote_key
          wrote_doc =
        let same = plain chain_id no_sign in
        let head = head_of c s bls seed in
        let tail = tail_of c s bls seed t in
        let share = share_at c s bls head tail (suc i) in
        let own = key_of c s bls share in
        let (doc, read, d) =
          genesis_doc_from_file-gen_genesis_file ext sprintf chain_id seed t n block_time now later
            disk disk' config.genesis_file (ap is_empty same ∙ named)
            (subst (λ (b : Bytes). length b ≤ max_chain_id_len) (sym same) short) no_doc
            wrote_doc in
        let (node, starts, is_node) =
          new_node-IsNode s f g env config true later keys' disk' m db own (key_of c s bls head)
            (file_of c s bls config.priv_validator_key_file share) doc path
            (load_file_pv-gen_validator t i seed keys keys' config.priv_validator_key_file no_key
              wrote_key)
            refl read d.primary in
        (
          doc,
          node,
          own,
          member c s bls head tail (suc i),
          starts,
          is_node,
          d.chain ∙ same,
          rw d.of_members (length-members c s bls head tail 1 n),
          rw d.of_members (members_at c s bls head tail n i lt),
          refl,
        )

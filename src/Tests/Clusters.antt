-- ===== src/Tests/Clusters.antt =====
-- A cluster of two validators, made from the seed 0 with the threshold 1, and its second node.
use obrs.Prelude.{
  All, ◌≢◌, ℕ, suc, ◌<◌, ◌≡◌, refl, ap, true, false, Option, none, some, [], ◌∷◌, ◌++◌, arith,
  length, get_elem?,
}
use native.Mathlib.Decide.{ℕ_discrete}
use obrs.Prelude.Int.{pos}
use obrs.Prelude.Bytes.{Bytes}
use obrs.Prelude.Text.{codes}
use obrs.Prelude.Decimal.{itoa}
use obrs.Prelude.Outcome.{ok}
use obrs.Types.Vote.{zero_quorum, support_quorum}
use obrs.Types.Ltime.{hash}
use obrs.Types.Tx.{txs_hash}
use obrs.Types.Block.{
  header_digest, block_hash_value, make_genesis_block, hash_block, fill_header, header_hash,
}
use obrs.Types.Genesis.{GenesisValidator, GenesisDoc, GenesisFiles, validate_and_complete, save_as}
use obrs.Crypto.Bls.{to_kyber, pub_key, address, sign, kyber2_priv_key, gen_priv_key_with_seed}
use obrs.Crypto.Threshold.{random_from, get_value, master}
use obrs.Privval.KeyFile.{FilePv, gen_file_pv_with_seed_and_idx, get_address, save, new_file_pv}
use obrs.Node.{Config, Node, new_node}
use obrs.Node.Start.{IsNode}
use obrs.Commands.{
  cluster_validators, validators_from, cluster_validator, share_of, ClusterFlags, gen_genesis_doc,
  gen_validator, gen_genesis_file,
}
use obrs.Commands.Cluster.{gen_genesis_doc-Cluster}
use obrs.Commands.Launch.{GenesisFilesLaws, new_node-gen_genesis_file}
use obrs.Tests.Keys.{suite, suite_laws, files, files_laws}
use obrs.Tests.Samples.{line_curve, open_ext, node_env, memory}

abbrev same_text : Bytes → Bytes
same_text b = b

abbrev flags : ClusterFlags line_curve suite
flags = record { chain_id = codes "chain"; seed = pos 0; thres = pos 1; cluster_count = pos 2 }

gen_genesis_doc-Cluster_example :
    (doc : GenesisDoc) × (gen_genesis_doc line_curve suite open_ext same_text flags (pos 5) (pos 6)
      ≡ ok doc)
    × (validate_and_complete (address suite) (pos 9) doc ≡ (doc, ok tt))
    × ((i : ℕ)
        → i < 2
        → (pv : FilePv) × (v : GenesisValidator) × (gen_file_pv_with_seed_and_idx line_curve suite
              (codes "key.json")
              (pos 1)
              (pos (suc i))
              (pos 0)
            ≡ ok pv)
          × (get_elem? doc.validators i ≡ some v)
          × (pv.key.pub_key ≡ v.pub_key)
          × (get_address pv ≡ v.address))
gen_genesis_doc-Cluster_example =
    gen_genesis_doc-Cluster line_curve suite suite_laws open_ext same_text (codes "chain")
      (codes "key.json") (pos 0) 1 2 (pos 5) (pos 6) (pos 9) refl (omega arith)

-- The document that the command makes.
abbrev member_with : ℕ → ℕ → GenesisValidator
member_with id key = record {
  address = key ∷ [];
  pub_key = some (key ∷ []);
  name = codes "validator-" ++ itoa (pos id);
}

abbrev doc_made : GenesisDoc
doc_made = record {
  genesis_time = some (pos 6);
  chain_id = codes "chain";
  initial_slot = pos 0;
  validators = member_with 1 14 ∷ member_with 2 21 ∷ [];
  pub_validator = record {
    address = 7 ∷ [];
    pub_key = some (7 ∷ []);
    name = codes "cluster-primary";
  };
  support_quorum = record zero_quorum {
    block_hash = codes "chain0";
    quorum_type = support_quorum;
    signature = 7 ∷ codes "chain0";
  };
  app_hash = codes "app hash";
}

is_made : gen_genesis_doc line_curve suite open_ext same_text flags (pos 5) (pos 6) ≡ ok doc_made
unfolding gen_genesis_doc pub_key address sign kyber2_priv_key gen_priv_key_with_seed get_value
    master cluster_validators validators_from cluster_validator share_of block_hash_value
    make_genesis_block to_kyber hash_block fill_header header_hash random_from header_digest hash
    txs_hash itoa
is_made = refl

Doc-discrete : Discrete GenesisDoc
Doc-discrete = hlevel ℕ_discrete

-- A disk holds one document at most, and only this document has a text.
abbrev text_if : {P : Type 0} → Dec P → Option Bytes
text_if (yes _) = some []
text_if (no _) = none

abbrev text_of : GenesisDoc → Option Bytes
text_of doc = text_if (Doc-discrete doc_made doc)

abbrev doc_files : GenesisFiles
doc_files = record {
  Disk = Option Bytes;
  marshal_doc = text_of;
  unmarshal_doc = λ _. some doc_made;
  file_exists = λ d path. elim d [ none ↦ false | some _ ↦ true ];
  read = λ d path. d;
  write = λ d path b. some (some b);
}

text_of-back : (doc : GenesisDoc) (b : Bytes) → text_of doc ≡ some b → some doc_made ≡ some doc
text_of-back doc b h = go (Doc-discrete doc_made doc) h
  where
    go : (d : Dec (doc_made ≡ doc)) → text_if d ≡ some b → some doc_made ≡ some doc
    go (yes e) _ = ap some e
    go (no _) bad = cc

doc_files_laws : GenesisFilesLaws doc_files
doc_files_laws = record {
  read-write = λ d d' path b e. ground arith;
  unmarshal-marshal = text_of-back;
}

made_text : text_of doc_made ≡ some []
made_text = go (Doc-discrete doc_made doc_made)
  where
    go : (d : Dec (doc_made ≡ doc_made)) → text_if d ≡ some []
    go (yes _) = refl
    go (no different) = absurd (different refl)

abbrev config : Config
config = record { priv_validator_key_file = codes "key.json"; genesis_file = codes "genesis.json" }

wrote_key :
    gen_validator line_curve suite files (pos 1) (pos 2) (pos 0) none (codes "key.json")
    ≡ ok (some (21 ∷ []))
unfolding gen_validator gen_file_pv_with_seed_and_idx save new_file_pv pub_key address
    kyber2_priv_key gen_priv_key_with_seed get_value master to_kyber random_from
wrote_key = refl

wrote_doc :
    gen_genesis_file line_curve suite doc_files open_ext same_text flags
      (pos 5)
      (pos 6)
      none
      (codes "genesis.json")
    ≡ ok (some [])
unfolding gen_genesis_file save_as
wrote_doc = ground (arith, is_made, made_text)

no_sign : All (λ x. x ≢ b'%') (codes "chain")
no_sign = (
  λ e. omega (arith, e),
  (
    λ e. omega (arith, e),
    (λ e. omega (arith, e), (λ e. omega (arith, e), (λ e. omega (arith, e), tt))),
  ),
)

new_node-gen_genesis_file_example :
    (doc : GenesisDoc) × (node : Node suite files doc_files node_env) × (own : Bytes)
    × (v : GenesisValidator) × (new_node suite files doc_files node_env config true
          (pos 9)
          (some (21 ∷ []))
          (some [])
          memory
          0
        ≡ ok node)
    × IsNode suite files doc_files node_env own doc node.con_s
    × (doc.chain_id ≡ codes "chain")
    × (length doc.validators ≡ 2)
    × (get_elem? doc.validators 1 ≡ some v)
    × (v.pub_key ≡ some own)
new_node-gen_genesis_file_example =
    new_node-gen_genesis_file line_curve suite suite_laws files files_laws doc_files doc_files_laws
      node_env open_ext same_text config (codes "chain") (pos 0) 1 2 1 (pos 5) (pos 6) (pos 9) none
      (some (21 ∷ [])) none (some []) memory 0 (λ text h. refl) no_sign (omega arith) refl
      (omega arith) refl refl refl wrote_key wrote_doc

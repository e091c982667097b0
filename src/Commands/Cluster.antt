-- ===== src/Commands/Cluster.antt =====
-- The genesis document of gen-genesis-block and the keys of gen-validator, cmd/commands, made from one
-- seed: the shares of one polynomial.
use obrs.Prelude.{
  ℕ, zero, suc, ◌+◌, ◌<◌, ◌≤◌, ◌≡◌, refl, ap, ◌∙◌, some, List, [], ◌∷◌, ◌++◌, arith, length, All,
  get_elem?, false, Option-cases, inl, inr,
}
use obrs.Prelude.Int.{ℤ, pos}
use obrs.Prelude.Bytes.{Bytes, bytes_of, is_empty}
use obrs.Prelude.Text.{codes}
use obrs.Prelude.Decimal.{itoa}
use obrs.Prelude.Outcome.{ok}
use obrs.Types.External.{External}
use obrs.Types.Vote.{zero_quorum, support_quorum}
use obrs.Types.Block.{make_genesis_block, block_hash_value}
use obrs.Types.Genesis.{GenesisValidator, GenesisDoc, max_chain_id_len, validate_and_complete}
use obrs.Types.Genesis.Completion.{IsComplete, validate_and_complete_id}
use obrs.Crypto.Bls.{
  Suite, BlsLaws, sign, pub_key, address, to_kyber, gen_priv_key, gen_priv_key_with_seed,
  kyber2_priv_key,
}
use obrs.Crypto.Bls.Signing.{unmarshal_scalar-kyber2_priv_key}
use obrs.Crypto.Threshold.{Curve, get_value, value_from, master, random_from}
use obrs.Privval.KeyFile.{FilePv, new_file_pv, gen_file_pv_with_seed_and_idx, get_address}
use obrs.Commands.{
  logged, share_of, cluster_validator, validators_from, cluster_validators, gen_genesis_doc,
}

module _ (c : Curve) (s : Suite c.Scalar) (laws : BlsLaws s) where
  -- The share of a number, its public key, and the validator of it in the document.
  abbrev pub share_at : c.Scalar → List c.Scalar → ℕ → c.Scalar
  share_at p ps id = value_from c (c.set_int64 (pos id)) c.one p ps

  abbrev pub key_of : c.Scalar → Bytes
  key_of x = bytes_of (s.marshal_key (s.base_mul x))

  abbrev pub member : c.Scalar → List c.Scalar → ℕ → GenesisValidator
  member p ps id = record {
    address = address s (key_of (share_at p ps id));
    pub_key = some (key_of (share_at p ps id));
    name = codes "validator-" ++ itoa (pos id);
  }

  abbrev pub members : c.Scalar → List c.Scalar → ℕ → ℕ → List GenesisValidator
  members p ps id zero = []
  members p ps id (suc n) = member p ps id ∷ members p ps (id + 1) n

  pub pub_key-kyber2_priv_key : (x : c.Scalar) → pub_key s (kyber2_priv_key s x) ≡ some (key_of x)
  unfolding pub_key
  pub_key-kyber2_priv_key x = ground (arith, unmarshal_scalar-kyber2_priv_key s laws x)

  cluster_validator_lem :
      (p : c.Scalar) (ps : List c.Scalar) (i : ℕ)
      → cluster_validator c s (some (p ∷ ps)) (suc i) ≡ ok (member p ps (suc i))
  unfolding cluster_validator share_of get_value
  cluster_validator_lem p ps i = ground (arith, pub_key-kyber2_priv_key (share_at p ps (suc i)))

  validators_from_lem :
      (p : c.Scalar) (ps : List c.Scalar) (i n : ℕ)
      → validators_from c s (some (p ∷ ps)) (suc i) n ≡ ok (members p ps (suc i) n)
  unfolding validators_from
  validators_from_lem p ps i zero = refl
  validators_from_lem p ps i (suc n) =
      ground (arith, cluster_validator_lem p ps i, validators_from_lem p ps (suc i) n)

  get_elem?-members :
      (p : c.Scalar) (ps : List c.Scalar) (id n k : ℕ)
      → k < n
      → get_elem? (members p ps id n) k ≡ some (member p ps (id + k))
  get_elem?-members p ps id zero k lt = absurd (omega arith)
  get_elem?-members p ps id (suc n) zero lt = ap (λ j. some (member p ps j)) (omega arith)
  get_elem?-members p ps id (suc n) (suc k) lt = ground (arith, get_elem?-members p ps (id + 1) n k)

  pub length-members :
      (p : c.Scalar) (ps : List c.Scalar) (id n : ℕ) → length (members p ps id n) ≡ n
  length-members p ps id zero = refl
  length-members p ps id (suc n) = ground (arith, length-members p ps (id + 1) n)

  pub members_at :
      (p : c.Scalar) (ps : List c.Scalar) (n i : ℕ)
      → i < n
      → get_elem? (members p ps 1 n) i ≡ some (member p ps (suc i))
  members_at p ps n i lt =
      get_elem?-members p ps 1 n i lt ∙ ap (λ j. some (member p ps j)) (omega arith)

  members-IsComplete :
      (p : c.Scalar) (ps : List c.Scalar) (id n : ℕ)
      → All (IsComplete (address s)) (members p ps id n)
  members-IsComplete p ps id zero = tt
  members-IsComplete p ps id (suc n) = (
    record { key = key_of (share_at p ps id); has_key = refl; own_address = refl },
    members-IsComplete p ps (id + 1) n,
  )

  -- The coefficients that the commands draw from a seed and a threshold.
  abbrev pub head_of : ℤ → c.Scalar
  head_of seed = s.seeded_keys seed 0

  abbrev pub tail_of : ℤ → ℕ → List c.Scalar
  tail_of seed t = random_from (s.seeded_keys seed) 0 t

  master_lem :
      (seed : ℤ) (t : ℕ)
      → master s (gen_priv_key_with_seed s seed) (pos t) seed
        ≡ ok (some (head_of seed ∷ tail_of seed t))
  unfolding master to_kyber gen_priv_key_with_seed gen_priv_key
  master_lem seed t = ground (arith, unmarshal_scalar-kyber2_priv_key s laws (head_of seed))

  -- The key file of a number.
  abbrev pub file_of : Bytes → c.Scalar → FilePv
  file_of path x = record {
    key = record {
      address = address s (key_of x);
      pub_key = some (key_of x);
      priv_key = some (kyber2_priv_key s x);
      file_path = path;
    };
  }

  pub gen_file_pv_with_seed_and_idx_lem :
      (path : Bytes) (t i : ℕ) (seed : ℤ)
      → gen_file_pv_with_seed_and_idx c s path (pos t) (pos (suc i)) seed
        ≡ ok (file_of path (share_at (head_of seed) (tail_of seed t) (suc i)))
  unfolding gen_file_pv_with_seed_and_idx get_value new_file_pv
  gen_file_pv_with_seed_and_idx_lem path t i seed = ground (
    arith,
    master_lem seed t,
    pub_key-kyber2_priv_key (share_at (head_of seed) (tail_of seed t) (suc i)),
  )

  sign-logged : (priv msg : Bytes) → (sig : Bytes) × (logged (sign s priv msg) ≡ ok sig)
  unfolding sign
  sign-logged priv msg = elim (Option-cases (s.unmarshal_scalar priv)) [
    | inl bad ↦ ([], ground arith)
    | inr (x, e) ↦ elim (Option-cases (s.bls_sign x msg)) [
      | inl failed ↦ ([], ground arith)
      | inr (sig, signed) ↦ (sig, ground arith)
    ]
  ]

  pub record IsClusterDoc (chain_id : Bytes) (seed : ℤ) (t n : ℕ) (now : ℤ) (doc : GenesisDoc)
      : Type 0 where
    pub chain : doc.chain_id ≡ chain_id
    pub first_slot : doc.initial_slot ≡ pos 0
    pub at_time : doc.genesis_time ≡ some now
    pub of_members : doc.validators ≡ members (head_of seed) (tail_of seed t) 1 n
    pub primary : doc.pub_validator.pub_key ≡ some (key_of (head_of seed))

  pub gen_genesis_doc-IsClusterDoc :
      (ext : External) (sprintf : Bytes → Bytes) (chain_id : Bytes) (seed : ℤ) (t n : ℕ)
      (block_time now : ℤ)
      → (doc : GenesisDoc) × (gen_genesis_doc c s ext sprintf
            (record { chain_id = chain_id; seed = seed; thres = pos t; cluster_count = pos n })
            block_time
            now
          ≡ ok doc)
        × IsClusterDoc (sprintf chain_id) seed t n now doc
  unfolding gen_genesis_doc cluster_validators gen_priv_key_with_seed gen_priv_key
  gen_genesis_doc-IsClusterDoc ext sprintf chain_id seed t n block_time now =
      let hash = block_hash_value ext (make_genesis_block chain_id block_time) in
      let priv = gen_priv_key_with_seed s seed in
      let (sig, signed) = sign-logged priv hash in
      let key = key_of (head_of seed) in
      (
        record {
          genesis_time = some now;
          chain_id = sprintf chain_id;
          initial_slot = pos 0;
          validators = members (head_of seed) (tail_of seed t) 1 n;
          pub_validator = record {
            address = address s key;
            pub_key = some key;
            name = codes "cluster-primary";
          };
          support_quorum = record zero_quorum {
            slot = pos 0;
            block_hash = hash;
            quorum_type = support_quorum;
            signature = sig;
          };
          app_hash = codes "app hash";
        },
        ground (
          arith,
          master_lem seed t,
          validators_from_lem (head_of seed) (tail_of seed t) 0 n,
          pub_key-kyber2_priv_key (head_of seed),
          signed,
        ),
        record {
          chain = refl;
          first_slot = refl;
          at_time = refl;
          of_members = refl;
          primary = refl;
        },
      )

  -- A node that reads such a document takes it as it is.
  pub Cluster-kept :
      (chain_id : Bytes) (seed : ℤ) (t n : ℕ) (now later : ℤ) (doc : GenesisDoc)
      → is_empty chain_id ≡ false
      → length chain_id ≤ max_chain_id_len
      → IsClusterDoc chain_id seed t n now doc
      → validate_and_complete (address s) later doc ≡ (doc, ok tt)
  Cluster-kept chain_id seed t n now later doc named short d =
      validate_and_complete_id (address s) later doc (ground (arith, d.chain))
        (ground (arith, d.chain)) (ground (arith, d.first_slot))
        (rw d.of_members (members-IsComplete (head_of seed) (tail_of seed t) 1 n)) (now, d.at_time)

  -- Over a pairing library with its laws: where a genesis document is made from a seed, a threshold from 0
  -- on and a number of validators, and its chain id
  -- is not empty and has 50 bytes at most, then a node that reads it takes it as it is; and each number
  -- from 1 to that of the validators has a key, made of the same seed and threshold, whose public key and
  -- address are those of the validator at that place of the document.
  pub gen_genesis_doc-Cluster :
      (ext : External) (sprintf : Bytes → Bytes) (chain_id path : Bytes) (seed : ℤ) (t n : ℕ)
      (block_time now later : ℤ)
      → is_empty (sprintf chain_id) ≡ false
      → length (sprintf chain_id) ≤ max_chain_id_len
      → (doc : GenesisDoc) × (gen_genesis_doc c s ext sprintf
            (record { chain_id = chain_id; seed = seed; thres = pos t; cluster_count = pos n })
            block_time
            now
          ≡ ok doc)
        × (validate_and_complete (address s) later doc ≡ (doc, ok tt))
        × ((i : ℕ)
            → i < n
            → (pv : FilePv) × (v : GenesisValidator) × (gen_file_pv_with_seed_and_idx c s path
                  (pos t)
                  (pos (suc i))
                  seed
                ≡ ok pv)
              × (get_elem? doc.validators i ≡ some v)
              × (pv.key.pub_key ≡ v.pub_key)
              × (get_address pv ≡ v.address))
  gen_genesis_doc-Cluster ext sprintf chain_id path seed t n block_time now later named short =
      let (doc, made, d) =
        gen_genesis_doc-IsClusterDoc ext sprintf chain_id seed t n block_time now in
      let head = head_of seed in
      let tail = tail_of seed t in
      (
        doc,
        made,
        Cluster-kept (sprintf chain_id) seed t n now later doc named short d,
        λ i lt. (
          file_of path (share_at head tail (suc i)),
          member head tail (suc i),
          gen_file_pv_with_seed_and_idx_lem path t i seed,
          rw d.of_members (members_at head tail n i lt),
          refl,
          unfold get_address in refl,
        ),
      )

-- ===== src/Privval/KeyFile/Signed.antt =====
-- What a validator signs by privval/file.go is accepted by the other nodes, consensus/state.go.
use obrs.Prelude.{◌≡◌, refl, true, some, arith}
use obrs.Prelude.Int.{eqb_ℤ_iff}
use obrs.Prelude.Bytes.{Bytes}
use obrs.Prelude.Outcome.{ok, deref, >>=-eq-ok}
use obrs.Types.Vote.{Vote, vote_sign_bytes}
use obrs.Types.Validators.{Validator, get_by_address}
use obrs.Types.External.{External}
use obrs.Crypto.Bls.{Suite, BlsLaws, pub_key, verify_signature}
use obrs.Crypto.Bls.Signing.{verify_signature-sign}
use obrs.Consensus.VoteSet.{SlotVoteSet, add_slot_vote}
use obrs.Consensus.Machine.{Env, ConsensusState, emit, fire_new_vote}
use obrs.Consensus.Machine.Proposing.{try_add_vote, admit}
use obrs.Consensus.Machine.Handlers.{handle_vote}
use obrs.Privval.KeyFile.{FilePv, new_file_pv, sign_vote, sign_with}

module _ {Scalar : Type 0} (s : Suite Scalar) (laws : BlsLaws s) where
  -- A vote that is signed has a signature that verifies under the signer's key, and is else unchanged.
  pub sign_vote-verifies :
      (ext : External) (priv path chain_id : Bytes) (pv : FilePv) (vote signed : Vote)
      → new_file_pv s priv path ≡ ok pv
      → sign_vote s ext pv chain_id vote ≡ ok signed
      → (key : Bytes) × (pv.key.pub_key ≡ some key)
        × (signed ≡ record vote { signature = signed.signature })
        × (verify_signature s key (vote_sign_bytes ext chain_id signed) signed.signature ≡ true)
  unfolding new_file_pv sign_vote sign_with vote_sign_bytes
  sign_vote-verifies ext priv path chain_id pv vote signed made h =
      let (key, has_key, fields) = >>=-eq-ok (deref (pub_key s priv)) _ made in
      let (sig, is_signed, same) =
        >>=-eq-ok (sign_with s pv (vote_sign_bytes ext chain_id vote)) _ h in
      let (key', has_key', verified) =
        verify_signature-sign s laws priv (vote_sign_bytes ext chain_id vote) sig (ground arith) in
      (key, ground arith, ground arith, ground arith)

  -- Where a node checks signatures as the key's package does, its set of validators has the signer's key
  -- at the address and the index that the vote names, and its votes have no other vote of the signer in
  -- the slot, a vote that the signer signs is admitted: it is added to the votes and fired as an event,
  -- and nothing else changes.
  pub handle_vote-sign_vote :
      (env : Env) (priv path : Bytes) (pv : FilePv) (vote signed : Vote) (cs : ConsensusState env)
      (val : Validator) (svs : SlotVoteSet)
      → ((key msg sig : Bytes)
          → env.ext.verify_signature key msg sig ≡ verify_signature s key msg sig)
      → new_file_pv s priv path ≡ ok pv
      → get_by_address cs.validators vote.validator_address ≡ (vote.validator_index, some val)
      → val.pub_key ≡ pv.key.pub_key
      → sign_vote s env.ext pv cs.state.chain_id vote ≡ ok signed
      → add_slot_vote cs.vote_set signed ≡ ok svs
      → handle_vote env signed cs
        ≡ ok (emit env (fire_new_vote signed) (record cs { vote_set = svs }))
  unfolding handle_vote try_add_vote admit
  handle_vote-sign_vote env priv path pv vote signed cs val svs same_check made found same_key h
        added =
      let (key, has_key, unchanged, verified) =
        sign_vote-verifies env.ext priv path cs.state.chain_id pv vote signed made h in
      let here : get_by_address cs.validators signed.validator_address
          ≡ (signed.validator_index, some val) =
        rw unchanged found in
      let checked : env.ext.verify_signature key (vote_sign_bytes env.ext cs.state.chain_id signed)
            signed.signature
          ≡ true =
        rw (same_check key _ _) verified in
      ground (arith, (eqb_ℤ_iff signed.validator_index signed.validator_index).1 refl)

-- ===== src/Types/Genesis/Completion.antt =====
-- What ValidateAndComplete of types/genesis.go makes of a document.
use obrs.Prelude.{
  ◌≤◌, ◌≡◌, refl, sym, ap, subst, ◌∙◌, false, Option, none, some, List, [], ◌∷◌, arith, length, map,
  Option-cases, inl, inr, All,
}
use obrs.Prelude.Int.{ℤ, pos, ◌≤ℤ◌}
use obrs.Prelude.Bytes.{Bytes, is_empty, bytes_equal_iff, bytes_equal_refl}
use obrs.Prelude.Outcome.{Outcome, ok, err, panic}
use obrs.Types.Validators.{Validator, validate_set, validate_validator, validate_each, address_size}
use obrs.Types.Genesis.{
  GenesisValidator, GenesisDoc, complete_each, complete_with, validate_and_complete, check_fields,
  finish, validator_set_of, new_validator, max_chain_id_len,
}

-- The validator of the set that stands for one of the document.
abbrev pub as_validator : GenesisValidator → Validator
as_validator v = record { address = v.address; pub_key = v.pub_key }

module _ (key_address : Bytes → Bytes) where
  -- A validator of the document with its key's address.
  pub record IsComplete (v : GenesisValidator) : Type 0 where
    pub key : Bytes
    pub has_key : v.pub_key ≡ some key
    pub own_address : v.address ≡ key_address key

  -- The same validator, but for its address.
  abbrev pub SameButAddress : List GenesisValidator → List GenesisValidator → Type 0
  SameButAddress [] [] = Unit
  SameButAddress [] (w ∷ ws) = ⊥
  SameButAddress (v ∷ vs) [] = ⊥
  SameButAddress (v ∷ vs) (w ∷ ws) =
      (w.pub_key ≡ v.pub_key) × (w.name ≡ v.name) × SameButAddress vs ws

  -- A first validator that is passed: it has a key, and gets the key's address.
  complete_each-eq-ok :
      (v : GenesisValidator) (vs : List GenesisValidator)
      → (complete_each key_address (v ∷ vs)).1 ≡ ok tt
      → (key : Bytes) × (v.pub_key ≡ some key)
        × ((complete_each key_address vs).1 ≡ ok tt)
        × ((complete_each key_address (v ∷ vs)).0
            ≡ record v { address = key_address key } ∷ (complete_each key_address vs).0)
  unfolding complete_each
  complete_each-eq-ok v vs h = go v.pub_key refl h
    where
      rest : List GenesisValidator × Outcome (Unit {0})
      rest = complete_each key_address vs

      go :
          (k : Option Bytes)
          → v.pub_key ≡ k
          → (complete_with key_address k v vs rest).1 ≡ ok tt
          → (key : Bytes) × (v.pub_key ≡ some key)
            × (rest.1 ≡ ok tt)
            × ((complete_with key_address k v vs rest).0
                ≡ record v { address = key_address key } ∷ rest.0)
      go none e x = cc
      go (some key) e x =
          (key, e, ground arith, ground (arith, bytes_equal_iff (key_address key) v.address))

  complete_each-IsComplete :
      (vs : List GenesisValidator)
      → (complete_each key_address vs).1 ≡ ok tt
      → All IsComplete (complete_each key_address vs).0
        × SameButAddress vs (complete_each key_address vs).0
  complete_each-IsComplete [] h = unfold complete_each in (tt, tt)
  complete_each-IsComplete (v ∷ vs) h =
      let (key, e, r, same) = complete_each-eq-ok v vs h in
      let (a, b) = complete_each-IsComplete vs r in
      rw same ((record { key = key; has_key = e; own_address = refl }, a), (refl, refl, b))

  -- What a completed document is, and what it keeps of the document before.
  pub record IsCompleted (doc doc' : GenesisDoc) : Type 0 where
    pub named : is_empty doc'.chain_id ≡ false
    pub short : length doc'.chain_id ≤ max_chain_id_len
    pub slot : pos 0 ≤ℤ doc'.initial_slot
    pub complete : All IsComplete doc'.validators
    pub timed : (t : ℤ) × (doc'.genesis_time ≡ some t)
    pub same_validators : SameButAddress doc.validators doc'.validators
    pub rest : doc' ≡ record doc { validators = doc'.validators; genesis_time = doc'.genesis_time }

  finished :
      (now : ℤ) (doc : GenesisDoc) (r : List GenesisValidator × Outcome (Unit {0}))
      → (finish key_address now doc r).1 ≡ ok tt
      → (r.1 ≡ ok tt)
        × (t : ℤ) × ((finish key_address now doc r).0
            ≡ record doc { validators = r.0; genesis_time = some t })
  unfolding finish
  finished now doc (vals, ok _) h = elim (Option-cases doc.genesis_time) [
    | inl none' ↦ (refl, now, rw none' refl)
    | inr (t, e) ↦ (refl, t, rw e refl)
  ]
  finished now doc (vals, err e) h = cc
  finished now doc (vals, panic) h = cc

  -- The checks of ValidateAndComplete, passed.
  validated :
      (now : ℤ) (doc : GenesisDoc)
      → (validate_and_complete key_address now doc).1 ≡ ok tt
      → (check_fields key_address doc ≡ ok tt)
        × (validate_and_complete key_address now doc
            ≡ finish key_address now doc (complete_each key_address doc.validators))
  unfolding validate_and_complete
  validated now doc h = go (check_fields key_address doc) refl
    where
      go :
          (o : Outcome (Unit {0}))
          → check_fields key_address doc ≡ o
          → (check_fields key_address doc ≡ ok tt)
            × (validate_and_complete key_address now doc
                ≡ finish key_address now doc (complete_each key_address doc.validators))
      go (ok _) e = (e, ground arith)
      go (err x) e = ground arith
      go panic e = ground arith

  check_fields-ok :
      (doc : GenesisDoc)
      → check_fields key_address doc ≡ ok tt
      → (is_empty doc.chain_id ≡ false)
        × (length doc.chain_id ≤ max_chain_id_len)
        × (pos 0 ≤ℤ doc.initial_slot)
  unfolding check_fields
  check_fields-ok doc h = ground arith

  -- A document that ValidateAndComplete passes has a chain id of 1 to 50 bytes, a slot from 0 on, a
  -- genesis time, and for each validator a key and that key's address; it is the document before but for
  -- the time and the addresses.
  pub validate_and_complete-IsCompleted :
      (now : ℤ) (doc : GenesisDoc)
      → (validate_and_complete key_address now doc).1 ≡ ok tt
      → IsCompleted doc (validate_and_complete key_address now doc).0
  validate_and_complete-IsCompleted now doc h =
      let vals = complete_each key_address doc.validators in
      let (fields, e) = validated now doc h in
      let (passed, t, same) =
        finished now doc vals (subst (λ (r : GenesisDoc × Outcome (Unit {0})). r.1 ≡ ok tt) e h) in
      let (named, short, slot) = check_fields-ok doc fields in
      let (complete, kept) = complete_each-IsComplete doc.validators passed in
      let out : (validate_and_complete key_address now doc).0
          ≡ record doc { validators = vals.0; genesis_time = some t } =
        ap (λ (r : GenesisDoc × Outcome (Unit {0})). r.0) e ∙ same in
      subst (IsCompleted doc) (sym out) (record {
        named = named;
        short = short;
        slot = slot;
        complete = complete;
        timed = (t, refl);
        same_validators = kept;
        rest = refl;
      })

  -- Where every validator has its key's address, the loop passes them all and changes nothing.
  complete_each_id :
      (vs : List GenesisValidator) → All IsComplete vs → complete_each key_address vs ≡ (vs, ok tt)
  unfolding complete_each
  complete_each_id [] h = refl
  complete_each_id (v ∷ vs) (c, h) = ground (
    arith,
    complete_each_id vs h,
    c.has_key,
    c.own_address,
    bytes_equal_refl v.address,
    bytes_equal_iff (key_address c.key) v.address,
  )

  -- A document with the fields that ValidateAndComplete asks for passes, and it changes nothing.
  pub validate_and_complete_id :
      (later : ℤ) (d : GenesisDoc)
      → is_empty d.chain_id ≡ false
      → length d.chain_id ≤ max_chain_id_len
      → pos 0 ≤ℤ d.initial_slot
      → All IsComplete d.validators
      → (t : ℤ) × (d.genesis_time ≡ some t)
      → validate_and_complete key_address later d ≡ (d, ok tt)
  unfolding validate_and_complete check_fields finish
  validate_and_complete_id later d named short slot complete timed =
      ground (arith, complete_each_id d.validators complete)

  -- A document that was completed passes again, and completing it again changes nothing.
  pub validate_and_complete_twice :
      (now later : ℤ) (doc : GenesisDoc)
      → (validate_and_complete key_address now doc).1 ≡ ok tt
      → validate_and_complete key_address later (validate_and_complete key_address now doc).0
        ≡ ((validate_and_complete key_address now doc).0, ok tt)
  validate_and_complete_twice now later doc h =
      let c = validate_and_complete-IsCompleted now doc h in
      validate_and_complete_id later (validate_and_complete key_address now doc).0 c.named c.short
        c.slot c.complete c.timed

  pub validator_set_of_complete :
      (vs : List GenesisValidator)
      → All IsComplete vs
      → validator_set_of key_address vs ≡ ok (map as_validator vs)
  unfolding validator_set_of new_validator
  validator_set_of_complete [] h = refl
  validator_set_of_complete (v ∷ vs) (c, h) =
      ground (arith, validator_set_of_complete vs h, c.has_key, c.own_address)

  validate_each_complete :
      (vs : List GenesisValidator)
      → ((key : Bytes) → length (key_address key) ≡ address_size)
      → All IsComplete vs
      → validate_each (map as_validator vs) ≡ ok tt
  unfolding validate_each validate_validator
  validate_each_complete [] size h = refl
  validate_each_complete (v ∷ vs) size (c, h) =
      ground (arith, validate_each_complete vs size h, c.has_key, c.own_address, size c.key)

  -- The validator set of a completed document has the document's validators with their addresses and
  -- keys, in order; where there is one at least and addresses have 20 bytes, it passes ValidateBasic.
  pub validator_set_of-validate_and_complete :
      (now : ℤ) (doc doc' : GenesisDoc) (v : GenesisValidator) (vs : List GenesisValidator)
      → validate_and_complete key_address now doc ≡ (doc', ok tt)
      → doc'.validators ≡ v ∷ vs
      → ((key : Bytes) → length (key_address key) ≡ address_size)
      → (validator_set_of key_address doc'.validators ≡ ok (map as_validator doc'.validators))
        × (validate_set (map as_validator doc'.validators) ≡ ok tt)
  unfolding validate_set
  validator_set_of-validate_and_complete now doc doc' v vs h some_validators size =
      let done : (validate_and_complete key_address now doc).1 ≡ ok tt =
        ap (λ (r : GenesisDoc × Outcome (Unit {0})). r.1) h in
      let is_doc : (validate_and_complete key_address now doc).0 ≡ doc' =
        ap (λ (r : GenesisDoc × Outcome (Unit {0})). r.0) h in
      let c =
        (subst (IsCompleted doc) is_doc
          (validate_and_complete-IsCompleted now doc done)).complete in
      (
        validator_set_of_complete doc'.validators c,
        rw some_validators
            (validate_each_complete (v ∷ vs) size (subst (All IsComplete) some_validators c)),
      )

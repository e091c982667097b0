-- ===== src/Mempool/Reaping.antt =====
-- ReapTxs and reapMaxTxs of mempool/list_mempool.go.
use obrs.Prelude.{
  ℕ, ◌+◌, ◌≤◌, ◌<◌, ◌≡◌, refl, Bool, true, false, List, [], ◌∷◌, ◌++◌, arith, Bool-cases, inl, inr,
  All, All-append, length, leb,
}
use obrs.Prelude.Int.{pos, leb_ℤ, ltb_ℤ}
use obrs.Prelude.Bytes.{Bytes}
use obrs.Types.External.{External}
use obrs.Types.Tx.{Tx, size_of_txs}
use obrs.Mempool.{ListMempool, MempoolTx, tx_key, reap_from, reap_txs, reap_max_from, reap_max_txs}

module _ (ext : External) (sha256 : Bytes → Bytes) where
  -- The transactions fit in a number of bytes, and none of them is locked.
  abbrev pub Fits : ℕ → (Bytes → Bool) → List Tx → Type 0
  Fits max locked txs =
      (size_of_txs txs ≤ max) × All (λ tx. locked (tx_key ext sha256 tx) ≡ false) txs

  reap_from-Fits :
      (max : ℕ) (locked : Bytes → Bool) (txs : List Tx) (es : List MempoolTx)
      → Fits max locked txs
      → Fits max locked (reap_from ext sha256 (pos max) locked txs es)
  unfolding reap_from
  reap_from-Fits max locked txs [] f = f
  reap_from-Fits max locked txs (e ∷ es) f = elim (Bool-cases (locked (tx_key ext sha256 e.tx))) [
    | inl is_locked ↦ rw is_locked (reap_from-Fits max locked txs es f)
    | inr free ↦ elim (Bool-cases (ltb_ℤ (pos max) (pos (size_of_txs (txs ++ e.tx ∷ []))))) [
      | inl over ↦ rw free (rw bounded (rw over f))
      | inr within ↦ rw free (
          rw bounded (
            rw within (
              reap_from-Fits max locked (txs ++ e.tx ∷ []) es
                (ground arith, All-append _ txs (e.tx ∷ []) f.1 (free, tt)))))
    ]
  ]
    where
      bounded : leb_ℤ (pos 0) (pos max) ≡ true
      bounded = ground arith

  -- ReapTxs with a bound gives transactions that fit in it, and no locked ones.
  pub reap_txs-Fits :
      (max : ℕ) (mem : ListMempool)
      → Fits max mem.locked_txs_map (reap_txs ext sha256 (pos max) mem)
  unfolding reap_txs size_of_txs
  reap_txs-Fits max mem = reap_from-Fits max mem.locked_txs_map [] mem.txs (omega arith, tt)

past-reap_max_from :
    (max so_far : ℕ) (es : List MempoolTx) → max < so_far → length (reap_max_from max so_far es) ≡ 0
unfolding reap_max_from
past-reap_max_from max so_far [] h = refl
past-reap_max_from max so_far (e ∷ es) h = ground arith

length-reap_max_from :
    (max so_far : ℕ) (es : List MempoolTx)
    → so_far ≤ max
    → max < so_far + length es
    → length (reap_max_from max so_far es) + so_far ≡ max + 1
unfolding reap_max_from
length-reap_max_from max so_far [] h l = absurd (omega arith)
length-reap_max_from max so_far (e ∷ es) h l = elim (Bool-cases (leb (so_far + 1) max)) [
  | inl more ↦ ground (arith, length-reap_max_from max (so_far + 1) es (ground arith) (omega arith))
  | inr last ↦ ground (arith, past-reap_max_from max (so_far + 1) es (ground arith))
]

-- reapMaxTxs gives one transaction more than it is asked for, where the pool has more than that.
pub length-reap_max_txs :
    (max : ℕ) (mem : ListMempool)
    → max < length mem.txs
    → length (reap_max_txs (pos max) mem) ≡ max + 1
unfolding reap_max_txs
length-reap_max_txs max mem l =
    omega (arith, length-reap_max_from max 0 mem.txs (omega arith) (omega arith))

-- ===== src/Mempool/Reactor/Sending.antt =====
-- What broadcastTxRoutine of mempool/reactor.go sends to a peer.
use obrs.Prelude.{
  ℕ, zero, suc, ◌≡◌, refl, sym, Bool, true, false, not, none, some, List, [], ◌∷◌, map, keep, ◌==◌,
  arith, Bool-cases, inl, inr, ◌⊎◌,
}
use obrs.Types.Tx.{Tx}
use obrs.Mempool.{MempoolTx}
use obrs.Mempool.Reactor.{broadcast, send_until}

-- As many elements as a number says, from the first on.
abbrev pub take {ℓ} : {A : Type ℓ} → ℕ → List A → List A
take zero xs = []
take (suc n) [] = []
take (suc n) (x ∷ xs) = x ∷ take n xs

abbrev pub successes : List Bool → ℕ
successes [] = 0
successes (true ∷ rs) = suc (successes rs)
successes (false ∷ rs) = successes rs

-- What the pool has for a peer: the transactions that did not come from it, in order.
abbrev pub for_peer : ℕ → List MempoolTx → List Tx
for_peer peer_id es = map (λ (e : MempoolTx). e.tx) (keep (λ e. not (e.sender == peer_id)) es)

take_nil {ℓ} : {A : Type ℓ} (n : ℕ) → take {A = A} n [] ≡ []
take_nil zero = refl
take_nil (suc n) = refl

send_until-successes :
    (rs : List Bool)
    → ((send_until rs ≡ none) × (successes rs ≡ 0))
      ⊎ ((left : List Bool) × (send_until rs ≡ some left) × (successes rs ≡ suc (successes left)))
unfolding send_until
send_until-successes [] = inl (refl, refl)
send_until-successes (true ∷ rs) = inr (rs, refl, refl)
send_until-successes (false ∷ rs) = send_until-successes rs

-- Where every transaction can be marshalled, a peer is sent the transactions of the pool that did not
-- come from it, in order and each one once: as many of them as calls of Send succeed.
pub broadcast_lem :
    (marshals : Tx → Bool) (peer_id : ℕ) (results : List Bool) (es : List MempoolTx)
    → ((tx : Tx) → marshals tx ≡ true)
    → broadcast marshals peer_id results es ≡ take (successes results) (for_peer peer_id es)
unfolding broadcast
broadcast_lem marshals peer_id results [] all = sym (take_nil (successes results))
broadcast_lem marshals peer_id results (e ∷ es) all = elim (Bool-cases (e.sender == peer_id)) [
  | inl own ↦ ground (arith, broadcast_lem marshals peer_id results es all)
  | inr other ↦ elim (send_until-successes results) [
    | inl (stuck, s) ↦ ground (arith, all e.tx)
    | inr (left, sent, s) ↦ ground (arith, all e.tx, broadcast_lem marshals peer_id left es all)
  ]
]

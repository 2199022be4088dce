-- ===== src/TxPool/Ranks.antt =====
-- The orders of the sub-pools' queues in txpool/pool.go as lexicographic orders of ranks.
use erigon_lib.Base.{
  ℕ, ◌-◌, ◌^◌, ◌≤◌, ◌<◌, ◌≡◌, sym, ap, ◌∙◌, arith, Bool, true, false, List, [], ◌∷◌, ltb,
  Bool-cases, inl, inr,
}
use erigon_lib.Iter.Order.{bytes_lt, bytes-IsOrdered}
use erigon_lib.TxPool.Sender.{
  MetaTx, SubPoolType, no_sub_pool, pending_sub_pool, base_fee_sub_pool, queued_sub_pool,
}
use erigon_lib.TxPool.Queue.{
  marker_at, effective_tip, greater_first, less_first, better_in, better, worse_in, worse,
}

-- The widths of the fields that the orders read.
abbrev pub IsMeta : MetaTx → Type 0
IsMeta mt =
    (mt.min_fee_cap < 2 ^ 256)
    × (mt.min_tip < 2 ^ 64)
    × (mt.nonce_distance < 2 ^ 64)
    × (mt.cumulative_balance_distance < 2 ^ 64)
    × (mt.timestamp < 2 ^ 64)

-- What counts in a sub-pool, the most important first: the lesser list of numbers is the better
-- transaction, so that what is to be great is subtracted.
abbrev pub rank_in : SubPoolType → ℕ → MetaTx → List ℕ
rank_in pending_sub_pool base mt =
    (2 ^ 64 - effective_tip base mt)
    ∷ mt.nonce_distance
    ∷ mt.cumulative_balance_distance
    ∷ mt.timestamp
    ∷ []
rank_in base_fee_sub_pool base mt = (2 ^ 256 - mt.min_fee_cap) ∷ mt.timestamp ∷ []
rank_in queued_sub_pool base mt =
    mt.nonce_distance ∷ mt.cumulative_balance_distance ∷ mt.timestamp ∷ []
rank_in no_sub_pool base mt = mt.timestamp ∷ []

abbrev pub rank : ℕ → MetaTx → List ℕ
rank base mt = (63 - marker_at base mt) ∷ rank_in mt.current_sub_pool base mt

-- The same for the lesser list as the worse transaction.
abbrev age : MetaTx → List ℕ
age mt =
    (2 ^ 64 - mt.nonce_distance)
    ∷ (2 ^ 64 - mt.cumulative_balance_distance)
    ∷ (2 ^ 64 - mt.timestamp)
    ∷ []

abbrev pub rank_worse_in : SubPoolType → MetaTx → List ℕ
rank_worse_in pending_sub_pool mt = mt.min_fee_cap ∷ age mt
rank_worse_in base_fee_sub_pool mt = age mt
rank_worse_in queued_sub_pool mt = age mt
rank_worse_in no_sub_pool mt = (2 ^ 64 - mt.timestamp) ∷ []

abbrev pub rank_worse : ℕ → MetaTx → List ℕ
rank_worse base mt = marker_at base mt ∷ rank_worse_in mt.current_sub_pool mt

greater_first-bytes_lt :
    (m a b : ℕ) (r : Bool) (xs ys : List ℕ)
    → a ≤ m
    → b ≤ m
    → r ≡ bytes_lt xs ys
    → greater_first a b r ≡ bytes_lt ((m - a) ∷ xs) ((m - b) ∷ ys)
greater_first-bytes_lt m a b r xs ys h k e = rw e (ground arith)

less_first-bytes_lt :
    (a b : ℕ) (r : Bool) (xs ys : List ℕ)
    → r ≡ bytes_lt xs ys
    → less_first a b r ≡ bytes_lt (a ∷ xs) (b ∷ ys)
less_first-bytes_lt a b r xs ys e = rw e (ground arith)

last_less : (a b : ℕ) → ltb a b ≡ bytes_lt (a ∷ []) (b ∷ [])
last_less a b = ground arith

last_greater : (m a b : ℕ) → a ≤ m → b ≤ m → ltb b a ≡ bytes_lt ((m - a) ∷ []) ((m - b) ∷ [])
last_greater m a b h k = ground arith

marker_at_le : (base : ℕ) (mt : MetaTx) → marker_at base mt ≤ 63
unfolding marker_at
marker_at_le base mt = ground arith

effective_tip_le : (base : ℕ) (mt : MetaTx) → mt.min_tip < 2 ^ 64 → effective_tip base mt ≤ 2 ^ 64
unfolding effective_tip
effective_tip_le base mt h = ground arith

module _ (base : ℕ) (mt than : MetaTx) (wm : IsMeta mt) (wt : IsMeta than) where
  youngest :
      less_first mt.nonce_distance than.nonce_distance (
        less_first mt.cumulative_balance_distance than.cumulative_balance_distance
          (ltb mt.timestamp than.timestamp))
      ≡ bytes_lt (rank_in queued_sub_pool base mt) (rank_in queued_sub_pool base than)
  youngest =
      less_first-bytes_lt mt.nonce_distance than.nonce_distance _
        (mt.cumulative_balance_distance ∷ mt.timestamp ∷ [])
        (than.cumulative_balance_distance ∷ than.timestamp ∷ [])
        (less_first-bytes_lt mt.cumulative_balance_distance than.cumulative_balance_distance _
          (mt.timestamp ∷ []) (than.timestamp ∷ []) (last_less mt.timestamp than.timestamp))

  better_in_lem :
      (pool : SubPoolType)
      → better_in pool base mt than ≡ bytes_lt (rank_in pool base mt) (rank_in pool base than)
  unfolding better_in
  better_in_lem pending_sub_pool =
      greater_first-bytes_lt (2 ^ 64) (effective_tip base mt) (effective_tip base than) _
        (rank_in queued_sub_pool base mt) (rank_in queued_sub_pool base than)
        (effective_tip_le base mt wm.1) (effective_tip_le base than wt.1) youngest
  better_in_lem base_fee_sub_pool =
      greater_first-bytes_lt (2 ^ 256) mt.min_fee_cap than.min_fee_cap _ (mt.timestamp ∷ [])
        (than.timestamp ∷ []) (omega (arith, wm.0)) (omega (arith, wt.0))
        (last_less mt.timestamp than.timestamp)
  better_in_lem queued_sub_pool = youngest
  better_in_lem no_sub_pool = last_less mt.timestamp than.timestamp

  oldest :
      greater_first mt.nonce_distance than.nonce_distance (
        greater_first mt.cumulative_balance_distance than.cumulative_balance_distance
          (ltb than.timestamp mt.timestamp))
      ≡ bytes_lt (age mt) (age than)
  oldest =
      greater_first-bytes_lt (2 ^ 64) mt.nonce_distance than.nonce_distance _
        ((2 ^ 64 - mt.cumulative_balance_distance) ∷ (2 ^ 64 - mt.timestamp) ∷ [])
        ((2 ^ 64 - than.cumulative_balance_distance) ∷ (2 ^ 64 - than.timestamp) ∷ [])
        (omega (arith, wm)) (omega (arith, wt))
        (greater_first-bytes_lt (2 ^ 64) mt.cumulative_balance_distance
          than.cumulative_balance_distance _ ((2 ^ 64 - mt.timestamp) ∷ [])
          ((2 ^ 64 - than.timestamp) ∷ []) (omega (arith, wm)) (omega (arith, wt))
          (last_greater (2 ^ 64) mt.timestamp than.timestamp (omega (arith, wm))
            (omega (arith, wt))))

  worse_in_lem :
      (pool : SubPoolType)
      → worse_in pool mt than ≡ bytes_lt (rank_worse_in pool mt) (rank_worse_in pool than)
  unfolding worse_in
  worse_in_lem pending_sub_pool =
      less_first-bytes_lt mt.min_fee_cap than.min_fee_cap _ (age mt) (age than) oldest
  worse_in_lem base_fee_sub_pool = oldest
  worse_in_lem queued_sub_pool = oldest
  worse_in_lem no_sub_pool =
      last_greater (2 ^ 64) mt.timestamp than.timestamp (omega (arith, wm)) (omega (arith, wt))

  -- Of two transactions in one sub-pool, `better` says which has the lesser rank.
  pub better-rank :
      mt.current_sub_pool ≡ than.current_sub_pool
      → better mt than base ≡ bytes_lt (rank base mt) (rank base than)
  unfolding better
  better-rank same =
      greater_first-bytes_lt 63 (marker_at base mt) (marker_at base than) _
        (rank_in mt.current_sub_pool base mt) (rank_in than.current_sub_pool base than)
        (marker_at_le base mt) (marker_at_le base than)
        (better_in_lem mt.current_sub_pool
          ∙ ap (λ pool. bytes_lt (rank_in mt.current_sub_pool base mt) (rank_in pool base than))
              same)

  -- Of two transactions in one sub-pool, `worse` says which has the lesser list of what makes it worse.
  pub worse-rank_worse :
      mt.current_sub_pool ≡ than.current_sub_pool
      → worse mt than base ≡ bytes_lt (rank_worse base mt) (rank_worse base than)
  unfolding worse
  worse-rank_worse same =
      less_first-bytes_lt (marker_at base mt) (marker_at base than) _
        (rank_worse_in mt.current_sub_pool mt) (rank_worse_in than.current_sub_pool than)
        (worse_in_lem mt.current_sub_pool
          ∙ ap (λ pool. bytes_lt (rank_worse_in mt.current_sub_pool mt) (rank_worse_in pool than))
              same)

module _ (base : ℕ) (mt than : MetaTx) where
  queued_converse :
      (m n : ℕ)
      → greater_first m n (better_in queued_sub_pool base mt than)
        ≡ less_first n m (worse_in queued_sub_pool than mt)
  unfolding better_in worse_in
  queued_converse m n = ground arith

  -- In the queued sub-pool the two orders agree: one transaction is better than the other exactly
  -- where that one is worse.
  pub better-worse :
      mt.current_sub_pool ≡ queued_sub_pool
      → than.current_sub_pool ≡ queued_sub_pool
      → better mt than base ≡ worse than mt base
  unfolding better worse
  better-worse e e' =
      ap
        (λ pool.
          greater_first (marker_at base mt) (marker_at base than) (better_in pool base mt than))
        e
      ∙ queued_converse (marker_at base mt) (marker_at base than)
      ∙ ap (λ pool. less_first (marker_at base than) (marker_at base mt) (worse_in pool than mt))
          (sym e')

bytes_lt_asym : (xs ys : List ℕ) → bytes_lt xs ys ≡ true → bytes_lt ys xs ≡ false
bytes_lt_asym xs ys h = elim (Bool-cases (bytes_lt ys xs)) [
  | inr less ↦ less
  | inl back ↦
      let loop = bytes-IsOrdered.lt_trans xs ys xs h back in
      absurd (absurd_of (sym loop ∙ bytes-IsOrdered.lt_irrefl xs))
]
  where
    absurd_of : true ≡ false → ⊥
    absurd_of e = cc

module _ (base : ℕ) (a b c : MetaTx) (wa : IsMeta a) (wb : IsMeta b) (wc : IsMeta c)
    (ab : a.current_sub_pool ≡ b.current_sub_pool)
    (bc : b.current_sub_pool ≡ c.current_sub_pool) where
  -- In one sub-pool what is better than something is better than what that is better than, and not
  -- the other way round.
  pub better_trans :
      better a b base ≡ true
      → better b c base ≡ true
      → (better a c base ≡ true) × (better c a base ≡ false)
  better_trans h k =
      let less =
        bytes-IsOrdered.lt_trans (rank base a) (rank base b) (rank base c)
          (sym (better-rank base a b wa wb ab) ∙ h) (sym (better-rank base b c wb wc bc) ∙ k) in
      (
        better-rank base a c wa wc (ab ∙ bc) ∙ less,
        better-rank base c a wc wa (sym (ab ∙ bc)) ∙ bytes_lt_asym (rank base a) (rank base c) less,
      )

  -- In one sub-pool what is worse than something is worse than what that is worse than, and not the
  -- other way round.
  pub worse_trans :
      worse a b base ≡ true
      → worse b c base ≡ true
      → (worse a c base ≡ true) × (worse c a base ≡ false)
  worse_trans h k =
      let less =
        bytes-IsOrdered.lt_trans (rank_worse base a) (rank_worse base b) (rank_worse base c)
          (sym (worse-rank_worse base a b wa wb ab) ∙ h)
          (sym (worse-rank_worse base b c wb wc bc) ∙ k) in
      (
        worse-rank_worse base a c wa wc (ab ∙ bc) ∙ less,
        worse-rank_worse base c a wc wa (sym (ab ∙ bc))
            ∙ bytes_lt_asym (rank_worse base a) (rank_worse base c) less,
      )

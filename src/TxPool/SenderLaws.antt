-- ===== src/TxPool/SenderLaws.antt =====
-- What the marks of `onSenderStateChange` (txpool/pool.go) mean.
use Prim.Native.Nat.{min}
use erigon_lib.Base.{
  ℕ, ◌+◌, ◌-◌, ◌%◌, ◌^◌, ◌≤◌, ◌<◌, ◌≡◌, refl, ap, ◌∙◌, arith, Bool, true, false, List, [], ◌∷◌,
  length, map, ltb, leb, ◌==◌, if◌then◌else◌, Bool-cases, ◌⊎◌, inl, inr,
}
use erigon_lib.TxPool.Sender.{
  SubPoolMarker, no_bits, MetaTx, SenderState, Totals, start, need_balance, cap_with, required_with,
  remove, bits, mark, tally, sender_loop, on_sender_state_change,
}

-- The least fee cap and the balance that transactions need together.
abbrev pub min_cap : List MetaTx → ℕ
min_cap [] = 2 ^ 256 - 1
min_cap (mt ∷ mts) = min mt.fee_cap (min_cap mts)

abbrev pub needs : List MetaTx → ℕ
needs [] = 0
needs (mt ∷ mts) = needs mts + need_balance mt

-- Nonces ascend from `low` on, and none is the last one of 64 bits.
abbrev pub Ascending : ℕ → List MetaTx → Type 0
Ascending low [] = Unit
Ascending low (mt ∷ mts) = (low ≤ mt.nonce) × (mt.nonce + 1 < 2 ^ 64) × Ascending (mt.nonce + 1) mts

module _ (env : SenderState) where
  -- The bits of a transaction that has those `before` it, the nearest one first, and meets the
  -- protocol's fee with them: the nonces are without a gap if there are as many transactions before it
  -- as its nonce is above the sender's, and the balance is enough if it is for all of them.
  abbrev pub expected_bits : List MetaTx → MetaTx → SubPoolMarker
  expected_bits before mt = record mt.sub_pool {
    enough_fee_cap_protocol = true;
    no_nonce_gaps = mt.nonce == env.sender_nonce + length before;
    enough_balance = leb (needs (mt ∷ before)) env.sender_balance;
    not_too_much_gas = ltb mt.gas env.block_gas_limit;
  }

  -- The marks of a transaction: no bit is set if it or one before it has a fee cap below the
  -- protocol's base fee.
  abbrev pub Marked : List MetaTx → MetaTx → MetaTx → Type 0
  Marked before mt out =
      (out.nonce ≡ mt.nonce)
      × (out.current_sub_pool ≡ mt.current_sub_pool)
      × (out.min_fee_cap ≡ min_cap (mt ∷ before))
      × (out.nonce_distance ≡ mt.nonce - env.sender_nonce)
      × (out.sub_pool ≡ (
          if leb env.protocol_base_fee (min_cap (mt ∷ before))
          then expected_bits before mt
          else no_bits))

  abbrev pub AllMarked : List MetaTx → List MetaTx → List MetaTx → Type 0
  AllMarked before [] [] = Unit
  AllMarked before [] (out ∷ outs) = ⊥
  AllMarked before (mt ∷ mts) [] = ⊥
  AllMarked before (mt ∷ mts) (out ∷ outs) = Marked before mt out × AllMarked (mt ∷ before) mts outs

  -- The variables after the transactions `before`, when the nonces go on from `low`.
  abbrev Reached : ℕ → List MetaTx → Totals → Type 0
  Reached low before s =
      (s.cap ≡ min_cap before)
      × ((min_cap before < env.protocol_base_fee)
          ⊎ ((s.required ≡ needs before)
              × (((s.no_gaps_nonce ≡ low) × (env.sender_nonce + length before ≡ low))
                  ⊎ ((s.no_gaps_nonce < low) × (env.sender_nonce + length before < low)))))

  cap_with_lem :
      (s : Totals) (mt : MetaTx) (before : List MetaTx)
      → s.cap ≡ min_cap before
      → cap_with s mt ≡ min_cap (mt ∷ before)
  cap_with_lem s mt before e = ground (arith, e)

  required_lem :
      (s : Totals) (mt : MetaTx) (before : List MetaTx)
      → s.required ≡ needs before
      → needs (mt ∷ before) < 2 ^ 256
      → required_with s mt ≡ needs (mt ∷ before)
  required_lem s mt before e fits = omega (arith, e)

  -- The bits that `mark` sets, and the ones of a transaction below the protocol's base fee.
  mark_passed :
      (s : Totals) (mt : MetaTx)
      → leb env.protocol_base_fee (cap_with s mt) ≡ true
      → (mark env s mt).sub_pool ≡ bits env s mt
  unfolding mark
  mark_passed s mt h = rw (h)

  mark_failed :
      (s : Totals) (mt : MetaTx)
      → leb env.protocol_base_fee (cap_with s mt) ≡ false
      → (mark env s mt).sub_pool ≡ no_bits
  unfolding mark
  mark_failed s mt h = rw (h)

  -- The fields that `mark` sets on both branches.
  mark_fields :
      (s : Totals) (mt : MetaTx)
      → ((mark env s mt).nonce ≡ mt.nonce)
        × ((mark env s mt).current_sub_pool ≡ mt.current_sub_pool)
        × ((mark env s mt).min_fee_cap ≡ cap_with s mt)
        × ((mark env s mt).nonce_distance ≡ mt.nonce - env.sender_nonce)
  unfolding mark
  mark_fields s mt = elim (Bool-cases (leb env.protocol_base_fee (cap_with s mt))) [
    | inl h ↦ rw (h) (refl, refl, refl, ground arith)
    | inr h ↦ rw (h) (refl, refl, refl, ground arith)
  ]

  gapless :
      (low : ℕ) (before : List MetaTx) (s : Totals) (mt : MetaTx)
      → ((s.no_gaps_nonce ≡ low) × (env.sender_nonce + length before ≡ low))
        ⊎ ((s.no_gaps_nonce < low) × (env.sender_nonce + length before < low))
      → low ≤ mt.nonce
      → (s.no_gaps_nonce == mt.nonce) ≡ (mt.nonce == env.sender_nonce + length before)
  gapless low before s mt (inl h) l = ground arith
  gapless low before s mt (inr h) l = ground arith

  -- The bits by what they depend on.
  abbrev bits_of : MetaTx → Bool → Bool → SubPoolMarker
  bits_of mt gaps enough = record mt.sub_pool {
    enough_fee_cap_protocol = true;
    no_nonce_gaps = gaps;
    enough_balance = enough;
    not_too_much_gas = ltb mt.gas env.block_gas_limit;
  }

  bits_lem :
      (low : ℕ) (before : List MetaTx) (s : Totals) (mt : MetaTx)
      → Reached low before s
      → low ≤ mt.nonce
      → needs (mt ∷ before) < 2 ^ 256
      → env.protocol_base_fee ≤ min_cap (mt ∷ before)
      → bits env s mt ≡ expected_bits before mt
  unfolding bits
  bits_lem low before s mt (c, inl f) l fits p = absurd (omega arith)
  bits_lem low before s mt (c, inr (e, g)) l fits p =
      ap (λ t. bits_of mt t (leb (required_with s mt) env.sender_balance))
        (gapless low before s mt g l)
      ∙ ap
          (λ n.
            bits_of mt (mt.nonce == env.sender_nonce + length before) (leb n env.sender_balance))
          (required_lem s mt before e fits)

  mark-Marked :
      (low : ℕ) (before : List MetaTx) (s : Totals) (mt : MetaTx)
      → Reached low before s
      → low ≤ mt.nonce
      → needs (mt ∷ before) < 2 ^ 256
      → Marked before mt (mark env s mt)
  mark-Marked low before s mt r l fits =
      let cap = cap_with_lem s mt before r.0 in
      let (nonce, pool, fee, distance) = mark_fields s mt in
      (nonce, pool, fee ∙ cap, distance, marker cap)
    where
      marker :
          cap_with s mt ≡ min_cap (mt ∷ before)
          → (mark env s mt).sub_pool ≡ (
              if leb env.protocol_base_fee (min_cap (mt ∷ before))
              then expected_bits before mt
              else no_bits)
      marker cap = elim (Bool-cases (leb env.protocol_base_fee (min_cap (mt ∷ before)))) [
        | inl h ↦
            rw h (mark_passed s mt (rw cap h) ∙ bits_lem low before s mt r l fits (ground arith))
        | inr h ↦ rw h (mark_failed s mt (rw cap h))
      ]

  tally_cap : (s : Totals) (mt : MetaTx) → (tally env s mt).cap ≡ cap_with s mt
  unfolding tally
  tally_cap s mt = elim (Bool-cases (leb env.protocol_base_fee (cap_with s mt))) [
    | inl h ↦ rw (h)
    | inr h ↦ rw (h)
  ]

  tally_passed :
      (s : Totals) (mt : MetaTx)
      → leb env.protocol_base_fee (cap_with s mt) ≡ true
      → ((tally env s mt).required ≡ required_with s mt)
        × ((tally env s mt).no_gaps_nonce ≡ (
            if s.no_gaps_nonce == mt.nonce
            then (s.no_gaps_nonce + 1) % 2 ^ 64
            else s.no_gaps_nonce))
  unfolding tally
  tally_passed s mt h = rw (h) (refl, refl)

  tally-Reached :
      (low : ℕ) (before : List MetaTx) (s : Totals) (mt : MetaTx)
      → Reached low before s
      → low ≤ mt.nonce
      → mt.nonce + 1 < 2 ^ 64
      → needs (mt ∷ before) < 2 ^ 256
      → Reached (mt.nonce + 1) (mt ∷ before) (tally env s mt)
  tally-Reached low before s mt (c, inl f) l b fits =
      (tally_cap s mt ∙ cap_with_lem s mt before c, inl (omega arith))
  tally-Reached low before s mt (c, inr (e, g)) l b fits =
      let cap = cap_with_lem s mt before c in
      elim (Bool-cases (leb env.protocol_base_fee (cap_with s mt))) [
        | inr h ↦ (tally_cap s mt ∙ cap, inl (ground (arith, cap)))
        | inl h ↦
            let (req, gap) = tally_passed s mt h in
            (
              tally_cap s mt ∙ cap,
              inr (
                req ∙ required_lem s mt before e fits,
                next_gap (tally env s mt).no_gaps_nonce g gap,
              ),
            )
      ]
    where
      next_gap :
          (next : ℕ)
          → ((s.no_gaps_nonce ≡ low) × (env.sender_nonce + length before ≡ low))
            ⊎ ((s.no_gaps_nonce < low) × (env.sender_nonce + length before < low))
          → next ≡ (
              if s.no_gaps_nonce == mt.nonce
              then (s.no_gaps_nonce + 1) % 2 ^ 64
              else s.no_gaps_nonce)
          → ((next ≡ mt.nonce + 1) × (env.sender_nonce + length (mt ∷ before) ≡ mt.nonce + 1))
            ⊎ ((next < mt.nonce + 1) × (env.sender_nonce + length (mt ∷ before) < mt.nonce + 1))
      next_gap next (inl h) q = ground arith
      next_gap next (inr h) q = ground arith

  -- The transactions with nonces from the sender's on.
  marked_loop :
      (low : ℕ) (before : List MetaTx) (s : Totals) (mts : List MetaTx)
      → env.sender_nonce ≤ low
      → Ascending low mts
      → Reached low before s
      → needs before + needs mts < 2 ^ 256
      → AllMarked before mts (sender_loop env s mts).0 × ((sender_loop env s mts).1 ≡ [])
  unfolding sender_loop
  marked_loop low before s [] le asc r fits = (tt, refl)
  marked_loop low before s (mt ∷ mts) le (l, b, asc) r fits =
      let high : ltb mt.nonce env.sender_nonce ≡ false = ground arith in
      let rest =
        marked_loop (mt.nonce + 1) (mt ∷ before) (tally env s mt) mts (omega arith) asc
          (tally-Reached low before s mt r l b (omega arith)) (omega arith) in
      rw high ((mark-Marked low before s mt r l (omega arith), rest.0), rest.1)

  -- The transactions that stay and the ones that go.
  abbrev pub from_nonce : List MetaTx → List MetaTx
  from_nonce [] = []
  from_nonce (mt ∷ mts) =
      if ltb mt.nonce env.sender_nonce then from_nonce mts else mt ∷ from_nonce mts

  abbrev pub below_nonce : List MetaTx → List MetaTx
  below_nonce [] = []
  below_nonce (mt ∷ mts) =
      if ltb mt.nonce env.sender_nonce then mt ∷ below_nonce mts else below_nonce mts

  high_only :
      (low : ℕ) (mts : List MetaTx)
      → env.sender_nonce ≤ low
      → Ascending low mts
      → (from_nonce mts ≡ mts) × (below_nonce mts ≡ [])
  high_only low [] le asc = (refl, refl)
  high_only low (mt ∷ mts) le (l, b, asc) =
      let high : ltb mt.nonce env.sender_nonce ≡ false = ground arith in
      let (f, g) = high_only (mt.nonce + 1) mts (omega arith) asc in rw (high, f, g) (refl, refl)

  start-Reached : Reached env.sender_nonce [] (start env)
  start-Reached = (refl, inr (refl, inl (refl, omega arith)))

  loop_lem :
      (low : ℕ) (mts : List MetaTx)
      → Ascending low mts
      → needs mts < 2 ^ 256
      → AllMarked [] (from_nonce mts) (sender_loop env (start env) mts).0
        × ((sender_loop env (start env) mts).1 ≡ map remove (below_nonce mts))
  unfolding sender_loop
  loop_lem low [] asc fits = (tt, refl)
  loop_lem low (mt ∷ mts) (l, b, asc) fits = elim (Bool-cases (ltb mt.nonce env.sender_nonce)) [
    | inl below ↦
        let rest = loop_lem (mt.nonce + 1) mts asc (omega arith) in
        rw below (rest.0, ap (λ r. remove mt ∷ r) rest.1)
    | inr above ↦ from_here (ground arith)
  ]
    where
      from_here :
          env.sender_nonce ≤ mt.nonce
          → AllMarked [] (from_nonce (mt ∷ mts)) (sender_loop env (start env) (mt ∷ mts)).0
            × ((sender_loop env (start env) (mt ∷ mts)).1 ≡ map remove (below_nonce (mt ∷ mts)))
      from_here le =
          let (f, g) = high_only mt.nonce (mt ∷ mts) le (omega arith, b, asc) in
          rw (f, g)
            (marked_loop env.sender_nonce [] (start env) (mt ∷ mts) (omega arith) (le, b, asc)
              start-Reached (omega arith))

  -- Of transactions in the order of their nonces, none of them the last nonce of 64 bits, which
  -- together need less than 2 ^ 256, those below the sender's nonce are removed from their sub-pools
  -- and discarded. Each other one gets the least fee cap up to it and its distance from the sender's
  -- nonce; it has no bit set if that fee cap is below the protocol's base fee, and else `NoNonceGaps`
  -- exactly if as many transactions are before it as its nonce is above the sender's, `EnoughBalance`
  -- exactly if the balance pays for it and all before it, and `NotTooMuchGas` exactly if its gas is
  -- below the block's limit.
  pub on_sender_state_change-Marked :
      (mts : List MetaTx)
      → Ascending 0 mts
      → needs mts < 2 ^ 256
      → AllMarked [] (from_nonce mts) (on_sender_state_change env mts).0
        × ((on_sender_state_change env mts).1 ≡ map remove (below_nonce mts))
  unfolding on_sender_state_change
  on_sender_state_change-Marked mts asc fits = loop_lem 0 mts asc fits

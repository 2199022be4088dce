-- ===== src/TxPool/Promote/Select.antt =====
-- A queue that gives a transaction that none comes before, for runs of `promote`: it promises what
-- container/heap promises.
use erigon_lib.Base.{
  ℕ, suc, ◌+◌, ◌≡◌, arith, refl, sym, ap, ◌∙◌, Bool, true, false, Option, none, some, List, [], ◌∷◌,
  length, All, Bool-cases, ◌⊎◌, inl, inr,
}
use erigon_lib.Etl.Sorting.{less_by-IsWeakOrder}
use erigon_lib.TxPool.Sender.{MetaTx, SubPoolType}
use erigon_lib.TxPool.Queue.{better, worse}
use erigon_lib.TxPool.Ranks.{rank, rank_worse, better-rank, worse-rank_worse}
use erigon_lib.TxPool.Promote.Placed.{Held, weigh}
use erigon_lib.TxPool.Promote.{popped}
use erigon_lib.TxPool.Promote.Picks.{Picks, All-both, All-imp}

abbrev Choice : Type 0
Choice = MetaTx × List MetaTx

abbrev choose : (MetaTx → MetaTx → Bool) → MetaTx → Option Choice → Choice
choose less x none = (x, [])
choose less x (some r) = elim (less r.0 x) [ true ↦ (r.0, x ∷ r.1) | false ↦ (x, r.0 ∷ r.1) ]

unfoldable pub select : (MetaTx → MetaTx → Bool) → List MetaTx → Option Choice
select less [] = none
select less (x ∷ xs) = some (choose less x (select less xs))

-- In a sub-pool the order is a strict order in which what is not less is at least.
abbrev pub IsPoolOrder : (MetaTx → MetaTx → Bool) → Type 0
IsPoolOrder less =
    (t : SubPoolType) (a b c : MetaTx)
    → Held t a
    → Held t b
    → Held t c
    → (less a b ≡ true → less b a ≡ false)
      × (less b a ≡ false → less c b ≡ false → less c a ≡ false)

module _ (less : MetaTx → MetaTx → Bool) (ord : IsPoolOrder less) where
  choose_kept :
      (x : MetaTx) (r : Choice) → less r.0 x ≡ true → choose less x (some r) ≡ (r.0, x ∷ r.1)
  choose_kept x r k = rw (choose, k)

  choose_new :
      (x : MetaTx) (r : Choice) → less r.0 x ≡ false → choose less x (some r) ≡ (x, r.0 ∷ r.1)
  choose_new x r k = rw (choose, k)

  -- The result for a list, by what the rest of it gives.
  choose_size :
      (x : MetaTx) (xs : List MetaTx) (o : Option Choice)
      → ((o ≡ none) × (xs ≡ [])) ⊎ ((r : Choice) × (o ≡ some r) × (length xs ≡ suc (length r.1)))
      → length (x ∷ xs) ≡ suc (length (choose less x o).1)
  choose_size x xs o (inl (n, e)) = rw (n, e)
  choose_size x xs o (inr (r, e, l)) = elim (Bool-cases (less r.0 x)) [
    | inl k ↦ rw (e, choose_kept x r k) (ap suc l)
    | inr k ↦ rw (e, choose_new x r k) (ap suc l)
  ]

  size_lem :
      (l : List MetaTx)
      → ((select less l ≡ none) × (l ≡ []))
        ⊎ ((r : Choice) × (select less l ≡ some r) × (length l ≡ suc (length r.1)))
  unfolding select
  size_lem [] = inl (refl, refl)
  size_lem (x ∷ xs) =
      inr (choose less x (select less xs), refl, choose_size x xs (select less xs) (size_lem xs))

  choose_same :
      (f : MetaTx → ℕ) (x : MetaTx) (xs : List MetaTx) (o : Option Choice)
      → ((o ≡ none) × (xs ≡ []))
        ⊎ ((r : Choice) × (o ≡ some r) × (weigh f xs ≡ f (popped r.0) + weigh f r.1))
      → weigh f (x ∷ xs) ≡ f (popped (choose less x o).0) + weigh f (choose less x o).1
  choose_same f x xs o (inl (n, e)) = rw (n, e)
  choose_same f x xs o (inr (r, e, l)) = elim (Bool-cases (less r.0 x)) [
    | inl k ↦ rw (e, choose_kept x r k) (omega (arith, l))
    | inr k ↦ rw (e, choose_new x r k) (omega (arith, l))
  ]

  same_lem :
      (f : MetaTx → ℕ) (l : List MetaTx)
      → ((select less l ≡ none) × (l ≡ []))
        ⊎ ((r : Choice) × (select less l ≡ some r) × (weigh f l ≡ f (popped r.0) + weigh f r.1))
  unfolding select
  same_lem f [] = inl (refl, refl)
  same_lem f (x ∷ xs) =
      inr
        (choose less x (select less xs), refl, choose_same f x xs (select less xs) (same_lem f xs))

  choose_members :
      (P : MetaTx → Type 0) (x : MetaTx) (o : Option Choice)
      → P x
      → ((r : Choice) → o ≡ some r → P r.0 × All P r.1)
      → P (choose less x o).0 × All P (choose less x o).1
  choose_members P x none p h = (p, tt)
  choose_members P x (some r) p h = elim (Bool-cases (less r.0 x)) [
    | inl k ↦ rw (choose_kept x r k) ((h r refl).0, (p, (h r refl).1))
    | inr k ↦ rw (choose_new x r k) (p, h r refl)
  ]

  members_lem :
      (P : MetaTx → Type 0) (l : List MetaTx) (r : Choice)
      → select less l ≡ some r
      → All P l
      → P r.0 × All P r.1
  unfolding select
  members_lem P [] r e h = cc
  members_lem P (x ∷ xs) r e h =
      let same : choose less x (select less xs) ≡ r = cc in
      rw same at (choose_members P x (select less xs) h.0 (λ q f. members_lem P xs q f h.1))

  choose_others :
      (P : MetaTx → Type 0) (x : MetaTx) (xs : List MetaTx) (o : Option Choice)
      → ((o ≡ none) × (xs ≡ [])) ⊎ ((r : Choice) × (o ≡ some r) × (P r.0 → All P r.1 → All P xs))
      → P (choose less x o).0
      → All P (choose less x o).1
      → P x × All P xs
  choose_others P x xs o (inl (n, e)) p h = rw e ((rw n at p), tt)
  choose_others P x xs o (inr (r, e, back)) p h = elim (Bool-cases (less r.0 x)) [
    | inl k ↦
        let first : P r.0 = rw (e, choose_kept x r k) at p in
        let rest : P x × All P r.1 = rw (e, choose_kept x r k) at h in (rest.0, back first rest.1)
    | inr k ↦
        let first : P x = rw (e, choose_new x r k) at p in
        let rest : P r.0 × All P r.1 = rw (e, choose_new x r k) at h in (first, back rest.0 rest.1)
  ]

  others_lem :
      (P : MetaTx → Type 0) (l : List MetaTx) (r : Choice)
      → select less l ≡ some r
      → P r.0
      → All P r.1
      → All P l
  unfolding select
  others_lem P [] r e p h = cc
  others_lem P (x ∷ xs) r e p h =
      let same : choose less x (select less xs) ≡ r = cc in
      choose_others P x xs (select less xs)
        (elim (size_lem xs) [
          | inl n ↦ inl n
          | inr (q, f, l) ↦ inr (q, f, λ a b. others_lem P xs q f a b)
        ])
        (rw same p) (rw same h)

  choose_first :
      (t : SubPoolType) (x : MetaTx) (o : Option Choice)
      → Held t x
      → ((r : Choice)
          → o ≡ some r
          → Held t r.0 × All (Held t) r.1 × All (λ (y : MetaTx). less y r.0 ≡ false) r.1)
      → All (λ (y : MetaTx). less y (choose less x o).0 ≡ false) (choose less x o).1
  choose_first t x none hx h = tt
  choose_first t x (some r) hx h =
      let (hr, hrest, least) = h r refl in
      elim (Bool-cases (less r.0 x)) [
        | inl k ↦ rw (choose_kept x r k) ((ord t r.0 x x hr hx hx).0 k, least)
        | inr k ↦ rw (choose_new x r k) (
          k,
          All-imp (λ (y : MetaTx). Held t y × (less y r.0 ≡ false))
              (λ (y : MetaTx). less y x ≡ false) r.1 (λ y p. (ord t x r.0 y hx hr p.0).1 k p.1)
              (All-both (Held t) (λ (y : MetaTx). less y r.0 ≡ false) r.1 hrest least),
        )
      ]

  first_lem :
      (t : SubPoolType) (l : List MetaTx) (r : Choice)
      → select less l ≡ some r
      → All (Held t) l
      → All (λ (y : MetaTx). less y r.0 ≡ false) r.1
  unfolding select
  first_lem t [] r e h = cc
  first_lem t (x ∷ xs) r e h =
      let same : choose less x (select less xs) ≡ r = cc in
      rw same at (
        choose_first t x (select less xs) h.0
          (λ q f. let (a, b) = members_lem (Held t) xs q f h.1 in (a, b, first_lem t xs q f h.1)))

  pub select-Picks : Picks less (select less)
  select-Picks = record {
    none_left = λ l e. elim (size_lem l) [ inl (n, q) ↦ q | inr (r, s, q) ↦ cc ];
    one_less = λ l r e. elim (size_lem l) [
      | inl (n, q) ↦ cc
      | inr (r', s, q) ↦ (let same : r' ≡ r = cc in rw same at q)
    ];
    same = λ l r e f. elim (same_lem f l) [
      | inl (n, q) ↦ cc
      | inr (r', s, q) ↦ (let same : r' ≡ r = cc in rw same at q)
    ];
    members = members_lem;
    others = others_lem;
    first = first_lem;
  }

-- Both orders are such.
pub worse-IsPoolOrder : (base : ℕ) → IsPoolOrder (λ x y. worse x y base)
worse-IsPoolOrder base t a b c ha hb hc =
    let weak = less_by-IsWeakOrder (rank_worse base) in
    let ab = worse-rank_worse base a b ha.1 hb.1 (ha.0 ∙ sym hb.0) in
    let ba = worse-rank_worse base b a hb.1 ha.1 (hb.0 ∙ sym ha.0) in
    let cb = worse-rank_worse base c b hc.1 hb.1 (hc.0 ∙ sym hb.0) in
    let ca = worse-rank_worse base c a hc.1 ha.1 (hc.0 ∙ sym ha.0) in
    (
      (λ h. ba ∙ weak.less_asym a b (sym ab ∙ h)),
      (λ h k. ca ∙ weak.not_less_trans a b c (sym ba ∙ h) (sym cb ∙ k)),
    )

pub better-IsPoolOrder : (base : ℕ) → IsPoolOrder (λ x y. better x y base)
better-IsPoolOrder base t a b c ha hb hc =
    let weak = less_by-IsWeakOrder (rank base) in
    let ab = better-rank base a b ha.1 hb.1 (ha.0 ∙ sym hb.0) in
    let ba = better-rank base b a hb.1 ha.1 (hb.0 ∙ sym ha.0) in
    let cb = better-rank base c b hc.1 hb.1 (hc.0 ∙ sym hb.0) in
    let ca = better-rank base c a hc.1 ha.1 (hc.0 ∙ sym ha.0) in
    (
      (λ h. ba ∙ weak.less_asym a b (sym ab ∙ h)),
      (λ h k. ca ∙ weak.not_less_trans a b c (sym ba ∙ h) (sym cb ∙ k)),
    )

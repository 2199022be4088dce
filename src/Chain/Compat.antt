-- ===== src/Chain/Compat.antt =====
-- What `CheckCompatible` of chain/chain_config.go finds, and that it ends.
use erigon_lib.Base.{
  ℕ, zero, suc, ◌+◌, ◌^◌, ◌<◌, ◌≡◌, refl, arith, Bool, true, false, ◌&&◌, ◌||◌, Option, none, some,
  List, [], ◌∷◌, All, ◌==◌, Bool-cases, Option-cases, ◌⊎◌, inl, inr,
}
use erigon_lib.Chain.Config.{
  Config, Fork, ConfigCompatError, Guard, first_error, guards, is_forked, incompatible,
  rewind_block, rewind_before, new_compat_error, check_compatible_at, compat_loop, check_compatible,
  dao_support_flag, eip155_chain_id, homestead_fork, dao_fork, tangerine_whistle_fork,
  spurious_dragon_fork, byzantium_fork, constantinople_fork, petersburg_fork, istanbul_fork,
  muir_glacier_fork, berlin_fork, london_fork, arrow_glacier_fork, gray_glacier_fork,
  merge_netsplit_fork, ramanujan_fork, niels_fork, mirror_sync_fork, bruno_fork, euler_fork,
  gibbs_fork, nano_fork, moran_fork,
}

-- Blocks of 64 bits.
abbrev pub IsSmall : Option ℕ → Type 0
IsSmall none = Unit
IsSmall (some n) = n < 2 ^ 64

abbrev pub blocks : Config → List (Option ℕ)
blocks c =
    c.homestead_block ∷ c.dao_fork_block ∷ c.tangerine_whistle_block ∷ c.spurious_dragon_block
    ∷ c.byzantium_block ∷ c.constantinople_block ∷ c.petersburg_block ∷ c.istanbul_block
    ∷ c.muir_glacier_block ∷ c.berlin_block ∷ c.london_block ∷ c.arrow_glacier_block
    ∷ c.gray_glacier_block ∷ c.merge_netsplit_block ∷ c.ramanujan_block ∷ c.niels_block
    ∷ c.mirror_sync_block ∷ c.bruno_block ∷ c.euler_block ∷ c.gibbs_block ∷ c.nano_block
    ∷ c.moran_block ∷ []

abbrev pub IsConfig : Config → Type 0
IsConfig c = All IsSmall (blocks c)

-- The error wants a rewind below the head, or to the first block.
abbrev Rewinds : ℕ → ConfigCompatError → Type 0
Rewinds head e = (e.rewind_to < head) ⊎ (e.rewind_to ≡ 0)

forked_rewind :
    (what : Fork) (a b : Option ℕ) (head : ℕ)
    → IsSmall a
    → IsSmall b
    → (is_forked a head || is_forked b head) ≡ true
    → Rewinds head (new_compat_error what a b)
unfolding new_compat_error rewind_block rewind_before is_forked
forked_rewind what none none head sa sb h = inr refl
forked_rewind what none (some y) head sa sb h = ground arith
forked_rewind what (some x) none head sa sb h = ground arith
forked_rewind what (some x) (some y) head sa sb h = ground arith

first_of : (a b : Bool) → (a && b) ≡ true → a ≡ true
first_of a b h = ground arith

both_forked :
    (a b : Option ℕ) (head : ℕ) (t : Bool)
    → (incompatible a b head && t) ≡ true
    → (is_forked a head || is_forked b head) ≡ true
unfolding incompatible
both_forked a b head t h = ground arith

one_forked :
    (what : Fork) (a b : Option ℕ) (head : ℕ)
    → IsSmall a
    → IsSmall b
    → is_forked a head ≡ true
    → Rewinds head (new_compat_error what a b)
one_forked what a b head sa sb h = forked_rewind what a b head sa sb (ground arith)

guard_rewind :
    (what : Fork) (a b : Option ℕ) (head : ℕ)
    → IsSmall a
    → IsSmall b
    → incompatible a b head ≡ true
    → Rewinds head (new_compat_error what a b)
guard_rewind what a b head sa sb h =
    forked_rewind what a b head sa sb (both_forked a b head true (ground arith))

first_error-some :
    (P : ConfigCompatError → Type 0) (gs : List Guard) (e : ConfigCompatError)
    → All (λ g. g.0 ≡ true → P g.1) gs
    → first_error gs ≡ some e
    → P e
first_error-some P [] e h q = cc
first_error-some P ((true, x) ∷ gs) e h q =
    let same : x ≡ e = cc in mathlib.Core.Path.subst P same (h.0 refl)
first_error-some P ((false, x) ∷ gs) e h q = first_error-some P gs e h.1 q

module _ (c new : Config) where
  guards-Rewinds :
      (head : ℕ)
      → IsConfig c
      → IsConfig new
      → All (λ g. g.0 ≡ true → Rewinds head g.1) (guards c new head)
  unfolding guards
  guards-Rewinds head sc sn = (
    guard_rewind homestead_fork c.homestead_block new.homestead_block head sc.0 sn.0,
    (
      guard_rewind dao_fork c.dao_fork_block new.dao_fork_block head sc.1.0 sn.1.0,
      (
        λ h.
            one_forked dao_support_flag c.dao_fork_block new.dao_fork_block head sc.1.0 sn.1.0
              (first_of _ _ h),
        (
          guard_rewind tangerine_whistle_fork c.tangerine_whistle_block new.tangerine_whistle_block
              head sc.1.1.0 sn.1.1.0,
          (
            guard_rewind spurious_dragon_fork c.spurious_dragon_block new.spurious_dragon_block head
                sc.1.1.1.0 sn.1.1.1.0,
            (
              λ h.
                  one_forked eip155_chain_id c.spurious_dragon_block new.spurious_dragon_block head
                    sc.1.1.1.0 sn.1.1.1.0 (first_of _ _ h),
              (
                guard_rewind byzantium_fork c.byzantium_block new.byzantium_block head sc.1.1.1.1.0
                    sn.1.1.1.1.0,
                (
                  guard_rewind constantinople_fork c.constantinople_block new.constantinople_block
                      head sc.1.1.1.1.1.0 sn.1.1.1.1.1.0,
                  (
                    λ h.
                        forked_rewind petersburg_fork c.petersburg_block new.petersburg_block head
                          sc.1.1.1.1.1.1.0 sn.1.1.1.1.1.1.0
                          (both_forked c.petersburg_block new.petersburg_block head _ h),
                    (
                      guard_rewind istanbul_fork c.istanbul_block new.istanbul_block head
                          sc.1.1.1.1.1.1.1.0 sn.1.1.1.1.1.1.1.0,
                      (
                        guard_rewind muir_glacier_fork c.muir_glacier_block new.muir_glacier_block
                            head sc.1.1.1.1.1.1.1.1.0 sn.1.1.1.1.1.1.1.1.0,
                        (
                          guard_rewind berlin_fork c.berlin_block new.berlin_block head
                              sc.1.1.1.1.1.1.1.1.1.0 sn.1.1.1.1.1.1.1.1.1.0,
                          (
                            guard_rewind london_fork c.london_block new.london_block head
                                sc.1.1.1.1.1.1.1.1.1.1.0 sn.1.1.1.1.1.1.1.1.1.1.0,
                            (
                              guard_rewind arrow_glacier_fork c.arrow_glacier_block
                                  new.arrow_glacier_block head sc.1.1.1.1.1.1.1.1.1.1.1.0
                                  sn.1.1.1.1.1.1.1.1.1.1.1.0,
                              (
                                guard_rewind gray_glacier_fork c.gray_glacier_block
                                    new.gray_glacier_block head sc.1.1.1.1.1.1.1.1.1.1.1.1.0
                                    sn.1.1.1.1.1.1.1.1.1.1.1.1.0,
                                (
                                  guard_rewind merge_netsplit_fork c.merge_netsplit_block
                                      new.merge_netsplit_block head sc.1.1.1.1.1.1.1.1.1.1.1.1.1.0
                                      sn.1.1.1.1.1.1.1.1.1.1.1.1.1.0,
                                  (
                                    guard_rewind ramanujan_fork c.ramanujan_block
                                        new.ramanujan_block head sc.1.1.1.1.1.1.1.1.1.1.1.1.1.1.0
                                        sn.1.1.1.1.1.1.1.1.1.1.1.1.1.1.0,
                                    (
                                      guard_rewind niels_fork c.niels_block new.niels_block head
                                          sc.1.1.1.1.1.1.1.1.1.1.1.1.1.1.1.0
                                          sn.1.1.1.1.1.1.1.1.1.1.1.1.1.1.1.0,
                                      (
                                        guard_rewind mirror_sync_fork c.mirror_sync_block
                                            new.mirror_sync_block head
                                            sc.1.1.1.1.1.1.1.1.1.1.1.1.1.1.1.1.0
                                            sn.1.1.1.1.1.1.1.1.1.1.1.1.1.1.1.1.0,
                                        (
                                          guard_rewind bruno_fork c.bruno_block new.bruno_block head
                                              sc.1.1.1.1.1.1.1.1.1.1.1.1.1.1.1.1.1.0
                                              sn.1.1.1.1.1.1.1.1.1.1.1.1.1.1.1.1.1.0,
                                          (
                                            guard_rewind euler_fork c.euler_block new.euler_block
                                                head sc.1.1.1.1.1.1.1.1.1.1.1.1.1.1.1.1.1.1.0
                                                sn.1.1.1.1.1.1.1.1.1.1.1.1.1.1.1.1.1.1.0,
                                            (
                                              guard_rewind gibbs_fork c.gibbs_block new.gibbs_block
                                                  head sc.1.1.1.1.1.1.1.1.1.1.1.1.1.1.1.1.1.1.1.0
                                                  sn.1.1.1.1.1.1.1.1.1.1.1.1.1.1.1.1.1.1.1.0,
                                              (
                                                guard_rewind nano_fork c.nano_block new.nano_block
                                                    head
                                                    sc.1.1.1.1.1.1.1.1.1.1.1.1.1.1.1.1.1.1.1.1.0
                                                    sn.1.1.1.1.1.1.1.1.1.1.1.1.1.1.1.1.1.1.1.1.0,
                                                (
                                                  guard_rewind moran_fork c.moran_block
                                                      new.moran_block head
                                                      sc.1.1.1.1.1.1.1.1.1.1.1.1.1.1.1.1.1.1.1.1.1.0
                                                      sn.1.1.1.1.1.1.1.1.1.1.1.1.1.1.1.1.1.1.1.1.1.0,
                                                  tt,
                                                ),
                                              ),
                                            ),
                                          ),
                                        ),
                                      ),
                                    ),
                                  ),
                                ),
                              ),
                            ),
                          ),
                        ),
                      ),
                    ),
                  ),
                ),
              ),
            ),
          ),
        ),
      ),
    ),
  )

  error-Rewinds :
      (head : ℕ) (e : ConfigCompatError)
      → IsConfig c
      → IsConfig new
      → check_compatible_at c new head ≡ some e
      → Rewinds head e
  unfolding check_compatible_at
  error-Rewinds head e sc sn q =
      first_error-some (Rewinds head) (guards c new head) e (guards-Rewinds head sc sn) q

  -- Nothing is found at the height, or nothing is left at the block that the error rewinds to, if
  -- that is not the first one.
  abbrev pub Settled : ℕ → Option ConfigCompatError → Type 0
  Settled height none = check_compatible_at c new height ≡ none
  Settled height (some e) = (check_compatible_at c new e.rewind_to ≡ none) ⊎ (e.rewind_to ≡ 0)

  Ends : ℕ → Option (Option ConfigCompatError) → Type 0
  Ends height r = (e : ConfigCompatError) × (r ≡ some (some e)) × Settled height (some e)

  loop_settled :
      (fuel height : ℕ) (last : ConfigCompatError)
      → IsConfig c
      → IsConfig new
      → last.rewind_to < fuel
      → Ends height (compat_loop c new fuel (some last) last.rewind_to)
  unfolding compat_loop Ends
  loop_settled zero height last sc sn lt = absurd (omega arith)
  loop_settled (suc fuel) height last sc sn lt =
      elim (Option-cases (check_compatible_at c new last.rewind_to)) [
        | inl q ↦ (last, rw (q, compat_loop), inl q)
        | inr (e, q) ↦ elim (Bool-cases (e.rewind_to == last.rewind_to)) [
          | inl same ↦ (
            last,
            rw (q, same, compat_loop),
            inr (ground (arith, error-Rewinds last.rewind_to e sc sn q)),
          )
          | inr other ↦
              rw (q, other, compat_loop)
                (loop_settled fuel height e sc sn
                  (ground (arith, error-Rewinds last.rewind_to e sc sn q)))
        ]
      ]

  -- `CheckCompatible` ends, with fuel for two rounds more than the height, for blocks of 64 bits.
  -- Either nothing conflicts at the height, or the error that it returns rewinds to the first block or
  -- to one at which nothing conflicts.
  pub check_compatible-Settled :
      (fuel height : ℕ)
      → IsConfig c
      → IsConfig new
      → height + 1 < fuel
      → (r : Option ConfigCompatError) × (check_compatible c new fuel height ≡ some r)
        × Settled height r
  unfolding check_compatible compat_loop Ends
  check_compatible-Settled zero height sc sn lt = absurd (omega arith)
  check_compatible-Settled (suc fuel) height sc sn lt =
      elim (Option-cases (check_compatible_at c new height)) [
        | inl q ↦ (none, rw (q, compat_loop), q)
        | inr (e, q) ↦
            let (e', p, s) =
              loop_settled fuel height e sc sn (ground (arith, error-Rewinds height e sc sn q)) in
            (some e', rw (q, compat_loop) p, s)
      ]

-- ===== src/Etl/LoadNext/Laws.antt =====
-- The writes of a load of etl/collector.go: where it appends, and which value of a key it writes.
use erigon_lib.Base.{
  ℕ, ◌+◌, ◌≡◌, refl, ap, ◌∙◌, arith, true, false, Option, none, some, List, [], ◌∷◌, map, ◌==◌,
  ◌&&◌, Bool-cases, ◌⊎◌, inl, inr,
}
use erigon_lib.Iter.Order.{bytes_lt, bytes-IsOrdered}
use erigon_lib.Etl.Sorting.{Entry}
use erigon_lib.Etl.LoadNext.{
  equals_prev, Target, LoadState, CursorCall, delete, append, append_dup, put, start,
  is_end_of_bucket, can_append, write_call, load_next, add_call, load_nexts,
}

-- The keys that are appended.
abbrev pub append_keys : List CursorCall → List (List ℕ)
append_keys [] = []
append_keys (delete k ∷ cs) = append_keys cs
append_keys (append k v ∷ cs) = k ∷ append_keys cs
append_keys (append_dup k v ∷ cs) = k ∷ append_keys cs
append_keys (put k v ∷ cs) = append_keys cs

-- Each key is above the one before it, the first one above a key that is given.
abbrev pub Over : Option (List ℕ) → List ℕ → Type 0
Over none k = Unit
Over (some l) k = bytes_lt l k ≡ true

abbrev pub Ascending : Option (List ℕ) → List (List ℕ) → Type 0
Ascending lo [] = Unit
Ascending lo (k ∷ ks) = Over lo k × Ascending (some k) ks

abbrev pub keys : List Entry → List (List ℕ)
keys es = map (λ (e : Entry). e.0) es

skip_key :
    (lo : Option (List ℕ)) (k : List ℕ) (ks : List (List ℕ))
    → Over lo k
    → Ascending (some k) ks
    → Ascending lo ks
skip_key lo k [] h a = tt
skip_key none k (x ∷ ks) h a = (tt, a.1)
skip_key (some l) k (x ∷ ks) h a = (bytes-IsOrdered.lt_trans l k x h a.0, a.1)

not_first : (n : ℕ) → (n + 1 == 0) ≡ false
not_first n = ground arith

-- A step counts the entry and settles whether to append.
step_lem :
    (t : Target) (st : LoadState) (k v : List ℕ)
    → ((load_next t st k v).0.i ≡ st.i + 1)
      × ((load_next t st k v).0.can_use_append ≡ can_append t st k)
      × (((load_next t st k v).1 ≡ none)
          ⊎ ((load_next t st k v).1 ≡ write_call t (can_append t st k) k v))
unfolding load_next
step_lem t st k v = elim (Bool-cases (t.oldest_appeared && equals_prev st.prev_k k)) [
  | inl same ↦ rw same (refl, refl, inl refl)
  | inr other ↦ elim (Bool-cases t.oldest_appeared) [
    | inl o ↦ rw (other, o) (refl, refl, inr refl)
    | inr o ↦ rw (other, o) (refl, refl, inr refl)
  ]
]

write_call-false :
    (t : Target) (k v : List ℕ) (cs : List CursorCall)
    → append_keys (add_call (write_call t false k v) cs) ≡ append_keys cs
unfolding write_call
write_call-false t k [] cs = refl
write_call-false t k (x ∷ v) cs = refl

write_call-true :
    (t : Target) (lo : Option (List ℕ)) (k v : List ℕ) (cs : List CursorCall)
    → Over lo k
    → Ascending (some k) (append_keys cs)
    → Ascending lo (append_keys (add_call (write_call t true k v) cs))
unfolding write_call
write_call-true t lo k [] cs h a = skip_key lo k (append_keys cs) h a
write_call-true t lo k (x ∷ v) cs h a = elim (Bool-cases t.is_dup_sort) [
  | inl d ↦ rw d (h, a)
  | inr d ↦ rw d (h, a)
]

kept_append :
    (t : Target) (st : LoadState) (k : List ℕ)
    → (st.i == 0) ≡ false
    → can_append t st k ≡ st.can_use_append
unfolding can_append
kept_append t st k h = rw h

-- Without the right to append, which does not come back after the first entry, nothing is appended.
no_appends :
    (t : Target) (es : List Entry) (st : LoadState)
    → (st.i == 0) ≡ false
    → st.can_use_append ≡ false
    → append_keys (load_nexts t st es) ≡ []
unfolding load_nexts
no_appends t [] st h c = refl
no_appends t (e ∷ es) st h c =
    let (i, can, call) = step_lem t st e.0 e.1 in
    let never : can_append t st e.0 ≡ false = kept_append t st e.0 h ∙ c in
    let rest =
      no_appends t es (load_next t st e.0 e.1).0 (ap (λ n. n == 0) i ∙ not_first st.i)
        (can ∙ never) in
    elim call [
      | inl none_ ↦
          ap (λ c'. append_keys (add_call c' (load_nexts t (load_next t st e.0 e.1).0 es))) none_
          ∙ rest
      | inr some_ ↦
          ap (λ c'. append_keys (add_call c' (load_nexts t (load_next t st e.0 e.1).0 es)))
            (some_ ∙ ap (λ b. write_call t b e.0 e.1) never)
          ∙ write_call-false t e.0 e.1 (load_nexts t (load_next t st e.0 e.1).0 es)
          ∙ rest
    ]

after :
    (t : Target) (lo : Option (List ℕ)) (e : Entry) (c : Option CursorCall) (cs : List CursorCall)
    → Over lo e.0
    → Ascending (some e.0) (append_keys cs)
    → (c ≡ none) ⊎ (c ≡ write_call t true e.0 e.1)
    → Ascending lo (append_keys (add_call c cs))
after t lo e c cs h a (inl none_) = rw none_ (skip_key lo e.0 (append_keys cs) h a)
after t lo e c cs h a (inr some_) = rw some_ (write_call-true t lo e.0 e.1 cs h a)

-- With it, the keys that are appended ascend as the entries do.
appends :
    (t : Target) (es : List Entry) (st : LoadState) (lo : Option (List ℕ))
    → (st.i == 0) ≡ false
    → st.can_use_append ≡ true
    → Ascending lo (keys es)
    → Ascending lo (append_keys (load_nexts t st es))
unfolding load_nexts
appends t [] st lo h c a = tt
appends t (e ∷ es) st lo h c a =
    let (i, can, call) = step_lem t st e.0 e.1 in
    let always : can_append t st e.0 ≡ true = kept_append t st e.0 h ∙ c in
    let rest =
      appends t es (load_next t st e.0 e.1).0 (some e.0) (ap (λ n. n == 0) i ∙ not_first st.i)
        (can ∙ always) a.1 in
    after t lo e (load_next t st e.0 e.1).1 (load_nexts t (load_next t st e.0 e.1).0 es) a.0 rest
      (elim call [ inl n ↦ inl n | inr w ↦ inr (w ∙ ap (λ b. write_call t b e.0 e.1) always) ])

-- Where the keys of a load ascend strictly, the keys that it appends ascend strictly, and the first one
-- is above the last key that the table had.
pub load_nexts-Ascending :
    (t : Target) (es : List Entry)
    → Ascending none (keys es)
    → Ascending t.last_key (append_keys (load_nexts t start es))
unfolding load_nexts can_append
load_nexts-Ascending t [] a = tt
load_nexts-Ascending t (e ∷ es) a =
    let (i, can, call) = step_lem t start e.0 e.1 in
    let next : LoadState = (load_next t start e.0 e.1).0 in
    let later : (next.i == 0) ≡ false = ap (λ n. n == 0) i ∙ not_first 0 in
    elim (Bool-cases (can_append t start e.0)) [
      | inl able ↦
          after t t.last_key e (load_next t start e.0 e.1).1 (load_nexts t next es)
            (above_last t.last_key able) (appends t es next (some e.0) later (can ∙ able) a.1)
            (elim call [ inl n ↦ inl n | inr w ↦ inr (w ∙ ap (λ b. write_call t b e.0 e.1) able) ])
      | inr no_ ↦
          let rest = no_appends t es next later (can ∙ no_) in
          none_at t.last_key (elim call [
            | inl n ↦ ap (λ c'. append_keys (add_call c' (load_nexts t next es))) n ∙ rest
            | inr w ↦
                ap (λ c'. append_keys (add_call c' (load_nexts t next es)))
                  (w ∙ ap (λ b. write_call t b e.0 e.1) no_)
                ∙ write_call-false t e.0 e.1 (load_nexts t next es)
                ∙ rest
          ])
    ]
  where
    above_last :
        (lo : Option (List ℕ))
        → (t.have_sorting_guaranties && is_end_of_bucket lo e.0) ≡ true
        → Over lo e.0
    above_last none h = tt
    above_last (some l) h = elim (Bool-cases t.have_sorting_guaranties) [
      | inl g ↦ rw g at h
      | inr g ↦ let wrong : false ≡ true = rw g at h in cc
    ]

    none_at : (lo : Option (List ℕ)) {ks : List (List ℕ)} → ks ≡ [] → Ascending lo ks
    none_at lo {ks = []} h = tt
    none_at lo {ks = k ∷ ks} h = cc

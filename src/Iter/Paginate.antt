-- ===== src/Iter/Paginate.antt =====
-- kv/iter/iter.go: `Paginated` and `PaginatedDual`, the values of a list that a server gives in
-- pages. `nextPage` is a parameter that gives a page and the token of the next one, or an error; a
-- token is its bytes, and the empty one stands for the last page.
use erigon_lib.Base.{
  ℕ, ◌+◌, ◌<◌, ◌≡◌, refl, ap, ◌∙◌, arith, Bool, true, false, ◌||◌, ◌&&◌, Option, none, some, List,
  [], ◌∷◌, ◌++◌, length, get_elem?, get_elem?-length_append, length-append, ltb, lt→ltb, le→ltb,
  Result, ok, err, ◌⊎◌, inl, inr,
}
use mathlib.Core.List.{append_assoc}
use erigon_lib.Iter.{Unary, Out, end, stop, Streams, ends, stops, gives, then_out}

pub record Paginated (E V : Type 0) : Type 0 where
  pub arr : List V
  pub i : ℕ
  pub error : Option E
  pub next_page_token : List ℕ
  pub initialized : Bool

-- `it.err != nil`, and `token == ""`
abbrev pub is_some : {E : Type 0} → Option E → Bool
is_some none = false
is_some (some e) = true

abbrev pub is_last : List ℕ → Bool
is_last [] = true
is_last (b ∷ bs) = false

module _ {E V : Type 0} (next_page : List ℕ → E ⊎ (List V × List ℕ)) where
  abbrev pub paginate : Paginated E V
  paginate = record { arr = []; i = 0; error = none; next_page_token = []; initialized = false }

  -- What comes beside an error is not read again.
  abbrev received : Paginated E V → E ⊎ (List V × List ℕ) → Bool × Paginated E V
  received it (inl e) = (true, record it { initialized = true; i = 0; error = some e })
  received it (inr (page, token)) = (
    ltb 0 (length page),
    record it { initialized = true; i = 0; arr = page; next_page_token = token },
  )

  unfoldable pub paginated_has_next : Paginated E V → Bool × Paginated E V
  paginated_has_next it = elim (is_some it.error || ltb it.i (length it.arr)) [
    | true ↦ (true, it)
    | false ↦ elim (it.initialized && is_last it.next_page_token) [
      | true ↦ (false, it)
      | false ↦ received it (next_page it.next_page_token)
    ]
  ]

  unfoldable pub paginated_next : Paginated E V → Option (Result E V × Paginated E V)
  paginated_next it = elim it.error [
    | some e ↦ some (err e, it)
    | none ↦ elim (get_elem? it.arr it.i) [
      | none ↦ none
      | some v ↦ some (ok v, record it { i = it.i + 1 })
    ]
  ]

  unfoldable pub paginated : Unary E (Paginated E V) V
  paginated = record { has_next = paginated_has_next; next = paginated_next }

  -- What the pages from a token on give. A page that is empty ends the values, also when a page
  -- follows it.
  pub data Pages : List ℕ → Out E V → Type 0 where
    page_error : (token : List ℕ) (e : E) → next_page token ≡ inl e → Pages token (stop e)
    page_empty : (token next : List ℕ) → next_page token ≡ inr ([], next) → Pages token end
    page_last :
        (token : List ℕ) (v : V) (vs : List V)
        → next_page token ≡ inr (v ∷ vs, [])
        → Pages token (then_out (v ∷ vs) end)
    page_more :
        (token : List ℕ) (v : V) (vs : List V) (b : ℕ) (bs : List ℕ) (o : Out E V)
        → next_page token ≡ inr (v ∷ vs, b ∷ bs)
        → Pages (b ∷ bs) o
        → Pages token (then_out (v ∷ vs) o)

  -- A state whose page is read up to `i`, before the page of `token`.
  abbrev pub at_page : List V → ℕ → List ℕ → Bool → Paginated E V
  at_page page i token started = record {
    arr = page;
    i = i;
    error = none;
    next_page_token = token;
    initialized = started;
  }

  in_page :
      (page : List V) (i : ℕ) (token : List ℕ) (started : Bool)
      → i < length page
      → paginated_has_next (at_page page i token started) ≡ (true, at_page page i token started)
  unfolding paginated_has_next
  in_page page i token started h = rw (lt→ltb i (length page) h, paginated_has_next)

  ask :
      (page : List V) (i : ℕ) (token : List ℕ) (started : Bool)
      → ltb i (length page) ≡ false
      → (started && is_last token) ≡ false
      → paginated_has_next (at_page page i token started)
        ≡ received (at_page page i token started) (next_page token)
  unfolding paginated_has_next
  ask page i token started h k = rw (h, k, paginated_has_next)

  page_next :
      (read : List V) (v : V) (vs : List V) (i : ℕ) (token : List ℕ)
      → i ≡ length read
      → paginated_next (at_page (read ++ (v ∷ vs)) i token true)
        ≡ some (ok v, at_page (read ++ (v ∷ vs)) (i + 1) token true)
  unfolding paginated_next
  page_next read v vs i token h =
      let here : get_elem? (read ++ (v ∷ vs)) i ≡ some v =
        rw h (get_elem?-length_append read v vs) in
      rw (here, paginated_next)

  -- The values left of a page, before what follows it.
  rest_of_page :
      (read left : List V) (i : ℕ) (token : List ℕ) {o : Out E V}
      → i ≡ length read
      → Streams paginated (at_page (read ++ left) (length (read ++ left)) token true) o
      → Streams paginated (at_page (read ++ left) i token true) (then_out left o)
  unfolding paginated
  rest_of_page read [] i token {o} h st =
      let all_read : length (read ++ []) ≡ i = length-append read [] ∙ omega arith in
      rw all_read at st
  rest_of_page read (v ∷ left) i token {o} h st =
      let some_left = length-append read (v ∷ left) in
      let one_read = length-append read (v ∷ []) in
      let same = append_assoc read (v ∷ []) left in
      gives (in_page (read ++ (v ∷ left)) i token true (omega (arith, some_left)))
        (page_next read v left i token h)
        (rw same at (
          rest_of_page (read ++ (v ∷ [])) left (i + 1) token {o = o} (omega (arith, one_read))
            (rw same st)))

  -- A page with values, as the answer for a token.
  new_page :
      (page : List V) (i : ℕ) (token next : List ℕ) (started : Bool) (v : V) (vs : List V)
      {o : Out E V}
      → paginated_has_next (at_page page i token started)
        ≡ received (at_page page i token started) (next_page token)
      → next_page token ≡ inr (v ∷ vs, next)
      → Streams paginated (at_page (v ∷ vs) (length (v ∷ vs)) next true) o
      → Streams paginated (at_page page i token started) (then_out (v ∷ vs) o)
  unfolding paginated
  new_page page i token next started v vs asked answer st =
      gives {s = at_page page i token started} {s1 = at_page (v ∷ vs) 0 next true}
        (asked
          ∙ ap (received (at_page page i token started)) answer
          ∙ ap (λ t. (t, at_page (v ∷ vs) 0 next true)) (lt→ltb 0 (length (v ∷ vs)) (omega arith)))
        (page_next [] v vs 0 next refl) (rest_of_page (v ∷ []) vs 1 next refl st)

  page_read : (page : List V) → ltb (length page) (length page) ≡ false
  page_read page = le→ltb (length page) (length page) (omega arith)

  all_read : (page : List V) → Streams paginated (at_page page (length page) [] true) end
  unfolding paginated paginated_has_next
  all_read page =
      ends {s' = at_page page (length page) [] true} (rw (page_read page, paginated_has_next))

  Pages-Streams :
      (page : List V) (i : ℕ) {token : List ℕ} (started : Bool) {o : Out E V}
      → ltb i (length page) ≡ false
      → (started && is_last token) ≡ false
      → Pages token o
      → Streams paginated (at_page page i token started) o
  unfolding paginated paginated_next
  Pages-Streams page i started h k (page_error token e answer) =
      let asked = ask page i token started h k in
      stops {s = at_page page i token started}
        (asked ∙ ap (received (at_page page i token started)) answer) refl
  Pages-Streams page i started h k (page_empty token next answer) =
      let asked = ask page i token started h k in
      ends {s = at_page page i token started}
        (asked ∙ ap (received (at_page page i token started)) answer)
  Pages-Streams page i started h k (page_last token v vs answer) =
      new_page page i token [] started v vs (ask page i token started h k) answer
        (all_read (v ∷ vs))
  Pages-Streams page i started h k (page_more token v vs b bs o answer more) =
      new_page page i token (b ∷ bs) started v vs (ask page i token started h k) answer
        (Pages-Streams (v ∷ vs) (length (v ∷ vs)) true (page_read (v ∷ vs)) refl more)

  -- A paginated list streams the values of its pages in order, up to an error of the server, an
  -- empty page or a page without a next token.
  pub paginate-Streams : {o : Out E V} → Pages [] o → Streams paginated paginate o
  paginate-Streams p = Pages-Streams [] 0 false refl refl p

  -- Where the page of a state is read, the next one is empty but has a next token, and the one after
  -- it has a value, `HasNext` gives false, and called again it gives true.
  pub paginated_has_next-empty_page :
      (page : List V) (b : ℕ) (bs : List ℕ) (c : ℕ) (cs : List ℕ) (v : V) (vs : List V)
      (next : List ℕ)
      → next_page (b ∷ bs) ≡ inr ([], c ∷ cs)
      → next_page (c ∷ cs) ≡ inr (v ∷ vs, next)
      → (paginated_has_next (at_page page (length page) (b ∷ bs) true)
          ≡ (false, at_page [] 0 (c ∷ cs) true))
        × (paginated_has_next (at_page [] 0 (c ∷ cs) true) ≡ (true, at_page (v ∷ vs) 0 next true))
  paginated_has_next-empty_page page b bs c cs v vs next h k = (
    ask page (length page) (b ∷ bs) true (page_read page) refl
        ∙ ap (received (at_page page (length page) (b ∷ bs) true)) h,
    ask [] 0 (c ∷ cs) true refl refl
        ∙ ap (received (at_page [] 0 (c ∷ cs) true)) k
        ∙ ap (λ t. (t, at_page (v ∷ vs) 0 next true)) (lt→ltb 0 (length (v ∷ vs)) (omega arith)),
  )

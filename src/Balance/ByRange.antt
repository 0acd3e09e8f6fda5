-- ===== src/Balance/ByRange.antt =====
-- balance::StrategyByRange: source/src/balance/StrategyByRange.cc. A strategy is a handle; `self`
-- is the handle of the object itself.
use coffee.Base.{
  subst, ap, sym, ℕ, ◌≡◌, refl, ◌≢◌, ◌↔◌, ℤ, leb_int, ◌≤ℤ◌, Bool, true, false, ◌&&◌, ◌||◌, List, [],
  ◌∷◌, ◌++◌, Option, none, some, Result, ok, raise, arith, All, All-append, if◌then◌else◌, ◌==◌,
  Bool-cases, inl, inr, ◌∙◌,
}
use coffee.Balance.ResourceList.{Error, null_strategy, recursive, invalid_range, hidden, no_range}

pub record Range : Type 0 where
  pub bottom : ℤ
  pub top : ℤ
  pub strategy : ℕ

abbrev pub within : Range → ℤ → Bool
within r id = leb_int r.bottom id && leb_int id r.top

-- The three tests that `addRange` makes against one range.
unfoldable pub clashes : ℤ → ℤ → Range → Bool
clashes bottom top r =
    within r bottom || (within r top || (leb_int bottom r.bottom && leb_int r.top top))

unfoldable pub some_clashes : ℤ → ℤ → List Range → Bool
some_clashes bottom top [] = false
some_clashes bottom top (r ∷ rs) = clashes bottom top r || some_clashes bottom top rs

unfoldable pub add_range : ℕ → List Range → ℤ → ℤ → Option ℕ → Result Error (List Range)
add_range self rs bottom top none = raise null_strategy
add_range self rs bottom top (some s) =
    if s == self
    then raise recursive
    else if leb_int bottom top
    then if some_clashes bottom top rs
      then raise hidden
      else ok (rs ++ record { bottom = bottom; top = top; strategy = s } ∷ [])
    else raise invalid_range

unfoldable pub find_range : List Range → ℤ → Option Range
find_range [] id = none
find_range (r ∷ rs) id = if within r id then some r else find_range rs id

-- `strategy->apply(request)` is the argument `apply_strategy`.
unfoldable pub apply : {A : Type 0} → (ℕ → Result Error A) → List Range → ℤ → Result Error A
apply apply_strategy rs id = elim (find_range rs id) [
  | none ↦ raise no_range
  | some r ↦ apply_strategy r.strategy
]

-- Each range has a point.
abbrev pub IsRange : Range → Type 0
IsRange r = r.bottom ≤ℤ r.top

-- No identifier lies in two of the ranges, and none of them is empty.
abbrev pub Disjoint : List Range → Type 0
Disjoint [] = Unit {0}
Disjoint (r ∷ rs) =
    IsRange r × All (λ q. (id : ℤ) → within r id ≡ true → within q id ≡ false) rs × Disjoint rs

clash_free :
    (b t p q id : ℤ)
    → (leb_int p b && leb_int b q) ≡ false
    → (leb_int p t && leb_int t q) ≡ false
    → (leb_int b p && leb_int q t) ≡ false
    → (leb_int p id && leb_int id q) ≡ true
    → (leb_int b id && leb_int id t) ≡ false
clash_free b t p q id h k l m = ground arith

clash_found :
    (b t p q : ℤ)
    → b ≤ℤ t
    → p ≤ℤ q
    → ((leb_int p b && leb_int b q)
        || ((leb_int p t && leb_int t q) || (leb_int b p && leb_int q t)))
      ≡ true
    → (id : ℤ) × ((leb_int p id && leb_int id q) ≡ true) × ((leb_int b id && leb_int id t) ≡ true)
clash_found b t p q o w h = elim (Bool-cases (leb_int p b && leb_int b q)) [
  | inl e ↦ (b, e, ground arith)
  | inr ne ↦ elim (Bool-cases (leb_int p t && leb_int t q)) [
    | inl e ↦ (t, e, ground arith)
    | inr ne' ↦ (p, ground arith, ground arith)
  ]
]

ordered_test : (a b : ℤ) → a ≤ℤ b → leb_int a b ≡ true
ordered_test a b h = ground arith

module _ (bottom top : ℤ) (s : ℕ) where
  unfoldable pub new_range : Range
  new_range = record { bottom = bottom; top = top; strategy = s }

  no_clash :
      (rs : List Range) (id : ℤ)
      → some_clashes bottom top rs ≡ false
      → within new_range id ≡ true
      → find_range rs id ≡ none
  unfolding some_clashes clashes find_range new_range
  no_clash [] id c w = refl
  no_clash (r ∷ rs) id c w = ground (arith, clash_free bottom top r.bottom r.top id, no_clash rs id)

  a_clash :
      (rs : List Range)
      → bottom ≤ℤ top
      → Disjoint rs
      → some_clashes bottom top rs ≡ true
      → (id : ℤ) × (within new_range id ≡ true) × (find_range rs id ≢ none)
  unfolding some_clashes clashes find_range new_range
  a_clash [] o d c = absurd (ground arith)
  a_clash (r ∷ rs) o d c = elim (Bool-cases (clashes bottom top r)) [
    | inl e ↦
        let (id, in_old, in_new) = clash_found bottom top r.bottom r.top o d.0 e in
        (id, in_new, ground arith)
    | inr ne ↦
        let (id, in_new, found) = a_clash rs o d.2 (ground arith) in (id, in_new, ground arith)
  ]

  append-Disjoint :
      (rs : List Range)
      → bottom ≤ℤ top
      → Disjoint rs
      → some_clashes bottom top rs ≡ false
      → Disjoint (rs ++ new_range ∷ [])
  unfolding some_clashes clashes new_range
  append-Disjoint [] o d c = (o, tt, tt)
  append-Disjoint (r ∷ rs) o d c = (
    d.0,
    (All-append (λ q. (id : ℤ) → within r id ≡ true → within q id ≡ false) rs (new_range ∷ []) d.1
        (
          λ id w.
              clash_free bottom top r.bottom r.top id (ground arith) (ground arith) (ground arith)
                w,
          tt,
        )),
    append-Disjoint rs o d.2 (ground arith),
  )

  find_range-append :
      (rs : List Range) (id : ℤ)
      → some_clashes bottom top rs ≡ false
      → find_range (rs ++ new_range ∷ []) id
        ≡ (if within new_range id then some new_range else find_range rs id)
  unfolding find_range some_clashes clashes new_range
  find_range-append [] id c = refl
  find_range-append (r ∷ rs) id c =
      ground (arith, clash_free bottom top r.bottom r.top id, find_range-append rs id)

  module _ (self : ℕ) (other : s ≢ self) (ordered : bottom ≤ℤ top) where
    add_range_cases :
        (rs : List Range)
        → add_range self rs bottom top (some s)
          ≡ (if some_clashes bottom top rs then raise hidden else ok (rs ++ new_range ∷ []))
    unfolding add_range new_range
    add_range_cases rs = ground (arith, ordered_test bottom top ordered)

    -- A range that is in order, for another strategy than this one, is refused exactly if one of
    -- its identifiers is routed already: the three tests of addRange find every overlap.
    pub add_range_iff :
        (rs : List Range)
        → Disjoint rs
        → (add_range self rs bottom top (some s) ≡ raise hidden)
          ↔ ((id : ℤ) × (within new_range id ≡ true) × (find_range rs id ≢ none))
    add_range_iff rs d = (
      λ refused. a_clash rs ordered d (ground (arith, add_range_cases rs)),
      λ (id, inside, found). elim (Bool-cases (some_clashes bottom top rs)) [
        | inl e ↦ ground (arith, add_range_cases rs)
        | inr ne ↦ absurd (found (no_clash rs id ne inside))
      ],
    )

    -- A range that is accepted leaves the ranges disjoint, routes each of its own identifiers to
    -- its strategy, and leaves the route of every other identifier as it was.
    pub add_range_routes :
        (rs rs' : List Range)
        → Disjoint rs
        → add_range self rs bottom top (some s) ≡ ok rs'
        → Disjoint rs'
          × ((id : ℤ)
              → find_range rs' id
                ≡ (if within new_range id then some new_range else find_range rs id))
    add_range_routes rs rs' d e = elim (Bool-cases (some_clashes bottom top rs)) [
      | inl bad ↦ absurd (ground (arith, add_range_cases rs))
      | inr good ↦
          let grown : rs ++ new_range ∷ [] ≡ rs' = ground (arith, add_range_cases rs) in
          (
            subst Disjoint grown (append-Disjoint rs ordered d good),
            λ id. ap (λ t. find_range t id) (sym grown) ∙ find_range-append rs id good,
          )
    ]

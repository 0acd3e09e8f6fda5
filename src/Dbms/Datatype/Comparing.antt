-- ===== src/Dbms/Datatype/Comparing.antt =====
-- Sets of data that match can be compared.
use coffee.Base.{
  ◌>>=◌, false, raise, ◌⊎◌, ℤ, pos, negsuc, some, Result, ok, List, [], ◌∷◌, All, Key, find,
  if◌then◌else◌, ◌==◌, ◌≡◌,
}
use coffee.Dbms.Datatype.{Datatype, Data, DataError, Set, compare_values}

module _ {N V : Type 0} ⦃key : Key N⦄ where
  -- The names of the creation order have data.
  abbrev pub AllFound : List (N × Data V) → List N → Type 0
  AllFound datas names = All (λ n. (x : Data V) × (find datas n ≡ some x)) names

  pub record IsIndexed (s : Set N V) : Type 0 where
    pub found : AllFound s.datas s.creation_order

-- The loop goes on after a result of 0, and ends at any other and at an exception.
abbrev after : Result DataError ℤ → Result DataError ℤ → Result DataError ℤ
after now later = now >>= λ result. elim result [
  | pos n ↦ if n == 0 then later else ok (pos n)
  | negsuc n ↦ ok (negsuc n)
]

module _ {N V : Type 0} (do_compare : V → V → Result DataError ℤ) ⦃key : Key N⦄ where
  -- Both sets have data of the name, and these are equal.
  abbrev pub SameAt : Set N V → Set N V → N → Type 0
  SameAt a b name =
      (x y : Data V) × (find a.datas name ≡ some x)
      × (find b.datas name ≡ some y)
      × (compare_values do_compare x y ≡ ok (pos 0))

  -- The comparison of two values of the sets throws `e`, the data of the names before being equal.
  abbrev pub Throws : Set N V → Set N V → List N → DataError → Type 0
  Throws a b [] e = ⊥
  Throws a b (name ∷ names) e =
      ((x y : Data V) × (find a.datas name ≡ some x)
        × (find b.datas name ≡ some y)
        × (x.is_null ≡ false)
        × (y.is_null ≡ false)
        × (do_compare x.value y.value ≡ raise e))
      ⊎ (SameAt a b name × Throws a b names e)

  -- What a comparison promises: an exception that is do_compare's, or a number that tells equality.
  abbrev pub Compared : Set N V → Set N V → List N → Result DataError ℤ → Type 0
  Compared a b names result =
      ((e : DataError) × (result ≡ raise e) × Throws a b names e) ⊎ ((r : ℤ) × (result ≡ ok r))

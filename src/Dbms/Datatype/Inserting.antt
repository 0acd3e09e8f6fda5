-- ===== src/Dbms/Datatype/Inserting.antt =====
-- Inserting data into a set.
use coffee.Base.{
  Option, none, some, ok, List, [], ◌∷◌, ◌++◌, All-append, Key, find, same_refl, ◌≡◌, subst, arith,
  Bool-cases, inl, inr,
}
use coffee.Dbms.Datatype.{Data, Set, insert, insert_new}
use coffee.Dbms.Datatype.Comparing.{AllFound, IsIndexed}

module _ {N V : Type 0} ⦃key : Key N⦄ where
  AllFound-cons :
      (name : N) (z : Data V) (datas : List (N × Data V)) (names : List N)
      → AllFound datas names
      → AllFound ((name, z) ∷ datas) names
  unfolding find
  AllFound-cons name z datas [] a = tt
  AllFound-cons name z datas (n ∷ names) ((x, e), a) = (
    elim (Bool-cases (key.same n name)) [
      | inl s ↦ (z, ground arith)
      | inr s ↦ (x, ground (arith, e))
    ],
    AllFound-cons name z datas names a,
  )

  insert_new-IsIndexed :
      (name : N) (x : Data V) (s s' : Set N V) (found : Option (Data V))
      → IsIndexed s
      → insert_new name x s found ≡ ok s'
      → IsIndexed s'
  unfolding insert_new find
  insert_new-IsIndexed name x s s' (some y) h e = cc
  insert_new-IsIndexed name x s s' none h e =
      let same : record {
        datas = (name, x) ∷ s.datas;
        creation_order = s.creation_order ++ name ∷ [];
      }
          ≡ s' =
        ground arith in
      subst IsIndexed same (record {
        found =
            All-append (λ n. (y : Data V) × (find ((name, x) ∷ s.datas) n ≡ some y))
              s.creation_order (name ∷ []) (AllFound-cons name x s.datas s.creation_order h.found)
              ((x, ground (arith, same_refl name)), tt);
      })

  -- What is inserted keeps the names of the creation order in the set.
  pub insert-IsIndexed :
      (name : N) (x : Option (Data V)) (s s' : Set N V)
      → IsIndexed s
      → insert name x s ≡ ok s'
      → IsIndexed s'
  unfolding insert
  insert-IsIndexed name none s s' h e = cc
  insert-IsIndexed name (some x) s s' h e = insert_new-IsIndexed name x s s' (find s.datas name) h e

-- ===== src/Persistence/Guards.antt =====
-- What the guards of the storage's calls let through.
use coffee.Base.{Bool, ok, raise, ◌≡◌, ◌⊎◌, ◌∙◌, inl, inr, refl, arith, Result-cases}
use coffee.Dbms.Driver.{Error, Driver}
use coffee.Dbms.Guard.{Guard, guard_connection, guard_statement}
use coffee.Persistence.Storage.{World, Inside, with_connection, with_statement}

module _ {S V : Type 0} (d : Driver S) where
  -- What the guard of a connection leaves to its block.
  abbrev pub opened : World S V → Guard S → Inside S V
  opened w g = record { guard = g; statement = w.statement; objects = w.objects }

  -- Both guards are built, and their block starts with `i`.
  pub record Entered (w : World S V) (i : Inside S V) : Type 0 where
    pub guard : Guard S
    pub connected : (guard_connection d w.connection).1 ≡ ok guard
    pub locked : (guard_statement d guard w.statement_locked).1 ≡ ok tt
    pub inside :
        i ≡ record (opened w guard) { guard = (guard_statement d guard w.statement_locked).0 }

  -- The constructor of a guard throws `e`.
  abbrev pub Thrown : World S V → Error → Type 0
  Thrown w e =
      ((guard_connection d w.connection).1 ≡ raise e)
      ⊎ ((g : Guard S) × ((guard_connection d w.connection).1 ≡ ok g)
          × ((guard_statement d g w.statement_locked).1 ≡ raise e))

module _ {S V A : Type 0} (d : Driver S) where
  -- What a block with guards returns: what its failure leaves, or what its body returns.
  with_statement-cases :
      (b : Bool) (i : Inside S V) (failed : Error → A) (body : Inside S V → Inside S V × A)
      → ((e : Error) × ((guard_statement d i.guard b).1 ≡ raise e)
          × ((with_statement d b i failed body).1 ≡ failed e))
        ⊎ (((guard_statement d i.guard b).1 ≡ ok tt)
            × ((with_statement d b i failed body).1
                ≡ (body (record i { guard = (guard_statement d i.guard b).0 })).1))
  unfolding with_statement
  with_statement-cases b i failed body = elim (Result-cases (guard_statement d i.guard b).1) [
    | inl (e, h) ↦ inl (e, h, ground arith)
    | inr (u, h) ↦ inr (h, ground arith)
  ]

  pub with_connection-cases :
      (w : World S V) (failed : Error → A) (body : Inside S V → Inside S V × A)
      → ((e : Error) × ((guard_connection d w.connection).1 ≡ raise e)
          × ((with_connection d w failed body).1 ≡ failed e))
        ⊎ ((g : Guard S) × ((guard_connection d w.connection).1 ≡ ok g)
            × ((with_connection d w failed body).1 ≡ (body (opened d w g)).1))
  unfolding with_connection
  with_connection-cases w failed body = elim (Result-cases (guard_connection d w.connection).1) [
    | inl (e, h) ↦ inl (e, h, ground arith)
    | inr (g, h) ↦ inr (g, h, ground arith)
  ]

  pub guards-cases :
      (w : World S V) (failed : Error → A) (body : Inside S V → Inside S V × A)
      → (let result =
            (with_connection d w failed
              (λ i. with_statement d w.statement_locked i failed body)).1 in
          ((e : Error) × Thrown d w e × (result ≡ failed e))
          ⊎ ((i : Inside S V) × Entered d w i × (result ≡ (body i).1)))
  guards-cases w failed body =
      elim (with_connection-cases w failed
        (λ i. with_statement d w.statement_locked i failed body)) [
          | inl (e, h, q) ↦ inl (e, inl h, q)
          | inr (g, h, q) ↦
              elim (with_statement-cases w.statement_locked (opened d w g) failed body) [
                | inl (e, h', q') ↦ inl (e, inr (g, h, h'), q ∙ q')
                | inr (h', q') ↦ inr (
                  record (opened d w g) { guard = (guard_statement d g w.statement_locked).0 },
                  record { guard = g; connected = h; locked = h'; inside = refl },
                  q ∙ q',
                )
              ]
        ]

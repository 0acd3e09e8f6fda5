-- ===== src/Dbms/Database/Opening.antt =====
-- What the initialization of a database makes of its connections.
use coffee.Base.{
  Bool, true, false, Result, ok, raise, List, [], ◌∷◌, All, ==_iff, ◌≡◌, ◌≢◌, ◌↔◌, refl, arith,
  Result-cases, inl, inr,
}
use coffee.Dbms.Driver.{Error, Driver}
use coffee.Dbms.Connection.{Connection}
use coffee.Dbms.Database.{none_available, Database, open_one, open_all, do_initialize}

abbrev is_raised : Result Error (Unit {0}) → Bool
is_raised (ok u) = false
is_raised (raise e) = true

module _ {S : Type 0} (d : Driver S) where
  -- Opening the connection throws.
  unfoldable pub fails : Connection S → Bool
  fails c = is_raised (open_one d c).1

module _ {N S : Type 0} (d : Driver S) where
  abbrev pub AllFail : List (N × Connection S) → Type 0
  AllFail connections = All (λ e. fails d e.1 ≡ true) connections

  counter-AllFail :
      (connections : List (N × Connection S)) → (open_all d connections).1 ≡ 0 → AllFail connections
  unfolding open_all fails
  counter-AllFail [] h = tt
  counter-AllFail ((name, c) ∷ connections) h = elim (Result-cases (open_one d c).1) [
    | inl (e, q) ↦ (ground arith, counter-AllFail connections (ground arith))
    | inr (u, q) ↦ ground arith
  ]

  AllFail-counter :
      (connections : List (N × Connection S)) → AllFail connections → (open_all d connections).1 ≡ 0
  unfolding open_all fails
  AllFail-counter [] h = refl
  AllFail-counter ((name, c) ∷ connections) h = ground (arith, h.0, AllFail-counter connections h.1)

  AllFail-error :
      (connections : List (N × Connection S))
      → AllFail connections
      → connections ≢ []
      → (open_all d connections).2 ≡ true
  unfolding open_all fails
  AllFail-error [] h n = absurd (n refl)
  AllFail-error ((name, c) ∷ connections) h n = ground (arith, h.0)

  some_connection :
      (connections : List (N × Connection S)) → (open_all d connections).2 ≡ true → connections ≢ []
  unfolding open_all
  some_connection [] h e = cc
  some_connection (x ∷ connections) h e = cc

  -- The initialization of a database throws exactly if the database has connections and opening
  -- each of them throws: one connection that opens is enough, and so is a database without
  -- connections.
  pub do_initialize_iff :
      (db : Database N S)
      → ((do_initialize d db).1 ≡ raise none_available)
        ↔ ((db.connections ≢ []) × AllFail db.connections)
  unfolding do_initialize
  do_initialize_iff db = (
    λ h.
        let none_opened : (open_all d db.connections).1 ≡ 0 =
          ground (arith, ==_iff (open_all d db.connections).1 0) in
        (some_connection db.connections (ground arith), counter-AllFail db.connections none_opened),
    λ (n, f). ground (arith, AllFail-counter db.connections f, AllFail-error db.connections f n),
  )

-- ===== src/Time/Cancelling.antt =====
-- time::TimeService: an event that is cancelled after its activation.
use coffee.Base.{
  false, some, Bool-cases, inl, inr, find, ℕ, zero, suc, ◌+◌, ◌/◌, ◌%◌, ◌≡◌, refl, true, List, [],
  ◌∷◌, none, arith, set, ◌==◌, sym, ap, ◌∙◌, subst, number_key, map, ok, find-assign, find-erase,
  assign, same_refl,
}
use coffee.Time.Service.{
  Place, temporary, at, has_event, erase_node, TimeEvent, TimeService, slot, store, cancel, unlink,
  activate,
}
use coffee.Time.Agenda.{wrap, agenda, stored}
use coffee.Time.Invariant.{activate-ok, activate-running}
use coffee.Time.Unlinking.{cancel-none, cancel-some, without_event}

-- The wheel and the temporary quantum are as before.
abbrev SameQuanta : TimeService → TimeService → Type 0
SameQuanta s t =
    ((j : ℕ) → slot t.time_table j ≡ slot s.time_table j)
    × (t.temporary_quantum ≡ s.temporary_quantum)
    × (t.max_quantum ≡ s.max_quantum)
    × (t.current_quantum ≡ s.current_quantum)

agenda-SameQuanta : (s t : TimeService) (k : ℕ) → SameQuanta s t → agenda t k ≡ agenda s k
unfolding agenda
agenda-SameQuanta s t k (slots, temp, most, now) =
    ground (arith, slots (wrap s.max_quantum (s.current_quantum + k)), temp, most, now)

-- The node that a store has put in front goes.
slot-restored :
    (e : TimeEvent) (table : List (List TimeEvent)) (i j : ℕ)
    → slot
        (set
          (set table i (e ∷ slot table i))
          i
          (unlink e.id (slot (set table i (e ∷ slot table i)) i)))
        j
      ≡ slot table j
unfolding unlink
slot-restored e [] i j = refl
slot-restored e (q ∷ table) zero zero = ground arith
slot-restored e (q ∷ table) zero (suc j) = refl
slot-restored e (q ∷ table) (suc i) zero = refl
slot-restored e (q ∷ table) (suc i) (suc j) = slot-restored e table i j

abbrev index_of : TimeEvent → TimeService → ℕ
index_of e s = (s.current_quantum + e.timeout / s.resolution) % s.max_quantum

store-temporary :
    (now : ℕ) (e : TimeEvent) (s : TimeService)
    → (index_of e s == s.current_quantum) ≡ true
    → store now e s ≡ record s {
      temporary_quantum = stored now e ∷ s.temporary_quantum;
      events = assign s.events e.id (temporary (index_of e s));
    }
unfolding store
store-temporary now e s h = ground (arith, h)

store-at :
    (now : ℕ) (e : TimeEvent) (s : TimeService)
    → (index_of e s == s.current_quantum) ≡ false
    → store now e s ≡ record s {
      time_table =
          set s.time_table (index_of e s) (stored now e ∷ slot s.time_table (index_of e s));
      events = assign s.events e.id (at (index_of e s));
    }
unfolding store
store-at now e s h = ground (arith, h)

find-assigned :
    (dict : List (ℕ × Place)) (id : ℕ) (place : Place) → find (assign dict id place) id ≡ some place
find-assigned dict id place = ground (arith, find-assign dict id id place, same_refl id)

first-has_event :
    (e : TimeEvent) (es : List TimeEvent)
    → (has_event e.id (e ∷ es) ≡ true) × (unlink e.id (e ∷ es) ≡ es)
unfolding has_event unlink
first-has_event e es = ground arith

erase_node-temporary :
    (index : ℕ) (e : TimeEvent) (es : List TimeEvent) (s : TimeService)
    → s.temporary_quantum ≡ e ∷ es
    → erase_node (temporary index) e.id s ≡ record s { temporary_quantum = es }
unfolding erase_node
erase_node-temporary index e es s h = ground (arith, h, first-has_event e es)

-- What is left when the event of a store is cancelled.
Restored : TimeEvent → TimeService → TimeService → Type 0
Restored e s t =
    ((cancel e.id t).1 ≡ true)
    × SameQuanta s (cancel e.id t).0
    × (find (cancel e.id t).0.events e.id ≡ none)

restored :
    (place : Place) (e : TimeEvent) (s t : TimeService)
    → find t.events e.id ≡ some place
    → SameQuanta s (without_event place e.id t)
    → Restored e s t
unfolding Restored
restored place e s t p same =
    let out = cancel-some place e.id t p in
    (
      ap (λ o. o.1) out,
      subst (λ o. SameQuanta s o.0) (sym out) same,
      ap (λ o. find o.0.events e.id) out
          ∙ ground (arith, find-erase t.events e.id e.id, same_refl e.id),
    )

erased-SameQuanta :
    (now : ℕ) (e : TimeEvent) (s : TimeService)
    → SameQuanta s (
        without_event (at (index_of e s)) e.id (record s {
          time_table =
              set s.time_table (index_of e s) (stored now e ∷ slot s.time_table (index_of e s));
          events = assign s.events e.id (at (index_of e s));
        }))
unfolding erase_node
erased-SameQuanta now e s =
    (λ j. slot-restored (stored now e) s.time_table (index_of e s) j, refl, refl, refl)

store-Restored : (now : ℕ) (e : TimeEvent) (s : TimeService) → Restored e s (store now e s)
store-Restored now e s = elim (Bool-cases (index_of e s == s.current_quantum)) [
  | inl h ↦
      let t : TimeService = record s {
        temporary_quantum = stored now e ∷ s.temporary_quantum;
        events = assign s.events e.id (temporary (index_of e s));
      } in
      let gone = erase_node-temporary (index_of e s) (stored now e) s.temporary_quantum t refl in
      subst (Restored e s) (sym (store-temporary now e s h)) (
        restored (temporary (index_of e s)) e s t (find-assigned s.events e.id _) (
          (λ j. ap (λ u. slot u.time_table j) gone),
          ap (λ u. u.temporary_quantum) gone,
          ap (λ u. u.max_quantum) gone,
          ap (λ u. u.current_quantum) gone,
        ))
  | inr n ↦
      let t : TimeService = record s {
        time_table =
            set s.time_table (index_of e s) (stored now e ∷ slot s.time_table (index_of e s));
        events = assign s.events e.id (at (index_of e s));
      } in
      subst (Restored e s) (sym (store-at now e s n)) (
        restored (at (index_of e s)) e s t (find-assigned s.events e.id _)
          (erased-SameQuanta now e s))
]

-- The events that a list of nodes holds, in order.
abbrev pub ids : List TimeEvent → List ℕ
ids es = map (λ (e : TimeEvent). e.id) es

-- Cancelling an event that has just been activated undoes the activation: it succeeds, every quantum
-- holds the same events in the same order as before, whatever else waits there and even if older
-- nodes of the event do, and the event is not active. A second cancellation finds nothing to do.
pub cancel-activate :
    (now k : ℕ) (e : TimeEvent) (s t : TimeService)
    → activate now (some e) s ≡ ok t
    → ((cancel e.id t).1 ≡ true)
      × (ids (agenda (cancel e.id t).0 k) ≡ ids (agenda s k))
      × (cancel e.id (cancel e.id t).0 ≡ ((cancel e.id t).0, false))
unfolding Restored
cancel-activate now k e s t h =
    let same = (activate-ok now e s t (activate-running now e s t h) h).0 in
    let (done, quanta_same, gone) = subst (Restored e s) (sym same) (store-Restored now e s) in
    (done, ap ids (agenda-SameQuanta s (cancel e.id t).0 k quanta_same), cancel-none e.id _ gone)

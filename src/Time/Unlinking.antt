-- ===== src/Time/Unlinking.antt =====
-- time::TimeService::cancel: what it takes out of the agenda.
use coffee.Base.{
  false, some, Bool-cases, Option-cases, inl, inr, ◌⊎◌, find, ℕ, zero, suc, ◌+◌, ◌≡◌, refl, true,
  List, [], ◌∷◌, none, arith, set, ◌==◌, ltb, sym, ap, ◌∙◌, subst, erase, number_key,
}
use coffee.Time.Service.{
  Place, temporary, at, has_event, erase_node, TimeEvent, TimeService, slot, cancel, unlink,
}
use coffee.Time.Agenda.{wrap, agenda}

-- What becomes of a list when the node of an event goes: if it is there, it is taken out.
abbrev pub Unlinks : ℕ → List TimeEvent → List TimeEvent → Type 0
Unlinks id es es' = (es' ≡ es) ⊎ (es' ≡ unlink id es)

slot-unlink :
    (id : ℕ) (table : List (List TimeEvent)) (i j : ℕ)
    → Unlinks id (slot table j) (slot (set table i (unlink id (slot table i))) j)
slot-unlink id [] i j = inl refl
slot-unlink id (q ∷ table) zero zero = inr refl
slot-unlink id (q ∷ table) zero (suc j) = inl refl
slot-unlink id (q ∷ table) (suc i) zero = inl refl
slot-unlink id (q ∷ table) (suc i) (suc j) = slot-unlink id table i j

-- The agenda of a service whose quanta are replaced.
abbrev with_quanta : TimeService → List (List TimeEvent) → List TimeEvent → TimeService
with_quanta s table temporary_quantum = record s {
  time_table = table;
  temporary_quantum = temporary_quantum;
}

agenda-quanta :
    (id k : ℕ) (s : TimeService) (table : List (List TimeEvent)) (es : List TimeEvent)
    → ((j : ℕ) → Unlinks id (slot s.time_table j) (slot table j))
    → Unlinks id s.temporary_quantum es
    → Unlinks id (agenda s k) (agenda (with_quanta s table es) k)
unfolding agenda
agenda-quanta id k s table es slots temp = elim (Bool-cases (k == s.max_quantum)) [
  | inl e ↦ rw e temp
  | inr ne ↦ elim (Bool-cases (ltb k s.max_quantum)) [
    | inl l ↦ rw (ne, l) (slots (wrap s.max_quantum (s.current_quantum + k)))
    | inr nl ↦ rw (ne, nl) (inl refl)
  ]
]

agenda-erase_node :
    (place : Place) (id k : ℕ) (s : TimeService)
    → Unlinks id (agenda s k) (agenda (erase_node place id s) k)
unfolding erase_node
agenda-erase_node (at index) id k s =
    agenda-quanta id k s _ s.temporary_quantum (slot-unlink id s.time_table index) (inl refl)
agenda-erase_node (temporary index) id k s = elim (Bool-cases (has_event id s.temporary_quantum)) [
  | inl h ↦ rw h (agenda-quanta id k s s.time_table _ (λ j. inl refl) (inr refl))
  | inr n ↦
      rw n
        (agenda-quanta id k s _ s.temporary_quantum (slot-unlink id s.time_table index) (inl refl))
]

pub cancel-none : (id : ℕ) (s : TimeService) → find s.events id ≡ none → cancel id s ≡ (s, false)
unfolding cancel
cancel-none id s n = ground (arith, n)

-- What cancelling an active event leaves.
abbrev pub without_event : Place → ℕ → TimeService → TimeService
without_event place id s = record (erase_node place id s) { events = erase s.events id }

pub cancel-some :
    (place : Place) (id : ℕ) (s : TimeService)
    → find s.events id ≡ some place
    → cancel id s ≡ (without_event place id s, true)
unfolding cancel
cancel-some place id s p = ground (arith, p)

agenda-without_event :
    (place : Place) (id k : ℕ) (s : TimeService)
    → agenda (without_event place id s) k ≡ agenda (erase_node place id s) k
unfolding agenda
agenda-without_event place id k s = refl

-- Cancelling takes at most one node of the event out of each quantum, and moves nothing else.
pub agenda-cancel :
    (id k : ℕ) (s : TimeService) → Unlinks id (agenda s k) (agenda (cancel id s).0 k)
agenda-cancel id k s = elim (Option-cases (find s.events id)) [
  | inl n ↦ inl (ap (λ out. agenda out.0 k) (cancel-none id s n))
  | inr (place, p) ↦
      subst (Unlinks id (agenda s k))
        (sym (
          ap (λ out. agenda out.0 k) (cancel-some place id s p)
          ∙ agenda-without_event place id k s))
        (agenda-erase_node place id k s)
]

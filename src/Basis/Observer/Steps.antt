-- ===== src/Basis/Observer/Steps.antt =====
-- Several subjects that share their observers: each observer is attached to one of them at most.
use coffee.Base.{
  ℕ, ◌+◌, ◌≤◌, Bool, true, false, Option, none, some, ok, List, [], ◌∷◌, ◌++◌, Key, find, erase,
  All, if◌then◌else◌, ==_iff, ◌≡◌, refl, ap, sym, ◌∙◌, subst, arith, Option-cases, Bool-cases, inl,
  inr,
}
use coffee.Basis.Sizes.{DistinctKeys, erase-DistinctKeys}
use coffee.Basis.Observer.{Flags, set_subscribed, attach, attach_new, detach, detach_all}
use coffee.Basis.Observer.Attachments.{
  one_if, attachments, all_attachments, attachments-erase, all_attachments-insert, All-middle,
  All-without, subject_of, deleted_once,
}

-- The flags of the observers, and the subjects.
pub record Observed (N : Type 0) : Type 0 where
  pub subscribed : Flags
  pub subjects : List (List (N × ℕ))

module _ {N : Type 0} ⦃key : Key N⦄ (name_of : ℕ → N) where
  -- What a client can do: attach an observer to a subject, detach one, delete a subject, and make one.
  pub data Step (u v : Observed N) : Type 0 where
    attaches :
        (before after : List (List (N × ℕ))) (subject subject' : List (N × ℕ)) (observer : ℕ)
        → u.subjects ≡ before ++ subject ∷ after
        → (attach name_of observer u.subscribed subject).1 ≡ ok subject'
        → v.subscribed ≡ (attach name_of observer u.subscribed subject).0
        → v.subjects ≡ before ++ subject' ∷ after
        → Step u v
    detaches :
        (before after : List (List (N × ℕ))) (subject : List (N × ℕ)) (name : N)
        → u.subjects ≡ before ++ subject ∷ after
        → v.subscribed ≡ (detach name u.subscribed subject).0
        → v.subjects ≡ before ++ (detach name u.subscribed subject).1 ∷ after
        → Step u v
    deletes :
        (before after : List (List (N × ℕ))) (subject : List (N × ℕ))
        → u.subjects ≡ before ++ subject ∷ after
        → v.subscribed ≡ detach_all subject u.subscribed
        → v.subjects ≡ before ++ after
        → Step u v
    makes : v.subscribed ≡ u.subscribed → v.subjects ≡ [] ∷ u.subjects → Step u v

  pub data Run : Observed N → Observed N → Type 0 where
    stay : {w : Observed N} → Run w w
    go : {u v w : Observed N} → Step u v → Run v w → Run u w

  -- An observer is subscribed exactly if one subject has it, once, and no subject has two observers
  -- with the same name.
  pub record IsObserved (w : Observed N) : Type 0 where
    pub once : (i : ℕ) → all_attachments i w.subjects ≡ (if w.subscribed i then 1 else 0)
    pub distinct : All DistinctKeys w.subjects

  -- What attaching changes: nothing, or one observer that was not subscribed.
  attach_new-attachments :
      (observer i : ℕ) (f : Flags) (subject subject' : List (N × ℕ)) (found : Option ℕ)
      → (attach_new name_of observer f subject found).1 ≡ ok subject'
      → attachments i subject' + one_if (f i)
        ≡ attachments i subject + one_if ((attach_new name_of observer f subject found).0 i)
  unfolding attach_new attachments set_subscribed
  attach_new-attachments observer i f subject subject' (some o) h = ground arith
  attach_new-attachments observer i f subject subject' none h = elim (Bool-cases (f observer)) [
    | inl s ↦ ground arith
    | inr s ↦ ground (arith, ==_iff i observer)
  ]

  attach_new-DistinctKeys :
      (observer : ℕ) (f : Flags) (subject subject' : List (N × ℕ)) (found : Option ℕ)
      → find subject (name_of observer) ≡ found
      → (attach_new name_of observer f subject found).1 ≡ ok subject'
      → DistinctKeys subject
      → DistinctKeys subject'
  unfolding attach_new DistinctKeys
  attach_new-DistinctKeys observer f subject subject' (some o) e h d =
      (let same : subject ≡ subject' = ground arith in subst DistinctKeys same d)
  attach_new-DistinctKeys observer f subject subject' none e h d = elim (Bool-cases (f observer)) [
    | inl s ↦ ground arith
    | inr s ↦
        (let same : (name_of observer, observer) ∷ subject ≡ subject' = ground arith in
          subst DistinctKeys same (e, d))
  ]

  detach-attachments :
      (name : N) (i : ℕ) (f : Flags) (subject : List (N × ℕ))
      → DistinctKeys subject
      → attachments i subject ≤ one_if (f i)
      → attachments i (detach name f subject).1 + one_if (f i)
        ≡ attachments i subject + one_if ((detach name f subject).0 i)
  unfolding detach set_subscribed
  detach-attachments name i f subject d l = elim (Option-cases (find subject name)) [
    | inl n ↦ ground arith
    | inr (o, e) ↦ ground (arith, ==_iff i o, attachments-erase i name o subject d e)
  ]

  detach-DistinctKeys :
      (name : N) (f : Flags) (subject : List (N × ℕ))
      → DistinctKeys subject
      → DistinctKeys (detach name f subject).1
  unfolding detach
  detach-DistinctKeys name f subject d =
      elim (find subject name)
        as (λ o.
          DistinctKeys
            (elim o as (λ x. Flags × List (N × ℕ) × Bool) [
              | none ↦ (f, subject, false)
              | some observer ↦ (set_subscribed observer false f, erase subject name, true)
            ]).1) [ none ↦ d | some o ↦ erase-DistinctKeys subject name d ]

  step-IsObserved : (u v : Observed N) → Step u v → IsObserved u → IsObserved v
  unfolding all_attachments attachments attach_new attach DistinctKeys
  step-IsObserved u v (attaches before after subject subject' observer a b c e) h =
      let d = subst (All DistinctKeys) a h.distinct in
      record {
        once = λ i. omega (
          arith,
          h.once i,
          ap (all_attachments i) a,
          ap (all_attachments i) e,
          ap (λ f. one_if (f i)) c,
          all_attachments-insert i before after subject,
          all_attachments-insert i before after subject',
          attach_new-attachments observer i u.subscribed subject subject'
              (find subject (name_of observer)) b,
        );
        distinct = subst (All DistinctKeys) (sym e) (
            All-middle before after subject subject' d (
              attach_new-DistinctKeys observer u.subscribed subject subject'
                (find subject (name_of observer)) refl b));
      }
  step-IsObserved u v (detaches before after subject name a c e) h =
      let d = subst (All DistinctKeys) a h.distinct in
      let e1 = detach name u.subscribed subject in
      record {
        once = λ i.
            let room : attachments i subject ≤ one_if (u.subscribed i) = omega (
              arith,
              h.once i,
              ap (all_attachments i) a,
              all_attachments-insert i before after subject,
            ) in
            omega (
              arith,
              h.once i,
              ap (all_attachments i) a,
              ap (all_attachments i) e,
              ap (λ f. one_if (f i)) c,
              all_attachments-insert i before after subject,
              all_attachments-insert i before after e1.1,
              detach-attachments name i u.subscribed subject (subject_of before after subject d)
                  room,
            );
        distinct = subst (All DistinctKeys) (sym e) (
            All-middle before after subject e1.1 d (detach-DistinctKeys name u.subscribed subject));
      }
  step-IsObserved u v (deletes before after subject a c e) h = record {
    once = λ i.
        ap (all_attachments i) e
        ∙ (deleted_once i before after subject u.subscribed
              (ap (all_attachments i) (sym a) ∙ h.once i)
            ∙ ap (λ f. one_if (f i)) (sym c));
    distinct =
        subst (All DistinctKeys) (sym e)
          (All-without before after subject (subst (All DistinctKeys) a h.distinct));
  }
  step-IsObserved u v (makes c e) h = record {
    once = λ i. omega (arith, h.once i, ap (all_attachments i) e, ap (λ f. one_if (f i)) c);
    distinct = subst (All DistinctKeys) (sym e) (tt, h.distinct);
  }

  -- Whatever a client does with some subjects, attaching and detaching observers, deleting and making
  -- subjects, if at the start each observer is subscribed exactly if one of the subjects has it, once,
  -- and no subject has two observers with the same name, then this holds at the end: no observer is
  -- ever attached to two subjects, and none stays subscribed when its subject is deleted.
  pub Run-IsObserved : {u w : Observed N} → Run u w → IsObserved u → IsObserved w
  Run-IsObserved stay h = h
  Run-IsObserved (go s r) h = Run-IsObserved r (step-IsObserved _ _ s h)

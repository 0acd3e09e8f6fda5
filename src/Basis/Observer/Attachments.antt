-- ===== src/Basis/Observer/Attachments.antt =====
-- How often the subjects have an observer, and which flags deleting a subject leaves.
use coffee.Base.{
  ℕ, ◌+◌, Bool, false, some, List, [], ◌∷◌, ◌++◌, Key, find, erase, All, if◌then◌else◌, ◌==◌,
  ==_iff, ◌≡◌, ◌≢◌, refl, arith, Bool-cases, inl, inr,
}
use coffee.Basis.Sizes.{DistinctKeys, erase-none}
use coffee.Basis.Observer.{Flags, set_subscribed, detach_all}

abbrev pub one_if : Bool → ℕ
one_if b = if b then 1 else 0

module _ {N : Type 0} where
  -- How often a subject has the observer, and how often some subjects do.
  unfoldable pub attachments : ℕ → List (N × ℕ) → ℕ
  attachments i [] = 0
  attachments i ((name, observer) ∷ observers) = one_if (i == observer) + attachments i observers

  unfoldable pub all_attachments : ℕ → List (List (N × ℕ)) → ℕ
  all_attachments i [] = 0
  all_attachments i (subject ∷ subjects) = attachments i subject + all_attachments i subjects

  all_attachments-append :
      (i : ℕ) (xs ys : List (List (N × ℕ)))
      → all_attachments i (xs ++ ys) ≡ all_attachments i xs + all_attachments i ys
  unfolding all_attachments
  all_attachments-append i [] ys = omega arith
  all_attachments-append i (x ∷ xs) ys = omega (arith, all_attachments-append i xs ys)

  detach_all-kept :
      (i : ℕ) (observers : List (N × ℕ)) (subscribed : Flags)
      → attachments i observers ≡ 0
      → detach_all observers subscribed i ≡ subscribed i
  unfolding attachments detach_all set_subscribed
  detach_all-kept i [] f h = refl
  detach_all-kept i ((name, o) ∷ observers) f h =
      ground (arith, detach_all-kept i observers (set_subscribed o false f))

  detach_all-off :
      (i : ℕ) (observers : List (N × ℕ)) (subscribed : Flags)
      → subscribed i ≡ false
      → detach_all observers subscribed i ≡ false
  unfolding detach_all set_subscribed
  detach_all-off i [] f h = h
  detach_all-off i ((name, o) ∷ observers) f h =
      detach_all-off i observers (set_subscribed o false f) (ground arith)

  detach_all-detached :
      (i : ℕ) (observers : List (N × ℕ)) (subscribed : Flags)
      → attachments i observers ≢ 0
      → detach_all observers subscribed i ≡ false
  unfolding attachments detach_all set_subscribed
  detach_all-detached i [] f h = absurd (h refl)
  detach_all-detached i ((name, o) ∷ observers) f h = elim (Bool-cases (i == o)) [
    | inl e ↦ detach_all-off i observers (set_subscribed o false f) (ground arith)
    | inr e ↦ detach_all-detached i observers (set_subscribed o false f) (ground arith)
  ]

module _ {N : Type 0} ⦃key : Key N⦄ where
  pub attachments-erase :
      (i : ℕ) (name : N) (observer : ℕ) (observers : List (N × ℕ))
      → DistinctKeys observers
      → find observers name ≡ some observer
      → one_if (i == observer) + attachments i (erase observers name) ≡ attachments i observers
  unfolding attachments find erase DistinctKeys
  attachments-erase i name observer [] d h = cc
  attachments-erase i name observer ((n, o) ∷ observers) d h = ground (
    arith,
    key.same_iff name n,
    erase-none observers name,
    attachments-erase i name observer observers d.1,
    d.0,
  )

module _ {N : Type 0} where
  -- How one subject among others is counted.
  pub all_attachments-insert :
      (i : ℕ) (before after : List (List (N × ℕ))) (subject : List (N × ℕ))
      → all_attachments i (before ++ subject ∷ after)
        ≡ all_attachments i before + (attachments i subject + all_attachments i after)
  unfolding all_attachments
  all_attachments-insert i before after subject = all_attachments-append i before (subject ∷ after)

  -- A subject that is deleted has detached its observers.
  pub deleted_once :
      (i : ℕ) (before after : List (List (N × ℕ))) (subject : List (N × ℕ)) (f : Flags)
      → all_attachments i (before ++ subject ∷ after) ≡ one_if (f i)
      → all_attachments i (before ++ after) ≡ one_if (detach_all subject f i)
  deleted_once i before after subject f h =
      let parts = all_attachments-insert i before after subject in
      let others = all_attachments-append i before after in
      elim (Bool-cases (attachments i subject == 0)) [
        | inl z ↦
            let none : attachments i subject ≡ 0 = (==_iff (attachments i subject) 0).0 z in
            ground (arith, h, parts, others, none, detach_all-kept i subject f none)
        | inr z ↦
            let some_of : attachments i subject ≢ 0 =
              λ q. ground (arith, ==_iff (attachments i subject) 0) in
            ground (arith, h, parts, others, detach_all-detached i subject f some_of)
      ]

module _ {N : Type 0} ⦃key : Key N⦄ where
  pub All-middle :
      (before after : List (List (N × ℕ))) (subject subject' : List (N × ℕ))
      → All DistinctKeys (before ++ subject ∷ after)
      → (DistinctKeys subject → DistinctKeys subject')
      → All DistinctKeys (before ++ subject' ∷ after)
  All-middle [] after s s' (d, ds) h = (h d, ds)
  All-middle (b ∷ before) after s s' (d, ds) h = (d, All-middle before after s s' ds h)

  pub All-without :
      (before after : List (List (N × ℕ))) (subject : List (N × ℕ))
      → All DistinctKeys (before ++ subject ∷ after)
      → All DistinctKeys (before ++ after)
  All-without [] after s (d, ds) = ds
  All-without (b ∷ before) after s (d, ds) = (d, All-without before after s ds)

  pub subject_of :
      (before after : List (List (N × ℕ))) (subject : List (N × ℕ))
      → All DistinctKeys (before ++ subject ∷ after)
      → DistinctKeys subject
  subject_of [] after s (d, ds) = d
  subject_of (b ∷ before) after s (d, ds) = subject_of before after s ds

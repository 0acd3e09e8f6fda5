-- ===== src/Balance/ResourceList.antt =====
-- balance::Resource and balance::ResourceList: source/src/balance/ResourceList.cc. A call holds the
-- list's mutex from its first to its last access, so it is one step here. What `isAvailable`
-- answers is a field. An iterator is the position that it stands at, the end being the length.
use coffee.Base.{
  ℕ, suc, ◌+◌, ◌≡◌, refl, String, Bool, true, false, List, [], ◌∷◌, ◌++◌, Option, none, some,
  Result, ok, raise, arith, length, if◌then◌else◌, ◌==◌, text_key, Bool-cases, inl, inr,
}

pub data Error : Type 0 where
  empty_resource empty_list no_available null_strategy recursive invalid_range hidden no_range :
      Error
  out_of_fuel : Error

pub record Resource : Type 0 where
  pub name : String
  pub is_available : Bool

-- The loop of `add`.
unfoldable pub has_name : String → List Resource → Bool
has_name n [] = false
has_name n (r ∷ rs) = let rest = has_name n rs in if text_key.same r.name n then true else rest

-- A null pointer is refused; a name that is taken leaves the list as it is.
unfoldable pub add : List Resource → Option Resource → Result Error (List Resource × Bool)
add rs none = raise empty_resource
add rs (some r) = if has_name r.name rs then ok (rs, false) else ok (rs ++ r ∷ [], true)

unfoldable pub count_available_resources : List Resource → ℕ
count_available_resources [] = 0
count_available_resources (r ∷ rs) =
    (if r.is_available then 1 else 0) + count_available_resources rs

unfoldable pub next : List Resource → ℕ → ℕ
next rs ii = if suc ii == length rs then 0 else suc ii

-- `initialize` runs each resource's own method, and drops its exceptions.
unfoldable pub initialize : (Resource → Resource) → List Resource → List Resource
initialize method [] = []
initialize method (r ∷ rs) = method r ∷ initialize method rs

-- No two resources of the list have one name.
abbrev Distinct : List Resource → Type 0
Distinct [] = Unit {0}
Distinct (r ∷ rs) = (has_name r.name rs ≡ false) × Distinct rs

has_name-append :
    (n : String) (rs : List Resource) (r : Resource)
    → has_name n (rs ++ r ∷ []) ≡ (if has_name n rs then true else text_key.same r.name n)
unfolding has_name
has_name-append n [] r = ground arith
has_name-append n (q ∷ rs) r = ground (arith, has_name-append n rs r)

append-Distinct :
    (rs : List Resource) (r : Resource)
    → Distinct rs
    → has_name r.name rs ≡ false
    → Distinct (rs ++ r ∷ [])
unfolding has_name
append-Distinct [] r d h = (refl, tt)
append-Distinct (q ∷ rs) r d h = (
  ground (
    arith,
    has_name-append q.name rs r,
    text_key.same_iff r.name q.name,
    text_key.same_iff q.name r.name,
  ),
  append-Distinct rs r d.1 (ground arith),
)

-- Adding keeps the names distinct; it grows the list by the resource at the end if the name is
-- new, and returns the list as it was, with `false`, if it is taken. It never raises for a
-- resource that is not null.
add-Distinct :
    (rs : List Resource) (r : Resource)
    → Distinct rs
    → (rs' : List Resource) × (done : Bool) × (add rs (some r) ≡ ok (rs', done))
      × Distinct rs'
      × (has_name r.name rs' ≡ true)
      × (rs' ≡ (if done then rs ++ r ∷ [] else rs))
unfolding add
add-Distinct rs r d = elim (Bool-cases (has_name r.name rs)) [
  | inl old ↦ (rs, false, rw old, d, old, refl)
  | inr new ↦ (
    rs ++ r ∷ [],
    true,
    rw new,
    append-Distinct rs r d new,
    ground (arith, has_name-append r.name rs r, text_key.same_iff r.name r.name),
    refl,
  )
]

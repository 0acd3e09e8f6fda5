-- ===== src/Http/Headers.antt =====
-- Setting and reading the headers of a message.
use coffee.Base.{
  ℕ, zero, suc, ◌<◌, Option, none, some, ok, raise, List, [], ◌∷◌, ◌++◌, length, get_elem?, set,
  find, find-assign, get_elem?-set_self, get_elem?-set_ne, Bool, true, false, ◌≡◌, refl, ap, sym,
  ◌∙◌, subst, arith, if◌then◌else◌, Option-cases, Bool-cases, ℕ_discrete, inl, inr,
}
use coffee.Http.Bytes.{same_bytes, same_bytes_iff, bytes_key}
use coffee.Http.Message.{
  HttpHeader, HttpMessage, set_value, get_custom_header_value, set_value_at, insert_header,
  set_custom_header,
}

get_elem?_last : {A : Type 0} (xs : List A) (a : A) → get_elem? (xs ++ a ∷ []) (length xs) ≡ some a
get_elem?_last [] a = refl
get_elem?_last (x ∷ xs) a = get_elem?_last xs a

get_elem?-append :
    {A : Type 0} (xs ys : List A) (i : ℕ) {a : A}
    → get_elem? xs i ≡ some a
    → get_elem? (xs ++ ys) i ≡ some a
get_elem?-append [] ys i h = cc
get_elem?-append (x ∷ xs) ys zero h = h
get_elem?-append (x ∷ xs) ys (suc i) h = get_elem?-append xs ys i h

get_elem?-length :
    {A : Type 0} (xs : List A) (i : ℕ) {a : A} → get_elem? xs i ≡ some a → i < length xs
get_elem?-length [] i h = cc
get_elem?-length (x ∷ xs) zero h = omega arith
get_elem?-length (x ∷ xs) (suc i) h = omega (arith, get_elem?-length xs i h)

same_header :
    (xs : List HttpHeader) (i j : ℕ) {g h : HttpHeader}
    → get_elem? xs i ≡ some g
    → get_elem? xs j ≡ some h
    → i ≡ j
    → g ≡ h
same_header xs i j e f q = ground arith

differ :
    {g h : HttpHeader} {name other : List ℕ}
    → g ≡ h
    → g.name ≡ name
    → h.name ≡ other
    → same_bytes other name ≡ false
    → ⊥
differ {name = name} {other = other} q e f s = ground (arith, same_bytes_iff other name)

module _ {Url : Type 0} where
  -- Each entry of the directory is the position of the header of that name.
  unfoldable pub Linked : HttpMessage Url → Type 0
  Linked m =
      (name : List ℕ) (i : ℕ)
      → find m.directory name ≡ some i
      → (h : HttpHeader) × (get_elem? m.sequential_headers i ≡ some h) × (h.name ≡ name)

  -- The value of a header, empty if there is none.
  unfoldable pub current_value : HttpMessage Url → List ℕ → List ℕ
  current_value m name = elim (get_custom_header_value m name) [ raise e ↦ [] | ok value ↦ value ]

  insert_header-Linked :
      (type : Option ℕ) (name value : List ℕ) (m : HttpMessage Url)
      → Linked m
      → Linked (insert_header type name value m)
  unfolding Linked insert_header
  insert_header-Linked type name value m k other i h =
      let r : HttpHeader = record { type = type; name = name; value = set_value [] value } in
      let xs = m.sequential_headers in
      let looked = find-assign m.directory name other (length xs) in
      elim (Bool-cases (same_bytes other name)) [
        | inl e ↦ (
          r,
          subst (λ j. get_elem? (xs ++ r ∷ []) j ≡ some r)
              (is_last (find m.directory other) looked e h) (get_elem?_last xs r),
          sym ((same_bytes_iff other name).0 e),
        )
        | inr e ↦
            let (old, at, named) = k other i (ground (arith, looked)) in
            (old, get_elem?-append xs (r ∷ []) i at, named)
      ]
    where
      is_last :
          {n : ℕ} {found : Option ℕ} (old : Option ℕ) {test : Bool}
          → found ≡ (if test then some n else old)
          → test ≡ true
          → found ≡ some i
          → n ≡ i
      is_last old e t f = ground arith

  insert_header-get :
      (type : Option ℕ) (name value other : List ℕ) (m : HttpMessage Url)
      → Linked m
      → get_custom_header_value (insert_header type name value m) other
        ≡ (if same_bytes other name then ok value else get_custom_header_value m other)
  unfolding Linked insert_header get_custom_header_value set_value
  insert_header-get type name value other m k = elim (Option-cases (find m.directory other)) [
    | inl n ↦ ground (
      arith,
      find-assign m.directory name other (length m.sequential_headers),
      get_elem?_last m.sequential_headers (record { type = type; name = name; value = value }),
    )
    | inr (i, h) ↦
        let (old, at, named) = k other i h in
        ground (
          arith,
          find-assign m.directory name other (length m.sequential_headers),
          get_elem?_last m.sequential_headers (record { type = type; name = name; value = value }),
          get_elem?-append m.sequential_headers
              (record { type = type; name = name; value = value } ∷ []) i at,
        )
  ]

  set_value_at-none :
      (i : ℕ) (value : List ℕ) (m : HttpMessage Url)
      → get_elem? m.sequential_headers i ≡ none
      → set_value_at i value m ≡ m
  unfolding set_value_at
  set_value_at-none i value m h = simp (set_value_at, h)

  set_value_at-some :
      (i : ℕ) (value : List ℕ) (m : HttpMessage Url) (r : HttpHeader)
      → get_elem? m.sequential_headers i ≡ some r
      → set_value_at i value m ≡ record m {
        sequential_headers =
            set m.sequential_headers i (record r { value = set_value r.value value });
      }
  unfolding set_value_at
  set_value_at-some i value m r h = simp (set_value_at, h)

  set_value_at-Linked :
      (i : ℕ) (value : List ℕ) (m : HttpMessage Url) → Linked m → Linked (set_value_at i value m)
  unfolding Linked set_value_at
  set_value_at-Linked i value m k other j h =
      elim (Option-cases (get_elem? m.sequential_headers i)) [
        | inl n ↦
            subst
              (λ t.
                (g : HttpHeader) × (get_elem? t.sequential_headers j ≡ some g) × (g.name ≡ other))
              (sym (set_value_at-none i value m n)) (k other j (ground arith))
        | inr (r, e) ↦
            subst
              (λ t.
                (g : HttpHeader) × (get_elem? t.sequential_headers j ≡ some g) × (g.name ≡ other))
              (sym (set_value_at-some i value m r e))
              (let r' : HttpHeader = record r { value = set_value r.value value } in
                let (g, at, named) = k other j (ground arith) in
                elim (ℕ_discrete i j) [
                  | yes q ↦ (
                    r',
                    subst (λ x. get_elem? (set m.sequential_headers i r') x ≡ some r') q
                        (get_elem?-set_self m.sequential_headers i r'
                          (get_elem?-length m.sequential_headers i e)),
                    ap (λ x. x.name) (same_header m.sequential_headers i j e at q) ∙ named,
                  )
                  | no q ↦ (g, get_elem?-set_ne m.sequential_headers i j r' q ∙ at, named)
                ])
      ]

  set_value_at-get :
      (i : ℕ) (name value other : List ℕ) (m : HttpMessage Url)
      → Linked m
      → find m.directory name ≡ some i
      → get_custom_header_value (set_value_at i value m) other ≡ (
          if same_bytes other name
          then ok (set_value (current_value m name) value)
          else get_custom_header_value m other)
  unfolding Linked set_value_at get_custom_header_value current_value
  set_value_at-get i name value other m k at =
      let (h, found, named) = k name i at in
      let h' : HttpHeader = record h { value = set_value h.value value } in
      elim (Bool-cases (same_bytes other name)) [
        | inl e ↦ ground (
          arith,
          same_bytes_iff other name,
          get_elem?-set_self m.sequential_headers i h'
              (get_elem?-length m.sequential_headers i found),
        )
        | inr e ↦ elim (Option-cases (find m.directory other)) [
          | inl n ↦ ground arith
          | inr (j, f) ↦
              let (g, at_j, g_named) = k other j f in
              ground (
                arith,
                same_bytes_iff other name,
                get_elem?-set_ne m.sequential_headers i j h' (λ q.
                    differ (same_header m.sequential_headers i j found at_j q) named g_named e),
              )
        ]
      ]

  set_custom_header-none :
      (name value : List ℕ) (m : HttpMessage Url)
      → find m.directory name ≡ none
      → set_custom_header name value m ≡ insert_header none name value m
  unfolding set_custom_header
  set_custom_header-none name value m n = simp (set_custom_header, n)

  set_custom_header-some :
      (name value : List ℕ) (m : HttpMessage Url) (i : ℕ)
      → find m.directory name ≡ some i
      → set_custom_header name value m ≡ set_value_at i value m
  unfolding set_custom_header
  set_custom_header-some name value m i n = simp (set_custom_header, n)

  current_value-none :
      (name : List ℕ) (m : HttpMessage Url)
      → find m.directory name ≡ none
      → (value : List ℕ) → set_value (current_value m name) value ≡ value
  unfolding current_value get_custom_header_value set_value
  current_value-none name m n value = ground arith

  -- If each entry of the directory is the position of the header of that name, this is so after
  -- `setCustomHeader`; then a read of that header returns its old value and the new one, parted by a
  -- comma if the old one is not empty, and a read of any other header returns what it did.
  pub set_custom_header-get :
      (name value other : List ℕ) (m : HttpMessage Url)
      → Linked m
      → Linked (set_custom_header name value m)
        × (get_custom_header_value (set_custom_header name value m) other ≡ (
            if same_bytes other name
            then ok (set_value (current_value m name) value)
            else get_custom_header_value m other))
  unfolding set_custom_header
  set_custom_header-get name value other m k = elim (Option-cases (find m.directory name)) [
    | inl n ↦
        subst
          (λ t.
            Linked t
            × (get_custom_header_value t other ≡ (
                if same_bytes other name
                then ok (set_value (current_value m name) value)
                else get_custom_header_value m other)))
          (sym (set_custom_header-none name value m n))
          (
            insert_header-Linked none name value m k,
            insert_header-get none name value other m k
                ∙ ap (λ v. if same_bytes other name then ok v else get_custom_header_value m other)
                    (sym (current_value-none name m n value)),
          )
    | inr (i, n) ↦
        subst
          (λ t.
            Linked t
            × (get_custom_header_value t other ≡ (
                if same_bytes other name
                then ok (set_value (current_value m name) value)
                else get_custom_header_value m other)))
          (sym (set_custom_header-some name value m i n))
          (set_value_at-Linked i value m k, set_value_at-get i name value other m k n)
  ]

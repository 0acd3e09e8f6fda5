-- ===== src/Http/Lists.antt =====
-- The headers of a message that the decoder builds from different ones.
use coffee.Base.{
  ℕ, none, some, List, [], ◌∷◌, ◌++◌, length, All, find, assign, find-assign, false, ◌≡◌, refl, ap,
  sym, ◌∙◌, arith, append-nil, append_assoc,
}
use coffee.Http.Bytes.{bytes_key, same_bytes, same_bytes_iff, index_of, header_names, c_str}
use coffee.Http.Message.{
  HttpHeader, HttpMessage, set_custom_header, insert_header, set_value, set_value_at,
}
use coffee.Http.Bodies.{IsCustom, set_all}

-- No header has the name.
abbrev pub Lacks : List ℕ → List HttpHeader → Type 0
Lacks name hs = All (λ h. same_bytes name h.name ≡ false) hs

-- The headers are of the type `Custom`, and no two of them have the same name.
unfoldable pub AreDistinct : List HttpHeader → Type 0
AreDistinct [] = Unit
AreDistinct (h ∷ hs) = (h.type ≡ none) × Lacks h.name hs × AreDistinct hs

module _ {Url : Type 0} where
  -- The message has no header of these names.
  abbrev pub AllNew : List HttpHeader → HttpMessage Url → Type 0
  AllNew hs m = All (λ h. find m.directory h.name ≡ none) hs

  -- The message with a new header at the end.
  abbrev pub added : HttpHeader → HttpMessage Url → HttpMessage Url
  added h m = record m {
    sequential_headers = m.sequential_headers ++ h ∷ [];
    directory = assign m.directory h.name (length m.sequential_headers);
  }

  set_custom_header-added :
      (h : HttpHeader) (m : HttpMessage Url)
      → h.type ≡ none
      → find m.directory h.name ≡ none
      → set_custom_header h.name h.value m ≡ added h m
  unfolding set_custom_header insert_header set_value
  set_custom_header-added h m t n = ground (arith, t, n)

  added-AllNew :
      (h : HttpHeader) (hs : List HttpHeader) (m : HttpMessage Url)
      → Lacks h.name hs
      → AllNew hs m
      → AllNew hs (added h m)
  added-AllNew h [] m l a = tt
  added-AllNew h (g ∷ hs) m l a = (
    ground (
      arith,
      find-assign m.directory h.name g.name (length m.sequential_headers),
      same_bytes_iff h.name g.name,
      same_bytes_iff g.name h.name,
      l.0,
      a.0,
    ),
    added-AllNew h hs m l.1 a.1,
  )

  -- The headers that are set are the message's, in their order.
  pub headers-set_all :
      (hs : List HttpHeader) (m : HttpMessage Url)
      → AreDistinct hs
      → AllNew hs m
      → (set_all hs m).sequential_headers ≡ m.sequential_headers ++ hs
  unfolding set_all AreDistinct
  headers-set_all [] m d a = sym (append-nil m.sequential_headers)
  headers-set_all (h ∷ hs) m (t, l, d) a =
      ap (λ x. (set_all hs x).sequential_headers) (set_custom_header-added h m t a.0)
      ∙ (headers-set_all hs (added h m) d (added-AllNew h hs m l a.1)
          ∙ append_assoc m.sequential_headers (h ∷ []) hs)

  pub find-set_all :
      (hs : List HttpHeader) (m : HttpMessage Url) (name : List ℕ)
      → AreDistinct hs
      → AllNew hs m
      → Lacks name hs
      → find m.directory name ≡ none
      → find (set_all hs m).directory name ≡ none
  unfolding set_all AreDistinct
  find-set_all [] m name d a l n = n
  find-set_all (h ∷ hs) m name (t, k, d) a l n =
      ap (λ x. find (set_all hs x).directory name) (set_custom_header-added h m t a.0)
      ∙ find-set_all hs (added h m) name d (added-AllNew h hs m k a.1) l.1 (
          ground (arith, find-assign m.directory h.name name (length m.sequential_headers), l.0, n))

  -- What setting a header does not change.
  abbrev pub Same : HttpMessage Url → HttpMessage Url → Type 0
  Same a b =
      (a.first_line ≡ b.first_line)
      × (a.major_version ≡ b.major_version)
      × (a.minor_version ≡ b.minor_version)
      × (a.body ≡ b.body)

  set_custom_header-Same :
      (name value : List ℕ) (m : HttpMessage Url) → Same (set_custom_header name value m) m
  unfolding set_custom_header insert_header set_value_at
  set_custom_header-Same name value m = ground arith

  pub set_all-Same : (hs : List HttpHeader) (m : HttpMessage Url) → Same (set_all hs m) m
  unfolding set_all
  set_all-Same [] m = (refl, refl, refl, refl)
  set_all-Same (h ∷ hs) m =
      let (f, a, b, c) = set_custom_header-Same h.name h.value m in
      let (f', a', b', c') = set_all-Same hs (set_custom_header h.name h.value m) in
      (f' ∙ f, a' ∙ a, b' ∙ b, c' ∙ c)

-- A custom header's name is not that of a standard type.
custom-lacks :
    (name : List ℕ) (i : ℕ) (h : HttpHeader)
    → index_of (c_str name) header_names ≡ some i
    → IsCustom h
    → same_bytes name h.name ≡ false
custom-lacks name i h e c = ground (arith, same_bytes_iff name h.name, c.not_standard)

pub customs-lack :
    (name : List ℕ) (i : ℕ) (hs : List HttpHeader)
    → index_of (c_str name) header_names ≡ some i
    → All IsCustom hs
    → Lacks name hs
customs-lack name i [] e a = tt
customs-lack name i (h ∷ hs) e a = (custom-lacks name i h e a.0, customs-lack name i hs e a.1)

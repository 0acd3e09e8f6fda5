-- ===== src/Http/Url/Lookups.antt =====
-- The text of each component, in the text of the URL and after the parser has added it.
use coffee.Base.{
  ℕ, Option, none, some, List, [], ◌∷◌, ◌++◌, Bool, true, false, ◌||◌, find, find-assign,
  if◌then◌else◌, ◌≡◌, ◌≢◌, refl, ap, sym, ◌∙◌, arith, append-nil, append_assoc, Option-cases, inl,
  inr,
}
use coffee.Http.Bytes.{bytes}
use coffee.Http.Url.{
  ComponentName, name_key, scheme, user, password, host, port, path, fragment, Url, has_component,
  write_component, write_query, encode,
}
use coffee.Http.Url.Parser.{add_optional_component}
use coffee.Http.Url.Authority.{prefixed, marked, information, end_point, authority}

-- The text of a component, empty if the URL does not have it.
unfoldable pub text_of : ComponentName → Url → List ℕ
text_of c url = elim (find url.components c) [ none ↦ [] | some value ↦ value ]

-- No component is empty.
abbrev pub IsFilled : Url → Type 0
IsFilled url = (c : ComponentName) → find url.components c ≢ some []

abbrev pub over : List ℕ → Option (List ℕ) → Option (List ℕ)
over [] old = old
over (c ∷ cs) old = some (c ∷ cs)

pub find-add_optional_component :
    (name j : ComponentName) (text : List ℕ) (parser : Url)
    → find (add_optional_component name text parser).components j ≡ (
        if name_key.same j name
        then over text (find parser.components j)
        else find parser.components j)
unfolding add_optional_component
find-add_optional_component name j [] parser = ground arith
find-add_optional_component name j (c ∷ cs) parser =
    ground (arith, find-assign parser.components name j (c ∷ cs))

pub query-add_optional_component :
    (name : ComponentName) (text : List ℕ) (parser : Url)
    → (add_optional_component name text parser).query ≡ parser.query
unfolding add_optional_component
query-add_optional_component name [] parser = refl
query-add_optional_component name (c ∷ cs) parser = refl

pub over-text_of :
    (c : ComponentName) (url : Url)
    → IsFilled url
    → over (text_of c url) none ≡ find url.components c
unfolding text_of
over-text_of c url h = elim (Option-cases (find url.components c)) [
  | inl n ↦ ground arith
  | inr ([], e) ↦ absurd (h c e)
  | inr (x ∷ xs, e) ↦ ground arith
]

write_component-text_of :
    (c : ComponentName) (url : Url) → write_component [] c [] url ≡ text_of c url
unfolding write_component text_of
write_component-text_of c url = elim (Option-cases (find url.components c)) [
  | inl n ↦ ground arith
  | inr (value, e) ↦ ground (arith, append-nil value)
]

write_component-prefixed :
    (c : ComponentName) (url : Url)
    → IsFilled url
    → write_component (bytes ":") c [] url ≡ prefixed 58 (text_of c url)
unfolding write_component text_of prefixed
write_component-prefixed c url h = elim (Option-cases (find url.components c)) [
  | inl n ↦ ground arith
  | inr ([], e) ↦ absurd (h c e)
  | inr (x ∷ xs, e) ↦ ground (arith, append-nil (x ∷ xs))
]

unfoldable some_text : List ℕ → Bool
some_text [] = false
some_text (c ∷ cs) = true

has_component-text_of :
    (c : ComponentName) (url : Url) → IsFilled url → has_component c url ≡ some_text (text_of c url)
unfolding has_component text_of some_text
has_component-text_of c url h = elim (Option-cases (find url.components c)) [
  | inl n ↦ ground arith
  | inr ([], e) ↦ absurd (h c e)
  | inr (x ∷ xs, e) ↦ ground arith
]

-- The texts of the authority, one after the other.
authority-written :
    (name secret host_name number rest : List ℕ)
    → name
        ++ (prefixed 58 secret
            ++ ((if some_text name || some_text secret then bytes "@" else [])
                ++ (host_name ++ (prefixed 58 number ++ rest))))
      ≡ authority name secret host_name number ++ rest
unfolding some_text authority marked information end_point prefixed
authority-written [] [] host_name number rest =
    sym (append_assoc host_name (prefixed 58 number) rest)
authority-written (c ∷ cs) secret host_name number rest = simp (append_assoc)
authority-written [] (c ∷ cs) host_name number rest = simp (append_assoc)

-- What follows the authority.
unfoldable pub tail_text : Url → List ℕ
tail_text url = text_of path url ++ (write_query url.query ++ text_of fragment url)

pub encode-authority :
    (url : Url)
    → IsFilled url
    → encode url
      ≡ write_component [] scheme (bytes "://") url
        ++ (authority
              (text_of user url)
              (text_of password url)
              (text_of host url)
              (text_of port url)
            ++ tail_text url)
unfolding encode tail_text
encode-authority url h = simp (
  write_component-text_of user url,
  write_component-prefixed password url h,
  has_component-text_of user url h,
  has_component-text_of password url h,
  write_component-text_of host url,
  write_component-prefixed port url h,
  write_component-text_of path url,
  write_component-text_of fragment url,
  authority-written (text_of user url) (text_of password url) (text_of host url) (text_of port url)
      (tail_text url),
)

scheme-written :
    (url : Url)
    → IsFilled url
    → text_of scheme url ≢ []
    → write_component [] scheme (bytes "://") url ≡ text_of scheme url ++ 58 ∷ 47 ∷ 47 ∷ []
unfolding write_component text_of
scheme-written url h n = elim (Option-cases (find url.components scheme)) [
  | inl e ↦ absurd (n (ground arith))
  | inr (value, e) ↦ ground arith
]

-- The text of a URL that has a scheme.
pub encode-absolute :
    (url : Url)
    → IsFilled url
    → text_of scheme url ≢ []
    → encode url
      ≡ text_of scheme url
        ++ 58
          ∷ 47
          ∷ 47
          ∷ (authority
                (text_of user url)
                (text_of password url)
                (text_of host url)
                (text_of port url)
              ++ tail_text url)
encode-absolute url h n =
    let rest =
      authority (text_of user url) (text_of password url) (text_of host url) (text_of port url)
      ++ tail_text url in
    encode-authority url h
    ∙ (ap (λ t. t ++ rest) (scheme-written url h n)
        ∙ append_assoc (text_of scheme url) (58 ∷ 47 ∷ 47 ∷ []) rest)

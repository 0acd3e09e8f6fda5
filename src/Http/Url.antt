-- ===== src/Http/Url.antt =====
-- source/src/http/url and source/include/coffee/http/url: the components and the query of a URL, its
-- text, and how one is built from its components.
pub mod Texts
pub mod Parser
mod Lookups
mod Authority
mod Queries
pub mod RoundTrip
mod Relative
mod Tests
use coffee.Base.{
  ℕ, zero, suc, Option, none, some, Result, ok, raise, List, [], ◌∷◌, ◌++◌, Bool, true, false, ◌||◌,
  ◌==◌, ==_iff, Key, find, assign, if◌then◌else◌, ◌≡◌, ◌↔◌, refl, ap, sym, ◌∙◌,
}
use coffee.Http.Bytes.{bytes}

pub data ComponentName : Type 0 where
  scheme user password host port path fragment : ComponentName

abbrev pub name_index : ComponentName → ℕ
name_index scheme = 0
name_index user = 1
name_index password = 2
name_index host = 3
name_index port = 4
name_index path = 5
name_index fragment = 6

abbrev name_at : List ComponentName → ℕ → ComponentName
name_at [] i = fragment
name_at (name ∷ names) zero = name
name_at (name ∷ names) (suc i) = name_at names i

abbrev name_of : ℕ → ComponentName
name_of i = name_at (scheme ∷ user ∷ password ∷ host ∷ port ∷ path ∷ fragment ∷ []) i

name_of-name_index : (c : ComponentName) → name_of (name_index c) ≡ c
name_of-name_index scheme = refl
name_of-name_index user = refl
name_of-name_index password = refl
name_of-name_index host = refl
name_of-name_index port = refl
name_of-name_index path = refl
name_of-name_index fragment = refl

pub same_name_iff : (c d : ComponentName) → (name_index c == name_index d ≡ true) ↔ (c ≡ d)
same_name_iff c d = (
  λ e.
      sym (name_of-name_index c)
      ∙ (ap name_of ((==_iff (name_index c) (name_index d)).0 e) ∙ name_of-name_index d),
  λ e. (==_iff (name_index c) (name_index d)).1 (ap name_index e),
)

instance abbrev pub name_key : Key ComponentName
name_key = record { same = λ c d. name_index c == name_index d; same_iff = same_name_iff }

-- `URLParser` and `URLBuilder` throw; `needs` is an exception of `URLBuilder::build`.
pub data UrlError : Type 0 where
  no_component : ComponentName → UrlError
  port_not_numeric : List ℕ → UrlError
  empty_key : List ℕ → UrlError
  already_defined : ComponentName → UrlError
  needs : ComponentName → UrlError

pub record Url : Type 0 where
  pub components : List (ComponentName × List ℕ)
  pub query : List (List ℕ × List ℕ)

unfoldable pub get_component : ComponentName → Url → Result UrlError (List ℕ)
get_component c url = elim (find url.components c) [
  | none ↦ raise (no_component c)
  | some value ↦ ok value
]

unfoldable pub has_component : ComponentName → Url → Bool
has_component c url = elim (find url.components c) [ none ↦ false | some value ↦ true ]

-- The text of a component that the URL has, between two others.
unfoldable pub write_component : List ℕ → ComponentName → List ℕ → Url → List ℕ
write_component before c after url = elim (find url.components c) [
  | none ↦ []
  | some value ↦ before ++ (value ++ after)
]

unfoldable pub write_pair : List ℕ × List ℕ → List ℕ
write_pair (key, []) = key
write_pair (key, c ∷ cs) = key ++ 61 ∷ c ∷ cs

unfoldable pub write_others : List (List ℕ × List ℕ) → List ℕ
write_others [] = []
write_others (pair ∷ pairs) = 38 ∷ write_pair pair ++ write_others pairs

unfoldable pub write_query : List (List ℕ × List ℕ) → List ℕ
write_query [] = []
write_query (pair ∷ pairs) = 63 ∷ write_pair pair ++ write_others pairs

unfoldable pub encode : Url → List ℕ
encode url =
    write_component [] scheme (bytes "://") url
    ++ (write_component [] user [] url
        ++ (write_component (bytes ":") password [] url
            ++ ((if has_component user url || has_component password url then bytes "@" else [])
                ++ (write_component [] host [] url
                    ++ (write_component (bytes ":") port [] url
                        ++ (write_component [] path [] url
                            ++ (write_query url.query ++ write_component [] fragment [] url)))))))

-- `URLBuilder::setCompoment`.
unfoldable pub set_component : ComponentName → List ℕ → Url → Result UrlError Url
set_component c value builder = elim (find builder.components c) [
  | some _ ↦ raise (already_defined c)
  | none ↦ ok (record builder { components = assign builder.components c value })
]

unfoldable pub add_key_value : List ℕ → List ℕ → Url → Url
add_key_value key value builder = record builder { query = builder.query ++ (key, value) ∷ [] }

-- `URLBuilder::build`.
unfoldable pub build : Url → Result UrlError Url
build builder =
    if has_component scheme builder
    then (if has_component host builder then ok builder else raise (needs host))
    else raise (needs scheme)

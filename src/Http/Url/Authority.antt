-- ===== src/Http/Url/Authority.antt =====
-- What the parser reads of an authority that is written.
use coffee.Base.{
  ℕ, ok, List, [], ◌∷◌, ◌++◌, Bool, true, false, ◌&&◌, ◌==◌, ◌≡◌, ◌⊎◌, inl, inr, refl, ap, sym, ◌∙◌,
  arith, length, ◌≤◌, append-nil, append_assoc,
}
use coffee.Http.Bytes.{separate, is_numeric, all_digits, is_digit}
use coffee.Http.Url.{ComponentName, host, port, user, password, name_key, Url}
use coffee.Http.Url.Parser.{
  add_mandatory_component, add_optional_component, verify_port_is_numeric, read_end_point,
  read_user_information, read_token,
}
use coffee.Http.Url.Texts.{
  all_digits-lacks, lacks, lacks-append, separate-lacks, separate-delim, has_from-lacks,
  has_from-append,
}

-- The text after a byte, if there is one.
unfoldable pub prefixed : ℕ → List ℕ → List ℕ
prefixed delim [] = []
prefixed delim (c ∷ cs) = delim ∷ c ∷ cs

unfoldable pub is_port : List ℕ → Bool
is_port [] = true
is_port (c ∷ cs) = all_digits (c ∷ cs)

unfoldable pub information : List ℕ → List ℕ → List ℕ
information name secret = name ++ prefixed 58 secret

unfoldable pub end_point : List ℕ → List ℕ → List ℕ
end_point name number = name ++ prefixed 58 number

unfoldable pub marked : List ℕ → List ℕ
marked [] = []
marked (c ∷ cs) = (c ∷ cs) ++ 64 ∷ []

unfoldable pub authority : List ℕ → List ℕ → List ℕ → List ℕ → List ℕ
authority name secret host_name number =
    marked (information name secret) ++ end_point host_name number

separate-prefixed :
    (xs ys : List ℕ) → lacks 58 xs ≡ true → separate (xs ++ prefixed 58 ys) 58 ≡ (xs, ys)
unfolding prefixed
separate-prefixed xs [] h = ap (λ t. separate t 58) (append-nil xs) ∙ separate-lacks 58 xs h
separate-prefixed xs (y ∷ ys) h = separate-delim 58 xs (y ∷ ys) h

read_user_information-written :
    (name secret : List ℕ) (parser : Url)
    → lacks 58 name ≡ true
    → read_user_information (information name secret) parser
      ≡ add_optional_component password secret (add_optional_component user name parser)
unfolding read_user_information information
read_user_information-written name secret parser h =
    ap (λ t. add_optional_component password t.1 (add_optional_component user t.0 parser))
      (separate-prefixed name secret h)

verify-is_port :
    (number : List ℕ) → is_port number ≡ true → verify_port_is_numeric number ≡ ok number
unfolding is_port verify_port_is_numeric is_numeric
verify-is_port [] h = refl
verify-is_port (c ∷ cs) h = ground arith

-- A component that is not empty.
pub add_mandatory_component-optional :
    (name : ComponentName) (text : List ℕ) (parser : Url)
    → 1 ≤ length text
    → add_mandatory_component name text parser ≡ ok (add_optional_component name text parser)
unfolding add_mandatory_component add_optional_component
add_mandatory_component-optional name [] parser h = absurd (omega (arith, h))
add_mandatory_component-optional name (c ∷ cs) parser h = refl

read_end_point-written :
    (name number : List ℕ) (parser : Url)
    → lacks 58 name ≡ true
    → 1 ≤ length name
    → is_port number ≡ true
    → read_end_point (end_point name number) parser
      ≡ ok (add_optional_component port number (add_optional_component host name parser))
unfolding read_end_point end_point
read_end_point-written name number parser h l d = ground (
  arith,
  separate-prefixed name number h,
  add_mandatory_component-optional host name parser l,
  verify-is_port number d,
)

-- What the parser makes of the parts of an authority.
unfoldable pub with_authority : List ℕ → List ℕ → List ℕ → List ℕ → Url → Url
with_authority name secret host_name number parser = add_optional_component port number (
    add_optional_component host host_name
      (add_optional_component password secret (add_optional_component user name parser)))

-- The parts can be told apart in the authority's text, of which the parser looks for the `@` from
-- the third byte on.
pub record IsAuthority (name secret host_name number : List ℕ) : Type 0 where
  pub user : lacks 58 name && lacks 64 name ≡ true
  pub password : lacks 64 secret ≡ true
  pub host : lacks 58 host_name && lacks 64 host_name ≡ true
  pub some_host : 1 ≤ length host_name
  pub port : is_port number ≡ true
  pub length_of : (information name secret ≡ []) ⊎ (2 ≤ length (information name secret))

lacks-prefixed :
    (delim : ℕ) (cs : List ℕ)
    → (58 == delim) ≡ false
    → lacks delim cs ≡ true
    → lacks delim (prefixed 58 cs) ≡ true
unfolding lacks prefixed
lacks-prefixed delim [] n h = refl
lacks-prefixed delim (c ∷ cs) n h = ground arith

port-lacks :
    (delim : ℕ) (number : List ℕ)
    → is_digit delim ≡ false
    → (58 == delim) ≡ false
    → is_port number ≡ true
    → lacks delim (prefixed 58 number) ≡ true
unfolding is_port prefixed lacks
port-lacks delim [] n m h = refl
port-lacks delim (c ∷ cs) n m h = ground (arith, all_digits-lacks delim (c ∷ cs) n)

no_information : (name secret : List ℕ) → information name secret ≡ [] → (name ≡ []) × (secret ≡ [])
unfolding information prefixed
no_information [] [] h = (refl, refl)
no_information [] (c ∷ cs) h = cc
no_information (c ∷ cs) secret h = cc

read_token-end_point :
    (host_name number : List ℕ) (parser : Url)
    → lacks 58 host_name && lacks 64 host_name ≡ true
    → 1 ≤ length host_name
    → is_port number ≡ true
    → read_token 2 (end_point host_name number) parser
      ≡ ok (add_optional_component port number (add_optional_component host host_name parser))
unfolding read_token end_point is_digit
read_token-end_point host_name number parser h l d = ground (
  arith,
  has_from-lacks 2 64 (end_point host_name number),
  lacks-append 64 host_name (prefixed 58 number),
  port-lacks 64 number refl refl d,
  read_end_point-written host_name number parser,
)

read_token-information :
    (name secret host_name number : List ℕ) (parser : Url)
    → IsAuthority name secret host_name number
    → 2 ≤ length (information name secret)
    → read_token 2 (information name secret ++ 64 ∷ end_point host_name number) parser
      ≡ ok (with_authority name secret host_name number parser)
unfolding read_token with_authority information
read_token-information name secret host_name number parser h l = ground (
  arith,
  h.host,
  h.some_host,
  h.port,
  h.user,
  h.password,
  has_from-append 2 64 (information name secret) (end_point host_name number),
  separate-delim 64 (information name secret) (end_point host_name number),
  lacks-append 64 name (prefixed 58 secret),
  lacks-prefixed 64 secret refl h.password,
  read_user_information-written name secret parser,
  read_end_point-written host_name number (read_user_information (information name secret) parser),
)

marked-append : (text ys : List ℕ) → 1 ≤ length text → marked text ++ ys ≡ text ++ 64 ∷ ys
unfolding marked
marked-append [] ys h = absurd (omega (arith, h))
marked-append (c ∷ cs) ys h = append_assoc (c ∷ cs) (64 ∷ []) ys

marked-none : (text ys : List ℕ) → text ≡ [] → marked text ++ ys ≡ ys
unfolding marked
marked-none text ys h = ap (λ t. marked t ++ ys) h

without_information :
    (name secret host_name number : List ℕ) (parser : Url)
    → (name ≡ []) × (secret ≡ [])
    → with_authority name secret host_name number parser
      ≡ add_optional_component port number (add_optional_component host host_name parser)
unfolding with_authority add_optional_component
without_information [] [] host_name number parser e = refl
without_information (c ∷ cs) secret host_name number parser e = cc
without_information [] (c ∷ cs) host_name number parser e = cc

-- The parser reads the parts back from the authority's text.
pub read_token-authority :
    (name secret host_name number : List ℕ) (parser : Url)
    → IsAuthority name secret host_name number
    → read_token 2 (authority name secret host_name number) parser
      ≡ ok (with_authority name secret host_name number parser)
unfolding authority
read_token-authority name secret host_name number parser h = elim h.length_of [
  | inl e ↦
      ap (λ t. read_token 2 t parser)
        (marked-none (information name secret) (end_point host_name number) e)
      ∙ (read_token-end_point host_name number parser h.host h.some_host h.port
          ∙ ap ok (
              sym (
                without_information name secret host_name number parser
                  (no_information name secret e))))
  | inr l ↦
      ap (λ t. read_token 2 t parser)
        (marked-append (information name secret) (end_point host_name number) (omega (arith, l)))
      ∙ read_token-information name secret host_name number parser h l
]

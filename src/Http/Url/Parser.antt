-- ===== src/Http/Url/Parser.antt =====
-- source/src/http/url/URLParser.cc.
--
-- A position in the text is the rest of the text from there: it is at the end if the rest is empty.
use coffee.Base.{
  ℕ, zero, suc, ◌+◌, Option, none, some, Result, ok, raise, ◌>>=◌, List, [], ◌∷◌, ◌++◌, Bool, true,
  false, ◌&&◌, ◌==◌, assign, if◌then◌else◌,
}
use coffee.Http.Bytes.{bytes, separate, split, is_numeric}
use coffee.Http.Url.{
  ComponentName, name_key, scheme, user, password, host, port, path, fragment, UrlError,
  no_component, port_not_numeric, empty_key, Url,
}

-- The text before a byte, and the rest from that byte on, if it is there.
unfoldable pub cut : ℕ → List ℕ → Option (List ℕ × List ℕ)
cut delim [] = none
cut delim (c ∷ cs) =
    let others = cut delim cs in
    if c == delim
    then some ([], c ∷ cs)
    else elim others [ none ↦ none | some (before, rest) ↦ some (c ∷ before, rest) ]

-- The first delimiter of the list that is anywhere in the text ends the token.
unfoldable pub extract_token : List ℕ → List ℕ → List ℕ × List ℕ
extract_token text [] = (text, [])
extract_token text (delim ∷ delims) = elim (cut delim text) [
  | none ↦ extract_token text delims
  | some token ↦ token
]

-- Where the text has two slashes: the number of bytes before, and the rest after.
unfoldable pub find_slashes : List ℕ → Option (ℕ × List ℕ)
find_slashes [] = none
find_slashes (c ∷ []) = none
find_slashes (c ∷ d ∷ cs) =
    let others = find_slashes (d ∷ cs) in
    if c == 47 && d == 47
    then some (0, cs)
    else elim others [ none ↦ none | some (n, rest) ↦ some (suc n, rest) ]

-- `std::string::find` from a position finds the byte.
unfoldable pub has_from : ℕ → ℕ → List ℕ → Bool
has_from start delim [] = false
has_from zero delim (c ∷ cs) = if c == delim then true else has_from zero delim cs
has_from (suc start) delim (c ∷ cs) = has_from start delim cs

unfoldable pub add_mandatory_component : ComponentName → List ℕ → Url → Result UrlError Url
add_mandatory_component name [] parser = raise (no_component name)
add_mandatory_component name (c ∷ cs) parser =
    ok (record parser { components = assign parser.components name (c ∷ cs) })

unfoldable pub add_optional_component : ComponentName → List ℕ → Url → Url
add_optional_component name [] parser = parser
add_optional_component name (c ∷ cs) parser = record parser {
  components = assign parser.components name (c ∷ cs);
}

unfoldable pub verify_port_is_numeric : List ℕ → Result UrlError (List ℕ)
verify_port_is_numeric [] = ok []
verify_port_is_numeric (c ∷ cs) =
    if is_numeric (c ∷ cs) then ok (c ∷ cs) else raise (port_not_numeric (c ∷ cs))

-- Host and port. The port's text is checked after the host is added.
unfoldable pub read_end_point : List ℕ → Url → Result UrlError Url
read_end_point text parser =
    let (name, number) = separate text 58 in
    add_mandatory_component host name parser >>= λ parser1.
    verify_port_is_numeric number >>= λ number1. ok (add_optional_component port number1 parser1)

unfoldable pub read_user_information : List ℕ → Url → Url
read_user_information text parser =
    let (name, secret) = separate text 58 in
    add_optional_component password secret (add_optional_component user name parser)

unfoldable pub read_token : ℕ → List ℕ → Url → Result UrlError Url
read_token start text parser =
    if has_from start 64 text
    then (let (information, end_point) = separate text 64 in
        read_end_point end_point (read_user_information information parser))
    else read_end_point text parser

-- The first position of the authority, as a number and as the rest.
unfoldable pub authority_start : List ℕ → ℕ × List ℕ
authority_start text = elim (find_slashes text) [
  | none ↦ (0, text)
  | some (n, rest) ↦ (n + 2, rest)
]

unfoldable pub read_authority : List ℕ → Url → Result UrlError (Url × List ℕ)
read_authority text parser =
    let (start, from_start) = authority_start text in
    let (token, rest) = extract_token from_start (bytes "/?#") in
    read_token start token parser >>= λ parser1. ok (parser1, rest)

unfoldable pub read_path : List ℕ → Url → Url × List ℕ
read_path [] parser = (parser, [])
read_path (c ∷ cs) parser =
    let (token, rest) = extract_token (c ∷ cs) (bytes "?#") in
    (add_optional_component path token parser, rest)

unfoldable pub add_pairs : List ℕ → List (List ℕ) → Url → Result UrlError Url
add_pairs token [] parser = ok parser
add_pairs token (pair ∷ pairs) parser =
    let key_value = separate pair 61 in
    elim key_value.0 [
      | [] ↦ raise (empty_key token)
      | c ∷ cs ↦ add_pairs token pairs (record parser { query = parser.query ++ key_value ∷ [] })
    ]

unfoldable pub read_query : List ℕ → Url → Result UrlError (Url × List ℕ)
read_query [] parser = ok (parser, [])
read_query (c ∷ cs) parser =
    if c == 63
    then (let (token, rest) = extract_token cs (bytes "#") in
        add_pairs token (split token 38) parser >>= λ parser1. ok (parser1, rest))
    else ok (parser, c ∷ cs)

unfoldable pub read_fragment : List ℕ → Url → Url
read_fragment text parser = add_optional_component fragment text parser

-- What follows the authority.
unfoldable pub read_path_and_others : List ℕ → Url → Result UrlError Url
read_path_and_others text parser =
    let (parser1, after_path) = read_path text parser in
    read_query after_path parser1 >>= λ out. ok (read_fragment out.1 out.0)

unfoldable pub read_absolute : List ℕ → Url → Result UrlError Url
read_absolute url parser =
    let (name, without_scheme) = separate url 58 in
    add_mandatory_component scheme name parser >>= λ parser1.
    read_authority without_scheme parser1 >>= λ out. read_path_and_others out.1 out.0

-- `URLParser::build`.
unfoldable pub parse : List ℕ → Result UrlError Url
parse [] = read_absolute [] (record { components = []; query = [] })
parse (c ∷ cs) =
    if c == 47
    then read_path_and_others (c ∷ cs) (record { components = []; query = [] })
    else read_absolute (c ∷ cs) (record { components = []; query = [] })

-- ===== src/Http/Url/RoundTrip.antt =====
-- The parser reads back the URLs that are encoded.
use coffee.Base.{
  ℕ, ok, ◌>>=◌, List, [], ◌∷◌, ◌++◌, true, false, ◌&&◌, not, ==_iff, ◌≡◌, ◌≢◌, refl, ap, ◌∙◌, arith,
  length, ◌≤◌, find,
}
use coffee.Http.Bytes.{bytes}
use coffee.Http.Url.{
  ComponentName, name_key, scheme, user, password, host, port, path, fragment, Url, write_query,
  encode,
}
use coffee.Http.Url.Parser.{
  add_optional_component, find_slashes, authority_start, read_authority, read_path, read_query,
  read_fragment, read_path_and_others, read_absolute, parse,
}
use coffee.Http.Url.Texts.{lacks, lacks_all, starts, ends, separate-delim, extract_token-append}
use coffee.Http.Url.Authority.{
  IsAuthority, authority, with_authority, read_token-authority, add_mandatory_component-optional,
}
use coffee.Http.Url.Lookups.{
  text_of, IsFilled, over-text_of, find-add_optional_component, query-add_optional_component,
  tail_text, encode-absolute,
}
use coffee.Http.Url.Queries.{clear_pairs, read_query-written}

read_path-written :
    (text rest : List ℕ) (parser : Url)
    → lacks_all (bytes "?#") text ≡ true
    → ends (bytes "?#") rest ≡ true
    → read_path (text ++ rest) parser ≡ (add_optional_component path text parser, rest)
unfolding read_path add_optional_component
read_path-written [] [] parser h e = refl
read_path-written [] (c ∷ cs) parser h e =
    ap (λ t. (add_optional_component path t.0 parser, t.1))
      (extract_token-append (bytes "?#") [] (c ∷ cs) h e)
read_path-written (x ∷ xs) rest parser h e =
    ap (λ t. (add_optional_component path t.0 parser, t.1))
      (extract_token-append (bytes "?#") (x ∷ xs) rest h e)

-- What the parser makes of what follows the authority.
unfoldable pub with_others : List ℕ → List (List ℕ × List ℕ) → List ℕ → Url → Url
with_others path_text pairs rest parser =
    let parser1 = add_optional_component path path_text parser in
    add_optional_component fragment rest (record parser1 { query = parser1.query ++ pairs })

-- The parts after the authority can be told apart.
pub record IsTail (url : Url) : Type 0 where
  pub clear_path : lacks_all (bytes "?#") (text_of path url) ≡ true
  pub clear_query : clear_pairs url.query ≡ true
  pub clear_fragment : ends (bytes "#") (text_of fragment url) ≡ true
  pub after_path : ends (bytes "?#") (write_query url.query ++ text_of fragment url) ≡ true

pub read_tail :
    (url parser : Url)
    → IsTail url
    → read_path_and_others (tail_text url) parser
      ≡ ok (with_others (text_of path url) url.query (text_of fragment url) parser)
unfolding read_path_and_others with_others tail_text read_fragment
read_tail url parser h =
    let rest = write_query url.query ++ text_of fragment url in
    let parser1 = add_optional_component path (text_of path url) parser in
    let queried =
      read_query-written url.query (text_of fragment url) parser1 h.clear_query h.clear_fragment in
    ap (λ t. read_query t.1 t.0 >>= λ out. ok (read_fragment out.1 out.0))
      (read_path-written (text_of path url) rest parser h.clear_path h.after_path)
    ∙ ground (arith, queried)

-- The parts of a URL with a scheme can be told apart in its text: the scheme has no colon, the
-- authority has no delimiter, and each part ends where the parser looks for its end.
pub record IsAbsolute (url : Url) : Type 0 where
  pub filled : IsFilled url
  pub clear_scheme : lacks 58 (text_of scheme url) && not (starts 47 (text_of scheme url)) ≡ true
  pub some_scheme : 1 ≤ length (text_of scheme url)
  pub parts :
      IsAuthority (text_of user url) (text_of password url) (text_of host url) (text_of port url)
  pub clear_authority :
      lacks_all
        (bytes "/?#")
        (authority (text_of user url) (text_of password url) (text_of host url) (text_of port url))
      ≡ true
  pub after_authority : ends (bytes "/?#") (tail_text url) ≡ true
  pub tail : IsTail url

abbrev pub empty_url : Url
empty_url = record { components = []; query = [] }

abbrev with_scheme : Url → Url
with_scheme url = add_optional_component scheme (text_of scheme url) empty_url

abbrev with_address : Url → Url
with_address url =
    with_authority (text_of user url) (text_of password url) (text_of host url) (text_of port url)
      (with_scheme url)

abbrev reread : Url → Url
reread url = with_others (text_of path url) url.query (text_of fragment url) (with_address url)

read_authority-written :
    (url : Url)
    → IsAbsolute url
    → read_authority
        (47
          ∷ 47
          ∷ (authority
                (text_of user url)
                (text_of password url)
                (text_of host url)
                (text_of port url)
              ++ tail_text url))
        (with_scheme url)
      ≡ ok (with_address url, tail_text url)
unfolding read_authority authority_start find_slashes
read_authority-written url h =
    let text =
      authority (text_of user url) (text_of password url) (text_of host url) (text_of port url) in
    let cut =
      extract_token-append (bytes "/?#") text (tail_text url) h.clear_authority h.after_authority in
    let read =
      read_token-authority (text_of user url) (text_of password url) (text_of host url)
        (text_of port url) (with_scheme url) h.parts in
    ground (arith, cut, read)

starts-append :
    (xs ys : List ℕ) → 1 ≤ length xs → starts 47 xs ≡ false → starts 47 (xs ++ ys) ≡ false
unfolding starts
starts-append [] ys l h = absurd (omega (arith, l))
starts-append (x ∷ xs) ys l h = h

some_length : (text : List ℕ) → 1 ≤ length text → text ≢ []
some_length [] l e = absurd (omega (arith, l))
some_length (c ∷ cs) l e = cc

read_absolute-written :
    (url : Url) → IsAbsolute url → read_absolute (encode url) empty_url ≡ ok (reread url)
unfolding read_absolute
read_absolute-written url h =
    let text = text_of scheme url in
    let rest =
      authority (text_of user url) (text_of password url) (text_of host url) (text_of port url)
      ++ tail_text url in
    let written = encode-absolute url h.filled (λ e. some_length text h.some_scheme e) in
    let cut = separate-delim 58 text (47 ∷ 47 ∷ rest) (ground (arith, h.clear_scheme)) in
    let added = add_mandatory_component-optional scheme text empty_url h.some_scheme in
    let addressed = read_authority-written url h in
    let others = read_tail url (with_address url) h.tail in
    ground (arith, written, cut, added, addressed, others)

parse-absolute :
    (text : List ℕ) → starts 47 text ≡ false → parse text ≡ read_absolute text empty_url
unfolding parse starts
parse-absolute [] h = refl
parse-absolute (c ∷ cs) h = ground (arith, ==_iff c 47)

encode-starts : (url : Url) → IsAbsolute url → starts 47 (encode url) ≡ false
encode-starts url h =
    let written = encode-absolute url h.filled (some_length (text_of scheme url) h.some_scheme) in
    ap (starts 47) written
    ∙ starts-append (text_of scheme url) _ h.some_scheme (ground (arith, h.clear_scheme))

find-reread :
    (url : Url)
    → IsFilled url
    → (c : ComponentName) → find (reread url).components c ≡ find url.components c
unfolding with_others with_authority find
find-reread url h scheme = simp (find-add_optional_component, over-text_of scheme url h)
find-reread url h c = simp (find-add_optional_component, over-text_of c url h)

query-reread : (url : Url) → (reread url).query ≡ url.query
unfolding with_others with_authority
query-reread url = simp (query-add_optional_component)

-- A URL with a scheme, of which no component is empty and the parts can be told apart, is read back
-- by the parser from its text: the parser returns a URL with the same value of each component, and
-- the same query.
pub parse-encode :
    (url : Url)
    → IsAbsolute url
    → (url' : Url) × (parse (encode url) ≡ ok url')
      × ((c : ComponentName) → find url'.components c ≡ find url.components c)
      × (url'.query ≡ url.query)
parse-encode url h = (
  reread url,
  parse-absolute (encode url) (encode-starts url h) ∙ read_absolute-written url h,
  find-reread url h.filled,
  query-reread url,
)

-- ===== src/Http/Url/Relative.antt =====
-- A URL that starts with its path, as a request's does.
use coffee.Base.{ok, none, List, [], ◌∷◌, ◌++◌, true, ==_iff, ◌≡◌, ap, ◌∙◌, arith, find, ℕ}
use coffee.Http.Url.{
  ComponentName, name_key, scheme, user, password, host, port, path, fragment, Url, write_query,
  write_component, encode,
}
use coffee.Http.Url.Parser.{read_path_and_others, parse}
use coffee.Http.Url.Texts.{starts}
use coffee.Http.Url.Authority.{prefixed, marked, information, end_point, authority}
use coffee.Http.Url.Lookups.{
  text_of, IsFilled, over-text_of, find-add_optional_component, query-add_optional_component,
  tail_text, encode-authority,
}
use coffee.Http.Url.RoundTrip.{IsTail, with_others, read_tail, empty_url}

-- The URL has a path that starts with a slash, and nothing before it.
pub record IsRelative (url : Url) : Type 0 where
  pub filled : IsFilled url
  pub no_scheme : find url.components scheme ≡ none
  pub no_user : find url.components user ≡ none
  pub no_password : find url.components password ≡ none
  pub no_host : find url.components host ≡ none
  pub no_port : find url.components port ≡ none
  pub slash : starts 47 (text_of path url) ≡ true
  pub tail : IsTail url

text_of-none : (c : ComponentName) (url : Url) → find url.components c ≡ none → text_of c url ≡ []
unfolding text_of
text_of-none c url h = ground arith

encode-relative : (url : Url) → IsRelative url → encode url ≡ tail_text url
unfolding authority marked information end_point prefixed write_component
encode-relative url h =
    encode-authority url h.filled
    ∙ ground (
      arith,
      h.no_scheme,
      text_of-none user url h.no_user,
      text_of-none password url h.no_password,
      text_of-none host url h.no_host,
      text_of-none port url h.no_port,
    )

starts-tail : (xs ys : List ℕ) → starts 47 xs ≡ true → starts 47 (xs ++ ys) ≡ true
unfolding starts
starts-tail [] ys h = cc
starts-tail (x ∷ xs) ys h = h

parse-slash :
    (text : List ℕ) → starts 47 text ≡ true → parse text ≡ read_path_and_others text empty_url
unfolding parse starts
parse-slash [] h = cc
parse-slash (c ∷ cs) h = ground (arith, ==_iff c 47)

abbrev reread_relative : Url → Url
reread_relative url = with_others (text_of path url) url.query (text_of fragment url) empty_url

find-reread_relative :
    (url : Url)
    → IsRelative url
    → (c : ComponentName) → find (reread_relative url).components c ≡ find url.components c
unfolding with_others find
find-reread_relative url h scheme = simp (find-add_optional_component, h.no_scheme)
find-reread_relative url h user = simp (find-add_optional_component, h.no_user)
find-reread_relative url h password = simp (find-add_optional_component, h.no_password)
find-reread_relative url h host = simp (find-add_optional_component, h.no_host)
find-reread_relative url h port = simp (find-add_optional_component, h.no_port)
find-reread_relative url h c = simp (find-add_optional_component, over-text_of c url h.filled)

query-reread_relative : (url : Url) → (reread_relative url).query ≡ url.query
unfolding with_others
query-reread_relative url = simp (query-add_optional_component)

-- A URL of a path that starts with a slash, a query and a fragment, of which no component is empty
-- and the parts can be told apart, is read back by the parser from its text.
pub parse-encode_relative :
    (url : Url)
    → IsRelative url
    → (url' : Url) × (parse (encode url) ≡ ok url')
      × ((c : ComponentName) → find url'.components c ≡ find url.components c)
      × (url'.query ≡ url.query)
unfolding tail_text
parse-encode_relative url h =
    let slash =
      starts-tail (text_of path url) (write_query url.query ++ text_of fragment url) h.slash in
    (
      reread_relative url,
      ap parse (encode-relative url h)
          ∙ (parse-slash (tail_text url) slash ∙ read_tail url empty_url h.tail),
      find-reread_relative url h,
      query-reread_relative url,
    )

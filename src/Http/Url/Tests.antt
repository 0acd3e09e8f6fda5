-- ===== src/Http/Url/Tests.antt =====
-- Runs and instances of the theorems on URLs.
use coffee.Base.{inr, arith, ok, [], ◌∷◌, ◌≡◌, refl, find, assign, erase}
use coffee.Http.Bytes.{
  bytes, separate, split, split_items, add_byte, in_item, c_str, is_numeric, all_digits, is_digit,
}
use coffee.Http.Url.{
  name_key, ComponentName, scheme, user, password, host, port, path, fragment, Url, get_component,
  has_component, write_component, write_pair, write_others, write_query, encode,
}
use coffee.Http.Url.Parser.{
  cut, extract_token, find_slashes, has_from, add_mandatory_component, add_optional_component,
  verify_port_is_numeric, read_end_point, read_user_information, read_token, authority_start,
  read_authority, read_path, add_pairs, read_query, read_fragment, read_path_and_others,
  read_absolute, parse,
}
use coffee.Http.Url.Texts.{lacks, lacks_all, starts, ends}
use coffee.Http.Url.Authority.{prefixed, is_port, information, end_point, marked, authority}
use coffee.Http.Url.Lookups.{text_of, IsFilled, tail_text}
use coffee.Http.Url.Queries.{clear_text, clear_pair, clear_pairs}
use coffee.Http.Url.RoundTrip.{IsAbsolute, parse-encode}
use coffee.Http.Url.Relative.{IsRelative, parse-encode_relative}

program : Unit {0}
unfolding lacks lacks_all starts ends prefixed is_port information end_point marked authority
    text_of tail_text clear_text clear_pair clear_pairs separate split split_items add_byte in_item
    c_str is_numeric all_digits is_digit get_component has_component write_component write_pair
    write_others write_query encode cut extract_token find_slashes has_from add_mandatory_component
    add_optional_component verify_port_is_numeric read_end_point read_user_information read_token
    authority_start read_authority read_path add_pairs read_query read_fragment read_path_and_others
    read_absolute parse find assign erase
program = tt

abbrev spoken : Url
spoken = record {
  components =
      (fragment, bytes "#end")
      ∷ (path, bytes "/a/b")
      ∷ (port, bytes "80")
      ∷ (host, bytes "ho.st")
      ∷ (password, bytes "pw")
      ∷ (user, bytes "me")
      ∷ (scheme, bytes "http")
      ∷ [];
  query = (bytes "k", bytes "v") ∷ (bytes "flag", []) ∷ [];
}

encode-spoken : encode spoken ≡ bytes "http://me:pw@ho.st:80/a/b?k=v&flag#end"
unfolding program
encode-spoken = refl

parse-spoken : parse (bytes "http://me:pw@ho.st:80/a/b?k=v&flag#end") ≡ ok spoken
unfolding program
parse-spoken = refl

-- A user of one byte is taken for a part of the host.
parse_short_user :
    parse (bytes "http://u@h/")
    ≡ ok (record {
      components = (path, bytes "/") ∷ (host, bytes "u@h") ∷ (scheme, bytes "http") ∷ [];
      query = [];
    })
unfolding program
parse_short_user = refl

-- A slash in a query without a path before is taken for the end of the host.
parse_slash_in_query :
    parse (bytes "http://h?k=/v")
    ≡ ok (record {
      components = (path, bytes "/v") ∷ (host, bytes "h?k=") ∷ (scheme, bytes "http") ∷ [];
      query = [];
    })
unfolding program
parse_slash_in_query = refl

spoken-IsFilled : IsFilled spoken
unfolding program
spoken-IsFilled scheme h = cc
spoken-IsFilled c h = cc

spoken-IsAbsolute : IsAbsolute spoken
unfolding program
spoken-IsAbsolute = record {
  filled = spoken-IsFilled;
  clear_scheme = refl;
  some_scheme = omega arith;
  parts = record {
    user = refl;
    password = refl;
    host = refl;
    some_host = omega arith;
    port = refl;
    length_of = inr (omega arith);
  };
  clear_authority = refl;
  after_authority = refl;
  tail = record { clear_path = refl; clear_query = refl; clear_fragment = refl; after_path = refl };
}

parse-encode_example :
    (url' : Url) × (parse (encode spoken) ≡ ok url')
    × ((c : ComponentName) → find url'.components c ≡ find spoken.components c)
    × (url'.query ≡ spoken.query)
parse-encode_example = parse-encode spoken spoken-IsAbsolute

abbrev requested : Url
requested = record {
  components = (path, bytes "/find/it") ∷ (fragment, bytes "#top?") ∷ [];
  query = (bytes "q", bytes "a=b") ∷ [];
}

requested-IsFilled : IsFilled requested
unfolding program
requested-IsFilled scheme h = cc
requested-IsFilled c h = cc

requested-IsRelative : IsRelative requested
unfolding program
requested-IsRelative = record {
  filled = requested-IsFilled;
  no_scheme = refl;
  no_user = refl;
  no_password = refl;
  no_host = refl;
  no_port = refl;
  slash = refl;
  tail = record { clear_path = refl; clear_query = refl; clear_fragment = refl; after_path = refl };
}

parse-encode_relative_example :
    (url' : Url) × (parse (encode requested) ≡ ok url')
    × ((c : ComponentName) → find url'.components c ≡ find requested.components c)
    × (url'.query ≡ requested.query)
parse-encode_relative_example = parse-encode_relative requested requested-IsRelative

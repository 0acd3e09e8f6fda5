-- ===== src/Http/Sized.antt =====
-- The line of a body's size, and the custom headers before it.
use coffee.Base.{
  ℕ, zero, suc, ◌+◌, ◌^◌, ◌%◌, ◌<◌, ◌≤◌, Option, none, some, ok, List, [], ◌∷◌, ◌++◌, length, All,
  find, false, assign, ◌≡◌, ◌≢◌, refl, ap, ◌∙◌, arith, append_assoc,
}
use coffee.Http.Bytes.{
  bytes_key, c_str, index_of, header_names, content_length, same_case, to_lower,
}
use coffee.Http.Message.{
  HttpHeader, HttpMessage, as_string, set_header, insert_header, set_value, encode_header,
  set_custom_header,
}
use coffee.Http.Decoder.{
  waiting_content_length, waiting_body, HttpProtocolDecoder, set_line, expect_body, process, decode,
}
use coffee.Http.Encoder.{decimal}
use coffee.Http.Bodies.{
  IsCustom, encode_headers, set_all, decode-first, process-custom, one_line-encode_header,
  has_colon, process-line,
}
use coffee.Http.Lines.{atol-decimal, decimal-is_numeric}

-- Fuel for a line of each header, and more.
unfoldable pub more : List HttpHeader → ℕ → ℕ
more [] fuel = fuel
more (h ∷ hs) fuel = suc (more hs fuel)

pub more_cases :
    (hs : List HttpHeader) (k n : ℕ) → length hs + k ≤ n → (f : ℕ) × (n ≡ more hs f) × (k ≤ f)
unfolding more
more_cases [] k n h = (n, refl, omega (arith, h))
more_cases (x ∷ hs) k zero h = absurd (omega (arith, h))
more_cases (x ∷ hs) k (suc n) h =
    let (f, e, l) = more_cases hs k n (omega (arith, h)) in (f, ap suc e, l)

module _ {Url : Type 0} (parse_url : List ℕ → Option Url) where
  -- The decoder sets the custom headers that come first, and goes on.
  pub decode-customs :
      (fuel : ℕ) (hs others : List HttpHeader) (d : HttpProtocolDecoder Url) (m : HttpMessage Url)
      (rest : List ℕ)
      → All IsCustom hs
      → d.state ≡ waiting_content_length
      → d.result ≡ some m
      → decode parse_url (more hs fuel) d (encode_headers (hs ++ others) ++ rest)
        ≡ decode parse_url fuel
            (record d { result = some (set_all hs m) })
            (encode_headers others ++ rest)
  unfolding encode_headers set_all more
  decode-customs fuel [] others d m rest a s r =
      ap (λ t. decode parse_url fuel (record d { result = t }) (encode_headers others ++ rest)) r
  decode-customs fuel (h ∷ hs) others d m rest a s r =
      let d' : HttpProtocolDecoder Url = record d {
        result = some (set_custom_header h.name h.value m);
      } in
      ap (decode parse_url (suc (more hs fuel)) d)
        (append_assoc (encode_header h) (13 ∷ 10 ∷ encode_headers (hs ++ others)) rest)
      ∙ (decode-first parse_url (more hs fuel) d d' (encode_header h)
            (encode_headers (hs ++ others) ++ rest) (one_line-encode_header h a.0)
            (process-custom parse_url d m h a.0 s r)
          ∙ decode-customs fuel hs others d' (set_custom_header h.name h.value m) rest a.1 s refl)

  pub length_name : index_of (c_str (as_string content_length)) header_names ≡ some content_length
  unfolding index_of c_str as_string same_case to_lower
  length_name = refl

  name_some : as_string content_length ≢ []
  unfolding as_string
  name_some e = cc

  name_colon : has_colon (as_string content_length) ≡ false
  unfolding as_string has_colon
  name_colon = refl

  -- The header of a body's size.
  abbrev pub size_header : ℕ → HttpHeader
  size_header n = record {
    type = some content_length;
    name = as_string content_length;
    value = decimal n;
  }

  -- The message with such a header at its end.
  abbrev pub sized : ℕ → HttpMessage Url → HttpMessage Url
  sized n m = record m {
    sequential_headers = m.sequential_headers ++ size_header n ∷ [];
    directory = assign m.directory (as_string content_length) (length m.sequential_headers);
  }

  pub set_header-sized :
      (n : ℕ) (m : HttpMessage Url)
      → find m.directory (as_string content_length) ≡ none
      → set_header (some content_length) (decimal n) m ≡ ok (sized n m)
  unfolding set_header insert_header set_value
  set_header-sized n m h = ground (arith, h)

  set_line-sized :
      (n : ℕ) (d : HttpProtocolDecoder Url) (m : HttpMessage Url)
      → d.result ≡ some m
      → find m.directory (as_string content_length) ≡ none
      → set_line parse_url d (as_string content_length, decimal n)
        ≡ ok (record d { result = some (sized n m) }, some content_length)
  unfolding set_line
  set_line-sized n d m r h = ground (arith, r, length_name, set_header-sized n m h)

  expect_body-sized :
      (n : ℕ) (d : HttpProtocolDecoder Url)
      → n < 2 ^ 32
      → expect_body parse_url (decimal n) d (some content_length)
        ≡ record d { body_expected_size = n; state = waiting_body }
  unfolding expect_body
  expect_body-sized n d h =
      let same : n % 2 ^ 32 ≡ n = omega (arith, h) in
      ground (arith, decimal-is_numeric n, atol-decimal n, same)

  pub process-sized :
      (n : ℕ) (d : HttpProtocolDecoder Url) (m : HttpMessage Url)
      → d.state ≡ waiting_content_length
      → d.result ≡ some m
      → find m.directory (as_string content_length) ≡ none
      → n < 2 ^ 32
      → process parse_url d.state d (encode_header (size_header n))
        ≡ ok (
          record d { result = some (sized n m); body_expected_size = n; state = waiting_body },
          false,
        )
  unfolding process encode_header
  process-sized n d m s r f l =
      let line =
        process-line parse_url d (as_string content_length) (decimal n) name_some name_colon in
      let set = set_line-sized n d m r f in
      let expected = expect_body-sized n (record d { result = some (sized n m) }) l in
      ground (arith, s, line, set, expected)

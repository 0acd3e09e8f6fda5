-- ===== src/Http/Bodies.antt =====
-- What the decoder reads of the lines of a message: its headers, and its body.
use coffee.Base.{
  ℕ, zero, suc, ◌<◌, Option, none, some, Result, ok, raise, List, [], ◌∷◌, ◌++◌, length, Bool, true,
  false, ◌||◌, ◌≡◌, ◌≢◌, refl, ap, sym, ◌∙◌, subst, arith, ◌==◌, ==_iff, All, append_assoc,
  length-append,
}
use coffee.Http.Bytes.{separate, c_str, index_of, header_names}
use coffee.Http.Message.{
  Error, body_length, HttpHeader, HttpMessage, encode_header, set_custom_header,
}
use coffee.Http.Decoder.{
  waiting_content_length, read_body, HttpProtocolDecoder, find_new_line, read_token, set_line,
  expect_body, process_waiting_content_length, process_read_body, process, decode,
}
use coffee.Http.Tokens.{one_line, read_token-append}

unfoldable pub has_colon : List ℕ → Bool
has_colon [] = false
has_colon (c ∷ cs) = c == 58 || has_colon cs

pub separate-append :
    (name value : List ℕ)
    → has_colon name ≡ false
    → separate (name ++ 58 ∷ value) 58 ≡ (name, value)
unfolding separate has_colon
separate-append [] value h = refl
separate-append (c ∷ cs) value h = ground (arith, separate-append cs value)

pub one_line-append :
    (xs ys : List ℕ) → one_line xs ≡ true → one_line ys ≡ true → one_line (xs ++ ys) ≡ true
unfolding one_line
one_line-append [] ys h k = k
one_line-append (c ∷ cs) ys h k = ground (arith, one_line-append cs ys)

-- A header that a user adds: its name is not empty and has no colon, and it is on one line.
pub record IsCustom (h : HttpHeader) : Type 0 where
  pub named : h.name ≢ []
  pub no_colon : has_colon h.name ≡ false
  pub name_line : one_line h.name ≡ true
  pub value_line : one_line h.value ≡ true
  pub not_standard : index_of (c_str h.name) header_names ≡ none

pub one_line-encode_header : (h : HttpHeader) → IsCustom h → one_line (encode_header h) ≡ true
unfolding encode_header one_line
one_line-encode_header h c = one_line-append h.name (58 ∷ h.value) c.name_line c.value_line

-- The loop of `HttpProtocolEncoder::apply` on the headers, and the empty line.
unfoldable pub encode_headers : List HttpHeader → List ℕ
encode_headers [] = 13 ∷ 10 ∷ []
encode_headers (h ∷ hs) = encode_header h ++ 13 ∷ 10 ∷ encode_headers hs

module _ {Url : Type 0} where
  unfoldable pub set_all : List HttpHeader → HttpMessage Url → HttpMessage Url
  set_all [] m = m
  set_all (h ∷ hs) m = set_all hs (set_custom_header h.name h.value m)

module _ {Url : Type 0} (parse_url : List ℕ → Option Url) where
  decode-line :
      (fuel : ℕ) (d : HttpProtocolDecoder Url) (line rest : List ℕ)
      → one_line line ≡ true
      → decode parse_url (suc fuel) d (line ++ 13 ∷ 10 ∷ rest)
        ≡ elim (process parse_url d.state d line) [
          | raise e ↦ raise e
          | ok (d', true) ↦ ok d'
          | ok (d', false) ↦ decode parse_url fuel d' rest
        ]
  unfolding decode
  decode-line fuel d line rest h = rw (decode, read_token-append line rest h)

  set_line-custom :
      (d : HttpProtocolDecoder Url) (m : HttpMessage Url) (name value : List ℕ)
      → d.result ≡ some m
      → index_of (c_str name) header_names ≡ none
      → set_line parse_url d (name, value)
        ≡ ok (record d { result = some (set_custom_header name value m) }, none)
  unfolding set_line
  set_line-custom d m name value r n = ground (arith, r, n)

  pub process-line :
      (d : HttpProtocolDecoder Url) (name value : List ℕ)
      → name ≢ []
      → has_colon name ≡ false
      → process_waiting_content_length parse_url d (name ++ 58 ∷ value)
        ≡ elim (set_line parse_url d (name, value)) [
          | raise e ↦ raise e
          | ok (d', type) ↦ ok (expect_body parse_url value d' type, false)
        ]
  unfolding process_waiting_content_length
  process-line d [] value n c = absurd (n refl)
  process-line d (x ∷ xs) value n c =
      ap
        (λ items.
          elim (set_line parse_url d items)
            as (λ x. Result Error (HttpProtocolDecoder Url × Bool)) [
              | raise e ↦ raise e
              | ok (d', type) ↦ ok (expect_body parse_url items.1 d' type, false)
            ])
        (separate-append (x ∷ xs) value c)

  -- A custom header's line sets the header.
  pub process-custom :
      (d : HttpProtocolDecoder Url) (m : HttpMessage Url) (h : HttpHeader)
      → IsCustom h
      → d.state ≡ waiting_content_length
      → d.result ≡ some m
      → process parse_url d.state d (encode_header h)
        ≡ ok (record d { result = some (set_custom_header h.name h.value m) }, false)
  unfolding process expect_body encode_header
  process-custom d m h c s r =
      subst
        (λ t.
          process parse_url t d (h.name ++ 58 ∷ h.value)
          ≡ ok (record d { result = some (set_custom_header h.name h.value m) }, false))
        (sym s)
        (process-line d h.name h.value c.named c.no_colon
          ∙ simp (set_line-custom d m h.name h.value r c.not_standard))

  -- The line after the headers completes a message without a body.
  pub decode-empty :
      (fuel : ℕ) (d : HttpProtocolDecoder Url) (rest : List ℕ)
      → d.state ≡ waiting_content_length
      → decode parse_url (suc fuel) d (13 ∷ 10 ∷ rest) ≡ ok d
  unfolding decode read_token find_new_line process process_waiting_content_length
  decode-empty fuel d rest s = ground (arith, s)

  pub decode-first :
      (fuel : ℕ) (d d' : HttpProtocolDecoder Url) (line rest : List ℕ)
      → one_line line ≡ true
      → process parse_url d.state d line ≡ ok (d', false)
      → decode parse_url (suc fuel) d (line ++ 13 ∷ 10 ∷ rest) ≡ decode parse_url fuel d' rest
  decode-first fuel d d' line rest o p = ground (arith, decode-line fuel d line rest o, p)

  -- Custom headers that `encode_headers` writes, with the empty line that ends them, are read back:
  -- the decoder completes, and its message is the one on which `setCustomHeader` set each header in
  -- order.
  pub decode-encode_headers :
      (fuel : ℕ) (hs : List HttpHeader) (d : HttpProtocolDecoder Url) (m : HttpMessage Url)
      (rest : List ℕ)
      → All IsCustom hs
      → d.state ≡ waiting_content_length
      → d.result ≡ some m
      → length hs < fuel
      → decode parse_url fuel d (encode_headers hs ++ rest)
        ≡ ok (record d { result = some (set_all hs m) })
  unfolding encode_headers set_all
  decode-encode_headers zero hs d m rest a s r l = absurd (omega arith)
  decode-encode_headers (suc fuel) [] d m rest a s r l =
      decode-empty fuel d rest s ∙ ap (λ t. ok (record d { result = t })) r
  decode-encode_headers (suc fuel) (h ∷ hs) d m rest a s r l =
      let d' : HttpProtocolDecoder Url = record d {
        result = some (set_custom_header h.name h.value m);
      } in
      let split_off =
        ap (decode parse_url (suc fuel) d)
          (append_assoc (encode_header h) (13 ∷ 10 ∷ encode_headers hs) rest) in
      let first =
        decode-first fuel d d' (encode_header h) (encode_headers hs ++ rest)
          (one_line-encode_header h a.0) (process-custom d m h a.0 s r) in
      split_off
      ∙ (first
          ∙ decode-encode_headers fuel hs d' (set_custom_header h.name h.value m) rest a.1 s refl
              (omega arith))

  process-read :
      (d : HttpProtocolDecoder Url) (token : List ℕ)
      → d.state ≡ read_body
      → process parse_url d.state d token ≡ process_read_body parse_url d token
  unfolding process
  process-read d token s = ap (λ t. process parse_url t d token) s

  -- A decoder that waits for the body takes the rest of the data as the body, if it has the expected
  -- size and no line ends in it.
  pub decode-body :
      (fuel : ℕ) (d : HttpProtocolDecoder Url) (m : HttpMessage Url) (c : ℕ) (cs : List ℕ)
      → d.state ≡ read_body
      → d.result ≡ some m
      → find_new_line (c ∷ cs) ≡ none
      → d.body_expected_size ≡ length (c ∷ cs)
      → decode parse_url (suc fuel) d (c ∷ cs)
        ≡ ok (record d { result = some (record m { body = c ∷ cs }) })
  unfolding decode read_token process process_read_body
  decode-body fuel d m c cs s r n e =
      ground (arith, n, process-read d (c ∷ cs) s, ==_iff (length (c ∷ cs)) d.body_expected_size)

  -- A decoder that waits for a body that contains a new line throws, although the data has the
  -- expected size.
  pub decode-body_length :
      (fuel : ℕ) (d : HttpProtocolDecoder Url) (line after : List ℕ)
      → d.state ≡ read_body
      → one_line line ≡ true
      → d.body_expected_size ≡ length (line ++ 13 ∷ 10 ∷ after)
      → decode parse_url (suc fuel) d (line ++ 13 ∷ 10 ∷ after) ≡ raise body_length
  unfolding process process_read_body
  decode-body_length fuel d line after s o e =
      decode-line fuel d line after o
      ∙ ground (
        arith,
        process-read d line s,
        ==_iff (length line) d.body_expected_size,
        length-append line (13 ∷ 10 ∷ after),
      )

-- ===== src/Http/Framing.antt =====
-- What the encoder sends of a response's headers and body, and what the decoder makes of it.
use coffee.Base.{
  ℕ, zero, suc, ◌+◌, ◌^◌, ◌<◌, ◌≤◌, Option, none, some, ok, List, [], ◌∷◌, ◌++◌, length, All, find,
  true, false, ◌≡◌, refl, ap, ◌∙◌, arith, append_assoc, length-append,
}
use coffee.Http.Bytes.{bytes_key, content_length, is_digit}
use coffee.Http.Message.{
  HttpHeader, HttpMessage, response, as_string, has_header, has_custom_header, encode_header,
}
use coffee.Http.Decoder.{
  waiting_message, waiting_content_length, waiting_body, read_body, HttpProtocolDecoder,
  find_new_line, process, process_waiting_body, decode, join, new_message,
}
use coffee.Http.Encoder.{decimal, with_content_length, encode}
use coffee.Http.Bodies.{
  IsCustom, encode_headers, set_all, decode-first, decode-encode_headers, decode-body,
  one_line-append,
}
use coffee.Http.Tokens.{one_line}
use coffee.Http.Lines.{AreWords, decimal-lacks}
use coffee.Http.Responses.{one_line-lacks, response_words, encode_first_line-response}
use coffee.Http.Lists.{AreDistinct}
use coffee.Http.Sized.{
  more_cases, decode-customs, size_header, sized, process-sized, set_header-sized,
}

pub length-encode_headers : (hs : List HttpHeader) → length hs + 2 ≤ length (encode_headers hs)
unfolding encode_headers
length-encode_headers [] = omega arith
length-encode_headers (h ∷ hs) =
    omega (
      arith,
      length-encode_headers hs,
      length-append (encode_header h) (13 ∷ 10 ∷ encode_headers hs),
    )

module _ {Url : Type 0} (parse_url : List ℕ → Option Url) where
  size_header-one_line : (n : ℕ) → one_line (encode_header (size_header parse_url n)) ≡ true
  unfolding encode_header one_line as_string is_digit
  size_header-one_line n =
      one_line-append (as_string content_length) (58 ∷ decimal n) refl
        (one_line-lacks (decimal n) ∙ decimal-lacks 13 n refl)

  -- The decoder after the headers of a message with a body.
  abbrev body_read : HttpProtocolDecoder Url → HttpMessage Url → List ℕ → HttpProtocolDecoder Url
  body_read d m body = record d {
    result = some (record (sized parse_url (length body) m) { body = body });
    body_expected_size = length body;
    state = read_body;
  }

  process-blank :
      (d : HttpProtocolDecoder Url)
      → d.state ≡ waiting_body
      → process parse_url d.state d [] ≡ ok (record d { state = read_body }, false)
  unfolding process process_waiting_body
  process-blank d s = ap (λ t. process parse_url t d []) s

  decode-sized :
      (fuel : ℕ) (d : HttpProtocolDecoder Url) (m : HttpMessage Url) (c : ℕ) (cs : List ℕ)
      → d.state ≡ waiting_content_length
      → d.result ≡ some m
      → find m.directory (as_string content_length) ≡ none
      → length (c ∷ cs) < 2 ^ 32
      → find_new_line (c ∷ cs) ≡ none
      → decode parse_url
          (suc (suc (suc fuel)))
          d
          (encode_headers (size_header parse_url (length (c ∷ cs)) ∷ []) ++ (c ∷ cs))
        ≡ ok (body_read d m (c ∷ cs))
  unfolding encode_headers one_line
  decode-sized fuel d m c cs s r f l n =
      let size = length (c ∷ cs) in
      let h = size_header parse_url size in
      let d1 : HttpProtocolDecoder Url = record d {
        result = some (sized parse_url size m);
        body_expected_size = size;
        state = waiting_body;
      } in
      let d2 : HttpProtocolDecoder Url = record d1 { state = read_body } in
      ap (decode parse_url (suc (suc (suc fuel))) d)
        (append_assoc (encode_header h) (13 ∷ 10 ∷ 13 ∷ 10 ∷ []) (c ∷ cs))
      ∙ (decode-first parse_url (suc (suc fuel)) d d1 (encode_header h) (13 ∷ 10 ∷ c ∷ cs)
            (size_header-one_line size) (process-sized parse_url size d m s r f l)
          ∙ (decode-first parse_url (suc fuel) d1 d2 [] (c ∷ cs) refl (process-blank d1 refl)
              ∙ decode-body parse_url fuel d2 (sized parse_url size m) c cs refl refl n refl))

-- A response that comes through: its description is some words, its headers are custom ones with
-- different names, and its body has no new line.
pub record IsResponse {Url : Type 0} (m : HttpMessage Url) (code : ℕ) (w : List ℕ)
    (words : List (List ℕ)) : Type 0 where
  pub line : m.first_line ≡ response code (join (w ∷ words))
  pub described : AreWords (w ∷ words)
  pub major : m.major_version < 2 ^ 16
  pub minor : m.minor_version < 2 ^ 16
  pub customs : All IsCustom m.sequential_headers
  pub distinct : AreDistinct m.sequential_headers
  pub unsized : find m.directory (as_string content_length) ≡ none
  pub body : find_new_line m.body ≡ none
  pub size : length m.body < 2 ^ 32

module _ {Url : Type 0} (parse_url : List ℕ → Option Url) (encode_url : Url → List ℕ) where
  -- What the encoder leaves of a message without a Content-Length.
  abbrev pub left_of : List ℕ → HttpMessage Url → HttpMessage Url
  left_of [] m = m
  left_of (c ∷ cs) m = sized parse_url (length (c ∷ cs)) m

  abbrev pub left : HttpMessage Url → HttpMessage Url
  left m = left_of m.body m

  with_content_length-left :
      (m : HttpMessage Url)
      → find m.directory (as_string content_length) ≡ none
      → with_content_length encode_url m ≡ ok (left m)
  unfolding with_content_length has_header has_custom_header
  with_content_length-left m f = ground (arith, f, set_header-sized parse_url (length m.body) m f)

  pub encode-left :
      (m : HttpMessage Url) (code : ℕ) (w : List ℕ) (words : List (List ℕ))
      → IsResponse m code w words
      → encode encode_url m
        ≡ ok (
          left m,
          join (response_words m.major_version m.minor_version code (w ∷ words))
              ++ 13 ∷ 10 ∷ (encode_headers (left m).sequential_headers ++ m.body),
        )
  unfolding encode
  encode-left m code w words h = ground (
    arith,
    with_content_length-left m h.unsized,
    encode_first_line-response encode_url m code w words h.described h.line,
  )

  -- The decoder when it has read the first line.
  abbrev pub begun : HttpMessage Url → ℕ → List ℕ → HttpProtocolDecoder Url
  begun m code description = record {
    state = waiting_content_length;
    body_expected_size = 0;
    result =
        some (new_message parse_url (response code description) (m.major_version, m.minor_version));
  }

  abbrev pub initial : HttpProtocolDecoder Url
  initial = record { state = waiting_message; body_expected_size = 0; result = none }

  decode-enough :
      (fuel : ℕ) (d : HttpProtocolDecoder Url) (m : HttpMessage Url) (c : ℕ) (cs : List ℕ)
      → d.state ≡ waiting_content_length
      → d.result ≡ some m
      → find m.directory (as_string content_length) ≡ none
      → length (c ∷ cs) < 2 ^ 32
      → find_new_line (c ∷ cs) ≡ none
      → 3 ≤ fuel
      → decode parse_url fuel d
          (encode_headers (size_header parse_url (length (c ∷ cs)) ∷ []) ++ (c ∷ cs))
        ≡ ok (body_read parse_url d m (c ∷ cs))
  decode-enough zero d m c cs s r f l n k = absurd (omega (arith, k))
  decode-enough (suc zero) d m c cs s r f l n k = absurd (omega (arith, k))
  decode-enough (suc (suc zero)) d m c cs s r f l n k = absurd (omega (arith, k))
  decode-enough (suc (suc (suc fuel))) d m c cs s r f l n k =
      decode-sized parse_url fuel d m c cs s r f l n

  -- What the decoder makes of the headers and the body.
  abbrev pub final : List ℕ → HttpMessage Url → HttpMessage Url
  final [] m = m
  final (c ∷ cs) m = record (sized parse_url (length (c ∷ cs)) m) { body = c ∷ cs }

  abbrev pub sent : List ℕ → List HttpHeader → List HttpHeader
  sent [] hs = hs
  sent (c ∷ cs) hs = hs ++ size_header parse_url (length (c ∷ cs)) ∷ []

  pub sent-left :
      (body : List ℕ) (m : HttpMessage Url)
      → (left_of body m).sequential_headers ≡ sent body m.sequential_headers
  sent-left [] m = refl
  sent-left (c ∷ cs) m = refl

  pub decode-sent :
      (fuel : ℕ) (hs : List HttpHeader) (body : List ℕ) (d : HttpProtocolDecoder Url)
      (m : HttpMessage Url)
      → All IsCustom hs
      → d.state ≡ waiting_content_length
      → d.result ≡ some m
      → find (set_all hs m).directory (as_string content_length) ≡ none
      → find_new_line body ≡ none
      → length body < 2 ^ 32
      → length hs + 3 ≤ fuel
      → (d' : HttpProtocolDecoder Url) × (decode parse_url fuel d
            (encode_headers (sent body hs) ++ body)
          ≡ ok d')
        × (d'.result ≡ some (final body (set_all hs m)))
  decode-sent fuel hs [] d m a s r f n l k = (
    record d { result = some (set_all hs m) },
    decode-encode_headers parse_url fuel hs d m [] a s r (omega (arith, k)),
    refl,
  )
  decode-sent fuel hs (c ∷ cs) d m a s r f n l k =
      let m1 = set_all hs m in
      let d1 : HttpProtocolDecoder Url = record d { result = some m1 } in
      let (spare, enough, three) = more_cases hs 3 fuel k in
      let h = size_header parse_url (length (c ∷ cs)) in
      (
        body_read parse_url d1 m1 (c ∷ cs),
        ap (λ x. decode parse_url x d (encode_headers (hs ++ h ∷ []) ++ (c ∷ cs))) enough
            ∙ (decode-customs parse_url spare hs (h ∷ []) d m (c ∷ cs) a s r
                ∙ decode-enough spare d1 m1 c cs s refl f l n three),
        refl,
      )

-- ===== src/Http/RoundTrip.antt =====
-- A response that is encoded and decoded.
use coffee.Base.{
  ℕ, suc, ◌+◌, ◌≤◌, Option, none, some, ok, List, [], ◌∷◌, ◌++◌, length, All, find, ◌≡◌, refl, ap,
  sym, ◌∙◌, arith, length-append,
}
use coffee.Http.Bytes.{bytes_key, content_length}
use coffee.Http.Message.{HttpHeader, HttpMessage, response, as_string}
use coffee.Http.Decoder.{HttpProtocolDecoder, process, decode, apply, join, new_message}
use coffee.Http.Encoder.{encode, decimal}
use coffee.Http.Bodies.{encode_headers, set_all, decode-first}
use coffee.Http.Responses.{response_words, process-response, response-one_line}
use coffee.Http.Lists.{headers-set_all, find-set_all, set_all-Same, customs-lack}
use coffee.Http.Sized.{size_header, length_name}
use coffee.Http.Framing.{
  IsResponse, length-encode_headers, left, begun, initial, final, sent, sent-left, encode-left,
  decode-sent,
}

-- The headers, and the size of a body that is not empty.
abbrev pub sized_headers : List ℕ → List HttpHeader → List HttpHeader
sized_headers [] hs = hs
sized_headers (c ∷ cs) hs =
    hs
    ++ record {
      type = some content_length;
      name = as_string content_length;
      value = decimal (suc (length cs));
    }
      ∷ []

sent-sized_headers :
    {Url : Type 0} (parse_url : List ℕ → Option Url) (encode_url : Url → List ℕ) (body : List ℕ)
    (hs : List HttpHeader)
    → sent parse_url encode_url body hs ≡ sized_headers body hs
sent-sized_headers parse_url encode_url [] hs = refl
sent-sized_headers parse_url encode_url (c ∷ cs) hs = refl

length-sent :
    {Url : Type 0} (parse_url : List ℕ → Option Url) (encode_url : Url → List ℕ) (body : List ℕ)
    (hs : List HttpHeader)
    → length hs ≤ length (sent parse_url encode_url body hs)
length-sent parse_url encode_url [] hs = omega arith
length-sent parse_url encode_url (c ∷ cs) hs =
    omega (arith, length-append hs (size_header parse_url (length (c ∷ cs)) ∷ []))

module _ {Url : Type 0} (parse_url : List ℕ → Option Url) (encode_url : Url → List ℕ) where
  final-Same :
      (body : List ℕ) (m : HttpMessage Url)
      → m.body ≡ []
      → ((final parse_url encode_url body m).first_line ≡ m.first_line)
        × ((final parse_url encode_url body m).major_version ≡ m.major_version)
        × ((final parse_url encode_url body m).minor_version ≡ m.minor_version)
        × ((final parse_url encode_url body m).body ≡ body)
        × ((final parse_url encode_url body m).sequential_headers
            ≡ sent parse_url encode_url body m.sequential_headers)
  final-Same [] m e = (refl, refl, refl, e, refl)
  final-Same (c ∷ cs) m e = (refl, refl, refl, refl, refl)

  -- The message that a response's first line starts.
  abbrev blank : HttpMessage Url → ℕ → List (List ℕ) → HttpMessage Url
  blank m code words =
      new_message parse_url (response code (join words)) (m.major_version, m.minor_version)

  no_names :
      (hs : List HttpHeader) (m : HttpMessage Url)
      → m.directory ≡ []
      → All (λ h. find m.directory h.name ≡ none) hs
  unfolding find
  no_names [] m e = tt
  no_names (h ∷ hs) m e = (ap (λ d. find d h.name) e, no_names hs m e)

  decode-response :
      (m : HttpMessage Url) (code : ℕ) (w : List ℕ) (words : List (List ℕ)) (fuel : ℕ)
      → IsResponse m code w words
      → length m.sequential_headers + 3 ≤ fuel
      → (d' : HttpProtocolDecoder Url) × (decode parse_url
            (suc fuel)
            (initial parse_url encode_url)
            (join (response_words m.major_version m.minor_version code (w ∷ words))
              ++ 13
                ∷ 10
                ∷ (encode_headers (sent parse_url encode_url m.body m.sequential_headers)
                    ++ m.body))
          ≡ ok d')
        × (d'.result
            ≡ some (
                final parse_url encode_url m.body
                  (set_all m.sequential_headers (blank m code (w ∷ words)))))
  unfolding process find new_message
  decode-response m code w words fuel h k =
      let hs = m.sequential_headers in
      let m0 = blank m code (w ∷ words) in
      let line = join (response_words m.major_version m.minor_version code (w ∷ words)) in
      let rest = encode_headers (sent parse_url encode_url m.body hs) ++ m.body in
      let start = begun parse_url encode_url m code (join (w ∷ words)) in
      let first =
        decode-first parse_url fuel (initial parse_url encode_url) start line rest
          (response-one_line m.major_version m.minor_version code (w ∷ words) h.described)
          (process-response parse_url (initial parse_url encode_url) m.major_version m.minor_version
            code w words h.major h.minor h.described) in
      let unsized =
        find-set_all hs m0 (as_string content_length) h.distinct (no_names hs m0 refl)
          (customs-lack (as_string content_length) content_length hs (length_name parse_url)
            h.customs)
          refl in
      let (d', decoded, result) =
        decode-sent parse_url encode_url fuel hs m.body start m0 h.customs refl refl unsized h.body
          h.size k in
      (d', first ∙ decoded, result)

  -- A response whose description is some words without blanks, zeros and carriage returns, whose
  -- headers are custom ones with different names, each on one line, and whose body has no new line
  -- and less than 2^32 bytes, is encoded, and the decoder reads from the encoder's buffer a message
  -- with the same first line, version and body. Its headers are those of the response, in their order,
  -- followed by the Content-Length if there is a body; the encoder leaves the same headers in its
  -- message.
  pub apply-encode :
      (m : HttpMessage Url) (code : ℕ) (w : List ℕ) (words : List (List ℕ))
      (d : HttpProtocolDecoder Url)
      → IsResponse m code w words
      → (m' r : HttpMessage Url) × (buffer : List ℕ) × (encode encode_url m ≡ ok (m', buffer))
        × (apply parse_url d buffer ≡ ok r)
        × (r.first_line ≡ m.first_line)
        × (r.major_version ≡ m.major_version)
        × (r.minor_version ≡ m.minor_version)
        × (r.body ≡ m.body)
        × (r.sequential_headers ≡ sized_headers m.body m.sequential_headers)
        × (m'.sequential_headers ≡ sized_headers m.body m.sequential_headers)
  unfolding apply new_message
  apply-encode m code w words d h =
      let hs = m.sequential_headers in
      let m0 = blank m code (w ∷ words) in
      let line = join (response_words m.major_version m.minor_version code (w ∷ words)) in
      let all = sent parse_url encode_url m.body hs in
      let buffer = line ++ 13 ∷ 10 ∷ (encode_headers all ++ m.body) in
      let room : length hs + 3 ≤ length buffer = omega (
        arith,
        length-append line (13 ∷ 10 ∷ (encode_headers all ++ m.body)),
        length-append (encode_headers all) m.body,
        length-encode_headers all,
        length-sent parse_url encode_url m.body hs,
      ) in
      let (d', decoded, result) = decode-response m code w words (length buffer) h room in
      let (f, a, b, t) = set_all-Same hs m0 in
      let (f', a', b', t', s') = final-Same m.body (set_all hs m0) t in
      let kept = headers-set_all hs m0 h.distinct (no_names hs m0 refl) in
      (
        left parse_url encode_url m,
        final parse_url encode_url m.body (set_all hs m0),
        buffer,
        encode-left parse_url encode_url m code w words h
            ∙ ap
                (λ hs'.
                  ok
                    (left parse_url encode_url m, line ++ 13 ∷ 10 ∷ (encode_headers hs' ++ m.body)))
                (sent-left parse_url encode_url m.body m),
        ground (arith, decoded, result),
        f' ∙ (f ∙ sym h.line),
        a' ∙ a,
        b' ∙ b,
        t',
        s'
            ∙ (ap (sent parse_url encode_url m.body) kept
                ∙ sent-sized_headers parse_url encode_url m.body hs),
        sent-left parse_url encode_url m.body m ∙ sent-sized_headers parse_url encode_url m.body hs,
      )

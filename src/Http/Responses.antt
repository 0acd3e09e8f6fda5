-- ===== src/Http/Responses.antt =====
-- A response's first line that is written and read back.
use coffee.Base.{
  ℕ, ◌^◌, ◌<◌, ◌≤◌, Option, some, ok, List, [], ◌∷◌, ◌++◌, length, true, false, ◌==◌, ◌≡◌, refl,
  arith,
}
use coffee.Http.Bytes.{bytes, c_str, starts_case, to_lower, is_digit}
use coffee.Http.Message.{HttpMessage, response}
use coffee.Http.Decoder.{
  HttpProtocolDecoder, waiting_content_length, try_response, join, new_message,
  process_waiting_message,
}
use coffee.Http.Encoder.{decimal, encode_version, encode_first_line}
use coffee.Http.Tokens.{one_line}
use coffee.Http.Url.Texts.{lacks, lacks-append, item}
use coffee.Http.Lines.{
  is_word, AreWords, atol-decimal, decimal-lacks, decimal-is_numeric, some-decimal,
  try_http_version-encode_version, split-join, reason-join, join-one_line,
}

pub one_line-lacks : (text : List ℕ) → one_line text ≡ lacks 13 text
unfolding one_line lacks
one_line-lacks [] = refl
one_line-lacks (c ∷ cs) = ground (arith, one_line-lacks cs)

word :
    (text : List ℕ)
    → 1 ≤ length text
    → lacks 32 text ≡ true
    → lacks 0 text ≡ true
    → lacks 13 text ≡ true
    → is_word text ≡ true
unfolding is_word item
word [] l b z r = absurd (omega (arith, l))
word (c ∷ cs) l b z r = ground (arith, b, z, r, one_line-lacks (c ∷ cs))

decimal-word : (n : ℕ) → is_word (decimal n) ≡ true
unfolding is_digit
decimal-word n =
    word (decimal n) (some-decimal n) (decimal-lacks 32 n refl) (decimal-lacks 0 n refl)
      (decimal-lacks 13 n refl)

version-lacks :
    (delim major minor : ℕ)
    → is_digit delim ≡ false
    → lacks delim (bytes "HTTP/") ≡ true
    → (46 == delim) ≡ false
    → lacks delim (encode_version major minor) ≡ true
unfolding encode_version lacks
version-lacks delim major minor d h p = ground (
  arith,
  h,
  lacks-append delim (bytes "HTTP/") (decimal major ++ 46 ∷ decimal minor),
  lacks-append delim (decimal major) (46 ∷ decimal minor),
  decimal-lacks delim major d,
  decimal-lacks delim minor d,
)

version-word : (major minor : ℕ) → is_word (encode_version major minor) ≡ true
unfolding is_digit lacks encode_version
version-word major minor =
    word (encode_version major minor) (omega arith) (version-lacks 32 major minor refl refl refl)
      (version-lacks 0 major minor refl refl refl) (version-lacks 13 major minor refl refl refl)

starts-version :
    (major minor : ℕ) → starts_case (c_str (encode_version major minor)) (bytes "http") ≡ true
unfolding starts_case c_str encode_version to_lower
starts-version major minor = refl

-- The words of a response's first line.
abbrev pub response_words : ℕ → ℕ → ℕ → List (List ℕ) → List (List ℕ)
response_words major minor code words = encode_version major minor ∷ decimal code ∷ words

module _ {Url : Type 0} (parse_url : List ℕ → Option Url) where
  try_response-words :
      (major minor code : ℕ) (w : List ℕ) (words : List (List ℕ))
      → major < 2 ^ 16
      → minor < 2 ^ 16
      → try_response parse_url (response_words major minor code (w ∷ words))
        ≡ some (new_message parse_url (response code (join (w ∷ words))) (major, minor))
  unfolding try_response
  try_response-words major minor code w words h k = ground (
    arith,
    starts-version major minor,
    try_http_version-encode_version major minor h k,
    decimal-is_numeric code,
    atol-decimal code,
  )

  -- The decoder reads the message of a response's first line.
  pub process-response :
      (d : HttpProtocolDecoder Url) (major minor code : ℕ) (w : List ℕ) (words : List (List ℕ))
      → major < 2 ^ 16
      → minor < 2 ^ 16
      → AreWords (w ∷ words)
      → process_waiting_message parse_url d (join (response_words major minor code (w ∷ words)))
        ≡ ok (
          record d {
            result = some (new_message parse_url (response code (join (w ∷ words))) (major, minor));
            state = waiting_content_length;
          },
          false,
        )
  unfolding process_waiting_message
  process-response d major minor code w words h k a =
      let items =
        split-join (response_words major minor code (w ∷ words))
          (version-word major minor, (decimal-word code, a)) in
      let read = try_response-words major minor code w words h k in ground (arith, items, read)

pub response-one_line :
    (major minor code : ℕ) (words : List (List ℕ))
    → AreWords words
    → one_line (join (response_words major minor code words)) ≡ true
response-one_line major minor code words a =
    join-one_line (response_words major minor code words)
      (version-word major minor, (decimal-word code, a))

module _ {Url : Type 0} (encode_url : Url → List ℕ) where
  -- The first line of a response whose description is some words.
  pub encode_first_line-response :
      (m : HttpMessage Url) (code : ℕ) (w : List ℕ) (words : List (List ℕ))
      → AreWords (w ∷ words)
      → m.first_line ≡ response code (join (w ∷ words))
      → encode_first_line encode_url m
        ≡ join (response_words m.major_version m.minor_version code (w ∷ words))
  unfolding encode_first_line join
  encode_first_line-response m code w words a e = ground (arith, e, reason-join code w words a)

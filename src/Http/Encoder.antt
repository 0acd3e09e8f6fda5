-- ===== src/Http/Encoder.antt =====
-- source/src/http/protocol/HttpProtocolEncoder.cc, with the first lines of source/src/http/HttpRequest.cc
-- and source/src/http/HttpResponse.cc. The text of a request's URL is the parameter `encode_url`. A
-- number is written in decimal, as `snprintf` and the streams do.
use coffee.Base.{
  ℕ, zero, suc, ◌+◌, ◌/◌, ◌%◌, none, some, Result, ok, raise, List, [], ◌∷◌, ◌++◌, length,
  get_elem?, number_key, true, false, if◌then◌else◌, ltb, find,
}
use coffee.Http.Bytes.{bytes, c_str, request_method_names, content_length}
use coffee.Http.Message.{Error, HttpMessage, request, response, has_header, set_header}
use coffee.Http.Bodies.{encode_headers}

-- The digits of a number before those that are there; the number itself is enough fuel.
unfoldable pub decimal_from : ℕ → ℕ → List ℕ → List ℕ
decimal_from zero n digits = digits
decimal_from (suc fuel) n digits =
    let others = decimal_from fuel (n / 10) ((48 + n % 10) ∷ digits) in
    if ltb n 10 then (48 + n) ∷ digits else others

unfoldable pub decimal : ℕ → List ℕ
decimal n = decimal_from (suc n) n []

abbrev pub reasons : List (ℕ × List ℕ)
reasons =
    (100, bytes "Continue")
    ∷ (101, bytes "Switching Protocols")
    ∷ (200, bytes "OK")
    ∷ (201, bytes "Created")
    ∷ (202, bytes "Accepted")
    ∷ (203, bytes "Non-Authoritative Information")
    ∷ (204, bytes "No Content")
    ∷ (205, bytes "Reset Content")
    ∷ (206, bytes "Partial Content")
    ∷ (300, bytes "Multiple Choise")
    ∷ (301, bytes "Moved Permanently")
    ∷ (302, bytes "Found")
    ∷ (303, bytes "See Other")
    ∷ (304, bytes "Not Modified")
    ∷ (305, bytes "Use proxy")
    ∷ (307, bytes "Temporary Redirect")
    ∷ (400, bytes "Bad Request")
    ∷ (401, bytes "Unautorized")
    ∷ (402, bytes "Payment Required")
    ∷ (403, bytes "Forbidden")
    ∷ (404, bytes "Not found")
    ∷ (405, bytes "Method Not Allowed")
    ∷ (406, bytes "Not Acceptable")
    ∷ (407, bytes "Proxy Authentication Required")
    ∷ (408, bytes "Request Time-out")
    ∷ (409, bytes "Conflict")
    ∷ (410, bytes "Gone")
    ∷ (411, bytes "Length Required")
    ∷ (412, bytes "Precondition Failed")
    ∷ (413, bytes "Request Entity Too Large")
    ∷ (414, bytes "Request-URI Too Large")
    ∷ (415, bytes "Unsupported Media Type")
    ∷ (416, bytes "Requested range not satisfiable")
    ∷ (417, bytes "Expectation Failed")
    ∷ (500, bytes "Internal Server Error")
    ∷ (501, bytes "Not Implemented")
    ∷ (502, bytes "Bad Gateway")
    ∷ (503, bytes "Service Unavailable")
    ∷ (504, bytes "Gateway Time-out")
    ∷ (505, bytes "HTTP Version not supported")
    ∷ []

unfoldable pub reason : ℕ → List ℕ → List ℕ
reason status_code [] = elim (find reasons status_code) [
  | none ↦ bytes "Unknown"
  | some text ↦ text
]
reason status_code (c ∷ cs) = c_str (c ∷ cs)

-- `Method::asString`.
unfoldable pub method_name : ℕ → List ℕ
method_name method = elim (get_elem? request_method_names method) [ none ↦ [] | some name ↦ name ]

unfoldable pub encode_version : ℕ → ℕ → List ℕ
encode_version major minor = bytes "HTTP/" ++ (decimal major ++ 46 ∷ decimal minor)

module _ {Url : Type 0} (encode_url : Url → List ℕ) where
  unfoldable pub encode_first_line : HttpMessage Url → List ℕ
  encode_first_line m =
      let version = encode_version m.major_version m.minor_version in
      elim m.first_line [
        | request method url ↦ method_name method ++ 32 ∷ (encode_url url ++ 32 ∷ version)
        | response code description ↦ version ++ 32 ∷ (decimal code ++ 32 ∷ reason code description)
      ]

  -- The message with its body's size in a header, if it has a body and no such header.
  unfoldable pub with_content_length : HttpMessage Url → Result Error (HttpMessage Url)
  with_content_length m = elim m.body [
    | [] ↦ ok m
    | c ∷ cs ↦ elim (has_header m (some content_length)) [
      | raise e ↦ raise e
      | ok true ↦ ok m
      | ok false ↦ set_header (some content_length) (decimal (length m.body)) m
    ]
  ]

  -- `HttpProtocolEncoder::apply`: the message that it leaves, and the buffer.
  unfoldable pub encode : HttpMessage Url → Result Error (HttpMessage Url × List ℕ)
  encode m = elim (with_content_length m) [
    | raise e ↦ raise e
    | ok m' ↦
        ok (m', encode_first_line m ++ 13 ∷ 10 ∷ (encode_headers m'.sequential_headers ++ m.body))
  ]

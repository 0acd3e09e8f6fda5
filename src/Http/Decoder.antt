-- ===== src/Http/Decoder.antt =====
-- source/src/http/protocol/HttpProtocolDecoder.cc and the four states of source/src/http/protocol/state.
--
-- The state objects have no data: `m_state` is a value of `State`. A token's `currentPosition` is the
-- rest of the data. The parser of a request's URL is the parameter `parse_url`. A status
-- code is a natural number: `atoi` reads the same one if it is below 2^31, and is undefined above.
use coffee.Base.{
  ℕ, zero, suc, ◌^◌, ◌%◌, Option, none, some, Result, ok, raise, List, [], ◌∷◌, ◌++◌, length, Bool,
  true, false, ◌&&◌, if◌then◌else◌, ◌==◌,
}
use coffee.Http.Bytes.{
  bytes, c_str, starts_case, separate, split, is_numeric, atol, index_of, request_method_names,
  header_names, content_length,
}
use coffee.Http.Message.{
  Error, no_message, body_length, invalid_url, out_of_fuel, HttpMessage, FirstLine, request,
  response, set_custom_header, set_header,
}

pub data State : Type 0 where
  waiting_message waiting_content_length waiting_body read_body : State

pub record HttpProtocolDecoder (Url : Type 0) : Type 0 where
  pub state : State
  pub body_expected_size : ℕ
  pub result : Option (HttpMessage Url)

-- The text before the first new line, CR and LF, and the rest after it.
unfoldable pub find_new_line : List ℕ → Option (List ℕ × List ℕ)
find_new_line [] = none
find_new_line (c ∷ []) = none
find_new_line (c ∷ d ∷ cs) =
    let rest = find_new_line (d ∷ cs) in
    if c == 13 && d == 10
    then some ([], cs)
    else elim rest [ none ↦ none | some (line, after) ↦ some (c ∷ line, after) ]

unfoldable pub read_token : List ℕ → Option (List ℕ × List ℕ)
read_token [] = none
read_token (c ∷ cs) = elim (find_new_line (c ∷ cs)) [
  | none ↦ some (c ∷ cs, [])
  | some token ↦ some token
]

-- Major and minor version: `uint16_t`.
unfoldable pub try_http_version : List ℕ → Option (ℕ × ℕ)
try_http_version item =
    let (major, minor) = separate (separate item 47).1 46 in
    if is_numeric major && is_numeric minor
    then some (atol major % 2 ^ 16, atol minor % 2 ^ 16)
    else none

-- The items with a blank between two of them.
unfoldable pub join : List (List ℕ) → List ℕ
join [] = []
join (item ∷ []) = item
join (item ∷ next ∷ items) = item ++ 32 ∷ join (next ∷ items)

module _ {Url : Type 0} (parse_url : List ℕ → Option Url) where
  unfoldable pub new_message : FirstLine Url → ℕ × ℕ → HttpMessage Url
  new_message first_line version = record {
    major_version = version.0;
    minor_version = version.1;
    first_line = first_line;
    sequential_headers = [];
    directory = [];
    body = [];
  }

  unfoldable pub try_response : List (List ℕ) → Option (HttpMessage Url)
  try_response (version ∷ code ∷ description ∷ others) =
      if starts_case (c_str version) (bytes "http")
      then elim (try_http_version version) [
        | none ↦ none
        | some v ↦
            if is_numeric code
            then some (new_message (response (atol code) (join (description ∷ others))) v)
            else none
      ]
      else none
  try_response items = none

  unfoldable pub try_request : List (List ℕ) → Result Error (Option (HttpMessage Url))
  try_request (method ∷ url ∷ version ∷ others) =
      elim (index_of (c_str method) request_method_names) [
        | none ↦ ok none
        | some m ↦ elim (try_http_version version) [
          | none ↦ ok none
          | some v ↦ elim (parse_url url) [
            | none ↦ raise invalid_url
            | some u ↦ ok (some (new_message (request m u) v))
          ]
        ]
      ]
  try_request items = ok none

  -- The decoder after a token, and whether the message is complete.
  unfoldable pub process_waiting_message :
      HttpProtocolDecoder Url → List ℕ → Result Error (HttpProtocolDecoder Url × Bool)
  process_waiting_message d token =
      let started : HttpMessage Url → HttpProtocolDecoder Url =
        λ m. record d { result = some m; state = waiting_content_length } in
      elim (try_response (split token 32)) [
        | some m ↦ ok (started m, false)
        | none ↦ elim (try_request (split token 32)) [
          | raise e ↦ raise e
          | ok none ↦ ok (d, false)
          | ok (some m) ↦ ok (started m, false)
        ]
      ]

  -- `m_result->setHeader` or `setCustomHeader` by the name of a header's line, and the standard type.
  -- Every state after the first has a message.
  unfoldable pub set_line :
      HttpProtocolDecoder Url → List ℕ × List ℕ → Result Error (HttpProtocolDecoder Url × Option ℕ)
  set_line d (name, value) = elim d.result [
    | none ↦ raise no_message
    | some m ↦ elim (index_of (c_str name) header_names) [
      | none ↦ ok (record d { result = some (set_custom_header name value m) }, none)
      | some type ↦ elim (set_header (some type) value m) [
        | raise e ↦ raise e
        | ok m' ↦ ok (record d { result = some m' }, some type)
      ]
    ]
  ]

  -- After a `Content-Length` that is a number a body is expected. `m_bodyExpectedSize` is a `uint32_t`.
  unfoldable pub expect_body : List ℕ → HttpProtocolDecoder Url → Option ℕ → HttpProtocolDecoder Url
  expect_body value d none = d
  expect_body value d (some type) =
      if type == content_length && is_numeric value
      then record d { body_expected_size = atol value % 2 ^ 32; state = waiting_body }
      else d

  unfoldable pub process_waiting_content_length :
      HttpProtocolDecoder Url → List ℕ → Result Error (HttpProtocolDecoder Url × Bool)
  process_waiting_content_length d [] = ok (d, true)
  process_waiting_content_length d (c ∷ cs) =
      let items = separate (c ∷ cs) 58 in
      elim (set_line d items) [
        | raise e ↦ raise e
        | ok (d', type) ↦ ok (expect_body items.1 d' type, false)
      ]

  unfoldable pub process_waiting_body :
      HttpProtocolDecoder Url → List ℕ → Result Error (HttpProtocolDecoder Url × Bool)
  process_waiting_body d [] = ok (record d { state = read_body }, false)
  process_waiting_body d (c ∷ cs) = elim (set_line d (separate (c ∷ cs) 58)) [
    | raise e ↦ raise e
    | ok (d', type) ↦ ok (d', false)
  ]

  unfoldable pub process_read_body :
      HttpProtocolDecoder Url → List ℕ → Result Error (HttpProtocolDecoder Url × Bool)
  process_read_body d token =
      if length token == d.body_expected_size
      then elim d.result [
        | none ↦ raise no_message
        | some m ↦ ok (record d { result = some (record m { body = token }) }, true)
      ]
      else raise body_length

  unfoldable pub process :
      State → HttpProtocolDecoder Url → List ℕ → Result Error (HttpProtocolDecoder Url × Bool)
  process waiting_message d token = process_waiting_message d token
  process waiting_content_length d token = process_waiting_content_length d token
  process waiting_body d token = process_waiting_body d token
  process read_body d token = process_read_body d token

  -- The loop of `apply`, on the rest of the data.
  unfoldable pub decode :
      ℕ → HttpProtocolDecoder Url → List ℕ → Result Error (HttpProtocolDecoder Url)
  decode zero d block = raise out_of_fuel
  decode (suc fuel) d block = elim (read_token block) [
    | none ↦ ok d
    | some (token, rest) ↦ elim (process d.state d token) [
      | raise e ↦ raise e
      | ok (d', true) ↦ ok d'
      | ok (d', false) ↦ decode fuel d' rest
    ]
  ]

  unfoldable pub apply : HttpProtocolDecoder Url → List ℕ → Result Error (HttpMessage Url)
  apply d block =
      let d0 : HttpProtocolDecoder Url = record d {
        state = waiting_message;
        result = none;
        body_expected_size = 0;
      } in
      elim (decode (suc (length block)) d0 block) [
        | raise e ↦ raise e
        | ok d' ↦ elim d'.result [ none ↦ raise no_message | some m ↦ ok m ]
      ]

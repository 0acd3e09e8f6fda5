-- ===== src/Http/Tests.antt =====
-- Runs and instances of the theorems of Http.
use coffee.Base.{
  ℕ, Option, none, some, ok, raise, List, [], ◌∷◌, ◌++◌, find, assign, erase, true, ◌≡◌, ◌≢◌, refl,
  arith,
}
use coffee.Http.Bytes.{
  bytes, bytes_key, c_str, to_lower, same_case, starts_case, separate, add_byte, in_item,
  split_items, split, is_digit, all_digits, is_numeric, atol_from, atol, index_of,
}
use coffee.Http.Message.{
  body_length, out_of_fuel, HttpHeader, HttpMessage, response, as_string, set_value, encode_header,
  has_header, has_custom_header, get_custom_header_value, set_value_at, insert_header,
  set_custom_header, set_header,
}
use coffee.Http.Decoder.{
  State, waiting_message, waiting_content_length, read_body, HttpProtocolDecoder, find_new_line,
  read_token, try_http_version, join, new_message, try_response, try_request,
  process_waiting_message, set_line, expect_body, process_waiting_content_length,
  process_waiting_body, process_read_body, process, decode, apply,
}
use coffee.Http.Tokens.{one_line, apply-out_of_fuel}
use coffee.Http.Headers.{Linked, current_value, set_custom_header-get}
use coffee.Http.Bodies.{has_colon, IsCustom, encode_headers, set_all, decode-body_length}
use coffee.Http.Encoder.{
  decimal_from, decimal, encode_version, reason, encode_first_line, with_content_length, encode,
}
use coffee.Http.Url.Texts.{lacks, item}
use coffee.Http.Lines.{is_word}
use coffee.Http.Lists.{AreDistinct}
use coffee.Http.Framing.{IsResponse}
use coffee.Http.RoundTrip.{sized_headers, apply-encode}

program : Unit {0}
unfolding decimal_from decimal encode_version reason encode_first_line with_content_length encode
    has_header lacks item is_word AreDistinct c_str to_lower same_case starts_case separate add_byte
    in_item split_items split is_digit all_digits is_numeric atol_from atol index_of as_string
    set_value encode_header has_custom_header get_custom_header_value set_value_at insert_header
    set_custom_header set_header find_new_line read_token try_http_version join new_message
    try_response try_request process_waiting_message set_line expect_body
    process_waiting_content_length process_waiting_body process_read_body process decode apply
    one_line Linked current_value has_colon encode_headers set_all find assign erase
program = tt

abbrev parse_url : List ℕ → Option (List ℕ)
parse_url url = some url

abbrev message : HttpMessage (List ℕ)
message = record {
  major_version = 1;
  minor_version = 1;
  first_line = response 200 (bytes "OK");
  sequential_headers = [];
  directory = [];
  body = [];
}

abbrev decoder : State → ℕ → HttpProtocolDecoder (List ℕ)
decoder state size = record { state = state; body_expected_size = size; result = some message }

abbrev new_line : List ℕ
new_line = 13 ∷ 10 ∷ []

abbrev answer : List ℕ
answer =
    bytes "HTTP/1.1 200 OK"
    ++ new_line
    ++ bytes "content-length:3"
    ++ new_line
    ++ new_line
    ++ bytes "abc"

split_skips : split (bytes " GET  /a ") 32 ≡ bytes "GET" ∷ bytes "/a" ∷ []
unfolding program
split_skips = refl

reads_answer :
    apply parse_url (decoder waiting_message 0) answer
    ≡ ok (record message {
      sequential_headers =
          record { type = some 31; name = bytes "Content-Length"; value = bytes "3" } ∷ [];
      directory = (bytes "Content-Length", 0) ∷ [];
      body = bytes "abc";
    })
unfolding program
reads_answer = refl

-- A blank before the number hides the length of the body from the decoder.
ignores_length :
    expect_body parse_url (bytes " 3") (decoder waiting_content_length 0) (some 31)
    ≡ decoder waiting_content_length 0
unfolding program
ignores_length = refl

apply-out_of_fuel_example : apply parse_url (decoder waiting_message 0) answer ≢ raise out_of_fuel
apply-out_of_fuel_example = apply-out_of_fuel parse_url (decoder waiting_message 0) answer

message-Linked : Linked message
unfolding program
message-Linked name i h = cc

set_custom_header-get_example :
    Linked (set_custom_header (bytes "a") (bytes "1") message)
    × (get_custom_header_value (set_custom_header (bytes "a") (bytes "1") message) (bytes "a")
        ≡ ok (set_value (current_value message (bytes "a")) (bytes "1")))
set_custom_header-get_example =
    set_custom_header-get (bytes "a") (bytes "1") (bytes "a") message message-Linked

abbrev custom : HttpHeader
custom = record { type = none; name = bytes "id"; value = bytes "7:8" }

custom-IsCustom : IsCustom custom
unfolding program
custom-IsCustom = record {
  named = λ e. cc;
  no_colon = refl;
  name_line = refl;
  value_line = refl;
  not_standard = refl;
}

no_new_line : find_new_line (bytes "abc") ≡ none
unfolding program
no_new_line = refl

a_line : one_line (bytes "a") ≡ true
unfolding program
a_line = refl

decode-body_length_example :
    decode parse_url 1 (decoder read_body 4) (bytes "a" ++ 13 ∷ 10 ∷ bytes "b") ≡ raise body_length
decode-body_length_example =
    decode-body_length parse_url 0 (decoder read_body 4) (bytes "a") (bytes "b") refl a_line refl

abbrev reply : HttpMessage (List ℕ)
reply = record {
  major_version = 1;
  minor_version = 1;
  first_line = response 404 (bytes "not there");
  sequential_headers = custom ∷ [];
  directory = (bytes "id", 0) ∷ [];
  body = bytes "abc";
}

abbrev encode_url : List ℕ → List ℕ
encode_url url = url

encode-reply :
    (m : HttpMessage (List ℕ)) × (encode encode_url reply
      ≡ ok (
        m,
        bytes "HTTP/1.1 404 not there"
            ++ new_line
            ++ bytes "id:7:8"
            ++ new_line
            ++ bytes "Content-Length:3"
            ++ new_line
            ++ new_line
            ++ bytes "abc",
      ))
unfolding program
encode-reply = (_, refl)

reply-IsResponse : IsResponse reply 404 (bytes "not") (bytes "there" ∷ [])
unfolding program
reply-IsResponse = record {
  line = refl;
  described = (refl, (refl, tt));
  major = omega arith;
  minor = omega arith;
  customs = (custom-IsCustom, tt);
  distinct = (refl, tt, tt);
  unsized = refl;
  body = refl;
  size = omega arith;
}

apply-encode_example :
    (m' r : HttpMessage (List ℕ)) × (buffer : List ℕ) × (encode encode_url reply ≡ ok (m', buffer))
    × (apply parse_url (decoder waiting_message 0) buffer ≡ ok r)
    × (r.first_line ≡ reply.first_line)
    × (r.major_version ≡ 1)
    × (r.minor_version ≡ 1)
    × (r.body ≡ bytes "abc")
    × (r.sequential_headers ≡ sized_headers reply.body reply.sequential_headers)
    × (m'.sequential_headers ≡ sized_headers reply.body reply.sequential_headers)
apply-encode_example =
    apply-encode parse_url encode_url reply 404 (bytes "not") (bytes "there" ∷ [])
      (decoder waiting_message 0) reply-IsResponse

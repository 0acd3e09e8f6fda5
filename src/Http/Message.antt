-- ===== src/Http/Message.antt =====
-- source/src/http/HttpMessage.cc, with HttpHeader, HttpRequest and HttpResponse: a message and its
-- headers. `m_directory` gives the position of a header in `m_sequentialHeaders`, from which none is
-- taken out but by `clear`. What a request's URL is parsed into is the parameter `Url`.
use coffee.Base.{
  ℕ, Option, none, some, Result, ok, raise, List, [], ◌∷◌, ◌++◌, length, get_elem?, set, find,
  assign, Bool, true, false,
}
use coffee.Http.Bytes.{bytes_key, header_names}

pub data Error : Type 0 where
  custom_type header_not_found : Error
  no_message body_length invalid_url out_of_fuel : Error

-- `none` is the type `Custom`; a standard type is its number.
pub record HttpHeader : Type 0 where
  pub type : Option ℕ
  pub name : List ℕ
  pub value : List ℕ

pub data FirstLine (Url : Type 0) : Type 0 where
  request : ℕ → Url → FirstLine Url
  response : ℕ → List ℕ → FirstLine Url

pub record HttpMessage (Url : Type 0) : Type 0 where
  pub major_version : ℕ
  pub minor_version : ℕ
  pub first_line : FirstLine Url
  pub sequential_headers : List HttpHeader
  pub directory : List (List ℕ × ℕ)
  pub body : List ℕ

-- `Type::asString` of a standard type.
unfoldable pub as_string : ℕ → List ℕ
as_string type = elim (get_elem? header_names type) [ none ↦ [] | some name ↦ name ]

-- A second value is added after a comma.
unfoldable pub set_value : List ℕ → List ℕ → List ℕ
set_value [] value = value
set_value (c ∷ cs) value = (c ∷ cs) ++ 44 ∷ value

unfoldable pub encode_header : HttpHeader → List ℕ
encode_header h = h.name ++ 58 ∷ h.value

module _ {Url : Type 0} where
  unfoldable pub has_custom_header : HttpMessage Url → List ℕ → Bool
  has_custom_header m name = elim (find m.directory name) [ none ↦ false | some _ ↦ true ]

  unfoldable pub has_header : HttpMessage Url → Option ℕ → Result Error Bool
  has_header m none = raise custom_type
  has_header m (some type) = ok (has_custom_header m (as_string type))

  unfoldable pub get_custom_header_value : HttpMessage Url → List ℕ → Result Error (List ℕ)
  get_custom_header_value m name = elim (find m.directory name) [
    | none ↦ raise header_not_found
    | some i ↦ elim (get_elem? m.sequential_headers i) [
      | none ↦ raise header_not_found
      | some h ↦ ok h.value
    ]
  ]

  unfoldable pub get_header_value : HttpMessage Url → Option ℕ → Result Error (List ℕ)
  get_header_value m none = raise custom_type
  get_header_value m (some type) = get_custom_header_value m (as_string type)

  -- `HttpHeader::setValue` of the header at a position of the list.
  unfoldable pub set_value_at : ℕ → List ℕ → HttpMessage Url → HttpMessage Url
  set_value_at i value m = elim (get_elem? m.sequential_headers i) [
    | none ↦ m
    | some h ↦ record m {
      sequential_headers =
          set m.sequential_headers i (record h { value = set_value h.value value });
    }
  ]

  unfoldable pub insert_header : Option ℕ → List ℕ → List ℕ → HttpMessage Url → HttpMessage Url
  insert_header type name value m = record m {
    sequential_headers =
        m.sequential_headers
        ++ record { type = type; name = name; value = set_value [] value } ∷ [];
    directory = assign m.directory name (length m.sequential_headers);
  }

  unfoldable pub set_custom_header : List ℕ → List ℕ → HttpMessage Url → HttpMessage Url
  set_custom_header name value m = elim (find m.directory name) [
    | none ↦ insert_header none name value m
    | some i ↦ set_value_at i value m
  ]

  unfoldable pub set_header : Option ℕ → List ℕ → HttpMessage Url → Result Error (HttpMessage Url)
  set_header none value m = raise custom_type
  set_header (some type) value m = elim (find m.directory (as_string type)) [
    | none ↦ ok (insert_header (some type) (as_string type) value m)
    | some i ↦ ok (set_value_at i value m)
  ]

-- ===== src/Http/Bytes.antt =====
-- source/src/http/protocol/defines.cc: texts as lists of bytes, and how the protocol cuts them.
use Prim.Native.Char.{code}
use coffee.Base.{
  ℕ, ◌+◌, ◌*◌, ◌-◌, String, Bool, true, false, ◌&&◌, not, List, [], ◌∷◌, if◌then◌else◌, ◌==◌,
  ==_iff, leb, Key, ◌≡◌, ◌↔◌, refl, arith, Option, none, some,
}

abbrev pub bytes : String → List ℕ
bytes String.[] = []
bytes (String.◌∷◌ first others) = code first ∷ bytes others

abbrev pub same_bytes : List ℕ → List ℕ → Bool
same_bytes [] [] = true
same_bytes [] (d ∷ ds) = false
same_bytes (c ∷ cs) [] = false
same_bytes (c ∷ cs) (d ∷ ds) = c == d && same_bytes cs ds

pub same_bytes_iff : (cs ds : List ℕ) → (same_bytes cs ds ≡ true) ↔ (cs ≡ ds)
same_bytes_iff [] [] = (λ e. refl, λ e. refl)
same_bytes_iff [] (d ∷ ds) = (λ e. cc, λ e. cc)
same_bytes_iff (c ∷ cs) [] = (λ e. cc, λ e. cc)
same_bytes_iff (c ∷ cs) (d ∷ ds) = (
  λ e. ground (arith, ==_iff c d, same_bytes_iff cs ds),
  λ e. ground (arith, ==_iff c d, same_bytes_iff cs ds),
)

instance abbrev pub bytes_key : Key (List ℕ)
bytes_key = record { same = same_bytes; same_iff = same_bytes_iff }

-- The bytes that a C string function sees: those before the first zero.
unfoldable pub c_str : List ℕ → List ℕ
c_str [] = []
c_str (c ∷ cs) = if c == 0 then [] else c ∷ c_str cs

unfoldable pub to_lower : ℕ → ℕ
to_lower c = if leb 65 c && leb c 90 then c + 32 else c

-- `strcasecmp` is 0.
unfoldable pub same_case : List ℕ → List ℕ → Bool
same_case [] [] = true
same_case [] (d ∷ ds) = false
same_case (c ∷ cs) [] = false
same_case (c ∷ cs) (d ∷ ds) = to_lower c == to_lower d && same_case cs ds

-- `strncasecmp` over the length of the second text is 0.
unfoldable pub starts_case : List ℕ → List ℕ → Bool
starts_case cs [] = true
starts_case [] (d ∷ ds) = false
starts_case (c ∷ cs) (d ∷ ds) = to_lower c == to_lower d && starts_case cs ds

unfoldable pub separate : List ℕ → ℕ → List ℕ × List ℕ
separate [] delim = ([], [])
separate (c ∷ cs) delim =
    let (first, second) = separate cs delim in if c == delim then ([], cs) else (c ∷ first, second)

-- A byte goes to the first item, which is new if the one before was a delimiter.
unfoldable pub add_byte : ℕ → Bool → List (List ℕ) → List (List ℕ)
add_byte c true (item ∷ items) = (c ∷ item) ∷ items
add_byte c true [] = (c ∷ []) ∷ []
add_byte c false items = (c ∷ []) ∷ items

unfoldable pub in_item : List ℕ → ℕ → Bool
in_item [] delim = false
in_item (c ∷ cs) delim = not (c == delim)

-- `strtok_r` until it returns null: the runs of bytes between delimiters, without empty ones.
unfoldable pub split_items : List ℕ → ℕ → List (List ℕ)
split_items [] delim = []
split_items (c ∷ cs) delim =
    let items = split_items cs delim in
    if c == delim then items else add_byte c (in_item cs delim) items

unfoldable pub split : List ℕ → ℕ → List (List ℕ)
split text delim = split_items (c_str text) delim

unfoldable pub is_digit : ℕ → Bool
is_digit c = leb 48 c && leb c 57

unfoldable pub all_digits : List ℕ → Bool
all_digits [] = true
all_digits (c ∷ cs) = is_digit c && all_digits cs

unfoldable pub is_numeric : List ℕ → Bool
is_numeric [] = false
is_numeric (c ∷ cs) = all_digits (c ∷ cs)

-- `atoi` and `atol` of digits.
unfoldable pub atol_from : ℕ → List ℕ → ℕ
atol_from n [] = n
atol_from n (c ∷ cs) = atol_from (n * 10 + (c - 48)) cs

unfoldable pub atol : List ℕ → ℕ
atol text = atol_from 0 text

abbrev pub request_method_names : List (List ℕ)
request_method_names =
    bytes "PORT"
    ∷ bytes "OPTIONS"
    ∷ bytes "GET"
    ∷ bytes "HEAD"
    ∷ bytes "PUT"
    ∷ bytes "DELETE"
    ∷ bytes "TRACE"
    ∷ bytes "CONNECT"
    ∷ []

abbrev pub header_names : List (List ℕ)
header_names =
    bytes "Cache-Control"
    ∷ bytes "Connection"
    ∷ bytes "Date"
    ∷ bytes "Pragma"
    ∷ bytes "Trailer"
    ∷ bytes "Transfer-Encoding"
    ∷ bytes "Upgrade"
    ∷ bytes "Via"
    ∷ bytes "Warning"
    ∷ bytes "Accept"
    ∷ bytes "Accept-Charset"
    ∷ bytes "Accept-Encoding"
    ∷ bytes "Accept-Language"
    ∷ bytes "Authorization"
    ∷ bytes "Expect"
    ∷ bytes "From"
    ∷ bytes "Host"
    ∷ bytes "If-Match"
    ∷ bytes "If-Modified-Since"
    ∷ bytes "If-None-Match"
    ∷ bytes "If-Range"
    ∷ bytes "If-Unmodified-Since"
    ∷ bytes "Max-Forwards"
    ∷ bytes "Proxy-Authorization"
    ∷ bytes "Range"
    ∷ bytes "Referer"
    ∷ bytes "TE"
    ∷ bytes "User-Agent"
    ∷ bytes "Allow"
    ∷ bytes "Content-Encoding"
    ∷ bytes "Content-Language"
    ∷ bytes "Content-Length"
    ∷ bytes "Content-Location"
    ∷ bytes "Content-MD5"
    ∷ bytes "Content-Range"
    ∷ bytes "Content-Type"
    ∷ bytes "Expires"
    ∷ bytes "Last-Modified"
    ∷ bytes "Accept-Ranges"
    ∷ bytes "Age"
    ∷ bytes "ETAG"
    ∷ bytes "Location"
    ∷ bytes "Proxy-Authenticate"
    ∷ bytes "Retry-After"
    ∷ bytes "Server"
    ∷ bytes "Vary"
    ∷ bytes "WWW-Authenticate"
    ∷ []

-- The index of the first name that is the text but for case.
unfoldable pub index_of : List ℕ → List (List ℕ) → Option ℕ
index_of text [] = none
index_of text (name ∷ names) =
    if same_case text name
    then some 0
    else elim (index_of text names) [ none ↦ none | some i ↦ some (1 + i) ]

abbrev pub content_length : ℕ
content_length = 31

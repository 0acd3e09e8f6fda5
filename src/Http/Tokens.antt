-- ===== src/Http/Tokens.antt =====
-- How the decoder cuts its data into lines, and that it comes to the end of them.
use coffee.Base.{
  ℕ, zero, suc, ◌+◌, ◌<◌, Option, none, some, raise, List, [], ◌∷◌, ◌++◌, length, Bool, true, false,
  ◌≡◌, ◌≢◌, refl, arith, if◌then◌else◌, ◌==◌, Option-cases, Result-cases, inl, inr,
}
use coffee.Http.Bytes.{separate}
use coffee.Http.Message.{out_of_fuel, set_header}
use coffee.Http.Decoder.{
  State, waiting_message, waiting_content_length, waiting_body, read_body, HttpProtocolDecoder,
  find_new_line, read_token, try_request, process_waiting_message, set_line,
  process_waiting_content_length, process_waiting_body, process_read_body, process, decode, apply,
}

-- The text has no carriage return.
unfoldable pub one_line : List ℕ → Bool
one_line [] = true
one_line (c ∷ cs) = if c == 13 then false else one_line cs

pub find_new_line-append :
    (line rest : List ℕ)
    → one_line line ≡ true
    → find_new_line (line ++ 13 ∷ 10 ∷ rest) ≡ some (line, rest)
unfolding one_line find_new_line
find_new_line-append [] rest h = refl
find_new_line-append (c ∷ []) rest h = ground arith
find_new_line-append (c ∷ d ∷ cs) rest h = ground (arith, find_new_line-append (d ∷ cs) rest)

pub read_token-append :
    (line rest : List ℕ)
    → one_line line ≡ true
    → read_token (line ++ 13 ∷ 10 ∷ rest) ≡ some (line, rest)
unfolding read_token
read_token-append [] rest h = ground (arith, find_new_line-append [] rest)
read_token-append (c ∷ cs) rest h = ground (arith, find_new_line-append (c ∷ cs) rest)

find_new_line-length :
    (cs line rest : List ℕ)
    → find_new_line cs ≡ some (line, rest)
    → length line + 2 + length rest ≡ length cs
unfolding find_new_line
find_new_line-length [] line rest h = cc
find_new_line-length (c ∷ []) line rest h = cc
find_new_line-length (c ∷ d ∷ cs) line rest h = elim (Option-cases (find_new_line (d ∷ cs))) [
  | inl n ↦ ground arith
  | inr ((l, r), e) ↦ ground (arith, find_new_line-length (d ∷ cs) l r e)
]

read_token-length :
    (cs line rest : List ℕ) → read_token cs ≡ some (line, rest) → length rest < length cs
unfolding read_token
read_token-length [] line rest h = cc
read_token-length (c ∷ cs) line rest h = ground (arith, find_new_line-length (c ∷ cs) line rest)

module _ {Url : Type 0} (parse_url : List ℕ → Option Url) where
  set_line-out_of_fuel :
      (d : HttpProtocolDecoder Url) (items : List ℕ × List ℕ)
      → set_line parse_url d items ≢ raise out_of_fuel
  unfolding set_line set_header
  set_line-out_of_fuel d items h = ground arith

  process-out_of_fuel :
      (s : State) (d : HttpProtocolDecoder Url) (token : List ℕ)
      → process parse_url s d token ≢ raise out_of_fuel
  unfolding process process_waiting_message process_waiting_content_length process_waiting_body
      process_read_body try_request
  process-out_of_fuel waiting_message d token h = ground arith
  process-out_of_fuel waiting_content_length d [] h = cc
  process-out_of_fuel waiting_content_length d (c ∷ cs) h =
      ground (arith, set_line-out_of_fuel d (separate (c ∷ cs) 58))
  process-out_of_fuel waiting_body d [] h = cc
  process-out_of_fuel waiting_body d (c ∷ cs) h =
      ground (arith, set_line-out_of_fuel d (separate (c ∷ cs) 58))
  process-out_of_fuel read_body d token h = ground arith

  -- With fuel for each byte the loop comes to its end.
  decode-out_of_fuel :
      (fuel : ℕ) (d : HttpProtocolDecoder Url) (block : List ℕ)
      → length block < fuel
      → decode parse_url fuel d block ≢ raise out_of_fuel
  unfolding decode
  decode-out_of_fuel zero d block m h = omega arith
  decode-out_of_fuel (suc fuel) d block m h = elim (Option-cases (read_token block)) [
    | inl n ↦ ground arith
    | inr ((token, rest), e) ↦ elim (Result-cases (process parse_url d.state d token)) [
      | inl (x, p) ↦ ground (arith, process-out_of_fuel d.state d token)
      | inr ((d', complete), p) ↦
          ground (arith, read_token-length block token rest e, decode-out_of_fuel fuel d' rest)
    ]
  ]

  -- Whatever the data, `apply` returns a message or throws: the loop takes a byte of the data in each
  -- round.
  pub apply-out_of_fuel :
      (d : HttpProtocolDecoder Url) (block : List ℕ) → apply parse_url d block ≢ raise out_of_fuel
  unfolding apply
  apply-out_of_fuel d block h =
      let d0 : HttpProtocolDecoder Url = record d {
        state = waiting_message;
        result = none;
        body_expected_size = 0;
      } in
      ground (arith, decode-out_of_fuel (suc (length block)) d0 block)

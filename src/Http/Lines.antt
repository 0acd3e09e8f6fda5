-- ===== src/Http/Lines.antt =====
-- First lines that are written and read back: numbers, versions and words.
use coffee.Base.{
  ℕ, zero, suc, ◌+◌, ◌*◌, ◌-◌, ◌/◌, ◌%◌, ◌^◌, ◌<◌, ◌≤◌, some, List, [], ◌∷◌, ◌++◌, length, All,
  Bool, true, false, ◌&&◌, ltb, ◌≡◌, ◌≢◌, refl, ap, sym, ◌∙◌, append-nil, arith, inl, inr,
  Bool-cases,
}
use coffee.Http.Bytes.{
  bytes, split, split_items, is_digit, all_digits, is_numeric, atol, atol_from, in_item,
}
use coffee.Http.Decoder.{try_http_version, join}
use coffee.Http.Encoder.{decimal_from, decimal, encode_version, reason}
use coffee.Http.Tokens.{one_line}
use coffee.Http.Bodies.{one_line-append}
use coffee.Http.Url.Texts.{
  all_digits-lacks, lacks, lacks-append, separate-delim, item, split_items-first, c_str-lacks,
}

decimal_from-all_digits :
    (fuel n : ℕ) (digits : List ℕ)
    → all_digits digits ≡ true
    → all_digits (decimal_from fuel n digits) ≡ true
unfolding decimal_from all_digits is_digit
decimal_from-all_digits zero n digits h = h
decimal_from-all_digits (suc fuel) n digits h =
    ground (arith, h, decimal_from-all_digits fuel (n / 10) ((48 + n % 10) ∷ digits))

atol_from-decimal_from :
    (fuel n : ℕ) (digits : List ℕ)
    → n < fuel
    → atol_from 0 (decimal_from fuel n digits) ≡ atol_from n digits
unfolding decimal_from atol_from
atol_from-decimal_from zero n digits h = absurd (omega (arith, h))
atol_from-decimal_from (suc fuel) n digits h =
    let less : n / 10 < suc n = omega arith in
    elim (Bool-cases (ltb n 10)) [
      | inl l ↦
          let same : 0 * 10 + ((48 + n) - 48) ≡ n = omega arith in
          ground (arith, ap (λ m. atol_from m digits) same)
      | inr l ↦
          let same : n / 10 * 10 + ((48 + n % 10) - 48) ≡ n = omega arith in
          ground (
            arith,
            atol_from-decimal_from fuel (n / 10) ((48 + n % 10) ∷ digits) (ground arith),
            ap (λ m. atol_from m digits) same,
          )
    ]

pub atol-decimal : (n : ℕ) → atol (decimal n) ≡ n
unfolding atol decimal atol_from
atol-decimal n = atol_from-decimal_from (suc n) n [] (omega arith)

length-decimal_from :
    (fuel n : ℕ) (digits : List ℕ) → length digits ≤ length (decimal_from fuel n digits)
unfolding decimal_from
length-decimal_from zero n digits = omega arith
length-decimal_from (suc fuel) n digits =
    ground (arith, length-decimal_from fuel (n / 10) ((48 + n % 10) ∷ digits))

some_digits : (text : List ℕ) → all_digits text ≡ true → 1 ≤ length text → is_numeric text ≡ true
unfolding is_numeric
some_digits [] h l = absurd (omega (arith, l))
some_digits (c ∷ cs) h l = h

pub decimal-all_digits : (n : ℕ) → all_digits (decimal n) ≡ true
unfolding decimal all_digits
decimal-all_digits n = decimal_from-all_digits (suc n) n [] refl

pub some-decimal : (n : ℕ) → 1 ≤ length (decimal n)
unfolding decimal decimal_from
some-decimal n = ground (arith, length-decimal_from n (n / 10) ((48 + n % 10) ∷ []))

pub decimal-is_numeric : (n : ℕ) → is_numeric (decimal n) ≡ true
decimal-is_numeric n = some_digits (decimal n) (decimal-all_digits n) (some-decimal n)

pub decimal-lacks : (delim n : ℕ) → is_digit delim ≡ false → lacks delim (decimal n) ≡ true
decimal-lacks delim n h = all_digits-lacks delim (decimal n) h (decimal-all_digits n)

-- A version that is written is read back.
pub try_http_version-encode_version :
    (major minor : ℕ)
    → major < 2 ^ 16
    → minor < 2 ^ 16
    → try_http_version (encode_version major minor) ≡ some (major, minor)
unfolding try_http_version encode_version is_digit lacks
try_http_version-encode_version major minor h k =
    let numbers = decimal major ++ 46 ∷ decimal minor in
    ground (
      arith,
      separate-delim 47 (bytes "HTTP") numbers refl,
      separate-delim 46 (decimal major) (decimal minor) (decimal-lacks 46 major refl),
      decimal-is_numeric major,
      decimal-is_numeric minor,
      atol-decimal major,
      atol-decimal minor,
    )

-- A word of a line: it is not empty, and has no blank, no zero and no carriage return.
unfoldable pub is_word : List ℕ → Bool
is_word text = item 32 text && (lacks 0 text && one_line text)

abbrev pub AreWords : List (List ℕ) → Type 0
AreWords words = All (λ w. is_word w ≡ true) words

split_items-join : (words : List (List ℕ)) → AreWords words → split_items (join words) 32 ≡ words
unfolding join split_items in_item is_word
split_items-join [] h = refl
split_items-join (w ∷ []) h =
    ap (λ t. split_items t 32) (sym (append-nil w))
    ∙ split_items-first 32 w [] (ground (arith, h.0)) refl
split_items-join (w ∷ next ∷ words) h =
    split_items-first 32 w (32 ∷ join (next ∷ words)) (ground (arith, h.0)) refl
    ∙ ap (λ t. w ∷ t) (split_items-join (next ∷ words) h.1)

join-lacks : (words : List (List ℕ)) → AreWords words → lacks 0 (join words) ≡ true
unfolding join lacks is_word
join-lacks [] h = refl
join-lacks (w ∷ []) h = ground (arith, h.0)
join-lacks (w ∷ next ∷ words) h =
    ground (arith, h.0, lacks-append 0 w (32 ∷ join (next ∷ words)), join-lacks (next ∷ words) h.1)

pub join-one_line : (words : List (List ℕ)) → AreWords words → one_line (join words) ≡ true
unfolding join one_line is_word
join-one_line [] h = refl
join-one_line (w ∷ []) h = ground (arith, h.0)
join-one_line (w ∷ next ∷ words) h =
    one_line-append w (32 ∷ join (next ∷ words)) (ground (arith, h.0))
      (join-one_line (next ∷ words) h.1)

pub split-join : (words : List (List ℕ)) → AreWords words → split (join words) 32 ≡ words
unfolding split
split-join words h =
    ap (λ t. split_items t 32) (c_str-lacks (join words) (join-lacks words h))
    ∙ split_items-join words h

some_join : (w : List ℕ) (words : List (List ℕ)) → is_word w ≡ true → join (w ∷ words) ≢ []
unfolding join is_word item
some_join [] words h e = cc
some_join (c ∷ cs) [] h e = cc
some_join (c ∷ cs) (v ∷ words) h e = cc

reason_text : (code : ℕ) (text : List ℕ) → lacks 0 text ≡ true → text ≢ [] → reason code text ≡ text
unfolding reason
reason_text code [] h n = absurd (n refl)
reason_text code (c ∷ cs) h n = c_str-lacks (c ∷ cs) h

pub reason-join :
    (code : ℕ) (w : List ℕ) (words : List (List ℕ))
    → AreWords (w ∷ words)
    → reason code (join (w ∷ words)) ≡ join (w ∷ words)
reason-join code w words h =
    reason_text code (join (w ∷ words)) (join-lacks (w ∷ words) h) (some_join w words h.0)

-- ===== src/Http/Url/Texts.antt =====
-- Where a text is cut: lemmas on delimiters that a text has or lacks.
use coffee.Base.{
  ℕ, zero, suc, none, some, List, [], ◌∷◌, ◌++◌, Bool, true, false, ◌&&◌, ◌||◌, ◌==◌, ==_iff,
  if◌then◌else◌, ◌≡◌, refl, ap, arith, length, ◌≤◌, append-nil,
}
use coffee.Http.Bytes.{is_digit, all_digits, separate, split_items, add_byte, in_item, c_str}
use coffee.Http.Url.Parser.{cut, extract_token, has_from}

unfoldable pub lacks : ℕ → List ℕ → Bool
lacks delim [] = true
lacks delim (c ∷ cs) = if c == delim then false else lacks delim cs

unfoldable pub lacks_all : List ℕ → List ℕ → Bool
lacks_all [] text = true
lacks_all (delim ∷ delims) text = lacks delim text && lacks_all delims text

unfoldable pub starts : ℕ → List ℕ → Bool
starts delim [] = false
starts delim (c ∷ cs) = c == delim

-- The text ends a token that is cut at these delimiters: it is empty, or starts with the first of
-- them, in their order, that it has.
unfoldable pub ends : List ℕ → List ℕ → Bool
ends [] [] = true
ends [] (c ∷ cs) = false
ends (delim ∷ delims) text = starts delim text || (lacks delim text && ends delims text)

pub lacks-append :
    (delim : ℕ) (xs ys : List ℕ) → lacks delim (xs ++ ys) ≡ (lacks delim xs && lacks delim ys)
unfolding lacks
lacks-append delim [] ys = refl
lacks-append delim (x ∷ xs) ys = ground (arith, lacks-append delim xs ys)

cut-lacks : (delim : ℕ) (xs : List ℕ) → lacks delim xs ≡ true → cut delim xs ≡ none
unfolding lacks cut
cut-lacks delim [] h = refl
cut-lacks delim (x ∷ xs) h = ground (arith, cut-lacks delim xs)

cut-starts :
    (delim : ℕ) (xs ys : List ℕ)
    → lacks delim xs ≡ true
    → starts delim ys ≡ true
    → cut delim (xs ++ ys) ≡ some (xs, ys)
unfolding lacks cut starts
cut-starts delim [] [] h s = cc
cut-starts delim [] (y ∷ ys) h s = ground arith
cut-starts delim (x ∷ xs) ys h s = ground (arith, cut-starts delim xs ys)

pub extract_token-append :
    (delims xs ys : List ℕ)
    → lacks_all delims xs ≡ true
    → ends delims ys ≡ true
    → extract_token (xs ++ ys) delims ≡ (xs, ys)
unfolding lacks_all ends extract_token
extract_token-append [] xs [] h e = ap (λ t. (t, [])) (append-nil xs)
extract_token-append [] xs (y ∷ ys) h e = cc
extract_token-append (d ∷ ds) xs ys h e = ground (
  arith,
  cut-starts d xs ys,
  cut-lacks d (xs ++ ys),
  lacks-append d xs ys,
  extract_token-append ds xs ys,
)

pub separate-lacks :
    (delim : ℕ) (xs : List ℕ) → lacks delim xs ≡ true → separate xs delim ≡ (xs, [])
unfolding lacks separate
separate-lacks delim [] h = refl
separate-lacks delim (x ∷ xs) h = ground (arith, separate-lacks delim xs)

pub separate-delim :
    (delim : ℕ) (xs ys : List ℕ)
    → lacks delim xs ≡ true
    → separate (xs ++ delim ∷ ys) delim ≡ (xs, ys)
unfolding lacks separate
separate-delim delim [] ys h = ground (arith, ==_iff delim delim)
separate-delim delim (x ∷ xs) ys h = ground (arith, separate-delim delim xs ys)

pub has_from-lacks :
    (start delim : ℕ) (xs : List ℕ) → lacks delim xs ≡ true → has_from start delim xs ≡ false
unfolding lacks has_from
has_from-lacks start delim [] h = refl
has_from-lacks zero delim (x ∷ xs) h = ground (arith, has_from-lacks zero delim xs)
has_from-lacks (suc start) delim (x ∷ xs) h = ground (arith, has_from-lacks start delim xs)

pub has_from-append :
    (start delim : ℕ) (xs ys : List ℕ)
    → start ≤ length xs
    → has_from start delim (xs ++ delim ∷ ys) ≡ true
unfolding has_from
has_from-append zero delim [] ys h = ground (arith, ==_iff delim delim)
has_from-append (suc start) delim [] ys h = absurd (omega (arith, h))
has_from-append zero delim (x ∷ xs) ys h = ground (arith, has_from-append zero delim xs ys)
has_from-append (suc start) delim (x ∷ xs) ys h =
    has_from-append start delim xs ys (omega (arith, h))

-- `strtok_r` on items between delimiters.
unfoldable pub item : ℕ → List ℕ → Bool
item delim [] = false
item delim (c ∷ cs) = lacks delim (c ∷ cs)

split_items-item :
    (delim : ℕ) (c : ℕ) (cs rest : List ℕ)
    → lacks delim (c ∷ cs) ≡ true
    → in_item rest delim ≡ false
    → split_items (c ∷ cs ++ rest) delim ≡ (c ∷ cs) ∷ split_items rest delim
unfolding lacks split_items in_item add_byte
split_items-item delim c [] rest h r = ground arith
split_items-item delim c (d ∷ cs) rest h r = ground (arith, split_items-item delim d cs rest)

pub split_items-first :
    (delim : ℕ) (text rest : List ℕ)
    → item delim text ≡ true
    → in_item rest delim ≡ false
    → split_items (text ++ rest) delim ≡ text ∷ split_items rest delim
unfolding item
split_items-first delim [] rest h r = cc
split_items-first delim (c ∷ cs) rest h r = split_items-item delim c cs rest h r

pub c_str-lacks : (text : List ℕ) → lacks 0 text ≡ true → c_str text ≡ text
unfolding lacks c_str
c_str-lacks [] h = refl
c_str-lacks (c ∷ cs) h = ground (arith, c_str-lacks cs)

pub all_digits-lacks :
    (delim : ℕ) (cs : List ℕ)
    → is_digit delim ≡ false
    → all_digits cs ≡ true
    → lacks delim cs ≡ true
unfolding all_digits lacks
all_digits-lacks delim [] n h = refl
all_digits-lacks delim (c ∷ cs) n h = ground (arith, ==_iff c delim, all_digits-lacks delim cs n)

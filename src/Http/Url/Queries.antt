-- ===== src/Http/Url/Queries.antt =====
-- What the parser reads of a query that is written.
use coffee.Base.{
  ℕ, ok, List, [], ◌∷◌, ◌++◌, Bool, true, false, ◌&&◌, ◌==◌, ==_iff, ◌≡◌, refl, ap, sym, ◌∙◌, arith,
  append-nil, append_assoc,
}
use coffee.Http.Bytes.{separate, split, split_items, in_item}
use coffee.Http.Url.{Url, write_pair, write_others, write_query}
use coffee.Http.Url.Parser.{add_pairs, read_query}
use coffee.Http.Url.Texts.{
  lacks, lacks_all, starts, ends, lacks-append, separate-lacks, separate-delim, item,
  split_items-first, c_str-lacks, extract_token-append,
}

-- A key, not empty, and a value that can be told apart in a query.
unfoldable pub clear_text : List ℕ → Bool
clear_text text = lacks 38 text && (lacks 35 text && lacks 0 text)

unfoldable pub clear_pair : List ℕ × List ℕ → Bool
clear_pair ([], value) = false
clear_pair (c ∷ cs, value) = lacks 61 (c ∷ cs) && (clear_text (c ∷ cs) && clear_text value)

unfoldable pub clear_pairs : List (List ℕ × List ℕ) → Bool
clear_pairs [] = true
clear_pairs (pair ∷ pairs) = clear_pair pair && clear_pairs pairs

write_pair-lacks :
    (delim : ℕ) (key value : List ℕ)
    → (61 == delim) ≡ false
    → lacks delim key ≡ true
    → lacks delim value ≡ true
    → lacks delim (write_pair (key, value)) ≡ true
unfolding write_pair lacks
write_pair-lacks delim key [] n h v = h
write_pair-lacks delim key (c ∷ cs) n h v = ground (arith, lacks-append delim key (61 ∷ c ∷ cs))

clear-lacks :
    (pair : List ℕ × List ℕ)
    → clear_pair pair ≡ true
    → (lacks 38 (write_pair pair) ≡ true)
      × (lacks 35 (write_pair pair) ≡ true)
      × (lacks 0 (write_pair pair) ≡ true)
unfolding clear_pair clear_text
clear-lacks ([], value) h = cc
clear-lacks (c ∷ cs, value) h = (
  write_pair-lacks 38 (c ∷ cs) value refl (ground arith) (ground arith),
  write_pair-lacks 35 (c ∷ cs) value refl (ground arith) (ground arith),
  write_pair-lacks 0 (c ∷ cs) value refl (ground arith) (ground arith),
)

clear-item : (pair : List ℕ × List ℕ) → clear_pair pair ≡ true → item 38 (write_pair pair) ≡ true
unfolding item write_pair clear_pair
clear-item ([], value) h = cc
clear-item (c ∷ cs, []) h = (clear-lacks (c ∷ cs, []) h).0
clear-item (c ∷ cs, d ∷ ds) h = (clear-lacks (c ∷ cs, d ∷ ds) h).0

separate-pair :
    (pair : List ℕ × List ℕ) → clear_pair pair ≡ true → separate (write_pair pair) 61 ≡ pair
unfolding write_pair clear_pair
separate-pair ([], value) h = cc
separate-pair (c ∷ cs, []) h = separate-lacks 61 (c ∷ cs) (ground arith)
separate-pair (c ∷ cs, d ∷ ds) h = separate-delim 61 (c ∷ cs) (d ∷ ds) (ground arith)

texts : List (List ℕ × List ℕ) → List (List ℕ)
texts [] = []
texts (pair ∷ pairs) = write_pair pair ∷ texts pairs

others-lacks :
    (pairs : List (List ℕ × List ℕ))
    → clear_pairs pairs ≡ true
    → (lacks 35 (write_others pairs) ≡ true) × (lacks 0 (write_others pairs) ≡ true)
unfolding clear_pairs write_others lacks
others-lacks [] h = (refl, refl)
others-lacks (pair ∷ pairs) h =
    let one = clear-lacks pair (ground arith) in
    let others = others-lacks pairs (ground arith) in
    (
      ground (arith, lacks-append 35 (write_pair pair) (write_others pairs), one.1, others.0),
      ground (arith, lacks-append 0 (write_pair pair) (write_others pairs), one.2, others.1),
    )

-- The items of a query that is written are its pairs.
split_items-others :
    (pairs : List (List ℕ × List ℕ))
    → clear_pairs pairs ≡ true
    → (split_items (write_others pairs) 38 ≡ texts pairs)
      × (in_item (write_others pairs) 38 ≡ false)
unfolding clear_pairs write_others split_items texts in_item
split_items-others [] h = (refl, refl)
split_items-others (pair ∷ pairs) h =
    let (same, outside) = split_items-others pairs (ground arith) in
    let first =
      split_items-first 38 (write_pair pair) (write_others pairs) (clear-item pair (ground arith))
        outside in
    (ground (arith, first, same), refl)

add_pairs-texts :
    (token : List ℕ) (pairs : List (List ℕ × List ℕ)) (parser : Url)
    → clear_pairs pairs ≡ true
    → add_pairs token (texts pairs) parser ≡ ok (record parser { query = parser.query ++ pairs })
unfolding clear_pairs clear_pair texts add_pairs
add_pairs-texts token [] parser h =
    ap (λ q. ok (record parser { query = q })) (sym (append-nil parser.query))
add_pairs-texts token (([], value) ∷ pairs) parser h = cc
add_pairs-texts token ((c ∷ cs, value) ∷ pairs) parser h =
    let first = separate-pair (c ∷ cs, value) (ground arith) in
    let others =
      add_pairs-texts token pairs (record parser { query = parser.query ++ (c ∷ cs, value) ∷ [] })
        (ground arith) in
    ground (arith, first, others, append_assoc parser.query ((c ∷ cs, value) ∷ []) pairs)

split-written :
    (pair : List ℕ × List ℕ) (pairs : List (List ℕ × List ℕ))
    → clear_pairs (pair ∷ pairs) ≡ true
    → split (write_pair pair ++ write_others pairs) 38 ≡ texts (pair ∷ pairs)
unfolding split clear_pairs texts
split-written pair pairs h =
    let body = write_pair pair ++ write_others pairs in
    let one = clear-lacks pair (ground arith) in
    let others = others-lacks pairs (ground arith) in
    let text =
      c_str-lacks body
        (ground (arith, one.2, others.1, lacks-append 0 (write_pair pair) (write_others pairs))) in
    let (same, outside) = split_items-others pairs (ground arith) in
    ap (λ t. split_items t 38) text
    ∙ (split_items-first 38 (write_pair pair) (write_others pairs) (clear-item pair (ground arith))
          outside
        ∙ ap (λ t. write_pair pair ∷ t) same)

-- The parser reads the pairs of a query, up to the fragment.
pub read_query-written :
    (pairs : List (List ℕ × List ℕ)) (rest : List ℕ) (parser : Url)
    → clear_pairs pairs ≡ true
    → ends (35 ∷ []) rest ≡ true
    → read_query (write_query pairs ++ rest) parser
      ≡ ok (record parser { query = parser.query ++ pairs }, rest)
unfolding write_query read_query clear_pairs ends starts lacks lacks_all
read_query-written [] [] parser h e =
    ap (λ q. ok (record parser { query = q }, [])) (sym (append-nil parser.query))
read_query-written [] (c ∷ cs) parser h e =
    ground (arith, ==_iff c 63, ==_iff c 35, append-nil parser.query)
read_query-written (pair ∷ pairs) rest parser h e =
    let body = write_pair pair ++ write_others pairs in
    let one = clear-lacks pair (ground arith) in
    let others = others-lacks pairs (ground arith) in
    let token =
      extract_token-append (35 ∷ []) body rest
        (ground (arith, one.1, others.0, lacks-append 35 (write_pair pair) (write_others pairs)))
        e in
    let items = split-written pair pairs h in
    ground (arith, token, items, add_pairs-texts body (pair ∷ pairs) parser h)

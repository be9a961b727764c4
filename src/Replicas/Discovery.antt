-- ===== src/Replicas/Discovery.antt =====
-- server/src/replicas/discovery.ts: the addresses of a model's replicas, and their ids. `configured` is
-- the variable of the environment that is named after the model, and `parse_url` the URL parser. A
-- host name is ASCII.
mod Examples
use control_deck.Prelude.{
  ℕ, suc, ◌+◌, ◌≤◌, String, Bool, true, false, not, ◌&&◌, ◌||◌, ◌≡◌, refl, if◌then◌else◌, is_empty,
  is_text, eqb, leb, length, take, map, filter, All, All-map, Option, none, some, List, [], ◌∷◌,
  ◌++◌, Bool-cases, inl, inr, arith,
}
use control_deck.Types.{Text}
use control_deck.Routing.Complexity.{codes, lower_case, is_space, is_digit}
use control_deck.Http.Stream.{trim}

abbrev onto_first_url : ℕ → List Text → List Text
onto_first_url c [] = (c ∷ []) ∷ []
onto_first_url c (t ∷ ts) = (c ∷ t) ∷ ts

-- `text.split(",")`
abbrev split_commas : Text → List Text
split_commas [] = [] ∷ []
split_commas (c ∷ s) =
    let rest = split_commas s in if eqb c b',' then [] ∷ rest else onto_first_url c rest

-- `text.replace(/x+$/, "")`
abbrev drop_trailing : ℕ → Text → Text
drop_trailing x [] = []
drop_trailing x (c ∷ s) =
    let rest = drop_trailing x s in if is_empty rest && eqb c x then [] else c ∷ rest

abbrev drop_leading : ℕ → Text → Text
drop_leading x [] = []
drop_leading x (c ∷ s) = if eqb c x then drop_leading x s else c ∷ s

abbrev clean_url : Text → Text
clean_url t = drop_trailing b'/' (trim t)

abbrev non_empty_urls : List Text → List Text
non_empty_urls ts = filter (λ t. not (is_empty t)) ts

abbrev or_single : List Text → List Text → List Text
or_single [] single = single
or_single (u ∷ us) single = u ∷ us

abbrev listed_urls : Option Text → List Text
listed_urls none = []
listed_urls (some value) = non_empty_urls (map clean_url (split_commas value))

-- The value "" has no address that is not empty.
unfoldable pub replica_endpoints_for : Option Text → Text → List Text
unfolding trim
replica_endpoints_for configured endpoint_url =
    or_single (listed_urls configured) (non_empty_urls (clean_url endpoint_url ∷ []))

abbrev pub is_slug_char : ℕ → Bool
is_slug_char c = is_digit c || leb b'a' c && leb c b'z'

-- `text.replace(/[^a-z0-9]+/g, "-")`, where `inside` says whether such a run has begun.
abbrev dash_runs : (inside : Bool) → Text → Text
dash_runs inside [] = []
dash_runs inside (c ∷ s) =
    if is_slug_char c
    then c ∷ dash_runs false s
    else if inside
    then dash_runs true s
    else b'-' ∷ dash_runs true s

unfoldable pub slug_of : Text → Text
unfolding lower_case is_digit
slug_of host =
    take 40 (drop_trailing b'-' (drop_leading b'-' (dash_runs false (map lower_case host))))

-- The host of an address, with its port, if it has one.
abbrev host_of : Text → Option (Text × Text) → Text
host_of endpoint_url none = endpoint_url
host_of endpoint_url (some (hostname, port)) =
    if is_empty port then hostname else hostname ++ (codes "-" ++ port)

unfoldable pub replica_id_for : (Text → Option (Text × Text)) → Text → Text → Text
unfolding slug_of
replica_id_for parse_url model_id endpoint_url =
    model_id ++ (codes "-" ++ slug_of (host_of endpoint_url (parse_url endpoint_url)))

abbrev IsSafe : ℕ → Type 0
IsSafe c = (is_slug_char c || eqb c b'-') ≡ true

dash_runs-IsSafe : (inside : Bool) (s : Text) → All IsSafe (dash_runs inside s)
unfolding is_digit
dash_runs-IsSafe inside [] = tt
dash_runs-IsSafe inside (c ∷ s) = elim (Bool-cases (is_slug_char c)) [
  | inl e ↦ rw e (rw e refl, dash_runs-IsSafe false s)
  | inr e ↦ rw e (elim (Bool-cases inside) [
    | inl h ↦ rw h (dash_runs-IsSafe true s)
    | inr h ↦ rw h (refl, dash_runs-IsSafe true s)
  ])
]

drop_leading-IsSafe : (x : ℕ) (s : Text) → All IsSafe s → All IsSafe (drop_leading x s)
drop_leading-IsSafe x [] h = tt
drop_leading-IsSafe x (c ∷ s) (here, h) = elim (Bool-cases (eqb c x)) [
  | inl e ↦ rw e (drop_leading-IsSafe x s h)
  | inr e ↦ rw e (here, h)
]

drop_trailing-IsSafe : (x : ℕ) (s : Text) → All IsSafe s → All IsSafe (drop_trailing x s)
drop_trailing-IsSafe x [] h = tt
drop_trailing-IsSafe x (c ∷ s) (here, h) =
    elim (Bool-cases (is_empty (drop_trailing x s) && eqb c x)) [
      | inl e ↦ rw e tt
      | inr e ↦ rw e (here, drop_trailing-IsSafe x s h)
    ]

take-IsSafe : (n : ℕ) (s : Text) → All IsSafe s → All IsSafe (take n s) × (length (take n s) ≤ n)
take-IsSafe ℕ.zero s h = (tt, omega arith)
take-IsSafe (suc n) [] h = (tt, omega arith)
take-IsSafe (suc n) (c ∷ s) (here, h) =
    let (rest, short) = take-IsSafe n s h in ((here, rest), omega arith)

-- The part of a replica's id that is made from its address is at most 40 characters long, each of them
-- a small letter, a digit or a dash.
pub slug_of-IsSafe : (host : Text) → All IsSafe (slug_of host) × (length (slug_of host) ≤ 40)
unfolding slug_of
slug_of-IsSafe host = take-IsSafe 40 _ (
    drop_trailing-IsSafe b'-' _
      (drop_leading-IsSafe b'-' _ (dash_runs-IsSafe false (map lower_case host))))

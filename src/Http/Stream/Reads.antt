-- ===== src/Http/Stream/Reads.antt =====
-- How the body of a stream is cut into reads.
use control_deck.Prelude.{
  ℕ, false, ◌≡◌, refl, sym, ap, ◌∙◌, eqb, Option, none, List, [], ◌∷◌, ◌++◌, All, Bool-cases, inl,
  inr, append_assoc, arith,
}
use control_deck.Types.{Text}
use control_deck.Routing.Complexity.{codes, starts_with}
use control_deck.Http.Failure.{Thrown}
use control_deck.Http.Stream.{
  Parsed, Scan, Response, line_feed, onto_first, split_lines, trim, same_text, data_prefix,
  take_line, take_lines, take_reads, stream_chat, empty_scan, end_of,
}

-- A read that ends with the end of a line.
abbrev pub EndsLine : Text → Type 0
EndsLine r = (t : Text) × (r ≡ t ++ (line_feed ∷ []))

-- A text within one line.
abbrev pub WithinLine : Text → Type 0
WithinLine t = All (λ c. eqb c line_feed ≡ false) t

abbrev pub concat : List Text → Text
concat [] = []
concat (r ∷ rs) = r ++ concat rs

split_lines-cons : (t : Text) → (l : Text) × (ls : List Text) × (split_lines t ≡ l ∷ ls)
unfolding split_lines
split_lines-cons [] = ([], [], refl)
split_lines-cons (c ∷ t) =
    let (l, ls, e) = split_lines-cons t in
    elim (Bool-cases (eqb c line_feed)) [
      | inl h ↦ ([], split_lines t, rw h refl)
      | inr h ↦ (c ∷ l, ls, rw (h, e) refl)
    ]

onto_first-append :
    (c : ℕ) (xs ys : List Text)
    → ((l : Text) × (ls : List Text) × (xs ≡ l ∷ ls))
    → onto_first c (xs ++ ys) ≡ onto_first c xs ++ ys
onto_first-append c xs ys (l, ls, e) = rw e refl

split_lines-append :
    (t u : Text) → split_lines (t ++ (line_feed ∷ u)) ≡ split_lines t ++ split_lines u
unfolding split_lines
split_lines-append [] u = refl
split_lines-append (c ∷ t) u = elim (Bool-cases (eqb c line_feed)) [
  | inl h ↦ rw h (ap (λ ls. [] ∷ ls) (split_lines-append t u))
  | inr h ↦ rw h (
      ap (onto_first c) (split_lines-append t u)
      ∙ onto_first-append c (split_lines t) (split_lines u) (split_lines-cons t))
]

split_lines-within : (t : Text) → WithinLine t → split_lines t ≡ t ∷ []
unfolding split_lines
split_lines-within [] w = refl
split_lines-within (c ∷ t) (here, w) = rw (here, split_lines-within t w) refl

within-append : (t u : Text) → WithinLine t → WithinLine u → WithinLine (t ++ u)
within-append [] u w v = v
within-append (c ∷ t) u (here, w) v = (here, within-append t u w v)

module _ (parse : Text → Option Parsed) where
  take_line-blank : (s : Scan) → take_line parse [] s ≡ s
  unfolding take_line starts_with
  take_line-blank s = ground arith

  take_lines-append :
      (xs ys : List Text) (s : Scan)
      → take_lines parse (xs ++ ys) s ≡ take_lines parse ys (take_lines parse xs s)
  take_lines-append [] ys s = refl
  take_lines-append (x ∷ xs) ys s = take_lines-append xs ys (take_line parse x s)

  take_lines-split :
      (t u : Text) (s : Scan)
      → take_lines parse (split_lines (t ++ (line_feed ∷ u))) s
        ≡ take_lines parse (split_lines u) (take_lines parse (split_lines t) s)
  take_lines-split t u s =
      ap (λ ls. take_lines parse ls s) (split_lines-append t u)
      ∙ take_lines-append (split_lines t) (split_lines u) s

  take_lines-end :
      (t : Text) (s : Scan)
      → take_lines parse (split_lines (t ++ (line_feed ∷ []))) s
        ≡ take_lines parse (split_lines t) s
  unfolding split_lines
  take_lines-end t s =
      take_lines-split t [] s ∙ take_line-blank (take_lines parse (split_lines t) s)

  take_lines-read :
      (r u : Text) (s : Scan)
      → EndsLine r
      → take_lines parse (split_lines (r ++ u)) s
        ≡ take_lines parse (split_lines u) (take_lines parse (split_lines r) s)
  take_lines-read r u s (t, e) =
      ap (λ x. take_lines parse (split_lines (x ++ u)) s) e
      ∙ ap (λ x. take_lines parse (split_lines x) s) (append_assoc t (line_feed ∷ []) u)
      ∙ take_lines-split t u s
      ∙ ap (take_lines parse (split_lines u)) (sym (take_lines-end t s))
      ∙ ap (λ x. take_lines parse (split_lines u) (take_lines parse (split_lines x) s)) (sym e)

  take_reads-joined :
      (rs : List Text) (last : Text) (s : Scan)
      → All EndsLine rs
      → take_reads parse (rs ++ (last ∷ [])) s
        ≡ take_lines parse (split_lines (concat rs ++ last)) s
  take_reads-joined [] last s ends = refl
  take_reads-joined (r ∷ rs) last s (here, ends) =
      take_reads-joined rs last (take_lines parse (split_lines r) s) ends
      ∙ sym (take_lines-read r (concat rs ++ last) s here)
      ∙ ap (λ x. take_lines parse (split_lines x) s) (sym (append_assoc r (concat rs) last))

  -- Where each read but the last ends with the end of a line, the stream is that of the same body in
  -- one read: the chunks, the reason it finished, the usage and the way it ends.
  pub stream_chat-joined :
      (rs : List Text) (last : Text) (broken : Option Thrown)
      → All EndsLine rs
      → stream_chat parse (Response.body (rs ++ (last ∷ [])) broken)
        ≡ stream_chat parse (Response.body ((concat rs ++ last) ∷ []) broken)
  unfolding stream_chat
  stream_chat-joined rs last broken ends =
      ap (λ s. (s.chunks, end_of parse s.finished broken s))
        (take_reads-joined rs last (empty_scan parse) ends)

  cut_first :
      (x : Text) (s : Scan)
      → parse (trim x) ≡ none
      → same_text (trim x) (codes "[DONE]") ≡ false
      → take_line parse (data_prefix ++ x) s ≡ s
  unfolding take_line starts_with
  cut_first x s unread not_done = ground arith

  cut_second : (y : Text) (s : Scan) → starts_with y data_prefix ≡ false → take_line parse y s ≡ s
  unfolding take_line
  cut_second y s other = ground arith

  -- A frame that the network cuts in two reads is lost without an error, and the rest of the stream
  -- is read as if it had not been sent. In one read it is taken. The frame is a line of its own, its
  -- first part is not a JSON text or the end marker by itself, and its second part does not look like
  -- the start of another frame.
  pub take_reads-loses_cut :
      (x y : Text) (rest : List Text) (s : Scan)
      → WithinLine x
      → WithinLine y
      → parse (trim x) ≡ none
      → same_text (trim x) (codes "[DONE]") ≡ false
      → starts_with y data_prefix ≡ false
      → (take_reads parse ((data_prefix ++ x) ∷ (y ++ (line_feed ∷ [])) ∷ rest) s
          ≡ take_reads parse rest s)
        × (take_reads parse ((data_prefix ++ (x ++ (y ++ (line_feed ∷ [])))) ∷ rest) s
            ≡ take_reads parse rest (take_line parse (data_prefix ++ (x ++ y)) s))
  take_reads-loses_cut x y rest s wx wy unread not_done other =
      let prefix : WithinLine data_prefix = (refl, (refl, (refl, (refl, (refl, tt))))) in
      let first : take_lines parse (split_lines (data_prefix ++ x)) s ≡ s =
        ap (λ ls. take_lines parse ls s)
          (split_lines-within (data_prefix ++ x) (within-append data_prefix x prefix wx))
        ∙ cut_first x s unread not_done in
      let second : take_lines parse (split_lines (y ++ (line_feed ∷ []))) s ≡ s =
        take_lines-end y s
        ∙ ap (λ ls. take_lines parse ls s) (split_lines-within y wy)
        ∙ cut_second y s other in
      let whole : take_lines parse (split_lines ((data_prefix ++ (x ++ y)) ++ (line_feed ∷ []))) s
          ≡ take_line parse (data_prefix ++ (x ++ y)) s =
        take_lines-end (data_prefix ++ (x ++ y)) s
        ∙ ap (λ ls. take_lines parse ls s)
            (split_lines-within (data_prefix ++ (x ++ y))
              (within-append data_prefix (x ++ y) prefix (within-append x y wx wy))) in
      (
        ap (λ z. take_reads parse rest (take_lines parse (split_lines (y ++ (line_feed ∷ []))) z))
              first
            ∙ ap (take_reads parse rest) second,
        ap (λ z. take_reads parse rest (take_lines parse (split_lines (data_prefix ++ z)) s))
              (sym (append_assoc x y (line_feed ∷ [])))
            ∙ ap (take_reads parse rest) whole,
      )

-- ===== src/Routing/Complexity/Fences.antt =====
-- Fenced code blocks: what their lengths add up to.
use control_deck.Prelude.{
  ℕ, zero, suc, ◌+◌, ◌≤◌, true, ◌≡◌, List, [], ◌∷◌, Bool-cases, inl, inr, sum_by, length, Mem, Memᴰ,
  any_sound, leb→le, arith, leb,
}
use control_deck.Types.{Text}
use control_deck.Routing.Complexity.Scan.{Fence, fence, starts_with, blocks_from, fenced_blocks}
use control_deck.Routing.Complexity.{has_large_fenced_code_block, large_code_block_char_threshold}

abbrev pub total : List ℕ → ℕ
total xs = sum_by (λ n. n) xs

fence-length : (s : Text) → starts_with s fence ≡ true → 3 ≤ length s
unfolding starts_with
fence-length [] e = cc
fence-length (a ∷ []) e = ground arith
fence-length (a ∷ b ∷ []) e = ground arith
fence-length (a ∷ b ∷ c ∷ s) e = omega arith

-- What a scan can still find from a state, over the units left.
abbrev Room : Fence → Text → Type 0
Room (Fence.outside k) s = k ≤ length s → total (blocks_from (Fence.outside k) s) + k ≤ length s
Room (Fence.inside k n) s = total (blocks_from (Fence.inside k n) s) ≤ n + length s

room : (at : Fence) (s : Text) → Room at s
unfolding blocks_from
room (Fence.outside k) [] = λ h. omega arith
room (Fence.inside k n) [] = omega arith
room (Fence.outside (suc k)) (c ∷ s) = λ h. omega (arith, room (Fence.outside k) s (omega arith))
room (Fence.inside (suc k) n) (c ∷ s) = omega (arith, room (Fence.inside k (suc n)) s)
room (Fence.outside zero) (c ∷ s) = λ h. elim (Bool-cases (starts_with (c ∷ s) fence)) [
  | inl e ↦ rw e (omega (arith, room (Fence.inside 2 1) s))
  | inr e ↦ rw e (omega (arith, room (Fence.outside 0) s (omega arith)))
]
room (Fence.inside zero n) (c ∷ s) = elim (Bool-cases (starts_with (c ∷ s) fence)) [
  | inl e ↦
      let long = fence-length (c ∷ s) e in
      rw e (omega (arith, room (Fence.outside 2) s (omega arith)))
  | inr e ↦ rw e (omega (arith, room (Fence.inside 0 (suc n)) s))
]

le_total : (xs : List ℕ) (n : ℕ) → Mem n xs → n ≤ total xs
le_total [] n m = elim m [ ]
le_total (x ∷ xs) n (Memᴰ.head e) = omega arith
le_total (x ∷ xs) n (Memᴰ.tail m) = omega (arith, le_total xs n m)

-- The fenced blocks that the scan finds are disjoint stretches of the text: their lengths add up to
-- no more than its length. So a text that is told to hold a large code block is at least as long as
-- the threshold.
pub fenced_blocks-fit :
    (text : Text)
    → (total (fenced_blocks text) ≤ length text)
      × (has_large_fenced_code_block text ≡ true → large_code_block_char_threshold ≤ length text)
unfolding has_large_fenced_code_block
fenced_blocks-fit text =
    let fits : total (fenced_blocks text) ≤ length text =
      omega (arith, room (Fence.outside 0) text (omega arith)) in
    (
      fits,
      λ e.
          let (n, listed, large) =
            any_sound (leb large_code_block_char_threshold) (fenced_blocks text) e in
          omega (arith, le_total (fenced_blocks text) n listed, leb→le _ n large),
    )

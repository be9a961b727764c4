-- ===== src/Routing/Tests.antt =====
-- Runs of the routing functions at inputs that can be followed in the source.
use control_deck.Prelude.{◌≡◌, refl, true, false, [], ◌∷◌, map}
use control_deck.Routing.Complexity.{
  codes, fenced_blocks, numbered_items, includes_text, lower_case, has_multi_part_question,
}

fenced_tests :
    (fenced_blocks (codes "a ```b``` c ``` d ```") ≡ 7 ∷ 9 ∷ [])
    × (fenced_blocks (codes "``````") ≡ 6 ∷ [])
    × (fenced_blocks (codes "`````") ≡ [])
unfolding fenced_blocks
fenced_tests = (refl, refl, refl)

numbered_tests :
    (numbered_items (codes "1) a 2) b 13. c") ≡ 3)
    × (numbered_items (codes "1) 2) 3) ") ≡ 2)
    × (numbered_items (codes "x1) y 1.5 ") ≡ 0)
unfolding numbered_items
numbered_tests = (refl, refl, refl)

marker_tests :
    (includes_text (map lower_case (codes "Please THINK Through")) (codes "think through") ≡ true)
    × (has_multi_part_question (codes "a? b? c") ≡ false)
unfolding includes_text lower_case has_multi_part_question
marker_tests = (refl, refl)

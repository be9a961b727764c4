-- ===== src/Routing/Complexity/Scan.antt =====
-- The text scans of server/src/routing/complexity.ts, over UTF-16 code units: the joins, the
-- substring test, and the matches of its three regular expressions.
use Prim.Native.Char.{code}
use control_deck.Prelude.{
  ℕ, zero, suc, ◌+◌, String, Bool, true, false, ◌&&◌, ◌||◌, List, [], ◌∷◌, ◌++◌, eqb, leb,
  if◌then◌else◌,
}
use control_deck.Types.{Text}

-- The code units of an ASCII text.
abbrev pub codes : String → Text
codes String.[] = []
codes (String.◌∷◌ c s) = code c ∷ codes s

-- `texts.join(sep)`
abbrev pub join : Text → List Text → Text
join sep [] = []
join sep (t ∷ []) = t
join sep (t ∷ u ∷ ts) = t ++ (sep ++ join sep (u ∷ ts))

-- `toLowerCase` as far as an ASCII marker can tell: beside A to Z only the Kelvin sign becomes an
-- ASCII letter alone.
unfoldable pub lower_case : ℕ → ℕ
lower_case c = if leb b'A' c && leb c b'Z' then c + 32 else if eqb c 0x212a then b'k' else c

unfoldable pub starts_with : Text → Text → Bool
starts_with s [] = true
starts_with [] (c ∷ t) = false
starts_with (d ∷ s) (c ∷ t) = eqb d c && starts_with s t

-- `text.includes(t)`
unfoldable pub includes_text : Text → Text → Bool
unfolding starts_with
includes_text [] t = starts_with [] t
includes_text (c ∷ s) t = starts_with (c ∷ s) t || includes_text s t

-- Where a scan for fenced blocks stands: outside of a block, or in one of `length` units so far.
-- The next `skip` units belong to a fence that has been read.
pub data Fence : Type 0 where
  outside : (skip : ℕ) → Fence
  inside : (skip length : ℕ) → Fence

abbrev pub fence : Text
fence = codes "```"

-- One unit further, where `at_fence` says whether a fence begins at it.
abbrev fence_step : Bool → Fence → Fence
fence_step at_fence (Fence.outside (suc k)) = Fence.outside k
fence_step true (Fence.outside zero) = Fence.inside 2 1
fence_step false (Fence.outside zero) = Fence.outside 0
fence_step at_fence (Fence.inside (suc k) n) = Fence.inside k (suc n)
fence_step true (Fence.inside zero n) = Fence.outside 2
fence_step false (Fence.inside zero n) = Fence.inside 0 (suc n)

-- The length of the block that a fence closes here.
abbrev closed_block : Bool → Fence → List ℕ
closed_block at_fence (Fence.outside k) = []
closed_block at_fence (Fence.inside (suc k) n) = []
closed_block true (Fence.inside zero n) = (n + 3) ∷ []
closed_block false (Fence.inside zero n) = []

unfoldable pub blocks_from : Fence → Text → List ℕ
blocks_from at [] = []
blocks_from at (c ∷ s) =
    let here = starts_with (c ∷ s) fence in
    closed_block here at ++ blocks_from (fence_step here at) s

-- The lengths of the matches of /```[\s\S]*?```/g.
unfoldable pub fenced_blocks : Text → List ℕ
unfolding blocks_from starts_with
fenced_blocks text = blocks_from (Fence.outside 0) text

-- `\s` and `\d`.
unfoldable pub is_space : ℕ → Bool
is_space c =
    leb 9 c && leb c 13
    || (eqb c 32
        || (eqb c 160
            || (eqb c 0x1680
                || (leb 0x2000 c && leb c 0x200a
                    || (eqb c 0x2028
                        || (eqb c 0x2029
                            || (eqb c 0x202f
                                || (eqb c 0x205f || (eqb c 0x3000 || eqb c 0xfeff)))))))))

unfoldable pub is_digit : ℕ → Bool
is_digit c = leb b'0' c && leb c b'9'

-- How much of /(?:^|\s)\d+[).]\s/ has been read: nothing, the place where a number may start, its
-- digits, or the mark behind them.
pub data Item : Type 0 where
  idle ready digits marked : Item

abbrev item_start : ℕ → Item
item_start c = if is_space c then Item.ready else Item.idle

unfoldable pub item_step : Item → ℕ → Item
unfolding is_space is_digit
item_step Item.idle c = item_start c
item_step Item.ready c = if is_digit c then Item.digits else item_start c
item_step Item.digits c =
    if is_digit c
    then Item.digits
    else if eqb c b')' || eqb c b'.'
    then Item.marked
    else item_start c
item_step Item.marked c = Item.idle

-- The item that ends at this unit; the space that ends it starts no other.
abbrev item_ends : Item → ℕ → ℕ
item_ends Item.marked c = if is_space c then 1 else 0
item_ends _ c = 0

unfoldable pub items_from : Item → Text → ℕ
unfolding item_step
items_from at [] = 0
items_from at (c ∷ s) = item_ends at c + items_from (item_step at c) s

unfoldable pub numbered_items : Text → ℕ
unfolding items_from
numbered_items text = items_from Item.ready text

abbrev pub question_marks : Text → ℕ
question_marks [] = 0
question_marks (c ∷ s) = (if eqb c b'?' then 1 else 0) + question_marks s

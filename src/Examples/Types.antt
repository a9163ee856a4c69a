-- ===== src/Examples/Types.antt =====
-- pkg/event/types_windows.go and pkg/util/wildcard on concrete values.
use fibratus.Prelude.{
  ℕ, Bool, List, false, not, exists, ◌==◌, ◌||◌, ◌&&◌, ◌≡◌, ◌≢◌, refl, [], ◌∷◌, some, none, true,
  arith,
}
use fibratus.Event.Values.{Text}
use fibratus.Event.Types.{EventType, Category}
use fibratus.Event.Bitsets.Mask.{
  empty_mask, set_mask, clear_mask, is_set, is_set-set_mask, is_set-clear_mask,
}
use fibratus.Event.Bitsets.{BitSetType, BitSetLibrary, IsBitSet, is_bit_set}
use fibratus.Event.Bitsets.Wanted.{wants, no_bits, set_all, is_bit_set-set_all}
use fibratus.Event.Types.Guids.{id}
use fibratus.Event.Types.Unique.{id-injective}
use fibratus.Wildcard.{match}
use fibratus.Wildcard.Pattern.{Matches}
use fibratus.Wildcard.Decision.{Answers, match-Answers}
use fibratus.Wildcard.Total.{match-ne-none}

test_id : id EventType.create_process ≡ 4426942574296891393
unfolding id
test_id = refl

id-injective_example : EventType.create_process ≡ EventType.create_process
id-injective_example = id-injective EventType.create_process EventType.create_process refl

-- "a*c?"
abbrev pattern_text : Text
pattern_text = b'a' ∷ b'*' ∷ b'c' ∷ b'?' ∷ []

-- "abcbcd"
abbrev subject : Text
subject = b'a' ∷ b'b' ∷ b'c' ∷ b'b' ∷ b'c' ∷ b'd' ∷ []

test_match : match pattern_text subject ≡ some true
unfolding match
test_match = refl

-- The three bytes of the sign for the euro, and "xy".
abbrev euro : Text
euro = 226 ∷ 130 ∷ 172 ∷ b'x' ∷ b'y' ∷ []

-- A star that takes one byte of a character leaves two, each of which matches a `?`.
test_bytewise : match (b'*' ∷ b'?' ∷ b'?' ∷ b'x' ∷ b'y' ∷ []) euro ≡ some true
unfolding match
test_bytewise = refl

match-Answers_example : Answers (Matches pattern_text subject) (match pattern_text subject)
match-Answers_example = match-Answers pattern_text subject (ground arith) (ground arith)

match-ne-none_example : match pattern_text euro ≢ none
match-ne-none_example = match-ne-none pattern_text euro

-- A set of bits as a function.
abbrev functions : BitSetLibrary
functions = record {
  BitSet = ℕ → Bool;
  new_bitset = λ n i. false;
  set_bit = λ b i j. (i == j) || b j;
  test_bit = λ b j. b j;
}

functions-IsBitSet : IsBitSet functions
functions-IsBitSet = record { test-new = λ n j. refl; test-set = λ b i j. refl }

abbrev entries : List (BitSetType × EventType)
entries =
    (BitSetType.bitmask_bitset, EventType.create_process)
    ∷ (BitSetType.category_bitset, EventType.load_image)
    ∷ []

is_bit_set-set_all_example :
    is_bit_set functions
      (set_all functions 100 (no_bits functions) entries)
      EventType.unload_image
      Category.image
    ≡ exists (wants EventType.unload_image Category.image) entries
is_bit_set-set_all_example =
    is_bit_set-set_all functions functions-IsBitSet 100 entries EventType.unload_image
      Category.image

is_set-clear_mask_example :
    is_set (clear_mask (set_mask empty_mask 70) 70) 134
    ≡ (not (70 == 134) && is_set (set_mask empty_mask 70) 134)
is_set-clear_mask_example = is_set-clear_mask (set_mask empty_mask 70) 70 134

is_set-set_mask_example :
    is_set (set_mask empty_mask 70) 134 ≡ ((70 == 134) || is_set empty_mask 134)
is_set-set_mask_example = is_set-set_mask empty_mask 70 134

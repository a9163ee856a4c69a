-- ===== src/Event/Bitsets.antt =====
-- pkg/event/bitset.go: the sets by which a consumer says which events it wants. The bit sets of the
-- library bits-and-blooms are a parameter, with what it documents of `New`, `Set` and `Test`.
pub mod Mask
pub mod Wanted
use fibratus.Prelude.{ℕ, ◌≡◌, Bool, true, false, ◌||◌, Option, none, some, ◌==◌, ◌+◌, if◌then◌else◌}
use fibratus.Event.Types.{EventType, Category}
use fibratus.Event.Types.Guids.{id, hook_id}
use fibratus.Event.Types.Traits.{category}
use Mask.{Bitmask, empty_mask, set_mask, is_set}

pub data BitSetType : Type 0 where
  bitmask_bitset type_bitset category_bitset : BitSetType

pub record BitSetLibrary : Type 1 where
  pub BitSet : Type 0
  pub new_bitset : ℕ → BitSet
  pub set_bit : BitSet → ℕ → BitSet
  pub test_bit : BitSet → ℕ → Bool

-- A new set is empty, and setting a bit sets that bit and no other; the size is a hint.
pub record IsBitSet (l : BitSetLibrary) : Type 0 where
  pub test-new : (n j : ℕ) → l.test_bit (l.new_bitset n) j ≡ false
  pub test-set :
      (b : l.BitSet) (i j : ℕ) → l.test_bit (l.set_bit b i) j ≡ ((i == j) || l.test_bit b j)

-- `MaxCategoryIndex`. No event type has the categories 8, for drivers, and 12, for any other.
abbrev pub max_category_index : ℕ
max_category_index = 13

unfoldable pub index : Category → ℕ
index Category.registry = 1
index Category.file = 2
index Category.net = 3
index Category.process = 4
index Category.thread = 5
index Category.image = 6
index Category.handle = 7
index Category.mem = 9
index Category.object = 10
index Category.threadpool = 11
index _ = max_category_index

unfoldable pub is_some {ℓ} : {A : Type ℓ} → Option A → Bool
is_some none = false
is_some (some a) = true

module _ (l : BitSetLibrary) where
  open l use {BitSet, new_bitset, set_bit, test_bit}

  pub record BitSets : Type 0 where
    pub bitmask : Option Bitmask
    pub cats : Option BitSet
    pub types : Option BitSet

  -- The set that is there already, or a new one.
  unfoldable pub or_new : ℕ → Option BitSet → BitSet
  or_new n none = new_bitset n
  or_new n (some b) = b

  unfoldable pub or_empty : Option Bitmask → Bitmask
  unfolding empty_mask
  or_empty none = empty_mask
  or_empty (some m) = m

  -- `SetCategoryBit`
  unfoldable pub set_category_bit : BitSets → Category → BitSets
  unfolding or_new index
  set_category_bit b c = record b {
    cats = some (set_bit (or_new (max_category_index + 1) (b.cats)) (index c));
  }

  -- `SetBit`; `max_type_id` is what `MaxTypeID` returns, the size of the set of types.
  unfoldable pub set_bit_of : ℕ → BitSets → BitSetType → EventType → BitSets
  unfolding or_new or_empty index set_mask id hook_id category set_category_bit
  set_bit_of max_type_id b BitSetType.bitmask_bitset t = record b {
    bitmask = some (set_mask (or_empty (b.bitmask)) (id t));
  }
  set_bit_of max_type_id b BitSetType.type_bitset t = record b {
    types = some (set_bit (or_new (max_type_id + 1) (b.types)) (hook_id t));
  }
  set_bit_of max_type_id b BitSetType.category_bitset t = record b {
    cats = some (set_bit (or_new (max_category_index + 1) (b.cats)) (index (category t)));
  }

  unfoldable pub test_some : Option BitSet → ℕ → Bool
  test_some none i = false
  test_some (some b) i = test_bit b i

  unfoldable pub is_set_some : Option Bitmask → ℕ → Bool
  unfolding is_set
  is_set_some none i = false
  is_set_some (some m) i = is_set m i

  -- `IsBitSet`, for an event of a type and a category.
  unfoldable pub is_bit_set : BitSets → EventType → Category → Bool
  unfolding test_some is_set_some id hook_id index
  is_bit_set b t c =
      if test_some (b.types) (hook_id t)
      then true
      else is_set_some (b.bitmask) (id t) || test_some (b.cats) (index c)

  unfoldable pub is_initialized : BitSets → BitSetType → Bool
  unfolding is_some
  is_initialized b BitSetType.bitmask_bitset = is_some (b.bitmask)
  is_initialized b BitSetType.type_bitset = is_some (b.types)
  is_initialized b BitSetType.category_bitset = is_some (b.cats)

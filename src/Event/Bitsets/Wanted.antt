-- ===== src/Event/Bitsets/Wanted.antt =====
-- pkg/event/bitset.go: the sets want an event just if one of the entries that were made wants it.
use fibratus.Prelude.{
  ℕ, ◌+◌, ◌≡◌, refl, ap, ◌∙◌, Bool, true, false, ◌||◌, List, [], ◌∷◌, Option, none, some, ◌==◌,
  if◌then◌else◌, exists, arith,
}
use fibratus.Event.Types.{EventType, Category}
use fibratus.Event.Types.Guids.{id, hook_id}
use fibratus.Event.Types.Traits.{category}
use fibratus.Event.Bitsets.Mask.{
  Bitmask, empty_mask, set_mask, is_set, is_set-empty_mask, is_set-set_mask,
}
use fibratus.Event.Bitsets.{
  BitSetType, BitSetLibrary, IsBitSet, BitSets, max_category_index, index, or_new, or_empty,
  set_bit_of, test_some, is_set_some, is_bit_set,
}

-- An entry wants an event: by the number of its type, by the operation code alone, or by category.
abbrev pub wants : EventType → Category → BitSetType × EventType → Bool
wants t c (BitSetType.bitmask_bitset, s) = id s == id t
wants t c (BitSetType.type_bitset, s) = hook_id s == hook_id t
wants t c (BitSetType.category_bitset, s) = index (category s) == index c

by_mask :
    (e a m k : Bool) → (if a then true else (e || m) || k) ≡ (e || (if a then true else m || k))
by_mask e a m k = ground arith

by_type : (e a m k : Bool) → (if e || a then true else m || k) ≡ (e || (if a then true else m || k))
by_type e a m k = ground arith

by_category :
    (e a m k : Bool) → (if a then true else m || (e || k)) ≡ (e || (if a then true else m || k))
by_category e a m k = ground arith

module _ (l : BitSetLibrary) where
  abbrev pub no_bits : BitSets l
  no_bits = record { bitmask = none; cats = none; types = none }

  -- The entries are made one after the other.
  unfoldable pub set_all : ℕ → BitSets l → List (BitSetType × EventType) → BitSets l
  unfolding set_bit_of
  set_all n b [] = b
  set_all n b (e ∷ es) = set_all n (set_bit_of l n b (e.0) (e.1)) es

module _ (l : BitSetLibrary) (laws : IsBitSet l) where
  open l use {BitSet, new_bitset, set_bit, test_bit}

  test_some-set :
      (n : ℕ) (o : Option BitSet) (i j : ℕ)
      → test_bit (set_bit (or_new l n o) i) j ≡ ((i == j) || test_some l o j)
  unfolding or_new test_some
  test_some-set n none i j =
      laws.test-set (new_bitset n) i j ∙ ap (λ b. (i == j) || b) (laws.test-new n j)
  test_some-set n (some b) i j = laws.test-set b i j

  is_set_some-set :
      (o : Option Bitmask) (i j : ℕ)
      → is_set (set_mask (or_empty l o) i) j ≡ ((i == j) || is_set_some l o j)
  unfolding or_empty is_set_some
  is_set_some-set none i j =
      is_set-set_mask empty_mask i j ∙ ap (λ b. (i == j) || b) (is_set-empty_mask j)
  is_set_some-set (some m) i j = is_set-set_mask m i j

  set_one :
      (max_type_id : ℕ) (b : BitSets l) (k : BitSetType) (s t : EventType) (c : Category)
      → is_bit_set l (set_bit_of l max_type_id b k s) t c ≡ (wants t c (k, s) || is_bit_set l b t c)
  unfolding is_bit_set set_bit_of test_some is_set_some
  set_one n b BitSetType.bitmask_bitset s t c =
      ap
        (λ m.
          if test_some l (b.types) (hook_id t) then true else m || test_some l (b.cats) (index c))
        (is_set_some-set (b.bitmask) (id s) (id t))
      ∙ by_mask (id s == id t) (test_some l (b.types) (hook_id t))
          (is_set_some l (b.bitmask) (id t)) (test_some l (b.cats) (index c))
  set_one n b BitSetType.type_bitset s t c =
      ap
        (λ a.
          if a then true else is_set_some l (b.bitmask) (id t) || test_some l (b.cats) (index c))
        (test_some-set (n + 1) (b.types) (hook_id s) (hook_id t))
      ∙ by_type (hook_id s == hook_id t) (test_some l (b.types) (hook_id t))
          (is_set_some l (b.bitmask) (id t)) (test_some l (b.cats) (index c))
  set_one n b BitSetType.category_bitset s t c =
      ap
        (λ k.
          if test_some l (b.types) (hook_id t) then true else is_set_some l (b.bitmask) (id t) || k)
        (test_some-set (max_category_index + 1) (b.cats) (index (category s)) (index c))
      ∙ by_category (index (category s) == index c) (test_some l (b.types) (hook_id t))
          (is_set_some l (b.bitmask) (id t)) (test_some l (b.cats) (index c))

  either : (a b c : Bool) → (b || (a || c)) ≡ ((a || b) || c)
  either a b c = ground arith

  set_all-from :
      (n : ℕ) (b : BitSets l) (es : List (BitSetType × EventType)) (t : EventType) (c : Category)
      → is_bit_set l (set_all l n b es) t c ≡ (exists (wants t c) es || is_bit_set l b t c)
  unfolding set_all
  set_all-from n b [] t c = refl
  set_all-from n b (e ∷ es) t c =
      set_all-from n (set_bit_of l n b (e.0) (e.1)) es t c
      ∙ ap (λ x. exists (wants t c) es || x) (set_one n b (e.0) (e.1) t c)
      ∙ either (wants t c e) (exists (wants t c) es) (is_bit_set l b t c)

  or_false : (a : Bool) → (a || false) ≡ a
  or_false a = ground arith

  -- For a bit set library that does what it documents: after any entries were made in empty
  -- sets, `IsBitSet` is true for an event just if one of the entries wants it, by the number of
  -- its type, by the operation code alone, or by category.
  pub is_bit_set-set_all :
      (n : ℕ) (es : List (BitSetType × EventType)) (t : EventType) (c : Category)
      → is_bit_set l (set_all l n (no_bits l) es) t c ≡ exists (wants t c) es
  unfolding is_bit_set test_some is_set_some
  is_bit_set-set_all n es t c = set_all-from n (no_bits l) es t c ∙ or_false (exists (wants t c) es)

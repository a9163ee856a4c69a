-- ===== src/Event/Values/Symmetry.antt =====
-- pkg/filter/util.go: whether two sets of links join does not depend on which of them comes first.
use fibratus.Prelude.{
  ℕ, ◌≡◌, refl, sym, ap, ◌∙◌, Bool, false, ◌&&◌, ◌||◌, List, [], ◌∷◌, ◌++◌, Option, none, some,
  ◌==◌, arith, exists, length, if◌then◌else◌,
}
use fibratus.Prelude.Int.{ℤ, pos, negsuc, eqb_ℤ}
use fibratus.Event.Values.{
  Text, Link, nil, v4_in_v6_prefix, eq_text, ip_equal, compare_seq_link, compare_seq_links,
}
use fibratus.Event.Values.Equal.{eq_text_sym}

==_sym : (a b : ℕ) → (a == b) ≡ (b == a)
==_sym a b = ground arith

eqb_ℤ_sym : (a b : ℤ) → eqb_ℤ a b ≡ eqb_ℤ b a
eqb_ℤ_sym (pos a) (pos b) = ==_sym a b
eqb_ℤ_sym (pos a) (negsuc b) = refl
eqb_ℤ_sym (negsuc a) (pos b) = refl
eqb_ℤ_sym (negsuc a) (negsuc b) = ==_sym a b

-- The lengths decide which bytes are compared.
by_length_sym :
    (n m : ℕ) (e p r : Bool)
    → (if n == m then e else if n == 4 && m == 16 then p else n == 16 && m == 4 && r)
      ≡ (if m == n then e else if m == 4 && n == 16 then r else m == 16 && n == 4 && p)
by_length_sym n m e p r = ground arith

ip_equal_sym : (a b : Text) → ip_equal a b ≡ ip_equal b a
unfolding ip_equal
ip_equal_sym a b =
    by_length_sym (length a) (length b) (eq_text a b) (eq_text (v4_in_v6_prefix ++ a) b)
      (eq_text a (v4_in_v6_prefix ++ b))
    ∙ rw (eq_text_sym a b)
        (rw (eq_text_sym (v4_in_v6_prefix ++ a) b) (rw (eq_text_sym a (v4_in_v6_prefix ++ b)) refl))

exists-false {ℓ} : {A : Type ℓ} (ys : List A) → exists (λ y. false) ys ≡ false
exists-false [] = refl
exists-false (y ∷ ys) = exists-false ys

exists-or {ℓ} :
    {A : Type ℓ} (p q : A → Bool) (ys : List A)
    → exists (λ y. p y || q y) ys ≡ (exists p ys || exists q ys)
exists-or p q [] = refl
exists-or p q (y ∷ ys) = ground (arith, exists-or p q ys)

exists_same {ℓ} :
    {A : Type ℓ} (p q : A → Bool) (ys : List A) → ((y : A) → p y ≡ q y) → exists p ys ≡ exists q ys
exists_same p q [] h = refl
exists_same p q (y ∷ ys) h = rw (h y) (ap (λ b. q y || b) (exists_same p q ys h))

-- Two loops over two lists can change places.
exists-swap {ℓ} :
    {A : Type ℓ} (f g : A → A → Bool) (xs ys : List A)
    → ((x y : A) → f x y ≡ g y x)
    → exists (λ x. exists (f x) ys) xs ≡ exists (λ y. exists (g y) xs) ys
exists-swap f g [] ys h = sym (exists-false ys)
exists-swap f g (x ∷ xs) ys h =
    ap (λ b. b || exists (λ x. exists (f x) ys) xs) (exists_same (f x) (λ y. g y x) ys (h x))
    ∙ ap (λ b. exists (λ y. g y x) ys || b) (exists-swap f g xs ys h)
    ∙ sym (exists-or (λ y. g y x) (λ y. exists (g y) xs) ys)

module _ (equal_fold : Text → Text → Bool)
    (fold_sym : (a b : Text) → equal_fold a b ≡ equal_fold b a) where
  compare_seq_link_sym :
      (a b : Link) → compare_seq_link equal_fold a b ≡ compare_seq_link equal_fold b a
  unfolding compare_seq_link
  compare_seq_link_sym nil nil = refl
  compare_seq_link_sym Link.other Link.other = refl
  compare_seq_link_sym (Link.str a) (Link.str b) = fold_sym a b
  compare_seq_link_sym (Link.u8 a) (Link.u8 b) = ==_sym a b
  compare_seq_link_sym (Link.u16 a) (Link.u16 b) = ==_sym a b
  compare_seq_link_sym (Link.u32 a) (Link.u32 b) = ==_sym a b
  compare_seq_link_sym (Link.u64 a) (Link.u64 b) = ==_sym a b
  compare_seq_link_sym (Link.uint a) (Link.uint b) = ==_sym a b
  compare_seq_link_sym (Link.int a) (Link.int b) = eqb_ℤ_sym a b
  compare_seq_link_sym (Link.ip a) (Link.ip b) = ip_equal_sym a b
  compare_seq_link_sym _ _ = refl

  -- If the comparison of strings without case is symmetric, two sets of links join in one order
  -- just if they join in the other, also where a set is missing, links have different types, or
  -- one address is in its long form.
  pub compare_seq_links_sym :
      (l r : Option (List Link))
      → compare_seq_links equal_fold l r ≡ compare_seq_links equal_fold r l
  unfolding compare_seq_links
  compare_seq_links_sym none none = refl
  compare_seq_links_sym none (some r) = refl
  compare_seq_links_sym (some l) none = refl
  compare_seq_links_sym (some l) (some r) =
      exists-swap (compare_seq_link equal_fold) (compare_seq_link equal_fold) l r
        compare_seq_link_sym

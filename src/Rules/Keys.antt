-- ===== src/Rules/Keys.antt =====
-- Lists of pairs as maps of lists: what stands at a key after values were appended.
use mathlib.Core.Bool.{false≢true}
use mathlib.Core.List.{append_assoc, append-nil}
use fibratus.Prelude.{
  ◌≡◌, refl, ap, sym, ◌∙◌, Bool, true, false, Bool-cases, inl, inr, List, [], ◌∷◌, ◌++◌, ◌==◌,
  if◌then◌else◌, arith,
}
use fibratus.Event.Values.{eq_text}
use fibratus.Event.Values.Equal.{eq_text_refl, eq_text_same}
use fibratus.Rules.{append_at, at_key}

-- One copy of a value for each key that is the one looked for.
unfoldable pub copies : {K V : Type 0} → (K → K → Bool) → K → List K → V → List V
copies eq k [] v = []
copies eq k (j ∷ ks) v = if eq j k then v ∷ copies eq k ks v else copies eq k ks v

pub copies-append :
    {K V : Type 0} (eq : K → K → Bool) (k : K) (ks js : List K) (v : V)
    → copies eq k (ks ++ js) v ≡ copies eq k ks v ++ copies eq k js v
unfolding copies
copies-append eq k [] js v = refl
copies-append eq k (j ∷ ks) js v =
    elim (eq j k)
      as (λ c.
        (if c then v ∷ copies eq k (ks ++ js) v else copies eq k (ks ++ js) v)
        ≡ (if c then v ∷ copies eq k ks v else copies eq k ks v) ++ copies eq k js v) [
          | true ↦ ap (◌∷◌ v) (copies-append eq k ks js v)
          | false ↦ copies-append eq k ks js v
        ]

-- Equality of keys.
pub record IsEquality {K : Type 0} (eq : K → K → Bool) : Type 0 where
  pub same : (a b : K) → eq a b ≡ true → a ≡ b
  pub whole : (a : K) → eq a a ≡ true

pub text-IsEquality : IsEquality eq_text
text-IsEquality = record { same = eq_text_same; whole = eq_text_refl }

pub number-IsEquality : IsEquality ◌==◌
number-IsEquality = record { same = λ a b h. ground arith; whole = λ a. ground arith }

apart :
    {K : Type 0} {eq : K → K → Bool} (w : IsEquality eq) (i j k : K)
    → eq i k ≡ true
    → eq i j ≡ false
    → eq j k ≡ false
apart {K} {eq} w i j k t f = elim (Bool-cases (eq j k)) [
  | inl u ↦ absurd (false≢true (sym f ∙ (ap (λ x. eq i x) (w.same j k u) ∙ t)))
  | inr g ↦ g
]

pub at_key-append_at :
    {K V : Type 0} {eq : K → K → Bool} (w : IsEquality eq) (k j : K) (v : V) (m : List (K × List V))
    → at_key eq k (append_at eq j v m) ≡ at_key eq k m ++ copies eq k (j ∷ []) v
unfolding at_key append_at copies
at_key-append_at {K} {V} {eq} w k j v [] =
    elim (eq j k) as (λ c. (if c then v ∷ [] else []) ≡ (if c then v ∷ [] else [])) [
      | true ↦ refl
      | false ↦ refl
    ]
at_key-append_at {K} {V} {eq} w k j v ((i, l) ∷ m) = elim (Bool-cases (eq i j)) [
  | inl t ↦
      rw (t, w.same i j t)
        (elim (eq j k)
          as (λ c.
            (if c then l ++ v ∷ [] else at_key eq k m)
            ≡ (if c then l else at_key eq k m) ++ (if c then v ∷ [] else [])) [
              | true ↦ refl
              | false ↦ sym (append-nil (at_key eq k m))
            ])
  | inr f ↦ elim (Bool-cases (eq i k)) [
    | inl t ↦ rw (f, t, apart w i j k t f) (sym (append-nil l))
    | inr g ↦ rw (f, g) (at_key-append_at w k j v m)
  ]
]

-- Two stretches of copies, one behind the other.
pub extend :
    {K V : Type 0} (eq : K → K → Bool) (c : List V) (k : K) (v : V) (ks js : List K) {a b : List V}
    → a ≡ b ++ copies eq k js v
    → b ≡ c ++ copies eq k ks v
    → a ≡ c ++ copies eq k (ks ++ js) v
extend eq c k v ks js p q =
    p
    ∙ (ap (λ l. l ++ copies eq k js v) q
        ∙ (append_assoc c _ _ ∙ ap (◌++◌ c) (sym (copies-append eq k ks js v))))

pub none_more :
    {K V : Type 0} (eq : K → K → Bool) (k : K) (v : V) (a : List V) → a ≡ a ++ copies eq k [] v
unfolding copies
none_more eq k v a = sym (append-nil a)

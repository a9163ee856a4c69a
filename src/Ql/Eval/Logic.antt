-- ===== src/Ql/Eval/Logic.antt =====
-- pkg/filter/ql/ast.go: the logic of `Eval`. A condition is true, false or, where a field is missing,
-- without a value, and the operators `and`, `or` and `not` have a table over the three.
use fibratus.Prelude.{
  ◌≡◌, refl, sym, ap, ◌∙◌, Bool, true, false, not, ◌&&◌, ◌||◌, List, Option, none, some, Bool-cases,
}
use mathlib.Core.Logic.{inl, inr, ◌⊎◌}
use fibratus.Event.Values.{Text}
use fibratus.Ql.Token.{Token}
use fibratus.Ql.Value.{Floats, Value}
use fibratus.Ql.Texts.{Strings}
use fibratus.Ql.Expr.{Expr, Arg, Valuer}
use fibratus.Ql.Eval.{
  is_comparison, lazy, cast_lhs, cast_rhs, on_bool, eval_bool, conclude, negate, negate_call,
  compare_values, eval_binary, invoke, eval, eval_not,
}

-- A value that is true, false or nil.
abbrev pub IsTruth : {Float : Type 0} → Value Float → Type 0
IsTruth Value.nil = Unit
IsTruth (Value.bool b) = Unit
IsTruth _ = ⊥

abbrev pub of_truth : {Float : Type 0} → Option Bool → Value Float
of_truth none = Value.nil
of_truth (some b) = Value.bool b

abbrev pub as_truth : {Float : Type 0} → Value Float → Option Bool
as_truth (Value.bool b) = some b
as_truth _ = none

-- A connective over three values: nothing when neither side has a value, and else the table of `f`
-- with the missing side false.
abbrev pub join : (Bool → Bool → Bool) → Option Bool → Option Bool → Option Bool
join f none none = none
join f none (some b) = some (f false b)
join f (some a) none = some (f a false)
join f (some a) (some b) = some (f a b)

abbrev contrary : Option Bool → Option Bool
contrary none = none
contrary (some b) = some (not b)

-- A call has a contrary also when it has no value.
abbrev contrary_call : Option Bool → Option Bool
contrary_call none = some true
contrary_call (some b) = some (not b)

of_truth-as_truth : {Float : Type 0} → (v : Value Float) → IsTruth v → of_truth (as_truth v) ≡ v
of_truth-as_truth Value.nil h = refl
of_truth-as_truth (Value.bool b) h = refl
of_truth-as_truth _ h = absurd h

module _ (fl : Floats) (st : Strings) where
  open fl use {Float}

  conclude-IsTruth : (op : Token) (o : Option Bool) → IsTruth (conclude Float op o)
  unfolding conclude
  conclude-IsTruth op (some b) = tt
  conclude-IsTruth op none = elim (Bool-cases (is_comparison op)) [
    | inl e ↦ rw e tt
    | inr e ↦ rw e tt
  ]

  eval_binary-IsTruth : (op : Token) (l r : Value Float) → IsTruth (eval_binary fl st op l r)
  unfolding eval_binary
  eval_binary-IsTruth op l r =
      elim (lazy Float op l)
        as (λ x. IsTruth (elim x [
          | some b ↦ Value.bool b
          | none ↦
              conclude Float op (compare_values fl st op (cast_lhs Float l r) (cast_rhs Float l r))
        ])) [
          | some b ↦ tt
          | none ↦
              conclude-IsTruth op
                (compare_values fl st op (cast_lhs Float l r) (cast_rhs Float l r))
        ]

  -- What the code computes when it evaluates both sides.
  unfoldable pub strict : Token → Value Float → Value Float → Value Float
  strict op l r =
      conclude Float op (compare_values fl st op (cast_lhs Float l r) (cast_rhs Float l r))

  lazy-cases :
      (op : Token) (l : Value Float)
      → (lazy Float op l ≡ none)
        ⊎ (((op ≡ Token.and) × (l ≡ Value.bool false)) ⊎ ((op ≡ Token.or) × (l ≡ Value.bool true)))
  unfolding lazy
  lazy-cases Token.and (Value.bool false) = inr (inl (refl, refl))
  lazy-cases Token.and (Value.bool true) = inl refl
  lazy-cases Token.or (Value.bool true) = inr (inr (refl, refl))
  lazy-cases Token.or (Value.bool false) = inl refl
  lazy-cases _ _ = inl refl

  lazy-strict :
      (op : Token) (l r : Value Float)
      → lazy Float op l ≡ none
      → eval_binary fl st op l r ≡ strict op l r
  unfolding eval_binary strict
  lazy-strict op l r e = ap (λ x. elim x [ some b ↦ Value.bool b | none ↦ strict op l r ]) e

  false_and :
      (r : Value Float)
      → eval_binary fl st Token.and (Value.bool false) r ≡ strict Token.and (Value.bool false) r
  unfolding eval_binary lazy strict conclude compare_values cast_lhs cast_rhs eval_bool on_bool
  false_and Value.nil = refl
  false_and (Value.bool b) = refl
  false_and _ = refl

  true_or :
      (r : Value Float)
      → IsTruth r
      → eval_binary fl st Token.or (Value.bool true) r ≡ strict Token.or (Value.bool true) r
  unfolding eval_binary lazy strict conclude compare_values cast_lhs cast_rhs eval_bool on_bool
  true_or Value.nil h = refl
  true_or (Value.bool b) h = refl
  true_or _ h = absurd h

  -- When the right side evaluates to true, false or nil, stopping at a left side that decides
  -- `and` or `or` gives the value that evaluating both sides gives, for every operator and
  -- every left side.
  pub eval_binary-strict :
      (op : Token) (l r : Value Float) → IsTruth r → eval_binary fl st op l r ≡ strict op l r
  eval_binary-strict op l r h = elim (lazy-cases op l) [
    | inl e ↦ lazy-strict op l r e
    | inr (inl (e, f)) ↦ rw e (rw f (false_and r))
    | inr (inr (e, f)) ↦ rw e (rw f (true_or r h))
  ]

  eval_both :
      (op : Token) {l l' r r' : Value Float}
      → l ≡ l'
      → r ≡ r'
      → eval_binary fl st op l r ≡ eval_binary fl st op l' r'
  eval_both op e f = rw e (rw f refl)

  eval_and :
      (a b : Option Bool)
      → eval_binary fl st Token.and (of_truth a) (of_truth b) ≡ of_truth (join ◌&&◌ a b)
  unfolding eval_binary is_comparison lazy conclude compare_values cast_lhs cast_rhs eval_bool
      on_bool
  eval_and none none = refl
  eval_and none (some b) = refl
  eval_and (some true) none = refl
  eval_and (some false) none = refl
  eval_and (some true) (some b) = refl
  eval_and (some false) (some b) = refl

  eval_or :
      (a b : Option Bool)
      → eval_binary fl st Token.or (of_truth a) (of_truth b) ≡ of_truth (join ◌||◌ a b)
  unfolding eval_binary is_comparison lazy conclude compare_values cast_lhs cast_rhs eval_bool
      on_bool
  eval_or none none = refl
  eval_or none (some b) = refl
  eval_or (some true) none = refl
  eval_or (some false) none = refl
  eval_or (some true) (some b) = refl
  eval_or (some false) (some b) = refl

  negate-of_truth : (o : Option Bool) → negate Float (of_truth o) ≡ of_truth (contrary o)
  unfolding negate
  negate-of_truth none = refl
  negate-of_truth (some b) = refl

  negate_call-of_truth :
      (o : Option Bool) → negate_call Float (of_truth o) ≡ of_truth (contrary_call o)
  unfolding negate_call negate
  negate_call-of_truth none = refl
  negate_call-of_truth (some b) = refl

  module _ (env : Valuer Float) where
    open env use {call}

    -- What `NOT e` denotes when `e` denotes the second argument: nothing for an operand of a kind
    -- that the code does not list, as a field or another `NOT`.
    unfoldable opposite : Expr Float → Option Bool → Option Bool
    opposite (Expr.binary op l r) o = contrary o
    opposite (Expr.function name args) o = elim call [ none ↦ none | some f ↦ contrary_call o ]
    opposite (Expr.paren e) o = contrary o
    opposite (Expr.bool b) o = contrary o
    opposite _ o = none

    -- The truth of a condition, from those of its parts.
    unfoldable pub truth : Expr Float → Option Bool
    unfolding opposite
    truth (Expr.binary Token.and l r) = join ◌&&◌ (truth l) (truth r)
    truth (Expr.binary Token.or l r) = join ◌||◌ (truth l) (truth r)
    truth (Expr.not_ e) = opposite e (truth e)
    truth (Expr.paren e) = truth e
    truth e = as_truth (eval fl st env e)

    -- The operands of `and`, `or` and `not` are conditions, and any other part has the value true,
    -- false or nil, which every comparison has.
    unfoldable pub IsCondition : Expr Float → Type 0
    IsCondition (Expr.binary Token.and l r) = IsCondition l × IsCondition r
    IsCondition (Expr.binary Token.or l r) = IsCondition l × IsCondition r
    IsCondition (Expr.binary op l r) = Unit
    IsCondition (Expr.not_ e) = IsCondition e
    IsCondition (Expr.paren e) = IsCondition e
    IsCondition e = IsTruth (eval fl st env e)

    -- The negation of a call that may not be possible.
    negate-invoke :
        (c : Option (Text → List (Arg Float) → Value Float)) (name : Text) (args : List (Arg Float))
        (o : Option Bool)
        → elim c [ none ↦ Value.nil | some f ↦ f name args ] ≡ of_truth o
        → elim c [ none ↦ Value.nil | some f ↦ negate_call Float (f name args) ]
          ≡ of_truth (elim c [ none ↦ none | some f ↦ contrary_call o ])
    negate-invoke none name args o h = refl
    negate-invoke (some f) name args o h = rw h (negate_call-of_truth o)

    eval_not-opposite :
        (e : Expr Float) (o : Option Bool)
        → eval fl st env e ≡ of_truth o
        → eval_not fl st env e ≡ of_truth (opposite e o)
    unfolding eval eval_not opposite invoke negate
    eval_not-opposite (Expr.binary op l r) o h = ap (negate Float) h ∙ negate-of_truth o
    eval_not-opposite (Expr.paren e) o h = ap (negate Float) h ∙ negate-of_truth o
    eval_not-opposite (Expr.function name args) o h = negate-invoke call name _ o h
    eval_not-opposite (Expr.bool b) o h = ap (negate Float) h ∙ negate-of_truth o
    eval_not-opposite _ o h = refl

    -- A condition, whose operands of `and`, `or` and `not` are conditions and whose other
    -- parts evaluate to true, false or nil, evaluates to its truth: `and` and `or` over a
    -- missing side count it as false, nothing joined with nothing is nothing, `not` of
    -- nothing is nothing but for a call, where it is true, and `not` of a bare field or of
    -- another `not` is nothing.
    pub eval-truth : (e : Expr Float) → IsCondition e → eval fl st env e ≡ of_truth (truth e)
    unfolding eval truth IsCondition
    eval-truth (Expr.binary Token.and l r) h =
        eval_both Token.and (eval-truth l h.0) (eval-truth r h.1) ∙ eval_and (truth l) (truth r)
    eval-truth (Expr.binary Token.or l r) h =
        eval_both Token.or (eval-truth l h.0) (eval-truth r h.1) ∙ eval_or (truth l) (truth r)
    eval-truth (Expr.binary op l r) h =
        sym (of_truth-as_truth _ (eval_binary-IsTruth op (eval fl st env l) (eval fl st env r)))
    eval-truth (Expr.not_ e) h = eval_not-opposite e (truth e) (eval-truth e h)
    eval-truth (Expr.paren e) h = eval-truth e h
    eval-truth e h = sym (of_truth-as_truth _ h)

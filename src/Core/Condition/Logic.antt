-- ===== src/Core/Condition/Logic.antt =====
-- The combinators of core/condition.go as a three-valued logic.
use go_ha.Prelude.{◌≡◌, refl, ◌∙◌, Bool, true, false, not, Option, none, some, arith}
use go_ha.Core.Condition.{
  EvalError, Verdict, decided, undecided, EvalContext, Condition, all, any, negation, Conditions,
  nil, cons, state_is, time_between, never, on_dates, in_date_range, on_weekdays, sun_up, func,
  flip, first_error, eval, eval_all, eval_any, all_step, any_step,
}

-- True, false, or unknown.
abbrev pub truth : Verdict → Option Bool
truth (decided b) = some b
truth (undecided e) = none

-- Kleene's conjunction, disjunction and negation: a definite answer of one side that settles the
-- whole wins over an unknown one.
abbrev pub kleene_and : Option Bool → Option Bool → Option Bool
kleene_and (some false) b = some false
kleene_and (some true) b = b
kleene_and none (some false) = some false
kleene_and none (some true) = none
kleene_and none none = none

abbrev pub kleene_not : Option Bool → Option Bool
kleene_not none = none
kleene_not (some b) = some (not b)

abbrev pub kleene_or : Option Bool → Option Bool → Option Bool
kleene_or a b = kleene_not (kleene_and (kleene_not a) (kleene_not b))

-- What a condition means, by its structure; a leaf means what it evaluates to.
unfoldable mutual
  pub meaning : Condition → EvalContext → Option Bool
  meaning (all cs) ec = meaning_all cs ec
  meaning (any cs) ec = meaning_any cs ec
  meaning (negation c) ec = kleene_not (meaning c ec)
  meaning (state_is id states) ec = truth (eval (state_is id states) ec)
  meaning (time_between start end) ec = truth (eval (time_between start end) ec)
  meaning never ec = some false
  meaning (on_dates dates) ec = truth (eval (on_dates dates) ec)
  meaning (in_date_range start end) ec = truth (eval (in_date_range start end) ec)
  meaning (on_weekdays days) ec = truth (eval (on_weekdays days) ec)
  meaning (sun_up up) ec = truth (eval (sun_up up) ec)
  meaning (func f) ec = truth (f ec)

  pub meaning_all : Conditions → EvalContext → Option Bool
  meaning_all nil ec = some true
  meaning_all (cons c cs) ec = kleene_and (meaning c ec) (meaning_all cs ec)

  pub meaning_any : Conditions → EvalContext → Option Bool
  meaning_any nil ec = some false
  meaning_any (cons c cs) ec = kleene_or (meaning c ec) (meaning_any cs ec)

abbrev so_far : Bool → Option EvalError → Option Bool
so_far b none = some b
so_far b (some e) = none

all_step-truth :
    (v : Verdict) (u : Option EvalError) (rest : Option EvalError → Verdict) (b : Option Bool)
    → ((w : Option EvalError) → truth (rest w) ≡ kleene_and (so_far true w) b)
    → truth (all_step v u rest) ≡ kleene_and (so_far true u) (kleene_and (truth v) b)
all_step-truth (undecided e) none rest b h = h (some e) ∙ ground arith
all_step-truth (undecided e) (some f) rest b h = h (some f) ∙ ground arith
all_step-truth (decided true) u rest b h = h u
all_step-truth (decided false) u rest b h = ground arith

any_step-truth :
    (v : Verdict) (u : Option EvalError) (rest : Option EvalError → Verdict) (b : Option Bool)
    → ((w : Option EvalError) → truth (rest w) ≡ kleene_or (so_far false w) b)
    → truth (any_step v u rest) ≡ kleene_or (so_far false u) (kleene_or (truth v) b)
any_step-truth (undecided e) none rest b h = h (some e) ∙ ground arith
any_step-truth (undecided e) (some f) rest b h = h (some f) ∙ ground arith
any_step-truth (decided true) u rest b h = ground arith
any_step-truth (decided false) u rest b h = h u ∙ ground arith

mutual
  unfolding eval meaning

  eval-truth : (c : Condition) (ec : EvalContext) → truth (eval c ec) ≡ meaning c ec
  eval-truth (all cs) ec = ground (arith, eval_all-truth cs none ec)
  eval-truth (any cs) ec = ground (arith, eval_any-truth cs none ec)
  eval-truth (negation c) ec = ground (arith, eval-truth c ec)
  eval-truth (state_is id states) ec = refl
  eval-truth (time_between start end) ec = refl
  eval-truth never ec = refl
  eval-truth (on_dates dates) ec = refl
  eval-truth (in_date_range start end) ec = refl
  eval-truth (on_weekdays days) ec = refl
  eval-truth (sun_up up) ec = refl
  eval-truth (func f) ec = refl

  eval_all-truth :
      (cs : Conditions) (u : Option EvalError) (ec : EvalContext)
      → truth (eval_all cs u ec) ≡ kleene_and (so_far true u) (meaning_all cs ec)
  eval_all-truth nil u ec = ground arith
  eval_all-truth (cons c cs) u ec = rw (← eval-truth c ec) (
      all_step-truth (eval c ec) u (λ v. eval_all cs v ec) (meaning_all cs ec)
        (λ v. eval_all-truth cs v ec))

  eval_any-truth :
      (cs : Conditions) (u : Option EvalError) (ec : EvalContext)
      → truth (eval_any cs u ec) ≡ kleene_or (so_far false u) (meaning_any cs ec)
  eval_any-truth nil u ec = ground arith
  eval_any-truth (cons c cs) u ec = rw (← eval-truth c ec) (
      any_step-truth (eval c ec) u (λ v. eval_any cs v ec) (meaning_any cs ec)
        (λ v. eval_any-truth cs v ec))

-- The evaluation of every condition gives Kleene's three-valued meaning of it: an error counts as
-- unknown, and a definite answer of any part that settles a combinator settles it.
pub eval-meaning : (c : Condition) (ec : EvalContext) → truth (eval c ec) ≡ meaning c ec
eval-meaning c ec = eval-truth c ec

abbrev pub negate_each : Conditions → Conditions
negate_each nil = nil
negate_each (cons c cs) = cons (negation c) (negate_each cs)

flip-all_step :
    (v : Verdict) (u : Option EvalError) (f g : Option EvalError → Verdict)
    → ((w : Option EvalError) → flip (f w) ≡ g w)
    → flip (all_step v u f) ≡ any_step (flip v) u g
flip-all_step (undecided e) u f g h = h (first_error u e)
flip-all_step (decided true) u f g h = h u
flip-all_step (decided false) u f g h = refl

flip-eval_all :
    (cs : Conditions) (u : Option EvalError) (ec : EvalContext)
    → flip (eval_all cs u ec) ≡ eval_any (negate_each cs) u ec
unfolding eval
flip-eval_all nil u ec = ground arith
flip-eval_all (cons c cs) u ec =
    flip-all_step (eval c ec) u (λ v. eval_all cs v ec) (λ v. eval_any (negate_each cs) v ec)
      (λ v. flip-eval_all cs v ec)

-- Negating `All` is `Any` of the negations, down to the error that is reported.
pub de_morgan :
    (cs : Conditions) (ec : EvalContext)
    → eval (negation (all cs)) ec ≡ eval (any (negate_each cs)) ec
unfolding eval
de_morgan cs ec = flip-eval_all cs none ec

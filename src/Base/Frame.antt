-- ===== src/Base/Frame.antt =====
-- What a relation between states says of an action: rules for each way to build one.
use op_cartesi.Base.Tests.{if◌then◌else◌}
use mathlib.Core.Option.{Option, none, some}
use op_cartesi.Base.Results.{
  Act, pure, throw, gets, reads, throw_if, if_some, continue_with, ◌>>=◌, Failure, Result, ok, err,
}
use mathlib.Core.Bool.{Bool, true, false}
use mathlib.Core.Path.{◌≡◌, refl, ◌∙◌}

pub record IsPreorder {S : Type 0} (R : S → S → Type 0) : Type 0 where
  pub here : (s : S) → R s s
  pub chain : (s t u : S) → R s t → R t u → R s u

-- The state before the action is related to the one after it, thrown or not.
pub record Keeps {S A : Type 0} (R : S → S → Type 0) (m : Act S A) : Type 0 where
  pub related : (s : S) → R s (m s).1

module _ {S : Type 0} {R : S → S → Type 0} (order : IsPreorder R) where
  pub Keeps-pure : {A : Type 0} (a : A) → Keeps R (pure a)
  unfolding pure
  Keeps-pure a = record { related = order.here }

  pub Keeps-throw : {A : Type 0} (e : Failure) → Keeps R (throw {A = A} e)
  unfolding throw
  Keeps-throw e = record { related = order.here }

  pub Keeps-gets : {A : Type 0} (f : S → A) → Keeps R (gets f)
  unfolding gets
  Keeps-gets f = record { related = order.here }

  pub Keeps-reads : {A : Type 0} (f : S → Result A) → Keeps R (reads f)
  unfolding reads
  Keeps-reads f = record { related = order.here }

  pub Keeps-throw_if : (b : Bool) (e : Failure) → Keeps R (throw_if b e)
  unfolding throw_if
  Keeps-throw_if true e = record { related = order.here }
  Keeps-throw_if false e = record { related = order.here }

  pub after :
      {A B : Type 0} (s : S) (p : Result A × S) (f : A → Act S B)
      → R s p.1
      → ((a : A) → Keeps R (f a))
      → R s (continue_with p f).1
  after s (ok a, t) f h k = order.chain s t _ h ((k a).related t)
  after s (err x, t) f h k = h

  pub Keeps-bind :
      {A B : Type 0} (m : Act S A) (f : A → Act S B)
      → Keeps R m
      → ((a : A) → Keeps R (f a))
      → Keeps R (m >>= f)
  unfolding ◌>>=◌
  Keeps-bind m f hm hf = record { related = λ s. after s (m s) f (hm.related s) hf }

pub Keeps-if :
    {S A : Type 0} {R : S → S → Type 0} (b : Bool) (m n : Act S A)
    → Keeps R m
    → Keeps R n
    → Keeps R (if b then m else n)
Keeps-if true m n hm hn = hm
Keeps-if false m n hm hn = hn

pub Keeps-if_some :
    {S A B : Type 0} {R : S → S → Type 0} (o : Option A) (f : A → Act S B) (m : Act S B)
    → ((a : A) → Keeps R (f a))
    → Keeps R m
    → Keeps R (if_some o f m)
unfolding if_some
Keeps-if_some none f m hf hm = hm
Keeps-if_some (some a) f m hf hm = hf a

pub ruleset keeps_rules = (
  Keeps-pure, Keeps-throw, Keeps-gets, Keeps-reads, Keeps-throw_if, Keeps-bind, Keeps-if,
  Keeps-if_some,
)

-- An action that only reads leaves the state as it was.
pub record Same {S : Type 0} (s t : S) : Type 0 where
  pub same : t ≡ s

pub Same-preorder : {S : Type 0} → IsPreorder (Same {S = S})
Same-preorder = record {
  here = λ s. record { same = refl };
  chain = λ s t u h k. record { same = k.same ∙ h.same };
}

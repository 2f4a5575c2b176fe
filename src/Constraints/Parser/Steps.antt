-- ===== src/Constraints/Parser/Steps.antt =====
-- How a sequence of parsing steps succeeds, and what a successful `expect` has read.
use hyperkitty_constraint_ds.Prelude.{
  ◌≡◌, refl, Bool, true, Option, none, some, List, [], ◌∷◌, arith, if◌then◌else◌, false, ==→eq,
}
use hyperkitty_constraint_ds.Core.{Result, ok, err, no_fuel}
use hyperkitty_constraint_ds.Constraints.Token.{Token, ident, number, string, eof}
use hyperkitty_constraint_ds.Constraints.Parser.{
  Parse, ◌>>=◌, discriminant, current, advance, expect, expected, at,
}

pub bind-of-ok :
    {A B : Type 0} (m : Parse A) (f : A → Parse B) {ts rest : List Token} {a : A}
    → m ts ≡ ok (a, rest)
    → (m >>= f) ts ≡ f a rest
bind-of-ok m f e = rw (e, ◌>>=◌)

bind_result :
    {A B : Type 0} (r : Result (A × List Token)) (f : A → Parse B) {b : B × List Token}
    → (elim r [ ok (a, rest) ↦ f a rest | err e ↦ err e | no_fuel ↦ no_fuel ]) ≡ ok b
    → (a : A) × (rest : List Token) × (r ≡ ok (a, rest)) × (f a rest ≡ ok b)
bind_result (ok (a, rest)) f h = (a, rest, refl, h)
bind_result (err e) f h = cc
bind_result no_fuel f h = cc

pub bind-eq-ok :
    {A B : Type 0} (m : Parse A) (f : A → Parse B) (ts : List Token) {b : B × List Token}
    → (m >>= f) ts ≡ ok b
    → (a : A) × (rest : List Token) × (m ts ≡ ok (a, rest)) × (f a rest ≡ ok b)
bind-eq-ok m f ts h = bind_result (m ts) f h

-- The token that a number stands for, of those that hold nothing.
abbrev pub plain : Token → Option Token
plain (ident s) = none
plain (number s) = none
plain (string s) = none
plain eof = none
plain t = some t

abbrev pub IsPlain : Token → Type 0
IsPlain t = plain t ≡ some t

token_of_discriminant : (t k : Token) → IsPlain k → discriminant t ≡ discriminant k → t ≡ k
token_of_discriminant t k p e = ground arith

pub at-eq : (k : Token) (ts : List Token) → IsPlain k → at k ts ≡ true → current ts ≡ k
at-eq k ts p h = token_of_discriminant (current ts) k p (==→eq _ _ h)

not-plain-eof : (k : Token) → eof ≡ k → IsPlain k → ⊥
not-plain-eof k e p = ground arith

expect_result :
    (k : Token) (ts : List Token) (b : Bool) {x : Unit {0}} {rest : List Token}
    → IsPlain k
    → (b ≡ true → current ts ≡ k)
    → ◌≡◌ {A = Result (Unit {0} × List Token)}
        (if b then ok (tt, advance ts) else err (expected k (current ts)))
        (ok (x, rest))
    → ts ≡ k ∷ rest
expect_result k [] true p c h = absurd (not-plain-eof k (c refl) p)
expect_result k (t ∷ ts) true p c h = cc (c refl)
expect_result k ts false p c h = cc

pub expect-eq-ok :
    (k : Token) (ts : List Token) {x : Unit {0}} {rest : List Token}
    → IsPlain k
    → expect k ts ≡ ok (x, rest)
    → ts ≡ k ∷ rest
unfolding expect
expect-eq-ok k ts p h = expect_result k ts (at k ts) p (at-eq k ts p) h

pub at_eof : (ts : List Token) → at eof ts ≡ true → current ts ≡ eof
at_eof ts h = only_eof (current ts) (==→eq _ _ h)
  where
    only_eof : (t : Token) → discriminant t ≡ discriminant eof → t ≡ eof
    only_eof t e = ground arith

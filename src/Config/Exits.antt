-- ===== src/Config/Exits.antt =====
-- A program that goes on, rather than ending.
use metrify.Base.{◌⊎◌, inl, inr, ◌≡◌, refl, arith}
use metrify.Failure.{Failure}
use metrify.Flags.{End, parsed, help_asked, wrong}
use metrify.Config.{Exit, of_parse, or_fatal, and_then}

pub or_fatal-inr : {A : Type 0} (r : Failure ⊎ A) (a : A) → or_fatal r ≡ inr a → r ≡ inr a
or_fatal-inr (inl e) a h = cc
or_fatal-inr (inr b) a h = ground arith

pub and_then-inr :
    {A B : Type 0} (r : Exit ⊎ A) (k : A → Exit ⊎ B) (b : B)
    → and_then r k ≡ inr b
    → (a : A) × (r ≡ inr a) × (k a ≡ inr b)
and_then-inr (inl e) k b h = cc
and_then-inr (inr a) k b h = (a, refl, h)

pub of_parse-parsed : {S : Type 0} (r : End × S) (f : S) → of_parse r ≡ inr f → r ≡ (parsed, f)
of_parse-parsed (parsed, g) f h = ground arith
of_parse-parsed (help_asked, g) f h = cc
of_parse-parsed (wrong, g) f h = cc

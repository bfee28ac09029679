-- ===== src/Posix/Keeps.antt =====
-- Invariants of commands: one rule for each way to build a command.
use mathlib.Core.Path.{subst}
use safs.Base.{◌≡◌, ◌⊎◌, inl, inr, refl, sym, Bool, true, false, Option, none, some, if◌then◌else◌}
use safs.Posix.{World, Cmd, pure, ◌>>=◌, ◌>>◌}

-- From a world with `P`, the command gives a world with `P` and a result with `Q`.
pub record Keeps {A : Type 0} (P : World → Type 0) (Q : A → Type 0) (m : Cmd A) : Type 0 where
  pub at : (w : World) → P w → P (m w).1 × Q (m w).0

abbrev pub Anything : {A : Type 0} → A → Type 0
Anything a = Unit {0}

module _ {P : World → Type 0} where
  pub Keeps-pure : {A : Type 0} {Q : A → Type 0} {a : A} → Q a → Keeps P Q (pure a)
  Keeps-pure q = record { at = λ w p. (p, q) }

  pub Keeps-bind :
      {A B : Type 0} {Q : A → Type 0} {R : B → Type 0} {m : Cmd A} {f : A → Cmd B}
      → Keeps P Q m
      → ((a : A) → Q a → Keeps P R (f a))
      → Keeps P R (m >>= f)
  unfolding ◌>>=◌
  Keeps-bind {m} km kf = record {
    at = λ w p. let (p', q) = km.at w p in (kf (m w).0 q).at (m w).1 p';
  }

  pub Keeps-then :
      {A B : Type 0} {Q : A → Type 0} {R : B → Type 0} {m : Cmd A} {n : Cmd B}
      → Keeps P Q m
      → Keeps P R n
      → Keeps P R (m >> n)
  unfolding ◌>>◌
  Keeps-then km kn = Keeps-bind km (λ _ _. kn)

  pub Keeps-if :
      {A : Type 0} {Q : A → Type 0} (b : Bool) {m n : Cmd A}
      → Keeps P Q m
      → Keeps P Q n
      → Keeps P Q (if b then m else n)
  Keeps-if true km kn = km
  Keeps-if false km kn = kn

  -- Each branch knows the test's outcome.
  pub Keeps-if_tested :
      {A : Type 0} {Q : A → Type 0} (b : Bool) {m n : Cmd A}
      → (b ≡ true → Keeps P Q m)
      → Keeps P Q n
      → Keeps P Q (if b then m else n)
  Keeps-if_tested true km kn = km refl
  Keeps-if_tested false km kn = kn

  pub Keeps-elim_Bool :
      {A : Type 0} {Q : A → Type 0} (b : Bool) {m n : Cmd A}
      → Keeps P Q m
      → Keeps P Q n
      → Keeps P Q (elim b [ true ↦ m | false ↦ n ])
  Keeps-elim_Bool true km kn = km
  Keeps-elim_Bool false km kn = kn

  pub Keeps-elim_Option :
      {A X : Type 0} {Q : A → Type 0} (R : Option X → Type 0) {m : Cmd A} {f : X → Cmd A}
      (o : Option X)
      → R o
      → Keeps P Q m
      → ((x : X) → R (some x) → Keeps P Q (f x))
      → Keeps P Q (elim o [ none ↦ m | some x ↦ f x ])
  Keeps-elim_Option R none r km kf = km
  Keeps-elim_Option R (some x) r km kf = kf x r

-- From a world with `P`, the command gives a result and a world with `R`: for a command whose end
-- leaves `P`.
pub record Ends {A : Type 0} (P : World → Type 0) (R : A → World → Type 0) (m : Cmd A)
    : Type 0 where
  pub at : (w : World) → P w → R (m w).0 (m w).1

abbrev pub Leads : {A : Type 0} → (World → Type 0) → (World → Type 0) → Cmd A → Type 0
Leads P R m = Ends P (λ a. R) m

module _ {P : World → Type 0} where
  pub Ends-bind :
      {A B : Type 0} {Q : A → Type 0} {R : B → World → Type 0} {m : Cmd A} {f : A → Cmd B}
      → Keeps P Q m
      → ((a : A) → Q a → Ends P R (f a))
      → Ends P R (m >>= f)
  unfolding ◌>>=◌
  Ends-bind {m} km kf = record {
    at = λ w p. let (p', q) = km.at w p in (kf (m w).0 q).at (m w).1 p';
  }

  pub Ends-then :
      {A B : Type 0} {Q : A → Type 0} {R : B → World → Type 0} {m : Cmd A} {n : Cmd B}
      → Keeps P Q m
      → Ends P R n
      → Ends P R (m >> n)
  unfolding ◌>>◌
  Ends-then km kn = Ends-bind km (λ _ _. kn)

  pub Ends-if :
      {A : Type 0} {R : A → World → Type 0} (b : Bool) {m n : Cmd A}
      → Ends P R m
      → Ends P R n
      → Ends P R (if b then m else n)
  Ends-if true lm ln = lm
  Ends-if false lm ln = ln

  pub Ends-Keeps :
      {A : Type 0} {Q : A → Type 0} {R : A → World → Type 0} {m : Cmd A}
      → Keeps P Q m
      → ((a : A) (w : World) → P w → R a w)
      → Ends P R m
  Ends-Keeps {m} km weaken = record { at = λ w p. weaken (m w).0 (m w).1 (km.at w p).0 }

pub Ends-elim_Option :
    {A X : Type 0} (P : Option X → World → Type 0) {R : A → World → Type 0} {m : Cmd A}
    {f : X → Cmd A} (o : Option X)
    → Ends (P none) R m
    → ((x : X) → Ends (P (some x)) R (f x))
    → Ends (P o) R (elim o [ none ↦ m | some x ↦ f x ])
Ends-elim_Option P none em ef = em
Ends-elim_Option P (some x) em ef = ef x

pub Ends-seq :
    {A B : Type 0} {P : World → Type 0} {R : A → World → Type 0} {S : B → World → Type 0}
    {m : Cmd A} {f : A → Cmd B}
    → Ends P R m
    → ((a : A) → Ends (R a) S (f a))
    → Ends P S (m >>= f)
unfolding ◌>>=◌
Ends-seq {m} em ef = record { at = λ w p. (ef (m w).0).at (m w).1 (em.at w p) }

pub Ends-follow :
    {A B : Type 0} {P R : World → Type 0} {S : B → World → Type 0} {m : Cmd A} {n : Cmd B}
    → Leads P R m
    → Ends R S n
    → Ends P S (m >> n)
unfolding ◌>>◌
Ends-follow em en = Ends-seq em (λ _. en)

-- The command's outcome decides which predicate its world has.
pub Ends-test :
    {B : Type 0} {P Y N : World → Type 0} {R : B → World → Type 0} (m : Cmd Bool) (f : Bool → Cmd B)
    → ((w : World) → P w → (((m w).0 ≡ true) × Y (m w).1) ⊎ (((m w).0 ≡ false) × N (m w).1))
    → Ends Y R (f true)
    → Ends N R (f false)
    → Ends P R (m >>= f)
unfolding ◌>>=◌
Ends-test {R} m f outcome done failed = record {
  at = λ w p. elim (outcome w p) [
    | inl (e, y) ↦ subst (λ b. R (f b (m w).1).0 (f b (m w).1).1) (sym e) (done.at (m w).1 y)
    | inr (e, n) ↦ subst (λ b. R (f b (m w).1).0 (f b (m w).1).1) (sym e) (failed.at (m w).1 n)
  ];
}

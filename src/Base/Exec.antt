-- ===== src/Base/Exec.antt =====
-- An async method: it reads and writes the state, and returns or throws. What was written before
-- a throw stays written.
use mathlib.Core.Path.{◌≡◌, refl, ap, ◌∙◌}
use mathlib.Core.Bool.{Bool, true, false}
use anticipation.Base.Lists.{if◌then◌else◌}
use anticipation.Base.Result.{Result, ok, err}

abbrev pub Exec : Type 0 → Type 0 → Type 0 → Type 0
Exec S E A = S → Result E A × S

module _ {S E A : Type 0} where
  abbrev pub pure : A → Exec S E A
  pure a s = (ok a, s)

  abbrev pub throw : E → Exec S E A
  throw e s = (err e, s)

module _ {S E A B : Type 0} where
  abbrev pub resume : (A → Exec S E B) → Result E A × S → Result E B × S
  resume f (ok a, s) = f a s
  resume f (err e, s) = (err e, s)

  infixl 5 ◌>>=◌ ◌>>◌
  abbrev pub ◌>>=◌ : Exec S E A → (A → Exec S E B) → Exec S E B
  ◌>>=◌ m f s = resume f (m s)

  abbrev pub ◌>>◌ : Exec S E A → Exec S E B → Exec S E B
  m >> n = m >>= λ _. n

-- try { m } catch (e) { handler(e) }
abbrev pub handle : {S E A : Type 0} → (E → Exec S E A) → Result E A × S → Result E A × S
handle f (ok a, s) = (ok a, s)
handle f (err e, s) = f e s

abbrev pub try : {S E A : Type 0} → Exec S E A → (E → Exec S E A) → Exec S E A
try m f s = handle f (m s)

-- What follows a step that returns.
pub resume_ok :
    {S E A B : Type 0} (f : A → Exec S E B) (a : A) (x : Result E A × S)
    → x.0 ≡ ok a
    → resume f x ≡ f a x.1
resume_ok f a (ok b, s) h = let e : b ≡ a = cc in ap (λ z. f z s) e
resume_ok f a (err e, s) h = absurd cc

pub handle_ok :
    {S E A : Type 0} (g : E → Exec S E A) (a : A) (x : Result E A × S)
    → x.0 ≡ ok a
    → handle g x ≡ (ok a, x.1)
handle_ok g a (ok b, s) h = let e : b ≡ a = cc in ap (λ z. (ok z, s)) e
handle_ok g a (err e, s) h = absurd cc

handle_err :
    {S E A : Type 0} (g : E → Exec S E A) (e : E) (x : Result E A × S)
    → x.0 ≡ err e
    → handle g x ≡ g e x.1
handle_err g e (ok b, s) h = absurd cc
handle_err g e (err d, s) h = let same : d ≡ e = cc in ap (λ z. g z s) same

module _ {S E A B : Type 0} (m : Exec S E A) (g : E → Exec S E A) (f : A → Exec S E B) where
  -- What follows a `try` that returns, or throws and is handled by a value.
  pub try-ok : (s : S) (a : A) → (m s).0 ≡ ok a → (try m g >>= f) s ≡ f a (m s).1
  try-ok s a h = ap (resume f) (handle_ok g a (m s) h)

  pub try-err :
      (s : S) (e : E) (a : A) → g e ≡ pure a → (m s).0 ≡ err e → (try m g >>= f) s ≡ f a (m s).1
  try-err s e a handled h =
      ap (resume f) (handle_err g e (m s) h ∙ ap (λ (n : Exec S E A). n (m s).1) handled)

-- The steps of a call that returned.
pub resume_inv :
    {S E A B : Type 0} (f : A → Exec S E B) (x : Result E A × S) {b : B}
    → (resume f x).0 ≡ ok b
    → (a : A) × (x.0 ≡ ok a) × ((f a x.1).0 ≡ ok b)
resume_inv f (ok a, s) h = (a, refl, h)
resume_inv f (err e, s) h = absurd cc

-- A call whose errors are turned into a value returns.
pub handle_total :
    {S E A : Type 0} (b : A) (x : Result E A × S) → (a : A) × ((handle (λ e. pure b) x).0 ≡ ok a)
handle_total b (ok a, s) = (a, refl)
handle_total b (err e, s) = (b, refl)

-- What a call leaves alone: a part of the state that no step writes.
module _ {S E : Type 0} {V : Type 0} (view : S → V) where
  abbrev pub Keeps : {A : Type 0} → Exec S E A → Type 0
  Keeps m = (s : S) → view (m s).1 ≡ view s

  pub Keeps-resume :
      {A B : Type 0} (f : A → Exec S E B)
      → ((a : A) → Keeps (f a))
      → (x : Result E A × S) → view (resume f x).1 ≡ view x.1
  Keeps-resume f kept (ok a, s) = kept a s
  Keeps-resume f kept (err e, s) = refl

  pub Keeps->>= :
      {A B : Type 0} (m : Exec S E A) (f : A → Exec S E B)
      → Keeps m
      → ((a : A) → Keeps (f a))
      → Keeps (m >>= f)
  Keeps->>= m f first rest s = Keeps-resume f rest (m s) ∙ first s

  pub Keeps->> :
      {A B : Type 0} (m : Exec S E A) (n : Exec S E B) → Keeps m → Keeps n → Keeps (m >> n)
  Keeps->> m n first second = Keeps->>= m (λ a. n) first (λ a. second)

  pub Keeps-handle :
      {A : Type 0} (f : E → Exec S E A)
      → ((e : E) → Keeps (f e))
      → (x : Result E A × S) → view (handle f x).1 ≡ view x.1
  Keeps-handle f kept (ok a, s) = refl
  Keeps-handle f kept (err e, s) = kept e s

  pub Keeps-try :
      {A : Type 0} (m : Exec S E A) (f : E → Exec S E A)
      → Keeps m
      → ((e : E) → Keeps (f e))
      → Keeps (try m f)
  Keeps-try m f first rest s = Keeps-handle f rest (m s) ∙ first s

  pub Keeps-if :
      {A : Type 0} (b : Bool) (m n : Exec S E A) → Keeps m → Keeps n → Keeps (if b then m else n)
  Keeps-if true m n first second = first
  Keeps-if false m n first second = second

-- What holds of a result and its state whenever a call returns it.
module _ {S E B : Type 0} (Q : B → S → Type 0) where
  abbrev pub Ensures : Result E B × S → Type 0
  Ensures x = (b : B) → x.0 ≡ ok b → Q b x.1

  pub Ensures-resume :
      {A : Type 0} (f : A → Exec S E B)
      → ((a : A) (s : S) → Ensures (f a s))
      → (x : Result E A × S) → Ensures (resume f x)
  Ensures-resume f last (ok a, s) = last a s
  Ensures-resume f last (err e, s) = λ b told. absurd cc

-- ===== src/Exec.antt =====
-- Methods that change a state and may raise: what was done before a raise stays done.
use the_retinue.Base.{
  Bool, true, false, if◌then◌else◌, ◌≡◌, refl, nat_eq, list_eq, Exn, Result, ok, err,
}

abbrev pub Exec : Type 0 → Type 0 → Type 0
Exec S A = S → Result A × S

module _ {S A : Type 0} where
  abbrev pub pure : A → Exec S A
  pure a s = (ok a, s)

  abbrev pub raise : Exn → Exec S A
  raise e s = (err e, s)

  abbrev pub lift : Result A → Exec S A
  lift r s = (r, s)

module _ {S A B : Type 0} where
  abbrev pub continue : Result A → (A → Exec S B) → Exec S B
  continue (ok a) f s = f a s
  continue (err e) f s = (err e, s)

  infixl 5 ◌>>=◌ ◌>>◌
  abbrev pub ◌>>=◌ : Exec S A → (A → Exec S B) → Exec S B
  ◌>>=◌ m f s = continue (m s).0 f (m s).1

  abbrev pub ◌>>◌ : Exec S A → Exec S B → Exec S B
  ◌>>◌ m k s = continue (m s).0 (λ a. k) (m s).1

-- A step that cannot raise.
abbrev pub modify : {S : Type 0} → (S → S) → Exec S (Unit {0})
modify f s = (ok tt, f s)

-- What holds of the state, and after the rest where there is a rest, holds after both.
pub continue-keeps :
    {S A B : Type 0} (P : S → Type 0) (r : Result A) (f : A → Exec S B) (s : S)
    → P s
    → ((a : A) → r ≡ ok a → P (f a s).1)
    → P (continue r f s).1
continue-keeps P (ok a) f s p k = k a refl
continue-keeps P (err e) f s p k = p

-- After the method the property holds if it held before.
abbrev pub Keeps : {S A : Type 0} → (S → Type 0) → Exec S A → Type 0
Keeps {S} P m = (s : S) → P s → P (m s).1

pub Keeps-then :
    {S A B : Type 0} (P : S → Type 0) (m : Exec S A) (f : A → Exec S B)
    → Keeps P m
    → ((a : A) → Keeps P (f a))
    → Keeps P (m >>= f)
Keeps-then P m f km kf s p =
    continue-keeps P (m s).0 f (m s).1 (km s p) (λ a e. kf a (m s).1 (km s p))

pub Keeps-if :
    {S A : Type 0} (P : S → Type 0) (test : Bool) (m k : Exec S A)
    → Keeps P m
    → Keeps P k
    → Keeps P (if test then m else k)
Keeps-if P true m k km kk = km
Keeps-if P false m k km kk = kk

-- What holds of a result and the state with it, if the method returns.
abbrev pub Post : {S A : Type 0} → Exec S A → (A → S → Type 0) → Type 0
Post {S} {A} m Q = (s : S) (a : A) → (m s).0 ≡ ok a → Q a (m s).1

continue-Post :
    {S A B : Type 0} (Q : A → S → Type 0) (R : B → S → Type 0) (r : Result A) (f : A → Exec S B)
    (s : S)
    → ((a : A) → r ≡ ok a → Q a s)
    → ((a : A) → Q a s → (b : B) → (f a s).0 ≡ ok b → R b (f a s).1)
    → (b : B) → (continue r f s).0 ≡ ok b
    → R b (continue r f s).1
continue-Post Q R (ok a) f s q k b h = k a (q a refl) b h
continue-Post Q R (err e) f s q k b h = absurd (cc)

pub Post-then :
    {S A B : Type 0} (Q : A → S → Type 0) (R : B → S → Type 0) (m : Exec S A) (f : A → Exec S B)
    → Post m Q
    → ((a : A) (s : S) → Q a s → (b : B) → (f a s).0 ≡ ok b → R b (f a s).1)
    → Post (m >>= f) R
Post-then Q R m f q k s b h = continue-Post Q R (m s).0 f (m s).1 (q s) (λ a qa. k a (m s).1 qa) b h

-- What only the rest decides.
pub Post-rest :
    {S A B : Type 0} (R : B → S → Type 0) (m : Exec S A) (f : A → Exec S B)
    → ((a : A) → Post (f a) R)
    → Post (m >>= f) R
Post-rest R m f k = Post-then (λ a s. Unit) R m f (λ s a h. tt) (λ a s u. k a s)

-- A first step that leads from one property to another, and a rest that keeps this.
abbrev pub Takes : {S A : Type 0} → (S → Type 0) → (S → Type 0) → Exec S A → Type 0
Takes {S} P Q m = (s : S) → P s → Q (m s).1

pub Takes-then :
    {S A B : Type 0} (P Q : S → Type 0) (m : Exec S A) (f : A → Exec S B)
    → Takes P Q m
    → ((a : A) → Keeps Q (f a))
    → Takes P Q (m >>= f)
Takes-then P Q m f km kf s p =
    continue-keeps Q (m s).0 f (m s).1 (km s p) (λ a e. kf a (m s).1 (km s p))

-- A first step that keeps a property, and a rest that leads from it to another.
pub then-Takes :
    {S A B : Type 0} (P Q : S → Type 0) (m : Exec S A) (f : A → Exec S B)
    → Keeps P m
    → ((s : S) → P s → Q s)
    → ((a : A) → Takes P Q (f a))
    → Takes P Q (m >>= f)
then-Takes P Q m f km weaken kf s p =
    continue-keeps Q (m s).0 f (m s).1 (weaken (m s).1 (km s p)) (λ a e. kf a (m s).1 (km s p))

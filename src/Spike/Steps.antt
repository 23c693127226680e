-- ===== src/Spike/Steps.antt =====
-- How the spike's `main` functions run: each call answers, or throws and ends the run; a test may end
-- it too. `R` is what a run leaves behind.
use batch_it_protocol.Prelude.{Bool, Option, Result, err, false, none, ok, refl, some, true, ◌≡◌}
use Prim.Native.String.{String}
use batch_it_protocol.Web3.Buffer.{RangeError}

-- What ends the run early, or the value that it goes on with.
abbrev pub Steps : Type 0 → Type 0 → Type 0
Steps R A = Result R A

module _ {R : Type 0} (thrown : R) where
  abbrev pub call : {A : Type 0} → Result String A → Steps R A
  call (ok a) = ok a
  call (err message) = err thrown

  abbrev pub build : {A : Type 0} → Result RangeError A → Steps R A
  build (ok a) = ok a
  build (err e) = err thrown

  abbrev pub present : {A : Type 0} → Option A → Steps R A
  present (some a) = ok a
  present none = err thrown

module _ {R : Type 0} where
  abbrev pub stop_if : Bool → R → Steps R (Unit {0})
  stop_if true r = err r
  stop_if false r = ok tt

  -- `if (sim.value.err) { ... process.exit(1); }`
  abbrev pub no_error : (String → R) → Option String → Steps R (Unit {0})
  no_error r none = ok tt
  no_error r (some error) = err (r error)

  -- How the run has ended.
  abbrev pub finish : Steps R R → R
  finish (ok r) = r
  finish (err r) = r

  infixl 5 ◌>>=◌
  abbrev pub ◌>>=◌ : {A : Type 0} → Steps R A → (A → Steps R R) → Steps R R
  (ok a) >>= f = f a
  (err r) >>= f = err r

-- A property of how a run ends holds if it holds at each place where the run can end.
module _ {R : Type 0} (P : R → Type 0) (thrown : R) (crashed : P thrown) where
  pub after_call :
      {A : Type 0} (m : Result String A) (f : A → Steps R R)
      → ((a : A) → m ≡ ok a → P (finish (f a)))
      → P (finish (call thrown m >>= f))
  after_call (ok a) f h = h a refl
  after_call (err e) f h = crashed

  pub after_build :
      {A : Type 0} (m : Result RangeError A) (f : A → Steps R R)
      → ((a : A) → m ≡ ok a → P (finish (f a)))
      → P (finish (build thrown m >>= f))
  after_build (ok a) f h = h a refl
  after_build (err e) f h = crashed

  pub after_present :
      {A : Type 0} (m : Option A) (f : A → Steps R R)
      → ((a : A) → m ≡ some a → P (finish (f a)))
      → P (finish (present thrown m >>= f))
  after_present (some a) f h = h a refl
  after_present none f h = crashed

  pub after_stop_if :
      (b : Bool) (r : R) (f : Unit {0} → Steps R R)
      → P r
      → P (finish (f tt))
      → P (finish (stop_if b r >>= f))
  after_stop_if true r f h k = h
  after_stop_if false r f h k = k

  pub after_no_error :
      (r : String → R) (m : Option String) (f : Unit {0} → Steps R R)
      → ((error : String) → P (r error))
      → (m ≡ none → P (finish (f tt)))
      → P (finish (no_error r m >>= f))
  after_no_error r none f h k = k refl
  after_no_error r (some error) f h k = h error

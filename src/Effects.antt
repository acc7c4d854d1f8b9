-- ===== src/Effects.antt =====
-- How the model reads a Go call that returns a value and an error and changes a store: a function
-- from the store to a result and the store after the call. The store comes back with an error too.
use local_life_go.Prelude.{
  refl, inr, inl, ◌⊎◌, ◌≡◌, if◌then◌else◌, Bool, true, false, Option, none, some,
}
use local_life_go.AppError.{Fault}

pub data Result (A : Type 0) : Type 0 where
  ok : A → Result A
  err : Fault → Result A

abbrev pub M : Type 0 → Type 0 → Type 0
M S A = S → Result A × S

-- A Go error that may be nil.
abbrev pub from_error : Option Fault → Result (Unit {0})
from_error none = ok tt
from_error (some e) = err e

abbrev pub wrap_error : {A : Type 0} → (Fault → Fault) → Result A → Result A
wrap_error g (ok a) = ok a
wrap_error g (err e) = err (g e)

-- `First` and `Take` of GORM on the rows that a query selects.
abbrev pub first_row : {A : Type 0} → Option A → Result A
first_row none = err Fault.record_not_found
first_row (some row) = ok row

module _ {S : Type 0} where
  abbrev pub pure : {A : Type 0} → A → M S A
  pure a s = (ok a, s)

  abbrev pub raise : {A : Type 0} → Fault → M S A
  raise e s = (err e, s)

  -- `if b { return …, e }`
  abbrev pub fail_if : Bool → Fault → M S (Unit {0})
  fail_if test e s = (if test then err e else ok tt, s)

  -- `if err := ctx.Err(); err != nil { return …, err }`: what the context says at this point.
  abbrev pub check_context : Option Fault → M S (Unit {0})
  check_context ctx s = (from_error ctx, s)

  abbrev pub from_result : {A : Type 0} → Result A → M S A
  from_result r s = (r, s)

  infixl 5 ◌>>=◌ ◌>>◌
  abbrev pub ◌>>=◌ : {A B : Type 0} → M S A → (A → M S B) → M S B
  ◌>>=◌ m f s = let (r, s') = m s in elim r [ ok a ↦ f a s' | err e ↦ (err e, s') ]

  abbrev pub ◌>>◌ : {A B : Type 0} → M S A → M S B → M S B
  ◌>>◌ m k s = let (r, s') = m s in elim r [ ok a ↦ k s' | err e ↦ (err e, s') ]

  -- `return …, wrap(err)`
  abbrev pub map_error : {A : Type 0} → (Fault → Fault) → M S A → M S A
  map_error g m s = let (r, s') = m s in (wrap_error g r, s')

-- The result of a call as a value, for code that looks at the error before it returns.
abbrev pub attempt : {S A : Type 0} → M S A → M S (Result A)
attempt m s = let (r, s') = m s in (ok r, s')

-- What the far side of a connection did with a request: it ran it and said so, it did not run it,
-- or it ran it and the answer was lost.
pub data Reply : Type 0 where
  done : Reply
  failed : Fault → Reply
  unacknowledged : Fault → Reply

abbrev pub is_unacknowledged : Reply → Bool
is_unacknowledged (unacknowledged _) = true
is_unacknowledged _ = false

-- The result that comes back over the connection.
abbrev pub answer : {A : Type 0} → Reply → Result A → Result A
answer done r = r
answer (failed e) r = err e
answer (unacknowledged e) r = err e

-- A request that reads.
abbrev pub query : {S A : Type 0} → Reply → (S → Result A) → M S A
query reply f s = (answer reply (f s), s)

-- A request that may write: not run, nothing is written.
abbrev pub written : {S : Type 0} → Reply → S → S → S
written done before after = after
written (failed e) before after = before
written (unacknowledged e) before after = after

abbrev pub send : {S A : Type 0} → Reply → M S A → M S A
send reply m s = let (r, s') = m s in (answer reply r, written reply s s')

abbrev pub map_result : {A B : Type 0} → (A → B) → Result A → Result B
map_result f (ok a) = ok (f a)
map_result f (err e) = err e

abbrev pub is_ok : {A : Type 0} → Result A → Bool
is_ok (ok _) = true
is_ok (err _) = false

pub Result-cases :
    {A : Type 0} (r : Result A) → ((a : A) × (r ≡ ok a)) ⊎ ((e : Fault) × (r ≡ err e))
Result-cases (ok a) = inl (a, refl)
Result-cases (err e) = inr (e, refl)

pub Reply-cases :
    (r : Reply)
    → (r ≡ done) ⊎ ((e : Fault) × (r ≡ failed e)) ⊎ ((e : Fault) × (r ≡ unacknowledged e))
Reply-cases done = inl refl
Reply-cases (failed e) = inr (inl (e, refl))
Reply-cases (unacknowledged e) = inr (inr (e, refl))

-- A call that succeeds, and what follows it.
pub bind-ok :
    {S A B : Type 0} (m : M S A) (f : A → M S B) (s : S) (a : A)
    → (m s).0 ≡ ok a
    → (m >>= f) s ≡ f a (m s).1
bind-ok m f s a e = λ i. elim (e i) [ ok b ↦ f b (m s).1 | err b ↦ (err b, (m s).1) ]

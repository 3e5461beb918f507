-- ===== src/Common/Outcome.antt =====
-- Commands that may return -1 or abort, and their total correctness.
use Prim.Native.Nat.{ℕ}
use mathlib.Core.Bool.{Bool, true, false}
use mathlib.Core.Option.{Option, none, some}
use mathlib.Core.Path.{◌≡◌, refl}
use mathlib.Core.Logic.{inl, inr}
use sbma.Common.Tests.{Bool-cases, Option-cases}

-- `failed` is a return of -1: what the function did before stays done. `aborted` is a failed ASSERT,
-- and `diverged` a loop that has used up its fuel.
pub data Run (S A : Type 0) : Type 0 where
  done : A → S → Run S A
  failed : S → Run S A
  aborted : Run S A
  diverged : Run S A

abbrev pub Cmd : Type 0 → Type 0 → Type 0
Cmd S A = S → Run S A

module _ {S A B : Type 0} where
  abbrev pub and_then : Run S A → (A → Cmd S B) → Run S B
  and_then (done a s) k = k a s
  and_then (failed s) k = failed s
  and_then aborted k = aborted
  and_then diverged k = diverged

  infixl 5 ◌>>=◌ ◌>>◌
  abbrev pub ◌>>=◌ : Cmd S A → (A → Cmd S B) → Cmd S B
  m >>= k = λ s. and_then (m s) k

  abbrev pub ◌>>◌ : Cmd S A → Cmd S B → Cmd S B
  m >> n = m >>= λ _. n

module _ {S : Type 0} where
  abbrev pub pure : {A : Type 0} → A → Cmd S A
  pure = done

  abbrev pub modify : (S → S) → Cmd S (Unit {0})
  modify f s = done tt (f s)

  -- ASSERT(test)
  abbrev pub assert : (S → Bool) → Cmd S (Unit {0})
  assert test s = elim (test s) [ true ↦ done tt s | false ↦ aborted ]

  -- A call that returns a number or -1, and ERRCHK on what it returns.
  abbrev pub counted : (S → Option ℕ × S) → Cmd S ℕ
  counted call s = let (r, s') = call s in elim r [ some n ↦ done n s' | none ↦ failed s' ]

  -- A call that returns 0 or -1, and ERRCHK on what it returns.
  abbrev pub checked : (S → Bool × S) → Cmd S (Unit {0})
  checked call s = let (b, s') = call s in elim b [ true ↦ done tt s' | false ↦ failed s' ]

-- What SBMA_STATE_CHECK does: nothing without the option VMM_CHECK, and with it what sbma_mcheck says of the state.
pub data Checks (S : Type 0) : Type 0 where
  unchecked : Checks S
  checks_that : (S → Bool) → Checks S

module _ {S : Type 0} where
  abbrev pub state_check : Checks S → Cmd S (Unit {0})
  state_check unchecked s = done tt s
  state_check (checks_that consistent) s = assert consistent s

module _ {S A : Type 0} where
  -- A check that fails aborts, too.
  pub state_check-aborted :
      (checks : Checks S) (rest : Cmd S A) (s : S)
      → rest s ≡ aborted
      → (state_check checks >> rest) s ≡ aborted
  state_check-aborted unchecked rest s e = e
  state_check-aborted (checks_that consistent) rest s e = elim (Bool-cases (consistent s)) [
    | inl c ↦ rw (assert, c) e
    | inr c ↦ rw (assert, c) refl
  ]

  -- ASSERT(-1 != ret) on what a call returns.
  abbrev pub insist : Run S A → Run S A
  insist (done a s) = done a s
  insist (failed s) = aborted
  insist aborted = aborted
  insist diverged = diverged

-- No abort and no divergence; `P` holds of a result, and `E` of the state in which -1 is returned.
pub data Ensures {S A : Type 0} (P : A → S → Type 0) (E : S → Type 0) : Run S A → Type 0 where
  returns : {a : A} {s : S} → P a s → Ensures P E (done a s)
  fails : {s : S} → E s → Ensures P E (failed s)

module _ {S A : Type 0} {P : A → S → Type 0} {E : S → Type 0} where
  pub bind :
      {B : Type 0} {Q : B → S → Type 0} {r : Run S A} {k : A → Cmd S B}
      → Ensures P E r
      → ((a : A) (s : S) → P a s → Ensures Q E (k a s))
      → Ensures Q E (and_then r k)
  bind (returns p) next = next _ _ p
  bind (fails e) next = fails e

  pub mono :
      {Q : A → S → Type 0} {D : S → Type 0} {r : Run S A}
      → Ensures P E r
      → ((a : A) (s : S) → P a s → Q a s)
      → ((s : S) → E s → D s)
      → Ensures Q D r
  mono (returns p) weaken weaken' = returns (weaken _ _ p)
  mono (fails e) weaken weaken' = fails (weaken' _ e)

  pub both :
      {Q : A → S → Type 0} {r : Run S A}
      → Ensures P E r
      → Ensures Q E r
      → Ensures (λ a s. P a s × Q a s) E r
  both (returns p) (returns q) = returns (p, q)
  both (fails e) (fails e') = fails e

module _ {S A : Type 0} {P : A → S → Type 0} {F : Type 0} where
  -- A call that returns -1 only under `F`.
  pub insist-Ensures : {r : Run S A} → Ensures P (λ _. F) r → ¬ F → Ensures P (λ _. F) (insist r)
  insist-Ensures (returns p) never = returns p
  insist-Ensures (fails e) never = absurd (never e)

  -- A call that returns -1 only under `F`, when this does not hold.
  pub always :
      {r : Run S A} → Ensures P (λ _. F) r → ¬ F → (a : A) × (s : S) × (r ≡ done a s) × P a s
  always (returns p) never = (_, _, refl, p)
  always (fails e) never = absurd (never e)

module _ {S : Type 0} {E : S → Type 0} where
  pub assert-Ensures :
      {P : Unit {0} → S → Type 0} (test : S → Bool) (s : S)
      → test s ≡ true
      → P tt s
      → Ensures P E (assert test s)
  assert-Ensures test s e p = rw (assert, e) (returns p)

  pub checked-Ensures :
      {P : Unit {0} → S → Type 0} (call : S → Bool × S) (s : S)
      → ((call s).0 ≡ true → P tt (call s).1)
      → ((call s).0 ≡ false → E (call s).1)
      → Ensures P E (checked call s)
  checked-Ensures call s well ill = elim (Bool-cases (call s).0) [
    | inl e ↦ rw (checked, e) (returns (well e))
    | inr e ↦ rw (checked, e) (fails (ill e))
  ]

  pub counted-Ensures :
      {P : ℕ → S → Type 0} (call : S → Option ℕ × S) (s : S)
      → ((n : ℕ) → (call s).0 ≡ some n → P n (call s).1)
      → ((call s).0 ≡ none → E (call s).1)
      → Ensures P E (counted call s)
  counted-Ensures call s well ill = elim (Option-cases (call s).0) [
    | inl e ↦ rw (counted, e) (fails (ill e))
    | inr (n, e) ↦ rw (counted, e) (returns (well n e))
  ]

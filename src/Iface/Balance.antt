-- ===== src/Iface/Balance.antt =====
-- internal/iface/iface.go: every descriptor that a call opens is closed again, unless the call
-- returns it.
use prp_sim.Base.{
  ℕ, ◌+◌, ◌≤◌, ◌≡◌, refl, ap, inl, inr, Option, none, some, List, [], ◌∷◌, ◌++◌, arith, ◌==◌,
  if◌then◌else◌, ==→eq, Bool-cases,
}
use prp_sim.Iface.{
  Process, remove_one, close, Call, return, continue, ◌>>=◌, undo, on_error, at_end, ignore,
}

-- How often a descriptor stands in a list.
unfoldable pub count : ℕ → List ℕ → ℕ
count fd [] = 0
count fd (x ∷ xs) = (if x == fd then 1 else 0) + count fd xs

pub count-append : (fd : ℕ) (xs ys : List ℕ) → count fd (xs ++ ys) ≡ count fd xs + count fd ys
unfolding count
count-append fd [] ys = omega arith
count-append fd (x ∷ xs) ys = omega (arith, count-append fd xs ys)

count_self : (fd : ℕ) → count fd (fd ∷ []) ≡ 1
unfolding count
count_self fd = ground arith

count-remove_one :
    (y fd : ℕ) (xs : List ℕ)
    → 1 ≤ count fd xs
    → count y (remove_one fd xs) + count y (fd ∷ []) ≡ count y xs
unfolding count remove_one
count-remove_one y fd [] h = omega arith
count-remove_one y fd (x ∷ xs) h = elim (Bool-cases (x == fd)) [
  | inl same ↦ ground (arith, ==→eq x fd same)
  | inr other ↦ let rest = count-remove_one y fd xs (ground arith) in rw other (omega (arith, rest))
]

-- The descriptors in the list are open.
abbrev pub Owns : List ℕ → Process → Type 0
Owns owned p = (fd : ℕ) → count fd owned ≤ count fd p.open_fds

-- What a result holds, nothing where it is an error.
abbrev pub held_by : {A : Type 0} → (A → List ℕ) → Option A → List ℕ
held_by held none = []
held_by held (some a) = held a

-- A call that is given some open descriptors: those, and what it opens, are closed when it ends, but
-- for those that its result holds.
pub data IsBalanced {A : Type 0} (owned : List ℕ) (held : A → List ℕ) (m : Call A) : Type 0 where
  balanced :
      ((p : Process)
        → Owns owned p
        → (fd : ℕ)
        → count fd (m p).1.open_fds + count fd owned
          ≡ count fd p.open_fds + count fd (held_by held (m p).0))
      → IsBalanced owned held m

-- A clean-up closes the given descriptors.
pub data IsFreeing (owned : List ℕ) (cleanup : Process → Process) : Type 0 where
  freeing :
      ((p : Process)
        → Owns owned p
        → (fd : ℕ) → count fd (cleanup p).open_fds + count fd owned ≡ count fd p.open_fds)
      → IsFreeing owned cleanup

pub close-IsFreeing : (fd : ℕ) → IsFreeing (fd ∷ []) (close fd)
unfolding close
close-IsFreeing fd =
    freeing (λ p owns y. count-remove_one y fd p.open_fds (omega (arith, owns fd, count_self fd)))

pub return-IsBalanced :
    {A : Type 0} (held : A → List ℕ) (a : A) → IsBalanced (held a) held (return a)
return-IsBalanced held a = balanced (λ p owns fd. refl)

pub >>=-IsBalanced :
    {A B : Type 0} {owned : List ℕ} {held : A → List ℕ} {kept : B → List ℕ} {m : Call A}
    {f : A → Call B}
    → IsBalanced owned held m
    → ((a : A) → IsBalanced (held a) kept (f a))
    → IsBalanced owned kept (m >>= f)
>>=-IsBalanced {A} {B} {owned} {held} {kept} {m} {f} (balanced h) k =
    balanced (λ p owns fd. go p owns (m p) (h p owns) fd)
  where
    go :
        (p : Process)
        → Owns owned p
        → (r : Option A × Process)
        → ((fd : ℕ)
            → count fd r.1.open_fds + count fd owned
              ≡ count fd p.open_fds + count fd (held_by held r.0))
        → (fd : ℕ)
        → count fd (continue f r).1.open_fds + count fd owned
          ≡ count fd p.open_fds + count fd (held_by kept (continue f r).0)
    go p owns (none, q) e fd = e fd
    go p owns (some a, q) e fd = elim (k a) [
      | balanced next ↦
          let rest = next q (λ x. omega (arith, e x, owns x)) fd in omega (arith, rest, e fd)
    ]

pub on_error-IsBalanced :
    {A : Type 0} {owned : List ℕ} {held : A → List ℕ} {cleanup : Process → Process} {m : Call A}
    → IsFreeing owned cleanup
    → IsBalanced [] held m
    → IsBalanced owned (λ a. owned ++ held a) (on_error cleanup m)
unfolding count
on_error-IsBalanced {A} {owned} {held} {cleanup} {m} (freeing c) (balanced h) =
    balanced (λ p owns fd. go p (m p) (h p (none_owned p)) owns fd)
  where
    none_owned : (p : Process) → Owns [] p
    none_owned p fd = omega arith

    go :
        (p : Process) (r : Option A × Process)
        → ((fd : ℕ)
            → count fd r.1.open_fds + count fd []
              ≡ count fd p.open_fds + count fd (held_by held r.0))
        → Owns owned p
        → (fd : ℕ)
        → count fd (undo cleanup r).1.open_fds + count fd owned
          ≡ count fd p.open_fds + count fd (held_by (λ a. owned ++ held a) (undo cleanup r).0)
    go p (none, q) e owns fd = omega (arith, c q (λ x. omega (arith, e x, owns x)) fd, e fd)
    go p (some a, q) e owns fd = omega (arith, e fd, count-append fd owned (held a))

pub at_end-IsBalanced :
    {A : Type 0} {owned : List ℕ} {cleanup : Process → Process} {m : Call A}
    → IsFreeing owned cleanup
    → IsBalanced [] (λ a. []) m
    → IsBalanced owned (λ a. []) (at_end cleanup m)
unfolding count
at_end-IsBalanced {A} {owned} {cleanup} {m} (freeing c) (balanced h) =
    balanced (λ p owns fd. go p (m p) (h p (λ x. omega arith)) owns fd)
  where
    go :
        (p : Process) (r : Option A × Process)
        → ((fd : ℕ)
            → count fd r.1.open_fds + 0 ≡ count fd p.open_fds + count fd (held_by (λ a. []) r.0))
        → Owns owned p
        → (fd : ℕ)
        → count fd (cleanup r.1).open_fds + count fd owned
          ≡ count fd p.open_fds + count fd (held_by (λ a. []) r.0)
    go p (none, q) e owns fd = omega (arith, c q (λ x. omega (arith, e x, owns x)) fd, e fd)
    go p (some a, q) e owns fd = omega (arith, c q (λ x. omega (arith, e x, owns x)) fd, e fd)

-- A call that opens and closes nothing.
pub still-IsBalanced :
    {A : Type 0} (m : Call A)
    → ((p : Process) → (m p).1.open_fds ≡ p.open_fds)
    → IsBalanced [] (λ a. []) m
unfolding count
still-IsBalanced {A} m h = balanced (λ p owns fd. go p (m p) (h p) fd)
  where
    go :
        (p : Process) (r : Option A × Process)
        → r.1.open_fds ≡ p.open_fds
        → (fd : ℕ)
        → count fd r.1.open_fds + 0 ≡ count fd p.open_fds + count fd (held_by (λ a. []) r.0)
    go p (none, q) e fd = omega (arith, ap (count fd) e)
    go p (some a, q) e fd = omega (arith, ap (count fd) e)

pub ignore-IsBalanced :
    {A : Type 0} (owned : List ℕ) (m : Call A)
    → IsBalanced [] (λ a. []) m
    → IsBalanced owned (λ done. owned) (ignore m)
unfolding count
ignore-IsBalanced {A} owned m (balanced h) =
    balanced (λ p owns fd. go p fd (m p) (h p (λ x. omega arith) fd))
  where
    go :
        (p : Process) (fd : ℕ) (r : Option A × Process)
        → count fd r.1.open_fds + 0 ≡ count fd p.open_fds + count fd (held_by (λ a. []) r.0)
        → count fd r.1.open_fds + count fd owned ≡ count fd p.open_fds + count fd owned
    go p fd (none, q) e = omega arith
    go p fd (some a, q) e = omega arith

-- ===== src/SenderCacher/Shares.antt =====
-- core/tx_cacher.go: the tasks share the transactions out, each to one of them.
use mathlib.Core.List.{Perm, Permᴰ, perm_append_comm, Perm-prop}
use mathlib.Core.Logic.{∥∥₁_elim}
use mathlib.Core.Path.{ap₂}
use plasma.Bytes.{Address}
use plasma.Prelude.{
  All, fun_ext, ◌≢◌, ==_ne, ℕ, zero, suc, ◌+◌, ◌≤◌, ◌<◌, ◌≡◌, refl, sym, ap, ◌∙◌, subst, none, some,
  List, [], ◌∷◌, ◌++◌, append_assoc, append-nil, arith, length, get_elem?, drop,
}
use plasma.Prelude.Outcome.{Outcome, ok, err, panic}
use plasma.SenderCacher.{
  Request, cache_loop, served, call_sender, call_each, cache, requests, task_count, recover,
}
use plasma.Types.Transaction.{Transaction}
use mathlib.Core.List.Perm

-- every `suc t`-th transaction, after the first `i`
pick : ℕ → ℕ → List Transaction → List Transaction
pick t i [] = []
pick t zero (x ∷ xs) = x ∷ pick t t xs
pick t (suc i) (x ∷ xs) = pick t i xs

suc_plus : (i inc : ℕ) → suc i + inc ≡ suc (i + inc)
suc_plus i inc = omega arith

zero_plus : (t : ℕ) → 0 + suc t ≡ suc t
zero_plus t = omega arith

cache_loop-suc :
    (fuel inc i : ℕ) (x : Transaction) (xs : List Transaction)
    → cache_loop fuel inc (suc i) (x ∷ xs) ≡ cache_loop fuel inc i xs
unfolding cache_loop
cache_loop-suc zero inc i x xs = refl
cache_loop-suc (suc fuel) inc i x xs =
    ap (λ rest. elim (get_elem? xs i) [ none ↦ [] | some tx ↦ tx ∷ rest ])
      (ap (λ k. cache_loop fuel inc k (x ∷ xs)) (suc_plus i inc)
        ∙ cache_loop-suc fuel inc (i + inc) x xs)

cache_loop-first :
    (fuel t : ℕ) (x : Transaction) (xs : List Transaction)
    → cache_loop (suc fuel) (suc t) 0 (x ∷ xs) ≡ x ∷ cache_loop fuel (suc t) t xs
unfolding cache_loop
cache_loop-first fuel t x xs = ap (◌∷◌ x) (
    ap (λ k. cache_loop fuel (suc t) k (x ∷ xs)) (zero_plus t) ∙ cache_loop-suc fuel (suc t) t x xs)

cache_loop-nil : (fuel inc i : ℕ) → cache_loop fuel inc i [] ≡ []
unfolding cache_loop
cache_loop-nil zero inc i = refl
cache_loop-nil (suc fuel) inc i = refl

cache_loop-eq-pick :
    (fuel t i : ℕ) (xs : List Transaction)
    → length xs ≤ fuel
    → cache_loop fuel (suc t) i xs ≡ pick t i xs
unfolding pick
cache_loop-eq-pick fuel t i [] h = cache_loop-nil fuel (suc t) i
cache_loop-eq-pick zero t zero (x ∷ xs) h = absurd (omega arith)
cache_loop-eq-pick (suc fuel) t zero (x ∷ xs) h =
    cache_loop-first fuel t x xs ∙ ap (◌∷◌ x) (cache_loop-eq-pick fuel t t xs (omega arith))
cache_loop-eq-pick fuel t (suc i) (x ∷ xs) h =
    cache_loop-suc fuel (suc t) i x xs ∙ cache_loop-eq-pick fuel t i xs (omega arith)

pick-drop : (t i : ℕ) (xs : List Transaction) → pick t 0 (drop i xs) ≡ pick t i xs
unfolding pick
pick-drop t zero xs = refl
pick-drop t (suc i) [] = refl
pick-drop t (suc i) (x ∷ xs) = pick-drop t i xs

picks : ℕ → ℕ → ℕ → List Transaction → List Transaction
picks t i zero xs = []
picks t i (suc n) xs = pick t i xs ++ picks t (suc i) n xs

picks-nil : (t i n : ℕ) → picks t i n [] ≡ []
unfolding picks pick
picks-nil t i zero = refl
picks-nil t i (suc n) = picks-nil t (suc i) n

picks-suc :
    (t i n : ℕ) (x : Transaction) (xs : List Transaction)
    → picks t (suc i) n (x ∷ xs) ≡ picks t i n xs
unfolding picks pick
picks-suc t i zero x xs = refl
picks-suc t i (suc n) x xs = ap (◌++◌ (pick t i xs)) (picks-suc t (suc i) n x xs)

picks-last :
    (t i n : ℕ) (xs : List Transaction) → picks t i (suc n) xs ≡ picks t i n xs ++ pick t (i + n) xs
unfolding picks
picks-last t i zero xs = append-nil _ ∙ ap (λ k. pick t k xs) (omega arith)
picks-last t i (suc n) xs =
    ap (◌++◌ (pick t i xs))
      (picks-last t (suc i) n xs ∙ ap (λ k. picks t (suc i) n xs ++ pick t k xs) (omega arith))
    ∙ sym (append_assoc (pick t i xs) (picks t (suc i) n xs) (pick t (i + suc n) xs))

-- Each transaction is picked once.
picks-perm : (t : ℕ) (xs : List Transaction) → Perm (picks t 0 (suc t) xs) xs
picks-perm t [] = subst (λ l. Perm l []) (sym (picks-nil t 0 (suc t))) (Perm.refl [])
picks-perm t (x ∷ xs) =
    let stripes : picks t 0 (suc t) (x ∷ xs) ≡ x ∷ (pick t t xs ++ picks t 0 t xs) =
      unfold picks pick in ap (λ l. x ∷ (pick t t xs ++ l)) (picks-suc t 0 t x xs) in
    let last : picks t 0 t xs ++ pick t t xs ≡ picks t 0 (suc t) xs =
      sym (picks-last t 0 t xs ∙ ap (λ k. picks t 0 t xs ++ pick t k xs) (omega arith)) in
    subst (λ l. Perm l (x ∷ xs)) (sym stripes)
      (Perm.cons x (
        Perm.trans (perm_append_comm (pick t t xs) (picks t 0 t xs))
          (subst (λ l. Perm l xs) (sym last) (picks-perm t xs))))

-- what the workers call `types.Sender` on, the tasks one after the other
abbrev pub all_served : List Request → List Transaction
all_served [] = []
all_served (task ∷ tasks) = served task ++ all_served tasks

served-eq-pick :
    (t i : ℕ) (txs : List Transaction)
    → served (record { txs = drop i txs; inc = suc t }) ≡ pick t i txs
unfolding served
served-eq-pick t i txs =
    cache_loop-eq-pick (length (drop i txs)) t 0 (drop i txs) (omega arith) ∙ pick-drop t i txs

all_served-requests :
    (t i left : ℕ) (txs : List Transaction)
    → all_served (requests (suc t) i left txs) ≡ picks t i left txs
unfolding requests picks
all_served-requests t i zero txs = refl
all_served-requests t i (suc left) txs =
    rw (served-eq-pick t i txs) (ap (◌++◌ (pick t i txs)) (all_served-requests t (suc i) left txs))

swap_middle : (xs ys zs : List Transaction) → Perm (xs ++ (ys ++ zs)) (ys ++ (xs ++ zs))
swap_middle xs ys zs =
    subst (λ l. Perm l (ys ++ (xs ++ zs))) (append_assoc xs ys zs)
      (subst (λ l. Perm ((xs ++ ys) ++ zs) l) (append_assoc ys xs zs)
        (Perm.append_right zs (perm_append_comm xs ys)))

all_served-permᴰ :
    {order tasks : List Request} → Permᴰ order tasks → Perm (all_served order) (all_served tasks)
all_served-permᴰ Permᴰ.nil = Perm.refl []
all_served-permᴰ (Permᴰ.cons {a} {b} {l₁} {l₂} e p) =
    rw e (Perm.append_left (served b) (all_served-permᴰ p))
all_served-permᴰ (Permᴰ.swap {a} {b} {a'} {b'} {l} e f) =
    rw (e, f) (swap_middle (served b') (served a') (all_served l))
all_served-permᴰ (Permᴰ.trans p q) = Perm.trans (all_served-permᴰ p) (all_served-permᴰ q)

task_count-pos :
    (threads : ℕ) (txs : List Transaction)
    → 0 < threads
    → 0 < length txs
    → 0 < task_count threads txs
unfolding task_count
task_count-pos threads txs h k = ground arith

all_served-tasks :
    (n : ℕ) (txs : List Transaction) → 0 < n → Perm (all_served (requests n 0 n txs)) txs
all_served-tasks zero txs h = absurd (omega arith)
all_served-tasks (suc t) txs h =
    subst (λ l. Perm l txs) (sym (all_served-requests t 0 (suc t) txs)) (picks-perm t txs)

all_served-recover :
    (threads : ℕ) (txs : List Transaction)
    → 0 < threads
    → Perm (all_served (recover threads txs)) txs
unfolding recover
all_served-recover threads [] h = Perm.refl []
all_served-recover threads (tx ∷ txs) h = rw (==_ne (length (tx ∷ txs)) 0 (omega arith)) (
    all_served-tasks (task_count threads (tx ∷ txs)) (tx ∷ txs)
      (task_count-pos threads (tx ∷ txs) h (omega arith)))

All-Permᴰ :
    (P : Transaction → Type 0) {xs ys : List Transaction} → Permᴰ xs ys → All P ys → All P xs
All-Permᴰ P Permᴰ.nil h = h
All-Permᴰ P (Permᴰ.cons {a} {b} {l₁} {l₂} e p) h = (subst P (sym e) h.0, All-Permᴰ P p h.1)
All-Permᴰ P (Permᴰ.swap {a} {b} {a'} {b'} {l} e f) h =
    (subst P (sym e) h.1.0, (subst P (sym f) h.0, h.1.1))
All-Permᴰ P (Permᴰ.trans p q) h = All-Permᴰ P p (All-Permᴰ P q h)

All-IsProp :
    (P : Transaction → Type 0)
    → ((tx : Transaction) → IsProp (P tx))
    → (txs : List Transaction) → IsProp (All P txs)
All-IsProp P one [] = λ h k. refl
All-IsProp P one (tx ∷ txs) =
    λ h k. ap₂ (λ a b. (a, b)) (one tx h.0 k.0) (All-IsProp P one txs h.1 k.1)

All-halves :
    (P : Transaction → Type 0) (xs ys : List Transaction) → All P (xs ++ ys) → All P xs × All P ys
All-halves P [] ys h = (tt, h)
All-halves P (x ∷ xs) ys h = let rest = All-halves P xs ys h.1 in ((h.0, rest.0), rest.1)

module _ (sender_of : Transaction → Outcome (Address × Address)) where
  abbrev pub NoPanic : Transaction → Type 0
  NoPanic tx = sender_of tx ≢ panic

  call_sender-ok :
      (tx : Transaction) (o : Outcome (Address × Address))
      → o ≢ panic
      → call_sender sender_of tx o ≡ ok (tx ∷ [])
  unfolding call_sender
  call_sender-ok tx (ok senders) returns = refl
  call_sender-ok tx (err e) returns = refl
  call_sender-ok tx panic returns = absurd (returns refl)

  call_each-ok : (txs : List Transaction) → All NoPanic txs → call_each sender_of txs ≡ ok txs
  unfolding call_each
  call_each-ok [] returns = refl
  call_each-ok (tx ∷ txs) (returns, more) =
      rw (call_sender-ok tx (sender_of tx) returns, call_each-ok txs more) refl

  cache-ok :
      (order : List Request)
      → All NoPanic (all_served order)
      → cache sender_of order ≡ ok (all_served order)
  unfolding cache
  cache-ok [] returns = refl
  cache-ok (task ∷ tasks) returns =
      let halves = All-halves NoPanic (served task) (all_served tasks) returns in
      rw (call_each-ok (served task) halves.0, cache-ok tasks halves.1) refl

  -- Where Sender does not panic on any of the transactions and there is at least one worker thread,
  -- in whatever order the tasks of recover are taken, the workers return, having called Sender on
  -- each of the transactions exactly once.
  pub recover-serves_each :
      (threads : ℕ) (txs : List Transaction) (order : List Request)
      → 0 < threads
      → All NoPanic txs
      → Perm order (recover threads txs)
      → (called : List Transaction) × (cache sender_of order ≡ ok called) × Perm called txs
  recover-serves_each threads txs order h returns taken =
      let shared : Perm (all_served order) txs =
        Perm.trans (∥∥₁_elim taken Perm-prop all_served-permᴰ) (all_served-recover threads txs h) in
      (
        all_served order,
        cache-ok order (
            ∥∥₁_elim shared
              (All-IsProp NoPanic (λ tx p q. fun_ext (λ e. absurd (p e))) (all_served order))
              (λ perm. All-Permᴰ NoPanic perm returns)),
        shared,
      )

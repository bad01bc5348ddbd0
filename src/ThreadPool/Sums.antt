-- ===== src/ThreadPool/Sums.antt =====
-- Weights of the jobs and threads of a pool, summed up.
use udpboardcast.Base.{ℕ, zero, suc, ◌+◌, ◌≡◌, refl, List, [], ◌∷◌, ◌++◌, length, arith}
use udpboardcast.ThreadPool.Threads.{
  Job, At, checks, posts, pops, waits, works, reports, ended, created, wake, cond_broadcast,
}

unfoldable pub sum {ℓ} : {A : Type ℓ} → (A → ℕ) → List A → ℕ
sum f [] = 0
sum f (x ∷ xs) = f x + sum f xs

-- The weight of the job that a thread is about to run.
unfoldable pub working : (Job → ℕ) → At → ℕ
working w checks = 0
working w posts = 0
working w pops = 0
working w waits = 0
working w (works j) = w j
working w (reports j) = 0
working w ended = 0

-- The weight of the job that a thread has taken and not reported.
unfoldable pub holding : (Job → ℕ) → At → ℕ
holding w checks = 0
holding w posts = 0
holding w pops = 0
holding w waits = 0
holding w (works j) = w j
holding w (reports j) = w j
holding w ended = 0

-- 1 for a thread that owes the semaphore a post.
unfoldable pub owing : At → ℕ
owing checks = 0
owing posts = 1
owing pops = 0
owing waits = 0
owing (works j) = 0
owing (reports j) = 0
owing ended = 0

pub sum-append {ℓ} :
    {A : Type ℓ} (f : A → ℕ) (xs ys : List A) → sum f (xs ++ ys) ≡ sum f xs + sum f ys
unfolding sum
sum-append f [] ys = omega arith
sum-append f (x ∷ xs) ys = omega (arith, sum-append f xs ys)

-- One of them is another one.
pub sum-swap {ℓ} :
    {A : Type ℓ} (f : A → ℕ) (xs ys : List A) (a b : A)
    → sum f (xs ++ b ∷ ys) + f a ≡ sum f (xs ++ a ∷ ys) + f b
unfolding sum
sum-swap f xs ys a b = omega (arith, sum-append f xs (a ∷ ys), sum-append f xs (b ∷ ys))

pub length-swap {ℓ} :
    {A : Type ℓ} (xs ys : List A) (a b : A) → length (xs ++ b ∷ ys) ≡ length (xs ++ a ∷ ys)
length-swap [] ys a b = refl
length-swap (x ∷ xs) ys a b = omega (arith, length-swap xs ys a b)

-- A broadcast changes no weight that is the same before and behind the wait.
pub sum-cond_broadcast :
    (f : At → ℕ) (ts : List At) → f checks ≡ f waits → sum f (cond_broadcast ts) ≡ sum f ts
unfolding sum cond_broadcast wake
sum-cond_broadcast f [] same = refl
sum-cond_broadcast f (checks ∷ ts) same = omega (arith, sum-cond_broadcast f ts same)
sum-cond_broadcast f (posts ∷ ts) same = omega (arith, sum-cond_broadcast f ts same)
sum-cond_broadcast f (pops ∷ ts) same = omega (arith, sum-cond_broadcast f ts same)
sum-cond_broadcast f (waits ∷ ts) same = omega (arith, same, sum-cond_broadcast f ts same)
sum-cond_broadcast f (works j ∷ ts) same = omega (arith, sum-cond_broadcast f ts same)
sum-cond_broadcast f (reports j ∷ ts) same = omega (arith, sum-cond_broadcast f ts same)
sum-cond_broadcast f (ended ∷ ts) same = omega (arith, sum-cond_broadcast f ts same)

pub length-cond_broadcast : (ts : List At) → length (cond_broadcast ts) ≡ length ts
unfolding cond_broadcast
length-cond_broadcast [] = refl
length-cond_broadcast (t ∷ ts) = omega (arith, length-cond_broadcast ts)

pub length-created : (n : ℕ) → length (created n) ≡ n
unfolding created
length-created zero = refl
length-created (suc n) = omega (arith, length-created n)

-- New threads weigh nothing if the start of the loop weighs nothing.
pub sum-created : (f : At → ℕ) (n : ℕ) → f checks ≡ 0 → sum f (created n) ≡ 0
unfolding sum created
sum-created f zero h = refl
sum-created f (suc n) h = omega (arith, h, sum-created f n h)

-- ===== src/KillSwitch/Window.antt =====
-- The bounded window of the auto-panic detector against an unbounded one.
use native.Mathlib.Decide.{dec_le}
use cognexus_tools.Common.{
  ℕ, zero, suc, ◌-◌, ◌≤◌, ◌≡◌, refl, ap, Bool, true, List, [], ◌∷◌, ◌++◌, arith, leb, length, drop,
  push, count, All, length-append, length-drop,
}

-- The last `n` items.
abbrev pub last_of {ℓ} : {A : Type ℓ} → ℕ → List A → List A
last_of n xs = drop (length xs - n) xs

-- Once the test holds it holds for all that follows.
abbrev pub Rising : (ℕ → Bool) → List ℕ → Type 0
Rising p [] = Unit
Rising p (x ∷ xs) = (p x ≡ true → All (λ y. p y ≡ true) xs) × Rising p xs

count-All : (p : ℕ → Bool) (xs : List ℕ) → All (λ y. p y ≡ true) xs → count p xs ≡ length xs
count-All p [] h = refl
count-All p (x ∷ xs) h = rw (h.0) (ap suc (count-All p xs h.1))

All-drop :
    (p : ℕ → Bool) (k : ℕ) (xs : List ℕ)
    → All (λ y. p y ≡ true) xs
    → All (λ y. p y ≡ true) (drop k xs)
All-drop p zero xs h = h
All-drop p (suc k) [] h = h
All-drop p (suc k) (x ∷ xs) h = All-drop p k xs h.1

-- To leave out old times changes nothing as long as enough are left.
pub count-drop-ge :
    (p : ℕ → Bool) (n k : ℕ) (xs : List ℕ)
    → Rising p xs
    → n ≤ length (drop k xs)
    → n ≤ count p xs
    → n ≤ count p (drop k xs)
count-drop-ge p n zero xs r h c = c
count-drop-ge p n (suc k) [] r h c = c
count-drop-ge p n (suc k) (x ∷ xs) (here, later) h c = ground (
  arith,
  count-drop-ge p n k xs later,
  λ (e : p x ≡ true). count-All p (drop k xs) (All-drop p k xs (here e)),
)

pub count-drop-le : (p : ℕ → Bool) (k : ℕ) (xs : List ℕ) → count p (drop k xs) ≤ count p xs
count-drop-le p zero xs = omega arith
count-drop-le p (suc k) [] = omega arith
count-drop-le p (suc k) (x ∷ xs) = ground (arith, count-drop-le p k xs)

drop-append_le :
    (k : ℕ) (x : ℕ) (xs : List ℕ) → k ≤ length xs → drop k (xs ++ x ∷ []) ≡ drop k xs ++ x ∷ []
drop-append_le zero x xs h = refl
drop-append_le (suc k) x [] h = absurd (omega arith)
drop-append_le (suc k) x (y ∷ xs) h = drop-append_le k x xs (omega arith)

drop-one-drop : (k : ℕ) (xs : List ℕ) → drop 1 (drop k xs) ≡ drop (suc k) xs
drop-one-drop zero xs = refl
drop-one-drop (suc k) [] = refl
drop-one-drop (suc k) (x ∷ xs) = drop-one-drop k xs

empty_diff : (n cap : ℕ) → n ≤ cap → n - cap ≡ 0
empty_diff n cap h = omega arith

next_diff :
    (cap x : ℕ) (xs : List ℕ)
    → cap ≤ length xs
    → length (xs ++ x ∷ []) - cap ≡ suc (length xs - cap)
next_diff cap x xs h = omega (arith, length-append xs (x ∷ []))

-- The deque holds the last `cap` times of the history.
pub push-last_of :
    (cap x : ℕ) (xs : List ℕ) → 1 ≤ cap → push cap x (last_of cap xs) ≡ last_of cap (xs ++ x ∷ [])
push-last_of cap x xs h = elim (dec_le (suc (length xs)) cap) [
  | yes fits ↦ ground (
    arith,
    length-append xs (x ∷ []),
    ap (λ (k : ℕ). drop k xs) (empty_diff (length xs) cap (omega arith)),
    ap (λ (k : ℕ). drop k (xs ++ x ∷ []))
        (empty_diff (length (xs ++ x ∷ [])) cap (omega (arith, length-append xs (x ∷ [])))),
  )
  | no full ↦
      let k = length xs - cap in
      ground (
        arith,
        length-append xs (x ∷ []),
        length-append (drop k xs) (x ∷ []),
        length-drop k xs,
        drop-append_le k x xs,
        drop-one-drop k (xs ++ x ∷ []),
        ap (λ (n : ℕ). drop n (xs ++ x ∷ [])) (next_diff cap x xs (omega arith)),
      )
]

-- The times in order, none after `now`.
abbrev pub Ascends : ℕ → List ℕ → Type 0
Ascends now [] = Unit
Ascends now (x ∷ xs) = (x ≤ now) × All (λ y. x ≤ y) xs × Ascends now xs

within :
    (w now x : ℕ) (xs : List ℕ)
    → leb (now - x) w ≡ true
    → All (λ y. x ≤ y) xs
    → All (λ y. leb (now - y) w ≡ true) xs
within w now x [] e h = tt
within w now x (y ∷ ys) e h = (ground arith, within w now x ys e h.1)

pub Ascends-Rising : (w now : ℕ) (xs : List ℕ) → Ascends now xs → Rising (λ x. leb (now - x) w) xs
Ascends-Rising w now [] h = tt
Ascends-Rising w now (x ∷ xs) (_, le, rest) =
    (λ e. within w now x xs e le, Ascends-Rising w now xs rest)

All-append_now :
    (now x : ℕ) (xs : List ℕ) → x ≤ now → All (λ y. x ≤ y) xs → All (λ y. x ≤ y) (xs ++ now ∷ [])
All-append_now now x [] h k = (h, tt)
All-append_now now x (y ∷ ys) h k = (k.0, All-append_now now x ys h k.1)

pub Ascends-append_now : (now : ℕ) (xs : List ℕ) → Ascends now xs → Ascends now (xs ++ now ∷ [])
Ascends-append_now now [] h = (omega arith, tt, tt)
Ascends-append_now now (x ∷ xs) (le, ge, rest) =
    (le, All-append_now now x xs le ge, Ascends-append_now now xs rest)

-- ===== src/Core/ListNodeAllocator/Chains.antt =====
-- Chains of nodes.
use ustevent.Prelude.{
  ℕ, zero, suc, ◌+◌, ◌<◌, ◌≤◌, ◌≡◌, ◌∙◌, ◌⊎◌, inl, inr, refl, Bool, true, false, ◌||◌, Option, none,
  some, update, List, [], ◌∷◌, ◌++◌, arith, All, ◌==◌, Bool-cases,
}
use ustevent.Core.ListNodeAllocator.{link_nodes}

abbrev pub has : ℕ → List ℕ → Bool
has a [] = false
has a (p ∷ ps) = (a == p) || has a ps

abbrev pub Distinct : List ℕ → Type 0
Distinct [] = Unit
Distinct (p ∷ ps) = (has p ps ≡ false) × Distinct ps

-- The `next` pointers lead through the nodes, and the last one's is null.
abbrev pub Linked : (ℕ → Option ℕ) → List ℕ → Type 0
Linked m [] = Unit
Linked m (p ∷ []) = m p ≡ none
Linked m (p ∷ q ∷ ps) = (m p ≡ some q) × Linked m (q ∷ ps)

abbrev pub last : ℕ → List ℕ → ℕ
last p [] = p
last p (q ∷ ps) = last q ps

abbrev pub Below : ℕ → List ℕ → Type 0
Below n = All (λ p. p < n)

pub has-append : (a : ℕ) (xs ys : List ℕ) → has a (xs ++ ys) ≡ (has a xs || has a ys)
has-append a [] ys = refl
has-append a (x ∷ xs) ys = ground (arith, has-append a xs ys)

pub has-last : (p : ℕ) (ps : List ℕ) → has (last p ps) (p ∷ ps) ≡ true
has-last p [] = ground arith
has-last p (q ∷ ps) = ground (arith, has-last q ps)

pub has-Below : (n a : ℕ) (ps : List ℕ) → Below n ps → n ≤ a → has a ps ≡ false
has-Below n a [] b h = refl
has-Below n a (p ∷ ps) b h = ground (arith, has-Below n a ps b.1 h)

pub Below-has : (n a : ℕ) (ps : List ℕ) → Below n ps → has a ps ≡ true → a < n
Below-has n a [] b h = absurd (ground arith)
Below-has n a (p ∷ ps) b h = ground (arith, Below-has n a ps b.1)

pub last-append : (p n : ℕ) (ps : List ℕ) → last p (ps ++ n ∷ []) ≡ n
last-append p n [] = refl
last-append p n (q ∷ ps) = last-append q n ps

-- A write outside a chain leaves it.
pub Linked-update :
    (m : ℕ → Option ℕ) (a : ℕ) (v : Option ℕ) (ps : List ℕ)
    → has a ps ≡ false
    → Linked m ps
    → Linked (update m a v) ps
Linked-update m a v [] h l = tt
Linked-update m a v (p ∷ []) h l = ground arith
Linked-update m a v (p ∷ q ∷ ps) h l =
    (ground arith, Linked-update m a v (q ∷ ps) (ground arith) l.1)

-- It leaves each node of the chain.
pub update-outside :
    (m : ℕ → Option ℕ) (a : ℕ) (v : Option ℕ) (ps : List ℕ) (b : ℕ)
    → has a ps ≡ false
    → has b ps ≡ true
    → update m a v b ≡ m b
update-outside m a v [] b h k = absurd (ground arith)
update-outside m a v (p ∷ ps) b h k = ground (arith, update-outside m a v ps b)

-- A chain stays one where its nodes keep their pointers.
pub Linked-same :
    (m m' : ℕ → Option ℕ) (ps : List ℕ)
    → ((a : ℕ) → has a ps ≡ true → m' a ≡ m a)
    → Linked m ps
    → Linked m' ps
Linked-same m m' [] same l = tt
Linked-same m m' (p ∷ []) same l = same p (ground arith) ∙ l
Linked-same m m' (p ∷ q ∷ ps) same l =
    (same p (ground arith) ∙ l.0, Linked-same m m' (q ∷ ps) (λ a i. same a (ground arith)) l.1)

-- The last node of a chain is made to point at a new one.
pub Linked-append :
    (m : ℕ → Option ℕ) (n p : ℕ) (ps : List ℕ)
    → has n (p ∷ ps) ≡ false
    → Distinct (p ∷ ps)
    → m n ≡ none
    → Linked m (p ∷ ps)
    → Linked (update m (last p ps) (some n)) (p ∷ ps ++ n ∷ [])
Linked-append m n p [] h d e l = (ground arith, ground arith)
Linked-append m n p (q ∷ ps) h d e l =
    (ground (arith, has-last q ps), Linked-append m n q ps (ground arith) d.1 e l.1)

pub Linked-frame :
    (m m' : ℕ → Option ℕ) (n : ℕ) (ps : List ℕ)
    → Below n ps
    → ((a : ℕ) → a < n → m' a ≡ m a)
    → Linked m ps
    → Linked m' ps
Linked-frame m m' n [] b same l = tt
Linked-frame m m' n (p ∷ []) b same l = same p b.0 ∙ l
Linked-frame m m' n (p ∷ q ∷ ps) b same l =
    (same p b.0 ∙ l.0, Linked-frame m m' n (q ∷ ps) b.1 same l.1)

-- Distinct lists, joined and taken apart.
pub Distinct-append :
    (xs ys : List ℕ)
    → Distinct xs
    → Distinct ys
    → ((a : ℕ) → has a xs ≡ true → has a ys ≡ false)
    → Distinct (xs ++ ys)
Distinct-append [] ys d e h = e
Distinct-append (x ∷ xs) ys d e h = (
  ground (arith, has-append x xs ys, h x),
  Distinct-append xs ys d.1 e (λ a i. h a (ground arith)),
)

pub Distinct-left : (xs ys : List ℕ) → Distinct (xs ++ ys) → Distinct xs
Distinct-left [] ys d = tt
Distinct-left (x ∷ xs) ys d = (ground (arith, has-append x xs ys), Distinct-left xs ys d.1)

pub Distinct-right : (xs ys : List ℕ) → Distinct (xs ++ ys) → Distinct ys
Distinct-right [] ys d = d
Distinct-right (x ∷ xs) ys d = Distinct-right xs ys d.1

pub Distinct-apart :
    (xs ys : List ℕ) (a : ℕ) → Distinct (xs ++ ys) → has a xs ≡ true → has a ys ≡ false
Distinct-apart [] ys a d h = absurd (ground arith)
Distinct-apart (x ∷ xs) ys a d h = ground (arith, has-append x xs ys, Distinct-apart xs ys a d.1)

pub Distinct-apart' :
    (xs ys : List ℕ) (a : ℕ) → Distinct (xs ++ ys) → has a ys ≡ true → has a xs ≡ false
Distinct-apart' [] ys a d h = refl
Distinct-apart' (x ∷ xs) ys a d h = ground (arith, has-append x xs ys, Distinct-apart' xs ys a d.1)

-- A node is taken out of the middle.
pub Distinct-extract : (n : ℕ) (xs ys : List ℕ) → Distinct (xs ++ n ∷ ys) → Distinct (n ∷ xs ++ ys)
Distinct-extract n [] ys d = d
Distinct-extract n (x ∷ xs) ys d =
    let (out, rest) = Distinct-extract n xs ys d.1 in
    (
      ground (arith, has-append x xs (n ∷ ys)),
      (ground (arith, has-append x xs (n ∷ ys), has-append x xs ys), rest),
    )

pub Distinct-rotate : (n : ℕ) (xs : List ℕ) → Distinct (n ∷ xs) → Distinct (xs ++ n ∷ [])
Distinct-rotate n xs d =
    Distinct-append xs (n ∷ []) d.1 (refl, tt)
      (λ a i. elim (Bool-cases (a == n)) [ inl e ↦ absurd (ground arith) | inr e ↦ ground arith ])

pub Below-append : (n : ℕ) (xs ys : List ℕ) → Below n xs → Below n ys → Below n (xs ++ ys)
Below-append n [] ys b c = c
Below-append n (x ∷ xs) ys b c = (b.0, Below-append n xs ys b.1 c)

pub Below-left : (n : ℕ) (xs ys : List ℕ) → Below n (xs ++ ys) → Below n xs
Below-left n [] ys b = tt
Below-left n (x ∷ xs) ys b = (b.0, Below-left n xs ys b.1)

pub Below-right : (n : ℕ) (xs ys : List ℕ) → Below n (xs ++ ys) → Below n ys
Below-right n [] ys b = b
Below-right n (x ∷ xs) ys b = Below-right n xs ys b.1

pub Below-le : (n k : ℕ) (xs : List ℕ) → n ≤ k → Below n xs → Below k xs
Below-le n k [] h b = tt
Below-le n k (x ∷ xs) h b = (omega (arith, b.0), Below-le n k xs h b.1)

-- The nodes `first + k` down to `first + 1`.
abbrev pub down : ℕ → ℕ → List ℕ
down first zero = []
down first (suc k) = (first + suc k) ∷ down first k

pub has-down : (first k a : ℕ) → (a ≤ first) ⊎ (first + k < a) → has a (down first k) ≡ false
has-down first zero a h = refl
has-down first (suc k) a h = ground (arith, has-down first k a)

pub Distinct-down : (first k : ℕ) → Distinct (down first k)
Distinct-down first zero = tt
Distinct-down first (suc k) =
    (has-down first k (first + suc k) (inr (omega arith)), Distinct-down first k)

pub Below-extract : (b n : ℕ) (xs ys : List ℕ) → Below b (xs ++ n ∷ ys) → Below b (n ∷ xs ++ ys)
Below-extract b n [] ys h = h
Below-extract b n (x ∷ xs) ys h =
    let (low, rest) = Below-extract b n xs ys h.1 in (low, (h.0, rest))

pub Below-down : (first k n : ℕ) → first + k < n → Below n (down first k)
Below-down first zero n h = tt
Below-down first (suc k) n h = (h, Below-down first k n (omega arith))

pub last-down : (p first k : ℕ) → last p (down first (suc k)) ≡ first + 1
last-down p first zero = refl
last-down p first (suc k) = last-down (first + suc (suc k)) first k

-- The loop of `alloc` links the nodes in this order, and writes no other node.
pub link_nodes-Linked :
    (first k : ℕ) (m : ℕ → Option ℕ)
    → m (first + 1) ≡ none
    → Linked (link_nodes first (suc k) m) (down first (suc k))
link_nodes-Linked first zero m h = h
link_nodes-Linked first (suc k) m h = (
  ground arith,
  Linked-update (link_nodes first (suc k) m) (first + suc (suc k)) (some (first + suc k))
      (down first (suc k)) (has-down first (suc k) (first + suc (suc k)) (inr (omega arith)))
      (link_nodes-Linked first k m h),
)

pub link_nodes-outside :
    (first k a : ℕ) (m : ℕ → Option ℕ) → a ≤ first → link_nodes first k m a ≡ m a
link_nodes-outside first zero a m h = refl
link_nodes-outside first (suc zero) a m h = refl
link_nodes-outside first (suc (suc k)) a m h =
    ground (arith, link_nodes-outside first (suc k) a m h)

-- ===== src/Core/CallStack/Entered.antt =====
-- What contain of a CallStack finds.
use ustevent.Prelude.{
  ℕ, zero, suc, ◌<◌, ◌≡◌, ◌∙◌, refl, ap, arith, false, Option, none, some, List, [], ◌∷◌, map,
  length, done, ◌==◌, update, if◌then◌else◌,
}
use ustevent.Core.ListNodeAllocator.Chains.{has, Distinct}
use ustevent.Core.CallStack.Defs.{
  Entry, CallStack, FiberCallStack, empty, enter_object, contain_from, contain, enter_fiber,
  contain_in_fiber, element_of,
}

-- An object that entered: its address, its key and its value.
pub record Entered : Type 0 where
  pub address : ℕ
  pub key : ℕ
  pub value : ℕ

-- The stack with these objects, the last one that entered first.
abbrev pub entered : List Entered → CallStack
entered [] = empty
entered (x ∷ xs) = enter_object (entered xs) x.address x.key x.value

abbrev pub entered_fiber : List Entered → FiberCallStack
entered_fiber [] = record { objects = λ _. none; top = none }
entered_fiber (x ∷ xs) = enter_fiber (entered_fiber xs) x.address x.key x.value

-- The value of the last object with the key.
abbrev pub find : ℕ → List Entered → Option ℕ
find key [] = none
find key (x ∷ xs) = if x.key == key then some x.value else find key xs

abbrev addresses : List Entered → List ℕ
addresses = map (λ x. x.address)

abbrev pub Apart : List Entered → Type 0
Apart xs = Distinct (map (λ x. x.address) xs)

abbrev top_of : List Entered → Option ℕ
top_of [] = none
top_of (x ∷ xs) = some x.address

-- The objects from an element on.
abbrev Links : (ℕ → Option Entry) → List Entered → Type 0
Links objects [] = Unit
Links objects (x ∷ xs) =
    (objects x.address ≡ some (record { next = top_of xs; key = x.key; value = x.value }))
    × Links objects xs

Links-update :
    (objects : ℕ → Option Entry) (a : ℕ) (e : Option Entry) (xs : List Entered)
    → has a (addresses xs) ≡ false
    → Links objects xs
    → Links (update objects a e) xs
Links-update objects a e [] out l = tt
Links-update objects a e (x ∷ xs) out l =
    (ground arith, Links-update objects a e xs (ground arith) l.1)

contain_from-find :
    (fuel key : ℕ) (objects : ℕ → Option Entry) (xs : List Entered)
    → Links objects xs
    → length xs < fuel
    → contain_from fuel objects key (top_of xs) ≡ done (find key xs)
unfolding contain_from
contain_from-find zero key objects xs l enough = absurd (omega arith)
contain_from-find (suc fuel) key objects [] l enough = refl
contain_from-find (suc fuel) key objects (x ∷ xs) l enough =
    rw l.0 (ground (arith, contain_from-find fuel key objects xs l.1))

entered-top : (xs : List Entered) → (entered xs).top ≡ top_of xs
unfolding enter_object
entered-top [] = refl
entered-top (x ∷ xs) = refl

entered-Links : (xs : List Entered) → Apart xs → Links (entered xs).objects xs
unfolding enter_object
entered-Links [] d = tt
entered-Links (x ∷ xs) d = (
  ground (arith, entered-top xs),
  Links-update (entered xs).objects x.address
      (some (record { next = (entered xs).top; key = x.key; value = x.value })) xs d.0
      (entered-Links xs d.1),
)

-- While its objects live, contain of the stack of a thread returns the value of the object with the
-- key that entered last, and null when none has the key.
pub contain-entered :
    (fuel key : ℕ) (xs : List Entered)
    → Apart xs
    → length xs < fuel
    → contain fuel (entered xs) key ≡ done (find key xs)
unfolding contain
contain-entered fuel key xs d enough =
    ap (contain_from fuel (entered xs).objects key) (entered-top xs)
    ∙ contain_from-find fuel key (entered xs).objects xs (entered-Links xs d) enough

fiber-same :
    (xs : List Entered)
    → ((entered_fiber xs).objects ≡ (entered xs).objects)
      × (element_of (entered_fiber xs).top ≡ (entered xs).top)
unfolding enter_object enter_fiber
fiber-same [] = (refl, refl)
fiber-same (x ∷ xs) =
    let (o, t) = fiber-same xs in
    (λ i. update (o i) x.address (some (record { next = t i; key = x.key; value = x.value })), refl)

-- The stack of a fiber finds what that of a thread finds.
pub contain_in_fiber-contain :
    (fuel key : ℕ) (xs : List Entered)
    → contain_in_fiber fuel (entered_fiber xs) key ≡ contain fuel (entered xs) key
unfolding contain_in_fiber contain
contain_in_fiber-contain fuel key xs =
    let (o, t) = fiber-same xs in λ i. contain_from fuel (o i) key (t i)

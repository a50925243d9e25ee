-- ===== src/Net/EpollSelector/Reach.antt =====
-- registerObject, deregisterObject and select of EpollSelector: the states that calls reach, and the notifiers given out in
-- them.
use ustevent.Prelude.{
  ℕ, ◌≡◌, ◌∙◌, refl, sym, ap, subst, arith, Bool, true, false, ◌||◌, Bool-cases, inl, inr, Option,
  none, some, List, [], ◌∷◌, ◌++◌, ℤ, pos, Outcome, done, spin, fault, All, is_positive,
}
use ustevent.Core.BasicSemaphore.{semaphore}
use ustevent.Core.ListNodeAllocator
use ustevent.Core.ListNodeAllocator.{ListNodeAllocator}
use ustevent.Core.ListNodeAllocator.Chains.{has}
use ustevent.Net.Platform.{CallResult, returned, failed}
use ustevent.Net.EpollSelector.{
  EventNotifier, EpollSelector, create_selector, init_epoll_fd, init_signal_fd, set_notifier,
  register_object, deregister_object, EventData, of_signal_fd, of_notifier, EpollEvent, handle,
  is_signal, notified, select,
}
use ustevent.Net.EpollSelector.Notifiers.{
  Clean, Serving, set_notifier-Serving, deregister_object-Serving, register_object-Serving,
  register_object-failed,
}

-- The events are of notifiers that are given out, or of the signal.
abbrev pub known : List ℕ → EventData → Bool
known used of_signal_fd = true
known used (of_notifier none) = true
known used (of_notifier (some n)) = has n used

abbrev pub Known : List ℕ → List EpollEvent → Type 0
Known used = All (λ e. known used e.stored ≡ true)

select-Serving :
    (low : ℕ → ℕ) (s : EpollSelector) (used : List ℕ) (es : List EpollEvent)
    → Serving s used
    → Known used es
    → Serving (select low s es) used
unfolding select
select-Serving low s used [] h k = h
select-Serving low s used (e ∷ es) h k =
    select-Serving low (handle low s e e.stored) used es (handled e.stored k.0) k.1
  where
    handled : (stored : EventData) → known used stored ≡ true → Serving (handle low s e stored) used
    handled of_signal_fd i = h
    handled (of_notifier none) i = h
    handled (of_notifier (some n)) i = elim (Bool-cases (is_signal low s n)) [
      | inl z ↦ simp z h
      | inr z ↦ simp z (set_notifier-Serving s n (notified (s.notifier_pool.value n) e) used i h)
    ]

-- What has been called: `used` are the notifiers that are given out.
pub data Reached : EpollSelector → List ℕ → Type 0 where
  created :
      (signal : ℕ) (polling signalling added closed : CallResult) (s : EpollSelector)
      → create_selector signal polling signalling added closed ≡ done s
      → Reached s []
  registers :
      (s t : EpollSelector) (used : List ℕ) (descriptor : Option ℕ) (k n : ℕ) (error : ℤ)
      → Reached s used
      → register_object s descriptor (returned k) ≡ done (some n, error, t)
      → Reached t (used ++ n ∷ [])
  fails :
      (s t : EpollSelector) (used : List ℕ) (descriptor : Option ℕ) (e : ℕ) (error : ℤ)
      → Reached s used
      → register_object s descriptor (failed e) ≡ done (none, error, t)
      → Reached t used
  deregisters :
      (s : EpollSelector) (n : ℕ) (xs ys : List ℕ)
      → Reached s (xs ++ n ∷ ys)
      → Reached (deregister_object s (some n)) (xs ++ ys)
  selects :
      (low : ℕ → ℕ) (s : EpollSelector) (used : List ℕ) (es : List EpollEvent)
      → Reached s used
      → Known used es
      → Reached (select low s es) used
  waits :
      (s : EpollSelector) (used : List ℕ) (n : ℕ) (w : EventNotifier)
      → Reached s used
      → has n used ≡ true
      → Reached (set_notifier s s.notifier_pool n w) used

-- The result of a call that returns.
abbrev value_of : {A : Type 0} → A → Outcome A → A
value_of d (done a) = a
value_of d spin = d
value_of d fault = d

created-Serving :
    (signal : ℕ) (polling signalling added closed : CallResult) (s : EpollSelector)
    → create_selector signal polling signalling added closed ≡ done s
    → Serving s []
unfolding create_selector ListNodeAllocator.create semaphore
created-Serving signal polling signalling added closed s e =
    elim (Bool-cases (
      is_positive (init_epoll_fd polling).0
      || is_positive (init_signal_fd signalling added closed).0)) [
        | inl h ↦
            let z : fault ≡ done s = simp h at e in
            absurd (
              subst (λ o. elim o as (λ _. Type 0) [ spin ↦ Unit | fault ↦ Unit | done t ↦ ⊥ ]) z tt)
        | inr h ↦
            subst (λ t. Serving t []) (ap (value_of s) (simp h at e))
              (record {
                f = 1;
                fs = [];
                pool = record {
                  size = omega arith;
                  first = refl;
                  final = refl;
                  free_chain = refl;
                  distinct = (refl, tt);
                  below = (omega arith, tt);
                };
                clean = λ a i. (refl, refl);
              })
      ]

-- What `registers` leaves.
abbrev Left : List ℕ → Option ℕ × ℤ × EpollSelector → Type 0
Left used (none, e, t) = Serving t used
Left used (some n, e, t) = Serving t (used ++ n ∷ [])

pub Reached-Serving : (s : EpollSelector) (used : List ℕ) → Reached s used → Serving s used
Reached-Serving _ _ (created signal polling signalling added closed s e) =
    created-Serving signal polling signalling added closed s e
Reached-Serving _ _ (registers s t used descriptor k n error r e) =
    let (m, u, q, out, clean, at, g) =
      register_object-Serving s descriptor k used (Reached-Serving s used r) in
    subst (Left used) (ap (value_of (none, error, t)) (sym q ∙ e)) g
Reached-Serving _ _ (fails s t used descriptor k error r e) =
    let (u, q, g) = register_object-failed s descriptor k used (Reached-Serving s used r) in
    subst (Left used) (ap (value_of (none, error, t)) (sym q ∙ e)) g
Reached-Serving _ _ (deregisters s n xs ys r) =
    deregister_object-Serving s n xs ys (Reached-Serving s (xs ++ n ∷ ys) r)
Reached-Serving _ _ (selects low s used es r k) =
    select-Serving low s used es (Reached-Serving s used r) k
Reached-Serving _ _ (waits s used n w r i) =
    set_notifier-Serving s n w used i (Reached-Serving s used r)

-- Whatever registrations, failed registrations, deregistrations of notifiers in use, selects of events of notifiers in
-- use and waits on them have come before: a registration that `::epoll_ctl` accepts returns, without an error, a
-- notifier that is not in use, which then has the descriptor, and both of whose semaphores have an `_atomic_count` of 0.
pub register_object-Reached :
    (s : EpollSelector) (used : List ℕ) (descriptor : Option ℕ) (k : ℕ)
    → Reached s used
    → (n : ℕ) × (t : EpollSelector) × (register_object s descriptor (returned k)
        ≡ done (some n, pos 0, t))
      × (has n used ≡ false)
      × Clean (t.notifier_pool.value n)
      × ((t.notifier_pool.value n).descriptor ≡ descriptor)
register_object-Reached s used descriptor k r =
    let (n, t, e, out, clean, at, g) =
      register_object-Serving s descriptor k used (Reached-Serving s used r) in
    (n, t, e, out, clean, at)

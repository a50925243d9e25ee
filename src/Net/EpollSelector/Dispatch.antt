-- ===== src/Net/EpollSelector/Dispatch.antt =====
-- What the events of one `select` do to the semaphores of a notifier.
use ustevent.Prelude.{
  ℕ, zero, suc, ◌≡◌, ◌∙◌, refl, ap, arith, Bool, true, false, ◌||◌, ◌&&◌, not, Bool-cases, inl, inr,
  none, some, List, [], ◌∷◌, ◌==◌, if◌then◌else◌,
}
use ustevent.Core.BasicSemaphore
use ustevent.Core.BasicSemaphore.{BasicSemaphore}
use ustevent.Net.EpollSelector.{
  EventNotifier, EpollSelector, EventData, of_signal_fd, of_notifier, EpollEvent, notified,
  is_signal, handle, select,
}

-- `notify`, `k` times.
abbrev pub notified_times : ℕ → BasicSemaphore → BasicSemaphore
notified_times zero s = s
notified_times (suc k) s = notified_times k (BasicSemaphore.notify s).1

abbrev pub concerns : ℕ → EventData → Bool
concerns n of_signal_fd = false
concerns n (of_notifier none) = false
concerns n (of_notifier (some m)) = m == n

-- The events of `n` that say that it can be read or has failed, and those that say only that it can be written.
abbrev pub reads : EpollEvent → Bool
reads e = e.epollin || e.epollerr || e.epollhup

abbrev pub ins : ℕ → List EpollEvent → ℕ
ins n [] = 0
ins n (e ∷ es) = let rest = ins n es in if concerns n e.stored && reads e then suc rest else rest

abbrev pub outs : ℕ → List EpollEvent → ℕ
outs n [] = 0
outs n (e ∷ es) =
    let rest = outs n es in
    if concerns n e.stored && (not (reads e) && e.epollout) then suc rest else rest

-- What the events do to the notifier `n`, by themselves.
abbrev told : ℕ → EventNotifier → List EpollEvent → EventNotifier
told n w [] = w
told n w (e ∷ es) = told n (if concerns n e.stored then notified w e else w) es

module _ (n : ℕ) where
  told-counts :
      (w : EventNotifier) (es : List EpollEvent)
      → ((told n w es).event_in ≡ notified_times (ins n es) w.event_in)
        × ((told n w es).event_out ≡ notified_times (outs n es) w.event_out)
        × ((told n w es).descriptor ≡ w.descriptor)
  unfolding notified
  told-counts w [] = (refl, refl, refl)
  told-counts w (e ∷ es) = elim (Bool-cases (concerns n e.stored)) [
    | inr c ↦ simp c (told-counts w es)
    | inl c ↦ elim (Bool-cases (reads e)) [
      | inl r ↦
          simp (c, r)
            (told-counts (record w { event_in = (BasicSemaphore.notify w.event_in).1 }) es)
      | inr r ↦
          let readable : e.epollin ≡ false = ground arith in
          let err : e.epollerr ≡ false = ground arith in
          let hup : e.epollhup ≡ false = ground arith in
          elim (Bool-cases e.epollout) [
            | inl o ↦
                simp (c, readable, err, hup, o)
                  (told-counts (record w { event_out = (BasicSemaphore.notify w.event_out).1 }) es)
            | inr o ↦ simp (c, readable, err, hup, o) (told-counts w es)
          ]
    ]
  ]

module _ (low : ℕ → ℕ) (n : ℕ) where
  handle-value :
      (s : EpollSelector) (e : EpollEvent) (stored : EventData)
      → is_signal low s n ≡ false
      → (handle low s e stored).notifier_pool.value n ≡ (
          if concerns n stored
          then notified (s.notifier_pool.value n) e
          else s.notifier_pool.value n)
  handle-value s e of_signal_fd h = refl
  handle-value s e (of_notifier none) h = refl
  handle-value s e (of_notifier (some m)) h = elim (Bool-cases (m == n)) [
    | inl q ↦
        let same : m ≡ n = ground arith in
        let here : (n == n) ≡ true = ground arith in rw (same, h, here) refl
    | inr q ↦ elim (Bool-cases (is_signal low s m)) [
      | inl z ↦ simp (q, z) refl
      | inr z ↦ simp (q, z) refl
    ]
  ]

  handle-signal_fd :
      (s : EpollSelector) (e : EpollEvent) (stored : EventData)
      → (handle low s e stored).signal_fd ≡ s.signal_fd
  handle-signal_fd s e of_signal_fd = refl
  handle-signal_fd s e (of_notifier none) = refl
  handle-signal_fd s e (of_notifier (some m)) = elim (Bool-cases (is_signal low s m)) [
    | inl z ↦ simp z refl
    | inr z ↦ simp z refl
  ]

  select-told :
      (s : EpollSelector) (es : List EpollEvent)
      → is_signal low s n ≡ false
      → (select low s es).notifier_pool.value n ≡ told n (s.notifier_pool.value n) es
  unfolding select
  select-told s [] h = refl
  select-told s (e ∷ es) h =
      select-told (handle low s e e.stored) es (rw (is_signal, handle-signal_fd s e e.stored) h)
      ∙ ap (λ w. told n w es) (handle-value s e e.stored h)

-- One `select` notifies the EVENT_IN semaphore of a notifier once for each of its events with EPOLLIN, EPOLLERR or
-- EPOLLHUP, the EVENT_OUT semaphore once for each of its events with none of these and EPOLLOUT, and keeps the
-- descriptor, whatever the other events are, where the pointer to the notifier, read as a descriptor, is not that
-- of the signals.
pub select-notifies :
    (low : ℕ → ℕ) (n : ℕ) (s : EpollSelector) (es : List EpollEvent)
    → is_signal low s n ≡ false
    → let before = s.notifier_pool.value n in
      let after = (select low s es).notifier_pool.value n in
      (after.event_in ≡ notified_times (ins n es) before.event_in)
      × (after.event_out ≡ notified_times (outs n es) before.event_out)
      × (after.descriptor ≡ before.descriptor)
select-notifies low n s es h =
    rw (select-told low n s es h) (told-counts n (s.notifier_pool.value n) es)

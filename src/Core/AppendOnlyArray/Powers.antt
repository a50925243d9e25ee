-- ===== src/Core/AppendOnlyArray/Powers.antt =====
-- The two tables of AppendOnlyArray, of the sizes of the buckets: powers of two.
use ustevent.Prelude.{ℕ, zero, suc, ◌+◌, ◌^◌, ◌<◌, ◌≡◌, refl, arith, List, [], ◌∷◌, length, done}
use ustevent.Core.AppendOnlyArray.{bucket_size, bucket_size_sum, entry}

-- The entries are the powers of two from `2 ^ k` on, `d` less.
abbrev pub Powers : ℕ → ℕ → List ℕ → Type 0
Powers d k [] = Unit
Powers d k (x ∷ xs) = (x + d ≡ 2 ^ k) × Powers d (suc k) xs

pub entry-Powers :
    (d k i : ℕ) (xs : List ℕ)
    → Powers d k xs
    → i < length xs
    → (x : ℕ) × (entry xs i ≡ done x) × (x + d ≡ 2 ^ (k + i))
unfolding entry
entry-Powers d k i [] h l = absurd (omega arith)
entry-Powers d k zero (x ∷ xs) h l = (x, refl, let e : k + 0 ≡ k = omega arith in rw e h.0)
entry-Powers d k (suc i) (x ∷ xs) h l =
    let (y, p, q) = entry-Powers d (suc k) i xs h.1 (omega arith) in
    let e : k + suc i ≡ suc k + i = omega arith in (y, p, rw e q)

pub bucket_size-Powers : Powers 0 0 bucket_size
bucket_size-Powers = (
  refl,
  (
    refl,
    (
      refl,
      (
        refl,
        (
          refl,
          (
            refl,
            (
              refl,
              (
                refl,
                (
                  refl,
                  (
                    refl,
                    (
                      refl,
                      (
                        refl,
                        (
                          refl,
                          (
                            refl,
                            (
                              refl,
                              (
                                refl,
                                (
                                  refl,
                                  (
                                    refl,
                                    (
                                      refl,
                                      (
                                        refl,
                                        (
                                          refl,
                                          (
                                            refl,
                                            (
                                              refl,
                                              (
                                                refl,
                                                (
                                                  refl,
                                                  (
                                                    refl,
                                                    (
                                                      refl,
                                                      (refl, (refl, (refl, (refl, (refl, tt))))),
                                                    ),
                                                  ),
                                                ),
                                              ),
                                            ),
                                          ),
                                        ),
                                      ),
                                    ),
                                  ),
                                ),
                              ),
                            ),
                          ),
                        ),
                      ),
                    ),
                  ),
                ),
              ),
            ),
          ),
        ),
      ),
    ),
  ),
)

pub bucket_size_sum-Powers : Powers 1 1 bucket_size_sum
bucket_size_sum-Powers = (
  refl,
  (
    refl,
    (
      refl,
      (
        refl,
        (
          refl,
          (
            refl,
            (
              refl,
              (
                refl,
                (
                  refl,
                  (
                    refl,
                    (
                      refl,
                      (
                        refl,
                        (
                          refl,
                          (
                            refl,
                            (
                              refl,
                              (
                                refl,
                                (
                                  refl,
                                  (
                                    refl,
                                    (
                                      refl,
                                      (
                                        refl,
                                        (
                                          refl,
                                          (
                                            refl,
                                            (
                                              refl,
                                              (
                                                refl,
                                                (
                                                  refl,
                                                  (
                                                    refl,
                                                    (
                                                      refl,
                                                      (refl, (refl, (refl, (refl, (refl, tt))))),
                                                    ),
                                                  ),
                                                ),
                                              ),
                                            ),
                                          ),
                                        ),
                                      ),
                                    ),
                                  ),
                                ),
                              ),
                            ),
                          ),
                        ),
                      ),
                    ),
                  ),
                ),
              ),
            ),
          ),
        ),
      ),
    ),
  ),
)
